-- ===== src/Operator/Runner.antt =====
-- What operator/internal/controller/actionsrunner/reconciler.go works on: the ConfigMap, the Secret,
-- the disruption budget and the job of an ActionsRunner. The API server and the collection of wires
-- are the parameter `RunnerCluster`; `ctrl.Result` is always zero.
pub mod Pass
pub mod Keeps
pub mod Jobs
use kube_actions.Prelude.{
  ℕ, nat_eq, ◌&&◌, List, [], ◌∷◌, String, Bool, true, false, Option, none, some, not, ◌||◌,
  if◌then◌else◌, ◌==◌,
}
use kube_actions.Prelude.Result
use kube_actions.Prelude.Result.{Result}
use kube_actions.Operator.Api.Meta.{
  ObjectKey, ObjectMeta, ApiError, not_found, ignore_not_found, ignore_already_exists,
  is_being_deleted,
}
use kube_actions.Operator.Api.Runner.{
  ActionsRunner, ActionsRunnerJob, PersistentVolumeClaimPhase, PodPhase, lost, succeeded, failed,
  unknown, no_claim, no_pod,
}
use kube_actions.Operator.Pod.Build.{no_metadata}
use kube_actions.Operator.DotFiles.{Files, Json, ConfigMap, Secret, to_config_map, to_secret}
use kube_actions.Operator.Token.{Error, is_unrecoverable}

-- `policyv1.PodDisruptionBudget`, with the fields that the code sets.
pub record PodDisruptionBudget : Type 0 where
  pub metadata : ObjectMeta
  pub max_unavailable : ℕ
  pub match_runner : String

-- `ReconciliationAction`
pub data ReconciliationAction : Type 0 where
  nothing create update delete : ReconciliationAction

-- `CalculateReconciliationAction`, by whether the objects are zero.
unfoldable pub calculate_reconciliation_action : Bool → Bool → ReconciliationAction
calculate_reconciliation_action true false = create
calculate_reconciliation_action false false = update
calculate_reconciliation_action false true = delete
calculate_reconciliation_action true true = nothing

-- The switches on the phases: whether a job is completed.
unfoldable pub completed : ActionsRunnerJob → Bool
completed arj =
    claim_is_lost arj.status.persistent_volume_claim_phase || pod_is_over arj.status.pod_phase
  where
    claim_is_lost : PersistentVolumeClaimPhase → Bool
    claim_is_lost lost = true
    claim_is_lost _ = false

    pod_is_over : PodPhase → Bool
    pod_is_over succeeded = true
    pod_is_over failed = true
    pod_is_over unknown = true
    pod_is_over _ = false

-- What the reconciler returns an error of.
pub data RunnerError : Type 0 where
  of_api : ApiError → RunnerError
  of_wire : Error → RunnerError
  of_build : String → RunnerError

-- The API server, and the collection of wires: `wire_for` is `WireFor`, whose wire is given by its
-- files; `try_destroy` is `TryDestroy`; `receive_job_request` tries to receive from `JobRequests()`;
-- `ensure_listening` is `if !w.Listening() { w.Listen() }`.
pub record RunnerCluster (Dot : Type 0) : Type 1 where
  pub World : Type 0
  pub get_runner : ObjectKey → World → Result ApiError ActionsRunner
  pub get_config_map : ObjectKey → World → Result ApiError ConfigMap
  pub get_secret : ObjectKey → World → Result ApiError Secret
  pub get_budget : ObjectKey → World → Result ApiError PodDisruptionBudget
  pub get_job : ObjectKey → World → Result ApiError ActionsRunnerJob
  pub create_config_map : ConfigMap → World → Option ApiError × World
  pub update_config_map : ConfigMap → World → Option ApiError × World
  pub delete_config_map : ConfigMap → World → Option ApiError × World
  pub create_secret : Secret → World → Option ApiError × World
  pub update_secret : Secret → World → Option ApiError × World
  pub delete_secret : Secret → World → Option ApiError × World
  pub create_budget : PodDisruptionBudget → World → Option ApiError × World
  pub update_budget : PodDisruptionBudget → World → Option ApiError × World
  pub delete_budget : PodDisruptionBudget → World → Option ApiError × World
  pub create_job : ActionsRunnerJob → World → Option ApiError × World
  pub delete_job : ActionsRunnerJob → World → Option ApiError × World
  pub try_destroy : ObjectKey → World → Option Error × World
  pub wire_for : ActionsRunner → World → Result Error Dot × World
  pub receive_job_request : Dot → World → Bool × World
  pub ensure_listening : Dot → World → World

-- `client.IgnoreNotFound` after a `Get`: the object, none if it is not there, or an error.
abbrev pub lookup {ℓ} : {A : Type ℓ} → Result ApiError A → Result ApiError (Option A)
lookup (Result.ok a) = Result.ok (some a)
lookup (Result.err not_found) = Result.ok none
lookup (Result.err e) = Result.err e

abbrev pub leaving {ℓ} : {A : Type ℓ} → (A → ObjectMeta) → Option A → Bool
leaving metadata none = false
leaving metadata (some a) = is_being_deleted (metadata a)
