-- ===== src/Operator/Job.antt =====
-- `Reconcile` of operator/internal/controller/actionsrunnerjob/reconciler.go: the volume claim and
-- the pod of a job. The API server is the parameter `JobCluster`; `ctrl.Result` is always zero, so
-- that the error is all that is returned.
pub mod Progress
use kube_actions.Prelude.{
  String, Bool, true, false, Option, none, some, not, nat_eq, ℕ, if◌then◌else◌,
}
use kube_actions.Prelude.Result
use kube_actions.Prelude.Result.{Result}
use kube_actions.Operator.Api.Meta.{
  ObjectKey, ObjectMeta, ApiError, not_found, other, ignore_not_found, ignore_already_exists,
  is_being_deleted,
}
use kube_actions.Operator.Api.Core.{Pod, PersistentVolumeClaim}
use kube_actions.Operator.Api.Runner.{
  ActionsRunner, ActionsRunnerJob, PersistentVolumeClaimPhase, PodPhase, no_claim, pending, bound,
  lost, no_pod, running, succeeded, failed, unknown,
}
use kube_actions.Operator.Pod.Build.{Environment, no_metadata, to_pod, to_persistent_volume_claim}

-- What the reconciler reads of a claim and of a pod in the cluster; `zero_claim` and `zero_pod` are
-- the variables that `Get` leaves alone.
pub record ClaimFound : Type 0 where
  pub metadata : ObjectMeta
  pub phase : PersistentVolumeClaimPhase

pub record PodFound : Type 0 where
  pub metadata : ObjectMeta
  pub phase : PodPhase

abbrev pub zero_claim : ClaimFound
zero_claim = record { metadata = no_metadata; phase = no_claim }

abbrev pub zero_pod : PodFound
zero_pod = record { metadata = no_metadata; phase = no_pod }

-- The phases are texts in Go; here they are told apart by a number.
abbrev claim_code : PersistentVolumeClaimPhase → ℕ
claim_code no_claim = 0
claim_code pending = 1
claim_code bound = 2
claim_code lost = 3

abbrev pod_code : PodPhase → ℕ
pod_code no_pod = 0
pod_code pending = 1
pod_code running = 2
pod_code succeeded = 3
pod_code failed = 4
pod_code unknown = 5

abbrev pub same_claim_phase : PersistentVolumeClaimPhase → PersistentVolumeClaimPhase → Bool
same_claim_phase p q = nat_eq (claim_code p) (claim_code q)

abbrev pub same_pod_phase : PodPhase → PodPhase → Bool
same_pod_phase p q = nat_eq (pod_code p) (pod_code q)

pub record JobCluster : Type 1 where
  pub World : Type 0
  pub get_job : ObjectKey → World → Result ApiError ActionsRunnerJob
  pub get_runner : ObjectKey → World → Result ApiError ActionsRunner
  pub get_claim : ObjectKey → World → Result ApiError ClaimFound
  pub get_pod : ObjectKey → World → Result ApiError PodFound
  pub create_claim : PersistentVolumeClaim → World → Option ApiError × World
  pub create_pod : Pod → World → Option ApiError × World
  pub delete_claim : ClaimFound → World → Option ApiError × World
  pub delete_pod : PodFound → World → Option ApiError × World
  pub update_job_status : ActionsRunnerJob → World → Option ApiError × World

module _ (environment : Environment) (cluster : JobCluster) where
  open cluster use {
    World, get_job, get_runner, get_claim, get_pod, create_claim, create_pod, delete_claim,
    delete_pod, update_job_status,
  }

  -- `ctrl.Result{}, nil`, or an error.
  abbrev pub Ended : Type 0
  Ended = Option ApiError × World

  -- The last statements of a branch: a call whose error is ignored if the object is gone.
  abbrev pub but_not_found : Ended → Ended
  but_not_found (e, w) = (ignore_not_found e, w)

  -- `return err` of a call, and else what follows.
  abbrev pub and_then : Ended → (World → Ended) → Ended
  and_then (some e, w) next = (some e, w)
  and_then (none, w) next = next w

  -- The claim is not there: it is created, if one is desired.
  unfoldable pub ensure_claim : ActionsRunner → ActionsRunnerJob → World → Ended
  unfolding to_persistent_volume_claim ignore_already_exists
  ensure_claim ar arj w = elim (to_persistent_volume_claim environment ar arj) [
    | Result.err e ↦ (some (other e), w)
    | Result.ok none ↦ (none, w)
    | Result.ok (some claim) ↦ let (e, w') = create_claim claim w in (ignore_already_exists e, w')
  ]

  -- The pod is not there: it is created.
  unfoldable pub ensure_pod : ActionsRunner → ActionsRunnerJob → World → Ended
  unfolding to_pod ignore_already_exists
  ensure_pod ar arj w = elim (to_pod environment ar arj) [
    | Result.err e ↦ (some (other e), w)
    | Result.ok pod ↦ let (e, w') = create_pod pod w in (ignore_already_exists e, w')
  ]

  -- From the pod's phase on.
  unfoldable pub follow_pod : ActionsRunnerJob → PodFound → World → Ended
  unfolding ignore_not_found is_being_deleted
  follow_pod arj pod w =
      if not (same_pod_phase arj.status.pod_phase pod.phase)
      then but_not_found (
          update_job_status (record arj { status = record (arj.status) { pod_phase = pod.phase } })
            w)
      else if is_being_deleted pod.metadata
      then (none, w)
      else if same_pod_phase pod.phase unknown
      then but_not_found (delete_pod pod w)
      else (none, w)

  -- From the `Get` of the pod on.
  unfoldable pub reconcile_pod : ObjectKey → ActionsRunner → ActionsRunnerJob → World → Ended
  unfolding ensure_pod follow_pod
  reconcile_pod key ar arj w = elim (get_pod key w) [
    | Result.err not_found ↦ and_then (ensure_pod ar arj w) (follow_pod arj zero_pod)
    | Result.err e ↦ (some e, w)
    | Result.ok pod ↦ follow_pod arj pod w
  ]

  -- From the claim's phase on.
  unfoldable pub follow_claim :
      ObjectKey → ActionsRunner → ActionsRunnerJob → ClaimFound → World → Ended
  unfolding ignore_not_found is_being_deleted reconcile_pod
  follow_claim key ar arj claim w =
      if not (same_claim_phase arj.status.persistent_volume_claim_phase claim.phase)
      then but_not_found (
          update_job_status
            (record arj {
              status = record (arj.status) { persistent_volume_claim_phase = claim.phase };
            })
            w)
      else if is_being_deleted claim.metadata
      then (none, w)
      else if same_claim_phase claim.phase lost
      then but_not_found (delete_claim claim w)
      else reconcile_pod key ar arj w

  unfoldable pub reconcile_claim : ObjectKey → ActionsRunner → ActionsRunnerJob → World → Ended
  unfolding ensure_claim follow_claim
  reconcile_claim key ar arj w = elim (get_claim key w) [
    | Result.err not_found ↦ and_then (ensure_claim ar arj w) (follow_claim key ar arj zero_claim)
    | Result.err e ↦ (some e, w)
    | Result.ok claim ↦ follow_claim key ar arj claim w
  ]

  unfoldable pub reconcile_job : ObjectKey → World → Ended
  unfolding reconcile_claim is_being_deleted
  reconcile_job key w = elim (get_job key w) [
    | Result.err not_found ↦ (none, w)
    | Result.err e ↦ (some e, w)
    | Result.ok arj ↦ if is_being_deleted arj.metadata then (none, w) else elim (get_runner key w) [
      | Result.err not_found ↦ (none, w)
      | Result.err e ↦ (some e, w)
      | Result.ok ar ↦
          if is_being_deleted ar.metadata then (none, w) else reconcile_claim key ar arj w
    ]
  ]
