-- ===== src/Operator/ReplicaSet.antt =====
-- operator/internal/controller/actionsrunnerreplicaset/reconciler.go: as many ActionsRunners as the
-- replica set asks for. The API server and the libraries are the parameter `Cluster`.
pub mod Scaling
use Prim.Native.String.{◌++◌ as str_append}
use Prim.Native.Nat.{◌^◌}
use kube_actions.Prelude.{
  ℕ, ◌+◌, ◌-◌, String, Bool, true, false, List, [], ◌∷◌, Option, none, some, ◌==◌, not, ltb, leb,
  ◌&&◌, ◌||◌, length, select, if◌then◌else◌,
}
use kube_actions.Prelude.GoMap.{GoMap}
use kube_actions.Prelude.Result
use kube_actions.Prelude.Result.{Result}
use kube_actions.Prelude.Outcome.{Outcome, ok, err, panic}
use kube_actions.Operator.Api.Meta.{
  ObjectKey, ObjectMeta, ApiError, not_found, ignore_not_found, is_being_deleted,
}
use kube_actions.Operator.Api.Runner.{ActionsRunner, ActionsRunnerReplicaSet, deep_equal}

-- The calls of the API server, and what is called of the libraries: `LabelSelectorAsSelector` with
-- `String`, and `SetControllerReference`, which sets the owner.
pub record Cluster : Type 1 where
  pub World : Type 0
  pub get_replica_set : ObjectKey → World → Result ApiError ActionsRunnerReplicaSet
  pub list_runners : String → GoMap String → World → Result ApiError (List ActionsRunner)
  pub create_runner : ActionsRunner → World → Option ApiError × World
  pub update_runner : ActionsRunner → World → Option ApiError × World
  pub delete_runner : ActionsRunner → World → Option ApiError × World
  pub update_status : ActionsRunnerReplicaSet → World → Option ApiError × World
  pub selector_string : GoMap String → Result ApiError String
  pub set_controller_reference : ObjectMeta → ObjectMeta → Result ApiError ObjectMeta

unfoldable pub matching_labels : ActionsRunnerReplicaSet → GoMap String
matching_labels rs =
    ("kube-actions.inloco.com.br/actions-runner-replica-set", rs.metadata.name) ∷ []

-- `actual < int(replicas)` and `actual > int(replicas)`: a `uint` of 2^63 or more is a negative
-- `int`.
abbrev pub int_limit : ℕ
int_limit = 2 ^ 63

unfoldable pub fewer : ℕ → ℕ → Bool
fewer actual replicas = ltb replicas int_limit && ltb actual replicas

unfoldable pub more : ℕ → ℕ → Bool
more actual replicas = leb int_limit replicas || ltb replicas actual

-- The runners that are counted.
unfoldable pub not_being_deleted : List ActionsRunner → List ActionsRunner
not_being_deleted = select (λ (ar : ActionsRunner). not (is_being_deleted ar.metadata))

module _ (cluster : Cluster) where
  open cluster use {
    World, get_replica_set, list_runners, create_runner, update_runner, delete_runner,
    update_status, selector_string, set_controller_reference,
  }

  -- `ctrl.Result` is always zero: what is left is the error.
  abbrev pub Reconciled : Type 0
  Reconciled = Outcome ApiError (Unit {0}) × World

  abbrev pub finish : Option ApiError × World → Reconciled
  finish (none, w) = (ok tt, w)
  finish (some e, w) = (err e, w)

  unfoldable pub desired_metadata : ActionsRunnerReplicaSet → ObjectMeta
  unfolding matching_labels
  desired_metadata rs = record {
    name = "";
    generate_name = str_append rs.metadata.name "-";
    namespace = rs.metadata.namespace;
    labels = matching_labels rs;
    annotations = [];
    deletion_timestamp = none;
    owner = none;
  }

  unfoldable pub desired_actions_runner : ActionsRunnerReplicaSet → Result ApiError ActionsRunner
  unfolding desired_metadata
  desired_actions_runner rs = elim (set_controller_reference rs.metadata (desired_metadata rs)) [
    | Result.ok metadata ↦ Result.ok (record { metadata = metadata; spec = rs.spec.template })
    | Result.err e ↦ Result.err e
  ]

  unfoldable pub desired_selector : ActionsRunnerReplicaSet → Result ApiError String
  unfolding matching_labels
  desired_selector rs = selector_string (matching_labels rs)

  unfoldable pub update_status_replicas : ActionsRunnerReplicaSet → ℕ → World → Reconciled
  unfolding ignore_not_found
  update_status_replicas rs replicas w =
      let (e, w') =
        update_status (record rs { status = record (rs.status) { replicas = replicas } }) w in
      finish (ignore_not_found e, w')

  -- The branch `actual < desired`.
  unfoldable pub scale_up : ActionsRunnerReplicaSet → ℕ → World → Reconciled
  scale_up rs actual w = elim (desired_actions_runner rs) [
    | Result.err e ↦ (err e, w)
    | Result.ok runner ↦
        let (e, w') = create_runner runner w in
        elim e [ some e' ↦ (err e', w') | none ↦ update_status_replicas rs (actual + 1) w' ]
  ]

  -- The branch `actual > desired`: it deletes `items[0]` of the whole list.
  unfoldable pub scale_down : ActionsRunnerReplicaSet → List ActionsRunner → ℕ → World → Reconciled
  scale_down rs [] actual w = (panic, w)
  scale_down rs (first ∷ items) actual w =
      let (e, w') = delete_runner first w in
      elim e [ some e' ↦ (err e', w') | none ↦ update_status_replicas rs (actual - 1) w' ]

  -- The loop over the counted runners: those with another spec are updated.
  unfoldable pub update_specs : ActionsRunnerReplicaSet → List ActionsRunner → World → Reconciled
  unfolding ignore_not_found
  update_specs rs [] w = (ok tt, w)
  update_specs rs (runner ∷ rest) w =
      let updated = update_runner (record runner { spec = rs.spec.template }) w in
      let after : Reconciled = elim (ignore_not_found updated.0) [
        | some e ↦ (err e, updated.1)
        | none ↦ update_specs rs rest updated.1
      ] in
      let skipped = update_specs rs rest w in
      if deep_equal runner.spec rs.spec.template then skipped else after

  unfoldable pub scale : ActionsRunnerReplicaSet → List ActionsRunner → World → Reconciled
  unfolding fewer more not_being_deleted
  scale rs items w =
      let runners = not_being_deleted items in
      let actual = length runners in
      if fewer actual rs.spec.replicas
      then scale_up rs actual w
      else if more actual rs.spec.replicas
      then scale_down rs items actual w
      else update_specs rs runners w

  unfoldable pub with_selector : ActionsRunnerReplicaSet → String → World → Reconciled
  unfolding ignore_not_found
  with_selector rs selector w =
      if not (rs.status.selector == selector)
      then (let (e, w') =
            update_status (record rs { status = record (rs.status) { selector = selector } }) w in
          finish (ignore_not_found e, w'))
      else elim (list_runners rs.metadata.namespace (matching_labels rs) w) [
        | Result.err e ↦ (err e, w)
        | Result.ok items ↦ scale rs items w
      ]

  unfoldable pub reconcile : ObjectKey → World → Reconciled
  unfolding with_selector
  reconcile key w = elim (get_replica_set key w) [
    | Result.err not_found ↦ (ok tt, w)
    | Result.err e ↦ (err e, w)
    | Result.ok rs ↦
        if is_being_deleted rs.metadata then (ok tt, w) else elim (desired_selector rs) [
          | Result.err e ↦ (err e, w)
          | Result.ok selector ↦ with_selector rs selector w
        ]
  ]
