-- ===== src/Operator/Runner/Pass.antt =====
-- `Reconcile` of operator/internal/controller/actionsrunner/reconciler.go, with `ToPodDisruptionBudget`
-- and `ToActionsRunnerJob` of actionsrunner/util/converters.go. An object that is found is never the
-- zero value, and the metrics are left out.
use kube_actions.Prelude.{
  nat_eq, ◌&&◌, [], ◌∷◌, String, Bool, true, false, Option, none, some, not, if◌then◌else◌, ◌==◌,
}
use kube_actions.Prelude.Result.{Result}
use kube_actions.Operator.Api.Meta.{
  ObjectKey, ObjectMeta, ApiError, not_found, ignore_not_found, ignore_already_exists,
  is_being_deleted,
}
use kube_actions.Operator.Api.Runner.{ActionsRunner, ActionsRunnerJob, no_claim, no_pod}
use kube_actions.Operator.Pod.Build.{no_metadata}
use kube_actions.Operator.DotFiles.{Files, Json, ConfigMap, Secret, to_config_map, to_secret}
use kube_actions.Operator.Token.{Error, is_unrecoverable}
use kube_actions.Operator.Runner.{
  PodDisruptionBudget, ReconciliationAction, create, update, delete, nothing,
  calculate_reconciliation_action, completed, RunnerError, of_api, of_wire, of_build, RunnerCluster,
  lookup, leaving,
}

module _ {R C K : Type 0} (runner_json : Json R) (credentials_json : Json C) (rsa_json : Json K)
    (set_controller_reference : ObjectMeta → ObjectMeta → Result String ObjectMeta)
    (cluster : RunnerCluster (Files R C K)) where
  open cluster use {
    World, get_runner, get_config_map, get_secret, get_budget, get_job, create_config_map,
    update_config_map, delete_config_map, create_secret, update_secret, delete_secret,
    create_budget, update_budget, delete_budget, create_job, delete_job, try_destroy, wire_for,
    receive_job_request, ensure_listening,
  }

  -- `ctrl.Result{}, nil`, or an error.
  abbrev pub Ended : Type 0
  Ended = Option RunnerError × World

  -- `return err` of a call, and else what follows.
  abbrev pub and_then : Option ApiError × World → (World → Ended) → Ended
  and_then (some e, w) next = (some (of_api e), w)
  and_then (none, w) next = next w

  abbrev pub but_not_found : Option ApiError × World → Option ApiError × World
  but_not_found (e, w) = (ignore_not_found e, w)

  abbrev pub but_exists : Option ApiError × World → Option ApiError × World
  but_exists (e, w) = (ignore_already_exists e, w)

  -- `ToConfigMap` or `ToSecret`, and what follows if it succeeds.
  abbrev pub built {ℓ} : {A : Type ℓ} → Result String A → World → (A → Ended) → Ended
  built (Result.err e) w next = (some (of_build e), w)
  built (Result.ok a) w next = next a

  abbrev pub config_map_for : ActionsRunner → Files R C K → Result String ConfigMap
  config_map_for ar files =
      to_config_map runner_json credentials_json rsa_json set_controller_reference files ar

  abbrev pub secret_for : ActionsRunner → Files R C K → Result String Secret
  secret_for ar files =
      to_secret runner_json credentials_json rsa_json set_controller_reference files ar

  abbrev pub same_name : ActionsRunner → ObjectMeta
  same_name ar = record no_metadata { name = ar.metadata.name; namespace = ar.metadata.namespace }

  unfoldable pub to_pod_disruption_budget : ActionsRunner → Result String PodDisruptionBudget
  to_pod_disruption_budget ar = elim (set_controller_reference ar.metadata (same_name ar)) [
    | Result.err e ↦ Result.err e
    | Result.ok metadata ↦
        Result.ok
          (record { metadata = metadata; max_unavailable = 0; match_runner = ar.metadata.name })
  ]

  unfoldable pub to_actions_runner_job : ActionsRunner → Result String ActionsRunnerJob
  to_actions_runner_job ar =
      elim (set_controller_reference ar.metadata (record (same_name ar) {
        labels = ("kube-actions.inloco.com.br/actions-runner", ar.metadata.name) ∷ [];
      })) [
        | Result.err e ↦ Result.err e
        | Result.ok metadata ↦ Result.ok (record {
          metadata = metadata;
          status = record { persistent_volume_claim_phase = no_claim; pod_phase = no_pod };
        })
      ]

  -- The end: the job is created on a request, waited for, or deleted once it is completed.
  unfoldable pub follow_job : ObjectKey → ActionsRunner → Files R C K → World → Ended
  unfolding to_actions_runner_job completed is_being_deleted ignore_not_found ignore_already_exists
  follow_job key ar wire w = elim (get_job key w) [
    | Result.err not_found ↦
        let (requested, w') = receive_job_request wire w in
        if requested
        then built (to_actions_runner_job ar) w'
            (λ arj. and_then (but_exists (create_job arj w')) (λ w''. (none, w'')))
        else (none, ensure_listening wire w')
    | Result.err e ↦ (some (of_api e), w)
    | Result.ok arj ↦
        if is_being_deleted arj.metadata
        then (none, w)
        else if not (completed arj)
        then (none, w)
        else and_then (but_not_found (delete_job arj w)) (λ w'. (none, w'))
  ]

  -- `reflect.DeepEqual` of the two budgets' specs.
  abbrev same_budget : PodDisruptionBudget → PodDisruptionBudget → Bool
  same_budget a b = nat_eq a.max_unavailable b.max_unavailable && (a.match_runner == b.match_runner)

  -- The switch on the action for the budget.
  unfoldable pub by_action :
      ReconciliationAction
      → PodDisruptionBudget
      → PodDisruptionBudget
      → World
      → Option ApiError × World
  unfolding ignore_not_found ignore_already_exists
  by_action nothing actual desired w = (none, w)
  by_action create actual desired w = but_exists (create_budget desired w)
  by_action update actual desired w =
      if same_budget actual desired then (none, w) else but_not_found (update_budget desired w)
  by_action delete actual desired w = but_not_found (delete_budget desired w)

  abbrev zero_budget : PodDisruptionBudget
  zero_budget = record { metadata = no_metadata; max_unavailable = 0; match_runner = "" }

  -- The action for what was found; the desired budget is never zero.
  unfoldable pub write_budget :
      Option PodDisruptionBudget → PodDisruptionBudget → World → Option ApiError × World
  unfolding by_action calculate_reconciliation_action
  write_budget none desired w =
      by_action (calculate_reconciliation_action true false) zero_budget desired w
  write_budget (some actual) desired w =
      by_action (calculate_reconciliation_action false false) actual desired w

  -- From the `Get` of the budget on.
  unfoldable pub follow_budget : ObjectKey → ActionsRunner → Files R C K → World → Ended
  unfolding follow_job to_pod_disruption_budget write_budget is_being_deleted ignore_not_found
      ignore_already_exists
  follow_budget key ar wire w = elim (lookup (get_budget key w)) [
    | Result.err e ↦ (some (of_api e), w)
    | Result.ok budget ↦
        if leaving (λ b. b.metadata) budget
        then (none, w)
        else built (to_pod_disruption_budget ar) w
            (λ desired. and_then (write_budget budget desired w) (follow_job key ar wire))
  ]

  -- The two updates, with the wire's files.
  unfoldable pub update_files : ObjectKey → ActionsRunner → Files R C K → World → Ended
  unfolding follow_budget
  update_files key ar wire w = built (config_map_for ar wire) w (λ config_map.
      and_then (update_config_map config_map w) (λ w'.
        built (secret_for ar wire) w'
          (λ secret. and_then (update_secret secret w') (follow_budget key ar wire))))

  abbrev pub create_secret_if :
      Option Secret → ActionsRunner → Files R C K → World → (World → Ended) → Ended
  create_secret_if (some _) ar wire w next = next w
  create_secret_if none ar wire w next =
      built (secret_for ar wire) w (λ secret. and_then (but_exists (create_secret secret w)) next)

  abbrev pub create_config_map_if :
      Option ConfigMap → ActionsRunner → Files R C K → World → (World → Ended) → Ended
  create_config_map_if (some _) ar wire w next = next w
  create_config_map_if none ar wire w next =
      built (config_map_for ar wire) w
        (λ config_map. and_then (but_exists (create_config_map config_map w)) next)

  abbrev zero_config_map : ConfigMap
  zero_config_map = record { metadata = no_metadata; binary_data = none }

  abbrev zero_secret : Secret
  zero_secret = record { metadata = no_metadata; data_map = none }

  abbrev or_zero {ℓ} : {A : Type ℓ} → A → Option A → A
  or_zero zero none = zero
  or_zero zero (some a) = a

  -- No wire: on an error that ends the runner, the ConfigMap and the Secret are deleted, and whether
  -- that fails is only logged.
  unfoldable pub give_up : Option ConfigMap → Option Secret → Error → World → Ended
  unfolding is_unrecoverable
  give_up config_map secret e w = if not (is_unrecoverable e) then (some (of_wire e), w) else (
    some (of_wire e),
    (delete_secret (or_zero zero_secret secret)
        (delete_config_map (or_zero zero_config_map config_map) w).1).1,
  )

  -- With the wire's files: what is missing is created, then both objects are updated.
  unfoldable pub with_wire :
      ObjectKey → ActionsRunner → Option ConfigMap → Option Secret → Files R C K → World → Ended
  unfolding update_files ignore_already_exists
  with_wire key ar config_map secret wire w =
      create_config_map_if config_map ar wire w
        (λ w'. create_secret_if secret ar wire w' (update_files key ar wire))

  -- From `WireFor` on.
  unfoldable pub connect :
      ObjectKey → ActionsRunner → Option ConfigMap → Option Secret → World → Ended
  unfolding give_up with_wire
  connect key ar config_map secret w =
      let (r, w') = wire_for ar w in
      elim r [
        | Result.err e ↦ give_up config_map secret e w'
        | Result.ok wire ↦ with_wire key ar config_map secret wire w'
      ]

  -- From the `Get` of the ConfigMap on.
  unfoldable pub with_files : ObjectKey → ActionsRunner → World → Ended
  unfolding connect is_being_deleted
  with_files key ar w = elim (lookup (get_config_map key w)) [
    | Result.err e ↦ (some (of_api e), w)
    | Result.ok config_map ↦
        if leaving (λ c. c.metadata) config_map
        then (none, w)
        else elim (lookup (get_secret key w)) [
          | Result.err e ↦ (some (of_api e), w)
          | Result.ok secret ↦
              if leaving (λ s. s.metadata) secret
              then (none, w)
              else connect key ar config_map secret w
        ]
  ]

  abbrev wire_error : Option Error → Option RunnerError
  wire_error none = none
  wire_error (some e) = some (of_wire e)

  -- `gone` is the flag that a signal sets.
  unfoldable pub reconcile_runner : Bool → ObjectKey → World → Ended
  unfolding with_files is_being_deleted
  reconcile_runner true key w = (none, w)
  reconcile_runner false key w = elim (get_runner key w) [
    | Result.err not_found ↦ let (e, w') = try_destroy key w in (wire_error e, w')
    | Result.err e ↦ (some (of_api e), w)
    | Result.ok ar ↦ if is_being_deleted ar.metadata then (none, w) else with_files key ar w
  ]
