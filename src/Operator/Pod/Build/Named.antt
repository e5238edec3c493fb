-- ===== src/Operator/Pod/Build/Named.antt =====
-- The name and the namespace of the pod of `ToPod`.
use kube_actions.Prelude.{String, ◌≡◌, refl, sym, ap, ◌∙◌, arith}
use kube_actions.Prelude.Result.{Result}
use kube_actions.Operator.Api.Meta.{ObjectKey, ObjectMeta}
use kube_actions.Operator.Api.Core.{Pod}
use kube_actions.Operator.Api.Runner.{ActionsRunner, ActionsRunnerJob}
use kube_actions.Operator.Pod.Build.{
  Environment, base_pod, with_capabilities, add_secret_capability, add_docker_capability, to_pod,
}

-- An object with this key.
abbrev pub IsAt : ObjectKey → ObjectMeta → Type 0
IsAt key m = (m.name ≡ key.name) × (m.namespace ≡ key.namespace)

-- `SetControllerReference` keeps the name and the namespace.
abbrev pub KeepsNames : Environment → Type 0
KeepsNames environment =
    (owner m m' : ObjectMeta)
    → environment.set_controller_reference owner m ≡ Result.ok m'
    → (m'.name ≡ m.name) × (m'.namespace ≡ m.namespace)

module _ (environment : Environment) (keeps : KeepsNames environment) where
  with_capabilities-metadata :
      (pod : Pod) (ar : ActionsRunner)
      → (with_capabilities environment pod ar).metadata ≡ pod.metadata
  unfolding with_capabilities add_secret_capability add_docker_capability
  with_capabilities-metadata pod ar = ground arith

  -- The pod that is built for a job has the name of the job, and the namespace of the runner.
  pub to_pod-IsAt :
      (key : ObjectKey) (ar : ActionsRunner) (arj : ActionsRunnerJob) (pod : Pod)
      → IsAt key arj.metadata
      → IsAt key ar.metadata
      → to_pod environment ar arj ≡ Result.ok pod
      → IsAt key pod.metadata
  unfolding to_pod
  to_pod-IsAt key ar arj pod job runner h =
      by_owner
        (environment.set_controller_reference arj.metadata
          (with_capabilities environment (base_pod environment ar arj) ar).metadata)
        refl h
    where
      by_owner :
          (r : Result String ObjectMeta)
          → environment.set_controller_reference arj.metadata
              (with_capabilities environment (base_pod environment ar arj) ar).metadata
            ≡ r
          → elim r as (λ _. Result String Pod) [
            | Result.err e ↦ Result.err e
            | Result.ok metadata ↦
                Result.ok (record (with_capabilities environment (base_pod environment ar arj) ar) {
                  metadata = metadata;
                })
          ]
            ≡ Result.ok pod
          → IsAt key pod.metadata
      by_owner (Result.err e) set k = absurd (cc k)
      by_owner (Result.ok m) set k =
          let kept = keeps arj.metadata _ m set in
          let same = with_capabilities-metadata (base_pod environment ar arj) ar in
          let built : m ≡ pod.metadata = cc in
          (
            ap (λ (o : ObjectMeta). o.name) (sym built)
                ∙ kept.0
                ∙ ap (λ (o : ObjectMeta). o.name) same
                ∙ job.0,
            ap (λ (o : ObjectMeta). o.namespace) (sym built)
                ∙ kept.1
                ∙ ap (λ (o : ObjectMeta). o.namespace) same
                ∙ runner.1,
          )
