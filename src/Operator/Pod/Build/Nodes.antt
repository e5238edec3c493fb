-- ===== src/Operator/Pod/Build/Nodes.antt =====
-- On which nodes a pod of actionsrunner/util/converters.go may run, by its required node affinity and its
-- node selector.
use kube_actions.Prelude.{
  String, ◌≡◌, sym, ap, ◌∙◌, Bool, true, ◌&&◌, [], ◌∷◌, map, none, some, arith,
}
use kube_actions.Prelude.Result.{Result}
use kube_actions.Operator.Api.Core.{NodeSelectorRequirement, Pod}
use kube_actions.Operator.Api.Runner.{ActionsRunner, ActionsRunnerJob}
use kube_actions.Operator.Pod.Scheduling.{runtime_requirements}
use kube_actions.Operator.Pod.Scheduling.Placed.{
  IsProper, all_hold, selected, placed, required_of, runtime_affinity_placed,
}
use kube_actions.Operator.Pod.Build.{
  Environment, base_pod, with_capabilities, add_secret_capability, add_docker_capability, to_pod,
}
use kube_actions.Operator.Pod.Build.Capabilities.{to_pod-ok}

-- An entry of a node selector asks for a label with one value.
abbrev pub requirement_of : String × String → NodeSelectorRequirement
requirement_of (key, value) = record { key = key; operator = "In"; values = value ∷ [] }

-- Whether a pod may run on the node that meets some requirements.
abbrev pub may_run : (NodeSelectorRequirement → Bool) → Pod → Bool
may_run holds pod =
    elim pod.affinity [ none ↦ true | some a ↦ placed holds a.node_affinity ]
    && all_hold holds (map requirement_of pod.node_selector)

module _ (environment : Environment) where
  with_capabilities-affinity :
      (pod : Pod) (ar : ActionsRunner)
      → (with_capabilities environment pod ar).affinity ≡ pod.affinity
  unfolding with_capabilities add_secret_capability add_docker_capability
  with_capabilities-affinity pod ar = ground arith

  with_capabilities-node_selector :
      (pod : Pod) (ar : ActionsRunner)
      → (with_capabilities environment pod ar).node_selector ≡ pod.node_selector
  unfolding with_capabilities add_secret_capability add_docker_capability
  with_capabilities-node_selector pod ar = ground arith

  -- If the required node selector of the spec, where there is one, has terms and each of them has a
  -- requirement: by its required node affinity and its node selector, the pod that is built may run on a
  -- node exactly when the affinity of the spec selects the node, the node has the operating system and the
  -- architecture of the operator, and it has the label node-role.incognia.com/ci with the value true.
  pub to_pod-nodes :
      (holds : NodeSelectorRequirement → Bool) (ar : ActionsRunner) (arj : ActionsRunnerJob)
      (pod : Pod)
      → IsProper (required_of holds ar.spec.affinity)
      → to_pod environment ar arj ≡ Result.ok pod
      → may_run holds pod ≡ (
          (selected holds (required_of holds ar.spec.affinity)
            && all_hold holds (runtime_requirements environment.os environment.arch))
          && holds (requirement_of ("node-role.incognia.com/ci", "true")))
  to_pod-nodes holds ar arj pod proper built =
      let (m, same) = to_pod-ok environment ar arj pod built in
      let base = base_pod environment ar arj in
      let affinity : pod.affinity ≡ base.affinity =
        ap (λ (p : Pod). p.affinity) (sym same) ∙ with_capabilities-affinity base ar in
      let node_selector : pod.node_selector ≡ base.node_selector =
        ap (λ (p : Pod). p.node_selector) (sym same) ∙ with_capabilities-node_selector base ar in
      rw (affinity, node_selector)
        (ground (
          arith,
          runtime_affinity_placed holds environment.os environment.arch ar.spec.affinity proper,
        ))
