-- ===== src/Operator/Pod/Scheduling.antt =====
-- `withRuntimeAffinity` of actionsrunner/util/converters.go. The operating system and the
-- architecture of the operator (`constants.OS()`, `constants.Arch()`) are parameters.
pub mod Placed
use kube_actions.Prelude.{String, List, [], ◌∷◌, ◌++◌, map, Option, none, some}
use kube_actions.Operator.Api.Core.{
  Affinity, NodeAffinity, NodeSelector, NodeSelectorTerm, NodeSelectorRequirement,
}

module _ (os arch : String) where
  abbrev pub runtime_requirements : List NodeSelectorRequirement
  runtime_requirements =
      record { key = "kubernetes.io/os"; operator = "In"; values = os ∷ [] }
      ∷ record { key = "kubernetes.io/arch"; operator = "In"; values = arch ∷ [] }
      ∷ []

  abbrev pub or_empty_affinity : Option Affinity → Affinity
  or_empty_affinity none = record { node_affinity = none; pod_affinity = "" }
  or_empty_affinity (some a) = a

  abbrev pub or_empty_node_affinity : Option NodeAffinity → NodeAffinity
  or_empty_node_affinity none = record {
    required_during_scheduling = none;
    preferred_during_scheduling = "";
  }
  or_empty_node_affinity (some a) = a

  -- The terms of the selector; if there is none, one empty term.
  abbrev pub or_one_term : Option NodeSelector → List NodeSelectorTerm
  or_one_term none = record { match_expressions = []; match_fields = [] } ∷ []
  or_one_term (some s) = elim s.node_selector_terms [
    | [] ↦ record { match_expressions = []; match_fields = [] } ∷ []
    | term ∷ terms ↦ term ∷ terms
  ]

  -- The loop that appends to each term's expressions.
  abbrev pub extend_term : NodeSelectorTerm → NodeSelectorTerm
  extend_term term = record term {
    match_expressions = term.match_expressions ++ runtime_requirements;
  }

  unfoldable pub with_runtime_affinity : Option Affinity → Affinity
  with_runtime_affinity affinity =
      let a = or_empty_affinity affinity in
      let na = or_empty_node_affinity a.node_affinity in
      record a {
        node_affinity = some (record na {
          required_during_scheduling = some (record {
            node_selector_terms = map extend_term (or_one_term na.required_during_scheduling);
          });
        });
      }
