-- ===== src/Operator/Pod/Scheduling/Placed.antt =====
-- On which nodes the affinity of `withRuntimeAffinity` lets a pod run.
use kube_actions.Prelude.{
  String, ◌≡◌, ◌≢◌, refl, All, not, Bool, true, false, ◌&&◌, ◌||◌, List, [], ◌∷◌, ◌++◌, map, Option,
  none, some, arith,
}
use kube_actions.Operator.Api.Core.{
  Affinity, NodeAffinity, NodeSelector, NodeSelectorTerm, NodeSelectorRequirement,
}
use kube_actions.Operator.Pod.Scheduling.{
  runtime_requirements, extend_term, or_one_term, with_runtime_affinity,
}

-- How Kubernetes documents a node selector: one of the terms matches, and a term matches if it has
-- a requirement and all its requirements hold. `holds` says which requirements a node meets.
-- A term with no requirement matches nothing.
abbrev is_nil : List NodeSelectorRequirement → Bool
is_nil [] = true
is_nil (r ∷ rs) = false

abbrev pub is_blank : NodeSelectorTerm → Bool
is_blank term = is_nil term.match_expressions && is_nil term.match_fields

-- The selector of a spec, if there is one, has terms, and each of them has a requirement.
abbrev pub IsProper : Option NodeSelector → Type 0
IsProper none = Unit
IsProper (some s) =
    (s.node_selector_terms ≢ []) × All (λ t. is_blank t ≡ false) s.node_selector_terms

module _ (holds : NodeSelectorRequirement → Bool) where
  abbrev pub all_hold : List NodeSelectorRequirement → Bool
  all_hold [] = true
  all_hold (r ∷ rs) = holds r && all_hold rs

  abbrev pub term_matches : NodeSelectorTerm → Bool
  term_matches term =
      not (is_blank term) && (all_hold term.match_expressions && all_hold term.match_fields)

  abbrev pub any_matches : List NodeSelectorTerm → Bool
  any_matches [] = false
  any_matches (t ∷ ts) = term_matches t || any_matches ts

  abbrev pub selected : Option NodeSelector → Bool
  selected none = true
  selected (some s) = any_matches s.node_selector_terms

  abbrev pub placed : Option NodeAffinity → Bool
  placed none = true
  placed (some a) = selected a.required_during_scheduling

  all_hold-append :
      (rs ss : List NodeSelectorRequirement) → all_hold (rs ++ ss) ≡ (all_hold rs && all_hold ss)
  all_hold-append [] ss = refl
  all_hold-append (r ∷ rs) ss = ground (arith, all_hold-append rs ss)

  is_nil-append :
      (os arch : String) (rs : List NodeSelectorRequirement)
      → is_nil (rs ++ runtime_requirements os arch) ≡ false
  is_nil-append os arch [] = refl
  is_nil-append os arch (r ∷ rs) = refl

  any_matches-extend :
      (os arch : String) (terms : List NodeSelectorTerm)
      → All (λ t. is_blank t ≡ false) terms
      → any_matches (map (extend_term os arch) terms)
        ≡ (any_matches terms && all_hold (runtime_requirements os arch))
  any_matches-extend os arch [] h = refl
  any_matches-extend os arch (t ∷ terms) h = ground (
    arith,
    h.0,
    any_matches-extend os arch terms h.1,
    all_hold-append t.match_expressions (runtime_requirements os arch),
    is_nil-append os arch t.match_expressions,
  )

  -- The required selector of an optional affinity.
  abbrev pub required_of : Option Affinity → Option NodeSelector
  required_of none = none
  required_of (some a) = elim a.node_affinity [
    | none ↦ none
    | some n ↦ n.required_during_scheduling
  ]

  any_matches-one_term :
      (os arch : String) (s : Option NodeSelector)
      → IsProper s
      → any_matches (map (extend_term os arch) (or_one_term os arch s))
        ≡ (selected s && all_hold (runtime_requirements os arch))
  any_matches-one_term os arch none h = ground arith
  any_matches-one_term os arch (some s) h = go s.node_selector_terms h
    where
      go :
          (ts : List NodeSelectorTerm)
          → (ts ≢ []) × All (λ t. is_blank t ≡ false) ts
          → any_matches (
              map
                (extend_term os arch)
                (or_one_term os arch (some (record { node_selector_terms = ts }))))
            ≡ (any_matches ts && all_hold (runtime_requirements os arch))
      go [] k = absurd (k.0 refl)
      go (t ∷ ts) k = any_matches-extend os arch (t ∷ ts) k.1

  -- If the required selector of the spec, where there is one, has terms and each of them has a
  -- requirement: the affinity selects a node exactly when that selector does and the node has the
  -- operating system and the architecture of the operator.
  pub runtime_affinity_placed :
      (os arch : String) (affinity : Option Affinity)
      → IsProper (required_of affinity)
      → placed (with_runtime_affinity os arch affinity).node_affinity
        ≡ (selected (required_of affinity) && all_hold (runtime_requirements os arch))
  unfolding with_runtime_affinity
  runtime_affinity_placed os arch none h = any_matches-one_term os arch none tt
  runtime_affinity_placed os arch (some a) h = go a.node_affinity h
    where
      go :
          (n : Option NodeAffinity)
          → IsProper (required_of (some (record a { node_affinity = n })))
          → placed
              (with_runtime_affinity os arch (some (record a { node_affinity = n }))).node_affinity
            ≡ (selected (required_of (some (record a { node_affinity = n })))
                && all_hold (runtime_requirements os arch))
      go none k = any_matches-one_term os arch none tt
      go (some n) k = any_matches-one_term os arch n.required_during_scheduling k
