-- ===== src/Operator/Wire/Policy.antt =====
-- wire/validator.go: the policy of a runner, evaluated on the context data of a job request. The
-- rules are jq programs; the library gojq is the parameter `Gojq`.
pub mod Cached
pub mod Decides
use kube_actions.Prelude.{String, Bool, true, false, List, [], ◌∷◌, Option, none, some}
use kube_actions.Prelude.GoMap.{GoMap, get, put}
use kube_actions.Prelude.Result.{Result, ok, err}
use kube_actions.Prelude.Outcome
use kube_actions.Prelude.Outcome.{Outcome}
use kube_actions.Operator.Api.Runner.{ActionsRunnerPolicy}
use kube_actions.Operator.Wire.Context.{
  PipelineContextDataType, DictionaryContextData, FlatMap, empty, flattened_dictionary,
}

-- What a program puts out first: nothing, a Boolean, or anything else, an error included.
pub data FirstOutput : Type 0 where
  exhausted : FirstOutput
  boolean : Bool → FirstOutput
  another : FirstOutput

-- `gojq.Parse`, `gojq.Compile` and the first `Next` of `RunWithContext` on flat context data.
pub record Gojq (N : Type 0) : Type 1 where
  pub Query : Type 0
  pub Code : Type 0
  pub parse : String → Result String Query
  pub compile : Query → Result String Code
  pub first_output : Code → FlatMap N → FirstOutput

-- What `Validate` can fail with: a rule that does not parse or compile, or context data of an
-- undeclared type.
pub data ValidationError : Type 0 where
  unable_to_parse unable_to_compile : String → String → ValidationError
  unknown_type : PipelineContextDataType → ValidationError

module _ {N : Type 0} (gojq : Gojq N) where
  open gojq use {Code, parse, compile, first_output}

  -- `PolicyValidator`: its `ruleCache`.
  abbrev pub RuleCache : Type 0
  RuleCache = GoMap Code

  unfoldable pub compile_rule : RuleCache → String → Result ValidationError Code × RuleCache
  compile_rule cache rule = elim (get cache rule) [
    | some code ↦ (ok code, cache)
    | none ↦ elim (parse rule) [
      | err e ↦ (err (unable_to_parse rule e), cache)
      | ok q ↦ elim (compile q) [
        | err e ↦ (err (unable_to_compile rule e), cache)
        | ok c ↦ (ok c, put cache rule c)
      ]
    ]
  ]

  -- The violated rule, if there is one.
  abbrev pub Verdict : Type 0
  Verdict = Result ValidationError (Option String)

  -- The loop of `validateMust`: a rule is violated unless its first output is `true`.
  unfoldable pub validate_must : RuleCache → List String → FlatMap N → Verdict × RuleCache
  validate_must cache [] data_map = (ok none, cache)
  validate_must cache (rule ∷ rules) data_map =
      let (compiled, cache') = compile_rule cache rule in
      elim compiled [
        | err e ↦ (err e, cache')
        | ok code ↦ elim (first_output code data_map) [
          | exhausted ↦ (ok (some rule), cache')
          | another ↦ (ok (some rule), cache')
          | boolean b ↦ elim b [
            | false ↦ (ok (some rule), cache')
            | true ↦ validate_must cache' rules data_map
          ]
        ]
      ]

  -- The loop of `validateMustNot`: a rule is violated only if its first output is `true`.
  unfoldable pub validate_must_not : RuleCache → List String → FlatMap N → Verdict × RuleCache
  validate_must_not cache [] data_map = (ok none, cache)
  validate_must_not cache (rule ∷ rules) data_map =
      let (compiled, cache') = compile_rule cache rule in
      elim compiled [
        | err e ↦ (err e, cache')
        | ok code ↦ elim (first_output code data_map) [
          | exhausted ↦ validate_must_not cache' rules data_map
          | another ↦ validate_must_not cache' rules data_map
          | boolean b ↦ elim b [
            | true ↦ (ok (some rule), cache')
            | false ↦ validate_must_not cache' rules data_map
          ]
        ]
      ]

  -- The two loops of `Validate`, the second only if the first found nothing.
  unfoldable pub validate_rules : RuleCache → ActionsRunnerPolicy → FlatMap N → Verdict × RuleCache
  validate_rules cache policy data_map =
      let (must, cache') = validate_must cache policy.must data_map in
      elim must [
        | err e ↦ (err e, cache')
        | ok found ↦ elim found [
          | some rule ↦ (ok (some rule), cache')
          | none ↦ validate_must_not cache' policy.must_not data_map
        ]
      ]

  -- `Validate`; a job request without context data is a nil dereference.
  unfoldable pub validate :
      RuleCache
      → ActionsRunnerPolicy
      → Option (DictionaryContextData N)
      → Outcome ValidationError (Option String) × RuleCache
  validate cache policy none = (Outcome.panic, cache)
  validate cache policy (some context) = elim (flattened_dictionary context empty) [
    | err t ↦ (Outcome.err (unknown_type t), cache)
    | ok data_map ↦
        let (verdict, cache') = validate_rules cache policy data_map in
        elim verdict [ err e ↦ (Outcome.err e, cache') | ok found ↦ (Outcome.ok found, cache') ]
  ]
