-- ===== src/Operator/Wire/Policy/Cached.antt =====
-- The rule cache of wire/validator.go is transparent: the verdicts are those of rules that are
-- compiled each time.
use kube_actions.Prelude.{
  String, ◌≡◌, refl, sym, ◌∙◌, true, false, List, [], ◌∷◌, none, some, arith, eq_iff, Option-cases,
  inl, inr,
}
use kube_actions.Prelude.GoMap.{get, put, get-put}
use kube_actions.Prelude.Result.{Result, ok, err}
use kube_actions.Operator.Api.Runner.{ActionsRunnerPolicy}
use kube_actions.Operator.Wire.Context.{FlatMap}
use kube_actions.Operator.Wire.Policy.{
  FirstOutput, exhausted, boolean, another, Gojq, ValidationError, unable_to_parse,
  unable_to_compile, RuleCache, Verdict, compile_rule, validate_must, validate_must_not,
  validate_rules,
}

module _ {N : Type 0} (gojq : Gojq N) where
  open gojq use {Code, parse, compile, first_output}

  -- A rule compiled with no cache.
  unfoldable pub compiled : String → Result ValidationError Code
  compiled rule = elim (parse rule) [
    | err e ↦ err (unable_to_parse rule e)
    | ok q ↦ elim (compile q) [ err e ↦ err (unable_to_compile rule e) | ok c ↦ ok c ]
  ]

  -- What is cached for a rule is what it compiles to.
  pub record IsSound (cache : RuleCache gojq) : Type 0 where
    pub at : (rule : String) (code : Code) → get cache rule ≡ some code → compiled rule ≡ ok code

  -- What `compile_rule` does on a rule that is not cached, by what the rule compiles to.
  compile_rule-new :
      (cache : RuleCache gojq) (rule : String) (r : Result ValidationError Code)
      → get cache rule ≡ none
      → compiled rule ≡ r
      → compile_rule gojq cache rule
        ≡ (elim r [ err e ↦ (err e, cache) | ok c ↦ (ok c, put cache rule c) ])
  unfolding compile_rule compiled
  compile_rule-new cache rule r e f = ground arith

  put-IsSound :
      (cache : RuleCache gojq) (rule : String) (code : Code)
      → compiled rule ≡ ok code
      → IsSound cache
      → IsSound (put cache rule code)
  put-IsSound cache rule code e v = record {
    at = λ j c h. ground (arith, e, v.at j c, get-put cache rule j code, eq_iff rule j);
  }

  compile_rule-compiled :
      (cache : RuleCache gojq) (rule : String)
      → IsSound cache
      → ((compile_rule gojq cache rule).0 ≡ compiled rule)
        × IsSound (compile_rule gojq cache rule).1
  compile_rule-compiled cache rule v = elim (Option-cases (get cache rule)) [
    | inr (code, e) ↦
        unfold compile_rule in
        (rw (e, compile_rule) (sym (v.at rule code e)), rw (e, compile_rule) v)
    | inl e ↦ fresh (compiled rule) refl e
  ]
    where
      fresh :
          (r : Result ValidationError Code)
          → compiled rule ≡ r
          → get cache rule ≡ none
          → ((compile_rule gojq cache rule).0 ≡ compiled rule)
            × IsSound (compile_rule gojq cache rule).1
      fresh (err m) f e = rw (compile_rule-new cache rule (err m) e f) (sym f, v)
      fresh (ok c) f e =
          rw (compile_rule-new cache rule (ok c) e f) (sym f, put-IsSound cache rule c f v)

  -- The loops, with each rule compiled where it is used.
  unfoldable pub must_verdict : List String → FlatMap N → Verdict gojq
  must_verdict [] data_map = ok none
  must_verdict (rule ∷ rules) data_map = elim (compiled rule) [
    | err e ↦ err e
    | ok code ↦ elim (first_output code data_map) [
      | exhausted ↦ ok (some rule)
      | another ↦ ok (some rule)
      | boolean b ↦ elim b [ false ↦ ok (some rule) | true ↦ must_verdict rules data_map ]
    ]
  ]

  unfoldable pub must_not_verdict : List String → FlatMap N → Verdict gojq
  must_not_verdict [] data_map = ok none
  must_not_verdict (rule ∷ rules) data_map = elim (compiled rule) [
    | err e ↦ err e
    | ok code ↦ elim (first_output code data_map) [
      | exhausted ↦ must_not_verdict rules data_map
      | another ↦ must_not_verdict rules data_map
      | boolean b ↦ elim b [ true ↦ ok (some rule) | false ↦ must_not_verdict rules data_map ]
    ]
  ]

  pub validate_must-must_verdict :
      (cache : RuleCache gojq) (rules : List String) (data_map : FlatMap N)
      → IsSound cache
      → ((validate_must gojq cache rules data_map).0 ≡ must_verdict rules data_map)
        × IsSound (validate_must gojq cache rules data_map).1
  unfolding validate_must must_verdict
  validate_must-must_verdict cache [] data_map v = (refl, v)
  validate_must-must_verdict cache (rule ∷ rules) data_map v =
      let (same, sound) = compile_rule-compiled cache rule v in
      let later =
        validate_must-must_verdict (compile_rule gojq cache rule).1 rules data_map sound in
      on_compiled (compiled rule) refl same sound later
    where
      on_output :
          (code : Code) (o : FirstOutput)
          → first_output code data_map ≡ o
          → (compile_rule gojq cache rule).0 ≡ ok code
          → compiled rule ≡ ok code
          → IsSound (compile_rule gojq cache rule).1
          → ((validate_must gojq (compile_rule gojq cache rule).1 rules data_map).0
              ≡ must_verdict rules data_map)
            × IsSound (validate_must gojq (compile_rule gojq cache rule).1 rules data_map).1
          → ((validate_must gojq cache (rule ∷ rules) data_map).0
              ≡ must_verdict (rule ∷ rules) data_map)
            × IsSound (validate_must gojq cache (rule ∷ rules) data_map).1
      on_output code exhausted e c f sound later =
          rw (c, f, e, validate_must, must_verdict) (refl, sound)
      on_output code another e c f sound later =
          rw (c, f, e, validate_must, must_verdict) (refl, sound)
      on_output code (boolean false) e c f sound later =
          rw (c, f, e, validate_must, must_verdict) (refl, sound)
      on_output code (boolean true) e c f sound later =
          rw (c, f, e, validate_must, must_verdict) later

      on_compiled :
          (r : Result ValidationError Code)
          → compiled rule ≡ r
          → (compile_rule gojq cache rule).0 ≡ compiled rule
          → IsSound (compile_rule gojq cache rule).1
          → ((validate_must gojq (compile_rule gojq cache rule).1 rules data_map).0
              ≡ must_verdict rules data_map)
            × IsSound (validate_must gojq (compile_rule gojq cache rule).1 rules data_map).1
          → ((validate_must gojq cache (rule ∷ rules) data_map).0
              ≡ must_verdict (rule ∷ rules) data_map)
            × IsSound (validate_must gojq cache (rule ∷ rules) data_map).1
      on_compiled (err e) f same sound later =
          rw (same, f, validate_must, must_verdict) (refl, sound)
      on_compiled (ok code) f same sound later =
          on_output code (first_output code data_map) refl (same ∙ f) f sound later

  pub validate_must_not-must_not_verdict :
      (cache : RuleCache gojq) (rules : List String) (data_map : FlatMap N)
      → IsSound cache
      → ((validate_must_not gojq cache rules data_map).0 ≡ must_not_verdict rules data_map)
        × IsSound (validate_must_not gojq cache rules data_map).1
  unfolding validate_must_not must_not_verdict
  validate_must_not-must_not_verdict cache [] data_map v = (refl, v)
  validate_must_not-must_not_verdict cache (rule ∷ rules) data_map v =
      let (same, sound) = compile_rule-compiled cache rule v in
      let later =
        validate_must_not-must_not_verdict (compile_rule gojq cache rule).1 rules data_map sound in
      on_compiled (compiled rule) refl same sound later
    where
      on_output :
          (code : Code) (o : FirstOutput)
          → first_output code data_map ≡ o
          → (compile_rule gojq cache rule).0 ≡ ok code
          → compiled rule ≡ ok code
          → IsSound (compile_rule gojq cache rule).1
          → ((validate_must_not gojq (compile_rule gojq cache rule).1 rules data_map).0
              ≡ must_not_verdict rules data_map)
            × IsSound (validate_must_not gojq (compile_rule gojq cache rule).1 rules data_map).1
          → ((validate_must_not gojq cache (rule ∷ rules) data_map).0
              ≡ must_not_verdict (rule ∷ rules) data_map)
            × IsSound (validate_must_not gojq cache (rule ∷ rules) data_map).1
      on_output code exhausted e c f sound later =
          rw (c, f, e, validate_must_not, must_not_verdict) later
      on_output code another e c f sound later =
          rw (c, f, e, validate_must_not, must_not_verdict) later
      on_output code (boolean false) e c f sound later =
          rw (c, f, e, validate_must_not, must_not_verdict) later
      on_output code (boolean true) e c f sound later =
          rw (c, f, e, validate_must_not, must_not_verdict) (refl, sound)

      on_compiled :
          (r : Result ValidationError Code)
          → compiled rule ≡ r
          → (compile_rule gojq cache rule).0 ≡ compiled rule
          → IsSound (compile_rule gojq cache rule).1
          → ((validate_must_not gojq (compile_rule gojq cache rule).1 rules data_map).0
              ≡ must_not_verdict rules data_map)
            × IsSound (validate_must_not gojq (compile_rule gojq cache rule).1 rules data_map).1
          → ((validate_must_not gojq cache (rule ∷ rules) data_map).0
              ≡ must_not_verdict (rule ∷ rules) data_map)
            × IsSound (validate_must_not gojq cache (rule ∷ rules) data_map).1
      on_compiled (err e) f same sound later =
          rw (same, f, validate_must_not, must_not_verdict) (refl, sound)
      on_compiled (ok code) f same sound later =
          on_output code (first_output code data_map) refl (same ∙ f) f sound later

  -- The verdict on both lists of rules, with no cache.
  unfoldable pub verdict : ActionsRunnerPolicy → FlatMap N → Verdict gojq
  verdict policy data_map = elim (must_verdict policy.must data_map) [
    | err e ↦ err e
    | ok found ↦ elim found [
      | some rule ↦ ok (some rule)
      | none ↦ must_not_verdict policy.must_not data_map
    ]
  ]

  -- From a cache that is sound, the validator gives the verdict of an evaluation that compiles
  -- each rule where it is used, and the cache that it leaves is sound.
  pub validate_rules-verdict :
      (cache : RuleCache gojq) (policy : ActionsRunnerPolicy) (data_map : FlatMap N)
      → IsSound cache
      → ((validate_rules gojq cache policy data_map).0 ≡ verdict policy data_map)
        × IsSound (validate_rules gojq cache policy data_map).1
  unfolding validate_rules verdict
  validate_rules-verdict cache policy data_map v =
      let (same, sound) = validate_must-must_verdict cache policy.must data_map v in
      let later =
        validate_must_not-must_not_verdict (validate_must gojq cache policy.must data_map).1
          policy.must_not data_map sound in
      go (must_verdict policy.must data_map) refl same sound later
    where
      go :
          (r : Verdict gojq)
          → must_verdict policy.must data_map ≡ r
          → (validate_must gojq cache policy.must data_map).0 ≡ must_verdict policy.must data_map
          → IsSound (validate_must gojq cache policy.must data_map).1
          → ((validate_must_not gojq
                (validate_must gojq cache policy.must data_map).1
                policy.must_not
                data_map).0
              ≡ must_not_verdict policy.must_not data_map)
            × IsSound
                (validate_must_not gojq
                  (validate_must gojq cache policy.must data_map).1
                  policy.must_not
                  data_map).1
          → ((validate_rules gojq cache policy data_map).0 ≡ verdict policy data_map)
            × IsSound (validate_rules gojq cache policy data_map).1
      go (err e) f same sound later = rw (same, f, validate_rules, verdict) (refl, sound)
      go (ok (some rule)) f same sound later = rw (same, f, validate_rules, verdict) (refl, sound)
      go (ok none) f same sound later = rw (same, f, validate_rules, verdict) later
