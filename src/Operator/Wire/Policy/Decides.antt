-- ===== src/Operator/Wire/Policy/Decides.antt =====
-- Which job requests the validator of wire/validator.go lets through.
use kube_actions.Prelude.{
  String, ◌≡◌, ◌≢◌, refl, sym, ◌∙◌, ◌↔◌, true, false, List, [], ◌∷◌, none, some, arith, All,
}
use kube_actions.Prelude.Result.{Result, ok, err}
use kube_actions.Prelude.Outcome.{Outcome}
use kube_actions.Operator.Api.Runner.{ActionsRunnerPolicy}
use kube_actions.Operator.Wire.Context.{
  PipelineContextDataType, DictionaryContextData, FlatMap, empty, flattened_dictionary,
}
use kube_actions.Operator.Wire.Policy.{
  FirstOutput, exhausted, boolean, another, Gojq, ValidationError, RuleCache, validate,
}
use kube_actions.Operator.Wire.Policy.Cached.{
  compiled, IsSound, must_verdict, must_not_verdict, verdict, validate_rules-verdict,
}

module _ {N : Type 0} (gojq : Gojq N) where
  open gojq use {Code, first_output}

  -- The rule compiles, and its first output is `true`.
  abbrev pub Holds : FlatMap N → String → Type 0
  Holds m rule =
      (code : Code) × (compiled gojq rule ≡ ok code) × (first_output code m ≡ boolean true)

  -- The rule compiles, and its first output is not `true`.
  abbrev pub Spares : FlatMap N → String → Type 0
  Spares m rule =
      (code : Code) × (compiled gojq rule ≡ ok code) × (first_output code m ≢ boolean true)

  must_verdict-none :
      (rules : List String) (m : FlatMap N)
      → must_verdict gojq rules m ≡ ok none
      → All (Holds m) rules
  unfolding must_verdict
  must_verdict-none [] m h = tt
  must_verdict-none (rule ∷ rules) m h =
      on_compiled (compiled gojq rule) refl (must_verdict-none rules m)
    where
      on_compiled :
          (r : Result ValidationError Code)
          → compiled gojq rule ≡ r
          → (must_verdict gojq rules m ≡ ok none → All (Holds m) rules)
          → All (Holds m) (rule ∷ rules)
      on_compiled (err e) f ih = absurd (ground (arith, f, h))
      on_compiled (ok code) f ih = ((code, f, ground (arith, f, h)), ih (ground (arith, f, h)))

  none-must_verdict :
      (rules : List String) (m : FlatMap N)
      → All (Holds m) rules
      → must_verdict gojq rules m ≡ ok none
  unfolding must_verdict
  none-must_verdict [] m h = refl
  none-must_verdict (rule ∷ rules) m ((code, c, o), rest) =
      rw (c, o, must_verdict) (none-must_verdict rules m rest)

  must_not_verdict-none :
      (rules : List String) (m : FlatMap N)
      → must_not_verdict gojq rules m ≡ ok none
      → All (Spares m) rules
  unfolding must_not_verdict
  must_not_verdict-none [] m h = tt
  must_not_verdict-none (rule ∷ rules) m h =
      on_compiled (compiled gojq rule) refl (must_not_verdict-none rules m)
    where
      on_compiled :
          (r : Result ValidationError Code)
          → compiled gojq rule ≡ r
          → (must_not_verdict gojq rules m ≡ ok none → All (Spares m) rules)
          → All (Spares m) (rule ∷ rules)
      on_compiled (err e) f ih = absurd (ground (arith, f, h))
      on_compiled (ok code) f ih =
          ((code, f, (λ o. ground (arith, f, o, h))), ih (ground (arith, f, h)))

  none-must_not_verdict :
      (rules : List String) (m : FlatMap N)
      → All (Spares m) rules
      → must_not_verdict gojq rules m ≡ ok none
  unfolding must_not_verdict
  none-must_not_verdict [] m h = refl
  none-must_not_verdict (rule ∷ rules) m ((code, c, o), rest) =
      on_output (first_output code m) refl (none-must_not_verdict rules m rest)
    where
      on_output :
          (out : FirstOutput)
          → first_output code m ≡ out
          → must_not_verdict gojq rules m ≡ ok none
          → must_not_verdict gojq (rule ∷ rules) m ≡ ok none
      on_output exhausted e ih = rw (c, e, must_not_verdict) ih
      on_output another e ih = rw (c, e, must_not_verdict) ih
      on_output (boolean false) e ih = rw (c, e, must_not_verdict) ih
      on_output (boolean true) e ih = absurd (o e)

  verdict-none :
      (policy : ActionsRunnerPolicy) (m : FlatMap N)
      → (verdict gojq policy m ≡ ok none)
        ↔ (All (Holds m) policy.must × All (Spares m) policy.must_not)
  unfolding verdict
  verdict-none policy m = (
    (λ h. (
      must_verdict-none policy.must m (ground (arith, h)),
      must_not_verdict-none policy.must_not m (ground (arith, h)),
    )),
    (λ h.
        ground (
          arith,
          none-must_verdict policy.must m h.0,
          none-must_not_verdict policy.must_not m h.1,
        )),
  )

  -- From a sound cache: the validator allows a job request exactly when its context data
  -- flattens, and on the flat data each must rule compiles and first puts out true, and each
  -- must-not rule compiles and does not.
  pub validate_allows :
      (cache : RuleCache gojq) (policy : ActionsRunnerPolicy) (context : DictionaryContextData N)
      → IsSound gojq cache
      → ((validate gojq cache policy (some context)).0 ≡ Outcome.ok none) ↔ (
          (m : FlatMap N) × (flattened_dictionary context empty ≡ ok m)
          × All (Holds m) policy.must
          × All (Spares m) policy.must_not)
  unfolding validate
  validate_allows cache policy context v = (forth, back)
    where
      forth :
          (validate gojq cache policy (some context)).0 ≡ Outcome.ok none
          → (m : FlatMap N) × (flattened_dictionary context empty ≡ ok m)
            × All (Holds m) policy.must
            × All (Spares m) policy.must_not
      forth h = go (flattened_dictionary context empty) refl
        where
          go :
              (r : Result PipelineContextDataType (FlatMap N))
              → flattened_dictionary context empty ≡ r
              → (m : FlatMap N) × (flattened_dictionary context empty ≡ ok m)
                × All (Holds m) policy.must
                × All (Spares m) policy.must_not
          go (err e) f = absurd (ground (arith, f, h))
          go (ok m) f =
              let same = (validate_rules-verdict gojq cache policy m v).0 in
              let (holds, spares) = (verdict-none policy m).0 (sym same ∙ ground (arith, f, h)) in
              (m, f, holds, spares)

      back :
          (m : FlatMap N) × (flattened_dictionary context empty ≡ ok m)
            × All (Holds m) policy.must
            × All (Spares m) policy.must_not
          → (validate gojq cache policy (some context)).0 ≡ Outcome.ok none
      back (m, f, holds, spares) = ground (
        arith,
        f,
        (validate_rules-verdict gojq cache policy m v).0,
        (verdict-none policy m).1 (holds, spares),
      )
