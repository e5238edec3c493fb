-- ===== src/Operator/Webhook/Admitted.antt =====
-- What the admission of a resource guarantees to the parts that read it later.
use kube_actions.Prelude.{
  String, ◌≡◌, refl, ap, ◌∙◌, ◌↔◌, true, false, List, [], ◌∷◌, Option, none, some, arith, eq_iff,
  Option-cases, inl, inr,
}
use kube_actions.Prelude.Result.{Result, ok, err}
use kube_actions.Operator.Api.Runner.{ActionsRunnerSpec, ActionsRunnerRepository}
use kube_actions.Operator.Wire.Context.{FlatMap}
use kube_actions.Operator.Wire.Policy.{
  Gojq, RuleCache, Verdict, FirstOutput, exhausted, boolean, another, validate_rules,
}
use kube_actions.Operator.Wire.Policy.Cached.{
  compiled, IsSound, must_verdict, must_not_verdict, verdict, validate_rules-verdict,
}
use kube_actions.Operator.Webhook.{
  same_repository, same_elements, same_labels, validate_policy_rule, validate_policy_rules,
  validate_create, validate_update,
}

same_repository-eq : (a b : ActionsRunnerRepository) → same_repository a b ≡ true → a ≡ b
unfolding same_repository
same_repository-eq a b h =
    ground
      (arith, h, eq_iff a.owner b.owner, eq_iff a.name b.name, eq_iff a.api_endpoint b.api_endpoint)

same_elements-eq : (ls bs : List String) → same_elements ls bs ≡ true → ls ≡ bs
unfolding same_elements
same_elements-eq [] [] h = refl
same_elements-eq [] (b ∷ bs) h = ground (arith, h)
same_elements-eq (a ∷ ls) [] h = ground (arith, h)
same_elements-eq (a ∷ ls) (b ∷ bs) h = ground (arith, h, eq_iff a b, same_elements-eq ls bs)

same_labels-eq : (ls bs : Option (List String)) → same_labels ls bs ≡ true → ls ≡ bs
unfolding same_labels
same_labels-eq none none h = refl
same_labels-eq none (some bs) h = ground (arith, h)
same_labels-eq (some ls) none h = ground (arith, h)
same_labels-eq (some ls) (some bs) h = ap some (same_elements-eq ls bs h)

eq-same_repository : (a b : ActionsRunnerRepository) → a ≡ b → same_repository a b ≡ true
unfolding same_repository
eq-same_repository a b h =
    let owner = ap (λ (r : ActionsRunnerRepository). r.owner) h in
    let name = ap (λ (r : ActionsRunnerRepository). r.name) h in
    let endpoint = ap (λ (r : ActionsRunnerRepository). r.api_endpoint) h in
    ground (
      arith,
      owner,
      name,
      endpoint,
      eq_iff a.owner b.owner,
      eq_iff a.name b.name,
      eq_iff a.api_endpoint b.api_endpoint,
    )

eq-same_elements : (ls bs : List String) → ls ≡ bs → same_elements ls bs ≡ true
unfolding same_elements
eq-same_elements [] [] h = refl
eq-same_elements [] (b ∷ bs) h = ground (arith, h)
eq-same_elements (a ∷ ls) [] h = ground (arith, h)
eq-same_elements (a ∷ ls) (b ∷ bs) h = ground (arith, h, eq_iff a b, eq-same_elements ls bs)

eq-same_labels : (ls bs : Option (List String)) → ls ≡ bs → same_labels ls bs ≡ true
unfolding same_labels
eq-same_labels none none h = refl
eq-same_labels none (some bs) h = absurd (cc h)
eq-same_labels (some ls) none h = absurd (cc h)
eq-same_labels (some ls) (some bs) h = eq-same_elements ls bs cc

module _ {N : Type 0} (gojq : Gojq N) (first_error : gojq.Code → Option String) where
  -- The verdict is no error.
  abbrev pub Decided : Verdict gojq → Type 0
  Decided v = (found : Option String) × (v ≡ ok found)

  admitted_rule-compiled :
      (rule : String)
      → validate_policy_rule gojq first_error rule ≡ none
      → (c : gojq.Code) × (compiled gojq rule ≡ ok c)
  unfolding validate_policy_rule compiled
  admitted_rule-compiled rule h = go (gojq.parse rule) refl
    where
      go :
          (r : Result String gojq.Query)
          → gojq.parse rule ≡ r
          → (c : gojq.Code) × (compiled gojq rule ≡ ok c)
      go (err e) p = absurd (ground (arith, h, p))
      go (ok q) p = go_on (gojq.compile q) refl
        where
          go_on :
              (r : Result String gojq.Code)
              → gojq.compile q ≡ r
              → (c : gojq.Code) × (compiled gojq rule ≡ ok c)
          go_on (err e) k = absurd (ground (arith, h, p, k))
          go_on (ok c) k = (c, ground (arith, p, k))

  -- The rules of a list that is admitted, one by one.
  admitted_first :
      (rule : String) (rules : List String)
      → validate_policy_rules gojq first_error (rule ∷ rules) ≡ none
      → (validate_policy_rule gojq first_error rule ≡ none)
        × (validate_policy_rules gojq first_error rules ≡ none)
  unfolding validate_policy_rules
  admitted_first rule rules h = elim (Option-cases (validate_policy_rule gojq first_error rule)) [
    | inl e ↦ (e, ground (arith, h, e))
    | inr (x, e) ↦ absurd (ground (arith, h, e))
  ]

  must_verdict-Decided :
      (rules : List String) (m : FlatMap N)
      → validate_policy_rules gojq first_error rules ≡ none
      → Decided (must_verdict gojq rules m)
  unfolding must_verdict
  must_verdict-Decided [] m h = (none, refl)
  must_verdict-Decided (rule ∷ rules) m h =
      let (first, rest) = admitted_first rule rules h in
      let (c, e) = admitted_rule-compiled rule first in
      go (gojq.first_output c m) c e refl (must_verdict-Decided rules m rest)
    where
      go :
          (o : FirstOutput) (c : gojq.Code)
          → compiled gojq rule ≡ ok c
          → gojq.first_output c m ≡ o
          → Decided (must_verdict gojq rules m)
          → Decided (must_verdict gojq (rule ∷ rules) m)
      go exhausted c e f later = rw (must_verdict, e, f) (some rule, refl)
      go another c e f later = rw (must_verdict, e, f) (some rule, refl)
      go (boolean false) c e f later = rw (must_verdict, e, f) (some rule, refl)
      go (boolean true) c e f later = rw (must_verdict, e, f) later

  must_not_verdict-Decided :
      (rules : List String) (m : FlatMap N)
      → validate_policy_rules gojq first_error rules ≡ none
      → Decided (must_not_verdict gojq rules m)
  unfolding must_not_verdict
  must_not_verdict-Decided [] m h = (none, refl)
  must_not_verdict-Decided (rule ∷ rules) m h =
      let (first, rest) = admitted_first rule rules h in
      let (c, e) = admitted_rule-compiled rule first in
      go (gojq.first_output c m) c e refl (must_not_verdict-Decided rules m rest)
    where
      go :
          (o : FirstOutput) (c : gojq.Code)
          → compiled gojq rule ≡ ok c
          → gojq.first_output c m ≡ o
          → Decided (must_not_verdict gojq rules m)
          → Decided (must_not_verdict gojq (rule ∷ rules) m)
      go exhausted c e f later = rw (must_not_verdict, e, f) later
      go another c e f later = rw (must_not_verdict, e, f) later
      go (boolean false) c e f later = rw (must_not_verdict, e, f) later
      go (boolean true) c e f later = rw (must_not_verdict, e, f) (some rule, refl)

  verdict-Decided :
      (spec : ActionsRunnerSpec) (m : FlatMap N)
      → validate_policy_rules gojq first_error spec.policy.must ≡ none
      → validate_policy_rules gojq first_error spec.policy.must_not ≡ none
      → Decided (verdict gojq spec.policy m)
  unfolding verdict
  verdict-Decided spec m h k =
      let (found, e) = must_verdict-Decided spec.policy.must m h in
      go found e (must_not_verdict-Decided spec.policy.must_not m k)
    where
      go :
          (found : Option String)
          → must_verdict gojq spec.policy.must m ≡ ok found
          → Decided (must_not_verdict gojq spec.policy.must_not m)
          → Decided (verdict gojq spec.policy m)
      go (some rule) e later = rw (verdict, e) (some rule, refl)
      go none e later = rw (verdict, e) later

  created-rules :
      (spec : ActionsRunnerSpec)
      → validate_create gojq first_error spec ≡ none
      → (validate_policy_rules gojq first_error spec.policy.must ≡ none)
        × (validate_policy_rules gojq first_error spec.policy.must_not ≡ none)
  unfolding validate_create
  created-rules spec h =
      elim (Option-cases (validate_policy_rules gojq first_error spec.policy.must)) [
        | inl e ↦ (e, ground (arith, h, e))
        | inr (x, e) ↦ absurd (ground (arith, h, e))
      ]

  -- The policy of a runner whose creation was admitted never fails: from a sound cache, on any flat
  -- context data, the validator decides for or against the job, without an error of a rule.
  pub admitted_policy_decides :
      (spec : ActionsRunnerSpec) (cache : RuleCache gojq) (m : FlatMap N)
      → validate_create gojq first_error spec ≡ none
      → IsSound gojq cache
      → Decided (validate_rules gojq cache spec.policy m).0
  admitted_policy_decides spec cache m admitted sound =
      let (h, k) = created-rules spec admitted in
      let (found, e) = verdict-Decided spec m h k in
      (found, (validate_rules-verdict gojq cache spec.policy m sound).0 ∙ e)

  -- An update is admitted exactly when repository and labels stay as they were (no labels and an empty
  -- list of labels being different) and the new spec would be admitted as a new one.
  pub update_admitted :
      (spec old : ActionsRunnerSpec)
      → (validate_update gojq first_error spec (some old) ≡ none) ↔ (
          (spec.repository ≡ old.repository)
          × (spec.labels ≡ old.labels)
          × (validate_create gojq first_error spec ≡ none))
  unfolding validate_update validate_create
  update_admitted spec old = (
    (λ h. (
      same_repository-eq spec.repository old.repository (ground (arith, h)),
      same_labels-eq spec.labels old.labels (ground (arith, h)),
      ground (arith, h),
    )),
    (λ (same, kept, admitted). ground (
      arith,
      admitted,
      eq-same_repository spec.repository old.repository same,
      eq-same_labels spec.labels old.labels kept,
    )),
  )
