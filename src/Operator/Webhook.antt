-- ===== src/Operator/Webhook.antt =====
-- operator/api/v1alpha1/actionsrunner_webhook.go and actionsrunnerreplicaset_webhook.go: which
-- resources the API server admits. gojq is a parameter, as in the validator; `first_error` is the
-- error that a program puts out first on the null map, if its first output is one.
pub mod Admitted
use kube_actions.Prelude.{
  String, Bool, true, false, List, [], ◌∷◌, Option, none, some, ◌==◌, ◌&&◌, not, if◌then◌else◌,
}
use kube_actions.Prelude.Result.{Result, ok, err}
use kube_actions.Operator.Api.Runner.{
  ActionsRunner, ActionsRunnerSpec, ActionsRunnerRepository, ActionsRunnerReplicaSet,
}
use kube_actions.Operator.Wire.Policy.{Gojq}

-- Why a resource is refused.
pub data AdmissionError : Type 0 where
  bad_parse bad_compile bad_run : String → String → AdmissionError
  repository_is_immutable labels_are_immutable old_of_another_kind : AdmissionError

-- `reflect.DeepEqual` on repositories and on labels: a nil and an empty slice are not equal.
unfoldable pub same_repository : ActionsRunnerRepository → ActionsRunnerRepository → Bool
same_repository a b =
    (a.owner == b.owner) && ((a.name == b.name) && (a.api_endpoint == b.api_endpoint))

unfoldable pub same_elements : List String → List String → Bool
same_elements [] [] = true
same_elements (a ∷ ls) (b ∷ bs) = (a == b) && same_elements ls bs
same_elements _ _ = false

unfoldable pub same_labels : Option (List String) → Option (List String) → Bool
unfolding same_elements
same_labels none none = true
same_labels (some ls) (some bs) = same_elements ls bs
same_labels _ _ = false

module _ {N : Type 0} (gojq : Gojq N) (first_error : gojq.Code → Option String) where
  open gojq use {parse, compile}

  unfoldable pub validate_policy_rule : String → Option AdmissionError
  validate_policy_rule rule = elim (parse rule) [
    | err e ↦ some (bad_parse rule e)
    | ok q ↦ elim (compile q) [
      | err e ↦ some (bad_compile rule e)
      | ok c ↦ elim (first_error c) [ none ↦ none | some e ↦ some (bad_run rule e) ]
    ]
  ]

  -- The loop over a list of rules: the first error ends it.
  unfoldable pub validate_policy_rules : List String → Option AdmissionError
  validate_policy_rules [] = none
  validate_policy_rules (rule ∷ rules) = elim (validate_policy_rule rule) [
    | some e ↦ some e
    | none ↦ validate_policy_rules rules
  ]

  unfoldable pub validate_create : ActionsRunnerSpec → Option AdmissionError
  validate_create spec = elim (validate_policy_rules spec.policy.must) [
    | some e ↦ some e
    | none ↦ validate_policy_rules spec.policy.must_not
  ]

  -- The type assertion on the old object holds, since the API server passes one of the same kind;
  -- `none` is an object of another kind.
  unfoldable pub validate_update :
      ActionsRunnerSpec → Option ActionsRunnerSpec → Option AdmissionError
  unfolding same_repository same_labels
  validate_update spec none = some old_of_another_kind
  validate_update spec (some old) =
      if not (same_repository spec.repository old.repository)
      then some repository_is_immutable
      else if not (same_labels spec.labels old.labels)
      then some labels_are_immutable
      else elim (validate_policy_rules spec.policy.must) [
        | some e ↦ some e
        | none ↦ validate_policy_rules spec.policy.must_not
      ]

  -- The webhooks of a replica set pass its template on.
  unfoldable pub validate_replica_set_create : ActionsRunnerReplicaSet → Option AdmissionError
  unfolding validate_create
  validate_replica_set_create rs = validate_create rs.spec.template

  unfoldable pub validate_replica_set_update :
      ActionsRunnerReplicaSet → Option ActionsRunnerReplicaSet → Option AdmissionError
  unfolding validate_update
  validate_replica_set_update rs none = some old_of_another_kind
  validate_replica_set_update rs (some old) =
      validate_update rs.spec.template (some old.spec.template)
