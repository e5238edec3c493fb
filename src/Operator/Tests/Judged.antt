-- ===== src/Operator/Tests/Judged.antt =====
-- Job requests before a small validator. A rule is a text that is its own program: "yes" puts out
-- `true`, any other text `false`, and the empty text does not parse.
use kube_actions.Prelude.{
  refl, Option, ℕ, String, ◌≡◌, Bool, false, [], ◌∷◌, none, some, ◌==◌, ◌↔◌, All, if◌then◌else◌,
}
use kube_actions.Prelude.GoMap.{get}
use kube_actions.Prelude.Outcome.{Outcome}
use kube_actions.Prelude.Result.{Result}
use kube_actions.Operator.Api.Runner.{ActionsRunnerPolicy}
use kube_actions.Operator.Wire.Context.{
  PipelineContextData, no_pairs, no_items, context_data, undeclared, Flat, flat_string, flat_map,
  FlatMap, empty, entry, flattened, flattened_dictionary,
}
use kube_actions.Operator.Wire.Context.RoundTrip.{encode, HasDistinctKeys, flattened-encode}
use kube_actions.Operator.Wire.Context.Known.{Known, flattened-Known}
use kube_actions.Operator.Wire.Policy.{Gojq, boolean, validate, validate_rules}
use kube_actions.Operator.Wire.Policy.Cached.{IsSound, verdict, validate_rules-verdict}
use kube_actions.Operator.Wire.Policy.Decides.{Holds, Spares, validate_allows}
use kube_actions.Operator.Api.Runner.{ActionsRunnerSpec}
use kube_actions.Operator.Webhook.{
  validate_create, validate_update, labels_are_immutable, validate_policy_rules,
  validate_policy_rule,
}
use kube_actions.Operator.Webhook.Admitted.{admitted_policy_decides, update_admitted}

abbrev pub small_gojq : Gojq ℕ
small_gojq = record {
  Query = String;
  Code = Bool;
  parse = λ t. if t == "" then Result.err "unexpected end" else Result.ok t;
  compile = λ q. Result.ok (q == "yes");
  first_output = λ code m. boolean code;
}

empty-IsSound : IsSound small_gojq []
unfolding get
empty-IsSound = record { at = λ rule code h. cc }

abbrev strict : ActionsRunnerPolicy
strict = record { must = "yes" ∷ []; must_not = "no" ∷ [] }

validate_rules-verdict_example :
    ((validate_rules small_gojq [] strict empty).0 ≡ verdict small_gojq strict empty)
    × IsSound small_gojq (validate_rules small_gojq [] strict empty).1
validate_rules-verdict_example = validate_rules-verdict small_gojq [] strict empty empty-IsSound

validate_allows_example : ((validate small_gojq [] strict (some no_pairs)).0 ≡ Outcome.ok none) ↔ (
    (m : FlatMap ℕ) × (flattened_dictionary no_pairs empty ≡ Result.ok m)
    × All (Holds small_gojq m) ("yes" ∷ [])
    × All (Spares small_gojq m) ("no" ∷ []))
validate_allows_example = validate_allows small_gojq [] strict no_pairs empty-IsSound

abbrev odd_data : PipelineContextData ℕ
odd_data = context_data (undeclared 9) "" no_items no_pairs false 0

flattened-Known_example : Known odd_data ↔ ((v : Flat ℕ) × (flattened odd_data ≡ Result.ok v))
flattened-Known_example = flattened-Known odd_data

abbrev repository_map : Flat ℕ
repository_map = flat_map (entry "repository" (flat_string "inloco/kube-actions") empty)

flattened-encode_example : flattened (encode 0 repository_map) ≡ Result.ok repository_map
unfolding HasDistinctKeys
flattened-encode_example = flattened-encode 0 repository_map (tt, tt, tt)

-- No program puts out an error.
abbrev no_error : Bool → Option String
no_error code = none

abbrev strict_spec : ActionsRunnerSpec
strict_spec = record {
  repository = record { owner = "inloco"; name = "kube-actions"; api_endpoint = "" };
  policy = strict;
  capabilities = [];
  annotations = [];
  labels = some ("linux" ∷ []);
  version = "";
  volumes = [];
  volume_mounts = [];
  env_from = [];
  env = [];
  resources = [];
  service_account_name = "";
  affinity = none;
  tolerations = [];
  node_selector = [];
}

admitted_policy_decides_example :
    (found : Option String) × ((validate_rules small_gojq [] strict empty).0 ≡ Result.ok found)
unfolding validate_create validate_policy_rules validate_policy_rule
admitted_policy_decides_example =
    admitted_policy_decides small_gojq no_error strict_spec [] empty refl empty-IsSound

update_admitted_example :
    (validate_update small_gojq no_error strict_spec
        (some (record strict_spec { labels = some [] }))
      ≡ none)
    ↔ ((strict_spec.repository ≡ strict_spec.repository)
        × (strict_spec.labels ≡ some [])
        × (validate_create small_gojq no_error strict_spec ≡ none))
update_admitted_example =
    update_admitted small_gojq no_error strict_spec (record strict_spec { labels = some [] })

-- An update from an empty list of labels to none is refused.
empty_is_not_none :
    validate_update small_gojq no_error
      (record strict_spec { labels = none })
      (some (record strict_spec { labels = some [] }))
    ≡ some labels_are_immutable
unfolding validate_update
empty_is_not_none = refl
