-- ===== src/Operator/Pod/Filters.antt =====
-- actionsrunner/util/filters.go, and `HasActionsRunnerRequestedStorage` of controller/util.go.
pub mod Split
use kube_actions.Prelude.{
  ℕ, String, Bool, true, false, not, List, [], ◌∷◌, Option, none, some, ◌&&◌, ◌||◌, select, nat_eq,
}
use kube_actions.Prelude.GoMap.{GoMap, get, put}
use kube_actions.Operator.Api.Core.{
  EnvVarSource, EnvVar, EnvFromSource, Quantity, ResourceRequirements,
}
use kube_actions.Operator.Api.Runner.{ActionsRunnerSpec}

-- The two loops append what passes the predicate.
unfoldable pub filtered_env_from_sources :
    List EnvFromSource → (EnvFromSource → Bool) → List EnvFromSource
filtered_env_from_sources sources predicate = select predicate sources

unfoldable pub filtered_env_vars : List EnvVar → (EnvVar → Bool) → List EnvVar
filtered_env_vars vars predicate = select predicate vars

-- `if val, ok := in[name]; ok { out[name] = val }`
abbrev pub copy_entry : GoMap Quantity → GoMap Quantity → String → GoMap Quantity
copy_entry from into name = elim (get from name) [ none ↦ into | some val ↦ put into name val ]

abbrev no_resources : ResourceRequirements
no_resources = record { limits = []; requests = [] }

-- The loop over the names, with the requirements that are filled.
unfoldable pub filter_resources :
    ResourceRequirements → ResourceRequirements → List String → ResourceRequirements
filter_resources from into [] = into
filter_resources from into (name ∷ names) =
    filter_resources from
      (record {
        limits = copy_entry from.limits into.limits name;
        requests = copy_entry from.requests into.requests name;
      })
      names

unfoldable pub filtered_resource_requirements :
    ResourceRequirements → List String → ResourceRequirements
unfolding filter_resources
filtered_resource_requirements from names = filter_resources from no_resources names

-- `resources, ok := Spec.Resources[key]`, filtered if it is there; else the zero value.
unfoldable pub resources_for : ActionsRunnerSpec → String → List String → ResourceRequirements
unfolding filtered_resource_requirements
resources_for spec key names = elim (get spec.resources key) [
  | none ↦ no_resources
  | some resources ↦ filtered_resource_requirements resources names
]

-- `envFromSource.SecretRef == nil`, and the converse.
unfoldable pub has_secret_ref : EnvFromSource → Bool
has_secret_ref s = elim s.secret_ref [ none ↦ false | some _ ↦ true ]

-- `envVar.ValueFrom != nil && envVar.ValueFrom.SecretKeyRef != nil`
unfoldable pub has_secret_key_ref : EnvVar → Bool
has_secret_key_ref v = elim v.value_from [
  | none ↦ false
  | some source ↦ elim source.secret_key_ref [ none ↦ false | some _ ↦ true ]
]

-- The requested storage; a quantity that is missing is zero.
unfoldable pub has_requested_storage : ActionsRunnerSpec → Bool
has_requested_storage spec = elim (get spec.resources "runner") [
  | none ↦ false
  | some resources ↦ elim (get resources.requests "storage") [
    | none ↦ false
    | some quantity ↦ not (nat_eq quantity 0)
  ]
]
