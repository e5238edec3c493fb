-- ===== src/Operator/DotFiles.antt =====
-- `ToDotFiles`, `ToConfigMap` and `ToSecret` of actionsrunner/util/converters.go: the settings and
-- the credentials of a runner, kept in a ConfigMap and a Secret. encoding/json and
-- `ctrl.SetControllerReference` are parameters. Null pointers, which the functions refuse first,
-- are left out for the arguments that are never null; `none` is a null ConfigMap or Secret.
pub mod Kept
use kube_actions.Prelude.{String, List, [], ◌∷◌, Option, none, some}
use kube_actions.Prelude.GoMap.{GoMap, get}
use kube_actions.Prelude.Result
use kube_actions.Prelude.Result.{Result, ◌>>=◌}
use kube_actions.Operator.Api.Meta.{ObjectMeta}
use kube_actions.Operator.Api.Runner.{ActionsRunner}
use kube_actions.Operator.Pod.Build.{no_metadata}

-- `dot.Files`; the three types are those of the package dot, which json reads and writes.
pub record Files (Runner Credentials RsaParameters : Type 0) : Type 0 where
  pub runner : Runner
  pub credentials : Credentials
  pub rsa_parameters : RsaParameters

-- `json.Marshal` and `json.Unmarshal` at one type; bytes are a text.
pub record Json (A : Type 0) : Type 0 where
  pub marshal : A → Result String String
  pub unmarshal : String → Result String A

-- `corev1.ConfigMap`; a map that is null is `none`.
pub record ConfigMap : Type 0 where
  pub metadata : ObjectMeta
  pub binary_data : Option (GoMap String)

-- `corev1.Secret`
pub record Secret : Type 0 where
  pub metadata : ObjectMeta
  pub data_map : Option (GoMap String)

-- `json.Unmarshal` into a field, `return nil` on an error or a missing key.
unfoldable pub read_entry : {A : Type 0} → Json A → GoMap String → String → Option A
read_entry json entries key = elim (get entries key) [
  | none ↦ none
  | some bytes ↦ elim (json.unmarshal bytes) [ Result.ok a ↦ some a | Result.err e ↦ none ]
]

module _ {Runner Credentials RsaParameters : Type 0} (runner_json : Json Runner)
    (credentials_json : Json Credentials) (rsa_json : Json RsaParameters)
    (set_controller_reference : ObjectMeta → ObjectMeta → Result String ObjectMeta) where
  unfoldable pub to_dot_files :
      Option ConfigMap → Option Secret → Option (Files Runner Credentials RsaParameters)
  unfolding read_entry
  to_dot_files none secret = none
  to_dot_files (some config_map) secret = elim config_map.binary_data [
    | none ↦ none
    | some entries ↦ elim (read_entry runner_json entries ".runner") [
      | none ↦ none
      | some runner ↦ elim (read_entry credentials_json entries ".credentials") [
        | none ↦ none
        | some credentials ↦ elim secret [
          | none ↦ none
          | some s ↦ elim s.data_map [
            | none ↦ none
            | some secrets ↦ elim (read_entry rsa_json secrets ".credentials_rsaparams") [
              | none ↦ none
              | some rsa ↦
                  some (record { runner = runner; credentials = credentials; rsa_parameters = rsa })
            ]
          ]
        ]
      ]
    ]
  ]

  -- The metadata of both: the name and the namespace of the runner, which becomes the owner.
  abbrev pub owned_by : ActionsRunner → Result String ObjectMeta
  owned_by ar =
      set_controller_reference ar.metadata
        (record no_metadata { name = ar.metadata.name; namespace = ar.metadata.namespace })

  unfoldable pub to_config_map :
      Files Runner Credentials RsaParameters → ActionsRunner → Result String ConfigMap
  to_config_map files ar = runner_json.marshal files.runner >>= λ runner.
      credentials_json.marshal files.credentials >>= λ credentials. owned_by ar >>= λ metadata.
      Result.ok (record {
        metadata = metadata;
        binary_data = some ((".runner", runner) ∷ (".credentials", credentials) ∷ []);
      })

  unfoldable pub to_secret :
      Files Runner Credentials RsaParameters → ActionsRunner → Result String Secret
  to_secret files ar = rsa_json.marshal files.rsa_parameters >>= λ rsa. owned_by ar >>= λ metadata.
      Result.ok
        (record { metadata = metadata; data_map = some ((".credentials_rsaparams", rsa) ∷ []) })
