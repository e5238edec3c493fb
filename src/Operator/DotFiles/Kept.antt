-- ===== src/Operator/DotFiles/Kept.antt =====
-- The files of a runner survive the way through the ConfigMap and the Secret.
use kube_actions.Prelude.{String, arith, ◌≡◌, refl, some}
use kube_actions.Prelude.GoMap.{get}
use kube_actions.Prelude.Result.{Result}
use kube_actions.Operator.Api.Meta.{ObjectMeta}
use kube_actions.Operator.Api.Runner.{ActionsRunner}
use kube_actions.Operator.DotFiles.{
  Files, Json, ConfigMap, Secret, read_entry, to_dot_files, to_config_map, to_secret,
}

-- What json promises: what it wrote, it reads back.
abbrev pub ReadsBack : {A : Type 0} → Json A → Type 0
ReadsBack {A} json =
    (a : A) (bytes : String) → json.marshal a ≡ Result.ok bytes → json.unmarshal bytes ≡ Result.ok a

module _ {Runner Credentials RsaParameters : Type 0} (runner_json : Json Runner)
    (credentials_json : Json Credentials) (rsa_json : Json RsaParameters)
    (set_controller_reference : ObjectMeta → ObjectMeta → Result String ObjectMeta) where
  -- If json reads back what it wrote: from a ConfigMap and a Secret that were made of some files,
  -- `to_dot_files` reads the same files.
  pub dot_files_roundtrip :
      ReadsBack runner_json
      → ReadsBack credentials_json
      → ReadsBack rsa_json
      → (files : Files Runner Credentials RsaParameters) (ar : ActionsRunner)
        (config_map : ConfigMap) (secret : Secret)
      → to_config_map runner_json credentials_json rsa_json set_controller_reference files ar
        ≡ Result.ok config_map
      → to_secret runner_json credentials_json rsa_json set_controller_reference files ar
        ≡ Result.ok secret
      → to_dot_files runner_json credentials_json rsa_json set_controller_reference
          (some config_map)
          (some secret)
        ≡ some files
  unfolding to_config_map to_secret to_dot_files read_entry get
  dot_files_roundtrip jr jc js files ar config_map secret hc hs =
      go (runner_json.marshal files.runner) (credentials_json.marshal files.credentials)
        (rsa_json.marshal files.rsa_parameters) refl refl refl
    where
      go :
          (r c s : Result String String)
          → runner_json.marshal files.runner ≡ r
          → credentials_json.marshal files.credentials ≡ c
          → rsa_json.marshal files.rsa_parameters ≡ s
          → to_dot_files runner_json credentials_json rsa_json set_controller_reference
              (some config_map)
              (some secret)
            ≡ some files
      go (Result.err x) c s er ec es = ground (arith, hc, er)
      go r (Result.err x) s er ec es = ground (arith, hc, er, ec)
      go r c (Result.err x) er ec es = ground (arith, hs, es)
      go (Result.ok r) (Result.ok c) (Result.ok s) er ec es = ground (
        arith,
        hc,
        hs,
        er,
        ec,
        es,
        jr files.runner r er,
        jc files.credentials c ec,
        js files.rsa_parameters s es,
      )
