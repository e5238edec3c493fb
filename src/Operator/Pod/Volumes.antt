-- ===== src/Operator/Pod/Volumes.antt =====
-- `withVolumes` and `withVolumeMounts` of actionsrunner/util/converters.go: the volumes that the
-- spec asks for, and over them those of the runner itself.
pub mod Own
use kube_actions.Prelude.{
  String, Bool, true, false, List, [], ◌∷◌, ◌++◌, map, Option, none, some, ◌==◌, if◌then◌else◌,
}
use kube_actions.Prelude.GoMap.{GoMap, get, put}
use kube_actions.Operator.Api.Core.{
  Volume, VolumeMount, config_map, secret, persistent_volume_claim,
}
use kube_actions.Operator.Api.Runner.{ActionsRunner}
use kube_actions.Operator.Pod.Filters.{has_requested_storage}

-- `for _, x := range xs { m[key(x)] = x }`
unfoldable pub put_all {ℓ} : {A : Type ℓ} → (A → String) → GoMap A → List A → GoMap A
put_all key m [] = m
put_all key m (x ∷ xs) = put_all key (put m (key x) x) xs

abbrev pub volume_name : Volume → String
volume_name v = v.name

abbrev pub mount_path_of : VolumeMount → String
mount_path_of m = m.mount_path

-- The volumes that the code adds, in its order.
abbrev pub own_volumes : ActionsRunner → List Volume
own_volumes ar =
    record { name = "config-map"; source = config_map ar.metadata.name }
    ∷ record { name = "secret"; source = secret ar.metadata.name }
    ∷ (if has_requested_storage ar.spec
        then record {
          name = "persistent-volume-claim";
          source = persistent_volume_claim ar.metadata.name;
        }
          ∷ []
        else [])

-- `volumeByName`
unfoldable pub volume_by_name : ActionsRunner → GoMap Volume
unfolding put_all
volume_by_name ar = put_all volume_name (put_all volume_name [] ar.spec.volumes) (own_volumes ar)

unfoldable pub with_volumes : ActionsRunner → List Volume
unfolding volume_by_name
with_volumes ar = map (λ (e : String × Volume). e.1) (volume_by_name ar)

abbrev claim_mount : String → String → VolumeMount
claim_mount path sub = record {
  mount_path = path;
  name = "persistent-volume-claim";
  sub_path = sub;
}

-- The volume mounts that the code adds, in its order.
abbrev pub own_volume_mounts : ActionsRunner → List VolumeMount
own_volume_mounts ar =
    record { mount_path = "/opt/actions-runner/.runner"; name = "config-map"; sub_path = ".runner" }
    ∷ record {
      mount_path = "/opt/actions-runner/.credentials";
      name = "config-map";
      sub_path = ".credentials";
    }
    ∷ record {
      mount_path = "/opt/actions-runner/.credentials_rsaparams";
      name = "secret";
      sub_path = ".credentials_rsaparams";
    }
    ∷ (if has_requested_storage ar.spec
        then claim_mount "/home/linuxbrew" ":home:linuxbrew"
          ∷ claim_mount "/home/runner" ":home:user"
          ∷ claim_mount "/home/user" ":home:user"
          ∷ claim_mount "/opt/actions-runner/_work" ":opt:actions-runner:_work"
          ∷ claim_mount "/opt/hostedtoolcache" ":opt:hostedtoolcache"
          ∷ claim_mount "/root" ":root"
          ∷ []
        else [])

-- `volumeMountByPath`
unfoldable pub volume_mount_by_path : ActionsRunner → GoMap VolumeMount
unfolding put_all
volume_mount_by_path ar =
    put_all mount_path_of (put_all mount_path_of [] ar.spec.volume_mounts) (own_volume_mounts ar)

unfoldable pub with_volume_mounts : ActionsRunner → List VolumeMount
unfolding volume_mount_by_path
with_volume_mounts ar = map (λ (e : String × VolumeMount). e.1) (volume_mount_by_path ar)
