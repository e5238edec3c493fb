-- ===== src/Operator/Pod/Volumes/Own.antt =====
-- The maps behind `withVolumes` and `withVolumeMounts`: the last entry with a name wins, so that a
-- spec cannot replace the credentials of a runner.
use kube_actions.Prelude.{
  String, ◌≡◌, refl, List, [], ◌∷◌, Option, none, some, arith, ◌==◌, if◌then◌else◌,
}
use kube_actions.Prelude.GoMap.{GoMap, get, put, get-put}
use kube_actions.Operator.Api.Core.{config_map, secret, persistent_volume_claim}
use kube_actions.Operator.Api.Runner.{ActionsRunner}
use kube_actions.Operator.Pod.Filters.{has_requested_storage}
use kube_actions.Operator.Pod.Volumes.{
  put_all, volume_name, mount_path_of, own_volumes, own_volume_mounts, volume_by_name,
  volume_mount_by_path,
}

-- The last element with the key, if there is one.
unfoldable pub last_with {ℓ} : {A : Type ℓ} → (A → String) → String → List A → Option A → Option A
last_with key k [] found = found
last_with key k (x ∷ xs) found = last_with key k xs (if key x == k then some x else found)

get-put_all {ℓ} :
    {A : Type ℓ} (key : A → String) (m : GoMap A) (xs : List A) (k : String)
    → get (put_all key m xs) k ≡ last_with key k xs (get m k)
unfolding put_all last_with
get-put_all key m [] k = refl
get-put_all key m (x ∷ xs) k = rw (get-put_all key (put m (key x) x) xs k, get-put m (key x) k x)

-- By its name, a volume of the pod is the runner's own config map, secret or (if storage is
-- requested) volume claim, and else the last one of that name in the spec.
pub volume_by_name-own :
    (ar : ActionsRunner) (k : String)
    → get (volume_by_name ar) k ≡ (
        if has_requested_storage ar.spec
        then (if "persistent-volume-claim" == k
            then some (record {
              name = "persistent-volume-claim";
              source = persistent_volume_claim ar.metadata.name;
            })
            else if "secret" == k
            then some (record { name = "secret"; source = secret ar.metadata.name })
            else if "config-map" == k
            then some (record { name = "config-map"; source = config_map ar.metadata.name })
            else last_with volume_name k ar.spec.volumes none)
        else if "secret" == k
        then some (record { name = "secret"; source = secret ar.metadata.name })
        else if "config-map" == k
        then some (record { name = "config-map"; source = config_map ar.metadata.name })
        else last_with volume_name k ar.spec.volumes none)
volume_by_name-own ar k =
    unfold volume_by_name in
    (rw
      (
        get-put_all volume_name (put_all volume_name [] ar.spec.volumes) (own_volumes ar) k,
        get-put_all volume_name [] ar.spec.volumes k,
      )
      (unfold last_with get in ground arith))

own_mount_wins :
    (ar : ActionsRunner) (k : String)
    → get (volume_mount_by_path ar) k
      ≡ last_with mount_path_of k
          (own_volume_mounts ar)
          (get (put_all mount_path_of [] ar.spec.volume_mounts) k)
unfolding volume_mount_by_path
own_mount_wins ar k =
    get-put_all mount_path_of (put_all mount_path_of [] ar.spec.volume_mounts)
      (own_volume_mounts ar) k

-- Whatever the spec mounts, the map of volume mounts by path has at the paths of the settings and
-- of the credentials those of the config map and of the secret of the runner.
pub credentials_mounted :
    (ar : ActionsRunner)
    → (get (volume_mount_by_path ar) "/opt/actions-runner/.runner"
        ≡ some (record {
          mount_path = "/opt/actions-runner/.runner";
          name = "config-map";
          sub_path = ".runner";
        }))
      × (get (volume_mount_by_path ar) "/opt/actions-runner/.credentials"
          ≡ some (record {
            mount_path = "/opt/actions-runner/.credentials";
            name = "config-map";
            sub_path = ".credentials";
          }))
      × (get (volume_mount_by_path ar) "/opt/actions-runner/.credentials_rsaparams"
          ≡ some (record {
            mount_path = "/opt/actions-runner/.credentials_rsaparams";
            name = "secret";
            sub_path = ".credentials_rsaparams";
          }))
unfolding last_with
credentials_mounted ar = (
  ground (arith, own_mount_wins ar "/opt/actions-runner/.runner"),
  ground (arith, own_mount_wins ar "/opt/actions-runner/.credentials"),
  ground (arith, own_mount_wins ar "/opt/actions-runner/.credentials_rsaparams"),
)
