-- ===== src/Dind/Cache.antt =====
-- dind/cache.go: what is known of the live networks and containers.
use kube_actions.Prelude.{ℕ, String, List, [], ◌∷◌, ◌++◌, Option, none, some}
use kube_actions.Prelude.GoMap.{GoMap, get, put, delete}
use kube_actions.Dind.Types.{NetworkInfo, ContainerInfo}

pub record Cache : Type 0 where
  pub network_info_by_id : GoMap NetworkInfo
  pub container_info_by_id : GoMap ContainerInfo
  pub proxy_port_pids_by_container_id : GoMap (List ℕ)

abbrev pub new_cache : Cache
new_cache = record {
  network_info_by_id = [];
  container_info_by_id = [];
  proxy_port_pids_by_container_id = [];
}

unfoldable pub add_network_info : Cache → NetworkInfo → Cache
add_network_info c info = record c { network_info_by_id = put c.network_info_by_id info.id info }

unfoldable pub get_network_info : Cache → String → Option NetworkInfo
get_network_info c id = get c.network_info_by_id id

unfoldable pub delete_network_info : Cache → String → Cache × Option NetworkInfo
delete_network_info c id =
    (record c { network_info_by_id = delete c.network_info_by_id id }, get c.network_info_by_id id)

unfoldable pub add_container_info : Cache → ContainerInfo → Cache
add_container_info c info = record c {
  container_info_by_id = put c.container_info_by_id info.id info;
  proxy_port_pids_by_container_id = put c.proxy_port_pids_by_container_id info.id [];
}

unfoldable pub get_container_info : Cache → String → Option ContainerInfo
get_container_info c id = get c.container_info_by_id id

unfoldable pub delete_container_info : Cache → String → Cache × Option ContainerInfo
delete_container_info c id = (
  record c { container_info_by_id = delete c.container_info_by_id id },
  get c.container_info_by_id id,
)

-- The zero value of `[]int`, for a key that is missing, is the empty slice.
abbrev or_empty : Option (List ℕ) → List ℕ
or_empty none = []
or_empty (some pids) = pids

unfoldable pub get_proxy_port_pids : Cache → String → List ℕ
get_proxy_port_pids c container_id = or_empty (get c.proxy_port_pids_by_container_id container_id)

unfoldable pub add_proxy_port_pid : Cache → String → ℕ → Cache
unfolding get_proxy_port_pids
add_proxy_port_pid c container_id pid = record c {
  proxy_port_pids_by_container_id =
      put c.proxy_port_pids_by_container_id container_id
        (get_proxy_port_pids c container_id ++ pid ∷ []);
}

unfoldable pub delete_proxy_port_pids : Cache → String → Cache
delete_proxy_port_pids c container_id = record c {
  proxy_port_pids_by_container_id = put c.proxy_port_pids_by_container_id container_id [];
}
