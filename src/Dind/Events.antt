-- ===== src/Dind/Events.antt =====
-- `GetResourcesInfoFromEvents` of dind/docker.go: one step for each value that arrives on the
-- channels of the docker client. What the docker daemon answers to an inspection is a parameter.
pub mod Holding
pub mod Isolation
use mathlib.Core.List.{map}
use kube_actions.Prelude.{
  ℕ, String, Bool, true, false, List, [], ◌∷◌, ◌++◌, Option, none, some, ◌==◌, not, select,
  if◌then◌else◌,
}
use kube_actions.Prelude.Result.{Result, ok, err}
use kube_actions.Dind.Types.{
  ResourceKind, network, container, ResourceAction, create, destroy, start, stop, Subnet,
  NetworkInfo, Port, ContainerInfo, ContainerNetwork, ContainerInspectInfo,
}
use kube_actions.Dind.Octets.{Used, assign, mark_and_get_first_available}
use kube_actions.Dind.Subnets.{to_host_proxy}
use kube_actions.Dind.Cache.{
  Cache, add_network_info, get_network_info, delete_network_info, add_container_info,
  delete_container_info,
}

-- What the code reads of docker's answer: `State.Pid`, and the entries of `NetworkSettings.Ports`
-- (`Proto()` and `Int()`) and of `NetworkSettings.Networks` (`NetworkID` and `IPAddress`), each in
-- the order in which `range` visits that map.
pub record ContainerJson : Type 0 where
  pub pid : ℕ
  pub ports : List (String × ℕ)
  pub networks : List (String × String)

-- What `NetworkInspect` and `ContainerInspect` of the docker client answer when a message is
-- handled: the subnets of the IPAM configuration, and the process, ports and networks.
pub record Docker : Type 0 where
  pub network_inspect : String → Result String (List String)
  pub container_inspect : String → Result String ContainerJson

-- `resourceKindByString`
unfoldable pub resource_kind_by_string : String → Option ResourceKind
resource_kind_by_string s =
    if s == "network" then some network else if s == "container" then some container else none

-- `resourceActionByString`
unfoldable pub resource_action_by_string : String → Option ResourceAction
resource_action_by_string s =
    if s == "create"
    then some create
    else if s == "destroy"
    then some destroy
    else if s == "start"
    then some start
    else if s == "stop"
    then some stop
    else if s == "die"
    then some stop
    else none

-- `events.Message`: its `Type`, `Action` and `Actor.ID`.
pub record Message : Type 0 where
  pub kind : String
  pub action : String
  pub id : String

-- What the event loop owns: the cache and `usedHostSecondOctet`.
pub record State : Type 0 where
  pub cache : Cache
  pub used : Used

-- A value sent on `networks` or on `containers`.
pub data Sent : Type 0 where
  on_networks : NetworkInfo → Sent
  on_containers : ContainerInfo → Sent

-- `getNetworkSubnets`: the subnets that are not empty.
unfoldable pub get_network_subnets : Docker → String → Result String (List String)
get_network_subnets docker id = elim (docker.network_inspect id) [
  | ok subnets ↦ ok (select (λ s. not (s == "")) subnets)
  | err e ↦ err e
]

-- `getContainerInspectInfo`
unfoldable pub get_container_inspect_info : Docker → String → Result String ContainerInspectInfo
get_container_inspect_info docker id = elim (docker.container_inspect id) [
  | ok inspect ↦ ok (record {
    pid = inspect.pid;
    ports = map (λ (p : String × ℕ). record { proto = p.0; port = p.1 }) inspect.ports;
    networks = map (λ (n : String × String). record { id = n.0; ip = n.1 }) inspect.networks;
  })
  | err e ↦ err e
]

-- The subnets of a new network, each with the first free octet; `none` is a panic.
unfoldable pub allocate : Used → List String → Option (Used × List Subnet)
allocate used [] = some (used, [])
allocate used (docker_subnet ∷ rest) = elim (mark_and_get_first_available used) [
  | none ↦ none
  | some (octet, marked) ↦ elim (allocate marked rest) [
    | none ↦ none
    | some (used', subnets) ↦ some (
      used',
      record {
        docker_subnet = docker_subnet;
        host_proxy_subnet = to_host_proxy octet docker_subnet;
        second_octet = octet;
      }
          ∷ subnets,
    )
  ]
]

-- The loop that clears the octets of a network that is gone.
unfoldable pub release : Used → List Subnet → Used
release used [] = used
release used (subnet ∷ rest) = release (assign used subnet.second_octet false) rest

-- On an inspection error the code goes on with no subnet.
abbrev or_none_on_error : Result String (List String) → List String
or_none_on_error (ok subnets) = subnets
or_none_on_error (err e) = []

unfoldable pub on_network_create : Docker → State → String → Option (State × List Sent)
unfolding get_network_subnets
on_network_create docker s id =
    elim (allocate s.used (or_none_on_error (get_network_subnets docker id))) [
      | none ↦ none
      | some (used, subnets) ↦
          let info : NetworkInfo = record { id = id; action = create; subnets = subnets } in
          some
            (record { cache = add_network_info s.cache info; used = used }, on_networks info ∷ [])
    ]

unfoldable pub on_network_destroy : State → String → State × List Sent
on_network_destroy s id = elim (get_network_info s.cache id) [
  | none ↦ (s, [])
  | some info ↦ (
    record { cache = (delete_network_info s.cache id).0; used = release s.used info.subnets },
    on_networks (record info { action = destroy }) ∷ [],
  )
]

-- The loopback addresses of a container in one of its networks.
abbrev proxy_ips_in : String → List Subnet → List String
proxy_ips_in ip = map (λ subnet. to_host_proxy subnet.second_octet ip)

-- The loop over the networks of a container; a network that is not cached is skipped.
unfoldable pub proxy_ips : Cache → List ContainerNetwork → List String
proxy_ips c [] = []
proxy_ips c (n ∷ rest) = elim (get_network_info c n.id) [
  | none ↦ proxy_ips c rest
  | some info ↦ proxy_ips_in n.ip info.subnets ++ proxy_ips c rest
]

unfoldable pub on_container_start : Docker → State → String → State × List Sent
unfolding get_container_inspect_info
on_container_start docker s id = elim (get_container_inspect_info docker id) [
  | ok inspect ↦
      let info : ContainerInfo = record {
        id = id;
        action = start;
        pid = inspect.pid;
        ports = inspect.ports;
        ips = proxy_ips s.cache inspect.networks;
      } in
      (record s { cache = add_container_info s.cache info }, on_containers info ∷ [])
  | err e ↦ (s, [])
]

unfoldable pub on_container_stop : State → String → State × List Sent
on_container_stop s id =
    let (cache, found) = delete_container_info s.cache id in
    elim found [
      | none ↦ (record s { cache = cache }, [])
      | some info ↦ (record s { cache = cache }, on_containers (record info { action = stop }) ∷ [])
    ]

-- The two nested `switch` statements; other pairs of a kind and an action do nothing.
unfoldable pub dispatch :
    Docker → State → String → ResourceKind → ResourceAction → Option (State × List Sent)
unfolding on_network_create on_network_destroy on_container_start on_container_stop
dispatch docker s id network create = on_network_create docker s id
dispatch docker s id network destroy = some (on_network_destroy s id)
dispatch docker s id container start = some (on_container_start docker s id)
dispatch docker s id container stop = some (on_container_stop s id)
dispatch docker s id _ _ = some (s, [])

-- One message: `continue` on an unknown kind or action. `none` is a panic.
unfoldable pub on_message : Docker → State → Message → Option (State × List Sent)
unfolding resource_kind_by_string resource_action_by_string
on_message docker s msg = elim (resource_kind_by_string msg.kind) [
  | none ↦ some (s, [])
  | some kind ↦ elim (resource_action_by_string msg.action) [
    | none ↦ some (s, [])
    | some action ↦ dispatch docker s msg.id kind action
  ]
]

-- What the `select` receives: a message, with the answers of the docker daemon at that time, the
-- end of the stream (`io.EOF` or nil), or another error, on which the stream is opened again.
pub data Received : Type 0 where
  message : Docker → Message → Received
  end_of_stream : Received
  stream_error : Received

pub data Ended : Type 0 where
  running closed panicked : Ended

-- The loop over what is received: the last state, what was sent, and how it ended.
unfoldable pub event_loop : State → List Received → State × List Sent × Ended
event_loop s [] = (s, [], running)
event_loop s (message docker msg ∷ rest) = elim (on_message docker s msg) [
  | none ↦ (s, [], panicked)
  | some (s', sent) ↦ let (s'', later, e) = event_loop s' rest in (s'', sent ++ later, e)
]
event_loop s (end_of_stream ∷ rest) = (s, [], closed)
event_loop s (stream_error ∷ rest) = event_loop s rest
