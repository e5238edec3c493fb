-- ===== src/Dind/Forward.antt =====
-- dind/portproxy.go and the handlers of dind/main.go: the NAT rules of the networks and the socat
-- processes of the containers. The kernel and the process table are a parameter.
pub mod Lifecycle
use Prim.Native.String.{◌++◌ as str_append}
use kube_actions.Prelude.{
  ℕ, String, ◌≡◌, refl, ap, Bool, true, false, List, [], ◌∷◌, ◌++◌, map, Option, none, some, ◌==◌,
  if◌then◌else◌,
}
use kube_actions.Prelude.Outcome.{Outcome, ok, err, panic}
use kube_actions.Prelude.Result
use kube_actions.Prelude.Result.{Result}
use kube_actions.Dind.Types.{
  create, destroy, start, stop, ResourceAction, Subnet, NetworkInfo, Port, ContainerInfo,
}
use kube_actions.Dind.Subnets.{decimal}
use kube_actions.Dind.Cache.{Cache, get_proxy_port_pids, add_proxy_port_pid, delete_proxy_port_pids}
use kube_actions.Dind.Events.{Sent, on_networks, on_containers}

pub record AddPortProxyRequest : Type 0 where
  pub proto : String
  pub host_ip : String
  pub host_port : ℕ
  pub child_pid : ℕ
  pub child_port : ℕ

-- What the handlers call: `AppendUnique` and `Delete` of the iptables client on a rule of the chain
-- OUTPUT of the table nat, the start of a command, which gives its process id, and SIGKILL.
pub record Host : Type 1 where
  pub World : Type 0
  pub append_unique : List String → World → Result String (Unit {0}) × World
  pub delete_rule : List String → World → Result String (Unit {0}) × World
  pub start_command : List String → World → Result String ℕ × World
  pub kill : ℕ → World → Result String (Unit {0}) × World

-- The rule `-d docker -j NETMAP --to proxy`.
unfoldable pub netmap_rule : Subnet → List String
netmap_rule s = "-d" ∷ s.docker_subnet ∷ "-j" ∷ "NETMAP" ∷ "--to" ∷ s.host_proxy_subnet ∷ []

infixr 65 ◌+++◌
abbrev ◌+++◌ : String → String → String
a +++ b = str_append a b

-- The arguments of socat for one kind of socket: LISTEN and connect prefixes.
abbrev socat_arguments : String → String → AddPortProxyRequest → List String
socat_arguments listen connect r =
    "socat"
    ∷ (listen
        +++ ":"
        +++ decimal r.host_port
        +++ ",bind="
        +++ r.host_ip
        +++ ",reuseaddr,fork,rcvbuf=65536,sndbuf=65536")
    ∷ ("EXEC:\"nsenter -U -n --preserve-credentials -t "
        +++ decimal r.child_pid
        +++ " socat STDIN "
        +++ connect
        +++ ":127.0.0.1:"
        +++ decimal r.child_port
        +++ "\",nofork")
    ∷ []

-- `createSocatCommand`: for another protocol `cmd` stays nil, and the assignment to `cmd.Env`
-- dereferences it.
unfoldable pub create_socat_command : AddPortProxyRequest → Option (List String)
create_socat_command r =
    if r.proto == "tcp"
    then some (socat_arguments "TCP-LISTEN" "TCP4" r)
    else if r.proto == "udp"
    then some (socat_arguments "UDP-LISTEN" "UDP4" r)
    else none

module _ (host : Host) where
  open host use {World, append_unique, delete_rule, start_command, kill}

  -- The cache and the host, with how a handler ended.
  abbrev pub After : Type 0
  After = Outcome String (Unit {0}) × Cache × World

  -- `AddPortProxy`; `none` is the nil dereference.
  unfoldable pub add_port_proxy : AddPortProxyRequest → World → Option (Result String ℕ × World)
  add_port_proxy r w = elim (create_socat_command r) [
    | none ↦ none
    | some command ↦ some (start_command command w)
  ]

  unfoldable pub setup_network_port_forward : List Subnet → World → Result String (Unit {0}) × World
  setup_network_port_forward [] w = (Result.ok tt, w)
  setup_network_port_forward (s ∷ rest) w =
      let (r, w') = append_unique (netmap_rule s) w in
      elim r [
        | Result.ok _ ↦ setup_network_port_forward rest w'
        | Result.err e ↦ (Result.err e, w')
      ]

  unfoldable pub setdown_network_port_forward :
      List Subnet → World → Result String (Unit {0}) × World
  setdown_network_port_forward [] w = (Result.ok tt, w)
  setdown_network_port_forward (s ∷ rest) w =
      let (r, w') = delete_rule (netmap_rule s) w in
      elim r [
        | Result.ok _ ↦ setdown_network_port_forward rest w'
        | Result.err e ↦ (Result.err e, w')
      ]

  -- The request of the inner loop's body.
  abbrev pub request : ContainerInfo → String → Port → AddPortProxyRequest
  request info ip spec = record {
    proto = spec.proto;
    host_ip = ip;
    host_port = spec.port;
    child_pid = info.pid;
    child_port = spec.port;
  }

  -- The inner loop, over the ports, then what the outer loop goes on with.
  unfoldable pub setup_ports :
      ContainerInfo → String → List Port → Cache → World → (Cache → World → After) → After
  setup_ports info ip [] c w continue = continue c w
  setup_ports info ip (spec ∷ rest) c w continue = elim (add_port_proxy (request info ip spec) w) [
    | none ↦ (panic, c, w)
    | some (r, w') ↦ elim r [
      | Result.ok pid ↦ setup_ports info ip rest (add_proxy_port_pid c info.id pid) w' continue
      | Result.err e ↦ (err e, c, w')
    ]
  ]

  -- The outer loop, over the addresses.
  unfoldable pub setup_ips : ContainerInfo → List String → Cache → World → After
  setup_ips info [] c w = (ok tt, c, w)
  setup_ips info (ip ∷ rest) c w = setup_ports info ip info.ports c w (setup_ips info rest)

  unfoldable pub setup_container_port_proxy : ContainerInfo → Cache → World → After
  unfolding setup_ports setup_ips add_port_proxy
  setup_container_port_proxy info c w = setup_ips info info.ips c w

  -- The loop over the recorded processes.
  unfoldable pub kill_all : List ℕ → World → Result String (Unit {0}) × World
  kill_all [] w = (Result.ok tt, w)
  kill_all (pid ∷ rest) w =
      let (r, w') = kill pid w in
      elim r [ Result.ok _ ↦ kill_all rest w' | Result.err e ↦ (Result.err e, w') ]

  unfoldable pub setdown_container_port_proxy : ContainerInfo → Cache → World → After
  setdown_container_port_proxy info c w =
      let (r, w') = kill_all (get_proxy_port_pids c info.id) w in
      elim r [
        | Result.ok _ ↦ (ok tt, delete_proxy_port_pids c info.id, w')
        | Result.err e ↦ (err e, c, w')
      ]

  -- A failed handler panics in the main loop; only the removal of NAT rules is just logged.
  abbrev pub or_panic : After → Option (Cache × World)
  or_panic (ok _, c, w) = some (c, w)
  or_panic (err e, c, w) = none
  or_panic (panic, c, w) = none

  on_network : ResourceAction → NetworkInfo → Cache → World → Option (Cache × World)
  on_network create info c w =
      let (r, w') = setup_network_port_forward info.subnets w in
      elim r [ Result.ok _ ↦ some (c, w') | Result.err e ↦ none ]
  on_network destroy info c w = some (c, (setdown_network_port_forward info.subnets w).1)
  on_network _ info c w = some (c, w)

  on_container : ResourceAction → ContainerInfo → Cache → World → Option (Cache × World)
  on_container start info c w = or_panic (setup_container_port_proxy info c w)
  on_container stop info c w = or_panic (setdown_container_port_proxy info c w)
  on_container _ info c w = some (c, w)

  -- One round of the main loop on what the event loop sent; `none` is a panic.
  unfoldable pub on_sent : Sent → Cache → World → Option (Cache × World)
  unfolding on_network on_container
  on_sent (on_networks info) c w = on_network info.action info c w
  on_sent (on_containers info) c w = on_container info.action info c w
