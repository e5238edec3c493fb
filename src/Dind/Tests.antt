-- ===== src/Dind/Tests.antt =====
-- Runs of the Docker side on concrete inputs, and a small host to run the handlers on.
use mathlib.Core.Bool.{false≢true}
use kube_actions.Prelude.{
  zero, ℕ, suc, select, ◌+◌, ◌≤◌, ◌<◌, ◌↔◌, String, ◌≡◌, refl, true, false, List, [], ◌∷◌, Option,
  none, some, eq_iff, nat_eq, Option-cases, inl, inr, bit, if◌then◌else◌, arith,
}
use kube_actions.Prelude.Result.{Result}
use kube_actions.Prelude.GoMap.{get, put, delete}
use kube_actions.Dind.Types.{start, create, NetworkInfo, ContainerInfo}
use kube_actions.Dind.Octets.{
  assign, mark_and_get_first_available, first_available, mark_and_get-least,
}
use kube_actions.Dind.Cache.{
  Cache, new_cache, add_network_info, add_proxy_port_pid, delete_proxy_port_pids, get_network_info,
  get_proxy_port_pids,
}
use kube_actions.Dind.Subnets.{to_host_proxy}
use kube_actions.Dind.Subnets.Shape.{to_host_proxy-injective}
use kube_actions.Dind.Events.{
  Docker, Received, message, State, on_containers, on_network_create, on_network_destroy,
  event_loop, on_message, dispatch, allocate,
}
use kube_actions.Dind.Events.Holding.{held}
use kube_actions.Dind.Events.Isolation.{initial, networks_apart, destroy-create}
use kube_actions.Dind.Forward.{
  Host, create_socat_command, kill_all, on_sent, setup_container_port_proxy,
  setdown_container_port_proxy,
}
use kube_actions.Dind.Forward.Lifecycle.{
  HasProcesses, count, setdown-setup, unsupported_protocol_panics,
}
use kube_actions.Dind.Wait.{wait_for_dockerd, Succeeds, wait_for_dockerd-Succeeds}

-- A daemon whose networks all have the subnet 172.18.0.0/16.
abbrev one_subnet : Docker
one_subnet = record {
  network_inspect = λ _. Result.ok ("172.18.0.0/16" ∷ []);
  container_inspect = λ _. Result.err "no such container";
}

abbrev created : String → Received
created id = message one_subnet (record { kind = "network"; action = "create"; id = id })

abbrev info_of : String → ℕ → String → NetworkInfo
info_of id octet proxy = record {
  id = id;
  action = create;
  subnets =
      record { docker_subnet = "172.18.0.0/16"; host_proxy_subnet = proxy; second_octet = octet }
      ∷ [];
}

networks_apart_example :
    held 1 (info_of "a" 1 "127.1.0.0/16").subnets + held 1 (info_of "b" 2 "127.2.0.0/16").subnets
    ≤ bit ((event_loop initial (created "a" ∷ created "b" ∷ [])).0.used 1)
unfolding event_loop get_network_info get on_message dispatch allocate select
    mark_and_get_first_available first_available add_network_info put delete to_host_proxy
networks_apart_example =
    networks_apart (created "a" ∷ created "b" ∷ []) "a" "b" (info_of "a" 1 "127.1.0.0/16")
      (info_of "b" 2 "127.2.0.0/16") 1 (λ p. false≢true ((eq_iff "a" "b").1 p)) refl refl

abbrev one_network : State
one_network = record {
  cache = record new_cache { network_info_by_id = ("a", info_of "a" 1 "127.1.0.0/16") ∷ [] };
  used = assign (λ o. false) 1 true;
}

destroy-create_example :
    ((o : ℕ) → (on_network_destroy one_network "a").0.used o ≡ false)
    × ((j : String)
        → get_network_info (on_network_destroy one_network "a").0.cache j
          ≡ get_network_info new_cache j)
unfolding on_network_create get_network_info get allocate select mark_and_get_first_available
    first_available add_network_info put delete to_host_proxy
destroy-create_example = destroy-create one_subnet initial one_network "a" _ refl refl

mark_and_get-least_example :
    (1 ≤ 2)
    × (2 < 256)
    × (assign (λ o. false) 1 true 2 ≡ false)
    × ((j : ℕ) → 1 ≤ j → j < 2 → assign (λ o. false) 1 true j ≡ true)
    × ((j : ℕ)
        → assign (assign (λ o. false) 1 true) 2 true j
          ≡ (if nat_eq 2 j then true else assign (λ o. false) 1 true j))
unfolding mark_and_get_first_available first_available
mark_and_get-least_example =
    mark_and_get-least (assign (λ o. false) 1 true) 2 (assign (assign (λ o. false) 1 true) 2 true)
      refl

to_host_proxy-injective_example : ◌≡◌ {A = ℕ} 5 5
unfolding to_host_proxy
to_host_proxy-injective_example =
    to_host_proxy-injective 5 5 "172" "16" ".0.0/16" "10" "255" ".0.0/16" (omega arith)
      (omega arith) ((refl, (refl, (refl, tt))), omega arith, omega arith)
      ((refl, (refl, tt)), omega arith, omega arith) refl
      ((refl, (refl, tt)), omega arith, omega arith)
      ((refl, (refl, (refl, tt))), omega arith, omega arith) refl refl

-- A host with the processes that run, newest first; a new one gets the next number.
abbrev running_on : List ℕ → ℕ
running_on [] = 0
running_on (p ∷ ps) = suc (running_on ps)

abbrev without : ℕ → List ℕ → Option (List ℕ)
without p [] = none
without p (q ∷ qs) =
    let rest = without p qs in
    if nat_eq q p then some qs else elim rest [ none ↦ none | some l ↦ some (q ∷ l) ]

abbrev kill_one : ℕ → List ℕ → Result String (Unit {0}) × List ℕ
kill_one p w = elim (without p w) [
  | none ↦ (Result.err "process already finished", w)
  | some w' ↦ (Result.ok tt, w')
]

abbrev small_host : Host
small_host = record {
  World = List ℕ;
  append_unique = λ rule w. (Result.ok tt, w);
  delete_rule = λ rule w. (Result.ok tt, w);
  start_command = λ command w. (Result.ok (suc (running_on w)), suc (running_on w) ∷ w);
  kill = kill_one;
}

count-without :
    (pid p : ℕ) (w w' : List ℕ)
    → without pid w ≡ some w'
    → count p w' + bit (nat_eq pid p) ≡ count p w
count-without pid p [] w' h = ground (arith, h)
count-without pid p (q ∷ qs) w' h = elim (Option-cases (without pid qs)) [
  | inl e ↦ ground (arith, h, e)
  | inr (l, e) ↦ ground (arith, h, e, count-without pid p qs l e)
]

count-kill_one :
    (w w' : List ℕ) (pid p : ℕ)
    → kill_one pid w ≡ (Result.ok tt, w')
    → count p w' + bit (nat_eq pid p) ≡ count p w
count-kill_one w w' pid p h = elim (Option-cases (without pid w)) [
  | inl e ↦ absurd (ground (arith, h, e))
  | inr (l, e) ↦ ground (arith, h, e, count-without pid p w l e)
]

count-start :
    (command : List String) (w w' : List ℕ) (pid p : ℕ)
    → small_host.start_command command w ≡ (Result.ok pid, w')
    → count p w' ≡ count p w + bit (nat_eq pid p)
count-start command w w' pid p h = ground (arith, h)

abbrev small_host_processes : HasProcesses small_host
small_host_processes = record {
  live = λ w p. count p w;
  start_live = count-start;
  kill_live = count-kill_one;
}

abbrev web : ContainerInfo
web = record {
  id = "c";
  action = start;
  pid = 40;
  ports = record { proto = "tcp"; port = 80 } ∷ record { proto = "udp"; port = 53 } ∷ [];
  ips = "127.1.0.2" ∷ [];
}

abbrev web_running : Cache
web_running = record new_cache { proxy_port_pids_by_container_id = ("c", 1 ∷ 2 ∷ []) ∷ [] }

abbrev web_stopped : Cache
web_stopped = record new_cache { proxy_port_pids_by_container_id = ("c", []) ∷ [] }

setdown-setup_example :
    ((p : ℕ) → count p [] ≡ count p []) × (get_proxy_port_pids web_stopped "c" ≡ [])
unfolding setup_container_port_proxy setdown_container_port_proxy get_proxy_port_pids get
    create_socat_command add_proxy_port_pid put delete kill_all delete_proxy_port_pids
setdown-setup_example =
    setdown-setup small_host small_host_processes web new_cache web_running web_stopped []
      (2 ∷ 1 ∷ []) [] refl refl refl

abbrev diameter : ContainerInfo
diameter = record web { ports = record { proto = "sctp"; port = 3868 } ∷ [] }

unsupported_protocol_panics_example :
    on_sent small_host (on_containers diameter) new_cache [] ≡ none
unsupported_protocol_panics_example =
    unsupported_protocol_panics small_host diameter new_cache [] "127.1.0.2" [] [] []
      (record { proto = "sctp"; port = 3868 }) refl refl refl
      (λ p. false≢true ((eq_iff "sctp" "tcp").1 p)) (λ p. false≢true ((eq_iff "sctp" "udp").1 p))

-- A daemon that refuses a number of attempts.
abbrev refuses : ℕ → Option String × ℕ
refuses zero = (none, 0)
refuses (suc n) = (some "connection refused", n)

wait_for_dockerd-Succeeds_example :
    ((wait_for_dockerd refuses 3).0 ≡ none) ↔ ((k : ℕ) × (k < 15) × Succeeds refuses k 3)
wait_for_dockerd-Succeeds_example = wait_for_dockerd-Succeeds refuses 3
