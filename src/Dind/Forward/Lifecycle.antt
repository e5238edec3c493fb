-- ===== src/Dind/Forward/Lifecycle.antt =====
-- The socat processes of a container over its life: what its start spawns, its stop kills.
use kube_actions.Prelude.{
  ℕ, ◌+◌, String, ◌≡◌, ◌≢◌, refl, ap, sym, subst, List, [], ◌∷◌, ◌++◌, Option, none, some, arith,
  nat_eq, bit, eq_iff, eq_refl, Option-cases, inl, inr,
}
use kube_actions.Prelude.GoMap.{get-put}
use kube_actions.Prelude.Outcome.{ok}
use kube_actions.Prelude.Result.{Result}
use kube_actions.Dind.Types.{start, stop, Port, ContainerInfo}
use kube_actions.Dind.Cache.{Cache, get_proxy_port_pids, add_proxy_port_pid, delete_proxy_port_pids}
use kube_actions.Dind.Events.{on_containers}
use kube_actions.Dind.Forward.{
  Host, AddPortProxyRequest, request, add_port_proxy, create_socat_command, setup_ports, setup_ips,
  setup_container_port_proxy, kill_all, setdown_container_port_proxy, on_sent, After, or_panic,
}

abbrev pub count : ℕ → List ℕ → ℕ
count p [] = 0
count p (q ∷ rest) = bit (nat_eq q p) + count p rest

count-append : (p : ℕ) (xs ys : List ℕ) → count p (xs ++ ys) ≡ count p xs + count p ys
count-append p [] ys = omega arith
count-append p (x ∷ xs) ys = omega (arith, count-append p xs ys)

pids-add :
    (c : Cache) (id : String) (pid : ℕ)
    → get_proxy_port_pids (add_proxy_port_pid c id pid) id ≡ get_proxy_port_pids c id ++ pid ∷ []
unfolding get_proxy_port_pids add_proxy_port_pid
pids-add c id pid = simp (get-put, eq_refl)

pids-delete : (c : Cache) (id : String) → get_proxy_port_pids (delete_proxy_port_pids c id) id ≡ []
unfolding get_proxy_port_pids delete_proxy_port_pids
pids-delete c id = simp (get-put, eq_refl)

-- What the code relies on: a started process is one more that runs under its id, and a kill that
-- succeeds ends one that runs under the id it is given.
pub record HasProcesses (host : Host) : Type 1 where
  pub live : host.World → ℕ → ℕ
  pub start_live :
      (command : List String) (w w' : host.World) (pid p : ℕ)
      → host.start_command command w ≡ (Result.ok pid, w')
      → live w' p ≡ live w p + bit (nat_eq pid p)
  pub kill_live :
      (w w' : host.World) (pid p : ℕ)
      → host.kill pid w ≡ (Result.ok tt, w')
      → live w' p + bit (nat_eq pid p) ≡ live w p

module _ (host : Host) (processes : HasProcesses host) where
  open host use {World, start_command, kill}
  open processes use {live, start_live, kill_live}

  -- Each running process of the container is a recorded one.
  abbrev Recorded : String → Cache → World → Cache → World → Type 0
  Recorded id c w c' w' =
      (p : ℕ)
      → live w' p + count p (get_proxy_port_pids c id)
        ≡ live w p + count p (get_proxy_port_pids c' id)

  add_port_proxy-live :
      (r : AddPortProxyRequest) (w w' : World) (pid p : ℕ)
      → add_port_proxy host r w ≡ some (Result.ok pid, w')
      → live w' p ≡ live w p + bit (nat_eq pid p)
  unfolding add_port_proxy
  add_port_proxy-live r w w' pid p h = elim (Option-cases (create_socat_command r)) [
    | inl e ↦ absurd (ground (arith, e))
    | inr (command, e) ↦ start_live command w w' pid p (ground (arith, e))
  ]

  setup_ports-Recorded :
      (info : ContainerInfo) (ip : String) (ports : List Port) (c c' : Cache) (w w' : World)
      (continue : Cache → World → After host)
      → ((d : Cache) (v : World) → continue d v ≡ (ok tt, c', w') → Recorded info.id d v c' w')
      → setup_ports host info ip ports c w continue ≡ (ok tt, c', w')
      → Recorded info.id c w c' w'
  unfolding setup_ports
  setup_ports-Recorded info ip [] c c' w w' continue rest h = rest c w h
  setup_ports-Recorded info ip (spec ∷ ports) c c' w w' continue rest h =
      elim (Option-cases (add_port_proxy host (request host info ip spec) w)) [
        | inl e ↦ absurd (ground (arith, e))
        | inr ((Result.err m, v), e) ↦ absurd (ground (arith, e))
        | inr ((Result.ok pid, v), e) ↦ λ p.
            let d = add_proxy_port_pid c info.id pid in
            omega (
              arith,
              add_port_proxy-live (request host info ip spec) w v pid p e,
              setup_ports-Recorded info ip ports d c' v w' continue rest (ground (arith, e)) p,
              ap (count p) (pids-add c info.id pid),
              count-append p (get_proxy_port_pids c info.id) (pid ∷ []),
            )
      ]

  setup_ips-Recorded :
      (info : ContainerInfo) (ips : List String) (c c' : Cache) (w w' : World)
      → setup_ips host info ips c w ≡ (ok tt, c', w')
      → Recorded info.id c w c' w'
  unfolding setup_ips
  setup_ips-Recorded info [] c c' w w' h = λ p. ground arith
  setup_ips-Recorded info (ip ∷ ips) c c' w w' h =
      setup_ports-Recorded info ip info.ports c c' w w' (setup_ips host info ips)
        (λ d v. setup_ips-Recorded info ips d c' v w') h

  kill_all-live :
      (pids : List ℕ) (w w' : World) (p : ℕ)
      → kill_all host pids w ≡ (Result.ok tt, w')
      → live w' p + count p pids ≡ live w p
  unfolding kill_all
  kill_all-live [] w w' p h = ground arith
  kill_all-live (pid ∷ pids) w w' p h = go (kill pid w) refl (λ v. kill_all-live pids v w' p)
    where
      go :
          (k : Result String (Unit {0}) × World)
          → kill pid w ≡ k
          → ((v : World)
              → kill_all host pids v ≡ (Result.ok tt, w')
              → live w' p + count p pids ≡ live v p)
          → live w' p + count p (pid ∷ pids) ≡ live w p
      go (Result.err m, v) e ih = absurd (ground (arith, e))
      go (Result.ok _, v) e ih = omega (arith, kill_live w v pid p e, ih v (ground (arith, e)))

  -- On a host that starts and kills processes as it is asked: if no process is recorded for a
  -- container and both handlers succeed, then after its stop as many processes run under each id
  -- as before its start, and none is recorded for it.
  pub setdown-setup :
      (info : ContainerInfo) (c c' c'' : Cache) (w w' w'' : World)
      → get_proxy_port_pids c info.id ≡ []
      → setup_container_port_proxy host info c w ≡ (ok tt, c', w')
      → setdown_container_port_proxy host (record info { action = stop }) c' w' ≡ (ok tt, c'', w'')
      → ((p : ℕ) → live w'' p ≡ live w p) × (get_proxy_port_pids c'' info.id ≡ [])
  unfolding setup_container_port_proxy setdown_container_port_proxy
  setdown-setup info c c' c'' w w' w'' fresh up down =
      go (kill_all host (get_proxy_port_pids c' info.id) w') refl
    where
      go :
          (k : Result String (Unit {0}) × World)
          → kill_all host (get_proxy_port_pids c' info.id) w' ≡ k
          → ((p : ℕ) → live w'' p ≡ live w p) × (get_proxy_port_pids c'' info.id ≡ [])
      go (Result.err m, v) e = absurd (ground (arith, e))
      go (Result.ok _, v) e =
          let same : w'' ≡ v = ground (arith, e) in
          let clean : c'' ≡ delete_proxy_port_pids c' info.id = ground (arith, e) in
          (
            (λ p. rw same (
                omega (
                  arith,
                  kill_all-live (get_proxy_port_pids c' info.id) w' v p e,
                  setup_ips-Recorded info info.ips c c' w w' up p,
                  ap (count p) fresh,
                ))),
            rw clean (pids-delete c' info.id),
          )

setup_ports-panics :
    (host : Host) (info : ContainerInfo) (ip : String) (before after : List Port) (spec : Port)
    (c : Cache) (w : host.World) (continue : Cache → host.World → After host)
    → spec.proto ≢ "tcp"
    → spec.proto ≢ "udp"
    → or_panic host (setup_ports host info ip (before ++ spec ∷ after) c w continue) ≡ none
unfolding setup_ports add_port_proxy create_socat_command
setup_ports-panics host info ip [] after spec c w continue ne ne' =
    ground (arith, eq_iff spec.proto "tcp", eq_iff spec.proto "udp")
setup_ports-panics host info ip (first ∷ before) after spec c w continue ne ne' =
    go (add_port_proxy host (request host info ip first) w) refl
      (λ d v. setup_ports-panics host info ip before after spec d v continue ne ne')
  where
    go :
        (r : Option (Result String ℕ × host.World))
        → add_port_proxy host (request host info ip first) w ≡ r
        → ((d : Cache) (v : host.World)
            → or_panic host (setup_ports host info ip (before ++ spec ∷ after) d v continue) ≡ none)
        → or_panic host (setup_ports host info ip (first ∷ before ++ spec ∷ after) c w continue)
          ≡ none
    go none e ih = rw (e, setup_ports)
    go (some (Result.err m, v)) e ih = rw (e, setup_ports)
    go (some (Result.ok pid, v)) e ih =
        rw (e, setup_ports) (ih (add_proxy_port_pid c info.id pid) v)

-- The start of a container that has an address and a port whose protocol is neither tcp nor udp
-- makes the main loop panic.
pub unsupported_protocol_panics :
    (host : Host) (info : ContainerInfo) (c : Cache) (w : host.World) (ip : String)
    (ips : List String) (before after : List Port) (spec : Port)
    → info.action ≡ start
    → info.ips ≡ ip ∷ ips
    → info.ports ≡ before ++ spec ∷ after
    → spec.proto ≢ "tcp"
    → spec.proto ≢ "udp"
    → on_sent host (on_containers info) c w ≡ none
unfolding on_sent setup_container_port_proxy setup_ips
unsupported_protocol_panics host info c w ip ips before after spec started addresses ports ne ne' =
    rw (started, on_sent)
      (subst (λ (l : List String). or_panic host (setup_ips host info l c w) ≡ none) (sym addresses)
        (subst
          (λ (l : List Port).
            or_panic host (setup_ports host info ip l c w (setup_ips host info ips)) ≡ none)
          (sym ports)
          (setup_ports-panics host info ip before after spec c w (setup_ips host info ips) ne ne')))
