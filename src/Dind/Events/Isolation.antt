-- ===== src/Dind/Events/Isolation.antt =====
-- The event loop of dind/docker.go keeps the loopback subnets of the live networks apart.
use kube_actions.Prelude.{
  ℕ, ◌+◌, ◌≤◌, String, ◌≡◌, ◌≢◌, subst, false, List, [], ◌∷◌, none, some, arith, eq_refl, bit,
  eq_iff, eq_refl, Option-cases, inl, inr,
}
use kube_actions.Prelude.GoMap.{get, put, delete, get-delete}
use kube_actions.Dind.Types.{
  Subnet, NetworkInfo, network, container, create, destroy, start, stop, ResourceKind,
  ResourceAction,
}
use kube_actions.Dind.Octets.{Used}
use kube_actions.Dind.Cache.{
  new_cache, add_network_info, get_network_info, delete_network_info, add_container_info,
  delete_container_info,
}
use kube_actions.Dind.Events.{
  State, Docker, Message, Received, message, end_of_stream, stream_error, allocate, release,
  on_network_create, on_network_destroy, on_container_start, on_container_stop, dispatch,
  on_message, event_loop, resource_kind_by_string, resource_action_by_string, Sent,
  get_network_subnets, or_none_on_error,
}
use kube_actions.Dind.Events.Holding.{
  held, held_in, held-delete-le, held-delete-get, held-allocate, bit-release,
}

-- A cached network holds an octet only if it is marked, and no octet is held twice.
pub record IsApart (s : State) : Type 0 where
  pub held_once : (o : ℕ) → held_in o s.cache.network_info_by_id ≤ bit (s.used o)

on_network_create-IsApart :
    (docker : Docker) (s : State) (id : String) (s' : State) (sent : List Sent)
    → IsApart s
    → on_network_create docker s id ≡ some (s', sent)
    → IsApart s'
unfolding on_network_create add_network_info put
on_network_create-IsApart docker s id s' sent v h =
    elim (Option-cases (allocate s.used (or_none_on_error (get_network_subnets docker id)))) [
      | inl e ↦ absurd (ground (arith, e))
      | inr ((used, subnets), e) ↦ record {
        held_once = λ o. ground (
          arith,
          e,
          v.held_once o,
          held-allocate o s.used used (or_none_on_error (get_network_subnets docker id)) subnets e,
          held-delete-le o s.cache.network_info_by_id id,
        );
      }
    ]

on_network_destroy-IsApart :
    (s : State) (id : String) → IsApart s → IsApart (on_network_destroy s id).0
unfolding on_network_destroy get_network_info delete_network_info
on_network_destroy-IsApart s id v = elim (Option-cases (get s.cache.network_info_by_id id)) [
  | inl e ↦ rw (e, on_network_destroy) v
  | inr (info, e) ↦ record {
    held_once = λ o. ground (
      arith,
      e,
      v.held_once o,
      held-delete-get o s.cache.network_info_by_id id info e,
      bit-release o s.used info.subnets,
    );
  }
]

-- Containers touch neither the networks nor the octets.
on_container_start-IsApart :
    (docker : Docker) (s : State) (id : String)
    → IsApart s
    → IsApart (on_container_start docker s id).0
unfolding on_container_start add_container_info
on_container_start-IsApart docker s id v = record { held_once = λ o. ground (arith, v.held_once o) }

on_container_stop-IsApart :
    (s : State) (id : String) → IsApart s → IsApart (on_container_stop s id).0
unfolding on_container_stop delete_container_info
on_container_stop-IsApart s id v = record { held_once = λ o. ground (arith, v.held_once o) }

dispatch-IsApart :
    (docker : Docker) (s : State) (id : String) (kind : ResourceKind) (action : ResourceAction)
    (s' : State) (sent : List Sent)
    → IsApart s
    → dispatch docker s id kind action ≡ some (s', sent)
    → IsApart s'
unfolding dispatch
dispatch-IsApart docker s id network create s' sent v h =
    on_network_create-IsApart docker s id s' sent v h
dispatch-IsApart docker s id network destroy s' sent v h =
    subst IsApart (ground arith) (on_network_destroy-IsApart s id v)
dispatch-IsApart docker s id container start s' sent v h =
    subst IsApart (ground arith) (on_container_start-IsApart docker s id v)
dispatch-IsApart docker s id container stop s' sent v h =
    subst IsApart (ground arith) (on_container_stop-IsApart s id v)
dispatch-IsApart docker s id _ _ s' sent v h = subst IsApart (ground arith) v

-- One message keeps the networks apart.
on_message-IsApart :
    (docker : Docker) (s : State) (msg : Message) (s' : State) (sent : List Sent)
    → IsApart s
    → on_message docker s msg ≡ some (s', sent)
    → IsApart s'
unfolding on_message
on_message-IsApart docker s msg s' sent v h =
    elim (Option-cases (resource_kind_by_string msg.kind)) [
      | inl e ↦ subst IsApart (ground (arith, e)) v
      | inr (kind, e) ↦ elim (Option-cases (resource_action_by_string msg.action)) [
        | inl f ↦ subst IsApart (ground (arith, e, f)) v
        | inr (action, f) ↦
            dispatch-IsApart docker s msg.id kind action s' sent v (ground (arith, e, f))
      ]
    ]

event_loop-IsApart :
    (s : State) (received : List Received) → IsApart s → IsApart (event_loop s received).0
unfolding event_loop
event_loop-IsApart s [] v = v
event_loop-IsApart s (message docker msg ∷ rest) v = elim (Option-cases (on_message docker s msg)) [
  | inl e ↦ rw (e, event_loop) v
  | inr ((s', sent), e) ↦
      rw (e, event_loop) (event_loop-IsApart s' rest (on_message-IsApart docker s msg s' sent v e))
]
event_loop-IsApart s (end_of_stream ∷ rest) v = v
event_loop-IsApart s (stream_error ∷ rest) v = event_loop-IsApart s rest v

abbrev pub initial : State
initial = record { cache = new_cache; used = λ o. false }

-- Whatever docker sends and answers, from the start on: two cached networks with different ids
-- share no octet, no network holds an octet twice, and an octet that is held is marked as used.
pub networks_apart :
    (received : List Received) (id id' : String) (info info' : NetworkInfo) (o : ℕ)
    → id ≢ id'
    → get_network_info (event_loop initial received).0.cache id ≡ some info
    → get_network_info (event_loop initial received).0.cache id' ≡ some info'
    → held o info.subnets + held o info'.subnets ≤ bit ((event_loop initial received).0.used o)
unfolding get_network_info
networks_apart received id id' info info' o ne e e' =
    let s = (event_loop initial received).0 in
    let m = s.cache.network_info_by_id in
    let v =
      (event_loop-IsApart initial received (record { held_once = λ o. omega arith })).held_once o in
    let e'' : get (delete m id) id' ≡ some info' =
      ground (arith, get-delete m id id', eq_iff id id', e') in
    omega (arith, held-delete-get o m id info e, held-delete-get o (delete m id) id' info' e'', v)

-- The bits that an allocation set are the bits that the release of its subnets clears.
release-allocate :
    (o : ℕ) (used used' : Used) (dockers : List String) (subnets : List Subnet)
    → allocate used dockers ≡ some (used', subnets)
    → release used' subnets o ≡ used o
release-allocate o used used' dockers subnets h =
    rw (bit-release o used' subnets) (ground (arith, held-allocate o used used' dockers subnets h))

-- The destruction of a network that was just created gives its octets back, all of them and no
-- others, and leaves the cached networks as they were before.
pub destroy-create :
    (docker : Docker) (s s' : State) (id : String) (sent : List Sent)
    → get_network_info s.cache id ≡ none
    → on_network_create docker s id ≡ some (s', sent)
    → ((o : ℕ) → (on_network_destroy s' id).0.used o ≡ s.used o)
      × ((j : String)
          → get_network_info (on_network_destroy s' id).0.cache j ≡ get_network_info s.cache j)
unfolding on_network_create on_network_destroy get_network_info add_network_info delete_network_info
    get put delete
destroy-create docker s s' id sent fresh h = elim (Option-cases (allocate s.used dockers)) [
  | inl e ↦ absurd (ground (arith, e))
  | inr ((used, subnets), e) ↦ (
    (λ o. ground (arith, e, eq_refl id, release-allocate o s.used used dockers subnets e)),
    (λ j. ground (
      arith,
      e,
      eq_refl id,
      eq_iff id j,
      fresh,
      get-delete s.cache.network_info_by_id id j,
      get-delete (delete s.cache.network_info_by_id id) id j,
    )),
  )
]
  where
    dockers : List String
    dockers = or_none_on_error (get_network_subnets docker id)
