-- ===== src/Dind/Events/Holding.antt =====
-- How often the cached networks hold an octet, and what the allocation and the release of octets
-- do to that.
use kube_actions.Prelude.{
  ℕ, ◌+◌, ◌≤◌, String, ◌≡◌, refl, false, List, [], ◌∷◌, some, arith, nat_eq, bit, if◌then◌else◌,
  Option-cases, inl, inr,
}
use kube_actions.Prelude.GoMap.{GoMap, get, delete}
use kube_actions.Dind.Types.{Subnet, NetworkInfo}
use kube_actions.Dind.Octets.{Used, assign, mark_and_get_first_available, bit-mark_and_get}
use kube_actions.Dind.Events.{allocate, release}

abbrev pub held : ℕ → List Subnet → ℕ
held o [] = 0
held o (s ∷ rest) = bit (nat_eq s.second_octet o) + held o rest

abbrev pub held_in : ℕ → GoMap NetworkInfo → ℕ
held_in o [] = 0
held_in o ((id, info) ∷ m) = held o info.subnets + held_in o m

pub held-delete-le :
    (o : ℕ) (m : GoMap NetworkInfo) (id : String) → held_in o (delete m id) ≤ held_in o m
unfolding delete
held-delete-le o [] id = omega arith
held-delete-le o ((j, v) ∷ m) id = ground (arith, held-delete-le o m id)

pub held-delete-get :
    (o : ℕ) (m : GoMap NetworkInfo) (id : String) (info : NetworkInfo)
    → get m id ≡ some info
    → held_in o (delete m id) + held o info.subnets ≤ held_in o m
unfolding get delete
held-delete-get o [] id info h = grind arith
held-delete-get o ((j, v) ∷ m) id info h =
    ground (arith, held-delete-get o m id info, held-delete-le o m id)

-- Each octet that is handed out was clear, and is marked once.
pub held-allocate :
    (o : ℕ) (used used' : Used) (dockers : List String) (subnets : List Subnet)
    → allocate used dockers ≡ some (used', subnets)
    → bit (used' o) ≡ bit (used o) + held o subnets
unfolding allocate
held-allocate o used used' [] subnets h = ground arith
held-allocate o used used' (d ∷ rest) subnets h =
    elim (Option-cases (mark_and_get_first_available used)) [
      | inl e ↦ absurd (ground (arith, e))
      | inr ((octet, marked), e) ↦ elim (Option-cases (allocate marked rest)) [
        | inl f ↦ absurd (ground (arith, e, f))
        | inr ((used'', tail), f) ↦ ground (
          arith,
          e,
          f,
          held-allocate o marked used'' rest tail f,
          bit-mark_and_get used octet marked o e,
        )
      ]
    ]

-- Releasing clears the octets that are listed, and no other.
pub bit-release :
    (o : ℕ) (used : Used) (subnets : List Subnet)
    → release used subnets o ≡ (if nat_eq (held o subnets) 0 then used o else false)
unfolding release
bit-release o used [] = refl
bit-release o used (s ∷ rest) =
    ground (arith, bit-release o (assign used s.second_octet false) rest)
