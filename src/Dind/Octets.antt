-- ===== src/Dind/Octets.antt =====
-- `usedHostSecondOctet` and `markAndGetFirstAvailableHostSecondOctet` of dind/docker.go: which
-- subnets 127.x.0.0 are taken.
use kube_actions.Prelude.{
  ℕ, zero, suc, ◌+◌, ◌≤◌, ◌<◌, ◌≡◌, ap, Bool, true, false, Option, none, some, arith, nat_eq,
  if◌then◌else◌, bit, inl, inr, Option-cases, ◌↔◌,
}
use native.Mathlib.Decide.{dec_lt}

-- The array of 256 flags; an index is always below 256.
abbrev pub Used : Type 0
Used = ℕ → Bool

-- `usedHostSecondOctet[i] = b`
abbrev pub assign : Used → ℕ → Bool → Used
assign used i b j = if nat_eq i j then b else used j

-- The loop over the rounds that are left, from `i` on: the first index with a clear flag.
unfoldable pub first_available : ℕ → ℕ → Used → Option ℕ
first_available zero i used = none
first_available (suc rounds) i used =
    let rest = first_available rounds (suc i) used in if used i then rest else some i

-- `none` is the panic "no available host proxy subnet".
unfoldable pub mark_and_get_first_available : Used → Option (ℕ × Used)
mark_and_get_first_available used = elim (first_available 255 1 used) [
  | none ↦ none
  | some i ↦ some (i, assign used i true)
]

module _ (used : Used) where
  first_available-some :
      (rounds i o : ℕ)
      → first_available rounds i used ≡ some o
      → (i ≤ o) × (o < i + rounds) × (used o ≡ false)
  unfolding first_available
  first_available-some zero i o h = grind arith
  first_available-some (suc rounds) i o h = ground (arith, first_available-some rounds (suc i) o)

  first_available-least :
      (rounds i o j : ℕ) → first_available rounds i used ≡ some o → i ≤ j → j < o → used j ≡ true
  unfolding first_available
  first_available-least zero i o j h p q = grind arith
  first_available-least (suc rounds) i o j h p q = elim (dec_lt i j) [
    | yes later ↦ ground (arith, first_available-least rounds (suc i) o j)
    | no now ↦ let e : j ≡ i = omega arith in rw e (ground arith)
  ]

  first_available-none :
      (rounds i j : ℕ)
      → first_available rounds i used ≡ none
      → i ≤ j
      → j < i + rounds
      → used j ≡ true
  unfolding first_available
  first_available-none zero i j h p q = absurd (omega arith)
  first_available-none (suc rounds) i j h p q = elim (dec_lt i j) [
    | yes later ↦ ground (arith, first_available-none rounds (suc i) j)
    | no now ↦ let e : j ≡ i = omega arith in rw e (ground arith)
  ]

  -- What a successful call found and wrote.
  pub mark_and_get-inv :
      (o : ℕ) (used' : Used)
      → mark_and_get_first_available used ≡ some (o, used')
      → (first_available 255 1 used ≡ some o) × (used' ≡ assign used o true)
  unfolding mark_and_get_first_available
  mark_and_get-inv o used' h = ground arith

  -- If the allocator returns an octet, it is the least free one of 1 to 255, and it is marked,
  -- while all other marks stay.
  pub mark_and_get-least :
      (o : ℕ) (used' : Used)
      → mark_and_get_first_available used ≡ some (o, used')
      → (1 ≤ o)
        × (o < 256)
        × (used o ≡ false)
        × ((j : ℕ) → 1 ≤ j → j < o → used j ≡ true)
        × ((j : ℕ) → used' j ≡ (if nat_eq o j then true else used j))
  unfolding mark_and_get_first_available
  mark_and_get-least o used' h =
      let (found, written) = mark_and_get-inv o used' h in
      let range = first_available-some 255 1 o found in
      (
        range.0,
        omega arith,
        range.2,
        (λ j. first_available-least 255 1 o j found),
        (λ j. ap (λ (u : Used). u j) written),
      )

  -- The allocator panics exactly when no octet of 1 to 255 is free.
  pub mark_and_get-none :
      (mark_and_get_first_available used ≡ none) ↔ ((j : ℕ) → 1 ≤ j → j < 256 → used j ≡ true)
  unfolding mark_and_get_first_available
  mark_and_get-none = (
    (λ h j p q. first_available-none 255 1 j (ground arith) p (omega arith)),
    (λ full. elim (Option-cases (first_available 255 1 used)) [
      | inl e ↦ rw (e, mark_and_get_first_available)
      | inr (o, e) ↦ let r = first_available-some 255 1 o e in absurd (ground (arith, r, full o))
    ]),
  )

  -- A flag that was clear counts as one more.
  pub bit-mark_and_get :
      (o : ℕ) (used' : Used) (j : ℕ)
      → mark_and_get_first_available used ≡ some (o, used')
      → bit (used' j) ≡ bit (used j) + bit (nat_eq o j)
  bit-mark_and_get o used' j h =
      let (_, _, free, _, written) = mark_and_get-least o used' h in
      elim (dec_lt o j) [
        | yes p ↦ ground (arith, written j)
        | no p ↦ ground (arith, written j, free)
      ]
