-- ===== src/Dind/Wait.antt =====
-- `WaitForDockerd` of dind/docker.go: up to fifteen attempts to reach the daemon. An attempt,
-- `ServerVersion`, is a parameter, which returns its error; the pause after a failure is part of it.
use kube_actions.Prelude.{
  ℕ, zero, suc, ◌<◌, ◌≡◌, ◌↔◌, String, Option, none, some, arith, Option-cases, inl, inr,
}

module _ {World : Type 0} (server_version : World → Option String × World) where
  -- The loop, with the rounds that are left and the last error.
  unfoldable pub attempts : ℕ → Option String → World → Option String × World
  attempts zero last w = (last, w)
  attempts (suc rounds) last w =
      let (e, w') = server_version w in
      elim e [ none ↦ (none, w') | some m ↦ attempts rounds (some m) w' ]

  unfoldable pub wait_for_dockerd : World → Option String × World
  unfolding attempts
  wait_for_dockerd w = attempts 15 none w

  -- The world after a number of attempts.
  abbrev pub after : ℕ → World → World
  after zero w = w
  after (suc k) w = after k (server_version w).1

  -- The attempt with this number succeeds.
  abbrev pub Succeeds : ℕ → World → Type 0
  Succeeds k w = (server_version (after k w)).0 ≡ none

  attempts-succeed :
      (rounds : ℕ) (last : Option String) (w : World)
      → (attempts (suc rounds) last w).0 ≡ none
      → (k : ℕ) × (k < suc rounds) × Succeeds k w
  unfolding attempts
  attempts-succeed zero last w h = elim (Option-cases (server_version w).0) [
    | inl e ↦ (0, omega arith, e)
    | inr (m, e) ↦ absurd (ground (arith, h, e))
  ]
  attempts-succeed (suc rounds) last w h = elim (Option-cases (server_version w).0) [
    | inl e ↦ (0, omega arith, e)
    | inr (m, e) ↦
        let (k, below, s) =
          attempts-succeed rounds (some m) (server_version w).1 (ground (arith, h, e)) in
        (suc k, omega (arith, below), s)
  ]

  success-attempts :
      (rounds : ℕ) (last : Option String) (w : World) (k : ℕ)
      → k < rounds
      → Succeeds k w
      → (attempts rounds last w).0 ≡ none
  unfolding attempts
  success-attempts zero last w k below s = absurd (omega (arith, below))
  success-attempts (suc rounds) last w zero below s = ground (arith, s)
  success-attempts (suc rounds) last w (suc k) below s = elim (Option-cases (server_version w).0) [
    | inl e ↦ ground (arith, e)
    | inr (m, e) ↦
        let later =
          success-attempts rounds (some m) (server_version w).1 k (omega (arith, below)) s in
        ground (arith, e, later)
  ]

  -- The wait ends without an error exactly when one of fifteen attempts succeeds, each made in the
  -- state that the attempts before it left.
  pub wait_for_dockerd-Succeeds :
      (w : World) → ((wait_for_dockerd w).0 ≡ none) ↔ ((k : ℕ) × (k < 15) × Succeeds k w)
  unfolding wait_for_dockerd
  wait_for_dockerd-Succeeds w =
      (attempts-succeed 14 none w, (λ (k, below, s). success-attempts 15 none w k below s))
