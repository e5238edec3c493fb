-- ===== src/Operator/Wire/Line/Ends.antt =====
-- wire/wire.go: how the goroutine of `Listen` ends.
use kube_actions.Prelude.{
  ◌≡◌, refl, ℕ, ◌+◌, zero, suc, Bool, true, false, List, ◌⊎◌, inl, inr, Option, none, some, arith,
  Bool-cases, All,
}
use kube_actions.Prelude.Effect.{pure, ◌>>◌, Ensures, Post}
use kube_actions.Prelude.Outcome.{Outcome, ok, err, panic}
use kube_actions.Operator.Token.{Error}
use kube_actions.Operator.Wire.Line.{
  Ports, Line, LoopClose, unmade, opened, closed, written, notify, to_client,
}
use kube_actions.Operator.Wire.Line.Setup.{is_closed, close_loop, close}
use kube_actions.Operator.Wire.Line.Listener.{
  Progress, again, handed_over, was_closed, no_room, pending, hand_over, interrupt, listened,
  Routine, running, waiting, ended, crashed, deferred, after_close, event_if, finished, routine,
}
use kube_actions.Operator.Wire.Line.Steps.{Says, Kept, pure-Kept}
use kube_actions.Operator.Wire.Line.Rounds

module _ {N : Type 0} (ports : Ports N) (n : ℕ) (b : Bool) where
  open ports use {azure}

  -- No job request waits, and no event was sent since there were `n`.
  abbrev F : Option ℕ → ℕ → Bool → LoopClose → Bool → Type 0
  F j m c l i = (j ≡ some 0) × (m ≡ n) × (c ≡ b) × (l ≡ opened)

  abbrev G : Option ℕ → ℕ → Bool → LoopClose → Bool → Type 0
  G j m c l i = (m ≡ n) × (c ≡ b)

  -- One event more, if the channel to the operator is not closed.
  abbrev Told : Line ports → Type 0
  Told s = (s.shared.notified ≡ n + 1) ⊎ (b ≡ true)

  abbrev Q : Progress → Line ports → Type 0
  Q (again last) s = Says ports F s
  Q pending s = Says ports F s
  Q handed_over s = Told s
  Q was_closed s = ⊥
  Q no_room s = ⊥

  hand_over-Q : Ensures (Says ports F) (hand_over ports) Q (Says ports G)
  unfolding hand_over notify
  hand_over-Q = record { run = λ s p. by_room s p s.wire.job_requests p.0 }
    where
      by_room :
          (s : Line ports)
          → Says ports F s
          → (j : Option ℕ) → j ≡ some 0
          → Post {E = Error} Q (Says ports G) (elim j [
            | none ↦ (ok no_room, s)
            | some m ↦ elim m [
              | suc k ↦ (ok no_room, s)
              | zero ↦
                  (notify ports >> pure handed_over)
                    (record s { wire = record (s.wire) { job_requests = some 1 } })
            ]
          ])
      by_room s p none e = absurd (cc)
      by_room s p (some (suc k)) e = absurd (ground (arith, e))
      by_room s p (some zero) e = elim (Bool-cases s.shared.notifier_closed) [
        | inl shut ↦ ground (arith, p, shut)
        | inr open_still ↦ ground (arith, p, open_still)
      ]

  weaker : (s : Line ports) → Says ports F s → Says ports G s
  weaker s p = (p.1, p.2)

  interrupted : (closing : Bool) → closing ≡ false → Kept ports F (interrupt ports closing)
  interrupted true e = absurd (cc)
  interrupted false e = pure-Kept ports F tt

  listened-Q :
      (rounds : List Bool)
      → All (λ closing. closing ≡ false) rounds
      → Ensures (Says ports F) (listened ports rounds) Q (Says ports G)
  unfolding is_closed
  listened-Q =
      Rounds.listened-Q ports F G weaker Q (λ last s p. p) hand_over-Q (λ last s p. p) (λ s p. p)
        (λ s p shut. ground (arith, p, shut)) (λ s p. p) (λ closing. closing ≡ false) interrupted

  -- The end of the goroutine: nobody listens, the loop is closed, and an event was sent if it can be.
  abbrev pub Ends : Routine × Line ports → Type 0
  Ends (running, t) = Unit
  Ends (waiting, t) = ⊥
  Ends (crashed, t) = Unit
  Ends (ended, t) = (t.wire.listening ≡ false) × (is_closed t.wire.loop_close ≡ true) × Told t

  -- What is known of the events when the deferred function starts.
  abbrev Before : Bool → Line ports → Type 0
  Before true s = Says ports G s
  Before false s = Told s

  event_if-Told :
      (recovering : Bool) (s : Line ports)
      → Before recovering s
      → Told (event_if ports recovering s)
  unfolding event_if notify
  event_if-Told false s p = p
  event_if-Told true s p = ground (arith, p)

  event_if-wire : (recovering : Bool) (s : Line ports) → (event_if ports recovering s).wire ≡ s.wire
  unfolding event_if notify
  event_if-wire false s = refl
  event_if-wire true s = ground arith

  after_close-Ends :
      (recovering : Bool) (o : Outcome Error (Unit {0}) × Line ports)
      → Before recovering o.1
      → o.1.wire.listening ≡ false
      → is_closed o.1.wire.loop_close ≡ true
      → Ends (after_close ports recovering o)
  unfolding after_close
  after_close-Ends recovering (ok a, s) p quiet shut =
      rw (event_if-wire recovering s) (quiet, shut, event_if-Told recovering s p)
  after_close-Ends recovering (err e, s) p quiet shut =
      rw (event_if-wire recovering s) (quiet, shut, event_if-Told recovering s p)
  after_close-Ends recovering (panic, s) p quiet shut = tt

  close_loop-is_closed : (channel : LoopClose) → is_closed (close_loop channel) ≡ true
  unfolding is_closed close_loop
  close_loop-is_closed unmade = refl
  close_loop-is_closed opened = refl
  close_loop-is_closed closed = refl

  deferred-Ends :
      (recovering : Bool) (s : Line ports)
      → Before recovering s
      → Ends (deferred ports recovering s)
  unfolding deferred close to_client written
  deferred-Ends true s p =
      after_close-Ends true
        (close ports (record s { wire = record (s.wire) { listening = false } })) p refl
        (close_loop-is_closed s.wire.loop_close)
  deferred-Ends false s p =
      after_close-Ends false
        (close ports (record s { wire = record (s.wire) { listening = false } })) p refl
        (close_loop-is_closed s.wire.loop_close)

  finished-Ends :
      (o : Outcome Error Progress × Line ports)
      → Post {E = Error} Q (Says ports G) o
      → Ends (finished ports o)
  unfolding finished
  finished-Ends (ok pending, s) q = tt
  finished-Ends (ok (again last), s) q = tt
  finished-Ends (ok no_room, s) q = absurd q
  finished-Ends (ok handed_over, s) q = deferred-Ends false s q
  finished-Ends (ok was_closed, s) q = absurd q
  finished-Ends (err e, s) q = deferred-Ends true s q
  finished-Ends (panic, s) q = deferred-Ends true s q

module _ {N : Type 0} (ports : Ports N) where
  -- If no other goroutine closes the wire, its loop is open and no job request waits: the goroutine of
  -- `Listen` never waits for room in the channel of job requests, and when it ends, the wire is not
  -- listening, its loop is closed, and the operator was sent one event, unless its channel is closed.
  pub routine-Ends :
      (rounds : List Bool) (s : Line ports)
      → All (λ closing. closing ≡ false) rounds
      → s.wire.loop_close ≡ opened
      → s.wire.job_requests ≡ some 0
      → Ends ports s.shared.notified s.shared.notifier_closed (routine ports rounds s)
  unfolding routine
  routine-Ends rounds s quiet still empty =
      let n = s.shared.notified in
      let b = s.shared.notifier_closed in
      finished-Ends ports n b (listened ports rounds s)
        ((listened-Q ports n b rounds quiet).run s (empty, refl, refl, still))
