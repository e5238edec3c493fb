-- ===== src/Operator/Wire/Line/Stops.antt =====
-- wire/wire.go: a listener that is closed ends.
use kube_actions.Prelude.{
  ◌≡◌, refl, ℕ, zero, suc, Bool, true, false, List, [], ◌∷◌, ◌++◌, Option, none, some,
  if◌then◌else◌, arith, ◌⊎◌, inl, inr, All,
}
use kube_actions.Prelude.Effect.{pure, ◌>>◌, Ensures, Ensures-bind, Post}
use kube_actions.Prelude.Outcome.{Outcome, ok, err, panic}
use kube_actions.Operator.Token.{Error}
use kube_actions.Operator.Wire.Line.{
  Ports, Line, Call, LoopClose, unmade, opened, closed, written, read, notify,
}
use kube_actions.Operator.Wire.Line.Setup.{is_closed, close_loop}
use kube_actions.Operator.Wire.Line.Listener.{
  Progress, again, handed_over, was_closed, no_room, pending, hand_over, round, interrupt, next,
  loop, connected, listened, Routine, ended, crashed, deferred, after_close, finished, routine,
}
use kube_actions.Operator.Wire.Line.Steps.{Says, Kept, written-Kept, pure-Kept}
use kube_actions.Operator.Wire.Line.Rounds
use kube_actions.Operator.Wire.Line.Rounds.{round-Q}

module _ {N : Type 0} (ports : Ports N) where
  -- Nothing is said of the channels.
  abbrev Any : Option ℕ → ℕ → Bool → LoopClose → Bool → Type 0
  Any j m c l i = Unit

  abbrev pub Always : Line ports → Type 0
  Always s = Unit

  -- A round is not the end of the list of rounds.
  abbrev Round : Progress → Line ports → Type 0
  Round pending s = ⊥
  Round progress s = Unit

  -- The loop has ended.
  abbrev Over : Progress → Line ports → Type 0
  Over pending s = ⊥
  Over (again last) s = ⊥
  Over progress s = Unit

  pub any :
      {A : Type 0} {P : Line ports → Type 0} (m : Call ports A) → Ensures P m (λ _. Always) Always
  any {A} m = record { run = λ s p. whatever (m s) }
    where
      whatever :
          (o : Outcome Error A × Line ports) → Post {E = Error} {A = A} (λ _. Always) Always o
      whatever (ok a, s) = tt
      whatever (err e, s) = tt
      whatever (panic, s) = tt

  hand_over-Round : Ensures Always (hand_over ports) Round Always
  unfolding hand_over notify
  hand_over-Round = record { run = λ s p. ground arith }

  next-Over :
      (rest : Option ℕ → Call ports Progress)
      → ((last : Option ℕ) → Ensures Always (rest last) Over Always)
      → (progress : Progress) → Ensures (Round progress) (next ports rest progress) Over Always
  unfolding next
  next-Over rest later (again last) = later last
  next-Over rest later handed_over = record { run = λ s q. tt }
  next-Over rest later was_closed = record { run = λ s q. tt }
  next-Over rest later no_room = record { run = λ s q. tt }
  next-Over rest later pending = record { run = λ s q. q }

  round-Round : (last : Option ℕ) → Ensures Always (round ports last) Round Always
  round-Round last = round-Q ports Any Any (λ s p. tt) Round (λ last s p. tt) hand_over-Round last

  close_loop-closes : (channel : LoopClose) → is_closed (close_loop channel) ≡ true
  unfolding is_closed close_loop
  close_loop-closes unmade = refl
  close_loop-closes opened = refl
  close_loop-closes closed = refl

  abbrev Shut : Line ports → Type 0
  Shut s = is_closed s.wire.loop_close ≡ true

  interrupt-Shut : Ensures Always (interrupt ports true) (λ _. Shut) Always
  unfolding written
  interrupt-Shut = record { run = λ s p. close_loop-closes s.wire.loop_close }

  test-Shut :
      Ensures Shut (read ports (λ s. is_closed s.wire.loop_close)) (λ done s. done ≡ true) Always
  unfolding read
  test-Shut = record { run = λ s p. p }

  stop_or :
      (m : Call ports Progress) (done : Bool)
      → Ensures {E = Error} (λ s. done ≡ true) (if done then pure was_closed else m) Over Always
  stop_or m true = record { run = λ s p. tt }
  stop_or m false = record { run = λ s p. absurd (cc) }

  go_or_stop :
      (m : Call ports Progress)
      → Ensures Always m Over Always
      → (done : Bool) → Ensures {E = Error} Always (if done then pure was_closed else m) Over Always
  go_or_stop m over true = record { run = λ s p. tt }
  go_or_stop m over false = over

  loop-Over :
      (before later : List Bool) (last : Option ℕ)
      → Ensures Always (loop ports (before ++ true ∷ later) last) Over Always
  unfolding loop
  loop-Over [] later last = Ensures-bind interrupt-Shut λ _. Ensures-bind test-Shut (stop_or _)
  loop-Over (closing ∷ before) later last = Ensures-bind (any (interrupt ports closing)) λ _.
      Ensures-bind (any _) (
        go_or_stop _
          (Ensures-bind (round-Round last) (next-Over _ λ last'. loop-Over before later last')))

  listened-Over :
      (before later : List Bool)
      → Ensures Always (listened ports (before ++ true ∷ later)) Over Always
  unfolding listened
  listened-Over before later = Ensures-bind (any (connected ports)) λ _. loop-Over before later none

  -- No job request waits.
  abbrev R : Option ℕ → ℕ → Bool → LoopClose → Bool → Type 0
  R j m c l i = j ≡ some 0

  -- The loop has not come to a full channel.
  abbrev Room : Progress → Line ports → Type 0
  Room no_room s = ⊥
  Room (again last) s = Says ports R s
  Room pending s = Says ports R s
  Room progress s = Unit

  hand_over-Room : Ensures (Says ports R) (hand_over ports) Room (Says ports Any)
  unfolding hand_over notify
  hand_over-Room = record { run = λ s p. by_room s s.wire.job_requests p }
    where
      by_room :
          (s : Line ports) (j : Option ℕ)
          → j ≡ some 0
          → Post {E = Error} Room (Says ports Any) (elim j [
            | none ↦ (ok no_room, s)
            | some m ↦ elim m [
              | suc k ↦ (ok no_room, s)
              | zero ↦
                  (notify ports >> pure handed_over)
                    (record s { wire = record (s.wire) { job_requests = some 1 } })
            ]
          ])
      by_room s none e = absurd (cc)
      by_room s (some (suc k)) e = absurd (ground (arith, e))
      by_room s (some zero) e = ground arith

  interrupt-Room : (closing : Bool) → Unit {0} → Kept ports R (interrupt ports closing)
  interrupt-Room true h = written-Kept ports R _ λ s p. p
  interrupt-Room false h = pure-Kept ports R tt

  any_closing : (rounds : List Bool) → All (λ _. Unit {0}) rounds
  any_closing [] = tt
  any_closing (closing ∷ rounds) = (tt, any_closing rounds)

  listened-Room :
      (rounds : List Bool) → Ensures (Says ports R) (listened ports rounds) Room (Says ports Any)
  listened-Room rounds =
      Rounds.listened-Q ports R Any (λ s p. tt) Room (λ last s p. p) hand_over-Room (λ last s p. p)
        (λ s p. p) (λ s p shut. tt) (λ s p. p) (λ _. Unit {0}) interrupt-Room rounds
        (any_closing rounds)

  -- The goroutine is over, or its deferred function panicked.
  abbrev IsOver : Routine → Type 0
  IsOver o = (o ≡ ended) ⊎ (o ≡ crashed)

  after_close-ends :
      (recovering : Bool) (o : Outcome Error (Unit {0}) × Line ports)
      → IsOver (after_close ports recovering o).0
  unfolding after_close
  after_close-ends recovering (ok a, s) = inl refl
  after_close-ends recovering (err e, s) = inl refl
  after_close-ends recovering (panic, s) = inr refl

  finished-ends :
      (o : Outcome Error Progress × Line ports)
      → Post {E = Error} Over Always o
      → Post {E = Error} Room (Says ports Any) o
      → IsOver (finished ports o).0
  unfolding finished deferred
  finished-ends (ok pending, s) q r = absurd q
  finished-ends (ok (again last), s) q r = absurd q
  finished-ends (ok no_room, s) q r = absurd r
  finished-ends (ok handed_over, s) q r = after_close-ends false _
  finished-ends (ok was_closed, s) q r = after_close-ends false _
  finished-ends (err e, s) q r = after_close-ends true _
  finished-ends (panic, s) q r = after_close-ends true _

  -- Whatever is received: if no job request waits in the channel and another goroutine closes the wire
  -- before some round, the goroutine of `Listen` leaves its loop after that many rounds at most, without
  -- waiting for room in the channel: it ends, or its deferred function panics, which ends the operator.
  pub routine-stops :
      (before later : List Bool) (s : Line ports)
      → s.wire.job_requests ≡ some 0
      → ((routine ports (before ++ true ∷ later) s).0 ≡ ended)
        ⊎ ((routine ports (before ++ true ∷ later) s).0 ≡ crashed)
  unfolding routine
  routine-stops before later s empty =
      finished-ends (listened ports (before ++ true ∷ later) s)
        ((listened-Over before later).run s tt)
        ((listened-Room (before ++ true ∷ later)).run s empty)
