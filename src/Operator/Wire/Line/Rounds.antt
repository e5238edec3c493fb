-- ===== src/Operator/Wire/Line/Rounds.antt =====
-- wire/wire.go: a rule for the loop of the listener, and what it says of the end of the goroutine.
use kube_actions.Prelude.{
  ◌≡◌, refl, ℕ, String, Bool, true, false, List, [], ◌∷◌, Option, none, some, ◌==◌, if◌then◌else◌,
  All,
}
use kube_actions.Prelude.Effect.{
  pure, ◌>>=◌, Ensures, Ensures-bind, Ensures-if, Ensures-mono, Ensures-weaken, Post,
}
use kube_actions.Prelude.Outcome.{Outcome, ok, err, panic}
use kube_actions.Operator.Token.{Error}
use kube_actions.Operator.Ado.{TaskAgentMessage}
use kube_actions.Operator.Wire.Line.{Ports, Line, Call, LoopClose, PipelineAgentJobRequest, read}
use kube_actions.Operator.Wire.Line.Setup.{is_closed}
use kube_actions.Operator.Wire.Line.Violation.{Message, to_message}
use kube_actions.Operator.Wire.Line.Listener.{
  Progress, again, handed_over, was_closed, no_room, pending, hand_over, acknowledged, by_verdict,
  on_message, round, interrupt, next, loop, connected, gone_on_error, listened,
}
use kube_actions.Operator.Wire.Line.Steps.{
  Says, Kept, to_client-Kept, to_ado-Kept, checked-Kept, tried-Kept, to_message-Kept,
  on_policy_violation-Kept, validated-Kept,
}

-- The facts `F` hold before each round, `G` after a failure, and `Q` at each kind of progress.
module _ {N : Type 0} (ports : Ports N) (F G : Option ℕ → ℕ → Bool → LoopClose → Bool → Type 0)
    (weaker : (s : Line ports) → Says ports F s → Says ports G s)
    (Q : Progress → Line ports → Type 0)
    (go_on : (last : Option ℕ) (s : Line ports) → Says ports F s → Q (again last) s)
    (handed : Ensures (Says ports F) (hand_over ports) Q (Says ports G)) where
  -- A step that keeps the facts, and what follows.
  first :
      {A : Type 0} {m : Call ports A} {later : A → Call ports Progress}
      → Kept ports F m
      → ((a : A) → Ensures (Says ports F) (later a) Q (Says ports G))
      → Ensures (Says ports F) (m >>= later) Q (Says ports G)
  first kept = Ensures-bind (Ensures-mono (λ a s p. p) weaker kept)

  acknowledged-Q :
      (message : Message) → Ensures (Says ports F) (acknowledged ports message) Q (Says ports G)
  unfolding acknowledged
  acknowledged-Q message =
      Ensures-bind
        (Ensures-bind (Ensures-mono (λ a s p. p) weaker (to_client-Kept ports F _)) λ _.
          Ensures-if (message.message_type == "AgentRefresh")
            (λ _. Ensures-mono (λ a s p. p) weaker (to_client-Kept ports F _))
            (λ _. record { run = λ s p. p }))
        λ _. record { run = go_on (some message.id) }

  on_message-Q :
      (message : Message) → Ensures (Says ports F) (on_message ports message) Q (Says ports G)
  unfolding on_message by_verdict
  on_message-Q message =
      Ensures-if (message.message_type == "PipelineAgentJobRequest")
        (λ _.
          first (checked-Kept ports F _) λ pajr. first (validated-Kept ports F pajr) (judged pajr))
        (λ _. acknowledged-Q message)
    where
      judged :
          (pajr : PipelineAgentJobRequest N) (violated : Option String)
          → Ensures (Says ports F) (by_verdict ports message pajr violated) Q (Says ports G)
      judged pajr none = handed
      judged pajr (some rule) =
          first (tried-Kept ports F (on_policy_violation-Kept ports F pajr rule))
            λ _. acknowledged-Q message

  pub round-Q : (last : Option ℕ) → Ensures (Says ports F) (round ports last) Q (Says ports G)
  unfolding round
  round-Q last = first (to_ado-Kept ports F _) λ _. first (to_client-Kept ports F _) (received last)
    where
      received :
          (last : Option ℕ) (answer : Option TaskAgentMessage)
          → Ensures {E = Error}
              (Says ports F)
              (elim answer [
                | none ↦ pure (again last)
                | some ta_message ↦ to_message ports ta_message >>= on_message ports
              ])
              Q
              (Says ports G)
      received last none = record { run = go_on last }
      received last (some m) = first (to_message-Kept ports F m) on_message-Q

-- What holds of the loop, moreover, where a progress that goes on gives the facts back.
module _ {N : Type 0} (ports : Ports N) (F G : Option ℕ → ℕ → Bool → LoopClose → Bool → Type 0)
    (weaker : (s : Line ports) → Says ports F s → Says ports G s)
    (Q : Progress → Line ports → Type 0)
    (go_on : (last : Option ℕ) (s : Line ports) → Says ports F s → Q (again last) s)
    (handed : Ensures (Says ports F) (hand_over ports) Q (Says ports G))
    (back : (last : Option ℕ) (s : Line ports) → Q (again last) s → Says ports F s)
    (late : (s : Line ports) → Says ports F s → Q pending s)
    (shut : (s : Line ports) → Says ports F s → is_closed s.wire.loop_close ≡ true → Q was_closed s)
    (invalidated : (s : Line ports)
      → Says ports F s
      → Says ports F (record s { wire = record (s.wire) { invalid = true } }))
    (Closing : Bool → Type 0)
    (interrupted : (closing : Bool)
      → Closing closing
      → Kept ports F (interrupt ports closing)) where
  pub next-Q :
      (rest : Option ℕ → Call ports Progress)
      → ((last : Option ℕ) → Ensures (Says ports F) (rest last) Q (Says ports G))
      → (progress : Progress) → Ensures (Q progress) (next ports rest progress) Q (Says ports G)
  unfolding next
  next-Q rest later (again last) = Ensures-weaken (back last) (later last)
  next-Q rest later handed_over = record { run = λ s q. q }
  next-Q rest later was_closed = record { run = λ s q. q }
  next-Q rest later no_room = record { run = λ s q. q }
  next-Q rest later pending = record { run = λ s q. q }

  pub tested :
      Ensures
        (Says ports F)
        (read ports (λ s. is_closed s.wire.loop_close))
        (λ done s. Says ports F s × (is_closed s.wire.loop_close ≡ done))
        (Says ports G)
  unfolding read
  tested = record { run = λ s p. (p, refl) }

  by_test :
      (rest : Option ℕ → Call ports Progress) (last : Option ℕ)
      → ((last : Option ℕ) → Ensures (Says ports F) (rest last) Q (Says ports G))
      → (done : Bool)
      → Ensures {E = Error}
          (λ s. Says ports F s × (is_closed s.wire.loop_close ≡ done))
          (if done then pure was_closed else round ports last >>= next ports rest)
          Q
          (Says ports G)
  by_test rest last later true = record { run = λ s p. shut s p.0 p.1 }
  by_test rest last later false =
      Ensures-weaken (λ s p. p.0)
        (Ensures-bind (round-Q ports F G weaker Q go_on handed last) (next-Q rest later))

  -- What holds at the end of the loop.
  pub loop-Q :
      (rounds : List Bool) (last : Option ℕ)
      → All Closing rounds
      → Ensures (Says ports F) (loop ports rounds last) Q (Says ports G)
  unfolding loop
  loop-Q [] last all = record { run = late }
  loop-Q (closing ∷ rounds) last all =
      first ports F G weaker Q go_on handed (interrupted closing all.0) λ _.
        Ensures-bind tested (by_test (loop ports rounds) last λ last'. loop-Q rounds last' all.1)

  gone_on_error-Kept :
      {m : Call ports (Unit {0})}
      → Kept ports F m
      → Ensures (Says ports F) (λ s. gone_on_error ports (m s)) (λ _. Says ports F) (Says ports F)
  unfolding gone_on_error
  gone_on_error-Kept {m} kept = record { run = λ s p. by_outcome (m s) (kept.run s p) }
    where
      by_outcome :
          (o : Outcome Error (Unit {0}) × Line ports)
          → Post {E = Error} {A = Unit {0}} (λ _. Says ports F) (Says ports F) o
          → Post {E = Error} {A = Unit {0}}
              (λ _. Says ports F)
              (Says ports F)
              (gone_on_error ports o)
      by_outcome (ok a, s) p = p
      by_outcome (err e, s) p = invalidated s p
      by_outcome (panic, s) p = p

  -- What holds when the deferred function starts.
  pub listened-Q :
      (rounds : List Bool)
      → All Closing rounds
      → Ensures (Says ports F) (listened ports rounds) Q (Says ports G)
  unfolding listened connected
  listened-Q rounds all =
      first ports F G weaker Q go_on handed
        (Ensures-bind (gone_on_error-Kept (to_ado-Kept ports F _))
          λ _. gone_on_error-Kept (to_client-Kept ports F _))
        λ _. loop-Q rounds none all
