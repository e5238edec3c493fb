-- ===== src/Operator/Wire/Line/Listener.antt =====
-- wire/wire.go: the goroutine of `Listen`. Another goroutine may close the wire at any time: a list says
-- for each round whether the wire was closed before its test.
use kube_actions.Prelude.{
  ℕ, zero, suc, String, Bool, true, false, List, [], ◌∷◌, Option, none, some, ◌==◌, if◌then◌else◌,
}
use kube_actions.Prelude.Effect.{pure, ◌>>=◌, ◌>>◌}
use kube_actions.Prelude.Outcome.{Outcome, ok, err, panic}
use kube_actions.Operator.Token.{Error, other_error}
use kube_actions.Operator.Ado.Agent.{refresh_for_run, delete_this_agent}
use kube_actions.Operator.Ado.Session.{init_session, next_message, delete_this_message}
use kube_actions.Operator.Wire.Policy.{validate}
use kube_actions.Operator.Wire.Line.{
  Ports, Line, Call, opened, PipelineAgentJobRequest, written, read, checked, to_ado, to_client,
  tried, notify,
}
use kube_actions.Operator.Wire.Line.Setup.{is_closed, close_loop, close}
use kube_actions.Operator.Wire.Line.Violation.{Message, to_message, on_policy_violation}

-- How the loop goes on, or that it ended: a job request was handed over, the wire was closed, a send
-- has no room, or the list of rounds is used up.
pub data Progress : Type 0 where
  again : Option ℕ → Progress
  handed_over was_closed no_room pending : Progress

-- How the goroutine stands: in the loop, waiting for room in the channel, at its end, or at a panic of
-- its deferred function, which ends the operator.
pub data Routine : Type 0 where
  running waiting ended crashed : Routine

module _ {N : Type 0} (ports : Ports N) where
  open ports use {azure, gojq}

  -- The policy's answer to a job request, which leaves the cache of rules.
  unfoldable pub validated : PipelineAgentJobRequest N → Call ports (Option String)
  validated pajr s = elim s.wire.validator [
    | none ↦ (panic, s)
    | some cache ↦
        let (verdict, cache') =
          validate gojq cache s.wire.actions_runner.spec.policy pajr.context_data in
        let s' = record s { wire = record (s.wire) { validator = some cache' } } in
        elim verdict [
          | ok violated ↦ (ok violated, s')
          | err e ↦ (err (other_error "validate"), s')
          | panic ↦ (panic, s')
        ]
  ]

  -- `w.jobRequests <- struct{}{}` into a channel with room for one, then the event; break.
  unfoldable pub hand_over : Call ports Progress
  unfolding notify
  hand_over s = elim s.wire.job_requests [
    | none ↦ (ok no_room, s)
    | some n ↦ elim n [
      | suc m ↦ (ok no_room, s)
      | zero ↦
          (notify ports >> pure handed_over)
            (record s { wire = record (s.wire) { job_requests = some 1 } })
    ]
  ]

  -- The acknowledgement; the agent is deleted on `AgentRefresh`.
  unfoldable pub acknowledged : Message → Call ports Progress
  acknowledged message =
      to_client ports (delete_this_message azure message.id)
      >> (if message.message_type == "AgentRefresh"
          then to_client ports (delete_this_agent azure)
          else pure tt)
      >> pure (again (some message.id))

  -- A job request that violates no rule is handed over, one that does is reported and acknowledged.
  unfoldable pub by_verdict :
      Message → PipelineAgentJobRequest N → Option String → Call ports Progress
  unfolding hand_over on_policy_violation acknowledged
  by_verdict message pajr none = hand_over
  by_verdict message pajr (some rule) =
      tried ports (on_policy_violation ports pajr rule) >> acknowledged message

  unfoldable pub on_message : Message → Call ports Progress
  unfolding validated by_verdict acknowledged
  on_message message =
      if message.message_type == "PipelineAgentJobRequest"
      then (do
        pajr ← checked ports (ports.parse_job message.body)
        violated ← validated pajr
        by_verdict message pajr violated)
      else acknowledged message

  -- The body of the loop behind its test.
  unfoldable pub round : Option ℕ → Call ports Progress
  unfolding to_message on_message
  round last_message_id = do
    to_ado ports (refresh_for_run azure)
    received ← to_client ports (next_message azure last_message_id)
    elim received [
      | none ↦ pure (again last_message_id)
      | some ta_message ↦ to_message ports ta_message >>= on_message
    ]

  -- Another goroutine calls `Close`, or not.
  abbrev pub interrupt : Bool → Call ports (Unit {0})
  interrupt true = written ports (λ w. record w { loop_close = close_loop w.loop_close })
  interrupt false = pure tt

  unfoldable pub next : (Option ℕ → Call ports Progress) → Progress → Call ports Progress
  next rest (again last_message_id) = rest last_message_id
  next rest progress = pure progress

  -- `for !w.isClosed()`, from the second and every later argument of `GetMessage` on.
  unfoldable pub loop : List Bool → Option ℕ → Call ports Progress
  unfolding round next is_closed
  loop [] last_message_id = pure pending
  loop (closing ∷ rounds) last_message_id = do
    interrupt closing
    done ← read ports (λ s. is_closed s.wire.loop_close)
    (if done then pure was_closed else round last_message_id >>= next (loop rounds))

  -- `w.invalid = true` before the panic.
  unfoldable pub gone_on_error :
      Outcome Error (Unit {0}) × Line ports → Outcome Error (Unit {0}) × Line ports
  gone_on_error (ok a, s) = (ok tt, s)
  gone_on_error (err e, s) = (err e, record s { wire = record (s.wire) { invalid = true } })
  gone_on_error (panic, s) = (panic, s)

  unfoldable pub connected : Call ports (Unit {0})
  unfolding gone_on_error
  connected =
      (λ s. gone_on_error (to_ado ports (refresh_for_run azure) s))
      >> (λ s. gone_on_error (to_client ports (init_session azure) s))

  -- The goroutine up to its deferred function; an error panics here.
  unfoldable pub listened : List Bool → Call ports Progress
  unfolding connected loop
  listened rounds = connected >> loop rounds none

  -- The event of `trySendEvent`, which recovers.
  unfoldable pub event_if : Bool → Line ports → Line ports
  unfolding notify
  event_if false s = s
  event_if true s = (notify ports s).1

  unfoldable pub after_close : Bool → Outcome Error (Unit {0}) × Line ports → Routine × Line ports
  unfolding event_if
  after_close recovering (ok a, s) = (ended, event_if recovering s)
  after_close recovering (err e, s) = (ended, event_if recovering s)
  after_close recovering (panic, s) = (crashed, s)

  -- The deferred function, which recovers if there was a panic.
  unfoldable pub deferred : Bool → Line ports → Routine × Line ports
  unfolding close after_close
  deferred recovering s =
      after_close recovering
        (close ports (record s { wire = record (s.wire) { listening = false } }))

  unfoldable pub finished : Outcome Error Progress × Line ports → Routine × Line ports
  unfolding deferred
  finished (ok pending, s) = (running, s)
  finished (ok (again last), s) = (running, s)
  finished (ok no_room, s) = (waiting, s)
  finished (ok handed_over, s) = deferred false s
  finished (ok was_closed, s) = deferred false s
  finished (err e, s) = deferred true s
  finished (panic, s) = deferred true s

  -- The goroutine of `Listen`.
  unfoldable pub routine : List Bool → Line ports → Routine × Line ports
  unfolding listened finished
  routine rounds s = finished (listened rounds s)

  -- `Listen` up to the start of the goroutine, with the flag that it sets afterwards.
  unfoldable pub listen : Line ports → Line ports
  listen s =
      if s.wire.listening
      then s
      else record s { wire = record (s.wire) { loop_close = opened; listening = true } }
