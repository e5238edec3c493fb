-- ===== src/Operator/Ado/Lifecycle.antt =====
-- facades/ado.go: the session of the facade over any sequence of its operations.
use kube_actions.Prelude.{
  ◌≡◌, refl, ℕ, String, Option, none, some, List, [], ◌∷◌, ◌⊎◌, inl, inr, Option-cases,
}
use kube_actions.Prelude.Effect.{Ensures-bind, Post}
use kube_actions.Prelude.Outcome.{Outcome, ok, err, panic}
use kube_actions.Operator.Token.{Error}
use kube_actions.Operator.Ado.{
  Azure, Facade, Call, told, read, required, written, TaskAgentSession, TaskAgentMessage, Plan,
  ServiceEndpoint, TimelineRecord, JobEvent, pool_id,
}
use kube_actions.Operator.Ado.Kept.{pure-Kept, optional-Kept}
use kube_actions.Operator.Ado.Agent.{
  init_for_crud, init_for_run, refresh_for_run, delete_this_agent,
}
use kube_actions.Operator.Ado.Session.{
  init_session, delete_session, deinit_session, open_message, next_message, delete_this_message,
}
use kube_actions.Operator.Ado.Job.{
  update_request, init_plan, init_timeline, init_job_connection, init_task_client, update_record,
  raise_event,
}
use kube_actions.Operator.Ado.Held.{
  Held, P, steady, Keeps, reads, asks, tells, calls, checks, requires, derefs, writes,
  init_for_crud-Keeps, init_for_run-Keeps, refresh_for_run-Keeps, delete_this_agent-Keeps,
}
use kube_actions.Operator.Ado.Opened.{
  on_bridge, on_session, init_session-Keeps, deinit_session-Keeps,
}

-- The operations of the facade that other packages call.
pub data Operation : Type 0 where
  crud : List String → String → String → Operation
  run : List String → Operation
  refresh : Operation
  open_session : Operation
  close_session : Operation
  receive : Option ℕ → Operation
  acknowledge : ℕ → Operation
  remove_agent : Operation
  lock_request : Option ℕ → Option String → Operation
  plan_client : Option Plan → Option (Option String) → List ServiceEndpoint → Operation
  report : List TimelineRecord → Operation
  raise : JobEvent → Operation

module _ (azure : Azure) where
  open azure use {Client, delete_agent_session}

  open_message-Keeps : (message : TaskAgentMessage) → Keeps azure (open_message azure message)
  unfolding open_message
  open_message-Keeps message =
      optional-Kept azure (P azure) (steady azure) message.iv
        (pure-Kept azure (P azure) (steady azure) message)
        λ iv. Ensures-bind (derefs azure message.body) λ body.
          Ensures-bind (checks azure _) λ encrypted. on_session azure _ λ session.
            Ensures-bind (derefs azure session.encryption_key) λ key.
              Ensures-bind (derefs azure key.key_value) λ bytes.
                Ensures-bind (checks azure _) λ decrypted.
                  Ensures-bind (checks azure _) λ text. pure-Kept azure (P azure) (steady azure) _

  next_message-Keeps : (last : Option ℕ) → Keeps azure (next_message azure last)
  unfolding next_message
  next_message-Keeps last = on_bridge azure _ λ client. on_session azure _ λ session.
      Ensures-bind (asks azure _) λ answer.
        optional-Kept azure (P azure) (steady azure) answer
          (pure-Kept azure (P azure) (steady azure) none)
          λ message.
            Ensures-bind (open_message-Keeps message)
              λ readable. pure-Kept azure (P azure) (steady azure) _

  delete_this_message-Keeps : (id : ℕ) → Keeps azure (delete_this_message azure id)
  unfolding delete_this_message
  delete_this_message-Keeps id =
      on_bridge azure _ λ client. on_session azure _ λ session. tells azure _

  update_request-Keeps :
      (id : Option ℕ) (orchestration : Option String)
      → Keeps azure (update_request azure id orchestration)
  unfolding update_request
  update_request-Keeps id orchestration = on_bridge azure _ λ client. tells azure _

  init_plan-Keeps : (plan : Option Plan) → Keeps azure (init_plan azure plan)
  unfolding init_plan
  init_plan-Keeps none = record { run = λ s p. p }
  init_plan-Keeps (some plan) = Ensures-bind (requires azure plan.scope_identifier _) λ scope.
      Ensures-bind (requires azure plan.plan_type _)
        λ type. Ensures-bind (requires azure plan.plan_id _) λ id. writes azure _ λ s p. p

  init_timeline-Keeps :
      (timeline : Option (Option String)) → Keeps azure (init_timeline azure timeline)
  unfolding init_timeline
  init_timeline-Keeps none = record { run = λ s p. p }
  init_timeline-Keeps (some timeline) =
      Ensures-bind (requires azure timeline _) λ id. writes azure _ λ s p. p

  init_task_client-Keeps :
      (plan : Option Plan) (timeline : Option (Option String)) (endpoints : List ServiceEndpoint)
      → Keeps azure (init_task_client azure plan timeline endpoints)
  unfolding init_task_client init_job_connection
  init_task_client-Keeps plan timeline endpoints = Ensures-bind (init_plan-Keeps plan) λ _.
      Ensures-bind (init_timeline-Keeps timeline) λ _.
        Ensures-bind
          (Ensures-bind (checks azure _) λ endpoint.
            Ensures-bind (checks azure _)
              λ token. Ensures-bind (checks azure _) λ url. writes azure _ λ s p. p)
          λ _. Ensures-bind (reads azure _) λ current.
            Ensures-bind (derefs azure current)
              λ connection. Ensures-bind (calls azure _) λ client. writes azure _ λ s p. p

  update_record-Keeps : (records : List TimelineRecord) → Keeps azure (update_record azure records)
  unfolding update_record
  update_record-Keeps records =
      Ensures-bind (Ensures-bind (reads azure _) λ plan. requires azure plan _) λ plan.
        Ensures-bind (reads azure _) λ current. Ensures-bind (requires azure current _) λ timeline.
          Ensures-bind (Ensures-bind (reads azure _) λ client. requires azure client _)
            λ client. tells azure _

  raise_event-Keeps : (event : JobEvent) → Keeps azure (raise_event azure event)
  unfolding raise_event
  raise_event-Keeps event =
      Ensures-bind (Ensures-bind (reads azure _) λ plan. requires azure plan _) λ plan.
        Ensures-bind (Ensures-bind (reads azure _) λ client. requires azure client _)
          λ client. tells azure _

  -- The facade after an operation, whatever it ends in.
  unfoldable pub after : Operation → Facade azure → Facade azure
  after (crud labels token url) s = (init_for_crud azure labels token url s).1
  after (run labels) s = (init_for_run azure labels s).1
  after refresh s = (refresh_for_run azure s).1
  after open_session s = (init_session azure s).1
  after close_session s = (deinit_session azure s).1
  after (receive last) s = (next_message azure last s).1
  after (acknowledge id) s = (delete_this_message azure id s).1
  after remove_agent s = (delete_this_agent azure s).1
  after (lock_request id orchestration) s = (update_request azure id orchestration s).1
  after (plan_client plan timeline endpoints) s =
      (init_task_client azure plan timeline endpoints s).1
  after (report records) s = (update_record azure records s).1
  after (raise event) s = (raise_event azure event s).1

  unfoldable pub after_all : List Operation → Facade azure → Facade azure
  unfolding after
  after_all [] s = s
  after_all (operation ∷ operations) s = after_all operations (after operation s)

  kept :
      {A : Type 0} (m : Call azure A) (s : Facade azure)
      → Keeps azure m
      → P azure s
      → P azure (m s).1
  kept {A} m s keeps p = by_outcome (m s) (keeps.run s p)
    where
      by_outcome :
          (o : Outcome Error A × Facade azure)
          → Post {E = Error} {A = A} (λ _. P azure) (P azure) o
          → P azure o.1
      by_outcome (ok a, s) p = p
      by_outcome (err e, s) p = p
      by_outcome (panic, s) p = p

  after-P : (operation : Operation) (s : Facade azure) → P azure s → P azure (after operation s)
  unfolding after
  after-P (crud labels token url) s = kept _ s (init_for_crud-Keeps azure labels token url)
  after-P (run labels) s = kept _ s (init_for_run-Keeps azure labels)
  after-P refresh s = kept _ s (refresh_for_run-Keeps azure)
  after-P open_session s = kept _ s (init_session-Keeps azure)
  after-P close_session s = kept _ s (deinit_session-Keeps azure)
  after-P (receive last) s = kept _ s (next_message-Keeps last)
  after-P (acknowledge id) s = kept _ s (delete_this_message-Keeps id)
  after-P remove_agent s = kept _ s (delete_this_agent-Keeps azure)
  after-P (lock_request id orchestration) s = kept _ s (update_request-Keeps id orchestration)
  after-P (plan_client plan timeline endpoints) s =
      kept _ s (init_task_client-Keeps plan timeline endpoints)
  after-P (report records) s = kept _ s (update_record-Keeps records)
  after-P (raise event) s = kept _ s (raise_event-Keeps event)

  after_all-P :
      (operations : List Operation) (s : Facade azure)
      → P azure s
      → P azure (after_all operations s)
  unfolding after_all
  after_all-P [] s p = p
  after_all-P (operation ∷ operations) s p = after_all-P operations _ (after-P operation s p)

  -- The end of a session: it is gone, or the server refused to delete it and it is kept.
  abbrev pub Ended : Facade azure → Type 0
  Ended s =
      let (o, t) = deinit_session azure s in
      ((o ≡ ok tt) × (t.ado.task_agent_session ≡ none))
      ⊎ ((session : TaskAgentSession) × (client : Client) × (e : Error) × (s.ado.task_agent_session
            ≡ some session)
          × ((delete_agent_session client pool_id session.session_id s.world).0 ≡ some e)
          × (o ≡ err e)
          × (t.ado ≡ s.ado))

  deinit_session-Ended :
      (session : Option TaskAgentSession) (client : Option Client) (s : Facade azure)
      → Held azure session client
      → Ended (record s {
        ado = record (s.ado) { task_agent_session = session; task_agent_bridge_client = client };
      })
  unfolding deinit_session delete_session read required told written
  deinit_session-Ended none client s held = inl (refl, refl)
  deinit_session-Ended (some session) none s held = absurd held
  deinit_session-Ended (some session) (some client) s held =
      elim (Option-cases (delete_agent_session client pool_id session.session_id s.world).0) [
        | inl gone ↦ rw (gone, told) (inl (refl, refl))
        | inr (e, refused) ↦
            rw (refused, told) (inr (session, client, e, refl, refused, refl, refl))
      ]

  -- From a facade without a session, after any operations, whatever they ended in: the end of the
  -- session succeeds and no session is left, or the server refused to delete the session, its error
  -- is returned, and the facade is as it was. A missing client is never the reason.
  pub deinit_session-after_all :
      (operations : List Operation) (s : Facade azure)
      → s.ado.task_agent_session ≡ none
      → Ended (after_all operations s)
  deinit_session-after_all operations s fresh =
      let t = after_all operations s in
      deinit_session-Ended t.ado.task_agent_session t.ado.task_agent_bridge_client t
        (after_all-P operations s (rw fresh tt))
