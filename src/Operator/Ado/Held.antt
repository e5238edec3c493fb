-- ===== src/Operator/Ado/Held.antt =====
-- facades/ado.go: a session is held only together with the client that it was made by.
use kube_actions.Prelude.{ℕ, String, Option, none, some, List, [], ◌∷◌, ◌==◌}
use kube_actions.Prelude.Effect.{◌>>=◌, Ensures-bind, Ensures-if, Post}
use kube_actions.Prelude.Result.{Result}
use kube_actions.Prelude.Outcome.{Outcome, ok, err, panic}
use kube_actions.Operator.Token.{Error}
use kube_actions.Operator.Ado.{
  Azure, Facade, Call, called, asked, told, written, read, checked, required, deref, TaskAgent,
  TaskAgentSession,
}
use kube_actions.Operator.Ado.Kept.{
  Kept, called-Kept, asked-Kept, told-Kept, written-Kept, read-Kept, checked-Kept, required-Kept,
  deref-Kept, pure-Kept, fail-Kept, optional-Kept,
}
use kube_actions.Operator.Ado.Assertion.{client_assertion}
use kube_actions.Operator.Ado.Agent.{
  init_rsa_private_key, init_connection, init_task_agent_client, init_task_agent,
  init_bridge_connection, init_bridge_client, init_for_crud, init_for_run, refresh_for_run,
  find_agent, found_id, keep_agent, add_this_agent, replace_this_agent, delete_this_agent,
  only_agent, the_client, the_agent, or_listed, id_or_none, without_agent, add_or_replace,
  register_agent,
}

module _ (azure : Azure) where
  open azure use {Client}

  abbrev pub Held : Option TaskAgentSession → Option Client → Type 0
  Held none client = Unit
  Held (some session) none = ⊥
  Held (some session) (some client) = Unit

  -- The facade that holds a session has the client of the bridge.
  abbrev pub P : Facade azure → Type 0
  P s = Held s.ado.task_agent_session s.ado.task_agent_bridge_client

  pub steady : (s : Facade azure) (w : azure.World) → P s → P (record s { world = w })
  steady s w p = p

  abbrev pub Keeps : {A : Type 0} → Call azure A → Type 0
  Keeps = Kept azure P steady

  pub reads : {A : Type 0} (f : Facade azure → A) → Keeps (read azure f)
  reads = read-Kept azure P steady

  pub asks : {A : Type 0} (f : azure.World → Result Error A × azure.World) → Keeps (asked azure f)
  asks = asked-Kept azure P steady

  pub tells : (f : azure.World → Option Error × azure.World) → Keeps (told azure f)
  tells = told-Kept azure P steady

  pub calls : {A : Type 0} (f : azure.World → A × azure.World) → Keeps (called azure f)
  calls = called-Kept azure P steady

  pub checks : {A : Type 0} (r : Result Error A) → Keeps (checked azure r)
  checks = checked-Kept azure P steady

  pub requires : {A : Type 0} (o : Option A) (text : String) → Keeps (required azure o text)
  requires = required-Kept azure P steady

  pub derefs : {A : Type 0} (o : Option A) → Keeps (deref azure o)
  derefs = deref-Kept azure P steady

  pub writes :
      (f : Facade azure → Facade azure)
      → ((s : Facade azure) → P s → P (f s))
      → Keeps (written azure f)
  writes = written-Kept azure P steady

  init_rsa_private_key-Keeps : Keeps (init_rsa_private_key azure)
  unfolding init_rsa_private_key
  init_rsa_private_key-Keeps =
      Ensures-bind (reads _) λ files. Ensures-bind (checks _) λ key. writes _ λ s p. p

  init_connection-Keeps : (token url : String) → Keeps (init_connection azure token url)
  unfolding init_connection
  init_connection-Keeps token url =
      Ensures-if (token == "") (λ _. fail-Kept azure P steady _)
        λ _. Ensures-if (url == "") (λ _. fail-Kept azure P steady _) λ _. writes _ λ s p. p

  init_task_agent_client-Keeps : Keeps (init_task_agent_client azure)
  unfolding init_task_agent_client
  init_task_agent_client-Keeps = Ensures-bind (reads _) λ current.
      Ensures-bind (requires current _)
        λ connection. Ensures-bind (asks _) λ client. writes _ λ s p. p

  on_agent :
      {A : Type 0} (f : Client → TaskAgent → Call azure A)
      → ((client : Client) (agent : TaskAgent) → Keeps (f client agent))
      → Keeps (the_client azure >>= λ client. the_agent azure >>= f client)
  on_agent f keeps =
      Ensures-bind (Ensures-bind (reads _) λ current. requires current _)
        λ client. Ensures-bind (Ensures-bind (reads _) λ current. derefs current) (keeps client)

  only_agent-Keeps :
      (agents : Option (List TaskAgent)) (e : Error) → Keeps (only_agent azure agents e)
  unfolding only_agent
  only_agent-Keeps none e = fail-Kept azure P steady e
  only_agent-Keeps (some []) e = fail-Kept azure P steady e
  only_agent-Keeps (some (agent ∷ [])) e = pure-Kept azure P steady agent
  only_agent-Keeps (some (agent ∷ other ∷ others)) e = fail-Kept azure P steady e

  or_listed-Keeps :
      (client : Client) (agent : TaskAgent) (found : Result Error TaskAgent)
      → Keeps (or_listed azure client agent found)
  unfolding or_listed
  or_listed-Keeps client agent (Result.ok there) = pure-Kept azure P steady there
  or_listed-Keeps client agent (Result.err e) =
      Ensures-bind (calls _) λ agents. only_agent-Keeps agents e

  find_agent-Keeps : Keeps (find_agent azure)
  unfolding find_agent
  find_agent-Keeps =
      on_agent _ λ client agent. Ensures-bind (calls _) (or_listed-Keeps client agent)

  found_id-Keeps : Keeps (found_id azure)
  unfolding found_id id_or_none
  found_id-Keeps = record {
    run = λ s p. by_outcome (find_agent azure s) (find_agent-Keeps.run s p);
  }
    where
      by_outcome :
          (o : Outcome Error TaskAgent × Facade azure)
          → Post {E = Error} {A = TaskAgent} (λ _. P) P o
          → Post {E = Error} {A = Option ℕ} (λ _. P) P (id_or_none azure o)
      by_outcome (ok agent, s) p = p
      by_outcome (err e, s) p = p
      by_outcome (panic, s) p = p

  without_agent-Keeps :
      (o : Outcome Error TaskAgent × Facade azure)
      → Post {E = Error} {A = TaskAgent} (λ _. P) P o
      → Post {E = Error} {A = TaskAgent} (λ _. P) P (without_agent azure o)
  unfolding without_agent
  without_agent-Keeps (ok agent, s) p = p
  without_agent-Keeps (err e, s) p = p
  without_agent-Keeps (panic, s) p = p

  add_this_agent-Keeps : Keeps (add_this_agent azure)
  unfolding add_this_agent
  add_this_agent-Keeps = on_agent _ λ client agent. asks _

  replace_this_agent-Keeps : Keeps (replace_this_agent azure)
  unfolding replace_this_agent
  replace_this_agent-Keeps = on_agent _ λ client agent. asks _

  pub delete_this_agent-Keeps : Keeps (delete_this_agent azure)
  unfolding delete_this_agent
  delete_this_agent-Keeps = on_agent _ λ client agent. tells _

  add_or_replace-Keeps : (id : Option ℕ) → Keeps (add_or_replace azure id)
  unfolding add_or_replace
  add_or_replace-Keeps none = record {
    run = λ s p. without_agent-Keeps (add_this_agent azure s) (add_this_agent-Keeps.run s p);
  }
  add_or_replace-Keeps (some id) = record {
    run =
        λ s p. without_agent-Keeps (replace_this_agent azure s) (replace_this_agent-Keeps.run s p);
  }

  keep_agent-Keeps : (agent : TaskAgent) → Keeps (keep_agent azure agent)
  unfolding keep_agent
  keep_agent-Keeps agent = Ensures-bind (derefs agent.id) λ id.
      Ensures-bind (writes _ λ s p. p) λ _.
        Ensures-bind (derefs agent.authorization) λ authorization.
          Ensures-bind (derefs authorization.agent_client_id) λ client_id.
            Ensures-bind (writes _ λ s p. p) λ _.
              Ensures-bind (derefs authorization.agent_authorization_url) λ url.
                Ensures-bind (writes _ λ s p. p)
                  λ _. Ensures-bind (writes _ λ s p. p) λ _. writes _ λ s p. p

  init_task_agent-Keeps : (labels : List String) → Keeps (init_task_agent azure labels)
  unfolding init_task_agent register_agent
  init_task_agent-Keeps labels = Ensures-bind (reads _) λ files.
      Ensures-bind (writes _ λ s p. p) λ _. Ensures-bind (reads _) λ client.
        optional-Kept azure P steady client (pure-Kept azure P steady tt) λ c.
          Ensures-bind found_id-Keeps λ id.
            Ensures-bind (writes _ λ s p. p)
              λ _. Ensures-bind (add_or_replace-Keeps id) keep_agent-Keeps

  init_bridge_connection-Keeps : Keeps (init_bridge_connection azure)
  unfolding init_bridge_connection client_assertion
  init_bridge_connection-Keeps = Ensures-bind (reads _) λ now.
      Ensures-bind (Ensures-bind (calls _) λ time. Ensures-bind (calls _) λ uuid. checks _)
        λ assertion.
          Ensures-bind (calls _) λ endpoint. Ensures-bind (checks _) λ token. writes _ λ s p. p

  -- A session goes with any client.
  with_client : (session : Option TaskAgentSession) (client : Client) → Held session (some client)
  with_client none client = tt
  with_client (some session) client = tt

  init_bridge_client-Keeps : Keeps (init_bridge_client azure)
  unfolding init_bridge_client
  init_bridge_client-Keeps = Ensures-bind (reads _) λ current.
      Ensures-bind (requires current _) λ connection.
        Ensures-bind (asks _) λ client. writes _ λ s p. with_client s.ado.task_agent_session client

  pub init_for_crud-Keeps :
      (labels : List String) (token url : String) → Keeps (init_for_crud azure labels token url)
  unfolding init_for_crud
  init_for_crud-Keeps labels token url = Ensures-bind init_rsa_private_key-Keeps λ _.
      Ensures-bind (init_connection-Keeps token url)
        λ _. Ensures-bind init_task_agent_client-Keeps λ _. init_task_agent-Keeps _

  pub refresh_for_run-Keeps : Keeps (refresh_for_run azure)
  unfolding refresh_for_run
  refresh_for_run-Keeps = Ensures-bind init_bridge_connection-Keeps λ _. init_bridge_client-Keeps

  pub init_for_run-Keeps : (labels : List String) → Keeps (init_for_run azure labels)
  unfolding init_for_run
  init_for_run-Keeps labels = Ensures-bind init_rsa_private_key-Keeps λ _.
      Ensures-bind (init_task_agent-Keeps _)
        λ _. Ensures-bind init_bridge_connection-Keeps λ _. init_bridge_client-Keeps
