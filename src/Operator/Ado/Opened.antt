-- ===== src/Operator/Ado/Opened.antt =====
-- facades/ado.go: what the start and the end of a session keep.
use kube_actions.Prelude.{◌≡◌, refl, Option, none, some, ◌==◌, ◌&&◌, not}
use kube_actions.Prelude.Effect.{◌>>=◌, Ensures, Ensures-bind, Ensures-if, Ensures-mono, Post}
use kube_actions.Operator.Token.{Error, other_error}
use kube_actions.Operator.Ado.{
  Azure, Facade, Call, read, required, TaskAgentSession, EncryptionKey, SessionError,
  unmarshal_type_error, plain,
}
use kube_actions.Operator.Ado.Kept.{
  Kept, called-Kept, checked-Kept, deref-Kept, read-Kept, pure-Kept, fail-Kept, written-Kept,
  optional-Kept,
}
use kube_actions.Operator.Ado.Session.{
  the_bridge, the_session, create_session, tolerated, decrypted_key, init_session, delete_session,
  deinit_session,
}
use kube_actions.Operator.Ado.Held.{Held, P, steady, Keeps, reads, tells, requires, writes}

module _ (azure : Azure) where
  open azure use {Client, delete_agent_session}

  abbrev There : Option Client → Type 0
  There none = ⊥
  There (some client) = Unit

  abbrev Bridged : Facade azure → Type 0
  Bridged s = There s.ado.task_agent_bridge_client

  steady' : (s : Facade azure) (w : azure.World) → Bridged s → Bridged (record s { world = w })
  steady' s w p = p

  Bridged-P : (s : Facade azure) → Bridged s → P azure s
  Bridged-P s b = held s.ado.task_agent_session s.ado.task_agent_bridge_client b
    where
      held :
          (session : Option TaskAgentSession) (client : Option Client)
          → There client
          → Held azure session client
      held none client b = tt
      held (some session) none b = b
      held (some session) (some client) b = tt

  the_bridge-Bridged : Ensures (P azure) (the_bridge azure) (λ _. Bridged) (P azure)
  unfolding read required
  the_bridge-Bridged = record { run = λ s p. by_client s p s.ado.task_agent_bridge_client refl }
    where
      by_client :
          (s : Facade azure)
          → P azure s
          → (client : Option Client) → s.ado.task_agent_bridge_client ≡ client
          → Post {E = Error}
              (λ _. Bridged)
              (P azure)
              (required azure client ".TaskAgentBridgeClient == nil" s)
      by_client s p none e = p
      by_client s p (some client) e = rw e tt

  pub on_bridge :
      {A : Type 0} (f : Client → Call azure A)
      → ((client : Client) → Keeps azure (f client))
      → Keeps azure (the_bridge azure >>= f)
  on_bridge f keeps =
      Ensures-bind (Ensures-bind (reads azure _) λ current. requires azure current _) keeps

  pub on_session :
      {A : Type 0} (f : TaskAgentSession → Call azure A)
      → ((session : TaskAgentSession) → Keeps azure (f session))
      → Keeps azure (the_session azure >>= f)
  on_session f keeps =
      Ensures-bind (Ensures-bind (reads azure _) λ current. requires azure current _) keeps

  create_session-Bridged : Ensures (P azure) (create_session azure) (λ _. Bridged) (P azure)
  unfolding create_session
  create_session-Bridged = Ensures-bind (reads azure _) λ current.
      Ensures-bind (requires azure current _) λ agent.
        Ensures-bind the_bridge-Bridged
          λ client. Ensures-mono (λ answer s b. b) Bridged-P (called-Kept azure Bridged steady' _)

  tolerated-Kept : (e : Option SessionError) → Kept azure Bridged steady' (tolerated azure e)
  unfolding tolerated
  tolerated-Kept none = pure-Kept azure Bridged steady' tt
  tolerated-Kept (some (plain e)) = fail-Kept azure Bridged steady' e
  tolerated-Kept (some (unmarshal_type_error type field value)) =
      Ensures-if
        ((type == "TaskAgentReference") && (field == "agent.status") && (value == "number"))
        (λ _. pure-Kept azure Bridged steady' tt)
        (λ _. fail-Kept azure Bridged steady' (other_error value))

  decrypted_key-Kept :
      (session : TaskAgentSession) (key : EncryptionKey)
      → Kept azure Bridged steady' (decrypted_key azure session key)
  unfolding decrypted_key
  decrypted_key-Kept session key =
      Ensures-bind (deref-Kept azure Bridged steady' session.use_fips_encryption) λ fips.
        Ensures-bind (deref-Kept azure Bridged steady' key.key_value) λ value.
          Ensures-bind (read-Kept azure Bridged steady' _) λ private_key.
            Ensures-bind (checked-Kept azure Bridged steady' _)
              λ bytes. pure-Kept azure Bridged steady' _

  pub init_session-Keeps : Keeps azure (init_session azure)
  unfolding init_session
  init_session-Keeps = Ensures-bind create_session-Bridged λ answer.
      Ensures-mono (λ _. Bridged-P) Bridged-P
        (Ensures-bind (tolerated-Kept answer.1) λ _.
          Ensures-bind (deref-Kept azure Bridged steady' answer.0) λ session.
            Ensures-bind (deref-Kept azure Bridged steady' session.encryption_key) λ key.
              Ensures-bind (deref-Kept azure Bridged steady' key.encrypted) λ encrypted.
                Ensures-if (not encrypted) (λ _. written-Kept azure Bridged steady' _ λ s b. b)
                  λ _.
                    Ensures-bind (decrypted_key-Kept session key)
                      λ readable. written-Kept azure Bridged steady' _ λ s b. b)

  pub deinit_session-Keeps : Keeps azure (deinit_session azure)
  unfolding deinit_session delete_session
  deinit_session-Keeps = Ensures-bind (reads azure _) λ current.
      optional-Kept azure (P azure) (steady azure) current
        (pure-Kept azure (P azure) (steady azure) tt)
        λ session.
          Ensures-bind (on_bridge _ λ client. on_session _ λ current'. tells azure _)
            λ _. writes azure _ λ s p. tt
