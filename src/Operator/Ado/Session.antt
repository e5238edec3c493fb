-- ===== src/Operator/Ado/Session.antt =====
-- facades/ado.go: the session of the agent, and the messages in it.
use kube_actions.Prelude.{ℕ, Bool, true, false, Option, none, some, ◌==◌, ◌&&◌, not, if◌then◌else◌}
use kube_actions.Prelude.Effect.{pure, fail, ◌>>=◌, ◌>>◌}
use kube_actions.Operator.Token.{other_error}
use kube_actions.Operator.Ado.{
  Azure, Call, called, asked, told, written, read, checked, required, deref, TaskAgent,
  TaskAgentReference, TaskAgentSession, SessionError, unmarshal_type_error, plain, EncryptionKey,
  TaskAgentMessage, Hash, sha1, sha256, pool_id,
}
use kube_actions.Operator.Ado.Assertion.{decrypt_pkcs7}

module _ (azure : Azure) where
  open azure use {
    Client, create_agent_session, delete_agent_session, get_message, delete_message, decrypt_oaep,
    decode_base64, decode_utf8,
  }

  abbrev pub the_bridge : Call azure Client
  the_bridge = read azure (λ s. s.ado.task_agent_bridge_client) >>= λ client.
      required azure client ".TaskAgentBridgeClient == nil"

  abbrev pub the_session : Call azure TaskAgentSession
  the_session = read azure (λ s. s.ado.task_agent_session) >>= λ session.
      required azure session ".TaskAgentSession == nil"

  abbrev pub reference : TaskAgent → TaskAgentReference
  reference agent = record {
    links = agent.links;
    access_point = agent.access_point;
    enabled = agent.enabled;
    id = agent.id;
    name = agent.name;
    os_description = agent.os_description;
    provisioning_state = agent.provisioning_state;
    status = agent.status;
    version = agent.version;
  }

  -- What the client returns: a session that may be nil, and an error.
  unfoldable pub create_session : Call azure (Option TaskAgentSession × Option SessionError)
  create_session = do
    current ← read azure (λ s. s.ado.task_agent)
    agent ← required azure current ".TaskAgent == nil"
    client ← the_bridge
    called azure (
        create_agent_session client pool_id
          (record { agent = reference agent; owner_name = "Kube Actions" }))

  -- The error that is let pass: the status of the agent is a number in place of a text.
  unfoldable pub tolerated : Option SessionError → Call azure (Unit {0})
  tolerated none = pure tt
  tolerated (some (plain e)) = fail e
  tolerated (some (unmarshal_type_error type field value)) =
      if (type == "TaskAgentReference") && (field == "agent.status") && (value == "number")
      then pure tt
      else fail (other_error value)

  abbrev pub hash_of : Bool → Hash
  hash_of true = sha256
  hash_of false = sha1

  abbrev pub set_session : Option TaskAgentSession → Call azure (Unit {0})
  set_session session =
      written azure (λ s. record s { ado = record (s.ado) { task_agent_session = session } })

  -- An encryption key that is encrypted itself is decrypted with the key of the runner.
  unfoldable pub decrypted_key : TaskAgentSession → EncryptionKey → Call azure TaskAgentSession
  decrypted_key session key = do
    fips ← deref azure session.use_fips_encryption
    value ← deref azure key.key_value
    private_key ← read azure (λ s. s.ado.rsa_private_key)
    bytes ← checked azure (decrypt_oaep (hash_of fips) private_key value)
    pure (record session { encryption_key = some (record key { key_value = some bytes }) })

  unfoldable pub init_session : Call azure (Unit {0})
  unfolding create_session tolerated decrypted_key
  init_session = do
    answer ← create_session
    tolerated answer.1
    session ← deref azure answer.0
    key ← deref azure session.encryption_key
    encrypted ← deref azure key.encrypted
    (if not encrypted
        then set_session (some session)
        else decrypted_key session key >>= λ readable. set_session (some readable))

  unfoldable pub delete_session : Call azure (Unit {0})
  delete_session = do
    client ← the_bridge
    session ← the_session
    told azure (delete_agent_session client pool_id session.session_id)

  -- Without a session there is nothing to do; one that cannot be deleted is kept.
  unfoldable pub deinit_session : Call azure (Unit {0})
  unfolding delete_session
  deinit_session = do
    current ← read azure (λ s. s.ado.task_agent_session)
    elim current [ none ↦ pure tt | some session ↦ delete_session >> set_session none ]

  -- The body of a message with an initialization vector is decoded, decrypted and decoded.
  unfoldable pub open_message : TaskAgentMessage → Call azure TaskAgentMessage
  unfolding decrypt_pkcs7
  open_message message = elim message.iv [
    | none ↦ pure message
    | some iv ↦ do
      body ← deref azure message.body
      encrypted ← checked azure (decode_base64 body)
      session ← the_session
      key ← deref azure session.encryption_key
      bytes ← deref azure key.key_value
      decrypted ← checked azure (decrypt_pkcs7 azure encrypted iv bytes)
      text ← checked azure (decode_utf8 decrypted)
      pure (record message { body = some text; iv = none })
  ]

  -- A message after the last one, or none.
  unfoldable pub next_message : Option ℕ → Call azure (Option TaskAgentMessage)
  unfolding open_message
  next_message last_message_id = do
    client ← the_bridge
    session ← the_session
    answer ← asked azure (get_message client pool_id session.session_id last_message_id)
    elim answer [
      | none ↦ pure none
      | some message ↦ open_message message >>= λ readable. pure (some readable)
    ]

  unfoldable pub delete_this_message : ℕ → Call azure (Unit {0})
  delete_this_message message_id = do
    client ← the_bridge
    session ← the_session
    told azure (delete_message client pool_id message_id session.session_id)
