-- ===== src/Operator/Ado/Agent.antt =====
-- facades/ado.go: the connections of the facade, and its agent, which is found or added.
use Prim.Native.String.{◌++◌ as str_append}
use kube_actions.Prelude.{
  ℕ, String, true, Option, none, some, List, [], ◌∷◌, ◌++◌, ◌==◌, if◌then◌else◌,
}
use kube_actions.Prelude.Effect.{pure, fail, ◌>>=◌, ◌>>◌}
use kube_actions.Prelude.Outcome.{Outcome, ok, err, panic}
use kube_actions.Operator.Token.{Error, new_error, access_token}
use kube_actions.Prelude.Result.{Result}
use kube_actions.Operator.Dot.{DotFiles, CredentialsData}
use kube_actions.Operator.Dot.Rsa.{to_rsa_private_key}
use kube_actions.Operator.Ado.{
  Azure, Facade, Call, called, asked, told, written, read, checked, required, deref, TaskAgent,
  pool_id,
}
use kube_actions.Operator.Ado.Properties.{Value, get_property_value, is_true}
use kube_actions.Operator.Ado.Assertion.{client_assertion}

module _ (azure : Azure) where
  open azure use {
    Client, agent_version, goos, goarch, new_client, get_agent, get_agents, add_agent,
    replace_agent, delete_agent,
  }

  -- `agentLabelsBase`
  abbrev pub agent_labels_base : List String
  agent_labels_base = "self-hosted" ∷ goos ∷ goarch ∷ []

  unfoldable pub init_rsa_private_key : Call azure (Unit {0})
  init_rsa_private_key = do
    files ← read azure (λ s. s.files)
    key ← checked azure (to_rsa_private_key files.rsa_parameters)
    written azure (λ s. record s { ado = record (s.ado) { rsa_private_key = some key } })

  unfoldable pub init_connection : String → String → Call azure (Unit {0})
  init_connection token url =
      if token == ""
      then fail (new_error "token == \"\"")
      else if url == ""
      then fail (new_error "url == \"\"")
      else written azure (λ s. record s {
        ado = record (s.ado) {
          connection =
              some (record { authorization_string = str_append "Bearer " token; base_url = url });
        };
      })

  unfoldable pub init_task_agent_client : Call azure (Unit {0})
  init_task_agent_client = do
    current ← read azure (λ s. s.ado.connection)
    connection ← required azure current ".Connection == nil"
    client ← asked azure (new_client connection)
    written azure (λ s. record s { ado = record (s.ado) { task_agent_client = some client } })

  -- `ado.TaskAgentClient`, checked, and `ado.TaskAgent`, which is not.
  abbrev pub the_client : Call azure Client
  the_client = read azure (λ s. s.ado.task_agent_client) >>= λ client.
      required azure client ".TaskAgentClient == nil"

  abbrev pub the_agent : Call azure TaskAgent
  the_agent = read azure (λ s. s.ado.task_agent) >>= deref azure

  -- `GetAgents` in place of an agent that is not found, if it lists one only.
  unfoldable pub only_agent : Option (List TaskAgent) → Error → Call azure TaskAgent
  only_agent (some (agent ∷ [])) e = pure agent
  only_agent agents e = fail e

  -- What `GetAgent` returns for what the client answered.
  unfoldable pub or_listed : Client → TaskAgent → Result Error TaskAgent → Call azure TaskAgent
  unfolding only_agent
  or_listed client agent (Result.ok there) = pure there
  or_listed client agent (Result.err e) = do
    agents ← called azure (get_agents client pool_id agent.name)
    only_agent agents e

  unfoldable pub find_agent : Call azure TaskAgent
  unfolding or_listed
  find_agent = do
    client ← the_client
    agent ← the_agent
    found ← called azure (get_agent client pool_id agent.id)
    or_listed client agent found

  unfoldable pub add_this_agent : Call azure TaskAgent
  add_this_agent = do
    client ← the_client
    agent ← the_agent
    asked azure (add_agent client pool_id agent)

  unfoldable pub replace_this_agent : Call azure TaskAgent
  replace_this_agent = do
    client ← the_client
    agent ← the_agent
    asked azure (replace_agent client pool_id agent.id agent)

  unfoldable pub delete_this_agent : Call azure (Unit {0})
  delete_this_agent = do
    client ← the_client
    agent ← the_agent
    told azure (delete_agent client pool_id agent.id)

  abbrev pub set_agent : Option TaskAgent → Call azure (Unit {0})
  set_agent agent = written azure (λ s. record s { ado = record (s.ado) { task_agent = agent } })

  -- The agent that is to be, from the files and the labels.
  unfoldable pub agent_of : DotFiles → List String → TaskAgent
  agent_of files labels = record {
    links = none;
    access_point = none;
    enabled = none;
    id = some files.runner.agent_id;
    name = some files.runner.agent_name;
    os_description = none;
    provisioning_state = none;
    status = none;
    version = some agent_version;
    disable_update = some true;
    agent_labels = some labels;
    authorization = some (record {
      public_key = some (record {
        key_exponent = files.rsa_parameters.exponent;
        key_modulus = files.rsa_parameters.modulus;
      });
      agent_client_id = none;
      agent_authorization_url = none;
    });
    properties = Value.null;
  }

  -- The id of an agent that is there, or none.
  unfoldable pub id_or_none :
      Outcome Error TaskAgent × Facade azure → Outcome Error (Option ℕ) × Facade azure
  id_or_none (ok agent, s) = (ok agent.id, s)
  id_or_none (err e, s) = (ok none, s)
  id_or_none (panic, s) = (panic, s)

  unfoldable pub found_id : Call azure (Option ℕ)
  unfolding find_agent id_or_none
  found_id s = id_or_none (find_agent s)

  -- `ado.TaskAgent = nil` on an error of a call.
  unfoldable pub without_agent :
      Outcome Error TaskAgent × Facade azure → Outcome Error TaskAgent × Facade azure
  without_agent (ok agent, s) = (ok agent, s)
  without_agent (err e, s) = (err e, record s { ado = record (s.ado) { task_agent = none } })
  without_agent (panic, s) = (panic, s)

  unfoldable pub add_or_replace : Option ℕ → Call azure TaskAgent
  unfolding add_this_agent replace_this_agent without_agent
  add_or_replace none s = without_agent (add_this_agent s)
  add_or_replace (some id) s = without_agent (replace_this_agent s)

  unfoldable pub set_credentials : (CredentialsData → CredentialsData) → Call azure (Unit {0})
  set_credentials f = written azure (λ s. record s {
    files = record (s.files) {
      credentials = record (s.files.credentials) {
        credentials_data = f s.files.credentials.credentials_data;
      };
    };
  })

  -- `*agent.Id`, `agent.Authorization.ClientId` and `*agent.Authorization.AuthorizationUrl`, each written
  -- to the files before the next is read.
  unfoldable pub keep_agent : TaskAgent → Call azure (Unit {0})
  unfolding get_property_value is_true set_credentials
  keep_agent agent = do
    id ← deref azure agent.id
    written azure (λ s. record s {
      files = record (s.files) { runner = record (s.files.runner) { agent_id = id } };
    })
    authorization ← deref azure agent.authorization
    client_id ← deref azure authorization.agent_client_id
    set_credentials (λ d. record d { client_id = client_id })
    url ← deref azure authorization.agent_authorization_url
    set_credentials (λ d. record d { authorization_url = url; oauth_endpoint_url = url })
    set_credentials (λ d. record d {
      require_fips_cryptography =
          if is_true (get_property_value agent.properties "RequireFipsCryptography")
          then "True"
          else "False";
    })
    set_agent (some agent)

  -- With a client the agent is replaced if it is found, and added if it is not.
  unfoldable pub register_agent : TaskAgent → Call azure (Unit {0})
  unfolding found_id add_or_replace keep_agent
  register_agent agent = do
    id ← found_id
    set_agent (some (record agent { id = id }))
    registered ← add_or_replace id
    keep_agent registered

  -- Without a client the agent is only set.
  unfoldable pub init_task_agent : List String → Call azure (Unit {0})
  unfolding agent_of register_agent
  init_task_agent labels = do
    files ← read azure (λ s. s.files)
    set_agent (some (agent_of files labels))
    client ← read azure (λ s. s.ado.task_agent_client)
    elim client [ none ↦ pure tt | some c ↦ register_agent (agent_of files labels) ]

  unfoldable pub init_bridge_connection : Call azure (Unit {0})
  unfolding client_assertion
  init_bridge_connection = do
    s ← read azure (λ s. s)
    let credentials = s.files.credentials.credentials_data
    assertion ←
        client_assertion azure credentials.client_id credentials.authorization_url
          s.ado.rsa_private_key
    endpoint ← called azure azure.endpoint
    token ←
        checked azure (access_token (azure.http endpoint) credentials.oauth_endpoint_url assertion)
    written azure (λ s. record s {
      ado = record (s.ado) {
        bridge_connection = some (record {
          authorization_string = str_append "Bearer " token;
          base_url = s.files.runner.server_url;
        });
      };
    })

  unfoldable pub init_bridge_client : Call azure (Unit {0})
  init_bridge_client = do
    current ← read azure (λ s. s.ado.bridge_connection)
    connection ← required azure current ".BridgeConnection == nil"
    client ← asked azure (new_client connection)
    written azure
        (λ s. record s { ado = record (s.ado) { task_agent_bridge_client = some client } })

  unfoldable pub init_for_crud : List String → String → String → Call azure (Unit {0})
  unfolding init_rsa_private_key init_connection init_task_agent_client init_task_agent
  init_for_crud labels token url = do
    init_rsa_private_key
    init_connection token url
    init_task_agent_client
    init_task_agent (agent_labels_base ++ labels)

  unfoldable pub init_for_run : List String → Call azure (Unit {0})
  unfolding init_rsa_private_key init_task_agent init_bridge_connection init_bridge_client
  init_for_run labels = do
    init_rsa_private_key
    init_task_agent (agent_labels_base ++ labels)
    init_bridge_connection
    init_bridge_client

  unfoldable pub refresh_for_run : Call azure (Unit {0})
  unfolding init_bridge_connection init_bridge_client
  refresh_for_run = do init_bridge_connection; init_bridge_client
