-- ===== src/Operator/Tests/Wired.antt =====
-- A wire with an inbox of messages on the side of Azure DevOps.
use kube_actions.Prelude.{
  ℕ, ◌≡◌, ◌⊎◌, refl, String, true, false, Option, none, some, List, [], ◌∷◌, ◌++◌, arith,
}
use kube_actions.Prelude.Result.{Result}
use kube_actions.Prelude.Outcome.{Outcome}
use kube_actions.Operator.Token.{Error, new_error, access_token}
use kube_actions.Operator.Dot.{PrivateKey, RsaParameters}
use kube_actions.Operator.Dot.Rsa.{
  parameters_of, to_rsa_private_key, to_rsa_private_key-parameters_of,
}
use kube_actions.Operator.Ado.{
  Azure, AzureDevOps, Facade, TaskAgent, TaskAgentSession, TaskAgentMessage, Plan, ServiceEndpoint,
  called, asked, told,
}
use kube_actions.Operator.Ado
use kube_actions.Operator.Ado.Properties.{Value}
use kube_actions.Operator.Ado.Agent.{refresh_for_run}
use kube_actions.Operator.Ado.Session.{init_session, deinit_session, next_message}
use kube_actions.Operator.Ado.Lifecycle.{
  refresh, open_session, after_all, Ended, deinit_session-after_all,
}
use kube_actions.Prelude.GoMap.{get, put}
use kube_actions.Operator.Wire.Context.{flattened_dictionary}
use kube_actions.Operator.Wire.Policy.{
  validate, validate_rules, validate_must, validate_must_not, compile_rule,
}
use kube_actions.Operator.Wire.Line
use kube_actions.Operator.Wire.Line.{
  Ports, Line, Wire, PipelineAgentJobRequest, no_files, opened, unmade,
}
use kube_actions.Operator.Wire.Line.Listener.{Progress, listened, routine, ended, crashed}
use kube_actions.Operator.Wire.Line.Ends.{Ends, routine-Ends}
use kube_actions.Operator.Wire.Line.Stops.{routine-stops}
use kube_actions.Operator.Tests.Built.{runner_with}
use kube_actions.Operator.Tests.Judged.{small_gojq}
use kube_actions.Operator.Tests.Asked.{server, at_start}

-- A small key.
abbrev key : PrivateKey
key = record { n = 3233; e = 17; d = 413; primes = 61 ∷ 53 ∷ []; dp = 53; dq = 49; qinv = 38 }

to_rsa_private_key-parameters_of_example :
    (parameters : RsaParameters) × (parameters_of key ≡ Outcome.ok parameters)
    × (to_rsa_private_key parameters ≡ Result.ok key)
to_rsa_private_key-parameters_of_example = to_rsa_private_key-parameters_of key refl (omega arith)

abbrev agent : TaskAgent
agent = record {
  links = none;
  access_point = none;
  enabled = none;
  id = some 5;
  name = some "KA ci a";
  os_description = none;
  provisioning_state = none;
  status = none;
  version = none;
  disable_update = none;
  agent_labels = none;
  authorization = some (record {
    public_key = none;
    agent_client_id = some "c";
    agent_authorization_url = some "/token";
  });
  properties = Value.null;
}

abbrev session : TaskAgentSession
session = record {
  session_id = some "s";
  encryption_key = some (record { encrypted = some false; key_value = some [] });
  use_fips_encryption = some false;
}

abbrev popped :
    List TaskAgentMessage → Result Error (Option TaskAgentMessage) × List TaskAgentMessage
popped [] = (Result.ok none, [])
popped (m ∷ ms) = (Result.ok (some m), ms)

-- The world is the list of messages that are still to come.
abbrev inbox : Azure
inbox = record {
  World = List TaskAgentMessage;
  Client = String;
  TaskClient = String;
  agent_version = "0.0.0";
  goos = "linux";
  goarch = "amd64";
  new_client = λ connection w. (Result.ok "client", w);
  get_agent = λ client pool id w. (Result.err (new_error "404"), w);
  get_agents = λ client pool name w. (none, w);
  add_agent = λ client pool wanted w. (Result.ok agent, w);
  replace_agent = λ client pool id wanted w. (Result.ok agent, w);
  delete_agent = λ client pool id w. (none, w);
  create_agent_session = λ client pool request w. ((some session, none), w);
  delete_agent_session = λ client pool id w. (none, w);
  get_message = λ client pool id last w. popped w;
  delete_message = λ client pool message id w. (none, w);
  update_agent_request = λ client pool request orchestration w. (none, w);
  new_task_client = λ connection w. ("tasks", w);
  update_records = λ client plan timeline records w. (none, w);
  raise_plan_event = λ client plan event w. (none, w);
  now = λ w. (100, w);
  new_uuid = λ w. ("u", w);
  signed = λ k claims. Result.ok "signed";
  Endpoint = Unit {0};
  endpoint = λ w. (tt, w);
  http = λ e. record {
    Request = String;
    new_request = λ endpoint assertion. Result.ok assertion;
    fetch_response = λ request. Result.ok (record {
      access_token = "t";
      error_response = record { error_code = ""; error_description = ""; error_uri = "" };
    });
  };
  decrypt_oaep = λ hash k bytes. Result.ok bytes;
  decode_base64 = λ text. Result.ok [];
  decrypt = λ info k. Result.ok [];
  decode_utf8 = λ bytes. Result.ok "";
  orchid = λ token. Result.ok "o";
}

abbrev job : PipelineAgentJobRequest ℕ
job = record {
  plan = none;
  timeline = none;
  job_id = some "j";
  job_display_name = some "build";
  job_name = some "build";
  request_id = some 9;
  resources = none;
  context_data = some kube_actions.Operator.Wire.Context.no_pairs;
}

abbrev pub ports : Ports ℕ
ports = record {
  github = server;
  azure = inbox;
  gojq = small_gojq;
  parse_job = λ text. Result.ok job;
  generate_key = λ w. (Result.ok key, w);
  shorten = λ text n. text;
}

abbrev no_facade : AzureDevOps inbox
no_facade = record {
  rsa_private_key = some key;
  connection = none;
  task_agent_client = none;
  task_agent = some agent;
  bridge_connection = none;
  task_agent_bridge_client = none;
  task_agent_session = none;
  plan = none;
  timeline = none;
  job_connection = none;
  task_client = none;
}

abbrev facade : Facade inbox
facade = record { ado = no_facade; files = no_files; world = [] }

deinit_session-after_all_example :
    Ended inbox (after_all inbox (refresh ∷ open_session ∷ []) facade)
deinit_session-after_all_example =
    deinit_session-after_all inbox (refresh ∷ open_session ∷ []) facade refl

abbrev refresh_message : TaskAgentMessage
refresh_message = record {
  message_id = some 1;
  message_type = some "AgentRefresh";
  body = some "";
  iv = none;
}

abbrev job_message : TaskAgentMessage
job_message = record {
  message_id = some 2;
  message_type = some "PipelineAgentJobRequest";
  body = some "{}";
  iv = none;
}

abbrev pub line : Line ports
line = record {
  wire = record {
    actions_runner = runner_with [];
    dot_files = some no_files;
    repository = none;
    ado = no_facade;
    job_requests = some 0;
    loop_close = opened;
    invalid = false;
    listening = true;
    validator = some [];
  };
  shared = record {
    variables = at_start;
    world = job_message ∷ [];
    notified = 0;
    notifier_closed = false;
  };
}

-- The goroutine on that message, with all that it computes by.
received : Outcome Error Progress × Line ports
unfolding listened Line.to_ado refresh_for_run Ado.read called Ado.checked access_token Ado.written
    Ado.required asked Line.to_client init_session Ado.deref Line.read next_message Line.deref
    Line.checked validate flattened_dictionary validate_rules validate_must validate_must_not
    compile_rule get put Line.written told
received = listened ports (false ∷ false ∷ []) line

routine-Ends_example : Ends ports 0 false (routine ports (false ∷ false ∷ []) line)
routine-Ends_example = routine-Ends ports (false ∷ false ∷ []) line (refl, (refl, tt)) refl refl

routine-stops_example :
    ((routine ports ((false ∷ []) ++ true ∷ []) line).0 ≡ ended)
    ⊎ ((routine ports ((false ∷ []) ++ true ∷ []) line).0 ≡ crashed)
routine-stops_example = routine-stops ports (false ∷ []) [] line refl

routine_ends : (routine ports (false ∷ false ∷ []) line).0 ≡ ended
unfolding routine received deinit_session
routine_ends = refl
