-- ===== src/Operator/Wire/Line.antt =====
-- operator/internal/controller/actionsrunner/wire/wire.go: what a wire works on. It is the wire itself,
-- and what all wires share: the variables of the GitHub facade, the world of the Azure DevOps facade
-- and the channel to the operator. A send on that channel is received, unless it was closed.
pub mod Setup
pub mod Violation
pub mod Listener
pub mod Steps
pub mod Rounds
pub mod Ends
pub mod Stops
pub mod Judged
pub mod Handed
pub mod Valid
use kube_actions.Prelude.{
  ℕ, ◌+◌, String, Bool, true, false, List, Option, none, some, if◌then◌else◌,
}
use kube_actions.Prelude.Effect.{pure, fail, crash}
use kube_actions.Prelude.GoMap.{GoMap}
use kube_actions.Prelude.Result.{Result}
use kube_actions.Prelude.Outcome.{Outcome, ok, err, panic}
use kube_actions.Operator.Api.Runner.{ActionsRunner}
use kube_actions.Operator.Token.{Error}
use kube_actions.Operator.Dot.{DotFiles, PrivateKey}
use kube_actions.Operator.Github
use kube_actions.Operator.Github.{Github}
use kube_actions.Operator.Ado
use kube_actions.Operator.Ado.{Azure, AzureDevOps, Plan, ServiceEndpoint}
use kube_actions.Operator.Wire.Context.{DictionaryContextData}
use kube_actions.Operator.Wire.Policy.{Gojq, RuleCache}

-- `chan struct{}` that is only ever closed, or nil.
pub data LoopClose : Type 0 where
  unmade opened closed : LoopClose

-- `JobResources`
pub record JobResources : Type 0 where
  pub endpoints : Option (List ServiceEndpoint)

-- `PipelineAgentJobRequest`, with the fields that the code reads; a timeline is given by its id.
pub record PipelineAgentJobRequest (N : Type 0) : Type 0 where
  pub plan : Option Plan
  pub timeline : Option (Option String)
  pub job_id : Option String
  pub job_display_name : Option String
  pub job_name : Option String
  pub request_id : Option ℕ
  pub resources : Option JobResources
  pub context_data : Option (DictionaryContextData N)

-- The libraries: jq, json, `rsa.GenerateKey` and `strings.ShortenString`.
pub record Ports (N : Type 0) : Type 1 where
  pub github : Github
  pub azure : Azure
  pub gojq : Gojq N
  pub parse_job : String → Result Error (PipelineAgentJobRequest N)
  pub generate_key : azure.World → Result Error PrivateKey × azure.World
  pub shorten : String → ℕ → String

-- The zero value of `dot.Files`.
abbrev pub no_files : DotFiles
no_files = record {
  runner = record {
    agent_id = 0;
    agent_name = "";
    skip_session_recover = false;
    pool_id = 0;
    pool_name = "";
    disable_update = false;
    ephemeral = false;
    server_url = "";
    github_url = "";
    work_folder = "";
    monitor_socket_address = "";
    is_hosted_server = false;
  };
  credentials = record {
    scheme = "";
    credentials_data = record {
      client_id = "";
      authorization_url = "";
      oauth_endpoint_url = "";
      require_fips_cryptography = "";
    };
  };
  rsa_parameters = record {
    d = none;
    dp = none;
    dq = none;
    exponent = none;
    inverse_q = none;
    modulus = none;
    p = none;
    q = none;
  };
}

module _ {N : Type 0} (ports : Ports N) where
  open ports use {github, azure, gojq}

  -- `Wire`; a channel of job requests is given by how many it holds. The runner is not written to.
  pub record Wire : Type 0 where
    pub actions_runner : ActionsRunner
    pub dot_files : Option DotFiles
    pub repository : Option Github.Repository
    pub ado : AzureDevOps azure
    pub job_requests : Option ℕ
    pub loop_close : LoopClose
    pub invalid : Bool
    pub listening : Bool
    pub validator : Option (RuleCache gojq)

  pub record Shared : Type 0 where
    pub variables : Github.Variables github
    pub world : azure.World
    pub notified : ℕ
    pub notifier_closed : Bool

  pub record Line : Type 0 where
    pub wire : Wire
    pub shared : Shared

  -- A call that returns a value and an error.
  abbrev pub Call : Type 0 → Type 0
  Call A = Line → Outcome Error A × Line

  unfoldable pub written : (Wire → Wire) → Call (Unit {0})
  written f s = (ok tt, record s { wire = f s.wire })

  unfoldable pub read : {A : Type 0} → (Line → A) → Call A
  read f s = (ok (f s), s)

  unfoldable pub deref : {A : Type 0} → Option A → Call A
  deref none = crash
  deref (some a) = pure a

  unfoldable pub checked : {A : Type 0} → Result Error A → Call A
  checked (Result.ok a) = pure a
  checked (Result.err e) = fail e

  -- A call of the GitHub facade.
  unfoldable pub to_github : {A : Type 0} → Github.Call github A → Call A
  to_github m s =
      let (o, variables) = m s.shared.variables in
      (o, record s { shared = record (s.shared) { variables = variables } })

  -- What a call of the Azure DevOps facade leaves.
  abbrev pub with_facade : Line → Ado.Facade azure → Line
  with_facade s facade = record {
    wire = record (s.wire) { ado = facade.ado; dot_files = some facade.files };
    shared = record (s.shared) { world = facade.world };
  }

  -- A call of the Azure DevOps facade that reads or writes no files.
  unfoldable pub to_client : {A : Type 0} → Ado.Call azure A → Call A
  to_client m s =
      let (o, facade) = m (record { ado = s.wire.ado; files = no_files; world = s.shared.world }) in
      (
        o,
        record {
          wire = record (s.wire) { ado = facade.ado };
          shared = record (s.shared) { world = facade.world };
        },
      )

  -- A call of the Azure DevOps facade that is given the files of the wire.
  unfoldable pub to_ado : {A : Type 0} → Ado.Call azure A → Call A
  to_ado m s = elim s.wire.dot_files [
    | none ↦ (panic, s)
    | some files ↦
        let (o, facade) = m (record { ado = s.wire.ado; files = files; world = s.shared.world }) in
        (o, with_facade s facade)
  ]

  -- An error is only logged.
  unfoldable pub tried : Call (Unit {0}) → Call (Unit {0})
  tried call s =
      let (o, s') = call s in
      elim o [ ok a ↦ (ok tt, s') | err e ↦ (ok tt, s') | panic ↦ (panic, s') ]

  -- A send on the channel to the operator, which panics if it was closed.
  unfoldable pub notify : Call (Unit {0})
  notify s =
      if s.shared.notifier_closed
      then (panic, s)
      else (ok tt, record s { shared = record (s.shared) { notified = s.shared.notified + 1 } })
