-- ===== src/Operator/Ado.antt =====
-- operator/internal/controller/actionsrunner/facades/ado.go: what the facade of Azure DevOps works on.
-- The clients of azure-devops-go-api, the token endpoint, the clock and the crypto libraries are the
-- parameter `Azure`. The state is the facade with the files of its runner, and the rest of the world.
pub mod Properties
pub mod Assertion
pub mod Agent
pub mod Session
pub mod Job
pub mod Kept
pub mod Held
pub mod Opened
pub mod Lifecycle
use kube_actions.Prelude.{ℕ, String, Bool, List, Option, none, some}
use kube_actions.Prelude.Effect.{pure, fail, crash}
use kube_actions.Prelude.Result.{Result}
use kube_actions.Prelude.Outcome.{Outcome, ok, err, panic}
use kube_actions.Operator.Token.{Error, Http, new_error}
use kube_actions.Operator.Dot.{DotFiles, PrivateKey}
use Properties.{Value}

-- `azuredevops.Connection`
pub record Connection : Type 0 where
  pub authorization_string : String
  pub base_url : String

-- `taskagent.TaskAgentPublicKey`
pub record PublicKey : Type 0 where
  pub key_exponent : Option (List ℕ)
  pub key_modulus : Option (List ℕ)

-- `taskagent.TaskAgentAuthorization`
pub record Authorization : Type 0 where
  pub public_key : Option PublicKey
  pub agent_client_id : Option String
  pub agent_authorization_url : Option String

-- `taskagent.TaskAgent`, with the fields that the code reads or sets.
pub record TaskAgent : Type 0 where
  pub links : Option String
  pub access_point : Option String
  pub enabled : Option Bool
  pub id : Option ℕ
  pub name : Option String
  pub os_description : Option String
  pub provisioning_state : Option String
  pub status : Option String
  pub version : Option String
  pub disable_update : Option Bool
  pub agent_labels : Option (List String)
  pub authorization : Option Authorization
  pub properties : Value

-- `taskagent.TaskAgentReference`
pub record TaskAgentReference : Type 0 where
  pub links : Option String
  pub access_point : Option String
  pub enabled : Option Bool
  pub id : Option ℕ
  pub name : Option String
  pub os_description : Option String
  pub provisioning_state : Option String
  pub status : Option String
  pub version : Option String

-- `taskagent.TaskAgentSession`, as it is asked for and as it is answered.
pub record SessionRequest : Type 0 where
  pub agent : TaskAgentReference
  pub owner_name : String

pub record EncryptionKey : Type 0 where
  pub encrypted : Option Bool
  pub key_value : Option (List ℕ)

pub record TaskAgentSession : Type 0 where
  pub session_id : Option String
  pub encryption_key : Option EncryptionKey
  pub use_fips_encryption : Option Bool

-- An error of `CreateAgentSession`: a `json.UnmarshalTypeError`, or any other.
pub data SessionError : Type 0 where
  unmarshal_type_error : String → String → String → SessionError
  plain : Error → SessionError

pub record TaskAgentMessage : Type 0 where
  pub message_id : Option ℕ
  pub message_type : Option String
  pub body : Option String
  pub iv : Option (List ℕ)

-- The two hashes of `rsa.DecryptOAEP`.
pub data Hash : Type 0 where
  sha1 sha256 : Hash

-- `pkcs7.EncryptedContentInfo` of AES-128 in CBC mode, with the parameters that vary.
pub record EncryptedContentInfo : Type 0 where
  pub initialization : List ℕ
  pub encrypted_content : List ℕ

-- `jwt.Claims` of a client assertion; the times are seconds.
pub record AssertionClaims : Type 0 where
  pub issuer : String
  pub subject : String
  pub audience : String
  pub expiry : ℕ
  pub not_before : ℕ
  pub issued_at : ℕ
  pub claims_id : String

-- `serviceendpoint.ServiceEndpoint` and its `EndpointAuthorization`.
pub record EndpointAuthorization : Type 0 where
  pub scheme : Option String
  pub parameters : Option (List (String × String))

pub record ServiceEndpoint : Type 0 where
  pub name : Option String
  pub url : Option String
  pub endpoint_authorization : Option EndpointAuthorization

-- `task.TaskOrchestrationPlanReference`
pub record Plan : Type 0 where
  pub scope_identifier : Option String
  pub plan_type : Option String
  pub plan_id : Option String

-- `task.IssueType`: the two values that the code knows, and any other.
pub data IssueType : Type 0 where
  error_issue warning_issue : IssueType
  other_issue : String → IssueType

-- The result of a record and of a job: `task.TaskResultValues.Failed` is the one that is used.
pub record TimelineRecord : Type 0 where
  pub record_type : String
  pub record_id : Option String
  pub ref_name : Option String
  pub record_name : Option String
  pub state : String
  pub result : String
  pub worker_name : String
  pub issues : List (IssueType × String)
  pub error_count : ℕ
  pub warning_count : ℕ

pub record JobEvent : Type 0 where
  pub event_name : String
  pub job_id : Option String
  pub request_id : Option ℕ
  pub event_result : String

-- The libraries. A call of `taskagent.Client` has the pool first; `orchid` reads the claim of that
-- name in a signed JWT; `endpoint` is the token endpoint as it answers at that time.
pub record Azure : Type 1 where
  pub World : Type 0
  pub Client : Type 0
  pub TaskClient : Type 0
  pub agent_version : String
  pub goos : String
  pub goarch : String
  pub new_client : Connection → World → Result Error Client × World
  pub get_agent : Client → ℕ → Option ℕ → World → Result Error TaskAgent × World
  pub get_agents : Client → ℕ → Option String → World → Option (List TaskAgent) × World
  pub add_agent : Client → ℕ → TaskAgent → World → Result Error TaskAgent × World
  pub replace_agent : Client → ℕ → Option ℕ → TaskAgent → World → Result Error TaskAgent × World
  pub delete_agent : Client → ℕ → Option ℕ → World → Option Error × World
  pub create_agent_session :
      Client → ℕ → SessionRequest → World → (Option TaskAgentSession × Option SessionError) × World
  pub delete_agent_session : Client → ℕ → Option String → World → Option Error × World
  pub get_message :
      Client → ℕ → Option String → Option ℕ → World → Result Error (Option TaskAgentMessage) × World
  pub delete_message : Client → ℕ → ℕ → Option String → World → Option Error × World
  pub update_agent_request : Client → ℕ → Option ℕ → Option String → World → Option Error × World
  pub new_task_client : Connection → World → TaskClient × World
  pub update_records :
      TaskClient → Plan → Option String → List TimelineRecord → World → Option Error × World
  pub raise_plan_event : TaskClient → Plan → JobEvent → World → Option Error × World
  pub now : World → ℕ × World
  pub new_uuid : World → String × World
  pub signed : Option PrivateKey → AssertionClaims → Result Error String
  pub Endpoint : Type 0
  pub endpoint : World → Endpoint × World
  pub http : Endpoint → Http
  pub decrypt_oaep : Hash → Option PrivateKey → List ℕ → Result Error (List ℕ)
  pub decode_base64 : String → Result Error (List ℕ)
  pub decrypt : EncryptedContentInfo → List ℕ → Result Error (List ℕ)
  pub decode_utf8 : List ℕ → Result Error String
  pub orchid : String → Result Error String

-- `poolId`
abbrev pub pool_id : ℕ
pool_id = 1

module _ (azure : Azure) where
  open azure use {World, Client, TaskClient}

  -- `AzureDevOps`; `LocationClient` is used nowhere.
  pub record AzureDevOps : Type 0 where
    pub rsa_private_key : Option PrivateKey
    pub connection : Option Connection
    pub task_agent_client : Option Client
    pub task_agent : Option TaskAgent
    pub bridge_connection : Option Connection
    pub task_agent_bridge_client : Option Client
    pub task_agent_session : Option TaskAgentSession
    pub plan : Option Plan
    pub timeline : Option String
    pub job_connection : Option Connection
    pub task_client : Option TaskClient

  -- The facade, the files of its runner, and the rest of the world.
  pub record Facade : Type 0 where
    pub ado : AzureDevOps
    pub files : DotFiles
    pub world : World

  -- A call that returns a value and an error.
  abbrev pub Call : Type 0 → Type 0
  Call A = Facade → Outcome Error A × Facade

  -- A call of a library that cannot fail.
  unfoldable pub called : {A : Type 0} → (World → A × World) → Call A
  called f s = let (a, w) = f s.world in (ok a, record s { world = w })

  -- One that returns a value and an error.
  unfoldable pub asked : {A : Type 0} → (World → Result Error A × World) → Call A
  asked f s =
      let (r, w) = f s.world in
      elim r [
        | Result.ok a ↦ (ok a, record s { world = w })
        | Result.err e ↦ (err e, record s { world = w })
      ]

  -- One that returns an error.
  unfoldable pub told : (World → Option Error × World) → Call (Unit {0})
  told f s =
      let (e, w) = f s.world in
      elim e [ none ↦ (ok tt, record s { world = w }) | some e ↦ (err e, record s { world = w }) ]

  -- A write to the facade's fields or to the files.
  unfoldable pub written : (Facade → Facade) → Call (Unit {0})
  written f s = (ok tt, f s)

  unfoldable pub read : {A : Type 0} → (Facade → A) → Call A
  read f s = (ok (f s), s)

  unfoldable pub checked : {A : Type 0} → Result Error A → Call A
  checked (Result.ok a) = pure a
  checked (Result.err e) = fail e

  -- `if x == nil { return errors.New(…) }`
  unfoldable pub required : {A : Type 0} → Option A → String → Call A
  required none text = fail (new_error text)
  required (some a) text = pure a

  -- `*x`
  unfoldable pub deref : {A : Type 0} → Option A → Call A
  deref none = crash
  deref (some a) = pure a
