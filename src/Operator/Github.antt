-- ===== src/Operator/Github.antt =====
-- operator/internal/controller/actionsrunner/facades/gh.go: what the facade of GitHub works on. The
-- package's variables are a state that is passed along, and calls of the package are taken one after
-- another. go-github, go-cache, the crypto libraries, the clock and the metrics are the parameter
-- `Github`. A time is a number of nanoseconds, the zero time 0.
pub mod Answered
pub mod Connect
pub mod Repositories
pub mod Tokens
pub mod Credentials
pub mod Quiet
use Prim.Native.String.{◌++◌ as str_append}
use kube_actions.Prelude.{ℕ, ◌+◌, String, Bool, Option, none, some, List, ◌≡◌, ltb}
use kube_actions.Prelude.Result.{Result}
use kube_actions.Prelude.Outcome.{Outcome, ok}
use kube_actions.Operator.Token.{Error}

abbrev pub minute : ℕ
minute = 60000000000

-- `t.After(time.Now().Add(time.Minute))`
abbrev pub after_next_minute : ℕ → ℕ → Bool
after_next_minute t now = ltb (now + minute) t

-- `http.Request`: the method and the URL.
pub record Request : Type 0 where
  pub method : String
  pub url : String

-- `github.Response`
pub record GithubResponse : Type 0 where
  pub status_code : ℕ
  pub status : String
  pub request : Option Request

-- What a call of go-github returns: a value, a response that may be nil, and an error.
pub record Reply (A : Type 0) : Type 0 where
  pub value : A
  pub response : Option GithubResponse
  pub failure : Option Error

-- `oauth2.Token`
pub record OAuthToken : Type 0 where
  pub access_token : String
  pub token_type : String
  pub expiry : ℕ

-- `github.Rate`
pub record Rate : Type 0 where
  pub limit : ℕ
  pub remaining : ℕ

-- `github.Repository`
pub record Repository : Type 0 where
  pub owner_login : String
  pub name : String
  pub private : Bool
  pub html_url : String
  pub git_commits_url : String

-- `github.InstallationToken`, `github.RegistrationToken` and `github.RemoveToken`
pub record Token : Type 0 where
  pub value : String
  pub expires_at : ℕ

-- `github.TenantCredential`
pub record TenantCredential : Type 0 where
  pub token : String
  pub url : String

-- `jwt.Claims`, with the fields that the code sets.
pub record Claims : Type 0 where
  pub issuer : String
  pub expiry : ℕ
  pub issued_at : ℕ

-- `cache.Cache`: `Get` at a time, and `SetDefault` at a time.
pub record GoCache (V : Type 0) : Type 1 where
  pub Store : Type 0
  pub get : Store → ℕ → String → Option V
  pub set_default : Store → ℕ → String → V → Store

-- The environment of the operator; the two lists are what `strings.Split` makes of theirs.
pub record GithubEnvironment : Type 0 where
  pub pat : String
  pub app_id : String
  pub app_pk : String
  pub instl_id : String
  pub owners : List String
  pub visibilities : List String

-- The libraries. `private_key` decodes and parses the key of the app, `signed` makes a signed JWT,
-- `claimed_expiry` reads the expiry in one; `parse_int` is `strconv.ParseInt`.
pub record Github : Type 1 where
  pub World : Type 0
  pub Client : Type 0
  pub PrivateKey : Type 0
  pub now : World → ℕ × World
  pub new_client : OAuthToken → Client
  pub rate_limits : Client → World → Reply (Option Rate) × World
  pub list_installations : Client → World → Reply (List ℕ) × World
  pub create_installation_token : Client → ℕ → World → Reply Token × World
  pub get_repository : Client → String → String → World → Reply Repository × World
  pub create_registration_token : Client → String → String → World → Reply Token × World
  pub create_remove_token : Client → String → String → World → Reply Token × World
  pub create_tenant_credential : Client → String → String → World → Reply TenantCredential × World
  pub set_rate : String → Rate → World → World
  pub inc_api_calls : String → String → String → World → World
  pub inc_cache_hit : String → Bool → World → World
  pub private_key : String → Result Error PrivateKey
  pub signed : PrivateKey → Claims → Result Error String
  pub claimed_expiry : String → Result Error ℕ
  pub parse_int : String → Result Error ℕ
  pub repository_cache : GoCache Repository
  pub container_cache : GoCache ℕ
  pub credential_cache : GoCache TenantCredential

-- `registrationTokenContainer` and `removeTokenContainer`; the rate is a `uint64`.
pub record TokenContainer : Type 0 where
  pub token : Token
  pub rate : ℕ

module _ (github : Github) where
  open github use {World, Client, repository_cache, container_cache, credential_cache}

  -- A cache of pointers to containers, with the containers that were ever allocated.
  pub record TokenCache : Type 0 where
    pub entries : container_cache.Store
    pub next : ℕ
    pub container : ℕ → TokenContainer

  -- The variables of the package, and the rest of the world.
  pub record Variables : Type 0 where
    pub client : Option Client
    pub client_expiry : ℕ
    pub repositories : repository_cache.Store
    pub registration_tokens : TokenCache
    pub remove_tokens : TokenCache
    pub tenant_credentials : credential_cache.Store
    pub world : World

  -- A call that returns a value and an error.
  abbrev pub Call : Type 0 → Type 0
  Call A = Variables → Outcome Error A × Variables

  -- A call of a library.
  unfoldable pub called : {A : Type 0} → (World → A × World) → Call A
  called f s = let (a, w) = f s.world in (ok a, record s { world = w })

  unfoldable pub counted : (World → World) → Call (Unit {0})
  counted f s = (ok tt, record s { world = f s.world })

-- `fmt.Sprintf("%s/%s", …)`
abbrev pub slashed : String → String → String
slashed owner name = str_append owner (str_append "/" name)
