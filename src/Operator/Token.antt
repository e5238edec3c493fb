-- ===== src/Operator/Token.antt =====
-- operator/internal/controller/actionsrunner/util/oauth2.go, and with it `IsUnrecoverable` of
-- actionsrunner/wire/errors.go: the errors of the token endpoint, and which of them end a runner.
-- The HTTP request and the decoding of its answer are parameters.
pub mod Unrecoverable
use Prim.Native.String.{◌++◌ as str_append}
use kube_actions.Prelude.{String, Bool, true, false, Option, none, some, ◌==◌, if◌then◌else◌, ◌||◌}
use kube_actions.Prelude.Result
use kube_actions.Prelude.Result.{Result, ◌>>=◌}

-- Go's errors, as far as this code tells them apart: the six values of oauth2.go, an
-- `errors.New`, a `fmt.Errorf("%s: %w")`, a `WrappedError` of Azure DevOps with its type key, and
-- any other.
pub data Error : Type 0 where
  oauth2_invalid_request oauth2_invalid_client oauth2_invalid_grant oauth2_unauthorized_client
        oauth2_unsupported_grant_type oauth2_invalid_scope :
      Error
  new_error : String → Error
  wrapped : String → Error → Error
  azure_wrapped_error : Option String → Error
  other_error : String → Error

pub record ErrorResponse : Type 0 where
  pub error_code : String
  pub error_description : String
  pub error_uri : String

pub record Response : Type 0 where
  pub access_token : String
  pub error_response : ErrorResponse

-- The method `error`: no error if the text is empty.
unfoldable pub error_of : ErrorResponse → Option Error
error_of er =
    if er.error_code == ""
    then none
    else if er.error_code == "invalid_request"
    then some oauth2_invalid_request
    else if er.error_code == "invalid_client"
    then some oauth2_invalid_client
    else if er.error_code == "invalid_grant"
    then some oauth2_invalid_grant
    else if er.error_code == "unauthorized_client"
    then some oauth2_unauthorized_client
    else if er.error_code == "unsupported_grant_type"
    then some oauth2_unsupported_grant_type
    else if er.error_code == "invalid_scope"
    then some oauth2_invalid_scope
    else some (new_error er.error_code)

unfoldable pub wrap_err : ErrorResponse → Option Error
unfolding error_of
wrap_err res = elim (error_of res) [
  | none ↦ none
  | some e ↦ if res.error_description == "" then some e else some (wrapped res.error_description e)
]

-- `newRequest` and `fetchResponse`
pub record Http : Type 1 where
  pub Request : Type 0
  pub new_request : String → String → Result Error Request
  pub fetch_response : Request → Result Error Response

unfoldable pub access_token : Http → String → String → Result Error String
unfolding wrap_err
access_token http token_endpoint client_assertion =
    http.new_request token_endpoint client_assertion >>= λ req. http.fetch_response req >>= λ res.
    elim (wrap_err res.error_response) [ some e ↦ Result.err e | none ↦ Result.ok res.access_token ]

-- `errors.Is(err, ErrOAuth2InvalidClient)`, which looks through `%w`.
unfoldable pub is_err_oauth2_invalid_client : Error → Bool
is_err_oauth2_invalid_client oauth2_invalid_client = true
is_err_oauth2_invalid_client (wrapped text e) = is_err_oauth2_invalid_client e
is_err_oauth2_invalid_client e = false

-- A type assertion, which does not look through `%w`.
unfoldable pub is_task_agent_not_found_exception : Error → Bool
is_task_agent_not_found_exception (azure_wrapped_error (some key)) =
    key == "TaskAgentNotFoundException"
is_task_agent_not_found_exception e = false

unfoldable pub is_unrecoverable : Error → Bool
unfolding is_err_oauth2_invalid_client is_task_agent_not_found_exception
is_unrecoverable e = is_err_oauth2_invalid_client e || is_task_agent_not_found_exception e
