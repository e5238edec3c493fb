-- ===== src/Operator/Token/Unrecoverable.antt =====
-- When the token endpoint's answer is a token, and when it ends the runner.
use kube_actions.Prelude.{
  String, ap, sym, Bool-cases, inl, inr, ◌≡◌, refl, ◌↔◌, Bool, true, false, Option, none, some,
  ◌==◌, arith, eq_iff,
}
use kube_actions.Prelude.Result
use kube_actions.Prelude.Result.{Result}
use kube_actions.Operator.Token.{
  Error, ErrorResponse, Response, error_of, wrap_err, Http, access_token,
  is_err_oauth2_invalid_client, is_task_agent_not_found_exception, is_unrecoverable,
  oauth2_invalid_client, oauth2_invalid_grant, oauth2_invalid_request, oauth2_invalid_scope,
  oauth2_unauthorized_client, oauth2_unsupported_grant_type, new_error,
}

-- Whether the result is an error that ends the runner.
abbrev pub ends_runner : Result Error String → Bool
ends_runner (Result.ok token) = false
ends_runner (Result.err e) = is_unrecoverable e

-- `errors.Is` on the values of oauth2.go and on a new error.
client_errors :
    (text : String)
    → (is_err_oauth2_invalid_client oauth2_invalid_request ≡ false)
      × (is_err_oauth2_invalid_client oauth2_invalid_client ≡ true)
      × (is_err_oauth2_invalid_client oauth2_invalid_grant ≡ false)
      × (is_err_oauth2_invalid_client oauth2_unauthorized_client ≡ false)
      × (is_err_oauth2_invalid_client oauth2_unsupported_grant_type ≡ false)
      × (is_err_oauth2_invalid_client oauth2_invalid_scope ≡ false)
      × (is_err_oauth2_invalid_client (new_error text) ≡ false)
unfolding is_err_oauth2_invalid_client
client_errors text = (refl, refl, refl, refl, refl, refl, refl)

agent_errors :
    (text : String)
    → (is_task_agent_not_found_exception oauth2_invalid_request ≡ false)
      × (is_task_agent_not_found_exception oauth2_invalid_client ≡ false)
      × (is_task_agent_not_found_exception oauth2_invalid_grant ≡ false)
      × (is_task_agent_not_found_exception oauth2_unauthorized_client ≡ false)
      × (is_task_agent_not_found_exception oauth2_unsupported_grant_type ≡ false)
      × (is_task_agent_not_found_exception oauth2_invalid_scope ≡ false)
      × (is_task_agent_not_found_exception (new_error text) ≡ false)
unfolding is_task_agent_not_found_exception
agent_errors text = (refl, refl, refl, refl, refl, refl, refl)

invalid_client_error :
    (res : ErrorResponse)
    → res.error_code ≡ "invalid_client"
    → error_of res ≡ some oauth2_invalid_client
unfolding error_of
invalid_client_error res h = rw h refl

error_of-kind :
    (res : ErrorResponse) (e : Error)
    → error_of res ≡ some e
    → (is_err_oauth2_invalid_client e ≡ (res.error_code == "invalid_client"))
      × (is_task_agent_not_found_exception e ≡ false)
unfolding error_of
error_of-kind res e h = (
  elim (Bool-cases (res.error_code == "invalid_client")) [
    | inl q ↦ ground (
      arith,
      q,
      h,
      invalid_client_error res ((eq_iff res.error_code "invalid_client").0 q),
      client_errors res.error_code,
    )
    | inr q ↦ ground (arith, q, h, client_errors res.error_code)
  ],
  ground (arith, h, agent_errors res.error_code),
)

wrap_err-unrecoverable :
    (res : ErrorResponse) (e : Error)
    → wrap_err res ≡ some e
    → is_unrecoverable e ≡ (res.error_code == "invalid_client")
unfolding wrap_err
wrap_err-unrecoverable res e h = go (error_of res) refl
  where
    go :
        (o : Option Error)
        → error_of res ≡ o
        → is_unrecoverable e ≡ (res.error_code == "invalid_client")
    go none k = ground (arith, h, k)
    go (some x) k = elim (Bool-cases (res.error_description == "")) [
      | inl d ↦ unfold is_unrecoverable in ground (arith, d, k, h, error_of-kind res x k)
      | inr d ↦
          unfold is_unrecoverable is_err_oauth2_invalid_client is_task_agent_not_found_exception in
          ground (arith, d, k, h, error_of-kind res x k)
    ]

wrap_err-none : (res : ErrorResponse) → (wrap_err res ≡ none) ↔ (res.error_code ≡ "")
unfolding wrap_err error_of
wrap_err-none res = (
  λ h. ground (arith, h, eq_iff res.error_code ""),
  λ h. ground (arith, h, eq_iff res.error_code ""),
)

-- If the request is sent and answered: a token is returned exactly when the answer has no error
-- (then it is the answer's token), and the error ends the runner exactly when the answer's is
-- "invalid_client", with or without a description.
pub access_token-answered :
    (http : Http) (endpoint assertion : String) (req : http.Request) (res : Response)
    → http.new_request endpoint assertion ≡ Result.ok req
    → http.fetch_response req ≡ Result.ok res
    → ((access_token http endpoint assertion ≡ Result.ok res.access_token)
        ↔ (res.error_response.error_code ≡ ""))
      × (ends_runner (access_token http endpoint assertion)
          ≡ (res.error_response.error_code == "invalid_client"))
unfolding access_token
access_token-answered http endpoint assertion req res h k = go (wrap_err res.error_response) refl
  where
    go :
        (o : Option Error)
        → wrap_err res.error_response ≡ o
        → ((access_token http endpoint assertion ≡ Result.ok res.access_token)
            ↔ (res.error_response.error_code ≡ ""))
          × (ends_runner (access_token http endpoint assertion)
              ≡ (res.error_response.error_code == "invalid_client"))
    go none e =
        let c = (wrap_err-none res.error_response).0 e in
        rw (h, k, Result.◌>>=◌, e)
          (((λ _. c), (λ _. refl)), (ap (λ t. t == "invalid_client") (sym c)))
    go (some x) e =
        rw (h, k, Result.◌>>=◌, e)
          (
            (
              (λ q. ground (arith, q)),
              (λ c. ground (arith, e, (wrap_err-none res.error_response).1 c)),
            ),
            wrap_err-unrecoverable res.error_response x e,
          )
