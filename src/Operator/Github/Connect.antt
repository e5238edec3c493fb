-- ===== src/Operator/Github/Connect.antt =====
-- facades/gh.go: the tokens of the GitHub app, and `initGitHubClient`.
pub mod Keeps
use kube_actions.Prelude.{
  ℕ, ◌+◌, ◌*◌, String, Bool, true, false, Option, none, some, List, [], ◌∷◌, ◌||◌, ◌==◌, nat_eq,
  if◌then◌else◌,
}
use kube_actions.Prelude.Effect.{pure, fail, ◌>>=◌, ◌>>◌}
use kube_actions.Prelude.Result
use kube_actions.Prelude.Result.{Result}
use kube_actions.Prelude.Outcome.{Outcome, ok, err, panic}
use kube_actions.Operator.Token.{Error, new_error}
use kube_actions.Operator.Github.{
  Github, Variables, GithubEnvironment, Call, called, Token, OAuthToken, minute, after_next_minute,
}
use kube_actions.Operator.Github.Answered.{handle_response, collect_rate_limit_metrics}

module _ (github : Github) where
  open github use {
    Client, PrivateKey, World, now, new_client, private_key, signed, parse_int, list_installations,
    create_installation_token,
  }

  -- `if err != nil { return err }` after a call that reads and writes nothing.
  abbrev pub checked : {A : Type 0} → Result Error A → Call github A
  checked (Result.ok a) = pure a
  checked (Result.err e) = fail e

  -- The JWT of the app, for ten minutes from now.
  unfoldable pub get_app_token : GithubEnvironment → Call github String
  get_app_token environment =
      if environment.app_id == ""
      then fail (new_error "githubAppId == \"\"")
      else if environment.app_pk == ""
      then fail (new_error "githubAppPK == \"\"")
      else do
        key ← checked (private_key environment.app_pk)
        time ← called github now
        checked (
            signed key (record {
              issuer = environment.app_id;
              expiry = time + 10 * minute;
              issued_at = time;
            }))

  unfoldable pub new_app_client : GithubEnvironment → Call github Client
  unfolding get_app_token
  new_app_client environment = do
    token ← get_app_token environment
    pure (new_client (record { access_token = token; token_type = ""; expiry = 0 }))

  unfoldable pub only_installation : List ℕ → Call github ℕ
  only_installation (id ∷ []) = pure id
  only_installation installations = fail (new_error "len(installations) != 1")

  -- The installation that is configured, or else the only one there is.
  unfoldable pub installation_id : GithubEnvironment → Client → Call github ℕ
  unfolding handle_response only_installation
  installation_id environment app_client =
      if environment.instl_id == ""
      then (do
        reply ← called github (list_installations app_client)
        installations ← handle_response github app_client "app" reply
        only_installation installations)
      else checked (parse_int environment.instl_id)

  unfoldable pub get_installation_token : GithubEnvironment → Client → Call github Token
  unfolding installation_id handle_response
  get_installation_token environment app_client = do
    id ← installation_id environment app_client
    reply ← called github (create_installation_token app_client id)
    handle_response github app_client "app" reply

  -- The personal access token, which never expires, or else one of the app's installation.
  unfoldable pub client_token : GithubEnvironment → Call github OAuthToken
  unfolding new_app_client get_installation_token
  client_token environment =
      if environment.pat == ""
      then (do
        app_client ← new_app_client environment
        token ← get_installation_token environment app_client
        pure (record { access_token = token.value; token_type = ""; expiry = token.expires_at }))
      else pure (record { access_token = environment.pat; token_type = ""; expiry = 0 })

  -- `githubClient = client` and `githubClientExpiry = token.Expiry`
  unfoldable pub set_client : Client → ℕ → Call github (Unit {0})
  set_client client expiry s = (ok tt, record s { client = some client; client_expiry = expiry })

  unfoldable pub renew_client : GithubEnvironment → Call github (Unit {0})
  unfolding client_token collect_rate_limit_metrics set_client
  renew_client environment = do
    token ← client_token environment
    let client = new_client token
    collect_rate_limit_metrics github (some client) ""
    set_client client token.expiry

  -- The condition of `initGitHubClient`: there is a client, and it has no expiry or one that is more
  -- than a minute away. The clock is read only in the last case.
  unfoldable pub client_is_good : Call github Bool
  client_is_good s = elim s.client [
    | none ↦ (ok false, s)
    | some client ↦
        if nat_eq s.client_expiry 0
        then (ok true, s)
        else (let (time, w) = now s.world in
            (ok (after_next_minute s.client_expiry time), record s { world = w }))
  ]

  unfoldable pub init_client : GithubEnvironment → Call github (Unit {0})
  unfolding client_is_good renew_client
  init_client environment = do
    good ← client_is_good
    (if good then pure tt else renew_client environment)

  -- The client is a variable of the package.
  unfoldable pub with_client : {A : Type 0} → (Client → Call github A) → Call github A
  with_client go_on s = elim s.client [
    | none ↦ (err (new_error "githubClient == nil"), s)
    | some client ↦ go_on client s
  ]
