-- ===== src/Operator/Github/Connect/Keeps.antt =====
-- What `initGitHubClient` of facades/gh.go keeps.
use kube_actions.Prelude.{ℕ, arith, some, List, [], ◌∷◌, ◌==◌}
use kube_actions.Prelude.Effect.{Ensures-bind, Ensures-if}
use kube_actions.Prelude.Result.{Result}
use kube_actions.Operator.Token.{Error}
use kube_actions.Operator.Github.{Github, Variables, GithubEnvironment, OAuthToken}
use kube_actions.Operator.Github.Connect.{
  checked, get_app_token, new_app_client, installation_id, get_installation_token,
  only_installation, client_is_good, client_token, set_client, renew_client, init_client,
}
use kube_actions.Operator.Github.Quiet.{
  Kept, called-Kept, pure-Kept, fail-Kept, handle_response-Kept, collect_rate_limit_metrics-Kept,
}

module _ (github : Github) (environment : GithubEnvironment) (P : Variables github → Type 0)
    (steady : (s : Variables github) (w : github.World) → P s → P (record s { world = w }))
    (renewed : (s : Variables github) (client : github.Client) (expiry : ℕ)
      → P s
      → P (record s { client = some client; client_expiry = expiry })) where
  checked-Kept : {A : Type 0} (r : Result Error A) → Kept github P steady (checked github r)
  checked-Kept (Result.ok a) = pure-Kept github P steady a
  checked-Kept (Result.err e) = fail-Kept github P steady e

  get_app_token-Kept : Kept github P steady (get_app_token github environment)
  unfolding get_app_token
  get_app_token-Kept =
      Ensures-if (environment.app_id == "") (λ _. fail-Kept github P steady _)
        λ _.
          Ensures-if (environment.app_pk == "") (λ _. fail-Kept github P steady _)
            λ _.
              Ensures-bind (checked-Kept _)
                λ key. Ensures-bind (called-Kept github P steady _) λ (time : ℕ). checked-Kept _

  new_app_client-Kept : Kept github P steady (new_app_client github environment)
  unfolding new_app_client
  new_app_client-Kept = Ensures-bind get_app_token-Kept λ token. pure-Kept github P steady _

  only_installation-Kept :
      (installations : List ℕ) → Kept github P steady (only_installation github installations)
  unfolding only_installation
  only_installation-Kept [] = fail-Kept github P steady _
  only_installation-Kept (id ∷ []) = pure-Kept github P steady _
  only_installation-Kept (id ∷ other ∷ others) = fail-Kept github P steady _

  get_installation_token-Kept :
      (client : github.Client)
      → Kept github P steady (get_installation_token github environment client)
  unfolding get_installation_token installation_id
  get_installation_token-Kept client =
      Ensures-bind
        (Ensures-if (environment.instl_id == "")
          (λ _. Ensures-bind (called-Kept github P steady _) λ reply.
            Ensures-bind (handle_response-Kept github P steady client "app" reply)
              only_installation-Kept)
          (λ _. checked-Kept _))
        λ (id : ℕ).
          Ensures-bind (called-Kept github P steady _)
            λ reply. handle_response-Kept github P steady client "app" reply

  client_token-Kept : Kept github P steady (client_token github environment)
  unfolding client_token
  client_token-Kept =
      Ensures-if (environment.pat == "")
        (λ _. Ensures-bind new_app_client-Kept λ client.
          Ensures-bind (get_installation_token-Kept client) λ token. pure-Kept github P steady _)
        (λ _. pure-Kept github P steady _)

  set_client-Kept :
      (client : github.Client) (expiry : ℕ) → Kept github P steady (set_client github client expiry)
  unfolding set_client
  set_client-Kept client expiry = record { run = λ s p. renewed s client expiry p }

  renew_client-Kept : Kept github P steady (renew_client github environment)
  unfolding renew_client
  renew_client-Kept = Ensures-bind client_token-Kept λ (token : OAuthToken).
      Ensures-bind
        (collect_rate_limit_metrics-Kept github P steady (some (github.new_client token)) "")
        λ _. set_client-Kept (github.new_client token) token.expiry

  client_is_good-Kept : Kept github P steady (client_is_good github)
  unfolding client_is_good
  client_is_good-Kept = record { run = λ s p. ground (arith, p, steady s (github.now s.world).1 p) }

  -- A client that is still good is kept; another one is set.
  pub init_client-Kept : Kept github P steady (init_client github environment)
  unfolding init_client
  init_client-Kept =
      Ensures-bind client_is_good-Kept
        λ good. Ensures-if good (λ _. pure-Kept github P steady _) (λ _. renew_client-Kept)
