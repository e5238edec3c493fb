-- ===== src/Operator/Github/Credentials.antt =====
-- facades/gh.go: the credentials of a tenant, for the registration and for the removal of a runner.
use Prim.Native.String.{◌++◌ as str_append}
use kube_actions.Prelude.{String, true, false, Option, none, some, if◌then◌else◌}
use kube_actions.Prelude.Effect.{pure, fail, ◌>>=◌, ◌>>◌}
use kube_actions.Prelude.Result
use kube_actions.Prelude.Outcome.{ok}
use kube_actions.Operator.Token.{new_error}
use kube_actions.Operator.Github.{
  Github, Call, called, counted, Repository, TenantCredential, slashed, after_next_minute,
}
use kube_actions.Operator.Github.Answered.{handle_response}
use kube_actions.Operator.Github.Tokens.{
  new_bridge_client_with_registration_token, new_bridge_client_with_remove_token,
}

-- `RunnerEvent`: the two constants, and any other text.
pub data RunnerEvent : Type 0 where
  register remove : RunnerEvent
  another : String → RunnerEvent

-- `string(runnerEvent)`
abbrev pub event_text : RunnerEvent → String
event_text register = "register"
event_text remove = "remove"
event_text (another text) = text

module _ (github : Github) where
  open github use {
    Client, World, now, inc_cache_hit, claimed_expiry, create_tenant_credential, credential_cache,
  }

  -- None on every error: the caller drops it.
  unfoldable pub try_get_tenant_credential : String → Call github (Option TenantCredential)
  try_get_tenant_credential key s =
      let (time, w) = now s.world in
      elim (credential_cache.get s.tenant_credentials time key) [
        | none ↦ (ok none, record s { world = w })
        | some credential ↦ elim (claimed_expiry credential.token) [
          | Result.err e ↦ (ok none, record s { world = w })
          | Result.ok expiry ↦
              let (later, w') = now w in
              (
                ok (if after_next_minute expiry later then some credential else none),
                record s { world = w' },
              )
        ]
      ]

  unfoldable pub bridge_client_for : RunnerEvent → Repository → Call github Client
  unfolding new_bridge_client_with_registration_token new_bridge_client_with_remove_token
  bridge_client_for register repository =
      new_bridge_client_with_registration_token github (some repository)
  bridge_client_for remove repository = new_bridge_client_with_remove_token github (some repository)
  bridge_client_for (another text) repository =
      fail (new_error (str_append "unknown runnerEvent: " text))

  unfoldable pub store_credential : String → TenantCredential → Call github (Unit {0})
  store_credential key credential s =
      let (time, w) = now s.world in
      (
        ok tt,
        record s {
          tenant_credentials =
              credential_cache.set_default s.tenant_credentials time key credential;
          world = w;
        },
      )

  abbrev pub credential_key : RunnerEvent → Repository → String
  credential_key event repository =
      str_append (event_text event)
        (str_append "@" (slashed repository.owner_login repository.name))

  unfoldable pub fetch_credential : RunnerEvent → Repository → Call github TenantCredential
  unfolding bridge_client_for handle_response store_credential
  fetch_credential event repository = do
    client ← bridge_client_for event repository
    reply ← called github (create_tenant_credential client (event_text event) repository.html_url)
    credential ←
        handle_response github client (str_append "bridge-" (credential_key event repository)) reply
    store_credential (credential_key event repository) credential
    pure credential

  unfoldable pub get_tenant_credential :
      Option Repository → RunnerEvent → Call github TenantCredential
  unfolding try_get_tenant_credential fetch_credential
  get_tenant_credential none event = fail (new_error "repository == nil")
  get_tenant_credential (some repository) event = do
    first ← try_get_tenant_credential (credential_key event repository)
    elim first [
      | some credential ↦ counted github (inc_cache_hit "tenantCredential" true) >> pure credential
      | none ↦ do
        second ← try_get_tenant_credential (credential_key event repository)
        elim second [
          | some credential ↦
              counted github (inc_cache_hit "tenantCredential" true) >> pure credential
          | none ↦ do
            counted github (inc_cache_hit "tenantCredential" false)
            fetch_credential event repository
        ]
    ]
