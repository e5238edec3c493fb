-- ===== src/Operator/Github/Tokens.antt =====
-- facades/gh.go: the registration tokens and the remove tokens, each handed out a limited number of
-- times. The two halves of the code differ in the cache, in the call and in the metric's label, which
-- a `Kind` selects.
pub mod Rate
pub mod Limit
use kube_actions.Prelude.{
  ℕ, ◌+◌, ◌%◌, String, Bool, true, false, not, Option, none, some, ◌||◌, leb, nat_eq, if◌then◌else◌,
}
use Prim.Native.Nat.{◌^◌}
use kube_actions.Prelude.Effect.{pure, fail, ◌>>=◌, ◌>>◌}
use kube_actions.Prelude.Outcome.{Outcome, ok, err, panic}
use kube_actions.Operator.Token.{Error, new_error}
use kube_actions.Operator.Github.{
  Github, Variables, TokenCache, TokenContainer, Call, called, counted, Repository, Token, Reply,
  OAuthToken, slashed, after_next_minute,
}
use kube_actions.Operator.Github.Answered.{handle_response, collect_rate_limit_metrics}
use kube_actions.Operator.Github.Connect.{with_client}

-- `githubRegistrationTokens` or `githubRemoveTokens`
pub data Kind : Type 0 where
  registration remove : Kind

-- `atomic.AddUint64(&rate, 1)`
unfoldable pub add_uint64 : ℕ → ℕ
add_uint64 rate = (rate + 1) % 2 ^ 64

abbrev pub write_at : (ℕ → TokenContainer) → ℕ → TokenContainer → ℕ → TokenContainer
write_at container p c q = if nat_eq p q then c else container q

module _ (github : Github) where
  open github use {
    Client, World, now, new_client, inc_cache_hit, create_registration_token, create_remove_token,
    container_cache,
  }

  abbrev pub cache_of : Kind → Variables github → TokenCache github
  cache_of registration s = s.registration_tokens
  cache_of remove s = s.remove_tokens

  abbrev pub set_cache : Kind → TokenCache github → Variables github → Variables github
  set_cache registration cache s = record s { registration_tokens = cache }
  set_cache remove cache s = record s { remove_tokens = cache }

  -- The rate of a container, counted up.
  abbrev pub count_up : ℕ → TokenCache github → TokenCache github
  count_up p cache = record cache {
    container =
        write_at cache.container p
          (record (cache.container p) { rate = add_uint64 (cache.container p).rate });
  }

  -- A new container, which the cache points to from now on.
  abbrev pub add_container : String → ℕ → Token → TokenCache github → TokenCache github
  add_container key time token cache = record {
    entries = container_cache.set_default cache.entries time key cache.next;
    next = cache.next + 1;
    container = write_at cache.container cache.next (record { token = token; rate = 0 });
  }

  -- The pointer to the container in place of its token: the rate is counted up on a refusal too. The
  -- clock is read for the cache, and again only for a token with a rate below the limit.
  unfoldable pub try_get_token : Kind → String → Call github (Option ℕ)
  unfolding add_uint64
  try_get_token kind key s =
      let (time, w) = now s.world in
      elim (container_cache.get (cache_of kind s).entries time key) [
        | none ↦ (ok none, record s { world = w })
        | some p ↦
            let cache = count_up p (cache_of kind s) in
            if leb 60 (cache.container p).rate
            then (ok none, set_cache kind cache (record s { world = w }))
            else (let (later, w') = now w in
                (
                  ok (
                      if after_next_minute (cache.container p).token.expires_at later
                      then some p
                      else none),
                  set_cache kind cache (record s { world = w' }),
                ))
      ]

  abbrev pub label : Kind → String
  label registration = "registrationToken"
  label remove = "removeToken"

  -- The call that makes a token.
  abbrev pub create_token : Kind → Client → String → String → World → Reply Token × World
  create_token registration = create_registration_token
  create_token remove = create_remove_token

  -- `SetDefault` of a new container; its pointer is the result.
  unfoldable pub store_token : Kind → String → Token → Call github ℕ
  store_token kind key token s =
      let (time, w) = now s.world in
      (
        ok (cache_of kind s).next,
        set_cache kind (add_container key time token (cache_of kind s)) (record s { world = w }),
      )

  unfoldable pub fetch_token : Kind → Client → Repository → Call github ℕ
  unfolding handle_response store_token
  fetch_token kind client repository = do
    reply ← called github (create_token kind client repository.owner_login repository.name)
    token ← handle_response github client "entry" reply
    store_token kind (slashed repository.owner_login repository.name) token

  -- The container whose token is returned: one that is cached, or else a new one.
  unfoldable pub get_container : Kind → Repository → Call github ℕ
  unfolding try_get_token fetch_token with_client
  get_container kind repository = do
    let key = slashed repository.owner_login repository.name
    first ← try_get_token kind key
    elim first [
      | some p ↦ counted github (inc_cache_hit (label kind) true) >> pure p
      | none ↦ do
        second ← try_get_token kind key
        elim second [
          | some p ↦ counted github (inc_cache_hit (label kind) true) >> pure p
          | none ↦ do
            counted github (inc_cache_hit (label kind) false)
            with_client github (λ client. fetch_token kind client repository)
        ]
    ]

  -- The token in a container.
  abbrev pub token_at : Kind → ℕ → Call github Token
  token_at kind p s = (ok ((cache_of kind s).container p).token, s)

  unfoldable pub get_registration_token : Option Repository → Call github Token
  unfolding get_container
  get_registration_token none = fail (new_error "repository == nil")
  get_registration_token (some repository) =
      get_container registration repository >>= token_at registration

  unfoldable pub get_remove_token : Option Repository → Call github Token
  unfolding get_container
  get_remove_token none = fail (new_error "repository == nil")
  get_remove_token (some repository) = get_container remove repository >>= token_at remove

  -- `TokenType: "RemoteAuth"`
  unfoldable pub bridge_client : Token → Call github Client
  unfolding collect_rate_limit_metrics
  bridge_client token = do
    let client =
        new_client (record { access_token = token.value; token_type = "RemoteAuth"; expiry = 0 })
    collect_rate_limit_metrics github (some client) "bridge"
    pure client

  unfoldable pub new_bridge_client_with_registration_token : Option Repository → Call github Client
  unfolding get_registration_token bridge_client
  new_bridge_client_with_registration_token repository =
      get_registration_token repository >>= bridge_client

  unfoldable pub new_bridge_client_with_remove_token : Option Repository → Call github Client
  unfolding get_remove_token bridge_client
  new_bridge_client_with_remove_token repository = get_remove_token repository >>= bridge_client
