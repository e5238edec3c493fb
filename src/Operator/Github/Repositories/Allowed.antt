-- ===== src/Operator/Github/Repositories/Allowed.antt =====
-- Which repositories the facade of GitHub hands out, the cache included.
use kube_actions.Prelude.{
  ℕ, ◌≡◌, refl, sym, subst, String, true, false, not, Option, none, some, List, [], ◌∷◌, ◌||◌, ◌==◌,
  ◌⊎◌, inl, inr, if◌then◌else◌, arith,
}
use kube_actions.Prelude.Effect.{
  Ensures, Ensures-bind, Ensures-if, Post, pure, ◌>>◌, fail-Ensures, Ensures-option, Ensures-weaken,
  pure-Ensures,
}
use kube_actions.Prelude.Outcome.{Outcome, ok, err, panic}
use kube_actions.Operator.Token.{Error, new_error}
use kube_actions.Operator.Github.{
  Github, counted, GoCache, Variables, GithubEnvironment, Repository, Reply, Call,
}
use kube_actions.Operator.Github.Quiet.{called-Kept, counted-Kept, handle_response-Kept}
use kube_actions.Operator.Github.Connect.{with_client}
use kube_actions.Operator.Github.Connect.Keeps.{init_client-Kept}
use kube_actions.Operator.Github.Repositories.{
  in_owners, Visibilities, add_visibilities, visibilities_of, not_in_visibilities,
  cached_repository, store_repository, fetch_repository, get_github_repository, init,
}

-- A cache hands out what was stored under the key, if anything.
pub record Forgets {V : Type 0} (cache : GoCache V) : Type 0 where
  pub get-set_default :
      (store : cache.Store) (time later : ℕ) (key asked : String) (v u : V)
      → cache.get (cache.set_default store time key v) later asked ≡ some u
      → (u ≡ v) ⊎ (cache.get store later asked ≡ some u)

-- A word of the environment allows the visibility of the repository.
abbrev pub Visible : List String → Repository → Type 0
Visible words repository = elim repository.private [
  | true ↦ (in_owners words "priv" ≡ true) ⊎ (in_owners words "private" ≡ true)
  | false ↦ (in_owners words "pub" ≡ true) ⊎ (in_owners words "public" ≡ true)
]

-- The owner and the visibility of a repository are in the environment's lists.
pub record IsAllowed (environment : GithubEnvironment) (repository : Repository) : Type 0 where
  pub owner : in_owners environment.owners repository.owner_login ≡ true
  pub visible : Visible environment.visibilities repository

add_visibilities-public :
    (allowed : Visibilities) (words : List String)
    → (add_visibilities allowed words).repo_public ≡ true
    → (allowed.repo_public ≡ true)
      ⊎ ((in_owners words "pub" ≡ true) ⊎ (in_owners words "public" ≡ true))
unfolding add_visibilities in_owners
add_visibilities-public allowed [] h = inl h
add_visibilities-public allowed (word ∷ words) h = ground (
  arith,
  add_visibilities-public
      (if (word == "pub") || (word == "public")
        then record allowed { repo_public = true }
        else if (word == "priv") || (word == "private")
        then record allowed { repo_private = true }
        else allowed)
      words h,
)

add_visibilities-private :
    (allowed : Visibilities) (words : List String)
    → (add_visibilities allowed words).repo_private ≡ true
    → (allowed.repo_private ≡ true)
      ⊎ ((in_owners words "priv" ≡ true) ⊎ (in_owners words "private" ≡ true))
unfolding add_visibilities in_owners
add_visibilities-private allowed [] h = inl h
add_visibilities-private allowed (word ∷ words) h = ground (
  arith,
  add_visibilities-private
      (if (word == "pub") || (word == "public")
        then record allowed { repo_public = true }
        else if (word == "priv") || (word == "private")
        then record allowed { repo_private = true }
        else allowed)
      words h,
)

visible_lem :
    (words : List String) (repository : Repository)
    → not_in_visibilities (visibilities_of words) repository ≡ false
    → Visible words repository
unfolding not_in_visibilities visibilities_of
visible_lem words repository h =
    let start : Visibilities = record { repo_public = false; repo_private = false } in
    ground (arith, h, add_visibilities-public start words, add_visibilities-private start words)

allowed_lem :
    {environment : GithubEnvironment} (r : Repository)
    → not (in_owners environment.owners r.owner_login) ≡ false
    → not_in_visibilities (visibilities_of environment.visibilities) r ≡ false
    → IsAllowed environment r
allowed_lem {environment} r owned seen = record {
  owner = ground arith;
  visible = visible_lem environment.visibilities r seen;
}

module _ (github : Github) (environment : GithubEnvironment)
    (forgets : Forgets github.repository_cache) where
  open github use {repository_cache}

  -- Every repository that a lookup can find, at any time, is allowed.
  abbrev pub CachesAllowed : Variables github → Type 0
  CachesAllowed s =
      (time : ℕ) (key : String) (r : Repository)
      → repository_cache.get s.repositories time key ≡ some r
      → IsAllowed environment r

  abbrev Found : Option Repository → Variables github → Type 0
  Found found s = CachesAllowed s × ((r : Repository) → found ≡ some r → IsAllowed environment r)

  abbrev Returned : Repository → Variables github → Type 0
  Returned r s = CachesAllowed s × IsAllowed environment r

  cached_repository-Found :
      (key : String)
      → Ensures CachesAllowed (cached_repository github environment key) Found CachesAllowed
  unfolding cached_repository
  cached_repository-Found key = record { run = λ s p. (p, λ r found. p _ key r found) }

  store_repository-Returned :
      (key : String) (r : Repository)
      → IsAllowed environment r
      → Ensures CachesAllowed
          (store_repository github environment key r)
          (λ _. CachesAllowed)
          CachesAllowed
  unfolding store_repository
  store_repository-Returned key r allowed = record {
    run = λ s p time asked found h.
        elim (forgets.get-set_default s.repositories _ time key asked r found h) [
          | inl same ↦ subst (IsAllowed environment) (sym same) allowed
          | inr old ↦ p time asked found old
        ];
  }

  fetch_repository-Returned :
      (client : github.Client) (owner name : String)
      → Ensures CachesAllowed
          (fetch_repository github environment client owner name)
          Returned
          CachesAllowed
  unfolding fetch_repository
  fetch_repository-Returned client owner name =
      Ensures-bind (called-Kept github CachesAllowed (λ s w p. p) _) λ (reply : Reply Repository).
        Ensures-bind (handle_response-Kept github CachesAllowed (λ s w p. p) client "entry" reply)
          λ (r : Repository).
            Ensures-if (not (in_owners environment.owners r.owner_login)) (λ _. fail-Ensures _)
              λ owned.
                Ensures-if (not_in_visibilities (visibilities_of environment.visibilities) r)
                  (λ _. fail-Ensures _)
                  λ seen.
                    let allowed = allowed_lem r owned seen in
                    Ensures-bind (store_repository-Returned _ r allowed)
                      λ _. pure-Ensures r λ s p. (p, allowed)

  with_client-Returned :
      (go_on : github.Client → Call github Repository)
      → ((client : github.Client) → Ensures CachesAllowed (go_on client) Returned CachesAllowed)
      → Ensures CachesAllowed (with_client github go_on) Returned CachesAllowed
  unfolding with_client
  with_client-Returned go_on returned = record { run = λ s p. by_client s p s.client }
    where
      by_client :
          (s : Variables github)
          → CachesAllowed s
          → (client : Option github.Client)
          → Post {E = Error} Returned CachesAllowed (elim client [
            | none ↦ (err (new_error "githubClient == nil"), s)
            | some client ↦ go_on client s
          ])
      by_client s p none = p
      by_client s p (some client) = (returned client).run s p

  hit-Returned :
      (r : Repository)
      → Ensures
          (Found (some r))
          (counted github (github.inc_cache_hit "repository" true) >> pure r)
          Returned
          CachesAllowed
  unfolding counted
  hit-Returned r = record { run = λ s p. (p.0, p.1 r refl) }

  get_github_repository-Returned :
      (owner name : String)
      → Ensures CachesAllowed
          (get_github_repository github environment owner name)
          Returned
          CachesAllowed
  unfolding get_github_repository
  get_github_repository-Returned owner name =
      let fetched =
        Ensures-bind (counted-Kept github CachesAllowed (λ s w p. p) _)
          λ _. with_client-Returned _ (λ client. fetch_repository-Returned client owner name) in
      let again =
        Ensures-bind {P = CachesAllowed} (cached_repository-Found _)
          (Ensures-option Found (Ensures-weaken (λ s p. p.0) fetched) hit-Returned) in
      Ensures-bind (cached_repository-Found _)
        (Ensures-option Found (Ensures-weaken (λ s p. p.0) again) hit-Returned)

  init-Returned :
      (owner name : String)
      → Ensures CachesAllowed (init github environment owner name) Returned CachesAllowed
  unfolding init
  init-Returned owner name =
      Ensures-bind
        (init_client-Kept github environment CachesAllowed (λ s w p. p) (λ s client expiry p. p))
        λ _. get_github_repository-Returned owner name

  -- The variables after some calls of `GitHub.Init`, whatever they end in.
  abbrev pub after_inits : List (String × String) → Variables github → Variables github
  after_inits [] s = s
  after_inits ((owner, name) ∷ calls) s = after_inits calls (init github environment owner name s).1

  after_inits-CachesAllowed :
      (calls : List (String × String)) (s : Variables github)
      → CachesAllowed s
      → CachesAllowed (after_inits calls s)
  after_inits-CachesAllowed [] s p = p
  after_inits-CachesAllowed ((owner, name) ∷ calls) s p =
      after_inits-CachesAllowed calls _ (left _ ((init-Returned owner name).run s p))
    where
      left :
          (o : Outcome Error Repository × Variables github)
          → Post {E = Error} Returned CachesAllowed o
          → CachesAllowed o.1
      left (ok r, s) q = q.0
      left (err e, s) q = q
      left (panic, s) q = q

  -- If the cache of repositories is empty at first, and a lookup in it only finds what was stored, a
  -- repository that `GitHub.Init` returns after any calls of it has an owner that is listed in
  -- KUBEACTIONS_GITHUB_OWNERS, and KUBEACTIONS_GITHUB_VISIBILITIES has the word "priv" or "private"
  -- if it is private, and the word "pub" or "public" if it is not.
  pub init-IsAllowed :
      (s : Variables github) (calls : List (String × String)) (owner name : String) (r : Repository)
      → ((time : ℕ) (key : String) → repository_cache.get s.repositories time key ≡ none)
      → (init github environment owner name (after_inits calls s)).0 ≡ ok r
      → IsAllowed environment r
  init-IsAllowed s calls owner name r empty done =
      returned _ ((init-Returned owner name).run _ (after_inits-CachesAllowed calls s start)) done
    where
      start : CachesAllowed s
      start time key found h = absurd (ground (arith, h, empty time key))

      returned :
          (o : Outcome Error Repository × Variables github)
          → Post {E = Error} Returned CachesAllowed o
          → o.0 ≡ ok r
          → IsAllowed environment r
      returned (ok found, s) q e = subst (IsAllowed environment) (ground (arith, e)) q.1
      returned (err found, s) q e = absurd (cc)
      returned (panic, s) q e = absurd (cc)
