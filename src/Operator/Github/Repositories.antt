-- ===== src/Operator/Github/Repositories.antt =====
-- facades/gh.go: `githubOwners`, `githubVisibilities`, `getGitHubRepository` and `GitHub.Init`.
pub mod Allowed
use kube_actions.Prelude.{
  ℕ, String, Bool, true, false, not, Option, none, some, List, [], ◌∷◌, ◌||◌, ◌&&◌, ◌==◌,
  if◌then◌else◌,
}
use kube_actions.Prelude.Effect.{pure, fail, ◌>>=◌, ◌>>◌}
use kube_actions.Prelude.Outcome.{Outcome, ok, err, panic}
use kube_actions.Operator.Token.{Error, new_error}
use kube_actions.Operator.Github.{
  Github, Variables, GithubEnvironment, Call, called, counted, Repository, slashed,
}
use kube_actions.Operator.Github.Answered.{handle_response}
use kube_actions.Operator.Github.Connect.{init_client, with_client}

-- `_, ok := githubOwners[login]`
unfoldable pub in_owners : List String → String → Bool
in_owners [] login = false
in_owners (owner ∷ owners) login = (owner == login) || in_owners owners login

-- `repositoryVisibility`: the bits `repoPublic` and `repoPrivate`.
pub record Visibilities : Type 0 where
  pub repo_public : Bool
  pub repo_private : Bool

-- The loop over the words, with the bits that are set.
unfoldable pub add_visibilities : Visibilities → List String → Visibilities
add_visibilities allowed [] = allowed
add_visibilities allowed (word ∷ words) =
    add_visibilities
      (if (word == "pub") || (word == "public")
        then record allowed { repo_public = true }
        else if (word == "priv") || (word == "private")
        then record allowed { repo_private = true }
        else allowed)
      words

unfoldable pub visibilities_of : List String → Visibilities
unfolding add_visibilities
visibilities_of = add_visibilities (record { repo_public = false; repo_private = false })

-- The test on the visibility of a repository that is refused.
unfoldable pub not_in_visibilities : Visibilities → Repository → Bool
not_in_visibilities allowed repository =
    (repository.private && not allowed.repo_private)
    || (not repository.private && not allowed.repo_public)

module _ (github : Github) (environment : GithubEnvironment) where
  open github use {Client, World, now, inc_cache_hit, get_repository, repository_cache}

  -- `githubRepositories.Get(key)`
  unfoldable pub cached_repository : String → Call github (Option Repository)
  cached_repository key s =
      let (time, w) = now s.world in
      (ok (repository_cache.get s.repositories time key), record s { world = w })

  -- `githubRepositories.SetDefault(key, repository)`
  unfoldable pub store_repository : String → Repository → Call github (Unit {0})
  store_repository key repository s =
      let (time, w) = now s.world in
      (
        ok tt,
        record s {
          repositories = repository_cache.set_default s.repositories time key repository;
          world = w;
        },
      )

  -- A repository that is not cached is asked for, and cached if it is allowed.
  unfoldable pub fetch_repository : Client → String → String → Call github Repository
  unfolding handle_response in_owners visibilities_of not_in_visibilities store_repository
  fetch_repository client owner name = do
    reply ← called github (get_repository client owner name)
    repository ← handle_response github client "entry" reply
    (if not (in_owners environment.owners repository.owner_login)
        then fail (new_error "not in githubOwners")
        else if not_in_visibilities (visibilities_of environment.visibilities) repository
        then fail (new_error "not in githubVisibilities")
        else store_repository (slashed owner name) repository >> pure repository)

  -- A hit is returned; without one the cache is looked up again under the lock.
  unfoldable pub get_github_repository : String → String → Call github Repository
  unfolding cached_repository fetch_repository with_client
  get_github_repository owner name = do
    first ← cached_repository (slashed owner name)
    elim first [
      | some repository ↦ counted github (inc_cache_hit "repository" true) >> pure repository
      | none ↦ do
        second ← cached_repository (slashed owner name)
        elim second [
          | some repository ↦ counted github (inc_cache_hit "repository" true) >> pure repository
          | none ↦ do
            counted github (inc_cache_hit "repository" false)
            with_client github (λ client. fetch_repository client owner name)
        ]
    ]

  -- `GitHub.Init`: the repository that the facade then holds.
  unfoldable pub init : String → String → Call github Repository
  unfolding init_client get_github_repository
  init owner name = init_client github environment >> get_github_repository owner name
