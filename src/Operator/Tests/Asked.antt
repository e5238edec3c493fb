-- ===== src/Operator/Tests/Asked.antt =====
-- The facade of GitHub against a small server: one repository, and tokens that last an hour.
use kube_actions.Prelude.{
  ℕ, ◌+◌, ◌*◌, ◌≡◌, ◌≤◌, refl, sym, ◌∙◌, String, Bool, true, false, none, some, [], ◌∷◌, ◌⊎◌, inl,
  inr, ◌==◌, arith, if◌then◌else◌,
}
use kube_actions.Prelude.Result.{Result}
use kube_actions.Prelude.GoMap.{GoMap, get, put, get-put}
use kube_actions.Operator.Token.{new_error}
use kube_actions.Operator.Github.{
  Github, called, counted, GoCache, Variables, GithubEnvironment, GithubResponse, Reply, Repository,
  Token, minute,
}
use kube_actions.Operator.Github.Answered.{is_failure}
use kube_actions.Operator.Github.Repositories.{in_owners, init, get_github_repository}
use kube_actions.Operator.Github.Repositories.Allowed.{Forgets, IsAllowed, init-IsAllowed}
use kube_actions.Operator.Github.Connect.{init_client}
use kube_actions.Operator.Github.Tokens.{registration, remove, get_container}
use kube_actions.Operator.Github.Tokens.Limit.{uses, uses-le-sixty}

-- A cache that never forgets.
abbrev pub kept : (V : Type 0) → GoCache V
kept V = record {
  Store = GoMap V;
  get = λ store time key. get store key;
  set_default = λ store time key v. put store key v;
}

kept-Forgets : (V : Type 0) → Forgets (kept V)
kept-Forgets V = record {
  get-set_default = λ store time later key asked v u found.
      found_in store key asked v u (sym (get-put store key asked v) ∙ found);
}
  where
    by_test :
        (b : Bool) (store : GoMap V) (asked : String) (v u : V)
        → (if b then some v else get store asked) ≡ some u
        → (u ≡ v) ⊎ (get store asked ≡ some u)
    by_test true store asked v u h = inl (cc)
    by_test false store asked v u h = inr h

    found_in :
        (store : GoMap V) (key asked : String) (v u : V)
        → (if key == asked then some v else get store asked) ≡ some u
        → (u ≡ v) ⊎ (get store asked ≡ some u)
    found_in store key asked v u h = by_test (key == asked) store asked v u h

abbrev pub fine : GithubResponse
fine = record { status_code = 200; status = "200 OK"; request = none }

abbrev pub answered : {A : Type 0} → A → ℕ → Reply A × ℕ
answered a w = (record { value = a; response = some fine; failure = none }, w)

abbrev pub hidden : Repository
hidden = record {
  owner_login = "inloco";
  name = "kube-actions";
  private = true;
  html_url = "https://github.com/inloco/kube-actions";
  git_commits_url = "https://api.github.com/repos/inloco/kube-actions/git/commits";
}

abbrev pub hour_token : Token
hour_token = record { value = "t"; expires_at = 60 * minute }

-- The world is the clock.
abbrev pub server : Github
server = record {
  World = ℕ;
  Client = String;
  PrivateKey = String;
  now = λ w. (w, w + 1);
  new_client = λ token. token.access_token;
  rate_limits = λ client w. answered (some (record { limit = 5000; remaining = 4999 })) w;
  list_installations = λ client w. answered (7 ∷ []) w;
  create_installation_token = λ client id w. answered hour_token w;
  get_repository = λ client owner name w. answered hidden w;
  create_registration_token = λ client owner name w. answered hour_token w;
  create_remove_token = λ client owner name w. answered hour_token w;
  create_tenant_credential = λ client event url w. answered (record { token = "j"; url = url }) w;
  set_rate = λ name rate w. w;
  inc_api_calls = λ name request status w. w;
  inc_cache_hit = λ name hit w. w;
  private_key = λ pem. Result.ok pem;
  signed = λ key claims. Result.ok key;
  claimed_expiry = λ token. Result.ok (60 * minute);
  parse_int = λ text. Result.err (new_error text);
  repository_cache = kept Repository;
  container_cache = kept ℕ;
  credential_cache = kept _;
}

abbrev pub private_only : GithubEnvironment
private_only = record {
  pat = "";
  app_id = "12";
  app_pk = "pem";
  instl_id = "";
  owners = "inloco" ∷ [];
  visibilities = "private" ∷ [];
}

abbrev pub at_start : Variables server
at_start = record {
  client = none;
  client_expiry = 0;
  repositories = [];
  registration_tokens = record {
    entries = [];
    next = 0;
    container = λ p. record { token = record { value = ""; expires_at = 0 }; rate = 0 };
  };
  remove_tokens = record {
    entries = [];
    next = 0;
    container = λ p. record { token = record { value = ""; expires_at = 0 }; rate = 0 };
  };
  tenant_credentials = [];
  world = 1;
}

abbrev after_first : Variables server
after_first = (init server private_only "inloco" "kube-actions" at_start).1

init-IsAllowed_example : IsAllowed private_only hidden
unfolding init init_client get_github_repository get put in_owners called counted is_failure
init-IsAllowed_example =
    init-IsAllowed server private_only (kept-Forgets Repository) at_start
      (("inloco", "kube-actions") ∷ []) "inloco" "kube-actions" hidden (λ time key. refl) refl

uses-le-sixty_example :
    uses server
      (kept-Forgets ℕ)
      registration
      0
      ((registration, hidden) ∷ (remove, hidden) ∷ (registration, hidden) ∷ [])
      after_first
    ≤ 60
unfolding init init_client get_github_repository get put called counted is_failure
uses-le-sixty_example =
    uses-le-sixty server (kept-Forgets ℕ) registration 0
      ((registration, hidden) ∷ (remove, hidden) ∷ (registration, hidden) ∷ []) after_first
      (omega arith) refl (λ time key. refl)

-- The token is made by the first call and handed out again by the third.
used_twice :
    uses server
      (kept-Forgets ℕ)
      registration
      0
      ((registration, hidden) ∷ (remove, hidden) ∷ (registration, hidden) ∷ [])
      after_first
    ≡ 2
unfolding init init_client get_github_repository get_container get put called counted is_failure
used_twice = refl
