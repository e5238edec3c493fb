-- ===== src/Operator/Github/Tokens/Limit.antt =====
-- The limit on the uses of a registration token or a remove token of facades/gh.go, over any calls.
use kube_actions.Prelude.{
  ℕ, ◌+◌, ◌*◌, ◌-◌, ◌<◌, ◌≤◌, ◌≡◌, String, true, Option, none, some, List, [], ◌∷◌, arith, length,
}
use Prim.Native.Nat.{◌^◌}
use kube_actions.Prelude.Effect.{
  Ensures, Ensures-bind, Ensures-option, Ensures-mono, Post, pure, ◌>>◌,
}
use kube_actions.Prelude.Outcome.{Outcome, ok, err, panic}
use kube_actions.Operator.Token.{Error, new_error}
use kube_actions.Operator.Github.{Github, Variables, Repository, Token, Call, counted}
use kube_actions.Operator.Github.Quiet.{called-Kept, counted-Kept, handle_response-Kept}
use kube_actions.Operator.Github.Repositories.Allowed.{Forgets}
use kube_actions.Operator.Github.Connect.{with_client}
use kube_actions.Operator.Github.Tokens.{
  Kind, registration, remove, cache_of, store_token, fetch_token, get_container, label,
}
use kube_actions.Operator.Github.Tokens.Rate.{
  In, Tried, Handed, In-later, In-steady, add_container-Within, try_get_token-Tried, hit,
}

module _ (github : Github) (forgets : Forgets github.container_cache) where
  store_token-Handed :
      (k asked : Kind) (p b t : ℕ) (key : String) (token : Token)
      → Ensures
          (In github forgets k asked p b 0 t)
          (store_token github asked key token)
          (Handed github forgets k asked p b t)
          (In github forgets k asked p b 0 t)
  unfolding store_token
  store_token-Handed registration registration p b t key token = record {
    run = λ s w. add_container-Within github forgets p b t _ key token _ w;
  }
  store_token-Handed remove remove p b t key token = record {
    run = λ s w. add_container-Within github forgets p b t _ key token _ w;
  }
  store_token-Handed registration remove p b t key token = record { run = λ s w. w }
  store_token-Handed remove registration p b t key token = record { run = λ s w. w }

  module _ (k asked : Kind) (p b : ℕ) where
    fetch_token-Handed :
        (t : ℕ) (repository : Repository) (client : github.Client)
        → Ensures
            (In github forgets k asked p b 0 t)
            (fetch_token github asked client repository)
            (Handed github forgets k asked p b t)
            (In github forgets k asked p b 0 t)
    unfolding fetch_token
    fetch_token-Handed t repository client =
        let steady = In-steady github forgets k asked p b 0 t in
        Ensures-bind (called-Kept github _ steady _) λ reply.
          Ensures-bind (handle_response-Kept github _ steady client "entry" reply)
            λ token. store_token-Handed k asked p b t _ token

    with_client-Handed :
        (t : ℕ) (go_on : github.Client → Call github ℕ)
        → ((client : github.Client)
            → Ensures
                (In github forgets k asked p b 0 t)
                (go_on client)
                (Handed github forgets k asked p b t)
                (In github forgets k asked p b 0 t))
        → Ensures
            (In github forgets k asked p b 0 t)
            (with_client github go_on)
            (Handed github forgets k asked p b t)
            (In github forgets k asked p b 0 t)
    unfolding with_client
    with_client-Handed t go_on handed = record { run = λ s w. by_client s w s.client }
      where
        by_client :
            (s : Variables github)
            → In github forgets k asked p b 0 t s
            → (client : Option github.Client)
            → Post {E = Error}
                (Handed github forgets k asked p b t)
                (In github forgets k asked p b 0 t)
                (elim client [
                  | none ↦ (err (new_error "githubClient == nil"), s)
                  | some client ↦ go_on client s
                ])
        by_client s w none = w
        by_client s w (some client) = (handed client).run s w

    hit-Handed :
        (t q : ℕ)
        → Ensures
            (Tried github forgets k asked p b t (some q))
            (counted github (github.inc_cache_hit (label github asked) true) >> pure q)
            (Handed github forgets k asked p b t)
            (In github forgets k asked p b 0 t)
    unfolding counted
    hit-Handed t q = record { run = λ s w. In-steady github forgets k asked p b _ t s _ w }

    Handed-later :
        (t q : ℕ) (s : Variables github)
        → Handed github forgets k asked p b t q s
        → Handed github forgets k asked p b (t + 1) q s
    Handed-later t q s w = record {
      allocated = w.allocated;
      budget = w.budget;
      low = omega (arith, w.low);
    }

    get_container-Handed :
        (t : ℕ) (repository : Repository)
        → t + 2 < 2 ^ 64
        → Ensures
            (In github forgets k asked p b 0 t)
            (get_container github asked repository)
            (Handed github forgets k asked p b (t + 1 + 1))
            (In github forgets k asked p b 0 (t + 1 + 1))
    unfolding get_container
    get_container-Handed t repository small =
        let t' = t + 1 + 1 in
        let fetched =
          Ensures-bind (counted-Kept github _ (In-steady github forgets k asked p b 0 t') _)
            λ _. with_client-Handed t' _ (fetch_token-Handed t' repository) in
        let again =
          Ensures-bind
            (try_get_token-Tried github forgets k asked p b (t + 1) _ (omega (arith, small)))
            (Ensures-option (Tried github forgets k asked p b t') fetched (hit-Handed t')) in
        Ensures-bind
          (Ensures-mono (λ o s w. w) (In-later github forgets k asked p b (t + 1))
            (try_get_token-Tried github forgets k asked p b t _ (omega (arith, small))))
          (Ensures-option (Tried github forgets k asked p b (t + 1)) again λ q.
            Ensures-mono (Handed-later (t + 1)) (In-later github forgets k asked p b (t + 1))
              (hit-Handed (t + 1) q))

  -- One if the call hands out the token in the container, which is of the kind that is looked at.
  abbrev pub use_of : Kind → ℕ → Kind → Outcome Error ℕ → ℕ
  use_of k p asked (ok q) = hit github forgets k asked q p
  use_of k p asked (err e) = 0
  use_of k p asked panic = 0

  -- How often some calls, whatever they end in, hand out the token in a container.
  abbrev pub uses : Kind → ℕ → List (Kind × Repository) → Variables github → ℕ
  uses k p [] s = 0
  uses k p ((asked, repository) ∷ calls) s =
      let (o, s') = get_container github asked repository s in
      use_of k p asked o + uses k p calls s'

  after_call :
      (k asked : Kind) (p b t : ℕ) (o : Outcome Error ℕ × Variables github)
      → Post (Handed github forgets k asked p b t) (In github forgets k asked p b 0 t) o
      → (use_of k p asked o.0 ≤ b) × In github forgets k asked p (b - use_of k p asked o.0) 0 t o.1
  after_call k asked p b t (ok q, s) w = (
    omega (arith, w.budget),
    record { allocated = w.allocated; budget = omega (arith, w.budget); low = w.low },
  )
  after_call k asked p b t (err e, s) w = (
    omega arith,
    record { allocated = w.allocated; budget = omega (arith, w.budget); low = w.low },
  )
  after_call k asked p b t (panic, s) w = (
    omega arith,
    record { allocated = w.allocated; budget = omega (arith, w.budget); low = w.low },
  )

  uses-le :
      (k asked : Kind) (p b t : ℕ) (calls : List (Kind × Repository)) (s : Variables github)
      → t + 2 * length calls + 1 < 2 ^ 64
      → In github forgets k asked p b 0 t s
      → uses k p calls s ≤ b
  uses-le k asked p b t [] s small w = omega arith
  uses-le k asked p b t ((next, repository) ∷ calls) s small w =
      let call = get_container github next repository s in
      let (spent, w') =
        after_call k next p b (t + 1 + 1) call
          ((get_container-Handed k next p b t repository (omega (arith, small))).run s w) in
      omega (
        arith,
        spent,
        uses-le k next p (b - use_of k p next call.0) (t + 1 + 1) calls call.1
            (omega (arith, small)) w',
      )

  -- If the caches of tokens are empty at first, and a lookup in them only finds what was stored: in
  -- fewer than 2^62 calls for registration tokens and remove tokens of any repositories, whatever
  -- they end in, each token that is made is handed out at most 60 times.
  pub uses-le-sixty :
      (k : Kind) (p : ℕ) (calls : List (Kind × Repository)) (s : Variables github)
      → length calls < 2 ^ 62
      → (cache_of github k s).next ≡ 0
      → ((time : ℕ) (key : String)
          → github.container_cache.get (cache_of github k s).entries time key ≡ none)
      → uses k p calls s ≤ 60
  uses-le-sixty k p calls s few fresh empty =
      uses-le k k p 60 0 calls s (omega (arith, few)) (record {
        allocated = λ time key q found. absurd (ground (arith, found, empty time key));
        budget = ground arith;
        low = ground (arith, fresh);
      })
