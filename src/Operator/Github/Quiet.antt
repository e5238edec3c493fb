-- ===== src/Operator/Github/Quiet.antt =====
-- The calls of facades/gh.go that only use the world keep what is said of the package's variables.
use kube_actions.Prelude.{String, Option, none, some}
use kube_actions.Prelude.Effect.{pure, fail, crash, Ensures, Ensures-bind, Ensures-if, Post}
use kube_actions.Prelude.Outcome.{Outcome, ok, err, panic}
use kube_actions.Operator.Token.{Error}
use kube_actions.Operator.Github.{
  Github, Variables, Call, called, counted, Reply, GithubResponse, Rate,
}
use kube_actions.Operator.Github.Answered.{
  is_failure, tried, collect_rate_limit_metrics, try_collect_rate_limit_metrics,
  collect_api_call_metrics, handle_response,
}

module _ (github : Github) (P : Variables github → Type 0)
    (steady : (s : Variables github) (w : github.World) → P s → P (record s { world = w })) where
  -- A call after which `P` holds, whatever it ends in, if it held before.
  abbrev pub Kept : {A : Type 0} → Call github A → Type 0
  Kept m = Ensures P m (λ _. P) P

  pub called-Kept : {A : Type 0} (f : github.World → A × github.World) → Kept (called github f)
  unfolding called
  called-Kept f = record { run = λ s p. steady s _ p }

  pub counted-Kept : (f : github.World → github.World) → Kept (counted github f)
  unfolding counted
  counted-Kept f = record { run = λ s p. steady s _ p }

  pub pure-Kept : {A : Type 0} (a : A) → Kept {A = A} (pure a)
  pure-Kept a = record { run = λ s p. p }

  pub fail-Kept : {A : Type 0} (e : Error) → Kept {A = A} (fail e)
  fail-Kept e = record { run = λ s p. p }

  pub crash-Kept : {A : Type 0} → Kept {A = A} crash
  crash-Kept = record { run = λ s p. p }

  pub tried-Kept : {m : Call github (Unit {0})} → Kept m → Kept (tried github m)
  tried-Kept {m} kept = record { run = λ s p. dropped (m s) (kept.run s p) }
    where
      dropped :
          (o : Outcome Error (Unit {0}) × Variables github)
          → Post {E = Error} {A = Unit {0}} (λ _. P) P o
          → Post {E = Error} {A = Unit {0}}
              (λ _. P)
              P
              (elim o.0 [ ok a ↦ (ok tt, o.1) | err e ↦ (ok tt, o.1) | panic ↦ (panic, o.1) ])
      dropped (ok a, s) p = p
      dropped (err e, s) p = p
      dropped (panic, s) p = p

  pub optional-Kept :
      {A B : Type 0} {none_case : Call github B} {some_case : A → Call github B} (o : Option A)
      → Kept none_case
      → ((a : A) → Kept (some_case a))
      → Kept (elim o [ none ↦ none_case | some a ↦ some_case a ])
  optional-Kept none f g = f
  optional-Kept (some a) f g = g a

  collect-Kept :
      (client : Option github.Client) (name : String)
      → Kept (collect_rate_limit_metrics github client name)
  unfolding collect_rate_limit_metrics
  collect-Kept none name = fail-Kept _
  collect-Kept (some client) name = Ensures-bind (called-Kept _) λ (reply : Reply (Option Rate)).
      optional-Kept reply.failure
        (optional-Kept reply.response crash-Kept λ response.
          Ensures-if (is_failure response) (λ _. fail-Kept _)
            (λ _. optional-Kept reply.value (fail-Kept _) λ core. counted-Kept _))
        λ e. fail-Kept e

  api_calls-Kept :
      (client : Option github.Client) (name : String) (response : Option GithubResponse)
      → Kept (collect_api_call_metrics github client name response)
  unfolding collect_api_call_metrics try_collect_rate_limit_metrics
  api_calls-Kept client name response =
      Ensures-bind (tried-Kept (collect-Kept client name)) λ (_ : Unit {0}).
        optional-Kept response (fail-Kept _)
          λ (r : GithubResponse). optional-Kept r.request (fail-Kept _) λ q. counted-Kept _

  pub handle_response-Kept :
      {A : Type 0} (client : github.Client) (name : String) (reply : Reply A)
      → Kept (handle_response github client name reply)
  unfolding handle_response
  handle_response-Kept client name reply =
      Ensures-bind (tried-Kept (api_calls-Kept (some client) name reply.response)) λ (_ : Unit {0}).
        optional-Kept reply.failure
          (optional-Kept reply.response crash-Kept λ (response : GithubResponse).
            Ensures-if (is_failure response) (λ _. fail-Kept _) (λ _. pure-Kept _))
          λ e. fail-Kept e

  pub collect_rate_limit_metrics-Kept :
      (client : Option github.Client) (name : String)
      → Kept (collect_rate_limit_metrics github client name)
  collect_rate_limit_metrics-Kept = collect-Kept
