-- ===== src/Operator/Github/Answered.antt =====
-- facades/gh.go: the rate limits and the metrics of the calls, and `handleGitHubResponse`.
use Prim.Native.String.{◌++◌ as str_append}
use kube_actions.Prelude.{String, Bool, Option, none, some, ◌||◌, ltb, leb, if◌then◌else◌}
use kube_actions.Prelude.Effect.{pure, fail, crash, ◌>>=◌, ◌>>◌}
use kube_actions.Prelude.Outcome.{ok, err, panic}
use kube_actions.Operator.Token.{new_error}
use kube_actions.Operator.Github.{Github, Call, called, counted, Reply, GithubResponse}

-- `StatusCode < 200 || StatusCode >= 300`
unfoldable pub is_failure : GithubResponse → Bool
is_failure response = ltb response.status_code 200 || leb 300 response.status_code

module _ (github : Github) where
  open github use {Client, rate_limits, set_rate, inc_api_calls}

  unfoldable pub collect_rate_limit_metrics : Option Client → String → Call github (Unit {0})
  collect_rate_limit_metrics none client_name = fail (new_error "client == nil")
  collect_rate_limit_metrics (some client) client_name = do
    reply ← called github (rate_limits client)
    elim reply.failure [
      | some e ↦ fail e
      | none ↦ elim reply.response [
        | none ↦ crash
        | some response ↦
            if is_failure response then fail (new_error response.status) else elim reply.value [
              | none ↦ fail (new_error "core == nil")
              | some core ↦ counted github (set_rate client_name core)
            ]
      ]
    ]

  -- An error is only logged.
  abbrev pub tried : Call github (Unit {0}) → Call github (Unit {0})
  tried call s =
      let (o, s') = call s in
      elim o [ ok a ↦ (ok tt, s') | err e ↦ (ok tt, s') | panic ↦ (panic, s') ]

  unfoldable pub try_collect_rate_limit_metrics : Option Client → String → Call github (Unit {0})
  unfolding collect_rate_limit_metrics
  try_collect_rate_limit_metrics client client_name =
      tried (collect_rate_limit_metrics client client_name)

  unfoldable pub collect_api_call_metrics :
      Option Client → String → Option GithubResponse → Call github (Unit {0})
  unfolding try_collect_rate_limit_metrics
  collect_api_call_metrics client client_name response =
      try_collect_rate_limit_metrics client client_name >> (elim response [
        | none ↦ fail (new_error "response == nil")
        | some r ↦ elim r.request [
          | none ↦ fail (new_error "request == nil")
          | some q ↦
              counted github
                (inc_api_calls client_name (str_append q.method (str_append " " q.url)) r.status)
        ]
      ])

  unfoldable pub handle_response : {A : Type 0} → Client → String → Reply A → Call github A
  unfolding collect_api_call_metrics
  handle_response client client_name reply =
      tried (collect_api_call_metrics (some client) client_name reply.response)
      >> (elim reply.failure [
        | some e ↦ fail e
        | none ↦ elim reply.response [
          | none ↦ crash
          | some response ↦
              if is_failure response
              then fail (new_error (str_append "Error response from GitHub: " response.status))
              else pure reply.value
        ]
      ])
