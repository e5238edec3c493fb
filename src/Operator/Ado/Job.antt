-- ===== src/Operator/Ado/Job.antt =====
-- facades/ado.go: the client for the plan of a job, and util/ado.go, which reads the endpoints of a job.
use Prim.Native.String.{◌++◌ as str_append}
use kube_actions.Prelude.{
  ℕ, String, Bool, false, Option, none, some, List, [], ◌∷◌, ◌==◌, if◌then◌else◌,
}
use kube_actions.Prelude.Effect.{fail, ◌>>=◌, ◌>>◌}
use kube_actions.Prelude.Result
use kube_actions.Prelude.Result.{Result}
use kube_actions.Prelude.GoMap.{get}
use kube_actions.Operator.Token.{Error, new_error}
use kube_actions.Operator.Ado.{
  Azure, Call, called, told, written, read, checked, required, deref, ServiceEndpoint, Plan,
  TimelineRecord, JobEvent, pool_id,
}
use kube_actions.Operator.Ado.Session.{the_bridge}

abbrev pub is_named : Option String → String → Bool
is_named none text = false
is_named (some name) text = name == text

-- The first endpoint with the well-known name.
unfoldable pub get_system_endpoint : List ServiceEndpoint → Result Error ServiceEndpoint
get_system_endpoint [] = Result.err (new_error "serviceEndpoint == nil")
get_system_endpoint (se ∷ endpoints) =
    if is_named se.name "SystemVssConnection" then Result.ok se else get_system_endpoint endpoints

abbrev pub present {ℓ} : {A : Type ℓ} → Option A → String → Result Error A
present none text = Result.err (new_error text)
present (some a) text = Result.ok a

unfoldable pub get_endpoint_url : ServiceEndpoint → Result Error String
get_endpoint_url endpoint = present endpoint.url "url == nil"

unfoldable pub get_endpoint_access_token : ServiceEndpoint → Result Error String
get_endpoint_access_token endpoint =
    Result.◌>>=◌ (present endpoint.endpoint_authorization "authorization == nil") λ authorization.
      Result.◌>>=◌ (present authorization.scheme "scheme == nil") λ scheme.
        if scheme == "OAuth"
        then Result.◌>>=◌ (present authorization.parameters "parameters == nil") (λ parameters.
          present (get parameters "AccessToken") "parameters[\"AccessToken\"] == nil")
        else Result.err (new_error "scheme != \"OAuth\"")

module _ (azure : Azure) where
  open azure use {
    TaskClient, new_task_client, update_agent_request, update_records, raise_plan_event,
  }

  unfoldable pub get_orchestration_id : List ServiceEndpoint → Result Error String
  unfolding get_system_endpoint get_endpoint_access_token
  get_orchestration_id endpoints =
      Result.◌>>=◌ (get_system_endpoint endpoints)
        λ endpoint. Result.◌>>=◌ (get_endpoint_access_token endpoint) azure.orchid

  unfoldable pub update_request : Option ℕ → Option String → Call azure (Unit {0})
  update_request request_id orchestration_id = do
    client ← the_bridge azure
    told azure (update_agent_request client pool_id request_id orchestration_id)

  unfoldable pub init_plan : Option Plan → Call azure (Unit {0})
  init_plan none = fail (new_error "plan == nil")
  init_plan (some plan) = do
    scope ← required azure plan.scope_identifier "plan.ScopeIdentifier == nil"
    type ← required azure plan.plan_type "plan.PlanType == nil"
    id ← required azure plan.plan_id "plan.PlanId == nil"
    written azure (λ s. record s { ado = record (s.ado) { plan = some plan } })

  -- A timeline is given by its id; the reference, and the id in it, may be nil.
  unfoldable pub init_timeline : Option (Option String) → Call azure (Unit {0})
  init_timeline none = fail (new_error "timeline == nil")
  init_timeline (some timeline) = do
    id ← required azure timeline "timeline.Id == nil"
    written azure (λ s. record s { ado = record (s.ado) { timeline = some id } })

  unfoldable pub init_job_connection : List ServiceEndpoint → Call azure (Unit {0})
  unfolding get_system_endpoint get_endpoint_access_token get_endpoint_url
  init_job_connection endpoints = do
    endpoint ← checked azure (get_system_endpoint endpoints)
    token ← checked azure (get_endpoint_access_token endpoint)
    url ← checked azure (get_endpoint_url endpoint)
    written azure (λ s. record s {
      ado = record (s.ado) {
        job_connection =
            some (record { authorization_string = str_append "Bearer " token; base_url = url });
      };
    })

  unfoldable pub init_task_client :
      Option Plan → Option (Option String) → List ServiceEndpoint → Call azure (Unit {0})
  unfolding init_plan init_timeline init_job_connection
  init_task_client plan timeline endpoints = do
    init_plan plan
    init_timeline timeline
    init_job_connection endpoints
    current ← read azure (λ s. s.ado.job_connection)
    connection ← deref azure current
    client ← called azure (new_task_client connection)
    written azure (λ s. record s { ado = record (s.ado) { task_client = some client } })

  abbrev pub the_plan : Call azure Plan
  the_plan = read azure (λ s. s.ado.plan) >>= λ plan. required azure plan ".Plan == nil"

  abbrev pub the_task_client : Call azure TaskClient
  the_task_client =
      read azure (λ s. s.ado.task_client) >>= λ client. required azure client ".TaskClient == nil"

  unfoldable pub update_record : List TimelineRecord → Call azure (Unit {0})
  update_record records = do
    plan ← the_plan
    current ← read azure (λ s. s.ado.timeline)
    timeline ← required azure current ".Timeline == nil"
    client ← the_task_client
    told azure (update_records client plan (some timeline) records)

  unfoldable pub raise_event : JobEvent → Call azure (Unit {0})
  raise_event event = do
    plan ← the_plan
    client ← the_task_client
    told azure (raise_plan_event client plan event)
