-- ===== src/Operator/Wire/Line/Violation.antt =====
-- wire/wire.go: what is reported of a job that violates a rule, and wire/message.go.
use Prim.Native.String.{◌++◌ as str_append}
use kube_actions.Prelude.{ℕ, ◌+◌, String, List, [], ◌∷◌, Option, none, some}
use kube_actions.Prelude.Effect.{pure, fail, ◌>>=◌, ◌>>◌}
use kube_actions.Prelude.Result
use kube_actions.Prelude.Result.{Result}
use kube_actions.Operator.Token.{Error, new_error}
use kube_actions.Operator.Ado.{
  IssueType, error_issue, warning_issue, other_issue, TimelineRecord, TaskAgentMessage,
}
use kube_actions.Operator.Ado.Job.{
  get_orchestration_id, update_request, init_task_client, update_record, raise_event,
}
use kube_actions.Operator.Wire.Line.{
  Ports, Call, PipelineAgentJobRequest, read, checked, deref, to_client,
}
use kube_actions.Operator.Wire.Line.Setup.{runner_name}

unfoldable pub issues_for_violated_rule : String → List (IssueType × String)
issues_for_violated_rule rule =
    (
      error_issue,
      str_append "This job was not allowed to run because it violated a runner policy: " rule,
    )
    ∷ []

-- The loop that counts errors and warnings.
unfoldable pub count_issues : ℕ → ℕ → List (IssueType × String) → Result Error (ℕ × ℕ)
count_issues errors warnings [] = Result.ok (errors, warnings)
count_issues errors warnings ((error_issue, text) ∷ issues) =
    count_issues (errors + 1) warnings issues
count_issues errors warnings ((warning_issue, text) ∷ issues) =
    count_issues errors (warnings + 1) issues
count_issues errors warnings ((other_issue type, text) ∷ issues) =
    Result.err (new_error (str_append "unknown issue type: " type))

-- `Message`; an id is a `uint64`.
pub record Message : Type 0 where
  pub id : ℕ
  pub message_type : String
  pub body : String

module _ {N : Type 0} (ports : Ports N) where
  open ports use {azure}

  unfoldable pub required : {A : Type 0} → Option A → String → Call ports A
  required none text = fail (new_error text)
  required (some a) text = pure a

  unfoldable pub to_message : TaskAgentMessage → Call ports Message
  unfolding required
  to_message message = do
    id ← required message.message_id "taMessage.MessageId == nil"
    type ← required message.message_type "taMessage.MessageType == nil"
    body ← deref ports message.body
    pure (record { id = id; message_type = type; body = body })

  unfoldable pub timeline_records_for_violated_rule :
      String → PipelineAgentJobRequest N → String → Result Error (List TimelineRecord)
  unfolding issues_for_violated_rule count_issues
  timeline_records_for_violated_rule worker_name pajr rule =
      Result.◌>>=◌ (count_issues 0 0 (issues_for_violated_rule rule)) λ counts. Result.ok (
        record {
          record_type = "Job";
          record_id = pajr.job_id;
          ref_name = pajr.job_name;
          record_name = pajr.job_display_name;
          state = "completed";
          result = "failed";
          worker_name = worker_name;
          issues = issues_for_violated_rule rule;
          error_count = counts.0;
          warning_count = counts.1;
        }
        ∷ [])

  unfoldable pub on_policy_violation : PipelineAgentJobRequest N → String → Call ports (Unit {0})
  unfolding required timeline_records_for_violated_rule
  on_policy_violation pajr rule = do
    job_id ← required pajr.job_id "pajr.JobId == nil"
    request_id ← required pajr.request_id "pajr.RequestId == nil"
    resources ← required pajr.resources "pajr.Resources == nil"
    endpoints ← required resources.endpoints "pajr.Resources.Endpoints == nil"
    runner ← read ports (λ s. s.wire.actions_runner)
    records ← checked ports (timeline_records_for_violated_rule (runner_name runner) pajr rule)
    orchestration_id ← checked ports (get_orchestration_id azure endpoints)
    to_client ports (update_request azure (some request_id) (some orchestration_id))
    to_client ports (init_task_client azure pajr.plan pajr.timeline endpoints)
    to_client ports (update_record azure records)
    to_client ports (
        raise_event azure (record {
          event_name = "JobCompleted";
          job_id = some job_id;
          request_id = some request_id;
          event_result = "failed";
        }))
