-- ===== src/Operator/Tests/Passed.antt =====
-- The files, the token and the reconcilers of a small ActionsRunner and its job.
use kube_actions.Prelude.{
  Bool, false, String, ◌≡◌, ◌≢◌, refl, sym, ap, true, false, [], ◌∷◌, Option, none, some, ◌↔◌,
}
use kube_actions.Prelude.Result.{Result}
use kube_actions.Prelude.GoMap.{get}
use kube_actions.Operator.Api.Meta.{ObjectKey, ObjectMeta, ApiError, not_found, is_being_deleted}
use kube_actions.Operator.Api.Runner.{
  ActionsRunner, ActionsRunnerJob, PersistentVolumeClaimPhase, no_pod, bound, lost,
}
use kube_actions.Operator.Pod.Build.{no_metadata}
use kube_actions.Operator.Pod.Filters.{has_requested_storage}
use kube_actions.Operator.DotFiles.{
  Files, Json, ConfigMap, Secret, to_config_map, to_secret, to_dot_files,
}
use kube_actions.Operator.DotFiles.Kept.{ReadsBack, dot_files_roundtrip}
use kube_actions.Operator.Token.{Http, Response, access_token}
use kube_actions.Operator.Token.Unrecoverable.{ends_runner, access_token-answered}
use kube_actions.Operator.Job.{JobCluster, ClaimFound, PodFound, reconcile_job}
use kube_actions.Operator.Job.Progress.{
  HasObjects, HasKeys, lost_claim_keeps_pod, pod_after_pass, pod_after_first_pass,
}
use kube_actions.Operator.Tests.Built.{own, production, runner_with, job_in}
use kube_actions.Operator.Runner.{RunnerCluster, completed}
use kube_actions.Operator.Runner.Pass.{reconcile_runner}
use kube_actions.Operator.Runner.Keeps.{Keeps}
use kube_actions.Operator.Runner.Jobs.{Idle, no_job_without_request, working_job_survives}
use kube_actions.Operator.Api.Runner.{running}

-- Texts that are their own json.
abbrev plain_text : Json String
plain_text = record { marshal = λ t. Result.ok t; unmarshal = λ t. Result.ok t }

reads_back : ReadsBack plain_text
reads_back t bytes h = sym h

abbrev kept_files : Files String String String
kept_files = record { runner = "r"; credentials = "c"; rsa_parameters = "k" }

abbrev kept_map : ConfigMap
kept_map = record {
  metadata = record no_metadata { name = "a"; namespace = "ci"; owner = some "a" };
  binary_data = some ((".runner", "r") ∷ (".credentials", "c") ∷ []);
}

abbrev kept_secret : Secret
kept_secret = record {
  metadata = record no_metadata { name = "a"; namespace = "ci"; owner = some "a" };
  data_map = some ((".credentials_rsaparams", "k") ∷ []);
}

dot_files_roundtrip_example :
    to_dot_files plain_text plain_text plain_text own (some kept_map) (some kept_secret)
    ≡ some kept_files
unfolding to_config_map to_secret
dot_files_roundtrip_example =
    dot_files_roundtrip plain_text plain_text plain_text own reads_back reads_back reads_back
      kept_files (runner_with []) kept_map kept_secret refl refl

abbrev refusal : Response
refusal = record {
  access_token = "";
  error_response = record {
    error_code = "invalid_client";
    error_description = "no such client";
    error_uri = "";
  };
}

abbrev refusing : Http
refusing = record {
  Request = String;
  new_request = λ endpoint assertion. Result.ok assertion;
  fetch_response = λ req. Result.ok refusal;
}

access_token-answered_example :
    ((access_token refusing "/token" "me" ≡ Result.ok "")
      ↔ (refusal.error_response.error_code ≡ ""))
    × (ends_runner (access_token refusing "/token" "me") ≡ true)
access_token-answered_example = access_token-answered refusing "/token" "me" "me" refusal refl refl

-- A cluster with one job, one runner, and at most one claim and one pod; nothing fails.
abbrev JobWorld : Type 0
JobWorld = Option ClaimFound × Option PodFound × ActionsRunnerJob

abbrev or_not_found {ℓ} : {A : Type ℓ} → Option A → Result ApiError A
or_not_found none = Result.err not_found
or_not_found (some a) = Result.ok a

abbrev one_job : JobCluster
one_job = record {
  World = JobWorld;
  get_job = λ key w. Result.ok (record (w.2) { metadata = job_in.metadata });
  get_runner = λ key w. Result.ok (runner_with []);
  get_claim = λ key w. or_not_found w.0;
  get_pod = λ key w. or_not_found w.1;
  create_claim = λ c w. (none, (some (record { metadata = c.metadata; phase = bound }), w.1, w.2));
  create_pod = λ p w. (none, (w.0, some (record { metadata = p.metadata; phase = no_pod }), w.2));
  delete_claim = λ c w. (none, (none, w.1, w.2));
  delete_pod = λ p w. (none, (w.0, none, w.2));
  update_job_status = λ j w. (none, (w.0, w.1, j));
}

abbrev key_of : ObjectKey
key_of = record { namespace = "ci"; name = "a" }

one_job_objects : HasObjects one_job key_of
one_job_objects = record {
  create_claim-pod = λ c w. refl;
  delete_claim-pod = λ c w. refl;
  update_job_status-pod = λ j w. refl;
}

one_job_keys : HasKeys production one_job key_of
one_job_keys = record {
  get_job-IsAt = λ w j e.
      let same : j.metadata ≡ job_in.metadata = cc in
      (ap (λ (o : ObjectMeta). o.name) same, ap (λ (o : ObjectMeta). o.namespace) same);
  get_runner-IsAt = λ w r e.
      let same : r ≡ runner_with [] = cc in
      (
        ap (λ (o : ActionsRunner). o.metadata.name) same,
        ap (λ (o : ActionsRunner). o.metadata.namespace) same,
      );
  keeps_names = λ owner m m' e.
      let same : m' ≡ record m { owner = some owner.name } = cc in
      (ap (λ (o : ObjectMeta). o.name) same, ap (λ (o : ObjectMeta). o.namespace) same);
  create_pod-found = λ pod w at h. λ q. cc;
}

abbrev claim_in : PersistentVolumeClaimPhase → ClaimFound
claim_in phase = record { metadata = no_metadata; phase = phase }

abbrev job_with : PersistentVolumeClaimPhase → ActionsRunnerJob
job_with phase = record job_in {
  status = record { persistent_volume_claim_phase = phase; pod_phase = no_pod };
}

lost_claim_keeps_pod_example :
    one_job.get_pod key_of
      (reconcile_job production one_job key_of (some (claim_in lost), none, job_with lost)).1
    ≡ Result.err not_found
lost_claim_keeps_pod_example =
    lost_claim_keeps_pod production one_job key_of one_job_objects
      (some (claim_in lost), none, job_with lost) (claim_in lost) refl refl

pod_after_pass_example :
    one_job.get_pod key_of
      (reconcile_job production one_job key_of (some (claim_in bound), none, job_with bound)).1
    ≢ Result.err not_found
unfolding reconcile_job is_being_deleted
pod_after_pass_example =
    pod_after_pass production one_job key_of one_job_objects one_job_keys
      (some (claim_in bound), none, job_with bound) (job_with bound) (runner_with [])
      (claim_in bound) refl refl refl refl refl refl refl refl refl refl

pod_after_first_pass_example :
    one_job.get_pod key_of (reconcile_job production one_job key_of (none, none, job_in)).1
    ≢ Result.err not_found
unfolding reconcile_job is_being_deleted has_requested_storage get
pod_after_first_pass_example =
    pod_after_first_pass production one_job key_of one_job_objects one_job_keys (none, none, job_in)
      job_in (runner_with []) refl refl refl refl refl refl refl refl

-- A cluster with one runner, its files and one job; a wire has always the same files.
abbrev one_runner : RunnerCluster (Files String String String)
one_runner = record {
  World = Option ActionsRunnerJob;
  get_runner = λ key w. Result.ok (runner_with []);
  get_config_map = λ key w. Result.ok kept_map;
  get_secret = λ key w. Result.ok kept_secret;
  get_budget = λ key w. Result.err not_found;
  get_job = λ key w. or_not_found w;
  create_config_map = λ c w. (none, w);
  update_config_map = λ c w. (none, w);
  delete_config_map = λ c w. (none, w);
  create_secret = λ s w. (none, w);
  update_secret = λ s w. (none, w);
  delete_secret = λ s w. (none, w);
  create_budget = λ b w. (none, w);
  update_budget = λ b w. (none, w);
  delete_budget = λ b w. (none, w);
  create_job = λ j w. (none, some j);
  delete_job = λ j w. (none, none);
  try_destroy = λ key w. (none, w);
  wire_for = λ ar w. (Result.ok kept_files, w);
  receive_job_request = λ wire w. (false, w);
  ensure_listening = λ wire w. w;
}

abbrev at_work : ActionsRunnerJob
at_work = record job_in {
  status = record { persistent_volume_claim_phase = bound; pod_phase = running };
}

small_job_kept : Keeps one_runner (λ w. one_runner.get_job key_of w ≡ Result.ok at_work)
small_job_kept = record {
  create_config_map_kept = λ c w h. h;
  update_config_map_kept = λ c w h. h;
  delete_config_map_kept = λ c w h. h;
  create_secret_kept = λ s w h. h;
  update_secret_kept = λ s w h. h;
  delete_secret_kept = λ s w h. h;
  create_budget_kept = λ b w h. h;
  update_budget_kept = λ b w h. h;
  try_destroy_kept = λ k w h. h;
  wire_for_kept = λ ar w h. h;
}

abbrev no_request : Option ActionsRunnerJob → Bool
no_request w = false

abbrev Resting : Option ActionsRunnerJob → Type 0
Resting = Idle plain_text plain_text plain_text own one_runner key_of no_request

small_runner_kept : Keeps one_runner Resting
small_runner_kept = record {
  create_config_map_kept = λ c w h. h;
  update_config_map_kept = λ c w h. h;
  delete_config_map_kept = λ c w h. h;
  create_secret_kept = λ s w h. h;
  update_secret_kept = λ s w h. h;
  delete_secret_kept = λ s w h. h;
  create_budget_kept = λ b w h. h;
  update_budget_kept = λ b w h. h;
  try_destroy_kept = λ k w h. h;
  wire_for_kept = λ ar w h. h;
}

no_job_without_request_example :
    Resting (reconcile_runner plain_text plain_text plain_text own one_runner false key_of none).1
no_job_without_request_example =
    no_job_without_request plain_text plain_text plain_text own one_runner key_of no_request
      (λ wire w h. refl) (λ wire w h. h.0) (λ wire w h. refl) small_runner_kept false none
      (refl, refl)

working_job_survives_example :
    one_runner.get_job key_of
      (reconcile_runner plain_text plain_text plain_text own one_runner false key_of
        (some at_work)).1
    ≡ Result.ok at_work
unfolding completed
working_job_survives_example =
    working_job_survives plain_text plain_text plain_text own one_runner key_of at_work refl
      small_job_kept false (some at_work) refl
