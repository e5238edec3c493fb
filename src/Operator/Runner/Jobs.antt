-- ===== src/Operator/Runner/Jobs.antt =====
-- What a pass over an ActionsRunner does to its job.
use kube_actions.Prelude.{String, ◌≡◌, Bool, false, arith}
use kube_actions.Prelude.Result.{Result}
use kube_actions.Operator.Api.Meta.{ObjectKey, ObjectMeta, not_found}
use kube_actions.Operator.Api.Runner.{ActionsRunner, ActionsRunnerJob}
use kube_actions.Operator.DotFiles.{Files, Json}
use kube_actions.Operator.Runner.Pass.{follow_job, reconcile_runner}
use kube_actions.Operator.Runner.{RunnerCluster, completed}
use kube_actions.Operator.Runner.Keeps.{Keeps, pass_kept}

module _ {R C K : Type 0} (runner_json : Json R) (credentials_json : Json C) (rsa_json : Json K)
    (own : ObjectMeta → ObjectMeta → Result String ObjectMeta)
    (cluster : RunnerCluster (Files R C K)) (key : ObjectKey) where
  open cluster use {World, get_job, receive_job_request, ensure_listening}

  module _ (arj : ActionsRunnerJob) (at_work : completed arj ≡ false) where
    follow_job-working :
        (ar : ActionsRunner) (wire : Files R C K) (w : World)
        → get_job key w ≡ Result.ok arj
        → get_job key (follow_job runner_json credentials_json rsa_json own cluster key ar wire w).1
          ≡ Result.ok arj
    unfolding follow_job
    follow_job-working ar wire w h = rw (follow_job, h, at_work) (ground (arith, h))

    -- If the calls on other objects leave the job alone: a job that is not completed survives a
    -- pass over its runner as it is, whatever fails in the pass.
    pub working_job_survives :
        (keeps : Keeps cluster (λ w. get_job key w ≡ Result.ok arj)) (gone : Bool) (w : World)
        → get_job key w ≡ Result.ok arj
        → get_job key
            (reconcile_runner runner_json credentials_json rsa_json own cluster gone key w).1
          ≡ Result.ok arj
    working_job_survives keeps =
        pass_kept runner_json credentials_json rsa_json own cluster key
          (λ w. get_job key w ≡ Result.ok arj) keeps follow_job-working

  -- There is no job, and no wire has a request for one.
  abbrev pub Idle : (World → Bool) → World → Type 0
  Idle requested w = (get_job key w ≡ Result.err not_found) × (requested w ≡ false)

  module _ (requested : World → Bool)
      (silent : (wire : Files R C K) (w : World)
        → requested w ≡ false
        → (receive_job_request wire w).0 ≡ false)
      (received : (wire : Files R C K) (w : World)
        → Idle requested w
        → get_job key (ensure_listening wire (receive_job_request wire w).1) ≡ Result.err not_found)
      (quiet : (wire : Files R C K) (w : World)
        → Idle requested w
        → requested (ensure_listening wire (receive_job_request wire w).1) ≡ false) where
    follow_job-Idle :
        (ar : ActionsRunner) (wire : Files R C K) (w : World)
        → Idle requested w
        → Idle requested
            (follow_job runner_json credentials_json rsa_json own cluster key ar wire w).1
    unfolding follow_job
    follow_job-Idle ar wire w h =
        rw (follow_job, h.0, silent wire w h.1) (received wire w h, quiet wire w h)

    -- If nothing is received without a request, and the calls on other objects, the start of
    -- listening and a receipt that finds nothing leave jobs and requests alone: where there is
    -- neither a job nor a request, there is none after a pass.
    pub no_job_without_request :
        (keeps : Keeps cluster (Idle requested)) (gone : Bool) (w : World)
        → Idle requested w
        → Idle requested
            (reconcile_runner runner_json credentials_json rsa_json own cluster gone key w).1
    no_job_without_request keeps =
        pass_kept runner_json credentials_json rsa_json own cluster key (Idle requested) keeps
          follow_job-Idle
