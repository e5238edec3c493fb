-- ===== src/Operator/Job/Progress.antt =====
-- What a pass over a job does to its pod.
use kube_actions.Prelude.{String, sym, ◌∙◌, ◌≡◌, ◌≢◌, refl, true, false, Option, none, some, arith}
use kube_actions.Prelude.Result.{Result}
use kube_actions.Operator.Api.Meta.{
  ObjectKey, ApiError, not_found, ignore_already_exists, is_being_deleted,
}
use kube_actions.Operator.Api.Core.{Pod, PersistentVolumeClaim}
use kube_actions.Operator.Api.Runner.{ActionsRunner, ActionsRunnerJob, no_claim, no_pod, lost}
use kube_actions.Operator.Pod.Build.{Environment, to_pod, to_persistent_volume_claim}
use kube_actions.Operator.Pod.Build.Named.{IsAt, KeepsNames, to_pod-IsAt}
use kube_actions.Operator.Job.{
  ClaimFound, JobCluster, same_claim_phase, zero_claim, Ended, and_then, zero_pod, ensure_claim,
  ensure_pod, follow_pod, reconcile_pod, follow_claim, reconcile_claim, reconcile_job,
}

-- What the API server promises of the calls on the objects of one key: a call on another kind of object
-- does not change the pod.
pub record HasObjects (cluster : JobCluster) (key : ObjectKey) : Type 0 where
  pub create_claim-pod :
      (c : PersistentVolumeClaim) (w : cluster.World)
      → cluster.get_pod key (cluster.create_claim c w).1 ≡ cluster.get_pod key w
  pub delete_claim-pod :
      (c : ClaimFound) (w : cluster.World)
      → cluster.get_pod key (cluster.delete_claim c w).1 ≡ cluster.get_pod key w
  pub update_job_status-pod :
      (j : ActionsRunnerJob) (w : cluster.World)
      → cluster.get_pod key (cluster.update_job_status j w).1 ≡ cluster.get_pod key w

-- What the API server promises of keys: `Get` returns an object with the key that is asked for, and
-- after the creation of a pod with a key, which succeeds or finds a pod there, a pod with that key is
-- there. `SetControllerReference` keeps the name and the namespace.
pub record HasKeys (environment : Environment) (cluster : JobCluster) (key : ObjectKey)
    : Type 0 where
  pub get_job-IsAt :
      (w : cluster.World) (j : ActionsRunnerJob)
      → cluster.get_job key w ≡ Result.ok j
      → IsAt key j.metadata
  pub get_runner-IsAt :
      (w : cluster.World) (r : ActionsRunner)
      → cluster.get_runner key w ≡ Result.ok r
      → IsAt key r.metadata
  pub keeps_names : KeepsNames environment
  pub create_pod-found :
      (pod : Pod) (w : cluster.World)
      → IsAt key pod.metadata
      → ignore_already_exists (cluster.create_pod pod w).0 ≡ none
      → cluster.get_pod key (cluster.create_pod pod w).1 ≢ Result.err not_found

module _ (environment : Environment) (cluster : JobCluster) (key : ObjectKey)
    (objects : HasObjects cluster key) where
  -- On an API server whose calls change the object that they name only: while the claim of a job
  -- is lost, a pass does nothing to the pod.
  pub lost_claim_keeps_pod :
      (w : cluster.World) (claim : ClaimFound)
      → cluster.get_claim key w ≡ Result.ok claim
      → claim.phase ≡ lost
      → cluster.get_pod key (reconcile_job environment cluster key w).1 ≡ cluster.get_pod key w
  unfolding reconcile_job reconcile_claim follow_claim
  lost_claim_keeps_pod w claim h l = go (cluster.get_job key w) (cluster.get_runner key w) refl refl
    where
      go :
          (j : Result ApiError ActionsRunnerJob) (a : Result ApiError ActionsRunner)
          → cluster.get_job key w ≡ j
          → cluster.get_runner key w ≡ a
          → cluster.get_pod key (reconcile_job environment cluster key w).1 ≡ cluster.get_pod key w
      go (Result.err e) a hj ha = rw (reconcile_job, hj) (ground arith)
      go (Result.ok j) (Result.err e) hj ha = rw (reconcile_job, hj, ha) (ground arith)
      go (Result.ok j) (Result.ok a) hj ha =
          rw (reconcile_job, hj, ha, reconcile_claim, h, follow_claim, l)
            (ground (
              arith,
              objects.update_job_status-pod
                  (record j { status = record (j.status) { persistent_volume_claim_phase = lost } })
                  w,
              objects.delete_claim-pod (record claim { phase = lost }) w,
            ))

module _ (environment : Environment) (cluster : JobCluster) (key : ObjectKey)
    (objects : HasObjects cluster key) (keys : HasKeys environment cluster key) where
  -- A new pod's phase does not change the pod.
  follow_pod-zero :
      (arj : ActionsRunnerJob) (w : cluster.World)
      → cluster.get_pod key (follow_pod environment cluster arj zero_pod w).1
        ≡ cluster.get_pod key w
  unfolding follow_pod is_being_deleted
  follow_pod-zero arj w = ground (
    arith,
    objects.update_job_status-pod
        (record arj { status = record (arj.status) { pod_phase = no_pod } }) w,
  )

  ensure_pod-found :
      (ar : ActionsRunner) (arj : ActionsRunnerJob) (w : cluster.World)
      → IsAt key arj.metadata
      → IsAt key ar.metadata
      → (ensure_pod environment cluster ar arj w).0 ≡ none
      → cluster.get_pod key (ensure_pod environment cluster ar arj w).1 ≢ Result.err not_found
  ensure_pod-found ar arj w job runner ok = go (to_pod environment ar arj) refl
    where
      go :
          (r : Result String Pod)
          → to_pod environment ar arj ≡ r
          → cluster.get_pod key (ensure_pod environment cluster ar arj w).1 ≢ Result.err not_found
      go (Result.err x) e = absurd (unfold ensure_pod in ground (arith, e, ok))
      go (Result.ok pod) e =
          let f =
            keys.create_pod-found pod w
              (to_pod-IsAt environment keys.keeps_names key ar arj pod job runner e) in
          unfold ensure_pod in ground (arith, e, ok, f)

  and_then-found :
      (m : Ended environment cluster) (next : cluster.World → Ended environment cluster)
      → (and_then environment cluster m next).0 ≡ none
      → (m.0 ≡ none → cluster.get_pod key m.1 ≢ Result.err not_found)
      → ((w : cluster.World) → cluster.get_pod key (next w).1 ≡ cluster.get_pod key w)
      → cluster.get_pod key (and_then environment cluster m next).1 ≢ Result.err not_found
  and_then-found (some e, w) next ok f g = λ _. cc
  and_then-found (none, w) next ok f g = λ q. f refl (sym (g w) ∙ q)

  reconcile_pod-found :
      (ar : ActionsRunner) (arj : ActionsRunnerJob) (w : cluster.World)
      → IsAt key arj.metadata
      → IsAt key ar.metadata
      → cluster.get_pod key w ≡ Result.err not_found
      → (reconcile_pod environment cluster key ar arj w).0 ≡ none
      → cluster.get_pod key (reconcile_pod environment cluster key ar arj w).1
        ≢ Result.err not_found
  unfolding reconcile_pod
  reconcile_pod-found ar arj w job runner missing =
      rw (reconcile_pod, missing)
        (λ ok.
          and_then-found (ensure_pod environment cluster ar arj w)
            (follow_pod environment cluster arj zero_pod) ok (ensure_pod-found ar arj w job runner)
            (follow_pod-zero arj))

  -- On an API server whose calls change the object that they name only, and which returns each
  -- object under its own key and finds a pod under the key that it was created with, if
  -- `SetControllerReference` keeps name and namespace: a pass that ends without
  -- an error leaves a pod where there was none, if the job and its runner are there and not being
  -- deleted, and the claim is there, in the phase that the status of the job has, not lost and
  -- not being deleted.
  pub pod_after_pass :
      (w : cluster.World) (arj : ActionsRunnerJob) (ar : ActionsRunner) (claim : ClaimFound)
      → cluster.get_job key w ≡ Result.ok arj
      → is_being_deleted arj.metadata ≡ false
      → cluster.get_runner key w ≡ Result.ok ar
      → is_being_deleted ar.metadata ≡ false
      → cluster.get_claim key w ≡ Result.ok claim
      → same_claim_phase arj.status.persistent_volume_claim_phase claim.phase ≡ true
      → is_being_deleted claim.metadata ≡ false
      → same_claim_phase claim.phase lost ≡ false
      → cluster.get_pod key w ≡ Result.err not_found
      → (reconcile_job environment cluster key w).0 ≡ none
      → cluster.get_pod key (reconcile_job environment cluster key w).1 ≢ Result.err not_found
  unfolding reconcile_job reconcile_claim follow_claim
  pod_after_pass w arj ar claim job live runner alive found same kept unlost missing =
      rw
        (
          reconcile_job, job, live, runner, alive, reconcile_claim, found, follow_claim, same, kept,
          unlost,
        )
        (reconcile_pod-found ar arj w (keys.get_job-IsAt w arj job)
          (keys.get_runner-IsAt w ar runner) missing)

  ensure_claim-pod :
      (ar : ActionsRunner) (arj : ActionsRunnerJob) (w : cluster.World)
      → cluster.get_pod key (ensure_claim environment cluster ar arj w).1 ≡ cluster.get_pod key w
  unfolding ensure_claim
  ensure_claim-pod ar arj w = go (to_persistent_volume_claim environment ar arj) refl
    where
      go :
          (r : Result String (Option PersistentVolumeClaim))
          → to_persistent_volume_claim environment ar arj ≡ r
          → cluster.get_pod key (ensure_claim environment cluster ar arj w).1
            ≡ cluster.get_pod key w
      go (Result.err e) h = rw (ensure_claim, h) refl
      go (Result.ok none) h = rw (ensure_claim, h) refl
      go (Result.ok (some claim)) h = rw (ensure_claim, h) (objects.create_claim-pod claim w)

  and_then-fresh :
      (m : Ended environment cluster) (next : cluster.World → Ended environment cluster)
      → (and_then environment cluster m next).0 ≡ none
      → cluster.get_pod key m.1 ≡ Result.err not_found
      → ((w : cluster.World)
          → cluster.get_pod key w ≡ Result.err not_found
          → (next w).0 ≡ none
          → cluster.get_pod key (next w).1 ≢ Result.err not_found)
      → cluster.get_pod key (and_then environment cluster m next).1 ≢ Result.err not_found
  and_then-fresh (some e, w) next ok missing f = λ _. cc
  and_then-fresh (none, w) next ok missing f = f w missing ok

  follow_claim-fresh :
      (ar : ActionsRunner) (arj : ActionsRunnerJob)
      → IsAt key arj.metadata
      → IsAt key ar.metadata
      → arj.status.persistent_volume_claim_phase ≡ no_claim
      → (w : cluster.World) → cluster.get_pod key w ≡ Result.err not_found
      → (follow_claim environment cluster key ar arj zero_claim w).0 ≡ none
      → cluster.get_pod key (follow_claim environment cluster key ar arj zero_claim w).1
        ≢ Result.err not_found
  unfolding follow_claim is_being_deleted
  follow_claim-fresh ar arj job runner fresh w missing =
      rw (follow_claim, fresh)
        (reconcile_pod-found ar
          (record arj { status = record (arj.status) { persistent_volume_claim_phase = no_claim } })
          w job runner missing)

  -- On an API server whose calls change the object that they name only, and which returns each
  -- object under its own key and finds a pod under the key that it was created with, if
  -- `SetControllerReference` keeps name and namespace: if a pass ends without an
  -- error, the job, whose status has no phase of a claim, and its runner are there and not being
  -- deleted, and there is neither a claim nor a pod, then it leaves a pod.
  pub pod_after_first_pass :
      (w : cluster.World) (arj : ActionsRunnerJob) (ar : ActionsRunner)
      → cluster.get_job key w ≡ Result.ok arj
      → is_being_deleted arj.metadata ≡ false
      → arj.status.persistent_volume_claim_phase ≡ no_claim
      → cluster.get_runner key w ≡ Result.ok ar
      → is_being_deleted ar.metadata ≡ false
      → cluster.get_claim key w ≡ Result.err not_found
      → cluster.get_pod key w ≡ Result.err not_found
      → (reconcile_job environment cluster key w).0 ≡ none
      → cluster.get_pod key (reconcile_job environment cluster key w).1 ≢ Result.err not_found
  unfolding reconcile_job reconcile_claim follow_claim
  pod_after_first_pass w arj ar job live fresh runner alive none_found missing =
      rw (reconcile_job, job, live, runner, alive, reconcile_claim, none_found)
        (λ ok.
          and_then-fresh (ensure_claim environment cluster ar arj w)
            (follow_claim environment cluster key ar arj zero_claim) ok
            (ensure_claim-pod ar arj w ∙ missing)
            (follow_claim-fresh ar arj (keys.get_job-IsAt w arj job)
              (keys.get_runner-IsAt w ar runner) fresh))
