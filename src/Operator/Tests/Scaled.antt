-- ===== src/Operator/Tests/Scaled.antt =====
-- The replica set reconciler on a small API server.
use kube_actions.Prelude.{
  ℕ, suc, ◌+◌, ◌<◌, String, ◌≡◌, refl, true, false, List, [], ◌∷◌, Option, none, some, ◌==◌, length,
  select, if◌then◌else◌, arith, eq_refl,
}
use kube_actions.Prelude.Outcome.{ok}
use kube_actions.Prelude.Result.{Result}
use kube_actions.Operator.Api.Meta.{ObjectKey, ObjectMeta, is_being_deleted}
use kube_actions.Operator.Api.Runner.{ActionsRunner, ActionsRunnerReplicaSet, ActionsRunnerSpec}
use kube_actions.Operator.Pod.Build.{no_metadata}
use kube_actions.Operator.ReplicaSet.{
  Cluster, not_being_deleted, desired_actions_runner, desired_selector, reconcile,
}
use kube_actions.Operator.ReplicaSet.Scaling.{
  IsHealthy, CreatesRunners, IsSettled, actual, reconcile_times, scale_up-step, scale_down-step,
  scale_down_stalls, scale_up_converges,
}

abbrev World : Type 0
World = ActionsRunnerReplicaSet × List ActionsRunner

-- An object that has not been deleted.
abbrev undeleted : ObjectMeta → ObjectMeta
undeleted m = record m { deletion_timestamp = none }

abbrev remove : String → List ActionsRunner → List ActionsRunner
remove name [] = []
remove name (r ∷ rs) = let rest = remove name rs in if r.metadata.name == name then rs else r ∷ rest

-- One replica set and its runners. A deletion removes a runner by its name, unless it is being
-- deleted already.
abbrev small_cluster : Cluster
small_cluster = record {
  World = World;
  get_replica_set = λ key w. Result.ok w.0;
  list_runners = λ namespace labels w. Result.ok w.1;
  create_runner = λ r w. (none, (w.0, record r { metadata = undeleted r.metadata } ∷ w.1));
  update_runner = λ r w. (none, w);
  delete_runner =
      λ r w. (none, (w.0, if is_being_deleted r.metadata then w.1 else remove r.metadata.name w.1));
  update_status = λ r w. (none, (record (w.0) { status = r.status }, w.1));
  selector_string = λ labels. Result.ok "runners";
  set_controller_reference = λ owner m. Result.ok (record m { owner = some owner.name });
}

abbrev key : ObjectKey
key = record { namespace = "ci"; name = "a" }

created :
    (r : ActionsRunner) (w : World)
    → length (not_being_deleted ((small_cluster.create_runner r w).1).1)
      ≡ suc (length (not_being_deleted (w.1)))
unfolding not_being_deleted select is_being_deleted
created r w = refl

deleted :
    (r : ActionsRunner) (rest : List ActionsRunner) (w : World)
    → w.1 ≡ r ∷ rest
    → is_being_deleted r.metadata ≡ false
    → suc (length (not_being_deleted ((small_cluster.delete_runner r w).1).1))
      ≡ length (not_being_deleted (w.1))
unfolding not_being_deleted select
deleted r rest w e h = ground (arith, e, h, eq_refl r.metadata.name)

deleted_again :
    (r : ActionsRunner) (w : World)
    → is_being_deleted r.metadata ≡ true
    → ((small_cluster.delete_runner r w).1).1 ≡ w.1
deleted_again r w h = rw h refl

unfoldable small_cluster_healthy : IsHealthy small_cluster key
unfolding desired_actions_runner desired_selector
small_cluster_healthy = record {
  rs = λ w. w.0;
  items = λ w. w.1;
  selector = "runners";
  get_rs = λ w. refl;
  list_items = λ w. refl;
  selector_of = λ w. refl;
  delete_ok = λ r w. refl;
  delete_rs = λ r w. refl;
  delete_items = deleted;
  delete_again = deleted_again;
  status_ok = λ r w. refl;
  status_rs = λ r w same. refl;
  status_items = λ r w. refl;
}

small_cluster_creates : CreatesRunners small_cluster key small_cluster_healthy
unfolding small_cluster_healthy
small_cluster_creates = record {
  sets_owner = λ owner m free near. (some owner.name, refl);
  create_ok = λ r w. refl;
  create_rs = λ r w. refl;
  create_items = λ r w listed. created r w;
}

abbrev spec : ActionsRunnerSpec
spec = record {
  repository = record { owner = "inloco"; name = "kube-actions"; api_endpoint = "" };
  policy = record { must = []; must_not = [] };
  capabilities = [];
  annotations = [];
  labels = none;
  version = "";
  volumes = [];
  volume_mounts = [];
  env_from = [];
  env = [];
  resources = [];
  service_account_name = "";
  affinity = none;
  tolerations = [];
  node_selector = [];
}

abbrev runner_at : String → Option ℕ → ActionsRunner
runner_at name deleted_at = record {
  metadata = record no_metadata { name = name; deletion_timestamp = deleted_at };
  spec = spec;
}

abbrev wanting : ℕ → List ActionsRunner → World
wanting replicas runners = (
  record {
    metadata = record no_metadata { name = "a"; namespace = "ci" };
    spec = record { replicas = replicas; template = spec };
    status = record { replicas = 0; selector = "runners" };
  },
  runners,
)

wanting-IsSettled :
    (replicas : ℕ) (runners : List ActionsRunner)
    → replicas < 100
    → IsSettled small_cluster key small_cluster_healthy (wanting replicas runners)
unfolding small_cluster_healthy is_being_deleted
wanting-IsSettled replicas runners h = record { stays = refl; selected = refl; fits = omega arith }

abbrev two_running : World
two_running = wanting 1 (runner_at "x" none ∷ runner_at "y" none ∷ [])

abbrev one_leaving : World
one_leaving = wanting 1 (runner_at "x" (some 7) ∷ runner_at "y" none ∷ runner_at "z" none ∷ [])

scale_up-step_example :
    ((reconcile small_cluster key (wanting 2 [])).0 ≡ ok tt)
    × (actual small_cluster key small_cluster_healthy (reconcile small_cluster key (wanting 2 [])).1
        ≡ 1)
    × ((reconcile small_cluster key (wanting 2 [])).1.0
        ≡ record ((wanting 2 []).0) { status = record { replicas = 1; selector = "runners" } })
unfolding small_cluster_healthy not_being_deleted select
scale_up-step_example =
    scale_up-step small_cluster key small_cluster_healthy small_cluster_creates (wanting 2 [])
      (wanting-IsSettled 2 [] (omega arith)) (omega arith)

scale_down-step_example :
    ((reconcile small_cluster key two_running).0 ≡ ok tt)
    × (actual small_cluster key small_cluster_healthy (reconcile small_cluster key two_running).1
          + 1
        ≡ 2)
    × ((reconcile small_cluster key two_running).1.0
        ≡ record (two_running.0) { status = record { replicas = 1; selector = "runners" } })
unfolding small_cluster_healthy not_being_deleted select is_being_deleted
scale_down-step_example =
    scale_down-step small_cluster key small_cluster_healthy two_running (runner_at "x" none)
      (runner_at "y" none ∷ [])
      (wanting-IsSettled 1 (runner_at "x" none ∷ runner_at "y" none ∷ []) (omega arith)) refl refl
      (omega arith)

scale_down_stalls_example :
    ((reconcile small_cluster key one_leaving).0 ≡ ok tt)
    × ((reconcile small_cluster key one_leaving).1.1 ≡ one_leaving.1)
    × ((reconcile small_cluster key one_leaving).1.0.status.replicas ≡ 1)
unfolding small_cluster_healthy not_being_deleted select is_being_deleted
scale_down_stalls_example =
    scale_down_stalls small_cluster key small_cluster_healthy one_leaving (runner_at "x" (some 7))
      (runner_at "y" none ∷ runner_at "z" none ∷ [])
      (wanting-IsSettled 1 (runner_at "x" (some 7) ∷ runner_at "y" none ∷ runner_at "z" none ∷ [])
        (omega arith))
      refl refl (omega arith)

scale_up_converges_example :
    (actual small_cluster key small_cluster_healthy
        (reconcile_times small_cluster key small_cluster_healthy 3 (wanting 3 []))
      ≡ 3)
    × ((reconcile_times small_cluster key small_cluster_healthy 3 (wanting 3 [])).0.spec
        ≡ (wanting 3 []).0.spec)
unfolding small_cluster_healthy not_being_deleted select
scale_up_converges_example =
    scale_up_converges small_cluster key small_cluster_healthy small_cluster_creates 3
      (wanting 3 []) (wanting-IsSettled 3 [] (omega arith)) refl
