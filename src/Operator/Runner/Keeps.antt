-- ===== src/Operator/Runner/Keeps.antt =====
-- What a pass over an ActionsRunner keeps, from what the calls keep that it makes.
use kube_actions.Prelude.{
  String, ◌≡◌, refl, Bool, true, false, Option, none, some, not, arith, if◌then◌else◌,
}
use kube_actions.Prelude.Result.{Result}
use kube_actions.Operator.Api.Meta.{ObjectKey, ObjectMeta, ApiError, not_found, is_being_deleted}
use kube_actions.Operator.Api.Runner.{ActionsRunner}
use kube_actions.Operator.DotFiles.{Files, Json, ConfigMap, Secret}
use kube_actions.Operator.Token.{Error, is_unrecoverable}
use kube_actions.Operator.Runner.Pass.{
  Ended, and_then, built, follow_job, follow_budget, update_files, write_budget, create_secret_if,
  give_up, with_wire, connect, with_files, reconcile_runner, to_pod_disruption_budget,
  config_map_for, secret_for, but_exists,
}
use kube_actions.Operator.Runner.{PodDisruptionBudget, RunnerCluster, lookup, leaving}

-- The calls of a pass, but for those on jobs and on the requests for jobs, keep a predicate.
pub record Keeps {Dot : Type 0} (cluster : RunnerCluster Dot) (P : cluster.World → Type 0)
    : Type 0 where
  pub create_config_map_kept :
      (c : ConfigMap) (w : cluster.World) → P w → P (cluster.create_config_map c w).1
  pub update_config_map_kept :
      (c : ConfigMap) (w : cluster.World) → P w → P (cluster.update_config_map c w).1
  pub delete_config_map_kept :
      (c : ConfigMap) (w : cluster.World) → P w → P (cluster.delete_config_map c w).1
  pub create_secret_kept : (s : Secret) (w : cluster.World) → P w → P (cluster.create_secret s w).1
  pub update_secret_kept : (s : Secret) (w : cluster.World) → P w → P (cluster.update_secret s w).1
  pub delete_secret_kept : (s : Secret) (w : cluster.World) → P w → P (cluster.delete_secret s w).1
  pub create_budget_kept :
      (b : PodDisruptionBudget) (w : cluster.World) → P w → P (cluster.create_budget b w).1
  pub update_budget_kept :
      (b : PodDisruptionBudget) (w : cluster.World) → P w → P (cluster.update_budget b w).1
  pub try_destroy_kept : (k : ObjectKey) (w : cluster.World) → P w → P (cluster.try_destroy k w).1
  pub wire_for_kept : (ar : ActionsRunner) (w : cluster.World) → P w → P (cluster.wire_for ar w).1

module _ {R C K : Type 0} (runner_json : Json R) (credentials_json : Json C) (rsa_json : Json K)
    (own : ObjectMeta → ObjectMeta → Result String ObjectMeta)
    (cluster : RunnerCluster (Files R C K)) (key : ObjectKey) (P : cluster.World → Type 0)
    (keeps : Keeps cluster P)
    (follow_kept : (ar : ActionsRunner) (wire : Files R C K) (w : cluster.World)
      → P w
      → P (follow_job runner_json credentials_json rsa_json own cluster key ar wire w).1) where
  open cluster use {World}

  abbrev After : Type 0
  After = Ended runner_json credentials_json rsa_json own cluster

  and_then_kept :
      (m : Option ApiError × World) (next : World → After)
      → P m.1
      → ((w : World) → P w → P (next w).1)
      → P (and_then runner_json credentials_json rsa_json own cluster m next).1
  and_then_kept (some e, w) next h f = h
  and_then_kept (none, w) next h f = f w h

  if_kept : (b : Bool) (x y : After) → P x.1 → P y.1 → P (if b then x else y).1
  if_kept true x y h k = h
  if_kept false x y h k = k

  built_kept :
      {A : Type 0} (r : Result String A) (w : World) (next : A → After)
      → P w
      → ((a : A) → P (next a).1)
      → P (built runner_json credentials_json rsa_json own cluster r w next).1
  built_kept (Result.err e) w next h f = h
  built_kept (Result.ok a) w next h f = f a

  write_budget_kept :
      (b : Option PodDisruptionBudget) (desired : PodDisruptionBudget) (w : World)
      → P w
      → P (write_budget runner_json credentials_json rsa_json own cluster b desired w).1
  unfolding write_budget
  write_budget_kept none desired w h = keeps.create_budget_kept desired w h
  write_budget_kept (some b) desired w h = ground (arith, h, keeps.update_budget_kept desired w h)

  follow_budget_kept :
      (ar : ActionsRunner) (wire : Files R C K) (w : World)
      → P w
      → P (follow_budget runner_json credentials_json rsa_json own cluster key ar wire w).1
  unfolding follow_budget
  follow_budget_kept ar wire w h = go (lookup (cluster.get_budget key w)) refl
    where
      go :
          (r : Result ApiError (Option PodDisruptionBudget))
          → lookup (cluster.get_budget key w) ≡ r
          → P (follow_budget runner_json credentials_json rsa_json own cluster key ar wire w).1
      go (Result.err e) q = rw (follow_budget, q) h
      go (Result.ok budget) q =
          rw (follow_budget, q)
            (if_kept (leaving (λ b. b.metadata) budget) (none, w) _ h
              (built_kept
                (to_pod_disruption_budget runner_json credentials_json rsa_json own cluster ar) w _
                h
                (λ desired.
                  and_then_kept
                    (write_budget runner_json credentials_json rsa_json own cluster budget desired
                      w)
                    _ (write_budget_kept budget desired w h) (follow_kept ar wire))))

  update_files_kept :
      (ar : ActionsRunner) (wire : Files R C K) (w : World)
      → P w
      → P (update_files runner_json credentials_json rsa_json own cluster key ar wire w).1
  unfolding update_files
  update_files_kept ar wire w h =
      built_kept (config_map_for runner_json credentials_json rsa_json own cluster ar wire) w _ h
        (λ config_map.
          and_then_kept (cluster.update_config_map config_map w) _
            (keeps.update_config_map_kept config_map w h)
            (λ v k.
              built_kept (secret_for runner_json credentials_json rsa_json own cluster ar wire) v _
                k
                (λ secret.
                  and_then_kept (cluster.update_secret secret v) _
                    (keeps.update_secret_kept secret v k) (follow_budget_kept ar wire))))

  create_secret_if_kept :
      (secret : Option Secret) (ar : ActionsRunner) (wire : Files R C K) (w : World)
      → P w
      → P
          (create_secret_if runner_json credentials_json rsa_json own cluster secret ar wire w
            (update_files runner_json credentials_json rsa_json own cluster key ar wire)).1
  create_secret_if_kept (some s) ar wire w h = update_files_kept ar wire w h
  create_secret_if_kept none ar wire w h =
      built_kept (secret_for runner_json credentials_json rsa_json own cluster ar wire) w _ h
        (λ secret.
          and_then_kept
            (but_exists runner_json credentials_json rsa_json own cluster
              (cluster.create_secret secret w))
            _ (keeps.create_secret_kept secret w h) (update_files_kept ar wire))

  with_wire_kept :
      (config_map : Option ConfigMap) (secret : Option Secret) (ar : ActionsRunner)
      (wire : Files R C K) (w : World)
      → P w
      → P
          (with_wire runner_json credentials_json rsa_json own cluster key ar config_map secret wire
            w).1
  unfolding with_wire
  with_wire_kept (some c) secret ar wire w h = create_secret_if_kept secret ar wire w h
  with_wire_kept none secret ar wire w h =
      built_kept (config_map_for runner_json credentials_json rsa_json own cluster ar wire) w _ h
        (λ config_map.
          and_then_kept
            (but_exists runner_json credentials_json rsa_json own cluster
              (cluster.create_config_map config_map w))
            _ (keeps.create_config_map_kept config_map w h) (create_secret_if_kept secret ar wire))

  give_up_kept :
      (config_map : Option ConfigMap) (secret : Option Secret) (e : Error) (w : World)
      → P w
      → P (give_up runner_json credentials_json rsa_json own cluster config_map secret e w).1
  unfolding give_up
  give_up_kept config_map secret e w h =
      if_kept (not (is_unrecoverable e)) _ _ h
        (keeps.delete_secret_kept _ _ (keeps.delete_config_map_kept _ w h))

  connect_kept :
      (config_map : Option ConfigMap) (secret : Option Secret) (ar : ActionsRunner) (w : World)
      → P w
      → P (connect runner_json credentials_json rsa_json own cluster key ar config_map secret w).1
  unfolding connect
  connect_kept config_map secret ar w h = go (cluster.wire_for ar w).0 refl
    where
      go :
          (r : Result Error (Files R C K))
          → (cluster.wire_for ar w).0 ≡ r
          → P
              (connect runner_json credentials_json rsa_json own cluster key ar config_map secret
                w).1
      go (Result.err e) q =
          rw (connect, q)
            (give_up_kept config_map secret e (cluster.wire_for ar w).1
              (keeps.wire_for_kept ar w h))
      go (Result.ok wire) q =
          rw (connect, q)
            (with_wire_kept config_map secret ar wire (cluster.wire_for ar w).1
              (keeps.wire_for_kept ar w h))

  with_files_kept :
      (ar : ActionsRunner) (w : World)
      → P w
      → P (with_files runner_json credentials_json rsa_json own cluster key ar w).1
  unfolding with_files
  with_files_kept ar w h =
      go (lookup (cluster.get_config_map key w)) (lookup (cluster.get_secret key w)) refl refl
    where
      go :
          (r : Result ApiError (Option ConfigMap)) (s : Result ApiError (Option Secret))
          → lookup (cluster.get_config_map key w) ≡ r
          → lookup (cluster.get_secret key w) ≡ s
          → P (with_files runner_json credentials_json rsa_json own cluster key ar w).1
      go (Result.err e) s q p = rw (with_files, q) h
      go (Result.ok c) (Result.err e) q p =
          rw (with_files, q, p) (if_kept (leaving (λ m. m.metadata) c) (none, w) _ h h)
      go (Result.ok c) (Result.ok s) q p =
          rw (with_files, q, p)
            (if_kept (leaving (λ m. m.metadata) c) (none, w) _ h
              (if_kept (leaving (λ m. m.metadata) s) (none, w) _ h (connect_kept c s ar w h)))

  -- A pass keeps what these calls and its last part keep.
  pub pass_kept :
      (gone : Bool) (w : World)
      → P w
      → P (reconcile_runner runner_json credentials_json rsa_json own cluster gone key w).1
  unfolding reconcile_runner
  pass_kept true w h = h
  pass_kept false w h = go (cluster.get_runner key w) refl
    where
      go :
          (r : Result ApiError ActionsRunner)
          → cluster.get_runner key w ≡ r
          → P (reconcile_runner runner_json credentials_json rsa_json own cluster false key w).1
      go (Result.err not_found) q = rw (reconcile_runner, q) (keeps.try_destroy_kept key w h)
      go (Result.err e) q = rw (reconcile_runner, q) h
      go (Result.ok ar) q =
          rw (reconcile_runner, q)
            (if_kept (is_being_deleted ar.metadata) (none, w) _ h (with_files_kept ar w h))
