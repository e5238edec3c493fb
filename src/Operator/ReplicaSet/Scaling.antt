-- ===== src/Operator/ReplicaSet/Scaling.antt =====
-- The replica set reconciler over a healthy API server: it closes the gap to the number of
-- replicas one runner at a time.
use kube_actions.Prelude.{
  ℕ, zero, suc, ◌+◌, ◌-◌, ◌<◌, String, Bool, ◌≡◌, refl, sym, ap, ◌∙◌, true, false, ◌==◌, ◌&&◌, List,
  [], ◌∷◌, Option, none, some, length, arith, eq_iff, eq_refl,
}
use kube_actions.Prelude.Result.{Result}
use kube_actions.Prelude.Outcome.{ok}
use kube_actions.Prelude.GoMap.{GoMap, get}
use kube_actions.Operator.Api.Meta.{ObjectKey, ObjectMeta, is_being_deleted}
use kube_actions.Operator.Api.Runner.{ActionsRunner, ActionsRunnerReplicaSet}
use kube_actions.Operator.ReplicaSet.{
  Cluster, matching_labels, int_limit, fewer, more, not_being_deleted, desired_metadata,
  desired_actions_runner, desired_selector, update_status_replicas, scale_up, scale_down, scale,
  with_selector, reconcile,
}

-- Whether a list in a namespace with some labels finds an object.
abbrev pub has_labels : GoMap String → GoMap String → Bool
has_labels [] labels = true
has_labels ((k, v) ∷ wanted) labels =
    elim (get labels k) [ none ↦ false | some found ↦ found == v ] && has_labels wanted labels

abbrev pub is_listed : String → GoMap String → ObjectMeta → Bool
is_listed namespace wanted m = (m.namespace == namespace) && has_labels wanted m.labels

-- An API server on which no call fails and no one else writes. `rs` is the stored replica set and
-- `items` what a list of its runners returns. The first runner of the list, if it counts, stops to count
-- when it is deleted, and the deletion of one that is being deleted already changes nothing. An update
-- of the status of an object with the metadata of the replica set changes its status.
pub record IsHealthy (cluster : Cluster) (key : ObjectKey) : Type 1 where
  pub rs : cluster.World → ActionsRunnerReplicaSet
  pub items : cluster.World → List ActionsRunner
  pub selector : String
  pub get_rs : (w : cluster.World) → cluster.get_replica_set key w ≡ Result.ok (rs w)
  pub list_items :
      (w : cluster.World)
      → cluster.list_runners (rs w).metadata.namespace (matching_labels (rs w)) w
        ≡ Result.ok (items w)
  pub selector_of : (w : cluster.World) → desired_selector cluster (rs w) ≡ Result.ok selector
  pub delete_ok : (r : ActionsRunner) (w : cluster.World) → (cluster.delete_runner r w).0 ≡ none
  pub delete_rs : (r : ActionsRunner) (w : cluster.World) → rs (cluster.delete_runner r w).1 ≡ rs w
  pub delete_items :
      (r : ActionsRunner) (rest : List ActionsRunner) (w : cluster.World)
      → items w ≡ r ∷ rest
      → is_being_deleted r.metadata ≡ false
      → suc (length (not_being_deleted (items (cluster.delete_runner r w).1)))
        ≡ length (not_being_deleted (items w))
  pub delete_again :
      (r : ActionsRunner) (w : cluster.World)
      → is_being_deleted r.metadata ≡ true
      → items (cluster.delete_runner r w).1 ≡ items w
  pub status_ok :
      (r : ActionsRunnerReplicaSet) (w : cluster.World) → (cluster.update_status r w).0 ≡ none
  pub status_rs :
      (r : ActionsRunnerReplicaSet) (w : cluster.World)
      → r.metadata ≡ (rs w).metadata
      → rs (cluster.update_status r w).1 ≡ record (rs w) { status = r.status }
  pub status_items :
      (r : ActionsRunnerReplicaSet) (w : cluster.World)
      → items (cluster.update_status r w).1 ≡ items w

-- Creations on such an API server: none fails, and none changes the replica set. A runner that is created
-- in the namespace and with the labels of the list is listed and counts. `SetControllerReference` sets
-- the owner only, if there is none yet and the owner is in the same namespace.
pub record CreatesRunners (cluster : Cluster) (key : ObjectKey) (healthy : IsHealthy cluster key)
    : Type 0 where
  pub sets_owner :
      (owner m : ObjectMeta)
      → m.owner ≡ none
      → m.namespace ≡ owner.namespace
      → (o : Option String) × (cluster.set_controller_reference owner m
          ≡ Result.ok (record m { owner = o }))
  pub create_ok : (r : ActionsRunner) (w : cluster.World) → (cluster.create_runner r w).0 ≡ none
  pub create_rs :
      (r : ActionsRunner) (w : cluster.World)
      → healthy.rs (cluster.create_runner r w).1 ≡ healthy.rs w
  pub create_items :
      (r : ActionsRunner) (w : cluster.World)
      → is_listed (healthy.rs w).metadata.namespace (matching_labels (healthy.rs w)) r.metadata
        ≡ true
      → length (not_being_deleted (healthy.items (cluster.create_runner r w).1))
        ≡ suc (length (not_being_deleted (healthy.items w)))

module _ (cluster : Cluster) (key : ObjectKey) (healthy : IsHealthy cluster key) where
  open cluster use {World, create_runner, delete_runner, update_status}
  open healthy use {
    rs, items, selector, get_rs, list_items, selector_of, delete_ok, delete_rs, delete_items,
    delete_again, status_ok, status_rs, status_items,
  }

  -- How many runners the reconciler counts.
  abbrev pub actual : World → ℕ
  actual w = length (not_being_deleted (items w))

  -- The replica set is not being deleted and its selector is up to date.
  pub record IsSettled (w : World) : Type 0 where
    pub stays : is_being_deleted (rs w).metadata ≡ false
    pub selected : (rs w).status.selector ≡ selector
    pub fits : (rs w).spec.replicas < int_limit

  reconcile-scale :
      (w : World) → IsSettled w → reconcile cluster key w ≡ scale cluster (rs w) (items w) w
  unfolding reconcile with_selector
  reconcile-scale w s = ground (
    arith,
    get_rs w,
    s.stays,
    selector_of w,
    (eq_iff (rs w).status.selector selector).1 s.selected,
    list_items w,
  )

  -- A status update with another number of replicas leaves all else as it is.
  update_status_replicas-ok :
      (r : ActionsRunnerReplicaSet) (n : ℕ) (w : World)
      → (update_status_replicas cluster r n w).0 ≡ ok tt
  unfolding update_status_replicas
  update_status_replicas-ok r n w =
      ground (arith, status_ok (record r { status = record (r.status) { replicas = n } }) w)

  update_status_replicas-world :
      (r : ActionsRunnerReplicaSet) (n : ℕ) (w : World)
      → (update_status_replicas cluster r n w).1
        ≡ (update_status (record r { status = record (r.status) { replicas = n } }) w).1
  unfolding update_status_replicas
  update_status_replicas-world r n w =
      ground (arith, status_ok (record r { status = record (r.status) { replicas = n } }) w)

  -- The world that `update_status_replicas` leaves.
  module _ (r : ActionsRunnerReplicaSet) (n : ℕ) (w : World) where
    abbrev updated : World
    updated = (update_status_replicas cluster r n w).1

    updated-items : items updated ≡ items w
    updated-items =
        ap items (update_status_replicas-world r n w)
        ∙ status_items (record r { status = record (r.status) { replicas = n } }) w

    updated-rs : rs w ≡ r → rs updated ≡ record r { status = record (r.status) { replicas = n } }
    updated-rs e =
        ap rs (update_status_replicas-world r n w)
        ∙ (status_rs (record r { status = record (r.status) { replicas = n } }) w
              (ap (λ (q : ActionsRunnerReplicaSet). q.metadata) (sym e))
            ∙ ap
                (λ (q : ActionsRunnerReplicaSet). record q {
                  status = record (r.status) { replicas = n };
                })
                e)

  -- What the reconciler does above the number of replicas.
  reconcile-down :
      (w : World) (first : ActionsRunner) (rest : List ActionsRunner)
      → IsSettled w
      → items w ≡ first ∷ rest
      → (rs w).spec.replicas < actual w
      → reconcile cluster key w
        ≡ update_status_replicas cluster (rs w) (actual w - 1) (delete_runner first w).1
  unfolding scale fewer more scale_down
  reconcile-down w first rest s e h =
      reconcile-scale w s ∙ ground (arith, s.fits, e, delete_ok first w)

  -- On a healthy API server and a settled replica set (not being deleted, selector up to date,
  -- fewer than 2^63 replicas): one reconciliation above the number of replicas, if the first
  -- runner of the list is not being deleted, succeeds, one runner less counts, and the status has
  -- the new number, while metadata, spec and selector stay.
  pub scale_down-step :
      (w : World) (first : ActionsRunner) (rest : List ActionsRunner)
      → IsSettled w
      → items w ≡ first ∷ rest
      → is_being_deleted first.metadata ≡ false
      → (rs w).spec.replicas < actual w
      → ((reconcile cluster key w).0 ≡ ok tt)
        × (actual (reconcile cluster key w).1 + 1 ≡ actual w)
        × (rs (reconcile cluster key w).1
            ≡ record (rs w) { status = record ((rs w).status) { replicas = actual w - 1 } })
  scale_down-step w first rest s e counts h =
      let v = (delete_runner first w).1 in
      rw (reconcile-down w first rest s e h) (
        update_status_replicas-ok (rs w) (actual w - 1) v,
        omega (
          arith,
          ap (λ l. length (not_being_deleted l)) (updated-items (rs w) (actual w - 1) v),
          delete_items first rest w e counts,
        ),
        updated-rs (rs w) (actual w - 1) v (delete_rs first w),
      )

  -- On a healthy API server and a settled replica set (not being deleted, selector up to date,
  -- fewer than 2^63 replicas): if the first runner of the list is being deleted already, a
  -- reconciliation above the number of replicas succeeds and leaves the listed runners as they
  -- were, but the status says that there is one less than are counted.
  pub scale_down_stalls :
      (w : World) (first : ActionsRunner) (rest : List ActionsRunner)
      → IsSettled w
      → items w ≡ first ∷ rest
      → is_being_deleted first.metadata ≡ true
      → (rs w).spec.replicas < actual w
      → ((reconcile cluster key w).0 ≡ ok tt)
        × (items (reconcile cluster key w).1 ≡ items w)
        × ((rs (reconcile cluster key w).1).status.replicas ≡ actual w - 1)
  scale_down_stalls w first rest s e gone h =
      let v = (delete_runner first w).1 in
      rw (reconcile-down w first rest s e h) (
        update_status_replicas-ok (rs w) (actual w - 1) v,
        updated-items (rs w) (actual w - 1) v ∙ delete_again first w gone,
        ap (λ (r : ActionsRunnerReplicaSet). r.status.replicas)
            (updated-rs (rs w) (actual w - 1) v (delete_rs first w)),
      )

  -- The world after a number of reconciliations.
  abbrev pub reconcile_times : ℕ → World → World
  reconcile_times zero w = w
  reconcile_times (suc n) w = reconcile_times n (reconcile cluster key w).1

  module _ (creates : CreatesRunners cluster key healthy) where
    open creates use {sets_owner, create_ok, create_rs, create_items}

    -- The runner that is desired, which a list of the runners of the replica set finds.
    desired_of :
        (w : World)
        → (r : ActionsRunner) × (desired_actions_runner cluster (rs w) ≡ Result.ok r)
          × (is_listed (rs w).metadata.namespace (matching_labels (rs w)) r.metadata ≡ true)
    unfolding desired_actions_runner desired_metadata matching_labels get
    desired_of w =
        let m = desired_metadata cluster (rs w) in
        let (o, set) = sets_owner (rs w).metadata m refl refl in
        (
          record { metadata = record m { owner = o }; spec = (rs w).spec.template },
          rw (desired_actions_runner, set) refl,
          ground (arith, eq_refl (rs w).metadata.namespace, eq_refl (rs w).metadata.name),
        )

    -- What the reconciler does below the number of replicas.
    reconcile-up :
        (w : World)
        → IsSettled w
        → actual w < (rs w).spec.replicas
        → reconcile cluster key w
          ≡ update_status_replicas cluster
              (rs w)
              (actual w + 1)
              (create_runner (desired_of w).0 w).1
    unfolding scale fewer scale_up
    reconcile-up w s h =
        reconcile-scale w s ∙ ground (arith, s.fits, (desired_of w).1, create_ok (desired_of w).0 w)

    -- On a healthy API server that lists what it creates, and a settled replica set (not being deleted, selector up to date,
    -- fewer than 2^63 replicas): one reconciliation below the number of replicas succeeds, one more
    -- runner counts, and the status has the new number, while metadata, spec and selector stay.
    pub scale_up-step :
        (w : World)
        → IsSettled w
        → actual w < (rs w).spec.replicas
        → ((reconcile cluster key w).0 ≡ ok tt)
          × (actual (reconcile cluster key w).1 ≡ actual w + 1)
          × (rs (reconcile cluster key w).1
              ≡ record (rs w) { status = record ((rs w).status) { replicas = actual w + 1 } })
    scale_up-step w s h =
        let v = (create_runner (desired_of w).0 w).1 in
        rw (reconcile-up w s h) (
          update_status_replicas-ok (rs w) (actual w + 1) v,
          omega (
            arith,
            ap (λ l. length (not_being_deleted l)) (updated-items (rs w) (actual w + 1) v),
            create_items (desired_of w).0 w (desired_of w).2,
          ),
          updated-rs (rs w) (actual w + 1) v (create_rs (desired_of w).0 w),
        )

    IsSettled-scale_up :
        (w : World)
        → IsSettled w
        → actual w < (rs w).spec.replicas
        → IsSettled (reconcile cluster key w).1
    IsSettled-scale_up w s h =
        let e = (scale_up-step w s h).2 in
        record { stays = rw e s.stays; selected = rw e s.selected; fits = rw e s.fits }

    -- On a healthy API server that lists what it creates, and a settled replica set (not being deleted, selector up to date,
    -- fewer than 2^63 replicas): if n runners are missing, n reconciliations reach the number of
    -- replicas, and the spec stays what it was.
    pub scale_up_converges :
        (n : ℕ) (w : World)
        → IsSettled w
        → actual w + n ≡ (rs w).spec.replicas
        → (actual (reconcile_times n w) ≡ (rs w).spec.replicas)
          × ((rs (reconcile_times n w)).spec ≡ (rs w).spec)
    scale_up_converges zero w s h = (omega arith, refl)
    scale_up_converges (suc n) w s h =
        let below : actual w < (rs w).spec.replicas = omega arith in
        let (_, one_more, same) = scale_up-step w s below in
        let same_spec = ap (λ (r : ActionsRunnerReplicaSet). r.spec) same in
        let same_replicas = ap (λ (r : ActionsRunnerReplicaSet). r.spec.replicas) same in
        let (reached, kept) =
          scale_up_converges n (reconcile cluster key w).1 (IsSettled-scale_up w s below)
            (omega (arith, one_more, same_replicas)) in
        (reached ∙ same_replicas, kept ∙ same_spec)
