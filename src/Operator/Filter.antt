-- ===== src/Operator/Filter.antt =====
-- Which events reach a reconciler: `EventObject` of operator/internal/controller/util.go, and `eventFilter`
-- of the reconcilers of ActionsRunners and of ActionsRunnerJobs. An object is given by its type.
use kube_actions.Prelude.{String, Bool, true, false, Option, none, some, ◌≡◌, refl, ◌||◌}

pub data ObjectType : Type 0 where
  actions_runner actions_runner_job persistent_volume_claim pod config_map secret
        pod_disruption_budget :
      ObjectType
  other_type : String → ObjectType

-- The events of controller-runtime, whose objects may be nil, and any other value.
pub data Event : Type 0 where
  create_event delete_event generic_event : Option ObjectType → Event
  update_event : Option ObjectType → Option ObjectType → Event
  other_event : Event

-- Of an update it is the new object.
unfoldable pub event_object : Event → Option ObjectType
event_object (create_event object) = object
event_object (update_event old new) = new
event_object (delete_event object) = object
event_object (generic_event object) = object
event_object other_event = none

abbrev pub is_create : Event → Bool
is_create (create_event object) = true
is_create e = false

abbrev pub is_update : Event → Bool
is_update (update_event old new) = true
is_update e = false

abbrev pub is_delete : Event → Bool
is_delete (delete_event object) = true
is_delete e = false

-- `eventFilter` of actionsrunnerjob/reconciler.go
unfoldable pub job_event_filter : Event → Bool
unfolding event_object
job_event_filter e = by_object (event_object e)
  where
    by_object : Option ObjectType → Bool
    by_object (some actions_runner_job) = is_create e || is_update e
    by_object (some persistent_volume_claim) = is_update e || is_delete e
    by_object (some pod) = is_update e || is_delete e
    by_object object = true

-- `eventFilter` of actionsrunner/reconciler.go
unfoldable pub runner_event_filter : Event → Bool
unfolding event_object
runner_event_filter e = by_object (event_object e)
  where
    by_object : Option ObjectType → Bool
    by_object (some config_map) = is_update e || is_delete e
    by_object (some secret) = is_update e || is_delete e
    by_object (some pod_disruption_budget) = is_update e || is_delete e
    by_object (some actions_runner_job) = is_update e || is_delete e
    by_object object = true

-- Every update passes both filters.
updates_pass :
    (old : Option ObjectType) (new : Option ObjectType)
    → (job_event_filter (update_event old new) ≡ true)
      × (runner_event_filter (update_event old new) ≡ true)
unfolding job_event_filter runner_event_filter
updates_pass old none = (refl, refl)
updates_pass old (some actions_runner) = (refl, refl)
updates_pass old (some actions_runner_job) = (refl, refl)
updates_pass old (some persistent_volume_claim) = (refl, refl)
updates_pass old (some pod) = (refl, refl)
updates_pass old (some config_map) = (refl, refl)
updates_pass old (some secret) = (refl, refl)
updates_pass old (some pod_disruption_budget) = (refl, refl)
updates_pass old (some (other_type t)) = (refl, refl)
