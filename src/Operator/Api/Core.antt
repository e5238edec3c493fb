-- ===== src/Operator/Api/Core.antt =====
-- The Kubernetes types (k8s.io/api/core/v1, a dependency), with the fields that the code reads or
-- sets; what it only copies is kept as a text.
use kube_actions.Prelude.{ℕ, String, Bool, List, Option}
use kube_actions.Prelude.GoMap.{GoMap}
use kube_actions.Operator.Api.Meta.{ObjectMeta}

-- `EnvVarSource`: a reference into a secret, or another source.
pub record EnvVarSource : Type 0 where
  pub secret_key_ref : Option String
  pub other_source : Option String

pub record EnvVar : Type 0 where
  pub name : String
  pub value : String
  pub value_from : Option EnvVarSource

pub record EnvFromSource : Type 0 where
  pub env_prefix : String
  pub secret_ref : Option String
  pub config_map_ref : Option String

-- A quantity of a resource, in its smallest unit.
abbrev pub Quantity : Type 0
Quantity = ℕ

pub record ResourceRequirements : Type 0 where
  pub limits : GoMap Quantity
  pub requests : GoMap Quantity

pub data VolumeSource : Type 0 where
  config_map secret persistent_volume_claim other_volume : String → VolumeSource

pub record Volume : Type 0 where
  pub name : String
  pub source : VolumeSource

pub record VolumeMount : Type 0 where
  pub mount_path : String
  pub name : String
  pub sub_path : String

pub record NodeSelectorRequirement : Type 0 where
  pub key : String
  pub operator : String
  pub values : List String

pub record NodeSelectorTerm : Type 0 where
  pub match_expressions : List NodeSelectorRequirement
  pub match_fields : List NodeSelectorRequirement

pub record NodeSelector : Type 0 where
  pub node_selector_terms : List NodeSelectorTerm

pub record NodeAffinity : Type 0 where
  pub required_during_scheduling : Option NodeSelector
  pub preferred_during_scheduling : String

pub record Affinity : Type 0 where
  pub node_affinity : Option NodeAffinity
  pub pod_affinity : String

pub record Toleration : Type 0 where
  pub key : String
  pub operator : String
  pub value : String
  pub effect : String

-- `Probe` with an `Exec` handler.
pub record Probe : Type 0 where
  pub command : List String
  pub initial_delay_seconds : ℕ

pub record Container : Type 0 where
  pub name : String
  pub image : String
  pub env_from : List EnvFromSource
  pub env : List EnvVar
  pub resources : ResourceRequirements
  pub volume_mounts : List VolumeMount
  pub liveness_probe : Option Probe
  pub privileged : Bool

pub record PodSecurityContext : Type 0 where
  pub run_as_user : ℕ
  pub run_as_group : ℕ
  pub run_as_non_root : Bool
  pub fs_group : ℕ
  pub sysctls : List (String × String)

pub record Pod : Type 0 where
  pub metadata : ObjectMeta
  pub active_deadline_seconds : ℕ
  pub volumes : List Volume
  pub containers : List Container
  pub restart_policy : String
  pub service_account_name : String
  pub automount_service_account_token : Bool
  pub security_context : PodSecurityContext
  pub affinity : Option Affinity
  pub tolerations : List Toleration
  pub node_selector : GoMap String

pub record PersistentVolumeClaim : Type 0 where
  pub metadata : ObjectMeta
  pub access_modes : List String
  pub resources : ResourceRequirements
