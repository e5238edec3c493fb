-- ===== src/Operator/Api/Runner.antt =====
-- operator/api/v1alpha1: ActionsRunner, ActionsRunnerJob and ActionsRunnerReplicaSet.
use native.Mathlib.Decide.{ℕ_discrete}
use kube_actions.Prelude.{
  ℕ, String, List, [], Option, none, some, String-discrete, Bool, true, false,
}
use kube_actions.Prelude.GoMap.{GoMap}
use kube_actions.Operator.Api.Meta.{ObjectMeta}
use kube_actions.Operator.Api.Core.{
  Volume, VolumeMount, EnvFromSource, EnvVar, ResourceRequirements, Affinity, Toleration,
}

pub record ActionsRunnerRepository : Type 0 where
  pub owner : String
  pub name : String
  pub api_endpoint : String

pub record ActionsRunnerPolicy : Type 0 where
  pub must : List String
  pub must_not : List String

-- The labels may be nil, which the webhook tells apart from an empty slice.
pub record ActionsRunnerSpec : Type 0 where
  pub repository : ActionsRunnerRepository
  pub policy : ActionsRunnerPolicy
  pub capabilities : List String
  pub annotations : GoMap String
  pub labels : Option (List String)
  pub version : String
  pub volumes : List Volume
  pub volume_mounts : List VolumeMount
  pub env_from : List EnvFromSource
  pub env : List EnvVar
  pub resources : GoMap ResourceRequirements
  pub service_account_name : String
  pub affinity : Option Affinity
  pub tolerations : List Toleration
  pub node_selector : GoMap String

pub record ActionsRunner : Type 0 where
  pub metadata : ObjectMeta
  pub spec : ActionsRunnerSpec

pub data PersistentVolumeClaimPhase : Type 0 where
  no_claim pending bound lost : PersistentVolumeClaimPhase

pub data PodPhase : Type 0 where
  no_pod pending running succeeded failed unknown : PodPhase

pub record ActionsRunnerJobStatus : Type 0 where
  pub persistent_volume_claim_phase : PersistentVolumeClaimPhase
  pub pod_phase : PodPhase

pub record ActionsRunnerJob : Type 0 where
  pub metadata : ObjectMeta
  pub status : ActionsRunnerJobStatus

pub record ActionsRunnerReplicaSetSpec : Type 0 where
  pub replicas : ℕ
  pub template : ActionsRunnerSpec

pub record ActionsRunnerReplicaSetStatus : Type 0 where
  pub replicas : ℕ
  pub selector : String

pub record ActionsRunnerReplicaSet : Type 0 where
  pub metadata : ObjectMeta
  pub spec : ActionsRunnerReplicaSetSpec
  pub status : ActionsRunnerReplicaSetStatus

-- The elements of a slice that may be nil.
abbrev pub elements : Option (List String) → List String
elements none = []
elements (some l) = l

-- `reflect.DeepEqual` on two specs. A nil and an empty slice, which it tells apart, are one list here,
-- except for the labels.
unfoldable pub ActionsRunnerSpec-discrete : Discrete ActionsRunnerSpec
ActionsRunnerSpec-discrete = hlevel (ℕ_discrete, String-discrete)

unfoldable pub deep_equal : ActionsRunnerSpec → ActionsRunnerSpec → Bool
deep_equal a b = elim (ActionsRunnerSpec-discrete a b) [ yes _ ↦ true | no _ ↦ false ]
