-- ===== src/Operator/Tests/Built.antt =====
-- Pods of a small ActionsRunner.
use mathlib.Core.List.{Perm}
use kube_actions.Prelude.{
  String, ◌≡◌, refl, Bool, true, false, not, List, [], ◌∷◌, map, none, some, All, ◌==◌, ◌||◌, ◌&&◌,
  if◌then◌else◌,
}
use kube_actions.Prelude.Result.{Result}
use kube_actions.Prelude.GoMap.{get}
use kube_actions.Operator.Api.Meta.{ObjectMeta}
use kube_actions.Operator.Api.Core.{Container, EnvFromSource, Pod, NodeSelectorRequirement}
use kube_actions.Operator.Api.Runner.{ActionsRunner, ActionsRunnerJob, no_claim, no_pod}
use kube_actions.Operator.Pod.Build.{Environment, no_metadata, base_pod, to_pod, has_capability}
use kube_actions.Operator.Pod.Build.Capabilities.{
  HasNoSecret, no_secret_without_capability, all_sources_with_capability, privileged_only_docker,
}
use kube_actions.Operator.Pod.Filters.Split.{filtered_resources-exact}
use kube_actions.Operator.Pod.Filters.{filtered_resource_requirements}
use kube_actions.Operator.Pod.Scheduling.{runtime_requirements, with_runtime_affinity}
use kube_actions.Operator.Pod.Scheduling.Placed.{all_hold}
use kube_actions.Operator.Pod.Build.Nodes.{requirement_of, may_run, to_pod-nodes}
use kube_actions.Operator.Pod.Volumes.{volume_mount_by_path}
use kube_actions.Operator.Pod.Volumes.Own.{credentials_mounted}

abbrev pub own : ObjectMeta → ObjectMeta → Result String ObjectMeta
own owner m = Result.ok (record m { owner = some owner.name })

abbrev pub production : Environment
production = record {
  runner_image_name = "inloco/kube-actions";
  runner_image_version = "v1";
  runner_image_variant = "-runner";
  dind_image_name = "inloco/kube-actions";
  dind_image_version = "v1";
  dind_image_variant = "-dind";
  os = "linux";
  arch = "amd64";
  image = λ name version variant. name;
  set_controller_reference = own;
}

abbrev two_sources : List EnvFromSource
two_sources =
    record { env_prefix = ""; secret_ref = some "keys"; config_map_ref = none }
    ∷ record { env_prefix = ""; secret_ref = none; config_map_ref = some "settings" }
    ∷ []

abbrev pub runner_with : List String → ActionsRunner
runner_with capabilities = record {
  metadata = record no_metadata { name = "a"; namespace = "ci" };
  spec = record {
    repository = record { owner = "inloco"; name = "kube-actions"; api_endpoint = "" };
    policy = record { must = []; must_not = [] };
    capabilities = capabilities;
    annotations = [];
    labels = none;
    version = "";
    volumes = [];
    volume_mounts = [];
    env_from = two_sources;
    env = [];
    resources = [];
    service_account_name = "builder";
    affinity = none;
    tolerations = [];
    node_selector = [];
  };
}

abbrev pub job_in : ActionsRunnerJob
job_in = record {
  metadata = record no_metadata { name = "a"; namespace = "ci" };
  status = record { persistent_volume_claim_phase = no_claim; pod_phase = no_pod };
}

-- The returned pod, and one for an error.
abbrev pod_or : Pod → Result String Pod → Pod
pod_or p (Result.err e) = p
pod_or p (Result.ok pod) = pod

unfoldable built : List String → Pod
unfolding to_pod
built capabilities =
    pod_or (base_pod production (runner_with capabilities) job_in)
      (to_pod production (runner_with capabilities) job_in)

no_secret_without_capability_example :
    All HasNoSecret (built ("docker" ∷ [])).containers
    × ((built ("docker" ∷ [])).service_account_name ≡ "")
    × ((built ("docker" ∷ [])).automount_service_account_token ≡ false)
unfolding built to_pod has_capability
no_secret_without_capability_example =
    no_secret_without_capability production (runner_with ("docker" ∷ [])) job_in
      (built ("docker" ∷ [])) refl refl

all_sources_with_capability_example :
    (c : Container) × (cs : List Container) × ((built ("secret" ∷ [])).containers ≡ c ∷ cs)
    × (c.name ≡ "runner")
    × Perm c.env_from two_sources
    × ((built ("secret" ∷ [])).automount_service_account_token ≡ true)
unfolding built to_pod has_capability
all_sources_with_capability_example =
    all_sources_with_capability production (runner_with ("secret" ∷ [])) job_in
      (built ("secret" ∷ [])) refl refl

privileged_only_docker_example :
    map {B = String × Bool} (λ c. (c.name, c.privileged)) (built ("docker" ∷ [])).containers ≡ (
      if has_capability "docker" ("docker" ∷ [])
      then ("runner", false) ∷ ("dind", true) ∷ []
      else ("runner", false) ∷ [])
unfolding built to_pod
privileged_only_docker_example =
    privileged_only_docker production (runner_with ("docker" ∷ [])) job_in (built ("docker" ∷ []))
      refl

filtered_resources-exact_example :
    (get
        (filtered_resource_requirements
          (record { limits = ("gpu", 1) ∷ ("cpu", 2) ∷ []; requests = [] })
          ("cpu" ∷ [])).limits
        "gpu"
      ≡ none)
    × (get
          (filtered_resource_requirements
            (record { limits = ("gpu", 1) ∷ ("cpu", 2) ∷ []; requests = [] })
            ("cpu" ∷ [])).requests
          "gpu"
        ≡ none)
filtered_resources-exact_example =
    filtered_resources-exact (record { limits = ("gpu", 1) ∷ ("cpu", 2) ∷ []; requests = [] })
      ("cpu" ∷ []) "gpu"

-- A node that runs linux on amd64, in the zone a, with the label of the pod's node selector.
abbrev ci_node : NodeSelectorRequirement → Bool
ci_node r = elim r.values [
  | [] ↦ false
  | v ∷ vs ↦ v == "linux" || v == "amd64" || v == "a" || v == "true"
]

abbrev in_zone : NodeSelectorRequirement
in_zone = record { key = "topology.kubernetes.io/zone"; operator = "In"; values = "a" ∷ [] }

-- A runner that asks for that zone, and its pod.
abbrev runner_in_zone : ActionsRunner
runner_in_zone = record (runner_with []) {
  spec = record ((runner_with []).spec) {
    affinity = some (record {
      node_affinity = some (record {
        required_during_scheduling = some (record {
          node_selector_terms = record { match_expressions = in_zone ∷ []; match_fields = [] } ∷ [];
        });
        preferred_during_scheduling = "";
      });
      pod_affinity = "";
    });
  };
}

abbrev pod_in_zone : Pod
pod_in_zone =
    pod_or (base_pod production runner_in_zone job_in) (to_pod production runner_in_zone job_in)

to_pod-nodes_example : may_run ci_node pod_in_zone ≡ (
    (ci_node in_zone && all_hold ci_node (runtime_requirements "linux" "amd64"))
    && ci_node (requirement_of ("node-role.incognia.com/ci", "true")))
unfolding to_pod has_capability
to_pod-nodes_example =
    to_pod-nodes production ci_node runner_in_zone job_in pod_in_zone ((λ e. cc), (refl, tt)) refl

-- The pod runs there, and not on a node of another zone.
runs_there : may_run ci_node pod_in_zone ≡ true
unfolding to_pod has_capability with_runtime_affinity
runs_there = refl

not_elsewhere :
    may_run (λ r. not (r.key == "topology.kubernetes.io/zone") && ci_node r) pod_in_zone ≡ false
unfolding to_pod has_capability with_runtime_affinity
not_elsewhere = refl

credentials_mounted_example :
    (get (volume_mount_by_path (runner_with [])) "/opt/actions-runner/.runner"
      ≡ some (record {
        mount_path = "/opt/actions-runner/.runner";
        name = "config-map";
        sub_path = ".runner";
      }))
    × (get (volume_mount_by_path (runner_with [])) "/opt/actions-runner/.credentials"
        ≡ some (record {
          mount_path = "/opt/actions-runner/.credentials";
          name = "config-map";
          sub_path = ".credentials";
        }))
    × (get (volume_mount_by_path (runner_with [])) "/opt/actions-runner/.credentials_rsaparams"
        ≡ some (record {
          mount_path = "/opt/actions-runner/.credentials_rsaparams";
          name = "secret";
          sub_path = ".credentials_rsaparams";
        }))
credentials_mounted_example = credentials_mounted (runner_with [])
