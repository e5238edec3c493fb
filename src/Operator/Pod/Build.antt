-- ===== src/Operator/Pod/Build.antt =====
-- `ToPod`, `addSecretCapability`, `addDockerCapability` and `ToPersistentVolumeClaim` of
-- actionsrunner/util/converters.go. The names of the images come from the environment and are a
-- parameter, as is `ctrl.SetControllerReference`, of which only what it returns matters here: the
-- object with its owner, or an error.
pub mod Capabilities
pub mod Nodes
pub mod Named
use kube_actions.Prelude.{
  ℕ, String, Bool, true, false, not, List, [], ◌∷◌, ◌++◌, Option, none, some, ◌==◌, ◌||◌,
  if◌then◌else◌,
}
use kube_actions.Prelude.Result
use kube_actions.Prelude.Result.{Result}
use kube_actions.Operator.Api.Meta.{ObjectMeta}
use kube_actions.Operator.Api.Core.{
  EnvVar, Container, Pod, PersistentVolumeClaim, Probe, Toleration, VolumeMount,
  ResourceRequirements,
}
use kube_actions.Operator.Api.Runner.{ActionsRunner, ActionsRunnerSpec, ActionsRunnerJob}
use kube_actions.Operator.Pod.Filters.{
  filtered_env_from_sources, filtered_env_vars, has_secret_ref, has_secret_key_ref,
  has_requested_storage, resources_for,
}
use kube_actions.Operator.Pod.Volumes.{with_volumes, with_volume_mounts}
use kube_actions.Operator.Pod.Scheduling.{with_runtime_affinity}

-- `runnerImageName`, `dindImageName`, their versions and variants, `constants.OS()` and
-- `constants.Arch()`; `image` is the `Sprintf` that puts an image's reference together.
pub record Environment : Type 0 where
  pub runner_image_name : String
  pub runner_image_version : String
  pub runner_image_variant : String
  pub dind_image_name : String
  pub dind_image_version : String
  pub dind_image_variant : String
  pub os : String
  pub arch : String
  pub image : String → String → String → String
  -- `ctrl.SetControllerReference`: the owner's name and the object's metadata, and the error.
  pub set_controller_reference : ObjectMeta → ObjectMeta → Result String ObjectMeta

-- An environment variable with a value.
abbrev pub plain : String → String → EnvVar
plain name value = record { name = name; value = value; value_from = none }

-- `if Spec.Version != "" { imageVersion = Spec.Version }`
abbrev pub image_version : String → ActionsRunnerSpec → String
image_version version spec = if spec.version == "" then version else spec.version

-- The set `capabilities`, asked for one of them.
unfoldable pub has_capability : String → List String → Bool
has_capability name [] = false
has_capability name (c ∷ cs) = c == name || has_capability name cs

abbrev pub no_metadata : ObjectMeta
no_metadata = record {
  name = "";
  generate_name = "";
  namespace = "";
  labels = [];
  annotations = [];
  deletion_timestamp = none;
  owner = none;
}

-- `&pod.Spec.Containers[0]`, changed in place.
abbrev pub change_first : (Container → Container) → List Container → List Container
change_first f [] = []
change_first f (c ∷ cs) = f c ∷ cs

-- The variables that every runner gets.
abbrev pub identity_variables : ActionsRunner → ActionsRunnerJob → List EnvVar
identity_variables ar arj =
    plain "KUBEACTIONS_ACTIONSRUNNER_NAME" ar.metadata.name
    ∷ plain "KUBEACTIONS_ACTIONSRUNNER_REPOSITORY_OWNER" ar.spec.repository.owner
    ∷ plain "KUBEACTIONS_ACTIONSRUNNER_REPOSITORY_NAME" ar.spec.repository.name
    ∷ plain "KUBEACTIONS_ACTIONSRUNNERJOB_NAME" arj.metadata.name
    ∷ []

-- `corev1.ResourceCPU`, `ResourceMemory` and `ResourceEphemeralStorage`
abbrev pub compute_names : List String
compute_names = "cpu" ∷ "memory" ∷ "ephemeral-storage" ∷ []

unfoldable pub add_secret_capability : Pod → ActionsRunner → Pod
unfolding filtered_env_from_sources filtered_env_vars
add_secret_capability pod ar = record pod {
  containers =
      change_first
        (λ c. record c {
          env_from = c.env_from ++ filtered_env_from_sources ar.spec.env_from has_secret_ref;
          env = c.env ++ filtered_env_vars ar.spec.env has_secret_key_ref;
        })
        pod.containers;
  service_account_name = ar.spec.service_account_name;
  automount_service_account_token = true;
}

abbrev dind_volume_mounts : ActionsRunner → List VolumeMount
dind_volume_mounts ar =
    if has_requested_storage ar.spec
    then record {
      mount_path = "/home/rootless";
      name = "persistent-volume-claim";
      sub_path = ":home:rootless";
    }
      ∷ record {
        mount_path = "/home/rootless/.local/share/docker";
        name = "persistent-volume-claim";
        sub_path = ":home:rootless:.local:share:docker";
      }
      ∷ record {
        mount_path = "/opt/actions-runner/_work";
        name = "persistent-volume-claim";
        sub_path = ":opt:actions-runner:_work";
      }
      ∷ []
    else []

module _ (environment : Environment) where
  -- The container of the Docker daemon.
  abbrev pub dind_container : ActionsRunner → Container
  dind_container ar = record {
    name = "dind";
    image =
        environment.image environment.dind_image_name
          (image_version environment.dind_image_version ar.spec) environment.dind_image_variant;
    env_from = [];
    env = plain "DOCKER_TLS_CERTDIR" "" ∷ [];
    resources = resources_for ar.spec "docker" compute_names;
    volume_mounts = dind_volume_mounts ar;
    liveness_probe =
        some
          (record { command = "nc" ∷ "-z" ∷ "127.0.0.1" ∷ "2375" ∷ []; initial_delay_seconds = 3 });
    privileged = true;
  }

  unfoldable pub add_docker_capability : Pod → ActionsRunner → Pod
  add_docker_capability pod ar = record pod {
    containers =
        change_first
          (λ c. record c { env = c.env ++ (plain "DOCKER_HOST" "tcp://localhost:2375" ∷ []) })
          pod.containers
        ++ (dind_container ar ∷ []);
  }

  -- The container of the runner, before capabilities are added.
  abbrev pub runner_container : ActionsRunner → ActionsRunnerJob → Container
  runner_container ar arj = record {
    name = "runner";
    image =
        environment.image environment.runner_image_name
          (image_version environment.runner_image_version ar.spec) environment.runner_image_variant;
    env_from = filtered_env_from_sources ar.spec.env_from (λ s. not (has_secret_ref s));
    env =
        filtered_env_vars ar.spec.env (λ v. not (has_secret_key_ref v))
        ++ identity_variables ar arj;
    resources = resources_for ar.spec "runner" compute_names;
    volume_mounts = with_volume_mounts ar;
    liveness_probe = none;
    privileged = false;
  }

  -- The literal of `ToPod`.
  abbrev pub base_pod : ActionsRunner → ActionsRunnerJob → Pod
  base_pod ar arj = record {
    metadata = record no_metadata {
      name = arj.metadata.name;
      namespace = ar.metadata.namespace;
      annotations = ar.spec.annotations;
      labels = ("kube-actions.inloco.com.br/actions-runner", ar.metadata.name) ∷ [];
    };
    active_deadline_seconds = 3000;
    volumes = with_volumes ar;
    containers = runner_container ar arj ∷ [];
    restart_policy = "Never";
    service_account_name = "";
    automount_service_account_token = false;
    security_context = record {
      run_as_user = 1000;
      run_as_group = 1000;
      run_as_non_root = true;
      fs_group = 1000;
      sysctls = ("net.ipv4.ping_group_range", "0 2147483647") ∷ [];
    };
    affinity = some (with_runtime_affinity environment.os environment.arch ar.spec.affinity);
    tolerations =
        record {
          key = "node-role.incognia.com/ci";
          operator = "Equal";
          value = "true";
          effect = "NoSchedule";
        }
        ∷ [];
    node_selector = ("node-role.incognia.com/ci", "true") ∷ [];
  }

  -- The two tests of `capabilities`.
  unfoldable pub with_capabilities : Pod → ActionsRunner → Pod
  unfolding add_secret_capability add_docker_capability
  with_capabilities pod ar =
      let pod1 =
        if has_capability "secret" ar.spec.capabilities
        then add_secret_capability pod ar
        else pod in
      if has_capability "docker" ar.spec.capabilities then add_docker_capability pod1 ar else pod1

  unfoldable pub to_pod : ActionsRunner → ActionsRunnerJob → Result String Pod
  unfolding with_capabilities
  to_pod ar arj =
      let pod = with_capabilities (base_pod ar arj) ar in
      elim (environment.set_controller_reference arj.metadata pod.metadata) [
        | Result.err e ↦ Result.err e
        | Result.ok metadata ↦ Result.ok (record pod { metadata = metadata })
      ]

  -- No claim if no storage is requested.
  unfoldable pub to_persistent_volume_claim :
      ActionsRunner → ActionsRunnerJob → Result String (Option PersistentVolumeClaim)
  to_persistent_volume_claim ar arj =
      if has_requested_storage ar.spec
      then elim (environment.set_controller_reference arj.metadata
          (record no_metadata { name = ar.metadata.name; namespace = ar.metadata.namespace })) [
            | Result.err e ↦ Result.err e
            | Result.ok metadata ↦ Result.ok (
                some (record {
                  metadata = metadata;
                  access_modes = "ReadWriteOnce" ∷ [];
                  resources = resources_for ar.spec "runner" ("storage" ∷ []);
                }))
          ]
      else Result.ok none
