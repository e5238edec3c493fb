-- ===== src/Operator/Pod/Build/Capabilities.antt =====
-- What the capabilities of an ActionsRunner change in its pod.
use mathlib.Core.List.{Perm}
use kube_actions.Prelude.{
  String, ◌≡◌, refl, Bool, true, false, not, List, [], ◌∷◌, ◌++◌, map, All, All-append, subst, sym,
  ap, ◌∙◌, arith, if◌then◌else◌, select, Bool-cases, inl, inr,
}
use kube_actions.Prelude.Result.{Result}
use kube_actions.Operator.Api.Meta.{ObjectMeta}
use kube_actions.Operator.Api.Core.{Container, Pod}
use kube_actions.Operator.Api.Runner.{ActionsRunner, ActionsRunnerJob}
use kube_actions.Operator.Pod.Filters.{
  filtered_env_from_sources, filtered_env_vars, has_secret_ref, has_secret_key_ref,
}
use kube_actions.Operator.Pod.Filters.Split.{select-perm}
use kube_actions.Operator.Pod.Build.{
  Environment, has_capability, base_pod, with_capabilities, to_pod, add_secret_capability,
  add_docker_capability, identity_variables, plain, change_first, dind_container, runner_container,
}

-- No reference into a secret in the environment of the container.
abbrev pub HasNoSecret : Container → Type 0
HasNoSecret c =
    All (λ s. has_secret_ref s ≡ false) c.env_from × All (λ v. has_secret_key_ref v ≡ false) c.env

All-select-not {ℓ} :
    {A : Type ℓ} (p : A → Bool) (xs : List A) → All (λ x. p x ≡ false) (select (λ x. not (p x)) xs)
unfolding select
All-select-not p [] = tt
All-select-not p (x ∷ xs) = ground (arith, All-select-not p xs)

module _ (environment : Environment) where
  -- A pod that `to_pod` returns is what the capabilities make of the literal, but for its metadata.
  pub to_pod-ok :
      (ar : ActionsRunner) (arj : ActionsRunnerJob) (pod : Pod)
      → to_pod environment ar arj ≡ Result.ok pod
      → (m : ObjectMeta) × (record (with_capabilities environment
            (base_pod environment ar arj)
            ar) { metadata = m }
          ≡ pod)
  unfolding to_pod
  to_pod-ok ar arj pod h =
      go
        (environment.set_controller_reference arj.metadata
          (with_capabilities environment (base_pod environment ar arj) ar).metadata)
        h
    where
      go :
          (r : Result String ObjectMeta)
          → elim r as (λ _. Result String Pod) [
            | Result.err e ↦ Result.err e
            | Result.ok metadata ↦
                Result.ok (record (with_capabilities environment (base_pod environment ar arj) ar) {
                  metadata = metadata;
                })
          ]
            ≡ Result.ok pod
          → (m : ObjectMeta) × (record (with_capabilities environment
                (base_pod environment ar arj)
                ar) { metadata = m }
              ≡ pod)
      go (Result.err e) k = cc
      go (Result.ok m) k = (m, cc)

  docker_adds_no_secret :
      (cs : List Container)
      → All HasNoSecret cs
      → All HasNoSecret (
          change_first
            (λ c. record c { env = c.env ++ (plain "DOCKER_HOST" "tcp://localhost:2375" ∷ []) })
            cs)
  unfolding has_secret_key_ref
  docker_adds_no_secret [] h = tt
  docker_adds_no_secret (c ∷ cs) h = (
    (
      h.0.0,
      All-append (λ v. has_secret_key_ref v ≡ false) c.env
          (plain "DOCKER_HOST" "tcp://localhost:2375" ∷ []) h.0.1 (refl, tt),
    ),
    h.1,
  )

  without_secret :
      (pod : Pod) (ar : ActionsRunner)
      → has_capability "secret" ar.spec.capabilities ≡ false
      → All HasNoSecret pod.containers
      → All HasNoSecret (with_capabilities environment pod ar).containers
        × ((with_capabilities environment pod ar).service_account_name ≡ pod.service_account_name)
        × ((with_capabilities environment pod ar).automount_service_account_token
            ≡ pod.automount_service_account_token)
  without_secret pod ar s h = elim (Bool-cases (has_capability "docker" ar.spec.capabilities)) [
    | inl d ↦
        unfold with_capabilities in
        (rw (s, d)
          (unfold add_docker_capability in
            (
              All-append HasNoSecret
                  (change_first
                    (λ c. record c {
                      env = c.env ++ (plain "DOCKER_HOST" "tcp://localhost:2375" ∷ []);
                    })
                    pod.containers)
                  (dind_container environment ar ∷ []) (docker_adds_no_secret pod.containers h)
                  ((tt, unfold has_secret_key_ref in (refl, tt)), tt),
              refl,
              refl,
            )))
    | inr d ↦ unfold with_capabilities in (rw (s, d) (h, refl, refl))
  ]

  plain_runner-HasNoSecret :
      (ar : ActionsRunner) (arj : ActionsRunnerJob)
      → HasNoSecret (runner_container environment ar arj)
  unfolding filtered_env_from_sources filtered_env_vars has_secret_key_ref
  plain_runner-HasNoSecret ar arj = (
    All-select-not has_secret_ref ar.spec.env_from,
    All-append (λ v. has_secret_key_ref v ≡ false)
        (filtered_env_vars ar.spec.env (λ v. not (has_secret_key_ref v)))
        (identity_variables ar arj) (All-select-not has_secret_key_ref ar.spec.env)
        (refl, (refl, (refl, (refl, tt)))),
  )

  with_secret :
      (pod : Pod) (c : Container) (ar : ActionsRunner)
      → has_capability "secret" ar.spec.capabilities ≡ true
      → pod.containers ≡ c ∷ []
      → (d : Container) × (ds : List Container) × ((with_capabilities environment pod ar).containers
          ≡ d ∷ ds)
        × (d.name ≡ c.name)
        × (d.env_from ≡ c.env_from ++ filtered_env_from_sources ar.spec.env_from has_secret_ref)
        × ((with_capabilities environment pod ar).automount_service_account_token ≡ true)
  unfolding with_capabilities add_docker_capability add_secret_capability
  with_secret pod c ar s h = elim (Bool-cases (has_capability "docker" ar.spec.capabilities)) [
    | inl d ↦ rw (s, d, h) (_, _, refl, refl, refl, refl)
    | inr d ↦ rw (s, d, h) (_, _, refl, refl, refl, refl)
  ]

  privileges :
      (pod : Pod) (c : Container) (ar : ActionsRunner)
      → pod.containers ≡ c ∷ []
      → map {B = String × Bool}
          (λ c. (c.name, c.privileged))
          (with_capabilities environment pod ar).containers
        ≡ (if has_capability "docker" ar.spec.capabilities
            then (c.name, c.privileged) ∷ ("dind", true) ∷ []
            else (c.name, c.privileged) ∷ [])
  unfolding with_capabilities add_docker_capability add_secret_capability
  privileges pod c ar h = ground (arith, h)

  -- A pod that is built without the capability "secret": no container has a secret in its
  -- environment, the service account is not named, and no token of one is mounted.
  pub no_secret_without_capability :
      (ar : ActionsRunner) (arj : ActionsRunnerJob) (pod : Pod)
      → has_capability "secret" ar.spec.capabilities ≡ false
      → to_pod environment ar arj ≡ Result.ok pod
      → All HasNoSecret pod.containers
        × (pod.service_account_name ≡ "")
        × (pod.automount_service_account_token ≡ false)
  no_secret_without_capability ar arj pod s h =
      let (m, e) = to_pod-ok ar arj pod h in
      let (w, x, y) =
        without_secret (base_pod environment ar arj) ar s (plain_runner-HasNoSecret ar arj, tt) in
      (
        subst (λ p. All HasNoSecret p.containers) e w,
        ap (λ p. p.service_account_name) (sym e) ∙ x,
        ap (λ p. p.automount_service_account_token) (sym e) ∙ y,
      )

  -- A pod that is built with the capability "secret": the first container is the runner, the
  -- sources of its environment are those of the spec in some order, and the token of the service
  -- account is mounted.
  pub all_sources_with_capability :
      (ar : ActionsRunner) (arj : ActionsRunnerJob) (pod : Pod)
      → has_capability "secret" ar.spec.capabilities ≡ true
      → to_pod environment ar arj ≡ Result.ok pod
      → (c : Container) × (cs : List Container) × (pod.containers ≡ c ∷ cs)
        × (c.name ≡ "runner")
        × Perm c.env_from ar.spec.env_from
        × (pod.automount_service_account_token ≡ true)
  all_sources_with_capability ar arj pod s h =
      let (m, e) = to_pod-ok ar arj pod h in
      let (d, ds, eq, n, f, a) =
        with_secret (base_pod environment ar arj) (runner_container environment ar arj) ar s refl in
      (
        d,
        ds,
        ap (λ p. p.containers) (sym e) ∙ eq,
        n,
        subst (λ es. Perm es ar.spec.env_from) (sym f)
            (unfold filtered_env_from_sources in select-perm has_secret_ref ar.spec.env_from),
        ap (λ p. p.automount_service_account_token) (sym e) ∙ a,
      )

  -- The containers of a pod that is built are the runner, which is not privileged, and, exactly
  -- with the capability "docker", after it the Docker daemon, which is.
  pub privileged_only_docker :
      (ar : ActionsRunner) (arj : ActionsRunnerJob) (pod : Pod)
      → to_pod environment ar arj ≡ Result.ok pod
      → map {B = String × Bool} (λ c. (c.name, c.privileged)) pod.containers ≡ (
          if has_capability "docker" ar.spec.capabilities
          then ("runner", false) ∷ ("dind", true) ∷ []
          else ("runner", false) ∷ [])
  privileged_only_docker ar arj pod h =
      let (m, e) = to_pod-ok ar arj pod h in
      ap (λ p. map {B = String × Bool} (λ c. (c.name, c.privileged)) p.containers) (sym e)
      ∙ privileges (base_pod environment ar arj) (runner_container environment ar arj) ar refl
