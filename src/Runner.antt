-- ===== src/Runner.antt =====
-- runner/main.go and runner/util.go: the program of a runner's container. The machine is the
-- parameter `Machine`: the environment, processes, files, the AWS and Docker clients and the push gateway.
-- Texts that wrap an error are left out. The four goroutines of the start run here one after the other, in the order in which main waits.
pub mod Ends
pub mod Tests
use Prim.Native.String.{◌++◌ as str_append}
use kube_actions.Prelude.{
  ℕ, zero, suc, String, Bool, true, false, List, [], ◌∷◌, Option, none, some, ◌==◌, if◌then◌else◌,
}
use kube_actions.Prelude.Effect.{pure, fail, ◌>>=◌, ◌>>◌}
use kube_actions.Prelude.Outcome.{Outcome, ok, err, panic}
use kube_actions.Prelude.Result
use kube_actions.Prelude.Result.{Result}

-- Why a call does not return a value: it returns an error, or waits on a channel forever.
pub data Stop : Type 0 where
  failed : String → Stop
  blocked : Stop

-- `sts.GetCallerIdentityOutput`
pub record CallerIdentity : Type 0 where
  pub account : Option String
  pub arn : Option String
  pub user_id : Option String

pub record Machine : Type 1 where
  pub World : Type 0
  pub lookup_env : String → World → Option String
  pub set_env : String → String → World → Option String × World
  pub expand_env : String → World → String
  pub split : String → String → List String
  pub start : String → List String → World → Option String × World
  pub wait : World → Option String × World
  pub load_aws_config : String → World → Option String × World
  pub get_caller_identity : World → Option CallerIdentity × World
  pub get_region : World → Option String × World
  pub new_docker_client : World → Option String × World
  pub server_version : World → Option String × World
  pub sleep : World → World
  pub DockerConfig : Type 0
  pub read_docker_config : World → Result String DockerConfig × World
  pub load_docker_config : DockerConfig → String → Result String DockerConfig
  pub save_docker_config : DockerConfig → World → Option String × World
  pub set_running : ℕ → World → World
  pub set_started : World → World
  pub set_finished : World → World
  pub push : World → Option String × World
  pub dial : String → World → Option String × World

module _ (machine : Machine) where
  open machine use {
    World, lookup_env, set_env, expand_env, split, start, wait, load_aws_config,
    get_caller_identity, get_region, new_docker_client, server_version, sleep, DockerConfig,
    read_docker_config, load_docker_config, save_docker_config, set_running, set_started,
    set_finished, push, dial,
  }

  abbrev pub Call : Type 0 → Type 0
  Call A = World → Outcome Stop A × World

  -- A call that returns an error, or none.
  unfoldable pub told : (World → Option String × World) → Call (Unit {0})
  told f s = let (e, w) = f s in elim e [ none ↦ (ok tt, w) | some e ↦ (err (failed e), w) ]

  -- One whose error is only logged.
  unfoldable pub ignored : (World → Option String × World) → Call (Unit {0})
  ignored f s = (ok tt, (f s).1)

  unfoldable pub asked : {A : Type 0} → (World → A × World) → Call A
  asked f s = let (a, w) = f s in (ok a, w)

  unfoldable pub checked : {A : Type 0} → Result String A → Call A
  checked (Result.ok a) = pure a
  checked (Result.err e) = fail (failed e)

  -- `run` with a receive from its channel. If the process does not start, `run` sends the error on a
  -- channel without a buffer before it returns it, and waits forever.
  unfoldable pub run_command : String → List String → Call (Unit {0})
  unfolding told
  run_command command args s =
      let (e, w) = start command args s in elim e [ none ↦ told wait w | some e ↦ (err blocked, w) ]

  unfoldable pub update_ca_certificates : Call (Unit {0})
  unfolding run_command
  update_ca_certificates = run_command "sudo" ("update-ca-certificates" ∷ [])

  unfoldable pub setup_git_credentials : Call (Unit {0})
  unfolding run_command
  setup_git_credentials = do
    run_command "sudo" ("git" ∷ "config" ∷ "--system" ∷ "user.name" ∷ "github-actions[bot]" ∷ [])
    run_command "sudo" (
        "git" ∷ "config" ∷ "--system" ∷ "user.email"
        ∷ "41898282+github-actions[bot]@users.noreply.github.com" ∷ [])

  -- The first that is set: AWS_REGION, AWS_DEFAULT_REGION, the region of the instance, "us-east-1".
  unfoldable pub detect_aws_region : Call String
  detect_aws_region s = elim (lookup_env "AWS_REGION" s) [
    | some region ↦ (ok region, s)
    | none ↦ elim (lookup_env "AWS_DEFAULT_REGION" s) [
      | some region ↦ (ok region, s)
      | none ↦
          let (detected, w) = get_region s in
          elim detected [ some region ↦ (ok region, w) | none ↦ (ok "us-east-1", w) ]
    ]
  ]

  abbrev pub entry : String → Option String → List (String × String) → List (String × String)
  entry key none rest = rest
  entry key (some value) rest = (key, value) ∷ rest

  -- `envVars`
  unfoldable pub aws_variables : String → Option CallerIdentity → List (String × String)
  aws_variables region none = ("AWS_REGION", region) ∷ []
  aws_variables region (some identity) =
      ("AWS_REGION", region)
      ∷ entry "AWS_ACCOUNT" identity.account
          (entry "AWS_CALLER_ARN" identity.arn (entry "AWS_CALLER_ID" identity.user_id []))

  unfoldable pub set_all : List (String × String) → Call (Unit {0})
  unfolding told
  set_all [] = pure tt
  set_all ((key, value) ∷ variables) = told (set_env key value) >> set_all variables

  unfoldable pub ensure_aws_env : Call (Unit {0})
  unfolding detect_aws_region told asked aws_variables set_all
  ensure_aws_env = do
    region ← detect_aws_region
    told (load_aws_config region)
    identity ← asked get_caller_identity
    set_all (aws_variables region identity)

  unfoldable pub wrap_in_json : String → String → World → String
  wrap_in_json key value w =
      str_append "{ \"" (str_append key (str_append "\": " (str_append (expand_env value w) " }")))

  -- One of the three variables, read into the configuration if it is set.
  unfoldable pub load_variable : String → String → DockerConfig → Call DockerConfig
  unfolding wrap_in_json checked
  load_variable variable key config s = elim (lookup_env variable s) [
    | none ↦ (ok config, s)
    | some value ↦ checked (load_docker_config config (wrap_in_json key value s)) s
  ]

  unfoldable pub setup_docker_config : Call (Unit {0})
  unfolding asked checked load_variable told
  setup_docker_config = do
    found ← asked read_docker_config
    config ← checked found
    with_auths ← load_variable "DOCKER_AUTHS" "auths" config
    with_helpers ← load_variable "DOCKER_CREDENTIAL_HELPERS" "credHelpers" with_auths
    with_plugins ← load_variable "DOCKER_PLUGINS" "plugins" with_helpers
    told (save_docker_config with_plugins)

  -- The rounds that are left, each with a pause after an error; the last error is returned.
  unfoldable pub docker_rounds : ℕ → Option String → Call (Unit {0})
  docker_rounds zero none s = (ok tt, s)
  docker_rounds zero (some e) s = (err (failed e), s)
  docker_rounds (suc n) last s =
      let (e, w) = server_version s in
      elim e [ none ↦ (ok tt, w) | some e ↦ docker_rounds n (some e) (sleep w) ]

  unfoldable pub wait_for_docker : Bool → Call (Unit {0})
  unfolding told docker_rounds
  wait_for_docker false = pure tt
  wait_for_docker true = told new_docker_client >> docker_rounds 15 none

  unfoldable pub runner_args : World → List String
  runner_args w = elim (lookup_env "GITHUB_ACTIONS_RUNNER_ARGS" w) [
    | none ↦ "--once" ∷ []
    | some raw ↦ if raw == "" then [] else split raw ","
  ]

  unfoldable pub run_actions_runner : Call (Unit {0})
  unfolding run_command runner_args
  run_actions_runner s = run_command "/opt/actions-runner/run.sh" (runner_args s) s

  -- `panic(err)` on an error.
  abbrev pub or_panic : Outcome Stop (Unit {0}) × World → Outcome Stop (Unit {0}) × World
  or_panic (err (failed e), w) = (panic, w)
  or_panic o = o

  -- It panics in place of returning an error.
  unfoldable pub push_metrics : Call (Unit {0})
  unfolding told
  push_metrics s = or_panic (told push s)

  unfoldable pub request_dind_termination : Bool → Call (Unit {0})
  unfolding told
  request_dind_termination false = pure tt
  request_dind_termination true = told (dial ":2378")

  -- How a function ends whose deferred function is run: its error is logged, its panic replaces.
  abbrev pub after_deferred :
      Outcome Stop (Unit {0}) → Outcome Stop (Unit {0}) × World → Outcome Stop (Unit {0}) × World
  after_deferred o (ok a, w) = (o, w)
  after_deferred o (err (failed e), w) = (o, w)
  after_deferred o (err blocked, w) = (err blocked, w)
  after_deferred o (panic, w) = (panic, w)

  -- `defer`: a function that waits forever does not come to it.
  unfoldable pub deferring :
      Call (Unit {0}) → Outcome Stop (Unit {0}) × World → Outcome Stop (Unit {0}) × World
  deferring d (err blocked, w) = (err blocked, w)
  deferring d (o, w) = after_deferred o (d w)

  unfoldable pub setup : Bool → Call (Unit {0})
  unfolding update_ca_certificates setup_git_credentials ensure_aws_env setup_docker_config
      wait_for_docker
  setup has_docker = do
    update_ca_certificates
    setup_git_credentials
    ensure_aws_env
    setup_docker_config
    wait_for_docker has_docker

  -- The second deferred function of main.
  unfoldable pub report_end : Call (Unit {0})
  unfolding push_metrics
  report_end w = push_metrics (set_finished (set_running 0 w))

  unfoldable pub report_start : Call (Unit {0})
  unfolding push_metrics
  report_start w = push_metrics (set_started (set_running 1 w))

  unfoldable pub reported_run : Call (Unit {0})
  unfolding deferring report_end run_actions_runner
  reported_run w = deferring report_end (or_panic (run_actions_runner w))

  -- What main does after its first `defer`.
  unfoldable pub measured : Call (Unit {0})
  unfolding report_start reported_run
  measured = report_start >> reported_run

  -- What main does once the four goroutines are done; an error of theirs panics before any `defer`.
  unfoldable pub after_setup :
      Bool → Outcome Stop (Unit {0}) × World → Outcome Stop (Unit {0}) × World
  unfolding measured deferring request_dind_termination
  after_setup has_docker (ok a, w) = deferring (request_dind_termination has_docker) (measured w)
  after_setup has_docker (o, w) = or_panic (o, w)

  abbrev pub is_set : Option String → Bool
  is_set none = false
  is_set (some value) = true

  unfoldable pub main : Call (Unit {0})
  unfolding setup after_setup
  main s =
      let has_docker = is_set (lookup_env "DOCKER_HOST" s) in
      after_setup has_docker (setup has_docker s)
