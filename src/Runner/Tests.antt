-- ===== src/Runner/Tests.antt =====
-- The runner on a machine that counts the calls of the Docker daemon's container.
use kube_actions.Prelude.{
  ℕ, ◌+◌, ◌≡◌, refl, String, Option, none, some, [], ◌⊎◌, ◌==◌, if◌then◌else◌,
}
use kube_actions.Prelude.Outcome.{err}
use kube_actions.Prelude.Result.{Result}
use kube_actions.Runner.{Machine, blocked, told, setup, asked, main, measured}
use kube_actions.Runner.Ends.{Stuck, main-dials}

abbrev set_in : String → Option String
set_in key = if key == "DOCKER_HOST" then some "tcp://localhost" else none

-- The world is the number of calls; a command starts or not.
abbrev machine_with : (String → Option String) → Machine
machine_with starts = record {
  World = ℕ;
  lookup_env = λ key w. set_in key;
  set_env = λ key value w. (none, w);
  expand_env = λ text w. text;
  split = λ text separator. [];
  start = λ command args w. (starts command, w);
  wait = λ w. (none, w);
  load_aws_config = λ region w. (none, w);
  get_caller_identity = λ w. (none, w);
  get_region = λ w. (none, w);
  new_docker_client = λ w. (none, w);
  server_version = λ w. (none, w);
  sleep = λ w. w;
  DockerConfig = String;
  read_docker_config = λ w. (Result.ok "{}", w);
  load_docker_config = λ config text. Result.ok config;
  save_docker_config = λ config w. (none, w);
  set_running = λ n w. w;
  set_started = λ w. w;
  set_finished = λ w. w;
  push = λ w. (none, w);
  dial = λ address w. (none, w + 1);
}

abbrev machine : Machine
machine = machine_with λ command. none

main-dials_example : Stuck machine (main machine 0).0 ⊎ ((v : ℕ) × ((main machine 0).1 ≡ v + 1))
unfolding setup told asked
main-dials_example = main-dials machine 0 "tcp://localhost" refl refl

dialled_once : (main machine 0).1 ≡ 1
unfolding main setup told asked measured
dialled_once = refl

-- If run.sh cannot be started, main waits forever and does not ask.
abbrev not_started : Machine
not_started =
    machine_with
      λ command. if command == "/opt/actions-runner/run.sh" then some "no such file" else none

waits_forever : main not_started 0 ≡ (err blocked, 0)
unfolding main setup told asked measured
waits_forever = refl
