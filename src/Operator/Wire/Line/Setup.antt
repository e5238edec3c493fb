-- ===== src/Operator/Wire/Line/Setup.antt =====
-- wire/wire.go: the start of a wire, its end, and its removal.
use Prim.Native.String.{◌++◌ as str_append}
use kube_actions.Prelude.{String, Bool, true, false, not, [], Option, none, some}
use kube_actions.Prelude.Effect.{pure, fail, ◌>>=◌, ◌>>◌}
use kube_actions.Prelude.Outcome.{Outcome, ok, err, panic}
use kube_actions.Operator.Api.Runner.{ActionsRunner, elements}
use kube_actions.Operator.Token.{Error}
use kube_actions.Operator.Dot.{DotFiles, RsaParameters}
use kube_actions.Operator.Dot.Rsa.{new_rsa_parameters}
use kube_actions.Operator.Github.{GithubEnvironment}
use kube_actions.Operator.Github.Repositories
use kube_actions.Operator.Github.Credentials.{RunnerEvent, register, remove, get_tenant_credential}
use kube_actions.Operator.Ado.Agent.{init_for_crud, init_for_run, delete_this_agent}
use kube_actions.Operator.Ado.Session.{init_session, deinit_session}
use kube_actions.Operator.Wire.Line.{
  Ports, Line, Wire, Call, LoopClose, unmade, opened, closed, written, read, deref, to_github,
  to_ado, to_client, tried, no_files,
}

unfoldable pub is_closed : LoopClose → Bool
is_closed unmade = true
is_closed opened = false
is_closed closed = true

-- `if !w.isClosed() { close(w.loopClose) }`
unfoldable pub close_loop : LoopClose → LoopClose
close_loop opened = closed
close_loop channel = channel

unfoldable pub runner_name : ActionsRunner → String
runner_name runner = str_append runner.metadata.namespace (str_append "/" runner.metadata.name)

module _ {N : Type 0} (ports : Ports N) where
  open ports use {azure}

  unfoldable pub close : Call ports (Unit {0})
  unfolding close_loop
  close = do
    written ports (λ w. record w { loop_close = close_loop w.loop_close })
    to_client ports (deinit_session azure)

  -- `Valid`
  unfoldable pub valid : Wire ports → Bool
  valid w = not w.invalid

module _ {N : Type 0} (ports : Ports N) (environment : GithubEnvironment) where
  open ports use {github, azure}

  unfoldable pub set_files : (DotFiles → DotFiles) → Call ports (Unit {0})
  set_files f = do
    current ← read ports (λ s. s.wire.dot_files)
    files ← deref ports current
    written ports (λ w. record w { dot_files = some (f files) })

  -- The repository of the facade, and its URL in the files.
  unfoldable pub init_gh : Call ports (Unit {0})
  unfolding set_files
  init_gh = do
    runner ← read ports (λ s. s.wire.actions_runner)
    repository ← to_github ports (
        Repositories.init github environment runner.spec.repository.owner
          runner.spec.repository.name)
    written ports (λ w. record w { repository = some repository })
    set_files (λ files. record files {
      runner = record (files.runner) { github_url = repository.git_commits_url };
    })

  unfoldable pub init_ado : RunnerEvent → Call ports (Unit {0})
  unfolding set_files
  init_ado runner_event = do
    repository ← read ports (λ s. s.wire.repository)
    credential ← to_github ports (get_tenant_credential github repository runner_event)
    set_files
        (λ files. record files { runner = record (files.runner) { server_url = credential.url } })
    runner ← read ports (λ s. s.wire.actions_runner)
    to_ado ports (init_for_crud azure (elements runner.spec.labels) credential.token credential.url)

  -- `rsa.GenerateKey`
  unfoldable pub generated : Call ports RsaParameters
  generated s =
      let (key, w) = ports.generate_key s.shared.world in
      (new_rsa_parameters key, record s { shared = record (s.shared) { world = w } })

  -- The files of a runner that has none yet.
  unfoldable pub new_files : ActionsRunner → RsaParameters → DotFiles
  new_files runner parameters = record no_files {
    runner = record (no_files.runner) {
      agent_name =
          ports.shorten
            (str_append "KA "
              (str_append runner.metadata.namespace (str_append " " runner.metadata.name)))
            64;
      pool_id = 1;
      pool_name = "Default";
      disable_update = true;
      work_folder = "_work";
    };
    credentials = record (no_files.credentials) { scheme = "OAuth" };
    rsa_parameters = parameters;
  }

  unfoldable pub init_dot_files : Call ports (Unit {0})
  unfolding generated new_files
  init_dot_files = do
    current ← read ports (λ s. s.wire.dot_files)
    elim current [
      | some files ↦ pure tt
      | none ↦ do
        parameters ← generated
        written ports (λ w. record w { dot_files = some (new_files w.actions_runner parameters) })
    ]

  abbrev pub or_make {ℓ} : {A : Type ℓ} → Option A → A → Option A
  or_make none a = some a
  or_make (some b) a = some b

  -- The channel of job requests and the validator, if they are nil.
  unfoldable pub make_channel : Call ports (Unit {0})
  make_channel = written ports (λ w. record w {
    job_requests = or_make w.job_requests 0;
    validator = or_make w.validator [];
  })

  unfoldable pub init_steps : Call ports (Unit {0})
  unfolding init_dot_files init_gh init_ado make_channel
  init_steps = do
    init_dot_files
    init_gh
    init_ado register
    runner ← read ports (λ s. s.wire.actions_runner)
    to_ado ports (init_for_run azure (elements runner.spec.labels))
    to_client ports (init_session azure)
    to_client ports (deinit_session azure)
    make_channel

  unfoldable pub destroy : Call ports (Unit {0})
  unfolding init_gh init_ado
  destroy = do init_gh; init_ado remove; to_client ports (delete_this_agent azure)

  -- What follows an error of `init`.
  unfoldable pub give_up_wire : Error → Call ports (Unit {0})
  unfolding destroy close
  give_up_wire e = do
    tried ports destroy
    tried ports (close ports)
    written ports (λ w. record w { invalid = true })
    fail e

  unfoldable pub after_init :
      Outcome Error (Unit {0}) × Line ports → Outcome Error (Unit {0}) × Line ports
  unfolding give_up_wire
  after_init (ok a, s) = (ok tt, s)
  after_init (err e, s) = give_up_wire e s
  after_init (panic, s) = (panic, s)

  -- `Wire.Init`
  unfoldable pub init_wire : Call ports (Unit {0})
  unfolding init_steps after_init
  init_wire s = after_init (init_steps s)
