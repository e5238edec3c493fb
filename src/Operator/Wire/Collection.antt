-- ===== src/Operator/Wire/Collection.antt =====
-- operator/internal/controller/actionsrunner/wire/collection.go: the wires of all runners. A pointer to
-- a wire is a number, and the registry maps the key of a runner to one.
pub mod Registered
pub mod Served
pub mod Removed
use kube_actions.Prelude.{
  ℕ, suc, zero, nat_eq, String, Bool, true, false, not, ◌&&◌, ◌==◌, if◌then◌else◌, List, [], ◌∷◌,
  Option, none, some,
}
use kube_actions.Prelude.Effect.{pure, ◌>>=◌, ◌>>◌}
use kube_actions.Prelude.Outcome.{Outcome, ok, err, panic}
use kube_actions.Operator.Api.Meta.{ObjectKey}
use kube_actions.Operator.Api.Runner.{ActionsRunner}
use kube_actions.Operator.Token.{Error}
use kube_actions.Operator.Dot.{DotFiles}
use kube_actions.Operator.Github.{GithubEnvironment}
use kube_actions.Operator.Ado.{AzureDevOps}
use kube_actions.Operator.Wire.Line
use kube_actions.Operator.Wire.Line.{Ports, Wire, Shared, unmade}
use kube_actions.Operator.Wire.Line.Setup
use kube_actions.Operator.Wire.Line.Setup.{close, valid, init_wire}

unfoldable pub same_key : ObjectKey → ObjectKey → Bool
same_key a b = (a.namespace == b.namespace) && (a.name == b.name)

-- `sync.Map`: `Load`, `Delete` and `Store`.
unfoldable pub load : List (ObjectKey × ℕ) → ObjectKey → Option ℕ
unfolding same_key
load [] key = none
load ((k, p) ∷ registry) key = if same_key k key then some p else load registry key

unfoldable pub unregistered : List (ObjectKey × ℕ) → ObjectKey → List (ObjectKey × ℕ)
unfolding same_key
unregistered [] key = []
unregistered ((k, p) ∷ registry) key =
    let rest = unregistered registry key in if same_key k key then rest else (k, p) ∷ rest

unfoldable pub key_of : ActionsRunner → ObjectKey
key_of runner = record { namespace = runner.metadata.namespace; name = runner.metadata.name }

module _ {N : Type 0} (ports : Ports N) (environment : GithubEnvironment) where
  open ports use {azure}

  -- The registry, the wires that were made, how many there are, and what they share.
  pub record Collection : Type 0 where
    pub registry : List (ObjectKey × ℕ)
    pub wire : ℕ → Wire ports
    pub made : ℕ
    pub shared : Shared ports

  abbrev pub Call : Type 0 → Type 0
  Call A = Collection → Outcome Error A × Collection

  unfoldable pub at_pointer : ℕ → Wire ports → (ℕ → Wire ports) → ℕ → Wire ports
  at_pointer p w wires q = if nat_eq p q then w else wires q

  -- What a call of a wire leaves.
  abbrev pub with_wire : ℕ → Collection → Line.Line ports → Collection
  with_wire p c s = record c { wire = at_pointer p s.wire c.wire; shared = s.shared }

  -- A call of the wire behind a pointer.
  unfoldable pub on_wire : {A : Type 0} → ℕ → Line.Call ports A → Call A
  unfolding at_pointer
  on_wire p m c =
      let (o, s) = m (record { wire = c.wire p; shared = c.shared }) in (o, with_wire p c s)

  -- An error is only logged.
  unfoldable pub tried : Call (Unit {0}) → Call (Unit {0})
  tried call c =
      let (o, d) = call c in elim o [ ok a ↦ (ok tt, d) | err e ↦ (ok tt, d) | panic ↦ (panic, d) ]

  -- `Collection.Destroy`
  unfoldable pub destroy_wire : ℕ → Call (Unit {0})
  unfolding tried on_wire
  destroy_wire p = do tried (on_wire p (close ports)); on_wire p (Setup.destroy ports environment)

  -- The wire behind a pointer that is loaded, if it is valid; it is destroyed if it is not.
  unfoldable pub valid_or_destroyed : ℕ → Call (Option ℕ)
  unfolding valid destroy_wire tried
  valid_or_destroyed p c =
      if valid ports (c.wire p) then (ok (some p), c) else (tried (destroy_wire p) >> pure none) c

  unfoldable pub get_wire : ActionsRunner → Call (Option ℕ)
  unfolding load key_of valid_or_destroyed
  get_wire runner c = elim (load c.registry (key_of runner)) [
    | none ↦ (ok none, c)
    | some p ↦ valid_or_destroyed p c
  ]

  abbrev pub no_facade : AzureDevOps azure
  no_facade = record {
    rsa_private_key = none;
    connection = none;
    task_agent_client = none;
    task_agent = none;
    bridge_connection = none;
    task_agent_bridge_client = none;
    task_agent_session = none;
    plan = none;
    timeline = none;
    job_connection = none;
    task_client = none;
  }

  -- `&Wire{…}`
  abbrev pub fresh_wire : ActionsRunner → Option DotFiles → Wire ports
  fresh_wire runner files = record {
    actions_runner = runner;
    dot_files = files;
    repository = none;
    ado = no_facade;
    job_requests = none;
    loop_close = unmade;
    invalid = false;
    listening = false;
    validator = none;
  }

  unfoldable pub new_wire : ActionsRunner → Option DotFiles → Call ℕ
  unfolding at_pointer
  new_wire runner files c = (
    ok c.made,
    record c { wire = at_pointer c.made (fresh_wire runner files) c.wire; made = suc c.made },
  )

  unfoldable pub store : ObjectKey → ℕ → Call (Unit {0})
  unfolding unregistered
  store key p c = (ok tt, record c { registry = (key, p) ∷ unregistered c.registry key })

  unfoldable pub make_wire : ActionsRunner → Option DotFiles → Call ℕ
  unfolding new_wire on_wire init_wire store key_of
  make_wire runner files = do
    p ← new_wire runner files
    on_wire p (init_wire ports environment)
    store (key_of runner) p
    pure p

  unfoldable pub or_made : ActionsRunner → Option DotFiles → Option ℕ → Call ℕ
  unfolding make_wire
  or_made runner files none = make_wire runner files
  or_made runner files (some p) = pure p

  unfoldable pub wire_for : ActionsRunner → Option DotFiles → Call ℕ
  unfolding get_wire or_made
  wire_for runner files = get_wire runner >>= or_made runner files

  -- `LoadAndDelete`, and then `Destroy`.
  unfoldable pub try_destroy : ObjectKey → Call (Unit {0})
  unfolding load unregistered destroy_wire
  try_destroy key c = elim (load c.registry key) [
    | none ↦ (ok tt, c)
    | some p ↦ destroy_wire p (record c { registry = unregistered c.registry key })
  ]

  -- The goroutines of `Deinit`, one after the other.
  unfoldable pub close_all : List (ObjectKey × ℕ) → Call (Unit {0})
  unfolding tried on_wire
  close_all [] = pure tt
  close_all ((k, p) ∷ registry) = tried (on_wire p (close ports)) >> close_all registry

  -- `Deinit`: the channel to the operator is closed, which panics if it is already, then every wire.
  unfoldable pub deinit : Call (Unit {0})
  unfolding close_all
  deinit c =
      if c.shared.notifier_closed
      then (panic, c)
      else close_all c.registry (record c { shared = record (c.shared) { notifier_closed = true } })
