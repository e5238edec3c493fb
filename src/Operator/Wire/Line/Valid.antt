-- ===== src/Operator/Wire/Line/Valid.antt =====
-- wire/wire.go: a wire whose start succeeds is valid.
use kube_actions.Prelude.{◌≡◌, ℕ, Bool, true, false, Option}
use kube_actions.Prelude.Effect.{Ensures, Ensures-bind, Ensures-option, Post, fail-Ensures}
use kube_actions.Prelude.Result.{Result}
use kube_actions.Prelude.Outcome.{Outcome, ok, err, panic}
use kube_actions.Operator.Token.{Error}
use kube_actions.Operator.Dot.{DotFiles, RsaParameters}
use kube_actions.Operator.Dot.Rsa.{new_rsa_parameters}
use kube_actions.Operator.Github
use kube_actions.Operator.Github.{GithubEnvironment}
use kube_actions.Operator.Github.Credentials.{RunnerEvent, register}
use kube_actions.Operator.Wire.Line.{Ports, Line, LoopClose, to_github, tried, written}
use kube_actions.Operator.Wire.Line.Setup.{
  set_files, init_gh, init_ado, generated, init_dot_files, make_channel, init_steps, give_up_wire,
  after_init, init_wire, destroy, close,
}
use kube_actions.Operator.Wire.Line.Steps.{
  Says, Kept, to_client-Kept, to_ado-Kept, written-Kept, read-Kept, deref-Kept, pure-Kept,
}
use kube_actions.Operator.Wire.Line.Stops.{Always, any}

module _ {N : Type 0} (ports : Ports N) (environment : GithubEnvironment) where
  open ports use {github, azure}

  -- The wire is not invalid.
  abbrev V : Option ℕ → ℕ → Bool → LoopClose → Bool → Type 0
  V j m c l i = i ≡ false

  to_github-V : {A : Type 0} (m : Github.Call github A) → Kept ports V (to_github ports m)
  unfolding to_github
  to_github-V {A} m = record { run = λ s p. by_outcome s p (m s.shared.variables) }
    where
      by_outcome :
          (s : Line ports)
          → Says ports V s
          → (o : Outcome Error A × Github.Variables github)
          → Post {E = Error}
              (λ _. Says ports V)
              (Says ports V)
              (o.0, record s { shared = record (s.shared) { variables = o.1 } })
      by_outcome s p (ok a, v) = p
      by_outcome s p (err e, v) = p
      by_outcome s p (panic, v) = p

  generated-V : Kept ports V (generated ports environment)
  unfolding generated
  generated-V = record { run = λ s p. by_outcome s p (ports.generate_key s.shared.world) }
    where
      by_outcome :
          (s : Line ports)
          → Says ports V s
          → (made : Result Error kube_actions.Operator.Dot.PrivateKey × azure.World)
          → Post {E = Error} {A = RsaParameters}
              (λ _. Says ports V)
              (Says ports V)
              (
                new_rsa_parameters made.0,
                record s { shared = record (s.shared) { world = made.1 } },
              )
      by_outcome s p (key, w) = of_parameters (new_rsa_parameters key)
        where
          of_parameters :
              (o : Outcome Error RsaParameters)
              → Post {E = Error} {A = RsaParameters}
                  (λ _. Says ports V)
                  (Says ports V)
                  (o, record s { shared = record (s.shared) { world = w } })
          of_parameters (ok a) = p
          of_parameters (err e) = p
          of_parameters panic = p

  set_files-V : (f : DotFiles → DotFiles) → Kept ports V (set_files ports environment f)
  unfolding set_files
  set_files-V f =
      Ensures-bind (read-Kept ports V _) λ current.
        Ensures-bind (deref-Kept ports V current) λ files. written-Kept ports V _ λ s p. p

  init_gh-V : Kept ports V (init_gh ports environment)
  unfolding init_gh
  init_gh-V = Ensures-bind (read-Kept ports V _) λ runner.
      Ensures-bind (to_github-V _)
        λ repository. Ensures-bind (written-Kept ports V _ λ s p. p) λ _. set_files-V _

  init_ado-V : (event : RunnerEvent) → Kept ports V (init_ado ports environment event)
  unfolding init_ado
  init_ado-V event = Ensures-bind (read-Kept ports V _) λ repository.
      Ensures-bind (to_github-V _) λ credential.
        Ensures-bind (set_files-V _)
          λ _. Ensures-bind (read-Kept ports V _) λ runner. to_ado-Kept ports V _

  init_dot_files-V : Kept ports V (init_dot_files ports environment)
  unfolding init_dot_files
  init_dot_files-V = Ensures-bind (read-Kept ports V _) λ current.
      Ensures-option (λ _. Says ports V)
        (Ensures-bind generated-V λ parameters. written-Kept ports V _ λ s p. p)
        (λ files. pure-Kept ports V tt) current

  init_steps-V : Kept ports V (init_steps ports environment)
  unfolding init_steps make_channel
  init_steps-V = Ensures-bind init_dot_files-V λ _. Ensures-bind init_gh-V λ _.
      Ensures-bind (init_ado-V register) λ _. Ensures-bind (read-Kept ports V _) λ runner.
        Ensures-bind (to_ado-Kept ports V _) λ _.
          Ensures-bind (to_client-Kept ports V _)
            λ _. Ensures-bind (to_client-Kept ports V _) λ _. written-Kept ports V _ λ s p. p

  give_up_wire-fails :
      (e : Error)
      → Ensures (Always ports) (give_up_wire ports environment e) (λ _. Says ports V) (Always ports)
  unfolding give_up_wire
  give_up_wire-fails e = Ensures-bind (any ports (tried ports (destroy ports environment))) λ _.
      Ensures-bind (any ports (tried ports (close ports))) λ _.
        Ensures-bind (any ports (written ports λ w. record w { invalid = true }))
          λ _. fail-Ensures e

  pub init_wire-Valid :
      Ensures (Says ports V) (init_wire ports environment) (λ _. Says ports V) (Always ports)
  unfolding init_wire after_init
  init_wire-Valid = record { run = λ s p. by_outcome _ (init_steps-V.run s p) }
    where
      by_outcome :
          (o : Outcome Error (Unit {0}) × Line ports)
          → Post {E = Error} {A = Unit {0}} (λ _. Says ports V) (Says ports V) o
          → Post {E = Error} {A = Unit {0}}
              (λ _. Says ports V)
              (Always ports)
              (after_init ports environment o)
      by_outcome (ok a, s) p = p
      by_outcome (err e, s) p = (give_up_wire-fails e).run s tt
      by_outcome (panic, s) p = tt
