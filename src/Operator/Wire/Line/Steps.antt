-- ===== src/Operator/Wire/Line/Steps.antt =====
-- wire/wire.go: what the steps of the listener keep. What is said of the channels and of the
-- events to the operator is changed by a handover and by `Close` only.
use kube_actions.Prelude.{ℕ, String, Bool, Option, none, some}
use kube_actions.Prelude.Effect.{pure, Ensures, Ensures-bind, Post}
use kube_actions.Prelude.Result.{Result}
use kube_actions.Prelude.Outcome.{Outcome, ok, err, panic}
use kube_actions.Operator.Token.{Error, other_error}
use kube_actions.Operator.Ado
use kube_actions.Operator.Ado.{TaskAgentMessage}
use kube_actions.Operator.Wire.Policy.{ValidationError, RuleCache, validate}
use kube_actions.Operator.Wire.Line.{
  Ports, Line, Wire, Call, LoopClose, PipelineAgentJobRequest, written, read, checked, deref,
  to_ado, to_client, tried, with_facade, no_files,
}
use kube_actions.Operator.Wire.Line.Violation.{required, to_message, on_policy_violation}
use kube_actions.Operator.Wire.Line.Listener.{validated}

module _ {N : Type 0} (ports : Ports N) (F : Option ℕ → ℕ → Bool → LoopClose → Bool → Type 0) where
  open ports use {azure, gojq}

  -- A predicate on the channel of job requests, the number of events, the channel to the operator, the
  -- one that closes the loop, and the flag of an invalid wire.
  abbrev pub Says : Line ports → Type 0
  Says s =
      F s.wire.job_requests s.shared.notified s.shared.notifier_closed s.wire.loop_close
        s.wire.invalid

  abbrev pub Kept : {A : Type 0} → Call ports A → Type 0
  Kept m = Ensures Says m (λ _. Says) Says

  pub to_client-Kept : {A : Type 0} (m : Ado.Call azure A) → Kept (to_client ports m)
  unfolding to_client
  to_client-Kept {A} m = record {
    run = λ s p.
        by_outcome s p (m (record { ado = s.wire.ado; files = no_files; world = s.shared.world }));
  }
    where
      by_outcome :
          (s : Line ports)
          → Says s
          → (o : Outcome Error A × Ado.Facade azure)
          → Post {E = Error}
              (λ _. Says)
              Says
              (
                o.0,
                record {
                  wire = record (s.wire) { ado = o.1.ado };
                  shared = record (s.shared) { world = o.1.world };
                },
              )
      by_outcome s p (ok a, f) = p
      by_outcome s p (err e, f) = p
      by_outcome s p (panic, f) = p

  pub to_ado-Kept : {A : Type 0} (m : Ado.Call azure A) → Kept (to_ado ports m)
  unfolding to_ado
  to_ado-Kept {A} m = record { run = λ s p. by_files s p s.wire.dot_files }
    where
      by_outcome :
          (s : Line ports)
          → Says s
          → (o : Outcome Error A × Ado.Facade azure)
          → Post {E = Error} (λ _. Says) Says (o.0, with_facade ports s o.1)
      by_outcome s p (ok a, f) = p
      by_outcome s p (err e, f) = p
      by_outcome s p (panic, f) = p

      by_files :
          (s : Line ports)
          → Says s
          → (files : Option kube_actions.Operator.Dot.DotFiles)
          → Post {E = Error} {A = A}
              (λ _. Says)
              Says
              (elim files [
                | none ↦ (panic, s)
                | some files ↦
                    let (o, facade) =
                      m (record { ado = s.wire.ado; files = files; world = s.shared.world }) in
                    (o, with_facade ports s facade)
              ])
      by_files s p none = p
      by_files s p (some files) = by_outcome s p (m _)

  pub written-Kept :
      (f : Wire ports → Wire ports)
      → ((s : Line ports) → Says s → Says (record s { wire = f s.wire }))
      → Kept (written ports f)
  unfolding written
  written-Kept f keeps = record { run = keeps }

  pub read-Kept : {A : Type 0} (f : Line ports → A) → Kept (read ports f)
  unfolding read
  read-Kept f = record { run = λ s p. p }

  pub checked-Kept : {A : Type 0} (r : Result Error A) → Kept (checked ports r)
  unfolding checked
  checked-Kept (Result.ok a) = record { run = λ s p. p }
  checked-Kept (Result.err e) = record { run = λ s p. p }

  pub deref-Kept : {A : Type 0} (o : Option A) → Kept (deref ports o)
  unfolding deref
  deref-Kept none = record { run = λ s p. p }
  deref-Kept (some a) = record { run = λ s p. p }

  pub required-Kept : {A : Type 0} (o : Option A) (text : String) → Kept (required ports o text)
  unfolding required
  required-Kept none text = record { run = λ s p. p }
  required-Kept (some a) text = record { run = λ s p. p }

  pub pure-Kept : {A : Type 0} (a : A) → Kept {A = A} (pure a)
  pure-Kept a = record { run = λ s p. p }

  pub tried-Kept : {m : Call ports (Unit {0})} → Kept m → Kept (tried ports m)
  unfolding tried
  tried-Kept {m} kept = record { run = λ s p. dropped (m s) (kept.run s p) }
    where
      dropped :
          (o : Outcome Error (Unit {0}) × Line ports)
          → Post {E = Error} {A = Unit {0}} (λ _. Says) Says o
          → Post {E = Error} {A = Unit {0}}
              (λ _. Says)
              Says
              (elim o.0 [ ok a ↦ (ok tt, o.1) | err e ↦ (ok tt, o.1) | panic ↦ (panic, o.1) ])
      dropped (ok a, s) p = p
      dropped (err e, s) p = p
      dropped (panic, s) p = p

  pub to_message-Kept : (m : TaskAgentMessage) → Kept (to_message ports m)
  unfolding to_message
  to_message-Kept m = Ensures-bind (required-Kept m.message_id _) λ id.
      Ensures-bind (required-Kept m.message_type _)
        λ type. Ensures-bind (deref-Kept m.body) λ body. pure-Kept _

  pub on_policy_violation-Kept :
      (pajr : PipelineAgentJobRequest N) (rule : String)
      → Kept (on_policy_violation ports pajr rule)
  unfolding on_policy_violation
  on_policy_violation-Kept pajr rule = Ensures-bind (required-Kept pajr.job_id _) λ job_id.
      Ensures-bind (required-Kept pajr.request_id _) λ request_id.
        Ensures-bind (required-Kept pajr.resources _) λ resources.
          Ensures-bind (required-Kept resources.endpoints _) λ endpoints.
            Ensures-bind (read-Kept _) λ runner. Ensures-bind (checked-Kept _) λ records.
              Ensures-bind (checked-Kept _) λ orchestration. Ensures-bind (to_client-Kept _) λ _.
                Ensures-bind (to_client-Kept _)
                  λ _. Ensures-bind (to_client-Kept _) λ _. to_client-Kept _

  pub validated-Kept : (pajr : PipelineAgentJobRequest N) → Kept (validated ports pajr)
  unfolding validated
  validated-Kept pajr = record { run = λ s p. by_cache s p s.wire.validator }
    where
      by_verdict :
          (s : Line ports)
          → Says s
          → (o : Outcome ValidationError (Option String) × RuleCache gojq)
          → Post {E = Error} {A = Option String}
              (λ _. Says)
              Says
              (let s' = record s { wire = record (s.wire) { validator = some o.1 } } in
                elim o.0 [
                  | ok violated ↦ (ok violated, s')
                  | err e ↦ (err (other_error "validate"), s')
                  | panic ↦ (panic, s')
                ])
      by_verdict s p (ok violated, cache) = p
      by_verdict s p (err e, cache) = p
      by_verdict s p (panic, cache) = p

      by_cache :
          (s : Line ports)
          → Says s
          → (validator : Option (RuleCache gojq))
          → Post {E = Error} {A = Option String}
              (λ _. Says)
              Says
              (elim validator [
                | none ↦ (panic, s)
                | some cache ↦
                    let (verdict, cache') =
                      validate gojq cache s.wire.actions_runner.spec.policy pajr.context_data in
                    let s' = record s { wire = record (s.wire) { validator = some cache' } } in
                    elim verdict [
                      | ok violated ↦ (ok violated, s')
                      | err e ↦ (err (other_error "validate"), s')
                      | panic ↦ (panic, s')
                    ]
              ])
      by_cache s p none = p
      by_cache s p (some cache) =
          by_verdict s p (validate gojq cache s.wire.actions_runner.spec.policy pajr.context_data)
