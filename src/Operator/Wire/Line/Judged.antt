-- ===== src/Operator/Wire/Line/Judged.antt =====
-- wire/wire.go: what is known of a message when the policy permits its job.
use kube_actions.Prelude.{◌≡◌, refl, ◌∙◌, ℕ, String, Option, none, some}
use kube_actions.Prelude.Effect.{Ensures, Ensures-bind, Post, pure-Ensures}
use kube_actions.Prelude.Result.{Result}
use kube_actions.Prelude.Outcome.{Outcome, ok, err, panic}
use kube_actions.Operator.Token.{Error, other_error}
use kube_actions.Operator.Ado
use kube_actions.Operator.Ado.{TaskAgentMessage}
use kube_actions.Operator.Ado.Session.{next_message}
use kube_actions.Operator.Wire.Policy.{ValidationError, RuleCache, validate}
use kube_actions.Operator.Wire.Line.{
  Ports, Line, PipelineAgentJobRequest, checked, deref, to_client, no_files,
}
use kube_actions.Operator.Wire.Line.Violation.{Message, required, to_message}
use kube_actions.Operator.Wire.Line.Listener.{Progress, again, handed_over, validated, acknowledged}
use kube_actions.Operator.Wire.Line.Stops.{Always, any}

module _ {N : Type 0} (ports : Ports N) where
  open ports use {azure, gojq}

  -- The last call of Azure DevOps was the one that gave this message.
  pub record Received (message : TaskAgentMessage) (t : Line ports) : Type 0 where
    pub last : Option ℕ
    pub before : Ado.Facade azure
    pub later : Ado.Facade azure
    pub answered : next_message azure last before ≡ (ok (some message), later)
    pub world : t.shared.world ≡ later.world

  -- A message that asks for a job.
  pub record Asks (message : TaskAgentMessage) (job : PipelineAgentJobRequest N) : Type 0 where
    pub type : message.message_type ≡ some "PipelineAgentJobRequest"
    pub text : String
    pub body : message.body ≡ some text
    pub parsed : ports.parse_job text ≡ Result.ok job

  -- The policy has no rule that the job violates.
  pub record Permits (job : PipelineAgentJobRequest N) (t : Line ports) : Type 0 where
    pub cache : RuleCache gojq
    pub cache' : RuleCache gojq
    pub judged :
        validate gojq cache t.wire.actions_runner.spec.policy job.context_data ≡ (ok none, cache')
    pub kept : t.wire.validator ≡ some cache'

  -- A job that was received and is permitted was put into the channel.
  pub record Allowed (t : Line ports) : Type 0 where
    pub message : TaskAgentMessage
    pub job : PipelineAgentJobRequest N
    pub received : Received message t
    pub asks : Asks message job
    pub permits : Permits job t
    pub sent : t.wire.job_requests ≡ some 1

  abbrev pub Done : Progress → Line ports → Type 0
  Done handed_over t = Allowed t
  Done progress t = Unit

  abbrev pub Got : Option TaskAgentMessage → Line ports → Type 0
  Got none t = Unit
  Got (some message) t = Received message t

  pub next_message-Got :
      (last : Option ℕ)
      → Ensures (Always ports) (to_client ports (next_message azure last)) Got (Always ports)
  unfolding to_client
  next_message-Got last = record {
    run = λ s p.
        let facade : Ado.Facade azure = record {
          ado = s.wire.ado;
          files = no_files;
          world = s.shared.world;
        } in
        by_answer s facade (next_message azure last facade) refl;
  }
    where
      by_answer :
          (s : Line ports) (facade : Ado.Facade azure)
          (o : Outcome Error (Option TaskAgentMessage) × Ado.Facade azure)
          → next_message azure last facade ≡ o
          → Post {E = Error} Got (Always ports) (
            o.0,
            record {
              wire = record (s.wire) { ado = o.1.ado };
              shared = record (s.shared) { world = o.1.world };
            },
          )
      by_answer s facade (ok none, f) e = tt
      by_answer s facade (ok (some message), f) e = record {
        last = last;
        before = facade;
        later = f;
        answered = e;
        world = refl;
      }
      by_answer s facade (err x, f) e = tt
      by_answer s facade (panic, f) e = tt

  required-eq :
      {A : Type 0} {P : Line ports → Type 0} (o : Option A) (text : String)
      → Ensures P (required ports o text) (λ a s. P s × (o ≡ some a)) (Always ports)
  unfolding required
  required-eq none text = record { run = λ s p. tt }
  required-eq (some a) text = record { run = λ s p. (p, refl) }

  deref-eq :
      {A : Type 0} {P : Line ports → Type 0} (o : Option A)
      → Ensures P (deref ports o) (λ a s. P s × (o ≡ some a)) (Always ports)
  unfolding deref
  deref-eq none = record { run = λ s p. tt }
  deref-eq (some a) = record { run = λ s p. (p, refl) }

  pub checked-eq :
      {A : Type 0} {P : Line ports → Type 0} (r : Result Error A)
      → Ensures P (checked ports r) (λ a s. P s × (r ≡ Result.ok a)) (Always ports)
  unfolding checked
  checked-eq (Result.ok a) = record { run = λ s p. (p, refl) }
  checked-eq (Result.err e) = record { run = λ s p. tt }

  -- The fields of the message are those that were received.
  abbrev pub Of : TaskAgentMessage → Message → Line ports → Type 0
  Of m message s =
      Received m s × (m.message_type ≡ some message.message_type) × (m.body ≡ some message.body)

  pub to_message-Of :
      (m : TaskAgentMessage) → Ensures (Received m) (to_message ports m) (Of m) (Always ports)
  unfolding to_message
  to_message-Of m = Ensures-bind (required-eq m.message_id _) λ id.
      Ensures-bind (required-eq m.message_type _)
        λ type. Ensures-bind (deref-eq m.body) λ body. pure-Ensures _ λ s p. (p.0.0.0, p.0.1, p.1)

  pub acknowledged-Done :
      {P : Line ports → Type 0} (message : Message)
      → Ensures P (acknowledged ports message) Done (Always ports)
  unfolding acknowledged
  acknowledged-Done message =
      Ensures-bind (any ports _) λ _. pure-Ensures (again (some message.id)) λ s p. tt

  pub carried :
      {m : TaskAgentMessage} {s t : Line ports}
      → t.shared.world ≡ s.shared.world
      → Received m s
      → Received m t
  carried same r = record {
    last = r.last;
    before = r.before;
    later = r.later;
    answered = r.answered;
    world = same ∙ r.world;
  }

  -- What the verdict of the policy shows of a job request that was received.
  abbrev pub Judged :
      TaskAgentMessage → PipelineAgentJobRequest N → Option String → Line ports → Type 0
  Judged m job violated s = Received m s × Asks m job × (violated ≡ none → Permits job s)

  pub validated-Judged :
      (m : TaskAgentMessage) (job : PipelineAgentJobRequest N)
      → Ensures (λ s. Received m s × Asks m job) (validated ports job) (Judged m job) (Always ports)
  unfolding validated
  validated-Judged m job = record { run = λ s p. by_cache s p s.wire.validator }
    where
      by_verdict :
          (s : Line ports)
          → Received m s × Asks m job
          → (cache : RuleCache gojq) (o : Outcome ValidationError (Option String) × RuleCache gojq)
          → validate gojq cache s.wire.actions_runner.spec.policy job.context_data ≡ o
          → Post {E = Error} {A = Option String} (Judged m job) (Always ports) (
              let s' = record s { wire = record (s.wire) { validator = some o.1 } } in
              elim o.0 [
                | ok violated ↦ (ok violated, s')
                | err e ↦ (err (other_error "validate"), s')
                | panic ↦ (panic, s')
              ])
      by_verdict s p cache (ok none, cache') e = (
        carried refl p.0,
        p.1,
        λ _. record { cache = cache; cache' = cache'; judged = e; kept = refl },
      )
      by_verdict s p cache (ok (some rule), cache') e = (carried refl p.0, p.1, λ h. absurd (cc))
      by_verdict s p cache (err x, cache') e = tt
      by_verdict s p cache (panic, cache') e = tt

      by_cache :
          (s : Line ports)
          → Received m s × Asks m job
          → (validator : Option (RuleCache gojq))
          → Post {E = Error} {A = Option String} (Judged m job) (Always ports) (elim validator [
            | none ↦ (panic, s)
            | some cache ↦
                let (verdict, cache') =
                  validate gojq cache s.wire.actions_runner.spec.policy job.context_data in
                let s' = record s { wire = record (s.wire) { validator = some cache' } } in
                elim verdict [
                  | ok violated ↦ (ok violated, s')
                  | err e ↦ (err (other_error "validate"), s')
                  | panic ↦ (panic, s')
                ]
          ])
      by_cache s p none = tt
      by_cache s p (some cache) =
          by_verdict s p cache
            (validate gojq cache s.wire.actions_runner.spec.policy job.context_data) refl
