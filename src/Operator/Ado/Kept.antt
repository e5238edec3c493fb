-- ===== src/Operator/Ado/Kept.antt =====
-- What the single steps of facades/ado.go keep: a property of the facade that the world has no part in.
use kube_actions.Prelude.{String, Option, none, some}
use kube_actions.Prelude.Effect.{pure, fail, Ensures, Post}
use kube_actions.Prelude.Result.{Result}
use kube_actions.Prelude.Outcome.{ok, err}
use kube_actions.Operator.Token.{Error}
use kube_actions.Operator.Ado.{
  Azure, Facade, Call, called, asked, told, written, read, checked, required, deref,
}

module _ (azure : Azure) (P : Facade azure → Type 0)
    (steady : (s : Facade azure) (w : azure.World) → P s → P (record s { world = w })) where
  open azure use {World}

  -- A call after which `P` holds, whatever it ends in, if it held before.
  abbrev pub Kept : {A : Type 0} → Call azure A → Type 0
  Kept m = Ensures P m (λ _. P) P

  pub called-Kept : {A : Type 0} (f : World → A × World) → Kept (called azure f)
  unfolding called
  called-Kept f = record { run = λ s p. steady s _ p }

  pub asked-Kept : {A : Type 0} (f : World → Result Error A × World) → Kept (asked azure f)
  unfolding asked
  asked-Kept {A} f = record { run = λ s p. by_answer s p (f s.world) }
    where
      by_answer :
          (s : Facade azure)
          → P s
          → (answer : Result Error A × World)
          → Post {E = Error} {A = A}
              (λ _. P)
              P
              (elim answer.0 [
                | Result.ok a ↦ (ok a, record s { world = answer.1 })
                | Result.err e ↦ (err e, record s { world = answer.1 })
              ])
      by_answer s p (Result.ok a, w) = steady s w p
      by_answer s p (Result.err e, w) = steady s w p

  pub told-Kept : (f : World → Option Error × World) → Kept (told azure f)
  unfolding told
  told-Kept f = record { run = λ s p. by_answer s p (f s.world) }
    where
      by_answer :
          (s : Facade azure)
          → P s
          → (answer : Option Error × World)
          → Post {E = Error} {A = Unit {0}}
              (λ _. P)
              P
              (elim answer.0 [
                | none ↦ (ok tt, record s { world = answer.1 })
                | some e ↦ (err e, record s { world = answer.1 })
              ])
      by_answer s p (none, w) = steady s w p
      by_answer s p (some e, w) = steady s w p

  pub written-Kept :
      (f : Facade azure → Facade azure)
      → ((s : Facade azure) → P s → P (f s))
      → Kept (written azure f)
  unfolding written
  written-Kept f keeps = record { run = keeps }

  pub read-Kept : {A : Type 0} (f : Facade azure → A) → Kept (read azure f)
  unfolding read
  read-Kept f = record { run = λ s p. p }

  pub checked-Kept : {A : Type 0} (r : Result Error A) → Kept (checked azure r)
  unfolding checked
  checked-Kept (Result.ok a) = record { run = λ s p. p }
  checked-Kept (Result.err e) = record { run = λ s p. p }

  pub required-Kept : {A : Type 0} (o : Option A) (text : String) → Kept (required azure o text)
  unfolding required
  required-Kept none text = record { run = λ s p. p }
  required-Kept (some a) text = record { run = λ s p. p }

  pub deref-Kept : {A : Type 0} (o : Option A) → Kept (deref azure o)
  unfolding deref
  deref-Kept none = record { run = λ s p. p }
  deref-Kept (some a) = record { run = λ s p. p }

  pub pure-Kept : {A : Type 0} (a : A) → Kept {A = A} (pure a)
  pure-Kept a = record { run = λ s p. p }

  pub fail-Kept : {A : Type 0} (e : Error) → Kept {A = A} (fail e)
  fail-Kept e = record { run = λ s p. p }

  pub optional-Kept :
      {A B : Type 0} {none_case : Call azure B} {some_case : A → Call azure B} (o : Option A)
      → Kept none_case
      → ((a : A) → Kept (some_case a))
      → Kept (elim o [ none ↦ none_case | some a ↦ some_case a ])
  optional-Kept none f g = f
  optional-Kept (some a) f g = g a
