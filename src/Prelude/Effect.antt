-- ===== src/Prelude/Effect.antt =====
-- Go code that reads and writes a state, and what is shown of it: a value, an error or a panic, and
-- the state that it leaves.
use mathlib.Core.Path.{◌≡◌, refl}
use mathlib.Core.Bool.{Bool, true, false}
use mathlib.Core.Option.{Option, none, some}
use kube_actions.Prelude.Tests.{if◌then◌else◌}
use kube_actions.Prelude.Outcome.{Outcome, ok, err, panic}

module _ {E S : Type 0} where
  abbrev pub pure : {A : Type 0} → A → S → Outcome E A × S
  pure a s = (ok a, s)

  -- `return err`
  abbrev pub fail : {A : Type 0} → E → S → Outcome E A × S
  fail e s = (err e, s)

  -- A nil dereference.
  abbrev pub crash : {A : Type 0} → S → Outcome E A × S
  crash s = (panic, s)

  -- How a call goes on: an error is returned, a panic unwinds.
  abbrev pub continue :
      {A B : Type 0} → (A → S → Outcome E B × S) → Outcome E A × S → Outcome E B × S
  continue next (ok a, s) = next a s
  continue next (err e, s) = (err e, s)
  continue next (panic, s) = (panic, s)

  infixl 5 ◌>>=◌ ◌>>◌
  abbrev pub ◌>>=◌ :
      {A B : Type 0} → (S → Outcome E A × S) → (A → S → Outcome E B × S) → S → Outcome E B × S
  ◌>>=◌ m next s = continue next (m s)

  abbrev pub ◌>>◌ :
      {B : Type 0} → (S → Outcome E (Unit {0}) × S) → (S → Outcome E B × S) → S → Outcome E B × S
  m >> k = m >>= λ _. k

  -- A predicate on the outcome: one on a value with the state, one on the state of a failure.
  abbrev pub Post : {A : Type 0} → (A → S → Type 0) → (S → Type 0) → Outcome E A × S → Type 0
  Post Q R (ok a, s) = Q a s
  Post Q R (err e, s) = R s
  Post Q R (panic, s) = R s

  -- From a state with `P` the code ends in `Q`, or fails in `R`.
  pub record Ensures {A : Type 0} (P : S → Type 0) (m : S → Outcome E A × S) (Q : A → S → Type 0)
      (R : S → Type 0) : Type 0 where
    pub run : (s : S) → P s → Post Q R (m s)

module _ {E S A : Type 0} {P : S → Type 0} {R : S → Type 0} where
  pub Ensures-bind :
      {B : Type 0} {m : S → Outcome E A × S} {next : A → S → Outcome E B × S} {Q : A → S → Type 0}
      {T : B → S → Type 0}
      → Ensures P m Q R
      → ((a : A) → Ensures (Q a) (next a) T R)
      → Ensures P (m >>= next) T R
  Ensures-bind {B} {m} {next} {Q} {T} first later = record {
    run = λ s p. carried (m s) (first.run s p);
  }
    where
      carried : (o : Outcome E A × S) → Post Q R o → Post T R (continue next o)
      carried (ok a, s) q = (later a).run s q
      carried (err e, s) r = r
      carried (panic, s) r = r

  pub Ensures-if :
      {m n : S → Outcome E A × S} {Q : A → S → Type 0} (b : Bool)
      → (b ≡ true → Ensures P m Q R)
      → (b ≡ false → Ensures P n Q R)
      → Ensures P (if b then m else n) Q R
  Ensures-if true f g = f refl
  Ensures-if false f g = g refl

pub fail-Ensures :
    {E S A : Type 0} {R : S → Type 0} {Q : A → S → Type 0} (e : E) → Ensures R (fail e) Q R
fail-Ensures e = record { run = λ s r. r }

pub pure-Ensures :
    {E S A : Type 0} {P R : S → Type 0} {Q : A → S → Type 0} (a : A)
    → ((s : S) → P s → Q a s)
    → Ensures {E = E} P (pure a) Q R
pure-Ensures a f = record { run = f }

-- What the code knows of an option when it splits on it.
pub Ensures-option :
    {E S A B : Type 0} (F : Option A → S → Type 0) {R : S → Type 0} {Q : B → S → Type 0}
    {m : S → Outcome E B × S} {next : A → S → Outcome E B × S}
    → Ensures (F none) m Q R
    → ((a : A) → Ensures (F (some a)) (next a) Q R)
    → (o : Option A) → Ensures {E = E} (F o) (elim o [ none ↦ m | some a ↦ next a ]) Q R
Ensures-option F f g none = f
Ensures-option F f g (some a) = g a

-- A weaker condition before, the same after.
pub Ensures-weaken :
    {E S A : Type 0} {P P' R : S → Type 0} {Q : A → S → Type 0} {m : S → Outcome E A × S}
    → ((s : S) → P' s → P s)
    → Ensures P m Q R
    → Ensures P' m Q R
Ensures-weaken f e = record { run = λ s p. e.run s (f s p) }

-- Weaker conditions after.
pub Ensures-mono :
    {E S A : Type 0} {P R R' : S → Type 0} {Q Q' : A → S → Type 0} {m : S → Outcome E A × S}
    → ((a : A) (s : S) → Q a s → Q' a s)
    → ((s : S) → R s → R' s)
    → Ensures P m Q R
    → Ensures P m Q' R'
Ensures-mono {E} {S} {A} {R} {R'} {Q} {Q'} {m} f g e = record {
  run = λ s p. weakened (m s) (e.run s p);
}
  where
    weakened : (o : Outcome E A × S) → Post Q R o → Post Q' R' o
    weakened (ok a, s) q = f a s q
    weakened (err e, s) r = g s r
    weakened (panic, s) r = g s r
