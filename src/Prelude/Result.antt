-- ===== src/Prelude/Result.antt =====
-- What a Go call that returns a value and an error ends in.
use kube_actions.Prelude.{◌≡◌, refl}

pub data Result {ℓ κ} (E : Type ℓ) (A : Type κ) : Type (ℓ ⊔ κ) where
  ok : A → Result E A
  err : E → Result E A

-- `if err != nil { return err }` after a call.
infixl 5 ◌>>=◌
abbrev pub ◌>>=◌ {ℓ κ μ} :
    {E : Type ℓ} {A : Type κ} {B : Type μ} → Result E A → (A → Result E B) → Result E B
called >>= next = elim called [ err e ↦ err e | ok value ↦ next value ]

-- A chain that succeeds had a first call that succeeded.
pub >>=-succeeds {ℓ κ μ} :
    {E : Type ℓ} {A : Type κ} {B : Type μ} (called : Result E A) (next : A → Result E B)
    (result : B)
    → (called >>= next) ≡ ok result
    → (value : A) × (called ≡ ok value) × (next value ≡ ok result)
>>=-succeeds (err e) next result done = cc
>>=-succeeds (ok value) next result done = (value, refl, done)
