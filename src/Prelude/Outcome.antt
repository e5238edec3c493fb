-- ===== src/Prelude/Outcome.antt =====
-- What a Go call ends in: a value with a nil error, an error, or a panic.
pub data Outcome {ℓ κ} (E : Type ℓ) (A : Type κ) : Type (ℓ ⊔ κ) where
  ok : A → Outcome E A
  err : E → Outcome E A
  panic : Outcome E A
