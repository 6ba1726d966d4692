-- ===== src/Prelude/Results.antt =====
-- Code that returns a value and an `error`.
pub data Result {ℓ} (E : Type 0) (A : Type ℓ) : Type ℓ where
  ok : A → Result E A
  err : E → Result E A
