-- ===== src/Common/Results.antt =====
-- Go's (value, error) pair, where one of the two is nil.
pub data Result {ℓ} (E : Type 0) (A : Type ℓ) : Type ℓ where
  ok : A → Result E A
  err : E → Result E A
