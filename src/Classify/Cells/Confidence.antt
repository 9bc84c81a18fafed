-- ===== src/Classify/Cells/Confidence.antt =====
-- internal/classify/classify.go: what a level of confidence stands on.
use censor_pulse_cli.Common.{
  Bool, Bool-cases, arith, false, inl, inr, leb, ltb, refl, true, ◌&&◌, ◌*◌, ◌==◌, ◌≡◌, ◌≢◌, ◌≤◌,
}
use censor_pulse_cli.Classify.Cells.{Cell, confidence, passes, fails, measured, high, low, medium}

-- The counts of a cell that Aggregate built.
pub record IsCounted (c : Cell) : Type 0 where
  pub unmeasured_bound : c.unmeasured ≤ c.total
  pub ok_bound : c.ok_count ≤ measured c

-- With a confidence above low the control passed, the other cell ran twice or more and did not pass:
-- no cell is accused against itself. With high confidence the other cell failed each time, and both
-- ran three times or more.
pub confidence-passes :
    (failed passed : Cell)
    → IsCounted failed
    → IsCounted passed
    → confidence failed passed ≢ low
    → (passes passed ≡ true)
      × (passes failed ≡ false)
      × (2 ≤ measured failed)
      × (confidence failed passed ≡ high
          → (fails failed ≡ true) × (3 ≤ measured failed) × (3 ≤ measured passed))
unfolding confidence passes fails
confidence-passes failed passed vf vp h = elim (Bool-cases sure) [
  | inl t ↦ (ground (arith, t), ground (arith, t), ground (arith, t), λ _. ground (arith, t))
  | inr t ↦ elim (Bool-cases likely) [
    | inl u ↦ (
      ground (arith, u),
      ground (arith, u),
      ground (arith, u),
      (λ e. absurd (not_high (rw (t, u) at e))),
    )
    | inr u ↦ absurd (h (rw (t, u) refl))
  ]
]
  where
    sure : Bool
    sure =
        leb 3 (measured failed)
        && failed.ok_count == 0
        && leb 3 (measured passed)
        && passed.ok_count == measured passed

    likely : Bool
    likely =
        leb 2 (measured failed)
        && leb (failed.ok_count * 3) (measured failed)
        && (ltb 0 (measured passed) && ltb (measured passed) (passed.ok_count * 2))

    not_high : ¬ (medium ≡ high)
    not_high e = cc
