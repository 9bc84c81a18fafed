-- ===== src/Classify/Result/Justified.antt =====
-- internal/classify/classify.go: what stands behind the verdicts of a result.
use censor_pulse_cli.Common.{
  All, All-append, Bool, List, [], arith, if_lem, inl, not, true, ◌&&◌, ◌||◌, ◌∷◌, ◌≡◌, ◌≢◌,
}
use censor_pulse_cli.Client.Merge.{Runtime, Attempt}
use censor_pulse_cli.Classify.Cells.{Cell, high}
use censor_pulse_cli.Classify.Cells.Confidence.{IsCounted}
use censor_pulse_cli.Classify.Aggregate.Counted.{aggregate-IsCounted}
use censor_pulse_cli.Classify.Rules.{Verdict}
use censor_pulse_cli.Classify.Justified.{IsJustified}
use censor_pulse_cli.Classify.Run.Justified.{verdicts_of-IsJustified}
use censor_pulse_cli.Classify.Transient.Passing.{sort_by-All}
use censor_pulse_cli.Classify.Dest.Capped.{dest_verdicts-IsCapped}
use censor_pulse_cli.Classify.Run.{verdicts_of}
use censor_pulse_cli.Classify.Result.{Result, classify, all_verdicts, classify_flagged, is_earlier}

module _ (g : Runtime) where
  uncapped :
      (cells : List Cell) (vs : List (Verdict g))
      → All (λ v. v.confidence ≢ high) vs
      → All (IsJustified g cells) vs
  uncapped cells [] h = tt
  uncapped cells (v ∷ vs) h = (inl h.0, uncapped cells vs h.1)

  all_verdicts-IsJustified :
      (attempts : List (Attempt g)) (cells : List Cell)
      → All (IsJustified g cells) (all_verdicts g attempts cells)
  unfolding all_verdicts
  all_verdicts-IsJustified attempts cells = sort_by-All (IsJustified g cells) (is_earlier g) _ (
      All-append (IsJustified g cells) (verdicts_of g attempts cells) _
        (verdicts_of-IsJustified g attempts cells)
        (uncapped cells _ (dest_verdicts-IsCapped g attempts cells)))

  -- Of a scan whose control plane answered, or that had none: the cells of the result have consistent
  -- counts, and a verdict of high confidence names in its evidence a cell of the result that does not
  -- pass, and as its control a cell of the result that passes.
  pub classify-IsJustified :
      (attempts : List (Attempt g)) (probe_reachable standalone : Bool)
      → (probe_reachable || standalone) ≡ true
      → All IsCounted (classify g attempts probe_reachable standalone).cells
        × All
            (IsJustified g (classify g attempts probe_reachable standalone).cells)
            (classify g attempts probe_reachable standalone).verdicts
  unfolding classify classify_flagged
  classify-IsJustified attempts probe_reachable standalone h =
      if_lem (λ (r : Result g). All IsCounted r.cells × All (IsJustified g r.cells) r.verdicts)
        (not probe_reachable && not standalone) _ _ (λ t. absurd (ground (arith, h, t)))
        (λ _. (aggregate-IsCounted g _, all_verdicts-IsJustified _ _))
