-- ===== src/Classify/Result.antt =====
-- internal/classify/classify.go: `classify`, from the attempts of a scan to its result.
pub mod Justified
use Prim.Native.String.{◌++◌ as text_append}
use censor_pulse_cli.Common.{
  Bool, List, String, [], false, filter, if◌then◌else◌, length, map, not, str_eq, true, ℕ, ◌&&◌,
  ◌++◌, ◌==◌, ◌∷◌,
}
use censor_pulse_cli.Client.Merge.{Runtime, Attempt}
use censor_pulse_cli.Client.Observe.{count_up}
use censor_pulse_cli.Classify.Aggregate.{aggregate}
use censor_pulse_cli.Classify.Cells.{Cell, Level, high, low, confidence, medium}
use censor_pulse_cli.Classify.Cells.Keys.{str_ltb}
use censor_pulse_cli.Classify.Rules.{Evidence, Verdict, said, verdict}
use censor_pulse_cli.Classify.Rules.Connect.{sort_by}
use censor_pulse_cli.Classify.Outages.{joined, counted_name}
use censor_pulse_cli.Classify.Transient.{flag_outages_of}
use censor_pulse_cli.Classify.Run.{verdicts_of}
use censor_pulse_cli.Classify.Dest.Verdicts.{dest_verdicts}
use censor_pulse_cli.Classify.Dest.Sites.{Destination, destinations}

module _ (g : Runtime) where
  -- `Result`
  pub record Result : Type 0 where
    pub cells : List Cell
    pub verdicts : List (Verdict g)
    pub summary : String
    pub notes : List (Evidence g)
    pub sites : List Destination

  abbrev pub is_low : Level → Bool
  is_low high = false
  is_low medium = false
  is_low low = true

  -- How often each kind occurs.
  unfoldable pub count_kinds : List (String × ℕ) → List (Verdict g) → List (String × ℕ)
  count_kinds m [] = m
  count_kinds m (v ∷ vs) = count_kinds (count_up v.kind m) vs

  -- `join` of summarize.
  unfoldable pub join_counts : List (String × ℕ) → String
  join_counts m = joined ", " (sort_by str_ltb (map (counted_name g) m))

  -- `summarize`
  unfoldable pub summarize : List (Verdict g) → String
  summarize [] = "clean: every test family passed on every port; no differential observed"
  summarize (v ∷ vs) =
      let kinds = count_kinds [] (filter (λ w. not (is_low w.confidence)) (v ∷ vs)) in
      let low_kinds = count_kinds [] (filter (λ w. is_low w.confidence) (v ∷ vs)) in
      if length kinds == 0
      then text_append "low confidence only: " (join_counts low_kinds)
      else if length low_kinds == 0
      then join_counts kinds
      else text_append (join_counts kinds)
          (text_append "; low confidence: " (join_counts low_kinds))

  -- The order of the verdicts: by kind, then by subject.
  unfoldable pub is_earlier : Verdict g → Verdict g → Bool
  is_earlier v w =
      if not (str_eq v.kind w.kind) then str_ltb v.kind w.kind else str_ltb v.subject w.subject

  abbrev pub unreachable_verdict : Verdict g
  unreachable_verdict = verdict g "probe_unreachable" "control plane" high (
      said g
        "control API on the pinned TLS port did not answer; no protocol-level conclusion is possible"
      ∷ [])

  -- The verdicts of the rules and of the destinations, sorted.
  unfoldable pub all_verdicts : List (Attempt g) → List Cell → List (Verdict g)
  all_verdicts attempts cells =
      sort_by is_earlier (verdicts_of g attempts cells ++ dest_verdicts g attempts cells)

  -- `classify` on the attempts with their flags.
  unfoldable pub classify_flagged : List (Evidence g) × List (Attempt g) → Bool → Bool → Result
  classify_flagged (notes, attempts) probe_reachable standalone =
      let cells = aggregate g attempts in
      let verdicts = all_verdicts attempts cells in
      if not probe_reachable && not standalone
      then record {
        cells = cells;
        verdicts = unreachable_verdict ∷ [];
        summary = "probe_unreachable";
        notes = notes;
        sites = [];
      }
      else record {
        cells = cells;
        verdicts = verdicts;
        summary = summarize verdicts;
        notes = notes;
        sites = destinations g attempts cells verdicts;
      }

  -- `classify`
  unfoldable pub classify : List (Attempt g) → Bool → Bool → Result
  classify attempts = classify_flagged (flag_outages_of g attempts)
