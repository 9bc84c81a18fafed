-- ===== src/Classify/Cells/Keys.antt =====
-- internal/classify/classify.go: the names of cells, and the commonest result of one.
use Prim.Native.String.{◌++◌ as text_append, compare}
use Prim.Native.Nat.{lt, eq, gt}
use censor_pulse_cli.Common.{
  Bool, List, Option, String, [], false, filter, if◌then◌else◌, length, ltb, none, not, some,
  str_eq, true, ℕ, ◌&&◌, ◌==◌, ◌||◌, ◌∷◌,
}
use censor_pulse_cli.Client.Merge.{Runtime}
use censor_pulse_cli.Classify.Cells.{Cell, measured}

-- s < t, of texts.
abbrev pub str_ltb : String → String → Bool
str_ltb s t = elim (compare s t) [ lt ↦ true | eq ↦ false | gt ↦ false ]

module _ (g : Runtime) where
  -- `portKey`
  unfoldable pub port_key : String → ℕ → String
  port_key transport port = text_append transport (text_append "/" (g.itoa port))

  -- `familyKey`
  unfoldable pub family_key : String → String → ℕ → String
  family_key test transport port = text_append test (text_append " " (port_key transport port))

  -- `cellKey`
  unfoldable pub cell_key : String → String → ℕ → String → String
  cell_key test transport port variant =
      text_append (family_key test transport port) (text_append " " variant)

  -- `Cell.Key`
  unfoldable pub key : Cell → String
  key c = cell_key c.test_id c.transport c.port c.variant

-- `unmeasuredMerged`
unfoldable pub unmeasured_merged : String → Bool
unmeasured_merged s = str_eq s "server_error" || str_eq s "inconclusive" || str_eq s "skipped"

-- One turn of the loop of `dominant`, whose n starts below every count.
unfoldable pub commoner : String × ℕ → Option (String × ℕ) → Option (String × ℕ)
commoner e none = some e
commoner e (some best) =
    if ltb best.1 e.1 || (e.1 == best.1 && str_ltb e.0 best.0) then some e else some best

unfoldable pub commonest : Option (String × ℕ) → List (String × ℕ) → String
commonest none [] = ""
commonest (some best) [] = best.0
commonest best (e ∷ hist) = commonest (commoner e best) hist

-- The histogram that `dominant` falls back to, of a cell that no aggregation has filled.
abbrev pub measured_results : Cell → Option (List (String × ℕ)) → List (String × ℕ)
measured_results c none =
    if ltb 0 (measured c) then filter (λ e. not (unmeasured_merged e.0)) c.merged else []
measured_results c (some hist) = hist

-- `Cell.dominant`
unfoldable pub dominant : Cell → String
dominant c =
    let hist = measured_results c c.measured_merged in
    commonest none (if measured c == 0 || length hist == 0 then c.merged else hist)
