-- ===== src/Classify/Dest.antt =====
-- internal/classify/dest.go: what the verdicts on destinations read of a cell.
pub mod Resets
pub mod Family
pub mod Layers
pub mod Verdicts
pub mod Sites
pub mod Capped
use Prim.Native.String.{◌++◌ as text_append}
use censor_pulse_cli.Common.{
  Bool, List, Option, String, [], false, filter, if◌then◌else◌, length, ltb, none, not, some,
  str_eq, ℕ, ◌&&◌, ◌==◌, ◌∷◌,
}
use censor_pulse_cli.Client.Merge.{Runtime, one_of}
use censor_pulse_cli.Client.Merge.Table.{is_dest_test}
use censor_pulse_cli.Classify.Cells.{Cell, fails, Level, confidence, count_at}
use censor_pulse_cli.Classify.Cells.Keys.{key, dominant, unmeasured_merged}
use censor_pulse_cli.Classify.Rules.{Evidence, Arg, count, formatted, text}
use censor_pulse_cli.Classify.Rules.Protocol.{lower}

-- `destFailed`
unfoldable pub dest_failed : Cell → Bool
dest_failed c =
    fails c && not (one_of (dominant c) ("skipped" ∷ "inconclusive" ∷ "server_error" ∷ []))

-- `connectStage`
unfoldable pub connect_stage : Cell → Bool
connect_stage c = one_of (dominant c) ("connect_timeout" ∷ "connect_reset" ∷ "connect_refused" ∷ [])

-- An outcome that a cell of nothing but timeouts has none of.
abbrev pub is_other_failure : String × ℕ → Bool
is_other_failure e =
    ltb 0 e.1
    && not (str_eq e.0 "ok")
    && not (str_eq e.0 "payload_timeout")
    && not (unmeasured_merged e.0)

-- `timedOutOnly`
unfoldable pub timed_out_only : Cell → Bool
timed_out_only c =
    not (count_at c.outcomes "payload_timeout" == 0)
    && length (filter is_other_failure c.outcomes) == 0

-- Cell{}
abbrev pub no_cell : Cell
no_cell = record {
  test_id = "";
  transport = "";
  port = 0;
  variant = "";
  role = "";
  total = 0;
  ok_count = 0;
  server_saw = 0;
  unmeasured = 0;
  outcomes = [];
  merged = [];
  measured_merged = none;
}

abbrev pub cell_or_none : Option Cell → Cell
cell_or_none none = no_cell
cell_or_none (some c) = c

-- haveX && test(x)
abbrev pub is_with : Option Cell → (Cell → Bool) → Bool
is_with none test = false
is_with (some c) test = test c

-- `find` of destVerdicts.
unfoldable pub find_variant : List Cell → String → String → Option Cell
find_variant [] test variant = none
find_variant (c ∷ cells) test variant =
    if str_eq c.test_id test && str_eq c.variant variant
    then some c
    else find_variant cells test variant

module _ (g : Runtime) where
  -- `capped`
  unfoldable pub capped : Cell → Cell → Level
  capped failed passed = lower g (confidence failed passed)

  abbrev pub ev_args : Cell → List (Arg g)
  ev_args c = text (key g c) ∷ count c.ok_count ∷ count c.total ∷ text (dominant c) ∷ []

  -- A line before and after what `ev` says of a cell.
  abbrev pub around : String → Cell → String → Evidence g
  around before c after =
      formatted (text_append before (text_append "%s: %d/%d ok, dominant=%s" after)) (ev_args c)

  -- `ev` after some words.
  abbrev pub brief : String → Cell → Evidence g
  brief before c = around before c ""

  -- `destDomain`
  unfoldable pub dest_domain : String → String
  dest_domain variant =
      if g.has_prefix variant "decoy:"
      then g.trim_prefix variant "decoy:"
      else if g.has_prefix variant "absent:"
      then g.trim_prefix variant "absent:"
      else variant

  -- The cells that belong to a site.
  unfoldable pub is_site_cell : Cell → Bool
  is_site_cell c =
      is_dest_test g c.test_id
      && not (str_eq c.test_id "dest.nxdomain")
      && not (str_eq c.variant "anycast")
