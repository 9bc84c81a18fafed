-- ===== src/Classify/Dest/Resets.antt =====
-- internal/client/attempt.go and internal/classify/dest.go: resets that come sooner than a round trip.
use Prim.Native.String.{◌++◌ as text_append}
use censor_pulse_cli.Common.{
  nat_eq, string_key, Bool, List, Option, String, [], detail_at, filter, find, if◌then◌else◌,
  length, ltb, map, none, not, put, some, str_eq, true, ℕ, ◌&&◌, ◌++◌, ◌==◌, ◌||◌, ◌∷◌,
}
use censor_pulse_cli.Client.Integers.{int_eq}
use censor_pulse_cli.Client.Merge.{Runtime, Attempt}
use censor_pulse_cli.Client.Merge.Table.{is_dest_test}
use censor_pulse_cli.Classify.Aggregate.{is_unmeasured, is_left_out}
use censor_pulse_cli.Classify.Cells.{Cell}
use censor_pulse_cli.Classify.Rules.{Evidence, Arg, count, float, formatted, option_or}

module _ (g : Runtime) where
  -- 0 < ms
  abbrev pub is_positive : g.Float → Bool
  is_positive ms = g.float_ltb (g.float_of_nat 0) ms

  -- `UsableRTT`
  unfoldable pub usable_rtt : g.Float → Bool
  usable_rtt rtt = is_positive rtt && g.float_ltb rtt (g.float_of_nat 1000)

  -- `ResetBeforeRTT`
  unfoldable pub reset_before_rtt : g.Float → g.Float → Bool
  reset_before_rtt reset_ms rtt =
      usable_rtt rtt
      && g.float_ltb reset_ms (g.float_mul (g.float_div (g.float_of_nat 4) (g.float_of_nat 5)) rtt)

  abbrev pub stage_at : Attempt g → String → Option g.Float
  stage_at a stage = find stage a.stages

  -- The reset and the round trip of three measured stages.
  unfoldable pub timing_of :
      Option g.Float → Option g.Float → Option g.Float → Option (g.Float × g.Float)
  timing_of (some rtt) (some wrote) (some ended) =
      if not (is_positive rtt) || g.float_ltb ended wrote
      then none
      else some (g.float_sub ended wrote, rtt)
  timing_of (some rtt) (some wrote) none = none
  timing_of (some rtt) none ended = none
  timing_of none wrote ended = none

  -- `ResetTiming`
  unfoldable pub reset_timing : Attempt g → Option (g.Float × g.Float)
  reset_timing a =
      if not (str_eq a.outcome "midstream_reset")
      then none
      else timing_of (stage_at a "connect") (stage_at a "first_write") (stage_at a "done")

  -- `attemptIP`
  unfoldable pub attempt_ip : Attempt g → String
  attempt_ip a =
      if not (str_eq (detail_at a.detail "ip") "")
      then detail_at a.detail "ip"
      else option_or (g.split_host (detail_at a.detail "endpoint")) "" (λ host. host)

  abbrev pub is_shorter : g.Float → Option g.Float → Bool
  is_shorter rtt none = true
  is_shorter rtt (some m) = g.float_ltb rtt m

  unfoldable pub note_rtt :
      String → Option g.Float → List (String × g.Float) → List (String × g.Float)
  note_rtt ip none m = m
  note_rtt ip (some rtt) m =
      if not (str_eq ip "") && usable_rtt rtt && is_shorter rtt (find ip m) then put ip rtt m else m

  -- `minRTT`
  unfoldable pub min_rtt : List (String × g.Float) → List (Attempt g) → List (String × g.Float)
  min_rtt m [] = m
  min_rtt m (a ∷ attempts) =
      min_rtt
        (if not (is_dest_test g a.test_id) || is_left_out g a
          then m
          else note_rtt (attempt_ip a) (stage_at a "connect") m)
        attempts

  -- The round trip that a reset is held against.
  abbrev pub best_rtt : g.Float → Option g.Float → g.Float
  best_rtt rtt none = rtt
  best_rtt rtt (some m) = if g.float_ltb m rtt || not (usable_rtt rtt) then m else rtt

  -- The attempts of a cell that `earlyResets` reads.
  unfoldable pub is_of_cell : Cell → Attempt g → Bool
  is_of_cell c a =
      str_eq a.test_id c.test_id
      && str_eq a.variant c.variant
      && a.dst_port == c.port
      && not (is_left_out g a)
      && not (is_unmeasured g a)

  -- The resets of a cell, each with its round trip.
  unfoldable pub resets_of :
      List (String × g.Float) → Cell → List (Attempt g) → List (g.Float × g.Float)
  resets_of best c [] = []
  resets_of best c (a ∷ attempts) =
      (if is_of_cell c a
        then option_or (reset_timing a) []
            (λ t. (t.0, best_rtt t.1 (find (attempt_ip a) best)) ∷ [])
        else [])
      ++ resets_of best c attempts

  unfoldable pub least : g.Float → List g.Float → g.Float
  least lo [] = lo
  least lo (x ∷ xs) = least (if g.float_ltb x lo then x else lo) xs

  unfoldable pub greatest : g.Float → List g.Float → g.Float
  greatest hi [] = hi
  greatest hi (x ∷ xs) = greatest (if g.float_ltb hi x then x else hi) xs

  -- A format with its arguments.
  abbrev pub Shown : Type 0
  Shown = String × List (Arg g)

  -- `span`
  unfoldable pub span : List g.Float → Shown
  span [] = ("", [])
  span (x ∷ xs) =
      let lo = least x xs in
      let hi = greatest x xs in
      if int_eq (g.truncate lo) (g.truncate hi)
      then ("%.0f ms", float lo ∷ [])
      else ("%.0f-%.0f ms", float lo ∷ float hi ∷ [])

  abbrev pub words : String → Shown
  words s = (s, [])

  -- Pieces of a line, one after the other.
  unfoldable pub line_of : List Shown → Shown
  line_of [] = ("", [])
  line_of (p ∷ ps) = (text_append p.0 (line_of ps).0, p.1 ++ (line_of ps).1)

  abbrev pub early_of : List (g.Float × g.Float) → ℕ
  early_of rs = length (filter (λ r. reset_before_rtt r.0 r.1) rs)

  unfoldable pub reset_line : List (g.Float × g.Float) → Shown
  reset_line rs =
      let resets = span (map (λ r. r.0) rs) in
      let rtts = span (map (λ r. r.1) rs) in
      if early_of rs == length rs
      then line_of (
          words "the reset came "
          ∷ resets
          ∷ words " after the ClientHello, sooner than the TCP round trip to the address ("
          ∷ rtts
          ∷ words "): sent by a middlebox on the path, not by the server"
          ∷ [])
      else if ltb 0 (early_of rs)
      then line_of (
          (
            "%d of %d resets came sooner than the TCP round trip to the address (reset ",
            count (early_of rs) ∷ count (length rs) ∷ [],
          )
          ∷ resets
          ∷ words " after the ClientHello, round trip "
          ∷ rtts
          ∷ words "): injected on the path"
          ∷ [])
      else line_of (
          words "the reset came "
          ∷ resets
          ∷ words " after the ClientHello, the TCP round trip to the address took "
          ∷ rtts
          ∷ [])

  -- `earlyResets`: the number of early resets, and the line, where there is one.
  unfoldable pub early_resets : List (Attempt g) → Cell → ℕ × List (Evidence g)
  early_resets attempts c =
      let rs = resets_of (min_rtt [] attempts) c attempts in
      if length rs == 0
      then (0, [])
      else (early_of rs, formatted (reset_line rs).0 (reset_line rs).1 ∷ [])
