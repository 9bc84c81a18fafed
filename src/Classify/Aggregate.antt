-- ===== src/Classify/Aggregate.antt =====
-- internal/classify/classify.go: `Aggregate` and what it counts.
pub mod Tally
pub mod Counted
use Prim.Native.String.{◌++◌ as text_append}
use censor_pulse_cli.Common.{
  string_key, Bool, List, Option, String, [], detail_at, false, find, if◌then◌else◌, map, none, not,
  put, some, str_eq, true, ℕ, ◌+◌, ◌||◌, ◌∷◌,
}
use censor_pulse_cli.Client.Merge.{Runtime, Attempt}
use censor_pulse_cli.Client.Observe.{count_up}
use censor_pulse_cli.Client.Local.{local_failure}
use censor_pulse_cli.Classify.Cells.{Cell}
use censor_pulse_cli.Classify.Cells.Keys.{key, unmeasured_merged, str_ltb}

-- a.Server != nil
abbrev pub is_some : {A : Type 0} → Option A → Bool
is_some none = false
is_some (some x) = true

-- measuredMerged[key]++
abbrev pub count_up_in : String → Option (List (String × ℕ)) → Option (List (String × ℕ))
count_up_in k none = some (count_up k [])
count_up_in k (some hist) = some (count_up k hist)

module _ (g : Runtime) where
  -- `unmeasured`
  unfoldable pub is_unmeasured : Attempt g → Bool
  is_unmeasured a =
      unmeasured_merged a.outcome
      || unmeasured_merged a.merged
      || not (str_eq (local_failure g a) "")

  -- The attempts that `Aggregate` skips.
  unfoldable pub is_left_out : Attempt g → Bool
  is_left_out a =
      str_eq (detail_at a.detail "transient") "true"
      || str_eq (detail_at a.detail "cancelled") "true"

  -- The key of the map.
  unfoldable pub group_key : Attempt g → String
  group_key a = text_append a.test_id (
      text_append "|" (
        text_append a.transport
          (text_append "|" (text_append (g.itoa a.dst_port) (text_append "|" a.variant)))))

  unfoldable pub new_cell : Attempt g → Cell
  new_cell a = record {
    test_id = a.test_id;
    transport = a.transport;
    port = a.dst_port;
    variant = a.variant;
    role = a.role;
    total = 0;
    ok_count = 0;
    server_saw = 0;
    unmeasured = 0;
    outcomes = [];
    merged = [];
    measured_merged = some [];
  }

  -- The switch: an attempt that measured nothing, a success, anything else.
  unfoldable pub count_result : Attempt g → Cell → Cell
  count_result a c =
      if is_unmeasured a
      then record c { unmeasured = c.unmeasured + 1 }
      else if str_eq a.outcome "ok"
      then record c {
        ok_count = c.ok_count + 1;
        measured_merged = count_up_in a.merged c.measured_merged;
      }
      else record c { measured_merged = count_up_in a.merged c.measured_merged }

  -- What one attempt adds to its cell.
  unfoldable pub count_attempt : Attempt g → Cell → Cell
  count_attempt a c =
      let counted = count_result a (record c {
        total = c.total + 1;
        outcomes = count_up a.outcome c.outcomes;
        merged = count_up a.merged c.merged;
      }) in
      if is_some a.server then record counted { server_saw = counted.server_saw + 1 } else counted

  abbrev pub cell_or_new : Attempt g → Option Cell → Cell
  cell_or_new a none = new_cell a
  cell_or_new a (some c) = c

  unfoldable pub add_attempt : Attempt g → List (String × Cell) → List (String × Cell)
  add_attempt a m =
      if is_left_out a
      then m
      else put (group_key a) (count_attempt a (cell_or_new a (find (group_key a) m))) m

  -- The loop of `Aggregate`.
  unfoldable pub group_from : List (String × Cell) → List (Attempt g) → List (String × Cell)
  group_from m [] = m
  group_from m (a ∷ attempts) = group_from (add_attempt a m) attempts

  -- `sort.Slice` by key.
  unfoldable pub insert_cell : Cell → List Cell → List Cell
  insert_cell c [] = c ∷ []
  insert_cell c (d ∷ cells) =
      if str_ltb (key g d) (key g c) then d ∷ insert_cell c cells else c ∷ d ∷ cells

  unfoldable pub sort_cells : List Cell → List Cell
  sort_cells [] = []
  sort_cells (c ∷ cells) = insert_cell c (sort_cells cells)

  -- `Aggregate`
  unfoldable pub aggregate : List (Attempt g) → List Cell
  aggregate attempts = sort_cells (map (λ e. e.1) (group_from [] attempts))
