-- ===== src/Classify/Aggregate/Counted.antt =====
-- internal/classify/classify.go: the counts of every cell that `Aggregate` builds are consistent.
use censor_pulse_cli.Common.{
  string_key, All, All-find, All-put, Bool-cases, List, Option-cases, String, [], arith, find, inl,
  inr, map, ◌∷◌,
}
use censor_pulse_cli.Client.Merge.{Runtime, Attempt}
use censor_pulse_cli.Classify.Cells.{Cell, measured}
use censor_pulse_cli.Classify.Cells.Confidence.{IsCounted}
use censor_pulse_cli.Classify.Cells.Keys.{key, str_ltb}
use censor_pulse_cli.Classify.Aggregate.{
  add_attempt, cell_or_new, count_attempt, count_result, group_from, group_key, is_left_out,
  new_cell, aggregate, insert_cell, sort_cells,
}

module _ (g : Runtime) where
  count_attempt-IsCounted :
      (a : Attempt g) (c : Cell) → IsCounted c → IsCounted (count_attempt g a c)
  unfolding count_attempt count_result measured
  count_attempt-IsCounted a c h = ground (arith, h.unmeasured_bound, h.ok_bound)

  new_cell-IsCounted : (a : Attempt g) → IsCounted (new_cell g a)
  unfolding new_cell measured
  new_cell-IsCounted a = record { unmeasured_bound = omega arith; ok_bound = omega arith }

  cell_or_new-IsCounted :
      (a : Attempt g) (m : List (String × Cell))
      → All (λ e. IsCounted e.1) m
      → IsCounted (cell_or_new g a (find (group_key g a) m))
  cell_or_new-IsCounted a m h = elim (Option-cases (find (group_key g a) m)) [
    | inl e ↦ rw e (new_cell-IsCounted a)
    | inr (c, e) ↦ rw e (All-find (λ q. IsCounted q.1) (group_key g a) c m h e)
  ]

  group_from-IsCounted :
      (attempts : List (Attempt g)) (m : List (String × Cell))
      → All (λ e. IsCounted e.1) m
      → All (λ e. IsCounted e.1) (group_from g m attempts)
  unfolding group_from add_attempt
  group_from-IsCounted [] m h = h
  group_from-IsCounted (a ∷ attempts) m h = elim (Bool-cases (is_left_out g a)) [
    | inl t ↦ rw t (group_from-IsCounted attempts m h)
    | inr t ↦ rw t (
        group_from-IsCounted attempts _ (
          All-put (λ q. IsCounted q.1) (group_key g a) _ m h
            (count_attempt-IsCounted a _ (cell_or_new-IsCounted a m h))))
  ]

  module _ {κ} (P : Cell → Type κ) where
    insert_cell-All :
        (c : Cell) (cells : List Cell) → P c → All P cells → All P (insert_cell g c cells)
    unfolding insert_cell
    insert_cell-All c [] p h = (p, h)
    insert_cell-All c (d ∷ cells) p h = elim (Bool-cases (str_ltb (key g d) (key g c))) [
      | inl t ↦ rw t (h.0, insert_cell-All c cells p h.1)
      | inr t ↦ rw t (p, h)
    ]

    sort_cells-All :
        (m : List (String × Cell)) → All (λ e. P e.1) m → All P (sort_cells g (map (λ e. e.1) m))
    unfolding sort_cells
    sort_cells-All [] h = h
    sort_cells-All (e ∷ m) h =
        insert_cell-All e.1 (sort_cells g (map (λ q. q.1) m)) h.0 (sort_cells-All m h.1)

  -- In every cell that `Aggregate` builds, from any attempts, the attempts that measured nothing are
  -- among its attempts, and the successes are among those that measured something.
  pub aggregate-IsCounted : (attempts : List (Attempt g)) → All IsCounted (aggregate g attempts)
  unfolding aggregate
  aggregate-IsCounted attempts =
      sort_cells-All IsCounted (group_from g [] attempts) (group_from-IsCounted attempts [] tt)
