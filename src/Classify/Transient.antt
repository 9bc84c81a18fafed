-- ===== src/Classify/Transient.antt =====
-- internal/classify/transient.go: `flagTransient`, a burst of failures in cells that pass otherwise. A
-- candidate keeps the place of its attempt, where the code keeps the pointer.
pub mod Spans
pub mod Passing
pub mod Failing
use censor_pulse_cli.Common.{
  Bool, List, String, [], concat_map, false, if◌then◌else◌, leb, length, ltb, map, not, str_eq, suc,
  zero, ℕ, ◌&&◌, ◌*◌, ◌++◌, ◌+◌, ◌-◌, ◌==◌, ◌||◌, ◌∷◌,
}
use censor_pulse_cli.Client.Merge.{Runtime, Attempt, one_of}
use censor_pulse_cli.Classify.Aggregate.{aggregate}
use censor_pulse_cli.Classify.Cells.{Cell, passes}
use censor_pulse_cli.Classify.Cells.Keys.{key, cell_key, port_key, str_ltb}
use censor_pulse_cli.Classify.Rules.{Evidence, count, float, formatted, text}
use censor_pulse_cli.Classify.Rules.Connect.{sort_by}
use censor_pulse_cli.Classify.Outages.{
  Marked, a_second, joined, flagged, first_start, flag_local_outage,
}

abbrev pub transient_span : ℕ
transient_span = 20 * a_second

abbrev pub transient_min : ℕ
transient_min = 6

abbrev pub transient_ports : ℕ
transient_ports = 3

-- The keys of a map that is filled from a list.
unfoldable pub distinct : List String → List String
distinct [] = []
distinct (s ∷ rest) = let others = distinct rest in if one_of s rest then others else s ∷ others

module _ (g : Runtime) where
  abbrev pub Placed : Type 0
  Placed = ℕ × Attempt g

  -- passing[cellKey(...)]
  unfoldable pub is_in_passing : List Cell → Attempt g → Bool
  is_in_passing [] a = false
  is_in_passing (c ∷ cells) a =
      (passes c && str_eq (key g c) (cell_key g a.test_id a.transport a.dst_port a.variant))
      || is_in_passing cells a

  unfoldable pub is_candidate : List Cell → Marked g → Bool
  is_candidate cells x =
      not (
        str_eq x.0.merged "ok"
        || one_of x.0.outcome ("ok" ∷ "inconclusive" ∷ "server_error" ∷ [])
        || x.0.started_at == 0
        || x.1)
      && is_in_passing cells x.0

  -- `cand`, before it is sorted, from a place on.
  unfoldable pub candidates_from : List Cell → ℕ → List (Marked g) → List Placed
  candidates_from cells i [] = []
  candidates_from cells i (x ∷ xs) =
      (if is_candidate cells x then (i, x.0) ∷ [] else []) ++ candidates_from cells (i + 1) xs

  -- The candidates that start within the span of a start, up to the first that does not.
  unfoldable pub within : ℕ → List Placed → List Placed
  within start [] = []
  within start (p ∷ ps) =
      if leb (p.1.started_at - start) transient_span then p ∷ within start ps else []

  abbrev pub widest : Placed → List Placed → List Placed
  widest p ps = p ∷ within p.1.started_at ps

  abbrev pub ports_of : List Placed → List String
  ports_of win = distinct (map (λ p. port_key g p.1.transport p.1.dst_port) win)

  unfoldable pub is_burst : List Placed → Bool
  is_burst win = not (ltb (length win) transient_min || ltb (length (ports_of win)) transient_ports)

  -- The bursts of sorted candidates, after some that the burst before has taken.
  unfoldable pub bursts : ℕ → List Placed → List (List Placed)
  bursts taken [] = []
  bursts (suc taken) (p ∷ ps) = bursts taken ps
  bursts zero (p ∷ ps) =
      (if is_burst (widest p ps) then widest p ps ∷ [] else [])
      ++ bursts (if is_burst (widest p ps) then length (within p.1.started_at ps) else 0) ps

  -- win[len(win)-1].StartedAt
  unfoldable pub last_start : ℕ → List Placed → ℕ
  last_start t [] = t
  last_start t (p ∷ ps) = last_start p.1.started_at ps

  unfoldable pub starts_at : List Placed → ℕ
  starts_at [] = 0
  starts_at (p ∷ ps) = p.1.started_at

  unfoldable pub burst_note : ℕ → List Placed → Evidence g
  burst_note t0 win =
      formatted
        "transient outage: %d attempts on %d ports (%d test families) failed between +%.0fs and +%.0fs of the scan (round %s) while the same cells passed in the other rounds; they are flagged detail.transient=true and left out of the cells"
        (count (length win)
          ∷ count (length (ports_of win))
          ∷ count (length (distinct (map (λ p. p.1.test_id) win)))
          ∷ float (g.seconds (starts_at win - t0))
          ∷ float (g.seconds (last_start 0 win - t0))
          ∷ text (joined "," (sort_by str_ltb (distinct (map (λ p. g.itoa p.1.round) win))))
          ∷ [])

  abbrev pub is_placed : ℕ → List Placed → Bool
  is_placed i [] = false
  is_placed i (p ∷ ps) = p.0 == i || is_placed i ps

  -- a.Detail["transient"] = "true" at the places of the candidates.
  unfoldable pub flag_at : ℕ → List Placed → List (Marked g) → List (Attempt g)
  flag_at i ps [] = []
  flag_at i ps (x ∷ xs) = (if is_placed i ps then flagged g x.0 else x.0) ∷ flag_at (i + 1) ps xs

  -- The bursts of a scan.
  unfoldable pub bursts_of : List (Marked g) → List (List Placed)
  bursts_of xs = bursts 0 (
      sort_by (λ p q. ltb p.1.started_at q.1.started_at)
        (candidates_from (aggregate g (map (λ x. x.0) xs)) 0 xs))

  -- `flagTransient`
  unfoldable pub flag_transient : List (Marked g) → List (Evidence g) × List (Attempt g)
  flag_transient xs = (
    map (burst_note (first_start g 0 (map (λ x. x.0) xs))) (bursts_of xs),
    flag_at 0 (concat_map (λ win. win) (bursts_of xs)) xs,
  )

  -- Both, as `classify` calls them.
  unfoldable pub flag_outages_of : List (Attempt g) → List (Evidence g) × List (Attempt g)
  flag_outages_of attempts =
      let by_host = flag_local_outage g attempts in
      let by_network = flag_transient by_host.1 in (by_host.0 ++ by_network.0, by_network.1)
