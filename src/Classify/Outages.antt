-- ===== src/Classify/Outages.antt =====
-- internal/classify/transient.go: the outages of the host and of its network, whose attempts are
-- flagged and left out of the cells. An attempt stands with the mark that `local` keeps for it; times
-- are nanoseconds, and a time before the first start counts as that start, as `since` has it.
-- A start less its reservation stops at 0, the zero time.
use Prim.Native.String.{◌++◌ as text_append}
use censor_pulse_cli.Common.{
  string_key, Bool, List, String, [], concat_map, detail_at, false, filter, find, if◌then◌else◌,
  leb, length, ltb, map, none, not, put, some, str_eq, true, ℕ, ◌&&◌, ◌*◌, ◌++◌, ◌+◌, ◌-◌, ◌==◌,
  ◌||◌, ◌∷◌,
}
use censor_pulse_cli.Client.Merge.{Runtime, Attempt}
use censor_pulse_cli.Client.Local.{local_failure, local_no_route}
use censor_pulse_cli.Client.Observe.{count_up}
use censor_pulse_cli.Classify.Cells.Keys.{str_ltb}
use censor_pulse_cli.Classify.Rules.{Evidence, count, float, formatted, text}
use censor_pulse_cli.Classify.Rules.Connect.{sort_by}

abbrev pub a_second : ℕ
a_second = 1000000000

abbrev pub local_min : ℕ
local_min = 2

abbrev pub local_gap : ℕ
local_gap = 20 * a_second

abbrev pub local_lead : ℕ
local_lead = 10 * a_second

-- strings.Join
unfoldable pub joined : String → List String → String
joined separator [] = ""
joined separator (s ∷ []) = s
joined separator (s ∷ t ∷ rest) =
    text_append s (text_append separator (joined separator (t ∷ rest)))

-- `event`
pub record Event : Type 0 where
  pub from : ℕ
  pub to : ℕ
  pub name : String

-- The events of one window, with their number and their names.
pub record Outage : Type 0 where
  pub from : ℕ
  pub to : ℕ
  pub size : ℕ
  pub names : List (String × ℕ)

abbrev pub start_with : Event → Outage
start_with e = record { from = e.from; to = e.to; size = 1; names = count_up e.name [] }

abbrev pub extend_by : Outage → Event → Outage
extend_by o e = record {
  from = o.from;
  to = if ltb o.to e.to then e.to else o.to;
  size = o.size + 1;
  names = count_up e.name o.names;
}

-- !events[j].from.After(to.Add(localGap))
abbrev pub is_near : Outage → Event → Bool
is_near o e = leb e.from (o.to + local_gap)

-- The windows of sorted events, from the one that is open.
unfoldable pub outages_from : Outage → List Event → List Outage
outages_from o [] = o ∷ []
outages_from o (e ∷ es) =
    (if is_near o e then [] else o ∷ [])
    ++ outages_from (if is_near o e then extend_by o e else start_with e) es

unfoldable pub outages_of : List Event → List Outage
outages_of [] = []
outages_of (e ∷ es) = outages_from (start_with e) es

module _ (g : Runtime) where
  -- An attempt with its mark in `local`.
  abbrev pub Marked : Type 0
  Marked = Attempt g × Bool

  -- `attemptSpan`
  unfoldable pub attempt_span : Attempt g → ℕ × ℕ
  attempt_span a = (a.started_at - get_ms "reserve", a.started_at + get_ms "done")
    where
      get_ms : String → ℕ
      get_ms stage = elim (find stage a.stages) [ none ↦ 0 | some ms ↦ g.nanoseconds ms ]

  -- `t0`: the first start, 0 if there is none.
  unfoldable pub first_start : ℕ → List (Attempt g) → ℕ
  first_start t0 [] = t0
  first_start t0 (a ∷ attempts) =
      first_start
        (if t0 == 0 || (not (a.started_at == 0) && ltb a.started_at t0) then a.started_at else t0)
        attempts

  -- The event of an attempt that ended on a failure of the host.
  unfoldable pub events_of : Attempt g → List Event
  events_of a =
      let name = local_failure g a in
      let span = attempt_span a in
      if a.started_at == 0 || str_eq name "" || str_eq name local_no_route
      then []
      else record {
        from = if ltb local_lead (span.1 - span.0) then span.1 - local_lead else span.0;
        to = span.1;
        name = name;
      }
        ∷ []

  abbrev pub is_ok : Attempt g → Bool
  is_ok a = str_eq a.outcome "ok"

  -- The attempts that an outage takes down with it.
  unfoldable pub is_cut : Outage → Marked → Bool
  is_cut o x =
      not (
        x.0.started_at == 0 || is_ok x.0 || str_eq (detail_at x.0.detail "cancelled") "true" || x.1)
      && not (ltb (attempt_span x.0).1 o.from || ltb o.to (attempt_span x.0).0)

  -- a.Detail["transient"] = "true"
  abbrev pub flagged : Attempt g → Attempt g
  flagged a = record a { detail = put "transient" "true" a.detail }

  unfoldable pub mark_cut : Outage → Marked → Marked
  mark_cut o x = if is_cut o x then (flagged x.0, true) else x

  abbrev pub counted_name : String × ℕ → String
  counted_name e = text_append e.0 (text_append "×" (g.itoa e.1))

  -- What an outage of the host says.
  unfoldable pub outage_note : ℕ → List Marked → Outage → Evidence g
  outage_note t0 xs o =
      formatted
        "transient outage: the host itself cut the scan off the network between +%.0fs and +%.0fs of the scan (%d failures of its own: %s); the %d attempts that failed in flight then are flagged detail.transient=true and left out of the cells"
        (float (g.seconds (o.from - t0))
          ∷ float (g.seconds (o.to - t0))
          ∷ count o.size
          ∷ text (joined ", " (sort_by str_ltb (map counted_name o.names)))
          ∷ count (length (filter (is_cut o) xs))
          ∷ [])

  -- The outages in their order, on what the ones before have flagged.
  unfoldable pub flag_outages : ℕ → List Outage → List Marked → List (Evidence g) × List Marked
  flag_outages t0 [] xs = ([], xs)
  flag_outages t0 (o ∷ os) xs =
      let rest = flag_outages t0 os (if ltb o.size local_min then xs else map (mark_cut o) xs) in
      ((if ltb o.size local_min then [] else outage_note t0 xs o ∷ []) ++ rest.0, rest.1)

  -- `flagLocalOutage`
  unfoldable pub flag_local_outage : List (Attempt g) → List (Evidence g) × List Marked
  flag_local_outage attempts =
      flag_outages (first_start 0 attempts)
        (outages_of (sort_by (λ d e. ltb d.from e.from) (concat_map events_of attempts)))
        (map (λ a. (a, false)) attempts)
