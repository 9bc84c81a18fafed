-- ===== src/Examples/Classify.antt =====
-- internal/classify at concrete inputs.
use censor_pulse_cli.Common.{
  nat_eq, string_key, All, List, String, [], arith, detail_at, false, find, if◌then◌else◌, length,
  map, none, put, refl, some, str_eq, true, ℕ, ◌++◌, ◌∷◌, ◌≡◌, ◌≢◌, ◌≤◌,
}
use censor_pulse_cli.Classify.Cells.{Cell, confidence, passes, fails, measured, high, low}
use censor_pulse_cli.Client.Merge.{Attempt}
use censor_pulse_cli.Examples.Merge.{plain, attempt, flow}
use censor_pulse_cli.Classify.Aggregate.{
  group_from, aggregate, add_attempt, count_attempt, count_result, group_key, insert_cell,
  is_left_out, is_unmeasured, new_cell, sort_cells,
}
use censor_pulse_cli.Classify.Aggregate.Tally.{group_from-IsTallied, IsTallied}
use censor_pulse_cli.Classify.Justified.{IsJustified}
use censor_pulse_cli.Classify.Result.{classify, Result}
use censor_pulse_cli.Classify.Result.Justified.{classify-IsJustified}
use censor_pulse_cli.Classify.Outages.{Marked}
use censor_pulse_cli.Classify.Transient.{
  flag_transient, flag_outages_of, bursts_of, bursts, candidates_from, distinct, is_burst,
  is_candidate, is_in_passing, within,
}
use censor_pulse_cli.Classify.Transient.Passing.{Flags, cells_before, flag_transient-Flags}
use censor_pulse_cli.Classify.Cells.Keys.{unmeasured_merged, port_key, cell_key, family_key, key}
use censor_pulse_cli.Classify.Rules.Connect.{sort_by, insert_by}
use censor_pulse_cli.Classify.Aggregate.{
  insert_cell, sort_cells, add_attempt, count_attempt, count_result, new_cell, group_key,
  is_left_out, is_unmeasured, aggregate, group_from,
}
use censor_pulse_cli.Client.Local.{local_failure}
use censor_pulse_cli.Classify.Transient.Failing.{Pairwise, IsSpared, flag_outages_of-IsSpared}
use censor_pulse_cli.Classify.Cells.Confidence.{confidence-passes, IsCounted}

-- A cell of five attempts on port 443, of which one measured nothing.
abbrev five : ℕ → Cell
five passed = record {
  test_id = "tls.sni";
  transport = "tcp";
  port = 443;
  variant = "";
  role = "variant";
  total = 5;
  ok_count = passed;
  server_saw = 0;
  unmeasured = 1;
  outcomes = [];
  merged = [];
  measured_merged = none;
}

five_differ : confidence (five 0) (five 4) ≢ low
unfolding confidence measured
five_differ e = cc

five-IsCounted : (n : ℕ) → n ≤ 4 → IsCounted (five n)
unfolding measured
five-IsCounted n h = record { unmeasured_bound = omega arith; ok_bound = h }

confidence-passes_example :
    (passes (five 4) ≡ true)
    × (passes (five 0) ≡ false)
    × (2 ≤ measured (five 0))
    × (confidence (five 0) (five 4) ≡ high
        → (fails (five 0) ≡ true) × (3 ≤ measured (five 0)) × (3 ≤ measured (five 4)))
confidence-passes_example =
    confidence-passes (five 0) (five 4) (five-IsCounted 0 (omega arith))
      (five-IsCounted 4 (omega arith)) five_differ

abbrev attempts : List (Attempt plain)
attempts = attempt "ok" (some flow) ∷ attempt "payload_timeout" none ∷ []

group_from-IsTallied_example :
    IsTallied plain "udp.echo|udp|n|" attempts
      (find "udp.echo|udp|n|" (group_from plain [] attempts))
group_from-IsTallied_example = group_from-IsTallied plain attempts "udp.echo|udp|n|"

-- Three echoes that pass on port 53, and three that fail on port 443.
abbrev echo : ℕ → String → Attempt plain
echo port outcome = record (attempt outcome none) {
  dst_port = port;
  merged = if str_eq outcome "ok" then "ok" else "uplink_drop_or_route_failure";
}

abbrev echoes : List (Attempt plain)
echoes =
    echo 53 "ok"
    ∷ echo 53 "ok"
    ∷ echo 53 "ok"
    ∷ echo 443 "payload_timeout"
    ∷ echo 443 "payload_timeout"
    ∷ echo 443 "payload_timeout"
    ∷ []

abbrev echo_result : Result plain
echo_result = classify plain echoes true false

classify-IsJustified_example :
    All IsCounted echo_result.cells × All (IsJustified plain echo_result.cells) echo_result.verdicts
classify-IsJustified_example = classify-IsJustified plain echoes true false refl

flag_outages_of-IsSpared_example :
    Pairwise (IsSpared plain) attempts (flag_outages_of plain attempts).1
flag_outages_of-IsSpared_example = flag_outages_of-IsSpared plain attempts

-- Three cells in which three attempts pass and two fail, the latter within one burst.
abbrev probe_of : String → ℕ → String → Marked plain
probe_of transport port result = (
  record (attempt (if str_eq result "ok" then "ok" else "payload_timeout") none) {
    transport = transport;
    dst_port = port;
    merged = result;
    detail = [];
  },
  false,
)

abbrev probes_of : String → ℕ → List (Marked plain)
probes_of transport port =
    probe_of transport port "ok"
    ∷ probe_of transport port "downlink_drop"
    ∷ probe_of transport port "ok"
    ∷ probe_of transport port "downlink_drop"
    ∷ probe_of transport port "ok"
    ∷ []

abbrev marked : List (Marked plain)
marked = probes_of "udp" 443 ++ (probes_of "udp" 53 ++ probes_of "tcp" 443)

flag_transient-Flags_example :
    Flags plain
      (cells_before plain marked)
      (bursts_of plain marked)
      0
      marked
      (flag_transient plain marked).1
flag_transient-Flags_example = flag_transient-Flags plain marked

-- The six failures are one burst.
one_burst : map length (bursts_of plain marked) ≡ 6 ∷ []
unfolding bursts_of bursts within is_burst candidates_from is_candidate is_in_passing aggregate
    distinct port_key cell_key family_key key passes measured sort_by insert_by insert_cell
    sort_cells group_from add_attempt count_attempt count_result new_cell group_key is_left_out
    is_unmeasured find detail_at put unmeasured_merged local_failure
one_burst = refl
