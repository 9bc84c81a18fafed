-- ===== src/Examples/Store.antt =====
-- internal/server/store.go at concrete inputs.
use censor_pulse_cli.Model.{Observation}
use censor_pulse_cli.Server.Store.Sessions.{
  add_observation, get_session, named_session, observations_for, parse_session_id, put_session,
  record_row, rows_of,
}
use censor_pulse_cli.Server.Store.Sessions.Rows.{IsConsistent, put_session-IsConsistent, total_rows}
use censor_pulse_cli.Server.Store.Sessions.Isolation.{add_observation-counts, add_observation-rows}
use censor_pulse_cli.Server.Store.Sessions.Reading.{IsOrdered, observations_for-own}
use censor_pulse_cli.Server.Store.Reservations.{
  best_from, find_reservation, is_match, match_reservation, take_best, use_at,
}
use censor_pulse_cli.Server.Store.Reservations.Matching.{
  Flow, answered_with, after_flows, unused_of, Answer, find_reservation-Answer,
  match_reservation-once,
}
use censor_pulse_cli.Server.Store.Rates.{admit, allow_attempt, prune}
use censor_pulse_cli.Server.Store.Rates.Calls.{admitted, allow_attempt-Spread}
use censor_pulse_cli.Server.Store.Bulk.Quota.{consume_bulk-quota, granted}
use censor_pulse_cli.Server.Store.Gc.{fresh_rows, gc}
use censor_pulse_cli.Server.Store.Gc.Keeps.{gc-IsConsistent, get_session-gc, is_match-gc}
use mathlib.Core.List.{Perm}
use censor_pulse_cli.Server.Store.History.{session_put, row_offered, collected, run, run-new_store}
use censor_pulse_cli.Server.Store.Rates.Window.{Spread}
use Prim.Native.Char.{code}
use censor_pulse_cli.Common.{
  bytes_key, nat_eq, All, Bytes, List, Option, String, [], ap, arith, false, filter, find, none,
  put, refl, replicate, some, suc, true, zero, ℕ, ◌*◌, ◌+◌, ◌==◌, ◌∙◌, ◌∷◌, ◌≡◌, ◌≤◌,
}
use censor_pulse_cli.Server.Store.{
  NetIp, Hex, Reservation, Session, Store, minute, new_store, no_drops, rate_key, total_drops,
}

-- Addresses that are all plain IPv4.
abbrev ipv4 : NetIp
ipv4 = record { unmap = λ a. a; is_6 = λ a. false; prefix_64 = λ a. none }

-- A number as so many letters a and one letter b.
abbrev unary : ℕ → String → String
unary zero s = String.◌∷◌ "b" s
unary (suc n) s = String.◌∷◌ "a" (unary n s)

abbrev spell : Bytes → String
spell [] = String.[]
spell (b ∷ bs) = unary b (spell bs)

abbrev with_byte : ℕ → Option Bytes → Option Bytes
with_byte n none = none
with_byte n (some bs) = some (n ∷ bs)

abbrev read_from : ℕ → String → Option Bytes
read_from n String.[] = some []
read_from n (String.◌∷◌ c s) = elim (code c == 97) [
  | true ↦ read_from (suc n) s
  | false ↦ with_byte n (read_from 0 s)
]

read_from-unary :
    (n k : ℕ) (s : String) → read_from k (unary n s) ≡ with_byte (k + n) (read_from 0 s)
read_from-unary zero k s = ap (λ (m : ℕ). with_byte m (read_from 0 s)) (omega arith)
read_from-unary (suc n) k s =
    read_from-unary n (suc k) s ∙ ap (λ (m : ℕ). with_byte m (read_from 0 s)) (omega arith)

read_from-spell : (bs : Bytes) → read_from 0 (spell bs) ≡ some bs
read_from-spell [] = refl
read_from-spell (b ∷ bs) =
    read_from-unary b 0 (spell bs)
    ∙ ap (with_byte (0 + b)) (read_from-spell bs)
    ∙ ap (λ (m : ℕ). some (m ∷ bs)) (omega arith)

abbrev letters : Hex
letters = record { encode = spell; decode = read_from 0; decode-encode = read_from-spell }

abbrev alice : Bytes
alice = replicate 16 1

abbrev scan : Session
scan = record {
  id = alice;
  key = 42 ∷ [];
  expires = 600;
  created = 0;
  client_ip = 9;
  tests = ("udp.echo", true) ∷ [];
  obs = [];
}

abbrev row : ℕ → Observation
row at = record {
  id = "r";
  session_id = spell alice;
  attempt_id = "";
  test_id = "udp.echo";
  nonce = "";
  seq = 0;
  transport = "udp";
  dst_port = 53;
  src_port = 4000;
  first_seen_at = at;
  replied_at = none;
  closed_at = none;
  bytes_in = 10;
  bytes_out = 0;
  payload_sha = "";
  parse = "unknown";
  detail = [];
  response = "silence";
  close = "n/a";
  server_error = "";
  unmatched = false;
}

abbrev window : Reservation
window = record {
  id = "";
  session_id = alice;
  expires = 100;
  client_ip = 9;
  dst_port = 443;
  transport = "tcp";
  kind = "tls_client_hello";
  test_id = "tls.sni";
  variant = "benign";
  used = false;
}

abbrev empty_store : Store
empty_store = record {
  sessions = [];
  reservations = [];
  obs_count = 0;
  obs_max = 100;
  retention = 1000;
  drops = no_drops;
  sess_rate = [];
  attempt_rate = [];
  sess_per_min = 2;
  att_per_10_min = 2;
  bulk_used = [];
  bulk_per_day = 100;
}

abbrev one_session : Store
one_session = record empty_store { sessions = (alice, scan) ∷ [] }

one_session-IsConsistent : IsConsistent letters one_session
unfolding total_rows
one_session-IsConsistent = record {
  counted = refl;
  bounded = omega arith;
  held = (record { own_id = refl; capped = omega arith; own_rows = tt }, tt);
}

put_session-IsConsistent_example : IsConsistent letters (put_session one_session scan)
put_session-IsConsistent_example =
    put_session-IsConsistent letters one_session scan refl one_session-IsConsistent

add_observation-counts_example :
    (add_observation letters "f" one_session (row 5) 10).0.obs_count
      + total_drops (add_observation letters "f" one_session (row 5) 10).0.drops
    ≡ one_session.obs_count + total_drops one_session.drops + 1
add_observation-counts_example = add_observation-counts letters "f" one_session (row 5) 10

add_observation-rows_example :
    rows_of (find alice (add_observation letters "f" one_session (row 5) 10).0.sessions)
    ≡ row 5 ∷ []
unfolding add_observation record_row named_session parse_session_id find put
add_observation-rows_example = add_observation-rows letters "f" one_session (row 5) 10 alice

run-new_store_example : IsConsistent letters (
    run ipv4 letters
      (new_store 100 1000 2 2)
      (session_put scan refl ∷ row_offered "f" (row 5) 10 ∷ collected 2000 1 ∷ []))
run-new_store_example =
    run-new_store ipv4 letters 100 1000 2 2
      (session_put scan refl ∷ row_offered "f" (row 5) 10 ∷ collected 2000 1 ∷ [])

observations_for-own_example :
    Perm
      (observations_for letters one_session (spell alice))
      (rows_of (find alice one_session.sessions))
    × All (λ r. r.session_id ≡ spell alice) (observations_for letters one_session (spell alice))
    × IsOrdered (observations_for letters one_session (spell alice))
unfolding parse_session_id
observations_for-own_example =
    observations_for-own letters one_session (spell alice) alice one_session-IsConsistent refl

abbrev reserved : Store
reserved = record empty_store { reservations = window ∷ record window { expires = 200 } ∷ [] }

find_reservation-Answer_example :
    Answer ipv4 reserved 9 "tcp" 443 "" 50 true
      (find_reservation ipv4 reserved 9 "tcp" 443 "" 50 true)
find_reservation-Answer_example = find_reservation-Answer ipv4 reserved 9 "tcp" 443 "" 50 true

-- The newer of the two answers.
match_newest :
    (match_reservation ipv4 reserved 9 "tcp" 443 "" 50).1
    ≡ some (record window { expires = 200; used = true })
unfolding match_reservation find_reservation take_best best_from is_match
match_newest = refl

-- Two reservations, and three flows that match both.
abbrev two_windows : Store
two_windows = record reserved {
  reservations = record window { id = "a" } ∷ record window { id = "b"; expires = 200 } ∷ [];
}

abbrev three_flows : List Flow
three_flows = f ∷ f ∷ f ∷ []
  where
    f : Flow
    f = record { ip = 9; transport = "tcp"; dst_port = 443; kind = ""; now = 50 }

match_reservation-once_example :
    answered_with ipv4 "b" two_windows three_flows
      + unused_of "b" (after_flows ipv4 two_windows three_flows).reservations
    ≡ unused_of "b" two_windows.reservations
match_reservation-once_example = match_reservation-once ipv4 "b" two_windows three_flows

two_windows-b : answered_with ipv4 "b" two_windows three_flows ≡ 1
unfolding answered_with match_reservation find_reservation take_best best_from is_match use_at
two_windows-b = refl

abbrev calls : List (ℕ × ℕ)
calls = (9, 1) ∷ (9, 2) ∷ (9, 3) ∷ (8, 3) ∷ (9, 700000000000) ∷ []

allow_attempt-Spread_example :
    Spread (10 * minute) 2 (admitted ipv4 9 (new_store 100 1000 2 2) calls)
allow_attempt-Spread_example = allow_attempt-Spread ipv4 9 100 1000 2 2 calls (omega arith)

-- The third call is refused, and the last one comes when the window has passed.
calls-admitted : admitted ipv4 9 (new_store 100 1000 2 2) calls ≡ 1 ∷ 2 ∷ 700000000000 ∷ []
unfolding admitted allow_attempt admit prune new_store rate_key find put
calls-admitted = refl

consume_bulk-quota_example :
    (granted ipv4 1 (λ j. true) (new_store 100 1000 2 2) ((9, 60000000) ∷ (9, 60000000) ∷ [])
      ≤ 4294967296)
    × (granted ipv4 1 (λ j. j == 9) (new_store 100 1000 2 2) ((9, 60000000) ∷ (9, 60000000) ∷ [])
        ≤ 67108864)
consume_bulk-quota_example =
    consume_bulk-quota ipv4 1 9 100 1000 2 2 ((9, 60000000) ∷ (9, 60000000) ∷ []) (omega arith)
      (omega arith)

gc-IsConsistent_example : IsConsistent letters (gc one_session 2000 1)
gc-IsConsistent_example = gc-IsConsistent letters one_session 2000 1 one_session-IsConsistent

get_session-gc_example :
    get_session (gc one_session 500 1) alice 500
    ≡ some (record scan { obs = fresh_rows 500 1000 [] })
unfolding get_session find
get_session-gc_example = get_session-gc one_session 500 1 alice scan refl

is_match-gc_example :
    filter (is_match 9 "tcp" 443 "" 150) (gc reserved 50 1).reservations
    ≡ filter (is_match 9 "tcp" 443 "" 150) reserved.reservations
is_match-gc_example = is_match-gc reserved 50 1 150 9 "tcp" 443 "" (omega arith)
