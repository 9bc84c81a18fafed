-- ===== src/Examples/Merge.antt =====
-- internal/client/merge.go at concrete inputs.
use censor_pulse_cli.Common.{
  string_key, List, Memᴰ, Option, String, [], detail_at, false, filter, find, if◌then◌else◌, length,
  ltb, none, put, refl, some, str_eq, true, ℕ, ◌*◌, ◌+◌, ◌-◌, ◌/◌, ◌==◌, ◌↔◌, ◌∷◌, ◌≡◌,
}
use censor_pulse_cli.Client.Integers.{pos}
use censor_pulse_cli.Model.{Observation}
use censor_pulse_cli.Client.Attach.{merge_attempt}
use censor_pulse_cli.Client.Attach.Chosen.{merge_attempt-chosen, forget_detail, with_server}
use censor_pulse_cli.Client.Plan.{Plan}
use censor_pulse_cli.Client.Plan.Quick.{quick_filter, QuickRule, is_of}
use censor_pulse_cli.Client.Plan.Quick.Covers.{quick_filter-covers, IsAmong}
use censor_pulse_cli.Client.Merge.{server_error, Runtime, Attempt, merged_ok}
use censor_pulse_cli.Client.Merge.Table.{merge_verdict, is_dest_test, outcome_verdict}
use censor_pulse_cli.Client.Merge.Evidence.{merge_verdict-unseen, needs_server, IsBackedOtherwise}
use censor_pulse_cli.Client.Merge.Success.{merge_verdict-ok_iff, is_intact}
use censor_pulse_cli.Client.Merge.Blame.{Blame}
use censor_pulse_cli.Client.Observe.{
  find_server, index_from, nonce_key, by_own_nonce, count_of, empty_index, index_attempt, index_dns,
  index_nonce, is_accepted, is_follow_up,
}
use censor_pulse_cli.Client.Observe.Matching.{find_server-IsOwn, IsOwn}
use censor_pulse_cli.Client.Observe.Complete.{find_server-nonce_key}
use censor_pulse_cli.Client.Observe.Counts.{count_of-index_from, counts_of, is_counted}

-- Texts are found only as a whole, and no text is a number.
abbrev pub plain : Runtime
plain = record {
  contains = str_eq;
  has_prefix = str_eq;
  has_suffix = str_eq;
  atoi = λ s. (pos 0, false);
  Float = ℕ;
  parse_float = λ s. none;
  float_ltb = ltb;
  float_add = ◌+◌;
  float_of_nat = λ n. n;
  trim_suffix = λ s t. s;
  before = λ s t. s;
  itoa = λ n. if n == 443 then "443" else "n";
  float_sub = ◌-◌;
  float_mul = ◌*◌;
  float_div = ◌/◌;
  nanoseconds = λ n. n * 1000000;
  seconds = λ n. n / 1000000000;
  truncate = pos;
  trim_prefix = λ s t. s;
  split_host = λ s. some s;
  fields = λ s. s ∷ [];
  split = λ s t. s ∷ [];
  cut = λ s t. (s, "");
  float_of_int = λ n. 0;
  format_float = λ x. "x";
  format_int = λ n. "n";
}

abbrev pub flow : Observation
flow = record {
  id = "o";
  session_id = "s";
  attempt_id = "";
  test_id = "udp.echo";
  nonce = "n";
  seq = 0;
  transport = "udp";
  dst_port = 53;
  src_port = 4000;
  first_seen_at = 7;
  replied_at = none;
  closed_at = none;
  bytes_in = 10;
  bytes_out = 0;
  payload_sha = "";
  parse = "cp1_envelope";
  detail = [];
  response = "silence";
  close = "n/a";
  server_error = "";
  unmatched = false;
}

abbrev pub attempt : String → Option Observation → Attempt plain
attempt outcome server = record {
  test_id = "udp.echo";
  role = "baseline";
  variant = "";
  transport = "udp";
  dst_port = 53;
  src_port = 4000;
  round = 0;
  started_at = 5;
  stages = [];
  outcome = outcome;
  error_text = "";
  nonce = "n";
  nonces = [];
  attempt_id = "";
  detail = [];
  server = server;
  merged = "";
}

unseen : needs_server (merge_verdict plain (attempt "server_error" none)) ≡ true
unfolding merge_verdict outcome_verdict is_dest_test
unseen = refl

merge_verdict-unseen_example :
    IsBackedOtherwise plain
      (attempt "server_error" none)
      (merge_verdict plain (attempt "server_error" none))
merge_verdict-unseen_example = merge_verdict-unseen plain (attempt "server_error" none) refl unseen

merge_verdict-ok_iff_example :
    (merge_verdict plain (attempt "ok" (some flow)) ≡ merged_ok)
    ↔ ((◌≡◌ {A = String} "ok" "ok") × (is_intact (some flow) ≡ true))
unfolding is_dest_test
merge_verdict-ok_iff_example = merge_verdict-ok_iff plain (attempt "ok" (some flow)) refl

abbrev probe : Attempt plain
probe = attempt "payload_timeout" none

abbrev reported : List Observation
reported = record flow { nonce = "m" } ∷ flow ∷ []

probe_found : find_server plain probe reported ≡ some flow
unfolding find_server by_own_nonce index_from index_nonce index_attempt index_dns nonce_key
    is_follow_up is_accepted detail_at find put
probe_found = refl

find_server-IsOwn_example : (flow.transport ≡ "udp") × IsOwn plain probe flow
find_server-IsOwn_example =
    find_server-IsOwn plain probe (λ o. o.transport ≡ "udp") reported (refl, (refl, tt)) flow
      probe_found

find_server-nonce_key_example :
    (r : Observation) × (find_server plain probe reported ≡ some r)
    × (nonce_key "udp.echo" "n" ≡ nonce_key r.test_id r.nonce)
find_server-nonce_key_example =
    find_server-nonce_key plain probe (record flow { nonce = "m" } ∷ []) [] flow refl refl refl

abbrev data_packet : Observation
data_packet = record flow { attempt_id = "r1"; detail = ("stage", "transport") ∷ [] }

count_of-index_from_example :
    count_of (find "r1" (counts_of false (index_from empty_index (data_packet ∷ flow ∷ []))))
    ≡ length (filter (is_counted false "r1") (data_packet ∷ flow ∷ []))
count_of-index_from_example = count_of-index_from false "r1" (data_packet ∷ flow ∷ [])

merge_attempt-chosen_example :
    forget_detail plain
      (merge_attempt plain (index_from empty_index (flow ∷ [])) (flow ∷ []) (pos 7) probe)
    ≡ forget_detail plain (with_server plain (find_server plain probe (flow ∷ [])) probe)
merge_attempt-chosen_example = merge_attempt-chosen plain (flow ∷ []) (pos 7) probe

-- A catalogue of one plan, on a port that no rule of the profile names.
abbrev odd_echo : Plan
odd_echo = record {
  test_id = "tcp.echo";
  group = "tcp/9999";
  role = "baseline";
  variant = "cp1-64";
  transport = "tcp";
  port = 9999;
  last = false;
  serial = "";
}

abbrev echo_rule : QuickRule
echo_rule = record {
  test = "tcp.echo";
  transport = "tcp";
  ports = 80 ∷ 8080 ∷ 443 ∷ 4433 ∷ [];
  variant = "cp1-64";
}

quick_filter-covers_example : IsAmong (is_of echo_rule) (quick_filter plain (odd_echo ∷ []))
quick_filter-covers_example =
    quick_filter-covers plain (odd_echo ∷ []) echo_rule (Memᴰ.head refl)
      (odd_echo, Memᴰ.head refl, refl)

-- A disagreement of the resolvers in a stored report: both addresses present a certificate.
abbrev disagreement : Attempt plain
disagreement = record (attempt "dns_answer_mismatch" none) {
  test_id = "dest.dns";
  detail =
      ("tamper", "system_address_fails")
      ∷ ("verify_system", "cert")
      ∷ ("verify_trusted", "cert")
      ∷ [];
}
