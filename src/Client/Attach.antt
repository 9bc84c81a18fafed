-- ===== src/Client/Attach.antt =====
-- internal/client/merge.go: `mergeObservations`, what it writes into an attempt.
pub mod Chosen
use censor_pulse_cli.Common.{
  string_key, Bool, List, Option, String, [], detail_at, false, filter, find, if◌then◌else◌, length,
  ltb, map, none, not, put, some, str_eq, suc, true, zero, ℕ, ◌&&◌, ◌==◌, ◌||◌, ◌∷◌,
}
use censor_pulse_cli.Model.{Observation}
use censor_pulse_cli.Client.Integers.{ℤ, pos, int_sub, int_quot, int_add, negsuc}
use censor_pulse_cli.Client.Merge.{Runtime, Attempt, one_of, waited_for_client}
use censor_pulse_cli.Client.Observe.{
  Index, index_from, empty_index, nonce_key, by_last_resort, by_own_nonce, by_reservation, count_of,
}

-- `handshakeTestOf` of plan.go, as far as it tells a session test from others.
abbrev pub session_tests : List String
session_tests =
    "wireguard.session" ∷ "openvpn.session" ∷ "ikev2.session" ∷ "l2tp.session" ∷ "socks5.session"
    ∷ "vless.session" ∷ "tor.link" ∷ "obfs4.session" ∷ []

module _ (g : Runtime) where
  -- a.Detail[key] = value
  abbrev pub set_detail : String → String → Attempt g → Attempt g
  set_detail k v a = record a { detail = put k v a.detail }

  -- a.Server = o
  abbrev pub set_server : Observation → Attempt g → Attempt g
  set_server o a = record a { server = some o }

  abbrev pub ms_or : Option g.Float → g.Float → g.Float
  ms_or none ms = ms
  ms_or (some x) ms = x

  -- stages["first_write"], or stages["connect"], or 0.
  unfoldable pub sent_at : Attempt g → g.Float
  sent_at a =
      ms_or (find "first_write" a.stages) (ms_or (find "connect" a.stages) (g.float_of_nat 0))

  -- The delay in milliseconds, of which the code counts the whole microseconds.
  unfoldable pub delay_of : Attempt g → Observation → ℤ → g.Float
  delay_of a o skew =
      let since_start = int_sub (int_sub (pos o.first_seen_at) skew) (pos a.started_at) in
      g.float_sub (g.float_div (g.float_of_int (int_quot since_start 1000)) (g.float_of_nat 1000))
        (sent_at a)

  -- `markServerDelay`
  unfoldable pub mark_server_delay : Observation → ℤ → Attempt g → Attempt g
  mark_server_delay o skew a =
      if o.first_seen_at == 0 || a.started_at == 0
      then a
      else set_detail "server_delay_ms" (g.format_float (delay_of a o skew)) a

  -- The observation, with its delay.
  unfoldable pub attach_to : Observation → ℤ → Attempt g → Attempt g
  attach_to o skew a = mark_server_delay o skew (set_server o a)

  -- A count of packets: what the handshake of a TCP flow carries, else the observations.
  unfoldable pub packets_seen : Observation → String → Option ℕ → ℤ
  packets_seen o k n =
      let v = g.atoi (detail_at o.detail k) in
      if v.1 && str_eq o.transport "tcp" then v.0 else pos (count_of n)

  unfoldable pub note_data : Index → Observation → Attempt g → Attempt g
  note_data x o a =
      set_detail "server_data_seen"
        (g.format_int (packets_seen o "data_in" (find a.attempt_id x.data_seen))) a

  unfoldable pub note_control : Index → Observation → Attempt g → Attempt g
  note_control x o a =
      if str_eq (detail_at a.detail "ctl_sent") ""
      then a
      else set_detail "server_ctl_seen"
          (g.format_int (packets_seen o "ctl_in" (find a.attempt_id x.ctl_seen))) a

  unfoldable pub note_session : Index → Observation → Attempt g → Attempt g
  note_session x o a =
      if one_of a.test_id session_tests then note_control x o (note_data x o a) else a

  -- `attach`
  unfoldable pub attach : Index → List Observation → ℤ → Attempt g → Attempt g
  attach x obs skew a = elim (by_own_nonce g a x) [
    | some o ↦ attach_to o skew a
    | none ↦ elim (by_reservation g a x) [
      | some o ↦ note_session x o (attach_to o skew a)
      | none ↦ elim (by_last_resort g a x obs) [ some o ↦ attach_to o skew a | none ↦ a ]
    ]
  ]

  -- A flow of one of the parallel handshakes of a burst.
  unfoldable pub is_alpha : Attempt g → Observation → Bool
  is_alpha a o =
      (not (str_eq o.attempt_id "")
        && one_of o.attempt_id (g.split (detail_at a.detail "reservation_ids") ","))
      || (str_eq o.test_id a.test_id
          && not (str_eq o.nonce "")
          && one_of o.nonce (g.split (detail_at a.detail "alpha_nonces") ","))

  abbrev pub is_hello : Observation → Bool
  is_hello o = g.has_prefix o.response "server_hello"

  abbrev pub is_answered : Observation → Bool
  is_answered o = ltb 0 o.bytes_out || is_hello o

  abbrev pub is_partial : Observation → Bool
  is_partial o = o.bytes_out == 0 && str_eq o.response "handshake_failed" && waited_for_client g o

  unfoldable pub count_alpha : (Observation → Bool) → Attempt g → List Observation → ℕ
  count_alpha test a obs = length (filter (λ o. is_alpha a o && test o) obs)

  abbrev pub set_count : String → ℕ → Attempt g → Attempt g
  set_count k n = set_detail k (g.itoa n)

  -- The counts of a burst.
  unfoldable pub note_burst : List Observation → Attempt g → Attempt g
  note_burst obs a = set_count "server_alpha_partial" (count_alpha is_partial a obs) (
      set_count "server_alpha_hello" (count_alpha is_hello a obs) (
        set_count "server_alpha_answered" (count_alpha is_answered a obs)
          (set_count "server_alpha_seen" (count_alpha (λ o. true) a obs) a)))

  -- byNonce has an observation of a datagram.
  abbrev pub is_seen : Index → Attempt g → String → Bool
  is_seen x a n = elim (find (nonce_key a.test_id n) x.by_nonce) [ some o ↦ true | none ↦ false ]

  unfoldable pub note_counts : Index → List Observation → Attempt g → Attempt g
  note_counts x obs a =
      if str_eq a.test_id "tls.burst"
      then note_burst obs a
      else if str_eq a.test_id "udp.packets"
      then set_count "server_packets_seen" (length (filter (is_seen x a) a.nonces)) a
      else a

  -- (pb + cb - 1) / cb, where both parse and cb > 0.
  unfoldable pub note_chunks : ℤ × Bool → ℤ × Bool → Attempt g → Attempt g
  note_chunks (pb, true) (pos (suc n), true) a =
      set_detail "server_packets_seen" (g.format_int (int_quot (int_add pb (pos n)) (suc n))) a
  note_chunks (pb, true) (pos zero, true) a = a
  note_chunks (pb, true) (negsuc n, true) a = a
  note_chunks (pb, true) (cb, false) a = a
  note_chunks (pb, false) cb a = a

  unfoldable pub note_server_chunks : Option Observation → Attempt g → Attempt g
  note_server_chunks none a = a
  note_server_chunks (some o) a =
      note_chunks (g.atoi (detail_at o.detail "partial_bytes"))
        (g.atoi (detail_at a.detail "chunk_bytes")) a

  unfoldable pub note_packets : Attempt g → Attempt g
  note_packets a = if str_eq a.test_id "tcp.packets" then note_server_chunks a.server a else a

  -- What `mergeObservations` does with an attempt.
  unfoldable pub merge_attempt : Index → List Observation → ℤ → Attempt g → Attempt g
  merge_attempt x obs skew a = note_packets (attach x obs skew (note_counts x obs a))

  -- `mergeObservations`
  unfoldable pub merge_observations : List Observation → ℤ → List (Attempt g) → List (Attempt g)
  merge_observations obs skew = map (merge_attempt (index_from empty_index obs) obs skew)
