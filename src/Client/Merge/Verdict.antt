-- ===== src/Client/Merge/Verdict.antt =====
-- internal/client/merge.go: `mergeVerdict`, one function per case of its switch on the outcome.
use censor_pulse_cli.Common.{
  Bool, Option, [], detail_at, false, if◌then◌else◌, ltb, none, not, some, str_eq, true, ℕ, ◌&&◌,
  ◌==◌, ◌||◌, ◌∷◌,
}
use censor_pulse_cli.Model.{Observation}
use censor_pulse_cli.Client.Integers.{ℤ, pos, int_ltb, int_leb, int_eq, int_max}
use censor_pulse_cli.Client.Merge.{
  Runtime, Merged, Attempt, connect_diverged, cookie_mismatch, downlink_drop,
  downlink_drop_after_handshake, downlink_modified, injected, is_timeout_err, merged_ok, number,
  one_of, past_deadline, path_closed, refused_after_seen, refused_or_closed, rst_bidirectional,
  rst_or_path_reset, server_closed, server_error, server_rejected, server_silent,
  stalled_after_seen, uplink_delayed, uplink_drop, uplink_drop_after_handshake, uplink_modified,
  waited_for_client,
}

-- `replied`, of an observation.
unfoldable pub has_replied : Observation → Bool
has_replied o = has_time o.replied_at || ltb 0 o.bytes_out
  where
    has_time : Option ℕ → Bool
    has_time none = false
    has_time (some t) = true

unfoldable pub mac_invalid : Observation → Bool
mac_invalid o = str_eq (detail_at o.detail "mac") "invalid"

module _ (g : Runtime) where
  -- The timeouts.
  unfoldable pub timeout_verdict : Attempt g → Option Observation → Merged
  timeout_verdict a none = uplink_drop
  timeout_verdict a (some o) =
      if str_eq a.outcome "connect_timeout" && str_eq a.transport "tcp"
      then connect_diverged
      else if str_eq (detail_at o.detail "cookie") "invalid"
      then cookie_mismatch
      else if mac_invalid o
      then uplink_modified
      else if past_deadline g a
      then uplink_delayed
      else if has_replied o
      then downlink_drop
      else if str_eq a.transport "tcp" && o.bytes_in == 0 && str_eq o.parse "empty"
      then uplink_drop
      else if not (str_eq o.server_error "") && waited_for_client g o
      then uplink_drop
      else if not (str_eq o.server_error "")
      then server_error
      else if one_of o.response ("silence" ∷ "refused" ∷ "" ∷ [])
      then server_silent
      else downlink_drop

  -- OutcomeConnectReset, OutcomeMidstreamReset
  unfoldable pub reset_verdict : Option Observation → Merged
  reset_verdict none = rst_or_path_reset
  reset_verdict (some o) =
      if str_eq o.close "client_reset" then rst_bidirectional else rst_or_path_reset

  -- OutcomeMidstreamEOF
  unfoldable pub eof_verdict : Option Observation → Merged
  eof_verdict none = path_closed
  eof_verdict (some o) = if str_eq o.close "client_reset" then rst_or_path_reset else server_closed

  -- OutcomeConnectRefused
  unfoldable pub refused_verdict : Option Observation → Merged
  refused_verdict none = refused_or_closed
  refused_verdict (some o) = refused_after_seen

  -- OutcomeTLSSpoof
  unfoldable pub spoof_verdict : Option Observation → Merged
  spoof_verdict none = injected
  spoof_verdict (some o) =
      if str_eq o.response "handshake_failed" then server_rejected else downlink_modified

  -- The counts that OutcomeSessionCut compares: sent, and seen by the server.
  unfoldable pub session_counts : Attempt g → ℤ × ℤ
  session_counts a =
      let sent = number g (detail_at a.detail "data_sent") in
      if int_eq sent (pos 0) && not (str_eq (detail_at a.detail "ctl_sent") "")
      then (
        number g (detail_at a.detail "ctl_sent"),
        number g (detail_at a.detail "server_ctl_seen"),
      )
      else (sent, number g (detail_at a.detail "server_data_seen"))

  -- OutcomeSessionCut
  unfoldable pub session_verdict : Attempt g → Option Observation → Merged
  session_verdict a none = uplink_drop_after_handshake
  session_verdict a (some o) =
      if int_ltb (session_counts a).1 (session_counts a).0
      then uplink_drop_after_handshake
      else downlink_drop_after_handshake

  -- OutcomePacketsCut
  unfoldable pub packets_verdict : Attempt g → Option Observation → Merged
  packets_verdict a none = uplink_drop
  packets_verdict a (some o) =
      if str_eq a.transport "udp"
      then if int_ltb (number g (detail_at a.detail "server_packets_seen"))
          (number g (detail_at a.detail "packets_sent"))
        then uplink_drop
        else downlink_drop
      else if str_eq (detail_at o.detail "partial") "true"
      then uplink_drop
      else if g.contains o.response "echo"
      then downlink_drop
      else uplink_drop

  -- The counts that OutcomeBurstFreeze compares, answered and partial, for a report that has both or
  -- not.
  unfoldable pub burst_counts : Attempt g → Option Observation → ℤ × ℤ
  burst_counts a o =
      let answered = g.atoi (detail_at a.detail "server_alpha_answered") in
      let partial = g.atoi (detail_at a.detail "server_alpha_partial") in
      let saw = number g (detail_at a.detail "server_alpha_seen") in
      let hello = number g (detail_at a.detail "server_alpha_hello") in
      if answered.1 && partial.1 then (answered.0, partial.0) else old_counts o hello partial.0 saw
    where
      old_counts : Option Observation → ℤ → ℤ → ℤ → ℤ × ℤ
      old_counts none hello partial saw = (hello, partial)
      old_counts (some s) hello partial saw = (
        if ltb 0 s.bytes_out then int_max hello (pos 1) else hello,
        if s.bytes_out == 0 && str_eq s.response "handshake_failed" && waited_for_client g s
            then saw
            else partial,
      )

  -- OutcomeBurstFreeze
  unfoldable pub burst_verdict : Attempt g → Option Observation → Merged
  burst_verdict a o =
      let saw = number g (detail_at a.detail "server_alpha_seen") in
      if int_ltb saw (number g (detail_at a.detail "burst_n"))
      then uplink_drop
      else if int_ltb (pos 0) (burst_counts a o).0
      then downlink_drop
      else if int_eq (burst_counts a o).1 saw
      then uplink_drop
      else server_rejected

  -- OutcomeBulkStall, OutcomeBulkReset
  unfoldable pub bulk_verdict : Attempt g → Option Observation → Merged
  bulk_verdict a none = uplink_drop
  bulk_verdict a (some o) =
      let sent = number g (detail_at a.detail "bulk_bytes") in
      if str_eq a.outcome "bulk_reset" && str_eq o.close "client_reset"
      then rst_bidirectional
      else if str_eq a.outcome "bulk_reset"
      then rst_or_path_reset
      else if str_eq (detail_at o.detail "bulk") "down"
      then downlink_drop
      else if int_ltb (pos 0) sent && int_leb sent (number g (detail_at o.detail "bulk_up_bytes"))
      then downlink_drop
      else uplink_drop

  -- OutcomeTLSAlert, OutcomeTLSParse, OutcomeQUICHandshake
  unfoldable pub handshake_verdict : Attempt g → Option Observation → Merged
  handshake_verdict a none =
      if str_eq a.outcome "quic_handshake_failure" && is_timeout_err g a.error_text
      then uplink_drop
      else injected
  handshake_verdict a (some o) =
      if str_eq a.outcome "quic_handshake_failure" && is_timeout_err g a.error_text
      then stalled_after_seen
      else if str_eq o.response "handshake_failed"
      then if str_eq (detail_at a.detail "sni") (detail_at o.detail "sni")
        then server_rejected
        else uplink_modified
      else downlink_modified

  -- The answers that are not the expected one.
  unfoldable pub answer_verdict : Option Observation → Merged
  answer_verdict none = injected
  answer_verdict (some o) =
      if mac_invalid o
      then uplink_modified
      else if has_replied o
      then downlink_modified
      else injected

  -- OutcomeOK
  unfoldable pub ok_verdict : Option Observation → Merged
  ok_verdict none = merged_ok
  ok_verdict (some o) = if mac_invalid o then uplink_modified else merged_ok
