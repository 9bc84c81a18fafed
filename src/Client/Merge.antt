-- ===== src/Client/Merge.antt =====
-- internal/client/merge.go, internal/client/attempt.go: an attempt, the server's observation of it,
-- and the table that merges the two into one verdict. The texts that `mergeVerdict` returns are the
-- constructors of `Merged`; an outcome is the text that it is in the source.
pub mod Verdict
pub mod Table
pub mod Evidence
pub mod Success
pub mod Blame
use censor_pulse_cli.Common.{
  string_key, Bool, Details, List, Option, String, [], detail_at, false, find, none, some, str_eq,
  ℕ, ◌||◌, ◌∷◌,
}
use censor_pulse_cli.Model.{Observation}
use censor_pulse_cli.Client.Integers.{ℤ}

-- What the code calls of the packages strings and strconv, and Go's float64. `atoi` is the value
-- that strconv.Atoi returns and whether the error is nil. `before s sep` is
-- strings.SplitN(s, sep, 2)[0], `nanoseconds` the time.Duration of a number of milliseconds and
-- `seconds` its method Seconds. `truncate` is the conversion to int, and `split_host` the host of
-- net.SplitHostPort where the error is nil. `format_float` is strconv.FormatFloat(x, 'f', 0, 64) and
-- `format_int` strconv.Itoa; `cut` is strings.Cut without its last result.
pub record Runtime : Type 1 where
  pub contains : String → String → Bool
  pub has_prefix : String → String → Bool
  pub has_suffix : String → String → Bool
  pub atoi : String → ℤ × Bool
  pub Float : Type 0
  pub parse_float : String → Option Float
  pub float_ltb : Float → Float → Bool
  pub float_add : Float → Float → Float
  pub float_of_nat : ℕ → Float
  pub trim_suffix : String → String → String
  pub before : String → String → String
  pub itoa : ℕ → String
  pub float_sub : Float → Float → Float
  pub float_mul : Float → Float → Float
  pub float_div : Float → Float → Float
  pub nanoseconds : Float → ℕ
  pub seconds : ℕ → Float
  pub truncate : Float → ℤ
  pub trim_prefix : String → String → String
  pub split_host : String → Option String
  pub fields : String → List String
  pub split : String → String → List String
  pub cut : String → String → String × String
  pub float_of_int : ℤ → Float
  pub format_float : Float → String
  pub format_int : ℤ → String

-- The values that `mergeVerdict` returns.
pub data Merged : Type 0 where
  client_outcome : String → Merged
  merged_ok : Merged
  uplink_modified : Merged
  uplink_drop : Merged
  connect_diverged : Merged
  cookie_mismatch : Merged
  uplink_delayed : Merged
  downlink_drop : Merged
  server_error : Merged
  server_silent : Merged
  rst_bidirectional : Merged
  rst_or_path_reset : Merged
  path_closed : Merged
  server_closed : Merged
  refused_after_seen : Merged
  refused_or_closed : Merged
  injected : Merged
  server_rejected : Merged
  downlink_modified : Merged
  uplink_drop_after_handshake : Merged
  downlink_drop_after_handshake : Merged
  stalled_after_seen : Merged
  tls_mitm : Merged
  inconclusive : Merged

-- The texts of the verdicts.
unfoldable pub merged_text : Merged → String
merged_text (client_outcome s) = s
merged_text merged_ok = "ok"
merged_text uplink_modified = "uplink_modified"
merged_text uplink_drop = "uplink_drop_or_route_failure"
merged_text connect_diverged = "connect_diverged_middlebox_or_misattributed"
merged_text cookie_mismatch = "cookie_mismatch_nat_or_multipath"
merged_text uplink_delayed = "uplink_delayed_past_deadline"
merged_text downlink_drop = "downlink_drop"
merged_text server_error = "server_error"
merged_text server_silent = "server_silent"
merged_text rst_bidirectional = "rst_injected_bidirectional"
merged_text rst_or_path_reset = "rst_injected_or_path_reset"
merged_text path_closed = "path_closed_before_server"
merged_text server_closed = "server_closed"
merged_text refused_after_seen = "refused_after_server_saw_it"
merged_text refused_or_closed = "refused_by_path_or_port_closed"
merged_text injected = "injected"
merged_text server_rejected = "server_rejected_handshake"
merged_text downlink_modified = "downlink_modified"
merged_text uplink_drop_after_handshake = "uplink_drop_after_handshake"
merged_text downlink_drop_after_handshake = "downlink_drop_after_handshake"
merged_text stalled_after_seen = "stalled_after_server_saw_it"
merged_text tls_mitm = "tls_mitm_or_wrong_server"
merged_text inconclusive = "inconclusive"

-- A case of a switch on a text.
abbrev pub one_of : String → List String → Bool
one_of s [] = false
one_of s (x ∷ xs) = str_eq s x || one_of s xs

module _ (g : Runtime) where
  -- `Attempt`, with the fields that the merge and the classifier read. A time is a number of
  -- nanoseconds; 0 is the zero time.
  pub record Attempt : Type 0 where
    pub test_id : String
    pub role : String
    pub variant : String
    pub transport : String
    pub dst_port : ℕ
    pub src_port : ℕ
    pub round : ℕ
    pub started_at : ℕ
    pub stages : List (String × g.Float)
    pub outcome : String
    pub error_text : String
    pub nonce : String
    pub nonces : List String
    pub attempt_id : String
    pub detail : Details
    pub server : Option Observation
    pub merged : String

  -- strconv.Atoi, its error ignored.
  abbrev pub number : String → ℤ
  number s = (g.atoi s).0

  abbrev pub float_after : Option g.Float → Option g.Float → Bool
  float_after (some delay) (some done) = g.float_ltb (g.float_add done (g.float_of_nat 1000)) delay
  float_after (some delay) none = false
  float_after none d = false

  -- `serverDelayPastDeadline`
  unfoldable pub past_deadline : Attempt → Bool
  past_deadline a =
      float_after (g.parse_float (detail_at a.detail "server_delay_ms")) (find "done" a.stages)

  -- `serverWaitedForClient`, of an observation.
  unfoldable pub waited_for_client : Observation → Bool
  waited_for_client o =
      g.contains o.server_error "i/o timeout"
      || g.has_suffix o.server_error "EOF"
      || g.contains o.server_error "connection reset"
      || one_of o.close ("timeout" ∷ "client_eof" ∷ "client_reset" ∷ [])

  -- `isTimeoutErr`
  unfoldable pub is_timeout_err : String → Bool
  is_timeout_err e =
      g.contains e "deadline exceeded"
      || g.contains e "i/o timeout"
      || g.contains e "timeout: no recent network activity"
      || g.contains e "Handshake did not complete in time"
