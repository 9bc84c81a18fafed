-- ===== src/Classify/Cells.antt =====
-- internal/classify/classify.go, helpers.go and rules.go: cells of attempts, the confidence of a
-- comparison, and the search for the control of a cell. A port is a number and a count a natural
-- number; a histogram is an association list.
pub mod Keys
pub mod Confidence
use Prim.Native.String.{◌++◌ as text_append}
use censor_pulse_cli.Client.Observe.{count_of, first}
use censor_pulse_cli.Common.{
  string_key, Bool, List, Option, String, [], find, if◌then◌else◌, leb, ltb, none, some, str_eq, ℕ,
  ◌&&◌, ◌*◌, ◌-◌, ◌==◌, ◌||◌, ◌∷◌,
}

-- `Cell`
pub record Cell : Type 0 where
  pub test_id : String
  pub transport : String
  pub port : ℕ
  pub variant : String
  pub role : String
  pub total : ℕ
  pub ok_count : ℕ
  pub server_saw : ℕ
  pub unmeasured : ℕ
  pub outcomes : List (String × ℕ)
  pub merged : List (String × ℕ)
  pub measured_merged : Option (List (String × ℕ))

-- h[key], 0 where it is not there.
unfoldable pub count_at : List (String × ℕ) → String → ℕ
count_at h key = count_of (find key h)

-- `Cell.Measured`, of a cell with no more unmeasured attempts than attempts.
unfoldable pub measured : Cell → ℕ
measured c = c.total - c.unmeasured

-- `Cell.pass`
unfoldable pub passes : Cell → Bool
passes c = ltb 0 (measured c) && ltb (measured c) (c.ok_count * 2)

-- `Cell.fail`
unfoldable pub fails : Cell → Bool
fails c = ltb 0 (measured c) && c.ok_count == 0

pub data Level : Type 0 where
  high : Level
  medium : Level
  low : Level

abbrev pub high_min_attempts : ℕ
high_min_attempts = 3

abbrev pub medium_min_attempts : ℕ
medium_min_attempts = 2

abbrev pub medium_max_ok_share : ℕ
medium_max_ok_share = 3

-- `confidence`
unfoldable pub confidence : Cell → Cell → Level
confidence failed passed =
    let f = measured failed in
    let p = measured passed in
    if leb high_min_attempts f
      && failed.ok_count == 0
      && leb high_min_attempts p
      && passed.ok_count == p
    then high
    else if leb medium_min_attempts f
        && leb (failed.ok_count * medium_max_ok_share) f
        && passes passed
    then medium
    else low

-- `handshakeTestOf`
unfoldable pub handshake_test_of : String → String
handshake_test_of test =
    if str_eq test "wireguard.session"
    then "wireguard.init"
    else if str_eq test "openvpn.session"
    then "openvpn.reset"
    else if str_eq test "ikev2.session"
    then "ikev2.init"
    else if str_eq test "l2tp.session"
    then "l2tp.init"
    else if str_eq test "socks5.session"
    then "socks5.connect"
    else if str_eq test "vless.session"
    then "vless.reality"
    else if str_eq test "tor.link"
    then "tor.handshake"
    else if str_eq test "obfs4.session"
    then "obfs4.handshake"
    else ""

-- `handshakeVariantOf`; the parameter is strings.TrimSuffix.
unfoldable pub handshake_variant_of : (String → String → String) → String → String
handshake_variant_of trim_suffix variant = trim_suffix (trim_suffix variant "+data") "+control"

-- The test of `find`.
unfoldable pub is_cell : String → String → ℕ → String → Cell → Bool
is_cell test transport port variant c =
    str_eq c.test_id test
    && str_eq c.transport transport
    && c.port == port
    && (str_eq variant "" || str_eq c.variant variant)

-- `ruleCtx.find`
unfoldable pub find_cell : List Cell → String → String → ℕ → String → Option Cell
find_cell [] test transport port variant = none
find_cell (c ∷ cells) test transport port variant =
    if is_cell test transport port variant c
    then some c
    else find_cell cells test transport port variant

abbrev pub or_next : Option Cell → Option Cell → Option Cell
or_next none next = next
or_next (some c) next = some c

-- `ruleCtx.handshakeCell`
unfoldable pub handshake_cell : (String → String → String) → List Cell → Cell → Option Cell
handshake_cell trim_suffix cells c =
    let hs = handshake_test_of c.test_id in
    if str_eq hs ""
    then none
    else or_next
        (find_cell cells hs c.transport c.port (handshake_variant_of trim_suffix c.variant))
        (or_next (find_cell cells hs c.transport c.port c.variant)
          (find_cell cells hs c.transport c.port ""))

-- `plainTestFor`
unfoldable pub plain_test_for : String → String → String
plain_test_for transport name =
    if str_eq transport "udp" then text_append "udp." name else text_append "tcp." name

-- `echoTestFor`
unfoldable pub echo_test_for : String → String
echo_test_for transport = plain_test_for transport "echo"

-- `isAppProtocol`; the parameter is strings.HasPrefix.
unfoldable pub is_app_protocol : (String → String → Bool) → String → Bool
is_app_protocol has_prefix test =
    has_prefix test "http."
    || has_prefix test "tls."
    || has_prefix test "dns."
    || str_eq test "tor.dir"

-- `directionFrom`
unfoldable pub direction_from : String → String
direction_from merged =
    if str_eq merged "uplink_drop_after_handshake" || str_eq merged "uplink_drop_or_route_failure"
    then "data stopped on the way to the server"
    else if str_eq merged "downlink_drop_after_handshake" || str_eq merged "downlink_drop"
    then "the server answered every packet it saw; the answers were dropped on the way back"
    else if str_eq merged "uplink_delayed_past_deadline"
    then "the server saw the data only after the client had given up: lost first, retransmitted later"
    else if str_eq merged "stalled_after_server_saw_it"
    then "the server saw the first packet; which direction lost the rest is unknown"
    else if str_eq merged "connect_diverged_middlebox_or_misattributed"
    then "the client never completed the TCP handshake, yet an empty connection from its address was accepted"
    else merged
