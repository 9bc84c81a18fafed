-- ===== src/Classify/Rules/Protocol.antt =====
-- internal/classify/rules_protocol.go and helpers.go: rule 4, protocol blocking.
use censor_pulse_cli.Common.{
  Bool, List, Option, String, [], concat_map, false, filter, if◌then◌else◌, length, ltb, none, not,
  some, str_eq, ℕ, ◌&&◌, ◌==◌, ◌||◌, ◌∷◌,
}
use censor_pulse_cli.Model.{Observation}
use censor_pulse_cli.Client.Merge.{Runtime, Attempt, one_of}
use censor_pulse_cli.Classify.Cells.{
  Cell, Level, high, medium, low, passes, fails, confidence, measured, handshake_cell,
  echo_test_for, plain_test_for,
}
use censor_pulse_cli.Classify.Cells.Keys.{key, family_key}
use censor_pulse_cli.Classify.Rules.{
  RuleCtx, line, formatted, count, Evidence, Verdict, add_all, by_test, find_in, first_or,
  option_or, said, verdict,
}

-- `nativeTests`
abbrev pub native_tests : List String
native_tests =
    "tcp.bulk" ∷ "openvpn.reset" ∷ "wireguard.init" ∷ "openvpn.session" ∷ "wireguard.session"
    ∷ "ikev2.init" ∷ "ikev2.session" ∷ "l2tp.init" ∷ "l2tp.session" ∷ "socks5.connect"
    ∷ "socks5.session" ∷ "vless.reality" ∷ "vless.session" ∷ "quic.v1" ∷ "tls.sni" ∷ "tls.version"
    ∷ "tls.alpn" ∷ "tls.fingerprint" ∷ "http.host" ∷ "dns.udp" ∷ "dns.tcp" ∷ "dns.dot"
    ∷ "tor.handshake" ∷ "tor.link" ∷ "tor.dir" ∷ "obfs4.handshake" ∷ "obfs4.session" ∷ "dtls.hello"
    ∷ "stun.binding" ∷ []

-- What rule 4 makes of a cell: nothing, a control that failed, or a family that is blocked.
pub data Finding (g : Runtime) : Type 0 where
  nothing : Finding g
  control_failed : Verdict g → Finding g
  blocked : Verdict g → Finding g

module _ (g : Runtime) where
  abbrev pub source_ports : Attempt g → Option Observation → List (ℕ × ℕ)
  source_ports a none = []
  source_ports a (some o) =
      if not (a.src_port == 0) && not (o.src_port == 0) && not (a.src_port == o.src_port)
      then (a.src_port, o.src_port) ∷ []
      else []

  -- `natDetected`: the first source port that the path rewrote, and what it became.
  unfoldable pub nat_detected : List (Attempt g) → List (ℕ × ℕ)
  nat_detected attempts = concat_map (λ a. source_ports a a.server) attempts

  -- `familyFails`
  unfoldable pub family_fails : RuleCtx g → Cell → Bool
  family_fails rc c =
      length (
        filter
          (λ o.
            o.port == c.port
            && str_eq o.transport c.transport
            && ltb 0 (measured o)
            && not (fails o))
          (by_test g rc c.test_id))
      == 0

  -- The families that routers with IPsec or L2TP passthrough are known to break.
  unfoldable pub is_alg_family : Cell → Bool
  is_alg_family c = g.has_prefix c.test_id "ikev2." || g.has_prefix c.test_id "l2tp."

  abbrev pub lower : Level → Level
  lower high = medium
  lower medium = medium
  lower low = low

  unfoldable pub alg_confidence : RuleCtx g → Cell → Level → Level
  alg_confidence rc c conf =
      if is_alg_family c then first_or (nat_detected rc.attempts) conf (λ n. lower conf) else conf

  unfoldable pub alg_lines : RuleCtx g → Cell → List (Evidence g)
  alg_lines rc c =
      if is_alg_family c
      then said g
          "consumer NAT routers with IPsec / L2TP passthrough ALGs drop or rewrite exactly these packets: a known confound on home networks, not necessarily the censor"
        ∷ first_or (nat_detected rc.attempts) [] (λ n.
          formatted
            "the client is behind NAT (source port %d left the client, the server saw %d); an ALG on it cannot be ruled out from this vantage point"
            (count n.0 ∷ count n.1 ∷ [])
          ∷ [])
      else []

  -- The verdict of rule 4 on a failing cell, next to the echo and the random payload of its port.
  unfoldable pub compare_plain : RuleCtx g → Cell → Option Cell → Option Cell → Finding g
  compare_plain rc c none rnd = nothing
  compare_plain rc c (some echo) none =
      if passes echo && family_fails rc c && not (str_eq c.role "control")
      then blocked (
          verdict g "protocol_blocking_suspected" (family_key g c.test_id c.transport c.port)
            (alg_confidence rc c (confidence c echo))
            (line "" c ∷ line "passing echo control: " echo ∷ alg_lines rc c))
      else nothing
  compare_plain rc c (some echo) (some rnd) =
      if passes echo && fails rnd && not (str_eq c.role "control")
      then control_failed (
          verdict g "control_failed_inconclusive" (key g c) low (
            line "" c
            ∷ line "random-payload control also failed on this port: " rnd
            ∷ line "echo passed: " echo
            ∷ []))
      else if passes echo && passes rnd && family_fails rc c && not (str_eq c.role "control")
      then blocked (
          verdict g "protocol_blocking_suspected" (family_key g c.test_id c.transport c.port)
            (alg_confidence rc c (confidence c echo))
            (line "" c
              ∷ line "passing echo control: " echo
              ∷ line "passing random control: " rnd
              ∷ alg_lines rc c))
      else nothing

  -- The handshake of a session passes or fails: rule 5c or the verdict of the handshake speaks of it.
  unfoldable pub handshake_settles : RuleCtx g → Cell → Bool
  handshake_settles rc c =
      option_or (handshake_cell g.trim_suffix rc.cells c) false (λ i. passes i || fails i)

  -- One turn of the loop of `ruleProtocol`.
  unfoldable pub protocol_finding : RuleCtx g → List String → Cell → Finding g
  protocol_finding rc reported c =
      if not (one_of c.test_id native_tests)
        || not (fails c)
        || handshake_settles rc c
        || one_of (family_key g c.test_id c.transport c.port) reported
      then nothing
      else compare_plain rc c (find_in g rc (echo_test_for c.transport) c.transport c.port "")
          (find_in g rc (plain_test_for c.transport "payload.random") c.transport c.port "")

  -- The loop of `ruleProtocol`, with the families that it has reported.
  unfoldable pub protocol_from : RuleCtx g → List String → List Cell → List (Verdict g)
  protocol_from rc reported [] = []
  protocol_from rc reported (c ∷ cells) = elim (protocol_finding rc reported c) [
    | nothing ↦ protocol_from rc reported cells
    | control_failed v ↦ v ∷ protocol_from rc reported cells
    | blocked v ↦ v ∷ protocol_from rc (family_key g c.test_id c.transport c.port ∷ reported) cells
  ]

  -- `ruleProtocol`
  unfoldable pub rule_protocol : RuleCtx g → RuleCtx g
  rule_protocol rc = add_all g (protocol_from rc [] rc.cells) rc
