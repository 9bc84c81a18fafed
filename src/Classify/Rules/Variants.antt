-- ===== src/Classify/Rules/Variants.antt =====
-- internal/classify/rules_protocol.go: rule 5, the variants of one test family on one port.
use censor_pulse_cli.Common.{
  Bool, List, Option, String, [], concat_map, false, filter, if◌then◌else◌, none, not, some, str_eq,
  ◌&&◌, ◌||◌, ◌∷◌,
}
use censor_pulse_cli.Client.Merge.{Runtime, one_of}
use censor_pulse_cli.Client.Merge.Table.{is_dest_test}
use censor_pulse_cli.Classify.Cells.{Cell, passes, fails, confidence, handshake_cell}
use censor_pulse_cli.Classify.Cells.Keys.{key, port_key}
use censor_pulse_cli.Classify.Rules.{
  RuleCtx, line, Evidence, Verdict, add_all, by_test, first_or, option_or, said, verdict,
}

module _ (g : Runtime) where
  -- The nominal baseline of a group: the last baseline, or a control of vless before any baseline.
  unfoldable pub nominal_baseline : String → Option Cell → List Cell → Option Cell
  nominal_baseline test base [] = base
  nominal_baseline test none (c ∷ cells) =
      nominal_baseline test
        (if str_eq c.role "baseline" || (str_eq c.role "control" && g.has_prefix test "vless.")
          then some c
          else none)
        cells
  nominal_baseline test (some base) (c ∷ cells) =
      nominal_baseline test (if str_eq c.role "baseline" then some c else some base) cells

  unfoldable pub first_passing : List Cell → Option Cell
  first_passing cells =
      first_or (filter (λ c. passes c && not (str_eq c.role "control")) cells) none (λ c. some c)

  -- `variantBaseline`
  unfoldable pub variant_baseline : String → List Cell → Option Cell
  variant_baseline test cells =
      option_or (nominal_baseline test none cells) (first_passing cells)
        (λ base. if passes base then some base else first_passing cells)

  -- `variantKind`
  unfoldable pub variant_kind : String → String → String
  variant_kind test variant =
      if one_of test ("tls.sni" ∷ "http.host" ∷ [])
      then if g.has_prefix variant "trigger:"
        then "sni_or_host_blocking_suspected"
        else "sni_or_host_policy_suspected"
      else if str_eq test "tls.fingerprint"
      then "fingerprint_blocking_suspected"
      else if one_of test ("vless.reality" ∷ "vless.session" ∷ [])
          && g.has_prefix variant "reality:"
      then "sni_ip_mismatch_blocking_suspected"
      else if str_eq test "tls.alpn"
      then "alpn_policy_suspected"
      else if str_eq test "tls.version"
      then "tls_version_policy_suspected"
      else if str_eq test "dns.udp"
      then "dns_qtype_policy_suspected"
      else if str_eq test "socks5.connect"
      then "socks5_auth_policy_suspected"
      else if str_eq test "tor.handshake"
      then "tor_handshake_blocking_suspected"
      else if str_eq test "dtls.hello"
      then "dtls_fingerprint_blocking_suspected"
      else "variant_blocking_suspected"

  -- `state` in `torFeatureLine`
  unfoldable pub tor_state : List Cell → String → String
  tor_state cells variant =
      first_or (filter (λ o. str_eq o.variant variant && (fails o || passes o)) cells) ""
        (λ o. if fails o then "fail" else "pass")

  -- `torFeatureLine`, no line for the empty text.
  unfoldable pub tor_feature_lines : List Cell → String → List (Evidence g)
  tor_feature_lines cells variant =
      let hello = tor_state cells "tor-hello+probe-cert" in
      let cert = tor_state cells "go-hello+tor-cert" in
      if str_eq hello "fail" && str_eq cert "fail"
      then said g
          "both the tor ClientHello alone and the relay certificate alone fail: two independent rules, or a rule on either feature"
        ∷ []
      else if str_eq hello "fail" && str_eq cert "pass"
      then said g
          "the tor ClientHello alone fails while the relay certificate with a plain hello passes: the rule keys on the ClientHello (no SNI + tor cipher list)"
        ∷ []
      else if str_eq hello "pass" && str_eq cert "fail"
      then said g
          "the relay certificate alone fails while the tor ClientHello with the probe certificate passes: the rule keys on the TLS 1.2 certificate (www.<random>.com / .net)"
        ∷ []
      else if str_eq hello "pass" && str_eq cert "pass" && str_eq variant "tor-hello+tor-cert"
      then said g
          "each feature alone passes; only the full tor shape fails: the rule needs both the ClientHello and the certificate"
        ∷ []
      else []

  -- The cells of the family of a cell on its port.
  unfoldable pub group_of : RuleCtx g → Cell → List Cell
  group_of rc v =
      filter (λ c. str_eq (port_key g c.transport c.port) (port_key g v.transport v.port))
        (by_test g rc v.test_id)

  -- The baseline has another key, the variant is no baseline and fails, and its handshake, where it
  -- has one, does not pass.
  unfoldable pub is_differential : RuleCtx g → Cell → Cell → Bool
  is_differential rc base v =
      not (str_eq v.role "baseline")
      && fails v
      && not (str_eq (key g v) (key g base))
      && not (option_or (handshake_cell g.trim_suffix rc.cells v) false passes)

  -- What `ruleVariant` says of a cell.
  unfoldable pub variant_verdicts : RuleCtx g → Cell → List (Verdict g)
  variant_verdicts rc v =
      if is_dest_test g v.test_id
      then []
      else option_or (variant_baseline v.test_id (group_of rc v)) [] (λ base.
        if is_differential rc base v
        then verdict g (variant_kind v.test_id v.variant) (key g v) (confidence v base) (
            line "" v
            ∷ line "passing baseline: " base
            ∷ (if str_eq v.test_id "tor.handshake"
                then tor_feature_lines (group_of rc v) v.variant
                else []))
          ∷ []
        else [])

  -- `ruleVariant`. The code walks families and ports in the order of its maps; the verdicts are
  -- sorted at the end.
  unfoldable pub rule_variant : RuleCtx g → RuleCtx g
  rule_variant rc = add_all g (concat_map (variant_verdicts rc) rc.cells) rc
