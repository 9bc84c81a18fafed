-- ===== src/Classify/Rules/Ports.antt =====
-- internal/classify/rules_port.go: rules 1 to 3, which read the baselines.
use censor_pulse_cli.Common.{
  List, String, [], filter, if◌then◌else◌, length, ltb, map, not, str_eq, ◌&&◌, ◌++◌, ◌==◌, ◌||◌,
  ◌∷◌,
}
use censor_pulse_cli.Client.Merge.{Runtime}
use censor_pulse_cli.Classify.Cells.{Cell, passes, fails, confidence, medium, is_app_protocol}
use censor_pulse_cli.Classify.Cells.Keys.{port_key, dominant}
use censor_pulse_cli.Classify.Rules.{
  RuleCtx, line, formatted, float, count, Evidence, Verdict, add_all, baselines, first_or,
  option_or, said, verdict,
}
use censor_pulse_cli.Classify.Rules.Connect.{median_connect}

module _ (g : Runtime) where
  -- `ruleEndpoint`
  unfoldable pub endpoint_verdicts : RuleCtx g → List (Verdict g)
  endpoint_verdicts rc =
      let base = baselines g rc in
      let failing = filter fails base in
      if ltb 0 (length base) && length failing == length base
      then verdict g "endpoint_blocking_suspected" "all baseline echo tests" medium (
          said g "control plane reachable but every TCP and UDP echo failed"
          ∷ map (line "") failing)
        ∷ []
      else []

  unfoldable pub rule_endpoint : RuleCtx g → RuleCtx g
  rule_endpoint rc = add_all g (endpoint_verdicts rc) rc

  -- The lines of `proxyEvidence` on what the server saw of the echo.
  unfoldable pub relay_lines : Cell → List (Evidence g)
  relay_lines f =
      if ltb 0 f.server_saw
        && (str_eq (dominant f) "downlink_drop" || str_eq (dominant f) "downlink_modified")
      then said g
          "the server received the opaque payload and answered; the answer never arrived: the path relays only traffic it can parse"
        ∷ []
      else if str_eq (dominant f) "uplink_delayed_past_deadline"
      then said g
          "the server received the opaque payload only after the client had given up: the path held the flow instead of relaying it"
        ∷ []
      else []

  unfoldable pub connect_lines : RuleCtx g → Cell → List (Evidence g)
  connect_lines rc f =
      if str_eq f.transport "tcp"
      then option_or (median_connect g rc.attempts f.port) []
          (λ ms. formatted "median connect on this port %.1f ms" (float ms ∷ []) ∷ [])
      else []

  -- `proxyEvidence`
  unfoldable pub proxy_evidence : RuleCtx g → Cell → Cell → Cell → List (Evidence g)
  proxy_evidence rc f app elsewhere =
      line "" f
      ∷ line "but on the same port: " app
      ∷ (relay_lines f ++ (connect_lines rc f ++ (line "passing echo elsewhere: " elsewhere ∷ [])))

  -- The application protocols that pass on the port of a failing echo.
  unfoldable pub passing_apps : RuleCtx g → String → Cell → List Cell
  passing_apps rc tr f =
      filter
        (λ o.
          str_eq o.transport tr
          && o.port == f.port
          && passes o
          && is_app_protocol g.has_prefix o.test_id)
        rc.cells

  -- What `rulePortOrProxy` says of a failing echo, next to a passing one.
  unfoldable pub port_verdict : RuleCtx g → String → Cell → Cell → Verdict g
  port_verdict rc tr elsewhere f =
      first_or (passing_apps rc tr f)
        (verdict g "port_blocking_suspected" (port_key g tr f.port) (confidence f elsewhere)
          (line "" f ∷ line "passing control: " elsewhere ∷ []))
        (λ app.
          verdict g "transparent_proxy_suspected" (port_key g tr f.port) (confidence f app)
            (proxy_evidence rc f app elsewhere))

  unfoldable pub passing_baselines : RuleCtx g → String → List Cell
  passing_baselines rc tr = filter (λ c. str_eq c.transport tr && passes c) (baselines g rc)

  unfoldable pub failing_baselines : RuleCtx g → String → List Cell
  failing_baselines rc tr =
      filter (λ c. str_eq c.transport tr && not (passes c) && fails c) (baselines g rc)

  unfoldable pub port_verdicts : RuleCtx g → String → List (Verdict g)
  port_verdicts rc tr =
      first_or (passing_baselines rc tr) []
        (λ elsewhere. map (port_verdict rc tr elsewhere) (failing_baselines rc tr))

  -- `rulePortOrProxy`
  unfoldable pub rule_port_or_proxy : RuleCtx g → RuleCtx g
  rule_port_or_proxy rc = add_all g (port_verdicts rc "tcp" ++ port_verdicts rc "udp") rc

  -- `ruleUDP`
  unfoldable pub udp_verdicts : RuleCtx g → List (Verdict g)
  udp_verdicts rc =
      let tcp_pass = length (passing_baselines rc "tcp") in
      let udp_total = length (filter (λ c. str_eq c.transport "udp") (baselines g rc)) in
      let udp_fail = length (filter (λ c. str_eq c.transport "udp" && fails c) (baselines g rc)) in
      if ltb 0 tcp_pass && ltb 0 udp_total && udp_fail == udp_total
      then verdict g "udp_blocking_suspected" "all udp ports" medium (
          formatted "%d/%d udp echo cells failed while %d tcp echo cells passed"
            (count udp_fail ∷ count udp_total ∷ count tcp_pass ∷ [])
          ∷ [])
        ∷ []
      else []

  unfoldable pub rule_udp : RuleCtx g → RuleCtx g
  rule_udp rc = add_all g (udp_verdicts rc) rc
