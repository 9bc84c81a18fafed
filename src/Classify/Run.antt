-- ===== src/Classify/Run.antt =====
-- internal/classify/rules.go: `run` applies the rules in their order.
pub mod Justified
use censor_pulse_cli.Common.{List}
use censor_pulse_cli.Client.Merge.{Runtime, Attempt}
use censor_pulse_cli.Classify.Cells.{Cell}
use censor_pulse_cli.Classify.Rules.{RuleCtx, new_rule_ctx, Verdict}
use censor_pulse_cli.Classify.Rules.Ports.{rule_endpoint, rule_port_or_proxy, rule_udp}
use censor_pulse_cli.Classify.Rules.Protocol.{rule_protocol}
use censor_pulse_cli.Classify.Rules.Variants.{rule_variant}
use censor_pulse_cli.Classify.Rules.Flows.{rule_bulk_cut, rule_packet_cut}
use censor_pulse_cli.Classify.Rules.Flows.Bursts.{rule_burst_freeze}
use censor_pulse_cli.Classify.Rules.Flows.Sessions.{rule_session_cut}
use censor_pulse_cli.Classify.Rules.Dns.{rule_dns}
use censor_pulse_cli.Classify.Rules.Paths.{rule_modification, rule_synack}

module _ (g : Runtime) where
  -- `ruleCtx.run`
  unfoldable pub run_rules : RuleCtx g → RuleCtx g
  run_rules rc = rule_synack g (
      rule_modification g (
        rule_dns g (
          rule_session_cut g (
            rule_burst_freeze g (
              rule_packet_cut g (
                rule_bulk_cut g (
                  rule_variant g (
                    rule_protocol g (rule_udp g (rule_port_or_proxy g (rule_endpoint g rc)))))))))))

  -- The rules on the attempts and the cells of a scan.
  unfoldable pub verdicts_of : List (Attempt g) → List Cell → List (Verdict g)
  verdicts_of attempts cells = (run_rules (new_rule_ctx g attempts cells)).verdicts
