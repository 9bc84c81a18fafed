-- ===== src/Classify/Run/Justified.antt =====
-- internal/classify/rules.go: what stands behind the verdicts of a whole run.
use censor_pulse_cli.Common.{All, All-append, List}
use censor_pulse_cli.Client.Merge.{Runtime, Attempt}
use censor_pulse_cli.Classify.Cells.{Cell}
use censor_pulse_cli.Classify.Rules.{RuleCtx, Verdict, add_all, new_rule_ctx}
use censor_pulse_cli.Classify.Rules.Ports.{rule_endpoint, rule_port_or_proxy, rule_udp}
use censor_pulse_cli.Classify.Rules.Protocol.{rule_protocol}
use censor_pulse_cli.Classify.Rules.Variants.{rule_variant}
use censor_pulse_cli.Classify.Rules.Flows.{rule_bulk_cut, rule_packet_cut}
use censor_pulse_cli.Classify.Rules.Flows.Bursts.{rule_burst_freeze}
use censor_pulse_cli.Classify.Rules.Flows.Sessions.{rule_session_cut}
use censor_pulse_cli.Classify.Rules.Dns.{rule_dns}
use censor_pulse_cli.Classify.Rules.Paths.{rule_modification, rule_synack}
use censor_pulse_cli.Classify.Justified.{IsJustified, concat_map-All}
use censor_pulse_cli.Classify.Justified.Baselines.{
  port_verdicts-IsJustified, endpoint_verdicts-IsJustified, udp_verdicts-IsJustified,
}
use censor_pulse_cli.Classify.Justified.Families.{
  protocol_verdicts-IsJustified, variant_verdicts-IsJustified,
}
use censor_pulse_cli.Classify.Justified.Resolvers.{dns_verdicts-IsJustified}
use censor_pulse_cli.Classify.Justified.Cuts.{
  bulk_verdicts-IsJustified, burst_verdicts-IsJustified, packet_verdicts-IsJustified,
  session_verdicts-IsJustified,
}
use censor_pulse_cli.Classify.Justified.Names.{note_cells-IsJustified, synack_verdicts-IsJustified}
use censor_pulse_cli.Classify.Run.{run_rules, verdicts_of}

module _ (g : Runtime) where
  abbrev IsSound : RuleCtx g → Type 0
  IsSound rc = All (IsJustified g rc.cells) rc.verdicts

  add_all-IsSound :
      (vs : List (Verdict g)) (rc : RuleCtx g)
      → All (IsJustified g rc.cells) vs
      → IsSound rc
      → IsSound (add_all g vs rc)
  unfolding add_all
  add_all-IsSound vs rc h s = All-append (IsJustified g rc.cells) rc.verdicts vs s h

  rule_endpoint-IsSound : (rc : RuleCtx g) → IsSound rc → IsSound (rule_endpoint g rc)
  unfolding rule_endpoint
  rule_endpoint-IsSound rc = add_all-IsSound _ rc (endpoint_verdicts-IsJustified g rc)

  rule_port_or_proxy-IsSound : (rc : RuleCtx g) → IsSound rc → IsSound (rule_port_or_proxy g rc)
  unfolding rule_port_or_proxy
  rule_port_or_proxy-IsSound rc = add_all-IsSound _ rc (
      All-append (IsJustified g rc.cells) _ _ (port_verdicts-IsJustified g rc "tcp")
        (port_verdicts-IsJustified g rc "udp"))

  rule_udp-IsSound : (rc : RuleCtx g) → IsSound rc → IsSound (rule_udp g rc)
  unfolding rule_udp
  rule_udp-IsSound rc = add_all-IsSound _ rc (udp_verdicts-IsJustified g rc)

  rule_protocol-IsSound : (rc : RuleCtx g) → IsSound rc → IsSound (rule_protocol g rc)
  unfolding rule_protocol
  rule_protocol-IsSound rc = add_all-IsSound _ rc (protocol_verdicts-IsJustified g rc)

  rule_variant-IsSound : (rc : RuleCtx g) → IsSound rc → IsSound (rule_variant g rc)
  unfolding rule_variant
  rule_variant-IsSound rc =
      add_all-IsSound _ rc
        (concat_map-All (IsJustified g rc.cells) _ rc.cells (variant_verdicts-IsJustified g rc))

  rule_bulk_cut-IsSound : (rc : RuleCtx g) → IsSound rc → IsSound (rule_bulk_cut g rc)
  unfolding rule_bulk_cut
  rule_bulk_cut-IsSound rc =
      add_all-IsSound _ rc
        (concat_map-All (IsJustified g rc.cells) _ rc.cells (bulk_verdicts-IsJustified g rc))

  rule_packet_cut-IsSound : (rc : RuleCtx g) → IsSound rc → IsSound (rule_packet_cut g rc)
  unfolding rule_packet_cut
  rule_packet_cut-IsSound rc =
      add_all-IsSound _ rc
        (concat_map-All (IsJustified g rc.cells) _ rc.cells (packet_verdicts-IsJustified g rc))

  rule_burst_freeze-IsSound : (rc : RuleCtx g) → IsSound rc → IsSound (rule_burst_freeze g rc)
  unfolding rule_burst_freeze
  rule_burst_freeze-IsSound rc =
      add_all-IsSound _ rc
        (concat_map-All (IsJustified g rc.cells) _ rc.cells (burst_verdicts-IsJustified g rc))

  rule_session_cut-IsSound : (rc : RuleCtx g) → IsSound rc → IsSound (rule_session_cut g rc)
  unfolding rule_session_cut
  rule_session_cut-IsSound rc =
      add_all-IsSound _ rc
        (concat_map-All (IsJustified g rc.cells) _ rc.cells (session_verdicts-IsJustified g rc))

  rule_dns-IsSound : (rc : RuleCtx g) → IsSound rc → IsSound (rule_dns g rc)
  unfolding rule_dns
  rule_dns-IsSound rc = add_all-IsSound _ rc (dns_verdicts-IsJustified g rc)

  rule_modification-IsSound : (rc : RuleCtx g) → IsSound rc → IsSound (rule_modification g rc)
  unfolding rule_modification
  rule_modification-IsSound rc = note_cells-IsJustified g rc.cells rc.verdicts rc.cells rc.verdicts

  rule_synack-IsSound : (rc : RuleCtx g) → IsSound rc → IsSound (rule_synack g rc)
  unfolding rule_synack
  rule_synack-IsSound rc = add_all-IsSound _ rc (synack_verdicts-IsJustified g rc)

  run_rules-IsSound : (rc : RuleCtx g) → IsSound rc → IsSound (run_rules g rc)
  unfolding run_rules
  run_rules-IsSound rc s = rule_synack-IsSound _ (
      rule_modification-IsSound _ (
        rule_dns-IsSound _ (
          rule_session_cut-IsSound _ (
            rule_burst_freeze-IsSound _ (
              rule_packet_cut-IsSound _ (
                rule_bulk_cut-IsSound _ (
                  rule_variant-IsSound _ (
                    rule_protocol-IsSound _ (
                      rule_udp-IsSound _
                        (rule_port_or_proxy-IsSound _ (rule_endpoint-IsSound rc s)))))))))))

  -- A verdict of high confidence that the rules give names in its evidence a cell of the scan that
  -- does not pass, and as its control a cell of the scan that passes.
  pub verdicts_of-IsJustified :
      (attempts : List (Attempt g)) (cells : List Cell)
      → All (IsJustified g cells) (verdicts_of g attempts cells)
  unfolding verdicts_of run_rules new_rule_ctx rule_endpoint rule_port_or_proxy rule_udp
      rule_protocol rule_variant rule_bulk_cut rule_packet_cut rule_burst_freeze rule_session_cut
      rule_dns rule_modification rule_synack add_all
  verdicts_of-IsJustified attempts cells = run_rules-IsSound (new_rule_ctx g attempts cells) tt
