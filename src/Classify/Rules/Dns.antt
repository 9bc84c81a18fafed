-- ===== src/Classify/Rules/Dns.antt =====
-- internal/classify/rules_dns.go: rule 6, DNS transports and manipulation.
use censor_pulse_cli.Common.{
  Bool, List, Option, String, [], concat_map, false, filter, if◌then◌else◌, ltb, none, not, some,
  str_eq, true, ◌&&◌, ◌++◌, ◌+◌, ◌||◌, ◌∷◌,
}
use censor_pulse_cli.Client.Merge.{Runtime}
use censor_pulse_cli.Classify.Cells.{
  Cell, passes, fails, confidence, medium, echo_test_for, count_at,
}
use censor_pulse_cli.Classify.Cells.Keys.{key}
use censor_pulse_cli.Classify.Rules.{
  RuleCtx, line, Verdict, add_all, find_in, first_or, said, verdict,
}

module _ (g : Runtime) where
  -- `dnsManipulation`, of a cell.
  unfoldable pub manipulation_verdicts : Cell → List (Verdict g)
  manipulation_verdicts c =
      if g.has_prefix c.test_id "dns."
        && ltb 0
            (count_at c.outcomes "dns_answer_mismatch" + count_at c.outcomes "dns_injected_race")
      then verdict g
          (if str_eq c.test_id "dns.system"
            then "system_resolver_manipulation_suspected"
            else "dns_manipulation_suspected")
          (key g c) medium
          (line "" c ∷ said g "answer content did not match the authoritative nonce answer" ∷ [])
        ∷ []
      else []

  -- The last cell that passes a test: the loop that keeps a pointer.
  unfoldable pub last_cell : (Cell → Bool) → Option Cell → List Cell → Option Cell
  last_cell test found [] = found
  last_cell test found (c ∷ cells) = last_cell test (if test c then some c else found) cells

  unfoldable pub dns_udp_cell : RuleCtx g → Option Cell
  dns_udp_cell rc =
      last_cell (λ c. str_eq c.test_id "dns.udp" && str_eq c.variant "TXT") none rc.cells

  unfoldable pub dns_tcp_cell : RuleCtx g → Option Cell
  dns_tcp_cell rc = last_cell (λ c. str_eq c.test_id "dns.tcp") none rc.cells

  -- `udpOnly`: both are there, and TCP passes.
  abbrev pub udp_only : Option Cell → Option Cell → Bool
  udp_only none tcp = false
  udp_only (some udp) none = false
  udp_only (some udp) (some tcp) = passes tcp

  unfoldable pub dns_udp_verdicts : Option Cell → Option Cell → List (Verdict g)
  dns_udp_verdicts none tcp = []
  dns_udp_verdicts (some udp) none = []
  dns_udp_verdicts (some udp) (some tcp) =
      if passes tcp && fails udp
      then verdict g "dns_udp_blocking_suspected" (key g udp) (confidence udp tcp)
          (line "" udp ∷ line "passing control: " tcp ∷ [])
        ∷ []
      else []

  abbrev pub is_there : Option Cell → Bool
  is_there none = false
  is_there (some c) = true

  -- The cells that `dnsPortBlocking` leaves to others.
  unfoldable pub is_other : RuleCtx g → Bool → Cell → Bool
  is_other rc only c =
      not (g.has_prefix c.test_id "dns.")
      || str_eq c.test_id "dns.system"
      || str_eq c.test_id "dns.doh"
      || not (fails c)
      || is_there (find_in g rc "tcp.echo" c.transport c.port "")
      || is_there (find_in g rc "udp.echo" c.transport c.port "")
      || (only && str_eq c.test_id "dns.udp")

  -- The first passing echo of a transport, on any port.
  unfoldable pub passing_echoes : RuleCtx g → String → List Cell
  passing_echoes rc transport =
      filter (λ o. str_eq o.test_id (echo_test_for transport) && passes o) rc.cells

  -- `dnsPortBlocking`, of a cell.
  unfoldable pub dns_port_verdicts : RuleCtx g → Bool → Cell → List (Verdict g)
  dns_port_verdicts rc only c =
      if is_other rc only c
      then []
      else first_or (passing_echoes rc c.transport) [] (λ control.
        verdict g "dns_port_blocking_suspected" (key g c) (confidence c control) (
          line "" c
          ∷ line "no echo runs on this port; passing echo on another port of the same transport: "
              control
          ∷ [])
        ∷ [])

  -- `ruleDNS`
  unfoldable pub dns_verdicts : RuleCtx g → List (Verdict g)
  dns_verdicts rc =
      concat_map manipulation_verdicts rc.cells
      ++ (dns_udp_verdicts (dns_udp_cell rc) (dns_tcp_cell rc)
          ++ concat_map (dns_port_verdicts rc (udp_only (dns_udp_cell rc) (dns_tcp_cell rc)))
              rc.cells)

  unfoldable pub rule_dns : RuleCtx g → RuleCtx g
  rule_dns rc = add_all g (dns_verdicts rc) rc
