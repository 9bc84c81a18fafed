-- ===== src/Classify/Dest/Family.antt =====
-- internal/classify/dest.go: what `destVerdicts` says of the family as a whole, before the sites.
use censor_pulse_cli.Common.{
  Bool, List, Option, String, [], filter, if◌then◌else◌, leb, length, ltb, map, none, not, some,
  str_eq, ℕ, ◌&&◌, ◌*◌, ◌||◌, ◌∷◌,
}
use censor_pulse_cli.Client.Merge.{Runtime}
use censor_pulse_cli.Classify.Cells.{Cell, passes, medium, low, measured, medium_min_attempts}
use censor_pulse_cli.Classify.Cells.Keys.{key, dominant, str_ltb}
use censor_pulse_cli.Classify.Rules.{Verdict, count, formatted, said, verdict}
use censor_pulse_cli.Classify.Rules.Connect.{sort_by}
use censor_pulse_cli.Classify.Transient.{distinct}
use censor_pulse_cli.Classify.Rules.Paths.{has}
use censor_pulse_cli.Classify.Dest.{
  dest_failed, brief, cell_or_none, dest_domain, find_variant, is_site_cell, is_with,
}

abbrev pub resolver_min_sites : ℕ
resolver_min_sites = 2

-- The controls of the family.
pub record Controls : Type 0 where
  pub anycast : Option Cell
  pub transport_ok : Bool
  pub dns_control : Option Cell
  pub system_down : Bool
  pub system_unreliable : Bool

-- c.TestID == "dest.dns" && c.pass() && (...)
abbrev pub is_better_control : Option Cell → Cell → Bool
is_better_control none c = str_eq c.test_id "dest.dns" && passes c
is_better_control (some d) c =
    str_eq c.test_id "dest.dns"
    && passes c
    && str_eq c.role "baseline"
    && not (str_eq d.role "baseline")

-- `dnsControl`
unfoldable pub dns_control_from : Option Cell → List Cell → Option Cell
dns_control_from control [] = control
dns_control_from control (c ∷ cells) =
    dns_control_from (if is_better_control control c then some c else control) cells

abbrev pub is_site_dns : Cell → Bool
is_site_dns c = str_eq c.test_id "dest.dns" && not (str_eq c.variant "anycast")

-- `dnsCells`
abbrev pub dns_cells : List Cell → ℕ
dns_cells cells = length (filter is_site_dns cells)

-- `dnsTimeouts` and `dnsMismatches`
unfoldable pub dns_failures : String → List Cell → ℕ
dns_failures outcome cells =
    length (filter (λ c. is_site_dns c && dest_failed c && str_eq (dominant c) outcome) cells)

abbrev pub dns_timeouts : List Cell → ℕ
dns_timeouts = dns_failures "dns_timeout"

abbrev pub dns_mismatches : List Cell → ℕ
dns_mismatches = dns_failures "dns_answer_mismatch"

unfoldable pub controls : List Cell → Controls
controls cells =
    let control = dns_control_from none cells in
    let mismatches = dns_mismatches cells in
    record {
      anycast = find_variant cells "dest.tcp" "anycast";
      transport_ok = is_with (find_variant cells "dest.tcp" "anycast") passes;
      dns_control = control;
      system_down = ltb 0 (dns_cells cells) && leb (dns_cells cells) (dns_timeouts cells * 2);
      system_unreliable =
          not (has control)
          && leb resolver_min_sites mismatches
          && leb (dns_cells cells) (mismatches * 2);
    }

module _ (g : Runtime) where
  -- `domains`
  unfoldable pub domains_of : List Cell → List String
  domains_of cells =
      sort_by str_ltb
        (distinct (map (λ c. dest_domain g c.variant) (filter (is_site_cell g) cells)))

  -- `nxdomainVerdict`
  unfoldable pub nxdomain_verdicts : Option Cell → List (Verdict g)
  nxdomain_verdicts none = []
  nxdomain_verdicts (some nx) =
      if not (dest_failed nx) || not (str_eq (dominant nx) "dns_answer_mismatch")
      then []
      else verdict g "nxdomain_hijack_suspected" (key g nx)
          (if leb medium_min_attempts (measured nx) then medium else low)
          (brief g "" nx
            ∷ said g
                "a fresh name under the reserved .invalid TLD was answered with an address: the resolver invents answers (search/ad redirection, captive portal or a sinkhole)"
            ∷ [])
        ∷ []

  -- The anycast control that measured something and did not pass.
  unfoldable pub anycast_verdicts : Option Cell → List (Verdict g)
  anycast_verdicts none = []
  anycast_verdicts (some anycast) =
      if ltb 0 (measured anycast) && not (passes anycast)
      then verdict g "control_failed_inconclusive" (key g anycast) low (
          brief g "" anycast
          ∷ said g
              "no clean anycast address connects on :443: the transport layers of the real destinations cannot be told from an outage"
          ∷ [])
        ∷ []
      else []

  unfoldable pub down_verdicts : List Cell → Controls → List (Verdict g)
  down_verdicts cells k =
      if not k.system_down
      then []
      else verdict g "system_resolver_unreachable_suspected" "dest.dns udp/53"
          (if k.transport_ok && leb resolver_min_sites (dns_timeouts cells) then medium else low)
          (formatted
              "%d of %d sites: the system resolver timed out while the trusted DoH resolvers answered"
              (count (dns_timeouts cells) ∷ count (dns_cells cells) ∷ [])
            ∷ (if k.transport_ok
                then brief g "passing control: the trusted resolvers, and " (cell_or_none k.anycast)
                else said g "passing control: the trusted resolvers, and no anycast control")
            ∷ [])
        ∷ []

  unfoldable pub unreliable_verdicts : List Cell → Controls → List (Verdict g)
  unreliable_verdicts cells k =
      if not k.system_unreliable
      then []
      else verdict g "system_resolver_unreliable_suspected" "dest.dns udp/53" low (
          formatted
            "%d of %d sites: the system resolver's answer is not the one the trusted DoH resolvers give, and no site resolved cleanly through it"
            (count (dns_mismatches cells) ∷ count (dns_cells cells) ∷ [])
          ∷ said g
              "a failing, captive or wholesale-substituted resolver cannot be told from per-site poisoning without a name it resolves correctly"
          ∷ [])
        ∷ []
