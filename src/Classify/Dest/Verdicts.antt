-- ===== src/Classify/Dest/Verdicts.antt =====
-- internal/classify/dest.go: the verdicts on the handshakes and the pages of a site, and `destVerdicts`.
use censor_pulse_cli.Common.{
  Bool, List, String, [], concat_map, detail_at, if◌then◌else◌, leb, length, not, str_eq, ℕ, ◌&&◌,
  ◌++◌, ◌==◌, ◌||◌, ◌∷◌,
}
use censor_pulse_cli.Client.Merge.{Runtime, Attempt}
use censor_pulse_cli.Classify.Rules.Paths.{has}
use censor_pulse_cli.Classify.Cells.{
  Cell, passes, medium, Level, low, measured, medium_min_attempts,
}
use censor_pulse_cli.Classify.Cells.Keys.{key}
use censor_pulse_cli.Classify.Rules.{Evidence, Verdict, formatted, option_or, said, text, verdict}
use censor_pulse_cli.Classify.Dest.{
  dest_failed, around, brief, capped, cell_or_none, connect_stage, find_variant, is_with,
  timed_out_only,
}
use censor_pulse_cli.Classify.Dest.Family.{
  Controls, anycast_verdicts, controls, domains_of, down_verdicts, nxdomain_verdicts,
  unreliable_verdicts,
}
use censor_pulse_cli.Classify.Dest.Layers.{
  Site, dns_layer, is_dominated, is_reached, lines_if, primary_verdicts, site_of, tcp_layer,
  tcp_line,
}
use censor_pulse_cli.Classify.Dest.Resets.{early_resets}

module _ (g : Runtime) (attempts : List (Attempt g)) where
  abbrev pub absent_lines : Site → List (Evidence g)
  absent_lines s = option_or s.absent [] (λ absent. brief g "no SNI: " absent ∷ [])

  -- The real name fails and the decoy passes.
  unfoldable pub sni_verdict : Site → Cell → Cell → Verdict g
  sni_verdict s real decoy =
      verdict g "dest_sni_blocking_suspected" (key g real) (capped g real decoy) (
        brief g "" real
        ∷ brief g "passing control on the same address: " decoy
        ∷ (absent_lines s
            ++ (lines_if (is_dominated "tls_spoof" real)
                  (said g "non-TLS bytes answered the ClientHello: an injected block page" ∷ [])
                ++ ((early_resets g attempts real).1
                    ++ (said g
                          "the real name fails while a decoy name on the very same address completes the handshake: the rule keys on the SNI"
                        ∷ [])))))

  -- Only the real name is reset.
  unfoldable pub is_reset_alone : Site → Cell → Bool
  is_reset_alone s real =
      is_dominated "midstream_reset" real
      && is_with s.decoy (λ decoy. dest_failed decoy && timed_out_only decoy)
      && (not (has s.absent) || is_with s.absent (λ absent. timed_out_only absent || passes absent))

  unfoldable pub reset_confidence : Cell → ℕ → Level
  reset_confidence real early =
      if early == measured real && leb medium_min_attempts early then medium else low

  unfoldable pub reset_verdict : Site → Cell → Verdict g
  reset_verdict s real =
      let r = early_resets g attempts real in
      verdict g "dest_sni_blocking_suspected" (key g real) (reset_confidence real r.0) (
        brief g "" real
        ∷ brief g "the decoy name on the same address was never reset, it timed out: "
            (cell_or_none s.decoy)
        ∷ (absent_lines s
            ++ (r.1
                ++ (said g
                      "only the real name draws a reset on this address, the handshakes with another name or none time out instead: the rule keys on the SNI"
                    ∷ []))))

  -- No handshake with a name completes.
  unfoldable pub tls_verdict : Site → Cell → Cell → Verdict g
  tls_verdict s real decoy =
      verdict g "dest_tls_blocking_suspected" (key g real) (capped g real (cell_or_none s.tcp)) (
        brief g "" real
        ∷ brief g "decoy name on the same address fails too: " decoy
        ∷ tcp_line g s
        ∷ (lines_if (is_with s.absent passes) (
              around g "a handshake without SNI passes: " (cell_or_none s.absent)
                "; the rule keys on any name, or on the handshake shape"
              ∷ [])
            ++ (said g
                  "TCP connects but no TLS handshake with a name completes on the address: address-level or handshake-level interference, not the name alone"
                ∷ [])))

  -- There is no decoy to compare with.
  unfoldable pub undecided_verdict : Site → Cell → Verdict g
  undecided_verdict s real =
      verdict g "dest_tls_blocking_suspected" (key g real) low
        (brief g "" real ∷ said g "no decoy handshake to compare with" ∷ tcp_line g s ∷ [])

  -- The switch on a failing handshake with the real name.
  unfoldable pub handshake_verdicts : Controls → Site → Cell → List (Verdict g)
  handshake_verdicts k s real =
      let decoy = cell_or_none s.decoy in
      if connect_stage real
      then primary_verdicts g k s real "): an address or prefix is dropped, the name was never sent"
      else if is_with s.decoy passes
      then sni_verdict s real decoy ∷ []
      else if is_reset_alone s real
      then reset_verdict s real ∷ []
      else if is_with s.decoy dest_failed
      then tls_verdict s real decoy ∷ []
      else undecided_verdict s real ∷ []

  unfoldable pub tls_layer : Controls → Site → List (Verdict g)
  tls_layer k s =
      let real = cell_or_none s.real in
      lines_if (is_with s.real dest_failed && is_reached g s real) (handshake_verdicts k s real)

  -- `protoOf`
  unfoldable pub proto_of : List (Attempt g) → String → String
  proto_of [] domain = "service's own"
  proto_of (a ∷ rest) domain =
      if str_eq a.test_id "dest.proto"
        && str_eq a.variant domain
        && not (str_eq (detail_at a.detail "proto") "")
      then detail_at a.detail "proto"
      else proto_of rest domain

  unfoldable pub proto_verdict : String → Site → Cell → Verdict g
  proto_verdict domain s proto =
      verdict g "dest_proto_blocking_suspected" (key g proto) (capped g proto (cell_or_none s.tcp))
        (brief g "" proto
          ∷ tcp_line g s
          ∷ (lines_if (is_dominated "unexpected_response" proto) (
                said g
                  "something other than the service answered the handshake: a block page or a proxy"
                ∷ [])
              ++ ((early_resets g attempts proto).1
                  ++ (formatted
                        "TCP connects but the %s handshake does not complete on the address: the path interferes with the service's own protocol"
                        (text (proto_of attempts domain) ∷ [])
                      ∷ []))))

  unfoldable pub proto_layer : Controls → String → Site → List (Verdict g)
  proto_layer k domain s =
      let proto = cell_or_none s.proto in
      lines_if (is_with s.proto dest_failed && is_reached g s proto) (
        if connect_stage proto
        then primary_verdicts g k s proto
            "): an address or prefix is dropped, the handshake was never sent"
        else proto_verdict domain s proto ∷ [])

  unfoldable pub legal_verdict : Cell → Cell → Verdict g
  legal_verdict http real =
      verdict g "dest_legal_block_suspected" (key g http)
        (if leb medium_min_attempts (measured http) && http.ok_count == 0 then medium else low)
        (brief g "" http
          ∷ brief g "passing control: TLS handshake " real
          ∷ said g
              "HTTP 451 from the service after a clean handshake: the service refuses the region, the network did not interfere"
          ∷ [])

  unfoldable pub page_verdicts : Cell → Cell → List (Verdict g)
  page_verdicts http real =
      if is_dominated "http_legal_block" http
      then legal_verdict http real ∷ []
      else if is_dominated "cert_mismatch" http
      then verdict g "dest_tls_interception_suspected" (key g http) low (
          brief g "" http
          ∷ said g
              "the certificate presented for the real name does not verify against the system roots while the handshake itself completes: interception, or a broken chain on the site"
          ∷ [])
        ∷ []
      else []

  unfoldable pub http_layer : Site → List (Verdict g)
  http_layer s =
      lines_if (is_with s.http dest_failed && is_with s.real passes)
        (page_verdicts (cell_or_none s.http) (cell_or_none s.real))

  unfoldable pub site_verdicts : List Cell → Controls → String → List (Verdict g)
  site_verdicts cells k domain =
      let s = site_of cells domain in
      dns_layer g k s
      ++ (tcp_layer g k s ++ (tls_layer k s ++ (proto_layer k domain s ++ http_layer s)))

  -- `destVerdicts`
  unfoldable pub dest_verdicts : List Cell → List (Verdict g)
  dest_verdicts cells =
      let k = controls cells in
      nxdomain_verdicts g (find_variant cells "dest.nxdomain" "invalid")
      ++ (if length (domains_of g cells) == 0
          then []
          else anycast_verdicts g k.anycast
            ++ (down_verdicts g cells k
                ++ (unreliable_verdicts g cells k
                    ++ concat_map (site_verdicts cells k) (domains_of g cells))))
