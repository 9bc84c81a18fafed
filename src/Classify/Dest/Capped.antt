-- ===== src/Classify/Dest/Capped.antt =====
-- internal/classify/dest.go: no verdict on a destination has high confidence.
use censor_pulse_cli.Classify.Dest.Verdicts.{
  dest_verdicts, handshake_verdicts, http_layer, is_reset_alone, page_verdicts, proto_layer,
  proto_verdict, reset_confidence, reset_verdict, site_verdicts, sni_verdict, tls_layer,
  tls_verdict, legal_verdict, undecided_verdict,
}
use censor_pulse_cli.Common.{
  All, All-append, Bool, List, Option, String, [], false, if_lem, if◌then◌else◌, length, none, not,
  some, true, ◌==◌, ◌∷◌, ◌≢◌,
}
use censor_pulse_cli.Client.Merge.{Runtime, Attempt}
use censor_pulse_cli.Classify.Cells.{Cell, high, confidence, Level, low, medium, passes}
use censor_pulse_cli.Classify.Rules.{Verdict}
use censor_pulse_cli.Classify.Rules.Protocol.{lower}
use censor_pulse_cli.Classify.Justified.{
  medium_not_high, low_not_high, concat_map-All, option_or_lem,
}
use censor_pulse_cli.Classify.Dest.{capped, cell_or_none, connect_stage, dest_failed, is_with}
use censor_pulse_cli.Classify.Dest.Family.{
  nxdomain_verdicts, Controls, anycast_verdicts, controls, domains_of, down_verdicts,
  unreliable_verdicts,
}
use censor_pulse_cli.Classify.Dest.Layers.{
  lines_if, Site, alone_verdicts, dns_layer, is_dominated, mismatch_verdicts, primary_verdicts,
  site_of, tcp_layer,
}

module _ (g : Runtime) (attempts : List (Attempt g)) where
  abbrev IsCapped : Verdict g → Type 0
  IsCapped v = v.confidence ≢ high

  lower_not_high : (l : Level) → lower g l ≢ high
  lower_not_high high = medium_not_high
  lower_not_high medium = medium_not_high
  lower_not_high low = low_not_high

  capped_not_high : (c d : Cell) → capped g c d ≢ high
  unfolding capped
  capped_not_high c d = lower_not_high (confidence c d)

  choice_not_high : (t : Bool) → (if t then medium else low) ≢ high
  choice_not_high true = medium_not_high
  choice_not_high false = low_not_high

  lines_if-IsCapped :
      (t : Bool) (vs : List (Verdict g)) → All IsCapped vs → All IsCapped (lines_if t vs)
  lines_if-IsCapped true vs h = h
  lines_if-IsCapped false vs h = tt

  unless-IsCapped :
      (t : Bool) (v : Verdict g) → IsCapped v → All IsCapped (if t then [] else v ∷ [])
  unless-IsCapped true v h = tt
  unless-IsCapped false v h = (h, tt)

  when-IsCapped : (t : Bool) (v : Verdict g) → IsCapped v → All IsCapped (if t then v ∷ [] else [])
  when-IsCapped true v h = (h, tt)
  when-IsCapped false v h = tt

  nxdomain_verdicts-IsCapped : (o : Option Cell) → All IsCapped (nxdomain_verdicts g o)
  unfolding nxdomain_verdicts
  nxdomain_verdicts-IsCapped none = tt
  nxdomain_verdicts-IsCapped (some nx) = unless-IsCapped _ _ (choice_not_high _)

  anycast_verdicts-IsCapped : (o : Option Cell) → All IsCapped (anycast_verdicts g o)
  unfolding anycast_verdicts
  anycast_verdicts-IsCapped none = tt
  anycast_verdicts-IsCapped (some anycast) = when-IsCapped _ _ low_not_high

  module _ (cells : List Cell) (k : Controls) where
    down_verdicts-IsCapped : All IsCapped (down_verdicts g cells k)
    unfolding down_verdicts
    down_verdicts-IsCapped = unless-IsCapped _ _ (choice_not_high _)

    unreliable_verdicts-IsCapped : All IsCapped (unreliable_verdicts g cells k)
    unfolding unreliable_verdicts
    unreliable_verdicts-IsCapped = unless-IsCapped _ _ low_not_high

  module _ (k : Controls) where
    mismatch_verdicts-IsCapped : (dns : Cell) → All IsCapped (mismatch_verdicts g k dns)
    unfolding mismatch_verdicts alone_verdicts
    mismatch_verdicts-IsCapped dns =
        option_or_lem (All IsCapped) k.dns_control (alone_verdicts g k dns) _
          (unless-IsCapped _ _ low_not_high) (λ control _. (capped_not_high dns control, tt))

    dns_layer-IsCapped : (s : Site) → All IsCapped (dns_layer g k s)
    unfolding dns_layer
    dns_layer-IsCapped s =
        if_lem (All IsCapped) (not (is_with s.dns dest_failed)) [] _ (λ _. tt)
          (λ _.
            if_lem (All IsCapped) (is_dominated "dns_answer_mismatch" (cell_or_none s.dns)) _ _
              (λ _. mismatch_verdicts-IsCapped (cell_or_none s.dns))
              (λ _. when-IsCapped _ _ low_not_high))

    tcp_layer-IsCapped : (s : Site) → All IsCapped (tcp_layer g k s)
    unfolding tcp_layer
    tcp_layer-IsCapped s =
        when-IsCapped _ _ (capped_not_high (cell_or_none s.tcp) (cell_or_none k.anycast))

    primary_verdicts-IsCapped :
        (s : Site) (c : Cell) (after : String) → All IsCapped (primary_verdicts g k s c after)
    unfolding primary_verdicts
    primary_verdicts-IsCapped s c after = when-IsCapped _ _ low_not_high

    handshake_verdicts-IsCapped :
        (s : Site) (real : Cell) → All IsCapped (handshake_verdicts g attempts k s real)
    unfolding handshake_verdicts sni_verdict reset_verdict reset_confidence tls_verdict
        undecided_verdict
    handshake_verdicts-IsCapped s real =
        if_lem (All IsCapped) (connect_stage real) _ _ (λ _. primary_verdicts-IsCapped s real _)
          (λ _.
            if_lem (All IsCapped) (is_with s.decoy passes)
              (sni_verdict g attempts s real (cell_or_none s.decoy) ∷ []) _
              (λ _. (capped_not_high real (cell_or_none s.decoy), tt))
              (λ _.
                if_lem (All IsCapped) (is_reset_alone g attempts s real)
                  (reset_verdict g attempts s real ∷ []) _ (λ _. (choice_not_high _, tt))
                  (λ _.
                    if_lem (All IsCapped) (is_with s.decoy dest_failed)
                      (tls_verdict g attempts s real (cell_or_none s.decoy) ∷ []) _
                      (λ _. (capped_not_high real (cell_or_none s.tcp), tt))
                      (λ _. (low_not_high, tt)))))

    tls_layer-IsCapped : (s : Site) → All IsCapped (tls_layer g attempts k s)
    unfolding tls_layer
    tls_layer-IsCapped s = lines_if-IsCapped _ _ (handshake_verdicts-IsCapped s _)

    proto_layer-IsCapped :
        (domain : String) (s : Site) → All IsCapped (proto_layer g attempts k domain s)
    unfolding proto_layer proto_verdict
    proto_layer-IsCapped domain s = lines_if-IsCapped _ _ (
        if_lem (All IsCapped) (connect_stage (cell_or_none s.proto)) _
          (proto_verdict g attempts domain s (cell_or_none s.proto) ∷ [])
          (λ _. primary_verdicts-IsCapped s (cell_or_none s.proto) _)
          (λ _. (capped_not_high (cell_or_none s.proto) (cell_or_none s.tcp), tt)))

    http_layer-IsCapped : (s : Site) → All IsCapped (http_layer g attempts s)
    unfolding http_layer page_verdicts legal_verdict
    http_layer-IsCapped s = lines_if-IsCapped _ _ (
        if_lem (All IsCapped) (is_dominated "http_legal_block" (cell_or_none s.http))
          (legal_verdict g attempts (cell_or_none s.http) (cell_or_none s.real) ∷ []) _
          (λ _. (choice_not_high _, tt)) (λ _. when-IsCapped _ _ low_not_high))

    site_verdicts-IsCapped :
        (cells : List Cell) (domain : String)
        → All IsCapped (site_verdicts g attempts cells k domain)
    unfolding site_verdicts
    site_verdicts-IsCapped cells domain =
        let s = site_of cells domain in
        All-append IsCapped _ _ (dns_layer-IsCapped s) (
          All-append IsCapped _ _ (tcp_layer-IsCapped s) (
            All-append IsCapped _ _ (tls_layer-IsCapped s)
              (All-append IsCapped _ _ (proto_layer-IsCapped domain s) (http_layer-IsCapped s))))

  -- No verdict on a destination has high confidence.
  pub dest_verdicts-IsCapped :
      (cells : List Cell) → All (λ v. v.confidence ≢ high) (dest_verdicts g attempts cells)
  unfolding dest_verdicts
  dest_verdicts-IsCapped cells =
      let k = controls cells in
      All-append IsCapped _ _ (nxdomain_verdicts-IsCapped _) (
        if_lem (All IsCapped) (length (domains_of g cells) == 0) [] _ (λ _. tt)
          (λ _. All-append IsCapped _ _ (anycast_verdicts-IsCapped k.anycast) (
            All-append IsCapped _ _ (down_verdicts-IsCapped cells k) (
              All-append IsCapped _ _ (unreliable_verdicts-IsCapped cells k) (
                concat_map-All IsCapped _ (domains_of g cells)
                  (λ d _. site_verdicts-IsCapped k cells d))))))
