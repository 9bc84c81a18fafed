-- ===== src/Classify/Rules/Paths.antt =====
-- internal/classify/rules_path.go: rule 7, modification and injection, and rule 8, the timing of the
-- SYN-ACK.
use Prim.Native.String.{◌++◌ as text_append}
use censor_pulse_cli.Common.{
  nat_eq, string_key, Bool, List, Option, String, [], concat_map, detail_at, false, filter, find,
  if◌then◌else◌, leb, length, ltb, map, none, not, put, some, str_eq, suc, true, zero, ℕ, ◌&&◌,
  ◌++◌, ◌+◌, ◌==◌, ◌||◌, ◌∷◌,
}
use censor_pulse_cli.Client.Merge.{Runtime, Attempt, one_of}
use censor_pulse_cli.Classify.Cells.{Cell, medium, low, handshake_test_of}
use censor_pulse_cli.Classify.Cells.Keys.{key, port_key, str_ltb}
use censor_pulse_cli.Classify.Rules.{
  Arg, RuleCtx, formatted, count, text, float, Evidence, Verdict, add_all, option_or, said, verdict,
}
use censor_pulse_cli.Classify.Rules.Connect.{sort_by, median_float, median_connect}

-- `modificationMerges`
abbrev pub modification_merges : List String
modification_merges =
    "uplink_modified" ∷ "downlink_modified" ∷ "injected" ∷ "rst_injected_or_path_reset"
    ∷ "rst_injected_bidirectional" ∷ "tls_mitm_or_wrong_server" ∷ []

abbrev pub has : {A : Type 0} → Option A → Bool
has none = false
has (some x) = true

module _ (g : Runtime) where
  -- `named`: the place of the last verdict on a subject, from place i.
  unfoldable pub named_from : ℕ → String → List (Verdict g) → Option ℕ
  named_from i subject [] = none
  named_from i subject (v ∷ vs) = elim (named_from (i + 1) subject vs) [
    | some j ↦ some j
    | none ↦ if str_eq v.subject subject then some i else none
  ]

  -- rc.verdicts[i].Evidence = append(rc.verdicts[i].Evidence, e)
  unfoldable pub attach_at : ℕ → Evidence g → List (Verdict g) → List (Verdict g)
  attach_at i e [] = []
  attach_at zero e (v ∷ vs) = record v { evidence = v.evidence ++ (e ∷ []) } ∷ vs
  attach_at (suc i) e (v ∷ vs) = v ∷ attach_at i e vs

  unfoldable pub modification_verdict : Cell → String → ℕ → Verdict g
  modification_verdict c merged n = verdict g merged (key g c) (if leb 2 n then medium else low) (
      formatted "%d/%d attempts classified %s; no differential control for this cell"
        (count n ∷ count c.total ∷ text merged ∷ [])
      ∷ [])

  -- What rule 7 does with a merged result of a cell: attach it to the verdict that names the cell, or
  -- report it.
  unfoldable pub note_result : Cell → Option ℕ → String × ℕ → List (Verdict g) → List (Verdict g)
  note_result c place e vs =
      if e.1 == 0 || not (one_of e.0 modification_merges)
      then vs
      else option_or place (vs ++ (modification_verdict c e.0 e.1 ∷ [])) (λ i.
        attach_at i
          (formatted "mechanism: %d/%d attempts merged as %s"
            (count e.1 ∷ count c.total ∷ text e.0 ∷ []))
          vs)

  unfoldable pub note_results :
      Cell → Option ℕ → List (String × ℕ) → List (Verdict g) → List (Verdict g)
  note_results c place [] vs = vs
  note_results c place (e ∷ hist) vs = note_results c place hist (note_result c place e vs)

  -- The cells that rules 5b and 5c report with their counts.
  unfoldable pub is_counted_cell : Cell → Bool
  is_counted_cell c =
      one_of c.test_id ("tcp.bulk" ∷ "tcp.packets" ∷ "udp.packets" ∷ "tls.burst" ∷ [])
      || not (str_eq (handshake_test_of c.test_id) "")

  unfoldable pub note_cells : List (Verdict g) → List Cell → List (Verdict g) → List (Verdict g)
  note_cells before [] vs = vs
  note_cells before (c ∷ cells) vs = note_cells before cells (
      if is_counted_cell c
      then vs
      else note_results c (named_from 0 (key g c) before)
          (sort_by (λ e f. str_ltb e.0 f.0) c.merged) vs)

  -- `ruleModification`
  unfoldable pub rule_modification : RuleCtx g → RuleCtx g
  rule_modification rc = record rc { verdicts = note_cells rc.verdicts rc.cells rc.verdicts }

  abbrev pub rtt_format : String
  rtt_format = "tcp.rtt on %s: connect %s ms vs payload %s ms (ratio %s)"

  -- `rttSuspect`: what rtt_format shows of the last suspect attempt of each port.
  unfoldable pub rtt_suspects : List (ℕ × List (Arg g)) → List (Attempt g) → List (ℕ × List (Arg g))
  rtt_suspects m [] = m
  rtt_suspects m (a ∷ attempts) =
      rtt_suspects
        (if str_eq a.test_id "tcp.rtt" && str_eq (detail_at a.detail "synack_suspect") "true"
          then put a.dst_port
              (text (port_key g "tcp" a.dst_port)
                ∷ text (detail_at a.detail "connect_min_ms")
                ∷ text (detail_at a.detail "payload_min_ms")
                ∷ text (detail_at a.detail "connect_payload_ratio")
                ∷ [])
              m
          else m)
        attempts

  -- The median connect times of the TCP ports that have one.
  unfoldable pub connect_medians :
      List (Attempt g) → List (ℕ × g.Float) → List (Attempt g) → List (ℕ × g.Float)
  connect_medians all m [] = m
  connect_medians all m (a ∷ attempts) =
      connect_medians all
        (if str_eq a.transport "tcp"
          then option_or (median_connect g all a.dst_port) m (λ ms. put a.dst_port ms m)
          else m)
        attempts

  -- m < ref*fastConnectRatio && ref-m > fastConnectMinGapMs
  unfoldable pub is_fast : g.Float → g.Float → Bool
  is_fast ref m =
      g.float_ltb m (g.float_mul ref (g.float_div (g.float_of_nat 1) (g.float_of_nat 4)))
      && g.float_ltb (g.float_of_nat 20) (g.float_sub ref m)

  abbrev pub reference : List (ℕ × g.Float) → g.Float
  reference medians = median_float g (map (λ e. e.1) medians)

  -- `fastConnectPorts`: the fast ports with their medians, in order; the reference is apart.
  unfoldable pub fast_ports : List (ℕ × g.Float) → List (ℕ × g.Float)
  fast_ports medians =
      if ltb (length medians) 3 || g.float_ltb (reference medians) (g.float_of_nat 20)
      then []
      else sort_by (λ e f. ltb e.0 f.0) (filter (λ e. is_fast (reference medians) e.1) medians)

  unfoldable pub is_proxied : RuleCtx g → String → Bool
  is_proxied rc subject = ltb 0 (
      length (
        filter (λ v. str_eq v.kind "transparent_proxy_suspected" && str_eq v.subject subject)
          rc.verdicts))

  unfoldable pub synack_verdict :
      RuleCtx g → List (ℕ × List (Arg g)) → g.Float → ℕ × g.Float → Verdict g
  synack_verdict rc suspects ref e =
      let subject = port_key g "tcp" e.0 in
      verdict g "synack_local_termination_suspected" subject
        (if has (find e.0 suspects) || is_proxied rc subject then medium else low)
        (formatted "median connect on %s is %.1f ms; on the other TCP ports %.1f ms (ratio %.2f)"
            (text subject ∷ float e.1 ∷ float ref ∷ float (g.float_div e.1 ref) ∷ [])
          ∷ (option_or (find e.0 suspects) [] (λ s. formatted rtt_format s ∷ [])
              ++ ((if is_proxied rc subject
                    then said g
                        "transparent_proxy_suspected on the same port: the opaque payloads that the proxy cannot parse are the ones that never come back"
                      ∷ []
                    else [])
                  ++ (said g
                        "a SYN-ACK from a middlebox: transparent proxy / split-TCP; pcap with TTL would confirm"
                      ∷ []))))

  -- The suspects of tcp.rtt that no other port confirms, in the order of the attempts where the code
  -- has the order of a map.
  unfoldable pub signal_verdicts : List (ℕ × g.Float) → ℕ × List (Arg g) → List (Verdict g)
  signal_verdicts fast e =
      if has (find e.0 fast)
      then []
      else verdict g "synack_spoof_signal" (port_key g "tcp" e.0) low (
          formatted (text_append rtt_format "; no cross-port confirmation; needs pcap/TTL") e.1
          ∷ [])
        ∷ []

  -- `ruleSynAck`
  unfoldable pub synack_verdicts : RuleCtx g → List (Verdict g)
  synack_verdicts rc =
      let suspects = rtt_suspects [] rc.attempts in
      let medians = connect_medians rc.attempts [] rc.attempts in
      let fast = fast_ports medians in
      map (synack_verdict rc suspects (reference medians)) fast
      ++ concat_map (signal_verdicts fast) suspects

  unfoldable pub rule_synack : RuleCtx g → RuleCtx g
  rule_synack rc = add_all g (synack_verdicts rc) rc
