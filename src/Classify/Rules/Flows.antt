-- ===== src/Classify/Rules/Flows.antt =====
-- internal/classify/rules_flow.go: rules 5b to 5c, the flows that start and then stop. Their evidence
-- is read from the attempts behind a cell.
pub mod Bursts
pub mod Sessions
use censor_pulse_cli.Common.{
  Bool, List, Option, [], concat_map, false, filter, if◌then◌else◌, none, not, some, str_eq, true,
  ◌&&◌, ◌++◌, ◌==◌, ◌||◌, ◌∷◌,
}
use censor_pulse_cli.Client.Merge.{Runtime, Attempt}
use censor_pulse_cli.Classify.Cells.{Cell, passes, fails, confidence, echo_test_for}
use censor_pulse_cli.Classify.Cells.Keys.{key}
use censor_pulse_cli.Classify.Rules.{
  RuleCtx, line, formatted, integer, find_in, Evidence, Verdict, add_all, said, verdict,
}
use censor_pulse_cli.Classify.Rules.Connect.{median, detail_ints}

module _ (g : Runtime) where
  -- `cellAttempts`
  unfoldable pub cell_attempts : RuleCtx g → Cell → (Attempt g → Bool) → List (Attempt g)
  cell_attempts rc c also =
      filter
        (λ a.
          str_eq a.test_id c.test_id
          && a.dst_port == c.port
          && str_eq a.variant c.variant
          && also a)
        rc.attempts

  -- len(v) > 0
  abbrev pub is_any : {A : Type 0} → List A → Bool
  is_any [] = false
  is_any (x ∷ xs) = true

  -- What `ruleBulkCut` says of a failing long transfer, next to the short exchange of its port.
  unfoldable pub bulk_verdict_of : RuleCtx g → Cell → Option Cell → List (Verdict g)
  bulk_verdict_of rc c none = []
  bulk_verdict_of rc c (some short) =
      let offsets = detail_ints g (cell_attempts rc c (λ a. true)) ("bulk_cut_kb" ∷ []) in
      if passes short
      then verdict g
          (if g.contains c.variant "trigger:" || g.contains c.variant "list:"
            then "sni_bulk_cut_suspected"
            else "bulk_transfer_cut_suspected")
          (key g c) (confidence c short)
          (line "" c
            ∷ (if is_any offsets
                then formatted "transfer stopped at ~%d KB" (integer (median offsets) ∷ [])
                else said g "transfer stopped at unknown")
            ∷ line "short exchange on the same port passed: " short
            ∷ [])
        ∷ []
      else []

  unfoldable pub bulk_verdicts : RuleCtx g → Cell → List (Verdict g)
  bulk_verdicts rc c =
      if str_eq c.test_id "tcp.bulk" && fails c
      then bulk_verdict_of rc c (find_in g rc "tcp.echo" c.transport c.port "")
      else []

  -- `ruleBulkCut`
  unfoldable pub rule_bulk_cut : RuleCtx g → RuleCtx g
  rule_bulk_cut rc = add_all g (concat_map (bulk_verdicts rc) rc.cells) rc

  -- The counts of packets before the cut.
  unfoldable pub packet_lines : Cell → List (Attempt g) → List (Evidence g)
  packet_lines c failed =
      let sent = detail_ints g failed ("packets_sent" ∷ []) in
      let acked = detail_ints g failed ("packets_acked" ∷ []) in
      let planned = detail_ints g failed ("packets_planned" ∷ []) in
      if str_eq c.transport "udp" && is_any acked
      then formatted "datagrams answered before the cut: median %d of %d"
          (integer (median acked) ∷ integer (median planned) ∷ [])
        ∷ []
      else if is_any sent
      then formatted "segments written: median %d of %d; the reply never came"
          (integer (median sent) ∷ integer (median planned) ∷ [])
        ∷ []
      else []

  abbrev pub is_bulk_on : Cell → Cell → Bool
  is_bulk_on c o = str_eq o.test_id "tcp.bulk" && o.port == c.port

  -- The cross-check with the long transfers on the port.
  unfoldable pub bulk_lines : RuleCtx g → Cell → List (Evidence g)
  bulk_lines rc c =
      if not (str_eq c.transport "tcp")
      then []
      else if is_any (filter (λ o. is_bulk_on c o && fails o) rc.cells)
      then said g
          "tcp.bulk on the same port was cut as well: the limit is consistent with a per-flow packet count (about 16 KB of 4 KB chunks is also ~25 packets)"
        ∷ []
      else if is_any (filter (λ o. is_bulk_on c o && not (fails o) && passes o) rc.cells)
      then said g
          "tcp.bulk (tens of KB in 4 KB chunks) passed on the same port: only a flow of many small packets trips it"
        ∷ []
      else []

  -- What `rulePacketCut` says of a failing flow of packets, next to the echo of its port.
  unfoldable pub packet_verdict_of : RuleCtx g → Cell → Option Cell → List (Verdict g)
  packet_verdict_of rc c none = []
  packet_verdict_of rc c (some echo) =
      if passes echo
      then verdict g "packet_count_cut_suspected" (key g c) (confidence c echo) (
          line "" c
          ∷ line "one-packet echo on the same port passed: " echo
          ∷ (packet_lines c (cell_attempts rc c (λ a. not (str_eq a.outcome "ok")))
              ++ bulk_lines rc c))
        ∷ []
      else []

  unfoldable pub packet_verdicts : RuleCtx g → Cell → List (Verdict g)
  packet_verdicts rc c =
      if (str_eq c.test_id "tcp.packets" || str_eq c.test_id "udp.packets") && fails c
      then packet_verdict_of rc c (find_in g rc (echo_test_for c.transport) c.transport c.port "")
      else []

  -- `rulePacketCut`
  unfoldable pub rule_packet_cut : RuleCtx g → RuleCtx g
  rule_packet_cut rc = add_all g (concat_map (packet_verdicts rc) rc.cells) rc
