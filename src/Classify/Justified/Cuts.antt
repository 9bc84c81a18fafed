-- ===== src/Classify/Justified/Cuts.antt =====
-- internal/classify/rules_flow.go: what stands behind the verdicts of rules 5b and 5c.
use censor_pulse_cli.Common.{
  All, Bool-cases, List, Memᴰ, Option, [], arith, concat_map, false, if_lem, inl, inr, leb, ltb,
  none, not, refl, some, str_eq, true, ◌&&◌, ◌*◌, ◌++◌, ◌==◌, ◌||◌, ◌∷◌, ◌≡◌, ◌≢◌,
}
use censor_pulse_cli.Client.Merge.{Runtime}
use censor_pulse_cli.Classify.Cells.{
  Cell, passes, fails, handshake_cell, medium, low, echo_test_for, measured, count_at,
  handshake_test_of, high,
}
use censor_pulse_cli.Classify.Rules.{RuleCtx, Verdict, find_in, verdict}
use censor_pulse_cli.Classify.Rules.Flows.{
  bulk_verdicts, bulk_verdict_of, packet_verdict_of, packet_verdicts,
}
use censor_pulse_cli.Classify.Rules.Flows.Bursts.{
  burst_verdicts, burst_confidence, burst_evidence, outer_lines, own_confidence, parrot_lines,
}
use censor_pulse_cli.Classify.Rules.Flows.Sessions.{
  session_verdicts, is_repeated, plain_baselines, session_evidence, session_verdict_of,
}
use censor_pulse_cli.Classify.Justified.{
  IsJustified, justify, IsFrom, fails-passes, find_cell-IsFrom, first_or_lem, handshake_cell-IsFrom,
  low_not_high, medium_not_high, option_or_lem,
}
use censor_pulse_cli.Classify.Cells.Keys.{key}

mem_append_right : {A : Type 0} (x : A) (xs ys : List A) → Memᴰ x ys → Memᴰ x (xs ++ ys)
mem_append_right x [] ys m = m
mem_append_right x (y ∷ xs) ys m = Memᴰ.tail (mem_append_right x xs ys m)

module _ (g : Runtime) (rc : RuleCtx g) where
  abbrev OfCells : Verdict g → Type 0
  OfCells = IsJustified g rc.cells

  bulk_verdict_of-IsJustified :
      (c : Cell) (o : Option Cell)
      → Memᴰ c rc.cells
      → fails c ≡ true
      → IsFrom rc.cells o
      → All OfCells (bulk_verdict_of g rc c o)
  unfolding bulk_verdict_of
  bulk_verdict_of-IsJustified c none mc fc h = tt
  bulk_verdict_of-IsJustified c (some short) mc fc h =
      if_lem (All OfCells) (passes short) _ []
        (λ t. (
          justify g rc.cells _ c short "" "short exchange on the same port passed: " mc
              (h short refl) (fails-passes c fc) t (Memᴰ.head refl)
              (Memᴰ.tail (Memᴰ.tail (Memᴰ.head refl))),
          tt,
        ))
        (λ _. tt)

  pub bulk_verdicts-IsJustified :
      (c : Cell) → Memᴰ c rc.cells → All (IsJustified g rc.cells) (bulk_verdicts g rc c)
  unfolding bulk_verdicts
  bulk_verdicts-IsJustified c mc =
      if_lem (All OfCells) (str_eq c.test_id "tcp.bulk" && fails c) _ []
        (λ t.
          bulk_verdict_of-IsJustified c _ mc (ground (arith, t))
            (find_cell-IsFrom rc.cells "tcp.echo" c.transport c.port ""))
        (λ _. tt)

  packet_verdict_of-IsJustified :
      (c : Cell) (o : Option Cell)
      → Memᴰ c rc.cells
      → fails c ≡ true
      → IsFrom rc.cells o
      → All OfCells (packet_verdict_of g rc c o)
  unfolding packet_verdict_of
  packet_verdict_of-IsJustified c none mc fc h = tt
  packet_verdict_of-IsJustified c (some echo) mc fc h =
      if_lem (All OfCells) (passes echo) _ []
        (λ t. (
          justify g rc.cells _ c echo "" "one-packet echo on the same port passed: " mc
              (h echo refl) (fails-passes c fc) t (Memᴰ.head refl) (Memᴰ.tail (Memᴰ.head refl)),
          tt,
        ))
        (λ _. tt)

  pub packet_verdicts-IsJustified :
      (c : Cell) → Memᴰ c rc.cells → All (IsJustified g rc.cells) (packet_verdicts g rc c)
  unfolding packet_verdicts
  packet_verdicts-IsJustified c mc =
      if_lem (All OfCells)
        ((str_eq c.test_id "tcp.packets" || str_eq c.test_id "udp.packets") && fails c) _ []
        (λ t.
          packet_verdict_of-IsJustified c _ mc (ground (arith, t))
            (find_cell-IsFrom rc.cells (echo_test_for c.transport) c.transport c.port ""))
        (λ _. tt)

  own_confidence_not_high : (c : Cell) → own_confidence g c ≢ high
  unfolding own_confidence
  own_confidence_not_high c =
      if_lem (λ l. l ≢ high)
        (leb 2 (measured c) && ltb (measured c) (count_at c.outcomes "burst_freeze" * 2)) medium low
        (λ _. medium_not_high) (λ _. low_not_high)

  -- The verdict on a frozen burst, with the outer control that was found.
  abbrev burst_with : Cell → Option Cell → Verdict g
  burst_with c o =
      verdict g "tls_burst_freeze_suspected" (key g c) (burst_confidence g c o)
        (burst_evidence g rc c ++ (outer_lines g o ++ concat_map (parrot_lines g c) rc.cells))

  burst_with-IsJustified :
      (c : Cell) (o : Option Cell)
      → Memᴰ c rc.cells
      → passes c ≡ false
      → IsFrom rc.cells o
      → OfCells (burst_with c o)
  unfolding burst_confidence burst_evidence outer_lines
  burst_with-IsJustified c none mc pc h = inl (own_confidence_not_high c)
  burst_with-IsJustified c (some outer) mc pc h = elim (Bool-cases (passes outer)) [
    | inl t ↦
        justify g rc.cells _ c outer "" "single-handshake baseline on the same port: " mc
          (h outer refl) pc t (Memᴰ.head refl) (Memᴰ.tail (mem_append_right _ _ _ (Memᴰ.head refl)))
    | inr t ↦ inl (rw t (own_confidence_not_high c))
  ]

  pub burst_verdicts-IsJustified :
      (c : Cell) → Memᴰ c rc.cells → All (IsJustified g rc.cells) (burst_verdicts g rc c)
  unfolding burst_verdicts
  burst_verdicts-IsJustified c mc =
      if_lem (All OfCells)
        (not (str_eq c.test_id "tls.burst") || count_at c.outcomes "burst_freeze" == 0 || passes c)
        [] _ (λ _. tt)
        (λ t. (
          burst_with-IsJustified c (find_in g rc "tls.sni" "tcp" c.port "benign") mc
              (ground (arith, t)) (find_cell-IsFrom rc.cells "tls.sni" "tcp" c.port "benign"),
          tt,
        ))

  session_verdict_of-IsJustified :
      (c init : Cell)
      → Memᴰ c rc.cells
      → Memᴰ init rc.cells
      → passes c ≡ false
      → passes init ≡ true
      → OfCells (session_verdict_of g rc c init)
  unfolding session_verdict_of session_evidence
  session_verdict_of-IsJustified c init mc mi pc pi =
      if_lem OfCells (is_repeated g c) _ _
        (λ _.
          first_or_lem OfCells (plain_baselines g rc c) _ _
            (justify g rc.cells _ c init "" "handshake on the same port passed: " mc mi pc pi
              (Memᴰ.head refl) (Memᴰ.tail (Memᴰ.head refl)))
            (λ base _.
              justify g rc.cells _ c init "" "handshake on the same port passed: " mc mi pc pi
                (Memᴰ.head refl) (Memᴰ.tail (Memᴰ.head refl))))
        (λ _.
          justify g rc.cells _ c init "" "handshake on the same port passed: " mc mi pc pi
            (Memᴰ.head refl) (Memᴰ.tail (Memᴰ.head refl)))

  pub session_verdicts-IsJustified :
      (c : Cell) → Memᴰ c rc.cells → All (IsJustified g rc.cells) (session_verdicts g rc c)
  unfolding session_verdicts
  session_verdicts-IsJustified c mc =
      if_lem (All OfCells) (str_eq (handshake_test_of c.test_id) "" || passes c || measured c == 0)
        [] _ (λ _. tt)
        (λ t.
          option_or_lem (All OfCells) (handshake_cell g.trim_suffix rc.cells c) [] _ tt (λ init e.
            if_lem (All OfCells) (passes init) _ []
              (λ pi. (
                session_verdict_of-IsJustified c init mc
                    (handshake_cell-IsFrom g.trim_suffix rc.cells c init e) (ground (arith, t)) pi,
                tt,
              ))
              (λ _. tt)))
