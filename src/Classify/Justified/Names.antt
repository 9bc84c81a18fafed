-- ===== src/Classify/Justified/Names.antt =====
-- internal/classify/rules_path.go: what stands behind the verdicts of rules 7 and 8.
use censor_pulse_cli.Common.{
  nat_eq, All, All-append, List, Memᴰ, Option, String, [], find, if_lem, inl, inr, leb, not, suc,
  zero, ℕ, ◌++◌, ◌==◌, ◌||◌, ◌∷◌, ◌≢◌,
}
use censor_pulse_cli.Client.Merge.{Runtime, one_of}
use censor_pulse_cli.Classify.Cells.{Cell, high, low, medium}
use censor_pulse_cli.Classify.Rules.{Verdict, Evidence, RuleCtx, Arg}
use censor_pulse_cli.Classify.Rules.Paths.{
  modification_verdict, attach_at, is_counted_cell, modification_merges, note_cells, note_result,
  note_results, rtt_suspects, signal_verdicts, synack_verdict, synack_verdicts, has,
}
use censor_pulse_cli.Classify.Justified.{
  IsJustified, concat_map-All, low_not_high, map-All, medium_not_high, option_or_lem,
}

mem_append_left : {A : Type 0} (x : A) (xs ys : List A) → Memᴰ x xs → Memᴰ x (xs ++ ys)
mem_append_left x [] ys m = elim m [ ]
mem_append_left x (y ∷ xs) ys (Memᴰ.head e) = Memᴰ.head e
mem_append_left x (y ∷ xs) ys (Memᴰ.tail m) = Memᴰ.tail (mem_append_left x xs ys m)

module _ (g : Runtime) (cells : List Cell) where
  abbrev OfCells : Verdict g → Type 0
  OfCells = IsJustified g cells

  -- A line at the end of the evidence takes nothing away.
  extended-IsJustified :
      (v : Verdict g) (e : Evidence g)
      → OfCells v
      → OfCells (record v { evidence = v.evidence ++ (e ∷ []) })
  extended-IsJustified v e (inl h) = inl h
  extended-IsJustified v e (inr d) = inr (record {
    subject_cell = d.subject_cell;
    control = d.control;
    is_subject = d.is_subject;
    is_control = d.is_control;
    subject_blocked = d.subject_blocked;
    control_passes = d.control_passes;
    subject_named = (d.subject_named.0, mem_append_left _ v.evidence _ d.subject_named.1);
    control_named = (d.control_named.0, mem_append_left _ v.evidence _ d.control_named.1);
  })

  attach_at-IsJustified :
      (i : ℕ) (e : Evidence g) (vs : List (Verdict g))
      → All OfCells vs
      → All OfCells (attach_at g i e vs)
  unfolding attach_at
  attach_at-IsJustified i e [] h = tt
  attach_at-IsJustified zero e (v ∷ vs) h = (extended-IsJustified v e h.0, h.1)
  attach_at-IsJustified (suc i) e (v ∷ vs) h = (h.0, attach_at-IsJustified i e vs h.1)

  modification_verdict-IsJustified :
      (c : Cell) (merged : String) (n : ℕ) → OfCells (modification_verdict g c merged n)
  unfolding modification_verdict
  modification_verdict-IsJustified c merged n =
      inl (if_lem (λ l. l ≢ high) (leb 2 n) medium low (λ _. medium_not_high) (λ _. low_not_high))

  note_result-IsJustified :
      (c : Cell) (place : Option ℕ) (e : String × ℕ) (vs : List (Verdict g))
      → All OfCells vs
      → All OfCells (note_result g c place e vs)
  unfolding note_result
  note_result-IsJustified c place e vs h =
      if_lem (All OfCells) (e.1 == 0 || not (one_of e.0 modification_merges)) vs _ (λ _. h)
        (λ _.
          option_or_lem (All OfCells) place _ _
            (All-append OfCells vs (modification_verdict g c e.0 e.1 ∷ []) h
              (modification_verdict-IsJustified c e.0 e.1, tt))
            (λ i _. attach_at-IsJustified i _ vs h))

  note_results-IsJustified :
      (c : Cell) (place : Option ℕ) (hist : List (String × ℕ)) (vs : List (Verdict g))
      → All OfCells vs
      → All OfCells (note_results g c place hist vs)
  unfolding note_results
  note_results-IsJustified c place [] vs h = h
  note_results-IsJustified c place (e ∷ hist) vs h =
      note_results-IsJustified c place hist (note_result g c place e vs)
        (note_result-IsJustified c place e vs h)

  pub note_cells-IsJustified :
      (before : List (Verdict g)) (rest : List Cell) (vs : List (Verdict g))
      → All (IsJustified g cells) vs
      → All (IsJustified g cells) (note_cells g before rest vs)
  unfolding note_cells
  note_cells-IsJustified before [] vs h = h
  note_cells-IsJustified before (c ∷ rest) vs h = note_cells-IsJustified before rest _ (
      if_lem (All OfCells) (is_counted_cell g c) vs _ (λ _. h)
        (λ _. note_results-IsJustified c _ _ vs h))

module _ (g : Runtime) (rc : RuleCtx g) where
  abbrev OfScan : Verdict g → Type 0
  OfScan = IsJustified g rc.cells

  signal_verdicts-IsJustified :
      (fast : List (ℕ × g.Float)) (e : ℕ × List (Arg g)) → All OfScan (signal_verdicts g fast e)
  unfolding signal_verdicts
  signal_verdicts-IsJustified fast e =
      if_lem (All OfScan) (has (find e.0 fast)) [] _ (λ _. tt) (λ _. (inl low_not_high, tt))

  pub synack_verdicts-IsJustified : All (IsJustified g rc.cells) (synack_verdicts g rc)
  unfolding synack_verdicts synack_verdict
  synack_verdicts-IsJustified =
      All-append OfScan _ _
        (map-All OfScan _ _ (λ e _.
          inl (if_lem (λ l. l ≢ high) _ medium low (λ _. medium_not_high) (λ _. low_not_high))))
        (concat_map-All OfScan _ (rtt_suspects g [] rc.attempts)
          (λ e _. signal_verdicts-IsJustified _ e))
