-- ===== src/Classify/Transient/Passing.antt =====
-- internal/classify/transient.go: what the two flags leave alone.
use censor_pulse_cli.Classify.Aggregate.{aggregate}
use censor_pulse_cli.Common.{
  nat_eq, string_key, All, All-append, Bool, Bool-cases, List, Memᴰ, [], arith, concat_map, false,
  if_lem, inl, inr, leb, map, refl, str_eq, str_eq_iff, suc, true, zero, ℕ, ◌&&◌, ◌*◌, ◌+◌, ◌-◌,
  ◌<◌, ◌==◌, ◌||◌, ◌∷◌, ◌≡◌, ◌≢◌, ◌≤◌,
}
use censor_pulse_cli.Client.Merge.{Runtime, Attempt}
use censor_pulse_cli.Classify.Cells.{Cell, measured, passes}
use censor_pulse_cli.Classify.Cells.Keys.{key, cell_key}
use censor_pulse_cli.Classify.Rules.Connect.{sort_by, insert_by}
use censor_pulse_cli.Classify.Outages.{Marked, flagged}
use censor_pulse_cli.Classify.Transient.Spans.{IsInBurst, bursts-IsBurst, concat-IsInBurst}
use censor_pulse_cli.Classify.Transient.{
  bursts, Placed, is_burst, is_candidate, transient_span, widest, within, bursts_of,
  candidates_from, flag_at, flag_transient, is_placed, is_in_passing,
}

module _ {κ} {A : Type 0} (P : A → Type κ) (lt_test : A → A → Bool) where
  insert_by-All : (x : A) (xs : List A) → P x → All P xs → All P (insert_by lt_test x xs)
  unfolding insert_by
  insert_by-All x [] p h = (p, tt)
  insert_by-All x (y ∷ ys) p h =
      if_lem (All P) (lt_test y x) (y ∷ insert_by lt_test x ys) (x ∷ y ∷ ys)
        (λ _. (h.0, insert_by-All x ys p h.1)) (λ _. (p, h))

  pub sort_by-All : (xs : List A) → All P xs → All P (sort_by lt_test xs)
  unfolding sort_by
  sort_by-All [] h = tt
  sort_by-All (x ∷ xs) h = insert_by-All x (sort_by lt_test xs) h.0 (sort_by-All xs h.1)

module _ (g : Runtime) where
  module _ {κ} (P : Placed g → Type κ) where
    within-All : (t : ℕ) (ps : List (Placed g)) → All P ps → All P (within g t ps)
    unfolding within
    within-All t [] h = tt
    within-All t (p ∷ ps) h =
        if_lem (All P) (leb (p.1.started_at - t) transient_span) (p ∷ within g t ps) []
          (λ _. (h.0, within-All t ps h.1)) (λ _. tt)

    bursts-All : (n : ℕ) (ps : List (Placed g)) → All P ps → All (All P) (bursts g n ps)
    unfolding bursts
    bursts-All n [] h = tt
    bursts-All (suc n) (p ∷ ps) h = bursts-All n ps h.1
    bursts-All zero (p ∷ ps) h =
        All-append (All P) _ _
          (if_lem (All (All P)) (is_burst g (widest g p ps)) (widest g p ps ∷ []) []
            (λ _. ((h.0, within-All p.1.started_at ps h.1), tt)) (λ _. tt))
          (bursts-All _ ps h.1)

    concat-All :
        (wins : List (List (Placed g))) → All (All P) wins → All P (concat_map (λ w. w) wins)
    concat-All [] h = tt
    concat-All (w ∷ wins) h = All-append P w (concat_map (λ w. w) wins) h.0 (concat-All wins h.1)

  -- The attempt at place j of a list that starts at place i is a candidate.
  unfoldable candidate_at : List Cell → ℕ → List (Marked g) → ℕ → Bool
  candidate_at cells i [] j = false
  candidate_at cells i (x ∷ xs) j =
      (i == j && is_candidate g cells x) || candidate_at cells (i + 1) xs j

  module _ (cells : List Cell) where
    candidate_at_bound :
        (i : ℕ) (xs : List (Marked g)) (j : ℕ) → candidate_at cells i xs j ≡ true → i ≤ j
    unfolding candidate_at
    candidate_at_bound i [] j h = absurd (ground (arith, h))
    candidate_at_bound i (x ∷ xs) j h = ground (arith, h, candidate_at_bound (i + 1) xs j)

    abbrev IsPlace : ℕ → List (Marked g) → Placed g → Type 0
    IsPlace i xs p = candidate_at cells i xs p.0 ≡ true

    weaken :
        (i : ℕ) (x : Marked g) (xs : List (Marked g)) (ps : List (Placed g))
        → All (IsPlace (i + 1) xs) ps
        → All (IsPlace i (x ∷ xs)) ps
    unfolding candidate_at
    weaken i x xs [] h = tt
    weaken i x xs (p ∷ ps) h = (ground (arith, h.0), weaken i x xs ps h.1)

    candidates_from-IsPlace :
        (i : ℕ) (xs : List (Marked g)) → All (IsPlace i xs) (candidates_from g cells i xs)
    unfolding candidates_from candidate_at
    candidates_from-IsPlace i [] = tt
    candidates_from-IsPlace i (x ∷ xs) =
        All-append (IsPlace i (x ∷ xs)) _ (candidates_from g cells (i + 1) xs)
          (if_lem (All (IsPlace i (x ∷ xs))) (is_candidate g cells x) ((i, x.0) ∷ []) []
            (λ t. (ground (arith, t), tt)) (λ _. tt))
          (weaken i x xs _ (candidates_from-IsPlace (i + 1) xs))

    is_placed-IsPlace :
        (i : ℕ) (xs : List (Marked g)) (ps : List (Placed g)) (j : ℕ)
        → All (IsPlace i xs) ps
        → is_placed g j ps ≡ true
        → candidate_at cells i xs j ≡ true
    is_placed-IsPlace i xs [] j h t = absurd (ground (arith, t))
    is_placed-IsPlace i xs (p ∷ ps) j h t = ground (arith, h.0, t, is_placed-IsPlace i xs ps j h.1)

    -- An attempt that may be flagged: it failed, of the network and not of the host or the server, it
    -- started, no outage of the host took it down, and more than half of the measured attempts of its
    -- cell were successful.
    pub record IsSuspect (x : Marked g) : Type 0 where
      pub failed : (x.0.merged ≢ "ok") × (x.0.outcome ≢ "ok")
      pub conclusive : (x.0.outcome ≢ "inconclusive") × (x.0.outcome ≢ "server_error")
      pub started : x.0.started_at ≢ 0
      pub not_cut : x.1 ≡ false
      pub cell : Cell
      pub in_cells : Memᴰ cell cells
      pub same_key : key g cell ≡ cell_key g x.0.test_id x.0.transport x.0.dst_port x.0.variant
      pub more_passed : cell.total - cell.unmeasured < cell.ok_count * 2
      pub some_measured : 0 < cell.total - cell.unmeasured

    -- What the flag does, from a place on: an attempt stays, or it is flagged, may be, and stands at a
    -- place of a burst.
    pub data Flags (wins : List (List (Placed g)))
        : ℕ → List (Marked g) → List (Attempt g) → Type 0 where
      done : {i : ℕ} → Flags wins i [] []
      kept :
          {i j : ℕ} {x : Marked g} {xs : List (Marked g)} {ys : List (Attempt g)}
          → j ≡ i + 1
          → Flags wins j xs ys
          → Flags wins i (x ∷ xs) (x.0 ∷ ys)
      cut :
          {i j : ℕ} {x : Marked g} {xs : List (Marked g)} {ys : List (Attempt g)}
          → j ≡ i + 1
          → IsSuspect x
          → IsInBurst g wins i
          → Flags wins j xs ys
          → Flags wins i (x ∷ xs) (flagged g x.0 ∷ ys)

    is_in_passing-cell :
        (cs : List Cell) (a : Attempt g)
        → is_in_passing g cs a ≡ true
        → (c : Cell) × Memᴰ c cs
          × (passes c ≡ true)
          × (str_eq (key g c) (cell_key g a.test_id a.transport a.dst_port a.variant) ≡ true)
    unfolding is_in_passing
    is_in_passing-cell [] a h = absurd (ground (arith, h))
    is_in_passing-cell (c ∷ cs) a h =
        elim (Bool-cases
          (passes c && str_eq (key g c) (cell_key g a.test_id a.transport a.dst_port a.variant))) [
            | inl t ↦ (c, Memᴰ.head refl, ground (arith, t), ground (arith, t))
            | inr t ↦
                let found = is_in_passing-cell cs a (ground (arith, h, t)) in
                (found.0, Memᴰ.tail found.1, found.2, found.3)
          ]

    is_candidate-IsSuspect : (x : Marked g) → is_candidate g cells x ≡ true → IsSuspect x
    unfolding is_candidate passes measured
    is_candidate-IsSuspect x h =
        let found = is_in_passing-cell cells x.0 (ground (arith, h)) in
        record {
          failed = (
            λ e. ground (arith, h, (str_eq_iff x.0.merged "ok").1 e),
            λ e. ground (arith, h, (str_eq_iff x.0.outcome "ok").1 e),
          );
          conclusive = (
            λ e. ground (arith, h, (str_eq_iff x.0.outcome "inconclusive").1 e),
            λ e. ground (arith, h, (str_eq_iff x.0.outcome "server_error").1 e),
          );
          started = λ e. ground (arith, h);
          not_cut = ground (arith, h);
          cell = found.0;
          in_cells = found.1;
          same_key = (str_eq_iff (key g found.0) _).0 found.3;
          more_passed = ground (arith, found.2);
          some_measured = ground (arith, found.2);
        }

    flag_at-Flags :
        (wins : List (List (Placed g))) (i : ℕ) (ps : List (Placed g)) (xs : List (Marked g))
        → ((j : ℕ) → i ≤ j → is_placed g j ps ≡ true → candidate_at cells i xs j ≡ true)
        → ((j : ℕ) → is_placed g j ps ≡ true → IsInBurst g wins j)
        → Flags wins i xs (flag_at g i ps xs)
    unfolding flag_at candidate_at
    flag_at-Flags wins i ps [] h k = Flags.done
    flag_at-Flags wins i ps (x ∷ xs) h k =
        let rest =
          flag_at-Flags wins (i + 1) ps xs (λ j b t. ground (arith, b, h j (omega arith) t)) k in
        if_lem (λ y. Flags wins i (x ∷ xs) (y ∷ flag_at g (i + 1) ps xs)) (is_placed g i ps)
          (flagged g x.0) x.0
          (λ t.
            Flags.cut refl
              (is_candidate-IsSuspect x
                (ground (arith, h i (omega arith) t, candidate_at_bound (i + 1) xs i)))
              (k i t) rest)
          (λ _. Flags.kept refl rest)

  -- The cells that are built before any burst is flagged.
  abbrev pub cells_before : List (Marked g) → List Cell
  cells_before xs = aggregate g (map (λ x. x.0) xs)

  -- `flagTransient` changes an attempt only by the flag of a transient in its detail. It flags only an
  -- attempt that started, failed with a conclusive result that is not the server's error, was not taken
  -- down by an outage of the host, and has the key of one of the cells that are built before, in which
  -- more than half of the measured attempts were successful; and which stands in a burst: of six
  -- attempts at least, on three ports at least, that all start within 20 seconds of the first of them.
  pub flag_transient-Flags :
      (xs : List (Marked g)) → Flags (cells_before xs) (bursts_of g xs) 0 xs (flag_transient g xs).1
  unfolding flag_transient bursts_of
  flag_transient-Flags xs =
      let cells = cells_before xs in
      let P = IsPlace cells 0 xs in
      flag_at-Flags cells _ 0 _ xs
        (λ j _ t.
          is_placed-IsPlace cells 0 xs _ j
            (concat-All P _
              (bursts-All P 0 _ (sort_by-All P _ _ (candidates_from-IsPlace cells 0 xs))))
            t)
        (λ j t. concat-IsInBurst g _ j (bursts-IsBurst g 0 _) t)
