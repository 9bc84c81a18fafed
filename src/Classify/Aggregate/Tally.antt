-- ===== src/Classify/Aggregate/Tally.antt =====
-- internal/classify/classify.go: what the cells count, against a count over the attempts.
use censor_pulse_cli.Client.Observe.Counts.{count_up_lem}
use censor_pulse_cli.Common.{
  string_key, Bool, Bool-cases, List, Option, String, [], ap, arith, filter, find, find-put, inl,
  inr, length, length-filter_cons, none, not, one_if, refl, some, str_eq, str_eq_iff, true, ℕ, ◌&&◌,
  ◌+◌, ◌∙◌, ◌∷◌, ◌≡◌,
}
use censor_pulse_cli.Client.Merge.{Runtime, Attempt}
use censor_pulse_cli.Client.Observe.{count_of, count_up}
use censor_pulse_cli.Classify.Cells.{Cell, count_at}
use censor_pulse_cli.Classify.Aggregate.{
  add_attempt, cell_or_new, count_attempt, count_result, group_from, group_key, is_left_out,
  is_some, is_unmeasured, new_cell,
}

module _ (g : Runtime) where
  -- The attempts of one cell.
  abbrev pub is_kept : String → Attempt g → Bool
  is_kept k a = not (is_left_out g a) && str_eq (group_key g a) k

  -- A count of a cell, none of a cell that is not there.
  abbrev pub read : (Cell → ℕ) → Option Cell → ℕ
  read count none = 0
  read count (some c) = count c

  -- A count that starts at none and goes up with the attempts that pass a test.
  pub record IsCount (count : Cell → ℕ) (test : Attempt g → Bool) : Type 0 where
    pub starts : (a : Attempt g) → count (new_cell g a) ≡ 0
    pub steps : (a : Attempt g) (c : Cell) → count (count_attempt g a c) ≡ count c + one_if (test a)

  module _ (count : Cell → ℕ) (test : Attempt g → Bool) (v : IsCount count test) where
    read_or_new : (a : Attempt g) (o : Option Cell) → count (cell_or_new g a o) ≡ read count o
    read_or_new a none = v.starts a
    read_or_new a (some c) = refl

    read-add_attempt :
        (k : String) (a : Attempt g) (m : List (String × Cell))
        → read count (find k (add_attempt g a m))
          ≡ read count (find k m) + one_if (is_kept k a && test a)
    unfolding add_attempt
    read-add_attempt k a m = elim (Bool-cases (is_left_out g a)) [
      | inl t ↦ rw t (omega arith)
      | inr t ↦ rw t (elim (Bool-cases (str_eq (group_key g a) k)) [
        | inl u ↦
            rw
              (
                find-put (group_key g a) k
                    (count_attempt g a (cell_or_new g a (find (group_key g a) m))) m,
                u,
              )
              (v.steps a (cell_or_new g a (find (group_key g a) m))
                ∙ ap (λ (n : ℕ). n + one_if (test a))
                    (read_or_new a (find (group_key g a) m)
                      ∙ ap (λ j. read count (find j m)) ((str_eq_iff (group_key g a) k).0 u)))
        | inr u ↦
            rw
              (
                find-put (group_key g a) k
                    (count_attempt g a (cell_or_new g a (find (group_key g a) m))) m,
                u,
              )
              (omega arith)
      ])
    ]

    read-group_from :
        (k : String) (attempts : List (Attempt g)) (m : List (String × Cell))
        → read count (find k (group_from g m attempts))
          ≡ read count (find k m) + length (filter (λ a. is_kept k a && test a) attempts)
    unfolding group_from
    read-group_from k [] m = omega arith
    read-group_from k (a ∷ attempts) m =
        read-group_from k attempts (add_attempt g a m)
        ∙ ap (λ (n : ℕ). n + length (filter (λ b. is_kept k b && test b) attempts))
            (read-add_attempt k a m)
        ∙ omega (arith, length-filter_cons (λ b. is_kept k b && test b) a attempts)

  abbrev histogram_at : String → Cell → ℕ
  histogram_at s c = count_of (find s c.outcomes)

  total-IsCount : IsCount (λ c. c.total) (λ a. true)
  unfolding new_cell count_attempt count_result
  total-IsCount = record { starts = λ a. refl; steps = λ a c. ground arith }

  unmeasured-IsCount : IsCount (λ c. c.unmeasured) (is_unmeasured g)
  unfolding new_cell count_attempt count_result
  unmeasured-IsCount = record { starts = λ a. refl; steps = λ a c. ground arith }

  ok_count-IsCount :
      IsCount (λ c. c.ok_count) (λ a. not (is_unmeasured g a) && str_eq a.outcome "ok")
  unfolding new_cell count_attempt count_result
  ok_count-IsCount = record { starts = λ a. refl; steps = λ a c. ground arith }

  server_saw-IsCount : IsCount (λ c. c.server_saw) (λ a. is_some a.server)
  unfolding new_cell count_attempt count_result
  server_saw-IsCount = record { starts = λ a. refl; steps = λ a c. ground arith }

  outcomes-count_attempt :
      (a : Attempt g) (c : Cell) → (count_attempt g a c).outcomes ≡ count_up a.outcome c.outcomes
  unfolding count_attempt count_result
  outcomes-count_attempt a c = ground arith

  merged-count_attempt :
      (a : Attempt g) (c : Cell) → (count_attempt g a c).merged ≡ count_up a.merged c.merged
  unfolding count_attempt count_result
  merged-count_attempt a c = ground arith

  outcomes-IsCount : (s : String) → IsCount (λ c. count_at c.outcomes s) (λ a. str_eq a.outcome s)
  unfolding new_cell count_at find
  outcomes-IsCount s = record {
    starts = λ a. refl;
    steps = λ a c.
        ap (λ h. count_of (find s h)) (outcomes-count_attempt a c)
        ∙ count_up_lem a.outcome s c.outcomes;
  }

  merged-IsCount : (s : String) → IsCount (λ c. count_at c.merged s) (λ a. str_eq a.merged s)
  unfolding new_cell count_at find
  merged-IsCount s = record {
    starts = λ a. refl;
    steps = λ a c.
        ap (λ h. count_of (find s h)) (merged-count_attempt a c) ∙ count_up_lem a.merged s c.merged;
  }

  -- The attempts of a cell that pass a test.
  abbrev pub tally : String → (Attempt g → Bool) → List (Attempt g) → ℕ
  tally k test attempts = length (filter (λ a. is_kept k a && test a) attempts)

  -- What a cell of the group `k` says of the attempts.
  pub record IsTallied (k : String) (attempts : List (Attempt g)) (o : Option Cell) : Type 0 where
    pub all_attempts : read (λ c. c.total) o ≡ tally k (λ a. true) attempts
    pub no_evidence : read (λ c. c.unmeasured) o ≡ tally k (is_unmeasured g) attempts
    pub successes :
        read (λ c. c.ok_count) o
        ≡ tally k (λ a. not (is_unmeasured g a) && str_eq a.outcome "ok") attempts
    pub seen : read (λ c. c.server_saw) o ≡ tally k (λ a. is_some a.server) attempts
    pub by_outcome :
        (s : String)
        → read (λ c. count_at c.outcomes s) o ≡ tally k (λ a. str_eq a.outcome s) attempts
    pub by_result :
        (s : String) → read (λ c. count_at c.merged s) o ≡ tally k (λ a. str_eq a.merged s) attempts

  -- Each cell that `Aggregate` groups holds, for the attempts of its key that are not flagged as
  -- transient or cancelled, their number, the numbers of those that measured nothing, that had
  -- success, and that the server saw, and how often each outcome and each merged result occurs.
  pub group_from-IsTallied :
      (attempts : List (Attempt g)) (k : String)
      → IsTallied k attempts (find k (group_from g [] attempts))
  unfolding find
  group_from-IsTallied attempts k = record {
    all_attempts = read-group_from _ (λ a. true) total-IsCount k attempts [] ∙ omega arith;
    no_evidence =
        read-group_from _ (is_unmeasured g) unmeasured-IsCount k attempts [] ∙ omega arith;
    successes = read-group_from _ _ ok_count-IsCount k attempts [] ∙ omega arith;
    seen = read-group_from _ _ server_saw-IsCount k attempts [] ∙ omega arith;
    by_outcome = λ s. read-group_from _ _ (outcomes-IsCount s) k attempts [] ∙ omega arith;
    by_result = λ s. read-group_from _ _ (merged-IsCount s) k attempts [] ∙ omega arith;
  }
