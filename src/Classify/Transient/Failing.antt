-- ===== src/Classify/Transient/Failing.antt =====
-- internal/classify/transient.go: an attempt that passed is never flagged, by either flag.
use censor_pulse_cli.Common.{
  string_key, Bool-cases, List, [], ap, arith, false, if_lem, inl, inr, ltb, map, refl, str_eq_iff,
  true, ℕ, ◌∙◌, ◌∷◌, ◌≡◌, ◌⊎◌,
}
use censor_pulse_cli.Client.Merge.{Runtime, Attempt}
use censor_pulse_cli.Classify.Cells.{Cell}
use censor_pulse_cli.Classify.Outages.{
  Marked, flagged, Outage, first_start, flag_local_outage, flag_outages, is_cut, is_ok, local_min,
  mark_cut,
}
use censor_pulse_cli.Classify.Transient.{Placed, flag_outages_of}
use censor_pulse_cli.Classify.Transient.Passing.{Flags, IsSuspect, flag_transient-Flags}

-- Two lists of one length, related place by place.
pub data Pairwise {A B : Type 0} (S : A → B → Type 0) : List A → List B → Type 0 where
  done : Pairwise S [] []
  next :
      {x : A} {y : B} {xs : List A} {ys : List B}
      → S x y
      → Pairwise S xs ys
      → Pairwise S (x ∷ xs) (y ∷ ys)

module _ (g : Runtime) where
  -- An attempt stays as it is, or it failed and is flagged.
  abbrev pub IsSpared : Attempt g → Attempt g → Type 0
  IsSpared a b = (b ≡ a) ⊎ ((b ≡ flagged g a) × (is_ok g a ≡ false))

  abbrev IsMarked : Attempt g → Marked g → Type 0
  IsMarked a x = (x ≡ (a, false)) ⊎ ((x ≡ (flagged g a, true)) × (is_ok g a ≡ false))

  mark_cut-IsMarked :
      (o : Outage) (a : Attempt g) (x : Marked g) → IsMarked a x → IsMarked a (mark_cut g o x)
  unfolding mark_cut is_cut
  mark_cut-IsMarked o a x (inl e) =
      if_lem (IsMarked a) (is_cut g o x) (flagged g x.0, true) x
        (λ t. inr (ap (λ y. (flagged g y.0, true)) e, ground (arith, t, ap (λ y. is_ok g y.0) e)))
        (λ _. inl e)
  mark_cut-IsMarked o a x (inr (e, f)) =
      if_lem (IsMarked a) (is_cut g o x) (flagged g x.0, true) x
        (λ t. absurd (ground (arith, t, ap (λ y. y.1) e))) (λ _. inr (e, f))

  map-Pairwise :
      (f : Marked g → Marked g) (before : List (Attempt g)) (xs : List (Marked g))
      → ((a : Attempt g) (x : Marked g) → IsMarked a x → IsMarked a (f x))
      → Pairwise IsMarked before xs
      → Pairwise IsMarked before (map f xs)
  map-Pairwise f _ _ h Pairwise.done = Pairwise.done
  map-Pairwise f _ _ h (Pairwise.next s r) = Pairwise.next (h _ _ s) (map-Pairwise f _ _ h r)

  flag_outages-IsMarked :
      (t0 : ℕ) (os : List Outage) (before : List (Attempt g)) (xs : List (Marked g))
      → Pairwise IsMarked before xs
      → Pairwise IsMarked before (flag_outages g t0 os xs).1
  unfolding flag_outages
  flag_outages-IsMarked t0 [] before xs h = h
  flag_outages-IsMarked t0 (o ∷ os) before xs h = flag_outages-IsMarked t0 os before _ (
      if_lem (Pairwise IsMarked before) (ltb o.size local_min) xs (map (mark_cut g o) xs) (λ _. h)
        (λ _. map-Pairwise (mark_cut g o) before xs (mark_cut-IsMarked o) h))

  unmarked : (before : List (Attempt g)) → Pairwise IsMarked before (map (λ a. (a, false)) before)
  unmarked [] = Pairwise.done
  unmarked (a ∷ before) = Pairwise.next (inl refl) (unmarked before)

  cut-IsSpared :
      (cells : List Cell) (a : Attempt g) (x : Marked g)
      → IsMarked a x
      → IsSuspect g cells x
      → IsSpared a (flagged g x.0)
  cut-IsSpared cells a x (inl e) t = inr (ap (λ y. flagged g y.0) e, not_ok)
    where
      not_ok : is_ok g a ≡ false
      not_ok = elim (Bool-cases (is_ok g a)) [
        | inl fine ↦
            absurd (
              t.failed.1
                (ap (λ (y : Marked g). y.0.outcome) e ∙ (str_eq_iff a.outcome "ok").0 fine))
        | inr bad ↦ bad
      ]
  cut-IsSpared cells a x (inr (e, f)) t = absurd (ground (arith, t.not_cut, ap (λ y. y.1) e))

  kept-IsSpared : (a : Attempt g) (x : Marked g) → IsMarked a x → IsSpared a x.0
  kept-IsSpared a x (inl e) = inl (ap (λ y. y.0) e)
  kept-IsSpared a x (inr (e, f)) = inr (ap (λ y. y.0) e, f)

  spared :
      (cells : List Cell) (wins : List (List (Placed g))) (before : List (Attempt g))
      (xs : List (Marked g)) (ys : List (Attempt g)) (i : ℕ)
      → Pairwise IsMarked before xs
      → Flags g cells wins i xs ys
      → Pairwise IsSpared before ys
  spared cells wins _ _ _ _ Pairwise.done Flags.done = Pairwise.done
  spared cells wins _ _ _ _ (Pairwise.next s r) (Flags.kept e f) =
      Pairwise.next (kept-IsSpared _ _ s) (spared cells wins _ _ _ _ r f)
  spared cells wins _ _ _ _ (Pairwise.next s r) (Flags.cut e t u f) =
      Pairwise.next (cut-IsSpared cells _ _ s t) (spared cells wins _ _ _ _ r f)

  -- What the classifier reads after the flags of outages is, place by place, the attempts of the scan:
  -- an attempt that passed is as it was, and one that failed may have the flag of a transient in its
  -- detail.
  pub flag_outages_of-IsSpared :
      (attempts : List (Attempt g)) → Pairwise IsSpared attempts (flag_outages_of g attempts).1
  unfolding flag_outages_of flag_local_outage
  flag_outages_of-IsSpared attempts =
      spared _ _ attempts _ _ 0
        (flag_outages-IsMarked (first_start g 0 attempts) _ attempts _ (unmarked attempts))
        (flag_transient-Flags g (flag_local_outage g attempts).1)
