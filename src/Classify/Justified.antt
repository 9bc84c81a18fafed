-- ===== src/Classify/Justified.antt =====
-- internal/classify: what stands behind a verdict, and the lemmas on the shapes of the rules.
pub mod Baselines
pub mod Families
pub mod Cuts
pub mod Names
pub mod Resolvers
use censor_pulse_cli.Common.{
  All, All-append, Bool, Bool-cases, List, Memᴰ, Option, String, [], ap, arith, concat_map, false,
  filter, if_lem, if◌then◌else◌, inl, inr, map, none, refl, some, str_eq, sym, true, ℕ, ◌∙◌, ◌∷◌,
  ◌≡◌, ◌≢◌, ◌⊎◌,
}
use censor_pulse_cli.Client.Merge.{Runtime}
use censor_pulse_cli.Classify.Cells.{
  Cell, high, passes, fails, find_cell, is_cell, handshake_cell, confidence, handshake_test_of,
  or_next, handshake_variant_of, low, medium,
}
use censor_pulse_cli.Classify.Rules.{Verdict, line, first_or, option_or}

-- The evidence names a cell that does not pass and a control that passes, both of the scan.
pub record Differential (g : Runtime) (cells : List Cell) (v : Verdict g) : Type 0 where
  pub subject_cell : Cell
  pub control : Cell
  pub is_subject : Memᴰ subject_cell cells
  pub is_control : Memᴰ control cells
  pub subject_blocked : passes subject_cell ≡ false
  pub control_passes : passes control ≡ true
  pub subject_named : (s : String) × Memᴰ (line s subject_cell) v.evidence
  pub control_named : (s : String) × Memᴰ (line s control) v.evidence

-- A verdict of high confidence is a differential.
abbrev pub IsJustified : (g : Runtime) → List Cell → Verdict g → Type 0
IsJustified g cells v = (v.confidence ≢ high) ⊎ Differential g cells v

pub fails-passes : (c : Cell) → fails c ≡ true → passes c ≡ false
unfolding fails passes
fails-passes c h = ground (arith, h)

module _ {κ} {A B : Type 0} where
  pub first_or_lem :
      (P : B → Type κ) (xs : List A) (d : B) (f : A → B)
      → P d
      → ((x : A) → Memᴰ x xs → P (f x))
      → P (first_or xs d f)
  first_or_lem P [] d f h k = h
  first_or_lem P (x ∷ xs) d f h k = k x (Memᴰ.head refl)

  pub option_or_lem :
      (P : B → Type κ) (o : Option A) (d : B) (f : A → B)
      → P d
      → ((x : A) → o ≡ some x → P (f x))
      → P (option_or o d f)
  option_or_lem P none d f h k = h
  option_or_lem P (some x) d f h k = k x refl

  pub concat_map-All :
      (Q : B → Type κ) (f : A → List B) (xs : List A)
      → ((x : A) → Memᴰ x xs → All Q (f x))
      → All Q (concat_map f xs)
  concat_map-All Q f [] h = tt
  concat_map-All Q f (x ∷ xs) h =
      All-append Q (f x) (concat_map f xs) (h x (Memᴰ.head refl))
        (concat_map-All Q f xs (λ y m. h y (Memᴰ.tail m)))

  pub map-All :
      (Q : B → Type κ) (f : A → B) (xs : List A)
      → ((x : A) → Memᴰ x xs → Q (f x))
      → All Q (map f xs)
  map-All Q f [] h = tt
  map-All Q f (x ∷ xs) h = (h x (Memᴰ.head refl), map-All Q f xs (λ y m. h y (Memᴰ.tail m)))

module _ {A : Type 0} where
  pub mem_filter :
      (p : A → Bool) (x : A) (xs : List A) → Memᴰ x (filter p xs) → Memᴰ x xs × (p x ≡ true)
  mem_filter p x [] m = elim m [ ]
  mem_filter p x (y ∷ ys) m = go (p y) refl (λ n. mem_filter p x ys n) m
    where
      go :
          (b : Bool)
          → p y ≡ b
          → (Memᴰ x (filter p ys) → Memᴰ x ys × (p x ≡ true))
          → Memᴰ x (if b then y ∷ filter p ys else filter p ys)
          → Memᴰ x (y ∷ ys) × (p x ≡ true)
      go true t ih (Memᴰ.head e) = (Memᴰ.head e, ap p e ∙ t)
      go true t ih (Memᴰ.tail n) = (Memᴰ.tail (ih n).0, (ih n).1)
      go false t ih n = (Memᴰ.tail (ih n).0, (ih n).1)

pub some_path : (x y : Cell) → some x ≡ some y → x ≡ y
some_path x y h = cc

-- What is found is one of the cells.
abbrev pub IsFrom : List Cell → Option Cell → Type 0
IsFrom cells o = (c : Cell) → o ≡ some c → Memᴰ c cells

pub find_cell-IsFrom :
    (cells : List Cell) (test transport : String) (port : ℕ) (variant : String)
    → IsFrom cells (find_cell cells test transport port variant)
unfolding find_cell
find_cell-IsFrom [] test transport port variant c e = absurd (ground (arith, e))
find_cell-IsFrom (d ∷ cells) test transport port variant c e =
    elim (Bool-cases (is_cell test transport port variant d)) [
      | inl t ↦ Memᴰ.head (some_path c d (sym (rw t at e)))
      | inr t ↦ Memᴰ.tail (find_cell-IsFrom cells test transport port variant c (rw t at e))
    ]

or_next-IsFrom :
    (cells : List Cell) (o next : Option Cell)
    → IsFrom cells o
    → IsFrom cells next
    → IsFrom cells (or_next o next)
or_next-IsFrom cells none next h k = k
or_next-IsFrom cells (some d) next h k = h

pub handshake_cell-IsFrom :
    (trim : String → String → String) (cells : List Cell) (c : Cell)
    → IsFrom cells (handshake_cell trim cells c)
unfolding handshake_cell
handshake_cell-IsFrom trim cells c =
    let hs = handshake_test_of c.test_id in
    if_lem (IsFrom cells) (str_eq hs "") none
      (or_next (find_cell cells hs c.transport c.port (handshake_variant_of trim c.variant)) (
        or_next (find_cell cells hs c.transport c.port c.variant)
          (find_cell cells hs c.transport c.port "")))
      (λ t d e. absurd (ground (arith, e)))
      (λ t.
        or_next-IsFrom cells
          (find_cell cells hs c.transport c.port (handshake_variant_of trim c.variant))
          (or_next (find_cell cells hs c.transport c.port c.variant)
            (find_cell cells hs c.transport c.port ""))
          (find_cell-IsFrom cells hs c.transport c.port (handshake_variant_of trim c.variant))
          (or_next-IsFrom cells (find_cell cells hs c.transport c.port c.variant)
            (find_cell cells hs c.transport c.port "")
            (find_cell-IsFrom cells hs c.transport c.port c.variant)
            (find_cell-IsFrom cells hs c.transport c.port "")))

pub medium_not_high : medium ≢ high
medium_not_high e = cc

pub low_not_high : low ≢ high
low_not_high e = cc

-- A verdict whose evidence has a line on a cell that does not pass and one on a control that does.
pub justify :
    (g : Runtime) (cells : List Cell) (v : Verdict g) (c control : Cell) (s t : String)
    → Memᴰ c cells
    → Memᴰ control cells
    → passes c ≡ false
    → passes control ≡ true
    → Memᴰ (line s c) v.evidence
    → Memᴰ (line t control) v.evidence
    → IsJustified g cells v
justify g cells v c control s t mc mp hc hp lc lp = inr (record {
  subject_cell = c;
  control = control;
  is_subject = mc;
  is_control = mp;
  subject_blocked = hc;
  control_passes = hp;
  subject_named = (s, lc);
  control_named = (t, lp);
})
