-- ===== src/Dest/Cases.antt =====
-- internal/dest/dest.go: what the counts and the tests of `Compare` say of the addresses of two views.
use censor_pulse_cli.Common.{
  string_key, All, Bool, Bool-cases, List, Memᴰ, [], arith, false, filter, if◌then◌else◌, inl, inr,
  length, ltb, map, not, refl, sym, true, ◌&&◌, ◌==◌, ◌∙◌, ◌∷◌, ◌≡◌, ◌≢◌, ◌⊎◌,
}
use censor_pulse_cli.Dest.{
  Addresses, count_public, has_family, intersects, is_bogon, is_one_of, shares_family,
}

module _ {A : Type 0} where
  -- What the count of a loop says of the elements.
  pub data Filtered (p : A → Bool) (xs : List A) : Type 0 where
    found : (x : A) → Memᴰ x xs → p x ≡ true → ltb 0 (length (filter p xs)) ≡ true → Filtered p xs
    absent : All (λ x. p x ≡ false) xs → ltb 0 (length (filter p xs)) ≡ false → Filtered p xs

  pub filtered : (p : A → Bool) (xs : List A) → Filtered p xs
  filtered p [] = absent tt refl
  filtered p (x ∷ xs) = elim (Bool-cases (p x)) [
    | inl t ↦ found x (Memᴰ.head refl) t (rw t (ground arith))
    | inr f ↦ elim (filtered p xs) [
      | found y m t e ↦ found y (Memᴰ.tail m) t (rw f e)
      | absent a e ↦ absent (f, a) (rw f e)
    ]
  ]

  All-map : (P Q : A → Type 0) → ((x : A) → P x → Q x) → (xs : List A) → All P xs → All Q xs
  All-map P Q h [] a = tt
  All-map P Q h (x ∷ xs) a = (h x a.0, All-map P Q h xs a.1)

  pub All-no_element : (P : A → Type 0) (xs : List A) → (length xs == 0) ≡ true → All P xs
  All-no_element P [] e = tt
  All-no_element P (x ∷ xs) e = absurd (ground (arith, e))

  pub mem_some : (xs : List A) → ltb 0 (length xs) ≡ true → (x : A) × Memᴰ x xs
  mem_some [] e = absurd (ground (arith, e))
  mem_some (x ∷ xs) e = (x, Memᴰ.head refl)

module _ (n : Addresses) where
  -- A public address of a list.
  abbrev pub HasPublic : List n.Addr → Type 0
  HasPublic xs = (x : n.Addr) × Memᴰ x xs × (is_bogon n x ≡ false)

  abbrev pub NonePublic : List n.Addr → Type 0
  NonePublic xs = All (λ x. is_bogon n x ≡ true) xs

  -- No public address of a list is of a family, IPv4 for true.
  abbrev pub NoneOf : Bool → List n.Addr → Type 0
  NoneOf b xs = All (λ x. (is_bogon n x ≡ true) ⊎ (n.is_4 (n.unmap x) ≡ not b)) xs

  -- An address of each list, which are the same when they are unmapped.
  abbrev pub Shared : List n.Addr → List n.Addr → Type 0
  Shared xs ys = (x : n.Addr) × (y : n.Addr) × Memᴰ x xs × Memᴰ y ys × (n.unmap x ≡ n.unmap y)

  abbrev pub Apart : List n.Addr → List n.Addr → Type 0
  Apart xs ys = All (λ x. All (λ y. n.unmap x ≢ n.unmap y) ys) xs

  -- Two public addresses of one family.
  abbrev pub Comparable : List n.Addr → List n.Addr → Type 0
  Comparable xs ys =
      (x : n.Addr) × (y : n.Addr) × Memᴰ x xs
      × Memᴰ y ys
      × (is_bogon n x ≡ false)
      × (is_bogon n y ≡ false)
      × (n.is_4 (n.unmap x) ≡ n.is_4 (n.unmap y))

  module _ (xs : List n.Addr) where
    pub public_case :
        (HasPublic xs × (ltb 0 (count_public n xs) ≡ true))
        ⊎ (NonePublic xs × (ltb 0 (count_public n xs) ≡ false))
    public_case = elim (filtered (λ ip. not (is_bogon n ip)) xs) [
      | found x m t e ↦ inl ((x, m, ground (arith, t)), e)
      | absent a e ↦ inr (All-map _ _ (λ x h. ground (arith, h)) xs a, e)
    ]

    family_case :
        (b : Bool)
        → ((x : n.Addr) × Memᴰ x xs
            × (is_bogon n x ≡ false)
            × (n.is_4 (n.unmap x) ≡ b)
            × (has_family n b xs ≡ true))
          ⊎ (NoneOf b xs × (has_family n b xs ≡ false))
    family_case b = elim (filtered _ xs) [
      | found x m t e ↦ inl (x, m, ground (arith, t), ground (arith, t), e)
      | absent a e ↦ inr (All-map _ _ (λ x h. other x h) xs a, e)
    ]
      where
        other :
            (x : n.Addr)
            → (not (is_bogon n x) && (if n.is_4 (n.unmap x) then b else not b)) ≡ false
            → (is_bogon n x ≡ true) ⊎ (n.is_4 (n.unmap x) ≡ not b)
        other x h = elim (Bool-cases (is_bogon n x)) [
          | inl t ↦ inl t
          | inr f ↦ inr (ground (arith, h, f))
        ]

  is_one_of_case :
      (x : n.Addr) (ys : List n.Addr)
      → ((y : n.Addr) × Memᴰ y ys
          × (n.unmap x ≡ n.unmap y)
          × (is_one_of n (n.unmap x) (map n.unmap ys) ≡ true))
        ⊎ (All (λ y. n.unmap x ≢ n.unmap y) ys × (is_one_of n (n.unmap x) (map n.unmap ys) ≡ false))
  unfolding is_one_of
  is_one_of_case x [] = inr (tt, refl)
  is_one_of_case x (y ∷ ys) = elim (Bool-cases (n.same (n.unmap x) (n.unmap y))) [
    | inl t ↦ inl (y, Memᴰ.head refl, (n.same_iff (n.unmap x) (n.unmap y)).0 t, rw t refl)
    | inr f ↦ elim (is_one_of_case x ys) [
      | inl (z, m, same, e) ↦ inl (z, Memᴰ.tail m, same, rw f e)
      | inr (a, e) ↦ inr ((apart f, a), rw f e)
    ]
  ]
    where
      apart : n.same (n.unmap x) (n.unmap y) ≡ false → n.unmap x ≢ n.unmap y
      apart f e = ground (arith, f, (n.same_iff (n.unmap x) (n.unmap y)).1 e)

  pub intersects_case :
      (xs ys : List n.Addr)
      → (Shared xs ys × (intersects n xs ys ≡ true)) ⊎ (Apart xs ys × (intersects n xs ys ≡ false))
  unfolding intersects
  intersects_case [] ys = inr (tt, refl)
  intersects_case (x ∷ xs) ys = elim (is_one_of_case x ys) [
    | inl (y, m, same, e) ↦ inl ((x, y, Memᴰ.head refl, m, same), rw e refl)
    | inr (a, e) ↦ elim (intersects_case xs ys) [
      | inl ((z, y, mz, my, same), f) ↦ inl ((z, y, Memᴰ.tail mz, my, same), rw e f)
      | inr (b, f) ↦ inr ((a, b), rw e f)
    ]
  ]

  pub shares_family_case :
      (xs ys : List n.Addr)
      → (Comparable xs ys × (shares_family n xs ys ≡ true))
        ⊎ (((b : Bool) → NoneOf b xs ⊎ NoneOf b ys) × (shares_family n xs ys ≡ false))
  unfolding shares_family
  shares_family_case xs ys = elim (both true) [
    | inl (c, e) ↦ inl (c, rw e refl)
    | inr (a, e) ↦ elim (both false) [
      | inl (c, f) ↦ inl (c, rw (e, f) refl)
      | inr (b, f) ↦ inr (split a b, rw (e, f) refl)
    ]
  ]
    where
      split :
          (NoneOf true xs ⊎ NoneOf true ys)
          → (NoneOf false xs ⊎ NoneOf false ys)
          → (b : Bool) → NoneOf b xs ⊎ NoneOf b ys
      split p q true = p
      split p q false = q

      both :
          (b : Bool)
          → (Comparable xs ys × ((has_family n b xs && has_family n b ys) ≡ true))
            ⊎ ((NoneOf b xs ⊎ NoneOf b ys) × ((has_family n b xs && has_family n b ys) ≡ false))
      both b = elim (family_case xs b) [
        | inr (a, e) ↦ inr (inl a, rw e refl)
        | inl (x, mx, px, fx, e) ↦ elim (family_case ys b) [
          | inr (a, f) ↦ inr (inr a, rw (e, f) refl)
          | inl (y, my, py, fy, f) ↦ inl ((x, y, mx, my, px, py, fx ∙ sym fy), rw (e, f) refl)
        ]
      ]
