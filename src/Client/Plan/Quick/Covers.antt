-- ===== src/Client/Plan/Quick/Covers.antt =====
-- internal/client/profile.go: every rule of the quick profile that the server can serve at all is served.
use censor_pulse_cli.Client.Merge.{Runtime}
use censor_pulse_cli.Common.{
  Bool, Bool-cases, List, Memᴰ, [], ap, ap₂, arith, false, if_lem, if◌then◌else◌, inl, inr, map,
  refl, subst, sym, true, ◌++◌, ◌||◌, ◌∙◌, ◌∷◌, ◌≡◌,
}
use censor_pulse_cli.Client.Plan.{Plan}
use censor_pulse_cli.Client.Plan.Quick.{
  Kept, is_found, keep_all, QuickRule, fall_back, is_of, keep_first, keep_rule, matches, keep_rules,
  plans_kept, quick_filter, quick_plan, unkept,
}

-- A plan that passes is among the plans, or is kept among them.
abbrev pub IsAmong : (Plan → Bool) → List Plan → Type 0
IsAmong test ps = (p : Plan) × Memᴰ p ps × (test p ≡ true)

abbrev IsIn : (Plan → Bool) → List Kept → Type 0
IsIn test ks = (p : Plan) × (b : Bool) × Memᴰ (p, b) ks × (test p ≡ true)

abbrev IsKept : (Plan → Bool) → List Kept → Type 0
IsKept test ks = (p : Plan) × Memᴰ (p, true) ks × (test p ≡ true)

cons-IsKept :
    (test : Plan → Bool) (k : Kept) (ks : List Kept) → IsKept test ks → IsKept test (k ∷ ks)
cons-IsKept test k ks (p, m, t) = (p, Memᴰ.tail m, t)

-- What is kept stays kept, and what is there stays there.
pub record IsStep (before after : List Kept) : Type 0 where
  stays : (p : Plan) → Memᴰ (p, true) before → Memᴰ (p, true) after
  remains : (p : Plan) (b : Bool) → Memᴰ (p, b) before → (c : Bool) × Memᴰ (p, c) after

keep_all-IsStep : (test : Plan → Bool) (ks : List Kept) → IsStep ks (keep_all test ks)
unfolding keep_all
keep_all-IsStep test ks = record { stays = stays_in ks; remains = remains_in ks }
  where
    stays_in : (ls : List Kept) (p : Plan) → Memᴰ (p, true) ls → Memᴰ (p, true) (keep_all test ls)
    stays_in [] p m = elim m [ ]
    stays_in (k ∷ ls) p (Memᴰ.head e) = Memᴰ.head (ap (λ (x : Kept). (x.0, x.1 || test x.0)) e)
    stays_in (k ∷ ls) p (Memᴰ.tail m) = Memᴰ.tail (stays_in ls p m)

    remains_in :
        (ls : List Kept) (p : Plan) (b : Bool)
        → Memᴰ (p, b) ls
        → (c : Bool) × Memᴰ (p, c) (keep_all test ls)
    remains_in [] p b m = elim m [ ]
    remains_in (k ∷ ls) p b (Memᴰ.head e) =
        (b || test p, Memᴰ.head (ap (λ (x : Kept). (x.0, x.1 || test x.0)) e))
    remains_in (k ∷ ls) p b (Memᴰ.tail m) = let r = remains_in ls p b m in (r.0, Memᴰ.tail r.1)

keep_all-IsKept :
    (test : Plan → Bool) (ks : List Kept) → is_found test ks ≡ true → IsKept test (keep_all test ks)
unfolding keep_all is_found
keep_all-IsKept test [] h = absurd (ground (arith, h))
keep_all-IsKept test (k ∷ ks) h = elim (Bool-cases (test k.0)) [
  | inl t ↦ (k.0, Memᴰ.head (ap (λ b. (k.0, b)) (ground (arith, t))), t)
  | inr t ↦ cons-IsKept test _ _ (keep_all-IsKept test ks (ground (arith, h, t)))
]

cons-IsStep :
    (k l : Kept) (ks ls : List Kept)
    → k.0 ≡ l.0
    → (k.1 ≡ true → l.1 ≡ true)
    → IsStep ks ls
    → IsStep (k ∷ ks) (l ∷ ls)
cons-IsStep k l ks ls e f s = record { stays = stays_in; remains = remains_in }
  where
    same : (p : Plan) → (p, true) ≡ k → (p, true) ≡ l
    same p h =
        ap₂ (λ (q : Plan) (b : Bool). (q, b)) (ap (λ (x : Kept). x.0) h ∙ e)
          (sym (f (sym (ap (λ (x : Kept). x.1) h))))

    stays_in : (p : Plan) → Memᴰ (p, true) (k ∷ ks) → Memᴰ (p, true) (l ∷ ls)
    stays_in p (Memᴰ.head h) = Memᴰ.head (same p h)
    stays_in p (Memᴰ.tail m) = Memᴰ.tail (s.stays p m)

    remains_in : (p : Plan) (b : Bool) → Memᴰ (p, b) (k ∷ ks) → (c : Bool) × Memᴰ (p, c) (l ∷ ls)
    remains_in p b (Memᴰ.head h) =
        (l.1, Memᴰ.head (ap (λ (q : Plan). (q, l.1)) (ap (λ (x : Kept). x.0) h ∙ e)))
    remains_in p b (Memᴰ.tail m) = let r = s.remains p b m in (r.0, Memᴰ.tail r.1)

same-IsStep : (ks : List Kept) → IsStep ks ks
same-IsStep ks = record { stays = λ p m. m; remains = λ p b m. (b, m) }

keep_first-IsStep : (test : Plan → Bool) (ks : List Kept) → IsStep ks (keep_first test ks)
unfolding keep_first
keep_first-IsStep test [] = same-IsStep []
keep_first-IsStep test (k ∷ ks) =
    let rest = keep_first-IsStep test ks in
    if_lem (IsStep (k ∷ ks)) (test k.0) ((k.0, true) ∷ ks) (k ∷ keep_first test ks)
      (λ _. cons-IsStep k (k.0, true) ks ks refl (λ _. refl) (same-IsStep ks))
      (λ _. cons-IsStep k k ks (keep_first test ks) refl (λ t. t) rest)

keep_first-IsKept :
    (test : Plan → Bool) (ks : List Kept)
    → is_found test ks ≡ true
    → IsKept test (keep_first test ks)
unfolding keep_first is_found
keep_first-IsKept test [] h = absurd (ground (arith, h))
keep_first-IsKept test (k ∷ ks) h =
    let rest = keep_first-IsKept test ks in
    if_lem (IsKept test) (test k.0) ((k.0, true) ∷ ks) (k ∷ keep_first test ks)
      (λ t. (k.0, Memᴰ.head refl, t)) (λ t. cons-IsKept test k _ (rest (ground (arith, h, t))))

is_found-IsIn : (test : Plan → Bool) (ks : List Kept) → IsIn test ks → is_found test ks ≡ true
unfolding is_found
is_found-IsIn test [] (p, b, m, t) = elim m [ ]
is_found-IsIn test (k ∷ ks) (p, b, Memᴰ.head e, t) =
    ground (arith, t, ap (λ (x : Kept). test x.0) e)
is_found-IsIn test (k ∷ ks) (p, b, Memᴰ.tail m, t) =
    ground (arith, is_found-IsIn test ks (p, b, m, t))

weaken-IsKept :
    (test other : Plan → Bool) (ks : List Kept)
    → ((p : Plan) → test p ≡ true → other p ≡ true)
    → IsKept test ks
    → IsKept other ks
weaken-IsKept test other ks f (p, m, t) = (p, m, f p t)

module _ (g : Runtime) where
  is_of_match :
      (port variant : Bool) (r : QuickRule) (p : Plan)
      → matches g port variant r p ≡ true
      → is_of r p ≡ true
  unfolding matches
  is_of_match port variant r p h = ground (arith, h)

  any_match :
      (r : QuickRule) (ks : List Kept) → IsIn (is_of r) ks → IsIn (matches g false false r) ks
  unfolding matches
  any_match r ks (p, b, m, t) = (p, b, m, ground (arith, t))

  keep_rule-IsStep : (r : QuickRule) (ks : List Kept) → IsStep ks (keep_rule g r ks)
  unfolding keep_rule fall_back
  keep_rule-IsStep r ks =
      if_lem (IsStep ks) (is_found (matches g true true r) ks) _ _
        (λ _. keep_all-IsStep (matches g true true r) ks)
        (λ _.
          if_lem (IsStep ks) (is_found (matches g false true r) ks) _ _
            (λ _. keep_first-IsStep (matches g false true r) ks)
            (λ _.
              if_lem (IsStep ks) (is_found (matches g true false r) ks) _ _
                (λ _. keep_first-IsStep (matches g true false r) ks)
                (λ _. keep_first-IsStep (matches g false false r) ks)))

  -- A rule keeps a plan of its test and transport, where there is one.
  keep_rule-IsKept :
      (r : QuickRule) (ks : List Kept) → IsIn (is_of r) ks → IsKept (is_of r) (keep_rule g r ks)
  unfolding keep_rule fall_back
  keep_rule-IsKept r ks h =
      let by = λ (port variant : Bool) (ls : List Kept).
        weaken-IsKept (matches g port variant r) (is_of r) ls (is_of_match port variant r) in
      if_lem (IsKept (is_of r)) (is_found (matches g true true r) ks) _ _
        (λ t. by true true _ (keep_all-IsKept (matches g true true r) ks t))
        (λ _.
          if_lem (IsKept (is_of r)) (is_found (matches g false true r) ks) _ _
            (λ t. by false true _ (keep_first-IsKept (matches g false true r) ks t))
            (λ _.
              if_lem (IsKept (is_of r)) (is_found (matches g true false r) ks) _ _
                (λ t. by true false _ (keep_first-IsKept (matches g true false r) ks t))
                (λ _. by false false _ (
                  keep_first-IsKept (matches g false false r) ks
                    (is_found-IsIn (matches g false false r) ks (any_match r ks h))))))

  keep_rules-stays :
      (rs : List QuickRule) (ks : List Kept) (p : Plan)
      → Memᴰ (p, true) ks
      → Memᴰ (p, true) (keep_rules g rs ks)
  unfolding keep_rules
  keep_rules-stays [] ks p m = m
  keep_rules-stays (r ∷ rs) ks p m =
      keep_rules-stays rs (keep_rule g r ks) p ((keep_rule-IsStep r ks).stays p m)

  keep_rules-IsKept :
      (rs : List QuickRule) (ks : List Kept) (r : QuickRule)
      → Memᴰ r rs
      → IsIn (is_of r) ks
      → IsKept (is_of r) (keep_rules g rs ks)
  unfolding keep_rules
  keep_rules-IsKept [] ks r m h = elim m [ ]
  keep_rules-IsKept (q ∷ rs) ks r (Memᴰ.head e) h =
      let k = keep_rule-IsKept q ks (subst (λ (x : QuickRule). IsIn (is_of x) ks) e h) in
      (
        k.0,
        keep_rules-stays rs (keep_rule g q ks) k.0 k.1,
        subst (λ (x : QuickRule). is_of x k.0 ≡ true) (sym e) k.2,
      )
  keep_rules-IsKept (q ∷ rs) ks r (Memᴰ.tail m) (p, b, n, t) =
      let c = (keep_rule-IsStep q ks).remains p b n in
      keep_rules-IsKept rs (keep_rule g q ks) r m (p, c.0, c.1, t)

  mem_kept : (p : Plan) (ks : List Kept) → Memᴰ (p, true) ks → Memᴰ p (plans_kept ks)
  unfolding plans_kept
  mem_kept p [] m = elim m [ ]
  mem_kept p (k ∷ ks) (Memᴰ.head e) =
      subst (λ (x : Kept). Memᴰ p ((if x.1 then x.0 ∷ [] else []) ++ plans_kept ks)) e
        (Memᴰ.head refl)
  mem_kept p (k ∷ ks) (Memᴰ.tail m) =
      let rest = mem_kept p ks m in
      if_lem (λ ls. Memᴰ p (ls ++ plans_kept ks)) k.1 (k.0 ∷ []) [] (λ _. Memᴰ.tail rest)
        (λ _. rest)

  mem_unkept : (p : Plan) (ps : List Plan) → Memᴰ p ps → Memᴰ (unkept p) (map unkept ps)
  mem_unkept p [] m = elim m [ ]
  mem_unkept p (q ∷ ps) (Memᴰ.head e) = Memᴰ.head (ap unkept e)
  mem_unkept p (q ∷ ps) (Memᴰ.tail m) = Memᴰ.tail (mem_unkept p ps m)

  -- Every rule of the quick profile for whose test and transport the catalogue has a plan at all has a
  -- plan of that test and transport among those that the filter keeps.
  pub quick_filter-covers :
      (plans : List Plan) (r : QuickRule)
      → Memᴰ r quick_plan
      → IsAmong (is_of r) plans
      → IsAmong (is_of r) (quick_filter g plans)
  unfolding quick_filter
  quick_filter-covers plans r m (p, n, t) =
      let ks = map unkept plans in
      let k = keep_rules-IsKept quick_plan ks r m (p, false, mem_unkept p plans n, t) in
      (k.0, mem_kept k.0 (keep_rules g quick_plan ks) k.1, k.2)
