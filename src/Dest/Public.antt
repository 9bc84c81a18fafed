-- ===== src/Dest/Public.antt =====
-- internal/dest/dest.go: the addresses that are probed are public ones, and any public one is enough.
use censor_pulse_cli.Common.{
  All, All-append, All-filter, Bool, Bool-cases, List, Memᴰ, Option, [], ap, arith, false, filter,
  if_lem, inl, inr, none, not, refl, some, true, ◌++◌, ◌∷◌, ◌≡◌, ◌≢◌, ◌⊎◌,
}
use censor_pulse_cli.Dest.{
  Addresses, is_one_of, is_skipped, unique_from, View, is_bogon, is_bogon_plain, or_system,
  prioritize, probe_addrs, public_of, unique, usable_of,
}

module _ {A : Type 0} where
  mem_filter_in :
      (p : A → Bool) (x : A) (xs : List A) → Memᴰ x xs → p x ≡ true → Memᴰ x (filter p xs)
  mem_filter_in p x [] m t = elim m [ ]
  mem_filter_in p x (y ∷ ys) (Memᴰ.head e) t =
      if_lem (λ zs. Memᴰ x zs) (p y) (y ∷ filter p ys) (filter p ys) (λ _. Memᴰ.head e)
        (λ f. absurd (ground (arith, f, t, ap p e)))
  mem_filter_in p x (y ∷ ys) (Memᴰ.tail m) t =
      let rest = mem_filter_in p x ys m t in
      if_lem (λ zs. Memᴰ x zs) (p y) (y ∷ filter p ys) (filter p ys) (λ _. Memᴰ.tail rest)
        (λ _. rest)

  mem_left : (x : A) (xs ys : List A) → Memᴰ x xs → Memᴰ x (xs ++ ys)
  mem_left x [] ys m = elim m [ ]
  mem_left x (y ∷ xs) ys (Memᴰ.head e) = Memᴰ.head e
  mem_left x (y ∷ xs) ys (Memᴰ.tail m) = Memᴰ.tail (mem_left x xs ys m)

  mem_right : (x : A) (xs ys : List A) → Memᴰ x ys → Memᴰ x (xs ++ ys)
  mem_right x [] ys m = m
  mem_right x (y ∷ xs) ys m = Memᴰ.tail (mem_right x xs ys m)

  filter-All : (p : A → Bool) (xs : List A) → All (λ x. p x ≡ true) (filter p xs)
  filter-All p [] = tt
  filter-All p (x ∷ xs) =
      let rest = filter-All p xs in
      if_lem (All (λ y. p y ≡ true)) (p x) (x ∷ filter p xs) (filter p xs) (λ t. (t, rest))
        (λ _. rest)

  mem_nonempty : (x : A) (xs : List A) → Memᴰ x xs → xs ≢ []
  mem_nonempty x [] m e = elim m [ ]
  mem_nonempty x (y ∷ xs) m e = cc

module _ (n : Addresses) where
  -- The host can connect to an address.
  abbrev pub is_usable : Option (n.Addr → Bool) → n.Addr → Bool
  is_usable none ip = true
  is_usable (some usable) ip = usable ip

  unique_from_mem :
      (seen ips : List n.Addr) (ip : n.Addr)
      → Memᴰ ip ips
      → n.is_valid (n.unmap ip) ≡ true
      → (is_one_of n (n.unmap ip) seen ≡ true) ⊎ Memᴰ (n.unmap ip) (unique_from n seen ips)
  unfolding unique_from is_one_of
  unique_from_mem seen [] ip m v = elim m [ ]
  unique_from_mem seen (x ∷ ips) ip (Memᴰ.head e) v =
      elim (Bool-cases (is_one_of n (n.unmap ip) seen)) [
        | inl t ↦ inl t
        | inr f ↦ inr (
            mem_left (n.unmap ip) _ _ (
              if_lem (λ zs. Memᴰ (n.unmap ip) zs) (is_skipped n seen (n.unmap x)) []
                (n.unmap x ∷ [])
                (λ t. absurd (
                  ground (
                    arith,
                    t,
                    f,
                    v,
                    ap (λ y. is_one_of n (n.unmap y) seen) e,
                    ap (λ y. n.is_valid (n.unmap y)) e,
                  )))
                (λ _. Memᴰ.head (ap n.unmap e))))
      ]
  unique_from_mem seen (x ∷ ips) ip (Memᴰ.tail m) v =
      elim (Bool-cases (is_skipped n seen (n.unmap x))) [
        | inl t ↦ rw t (unique_from_mem seen ips ip m v)
        | inr f ↦ rw f (here (unique_from_mem (n.unmap x ∷ seen) ips ip m v))
      ]
    where
      here :
          (is_one_of n (n.unmap ip) (n.unmap x ∷ seen) ≡ true)
            ⊎ Memᴰ (n.unmap ip) (unique_from n (n.unmap x ∷ seen) ips)
          → (is_one_of n (n.unmap ip) seen ≡ true)
            ⊎ Memᴰ (n.unmap ip) (n.unmap x ∷ unique_from n (n.unmap x ∷ seen) ips)
      here (inr k) = inr (Memᴰ.tail k)
      here (inl t) = elim (Bool-cases (n.same (n.unmap ip) (n.unmap x))) [
        | inl s ↦ inr (Memᴰ.head ((n.same_iff (n.unmap ip) (n.unmap x)).0 s))
        | inr s ↦ inl (ground (arith, t, s))
      ]

  -- An address that some layer may probe.
  abbrev pub IsGood : Option (n.Addr → Bool) → n.Addr → Type 0
  IsGood usable ip = (is_bogon n ip ≡ false) × (is_usable usable ip ≡ true)

  is_bogon-unmap : (ip : n.Addr) → is_bogon n (n.unmap ip) ≡ is_bogon n ip
  unfolding is_bogon
  is_bogon-unmap ip = ap (is_bogon_plain n) (n.unmap_unmap ip)

  bogon_valid : (ip : n.Addr) → is_bogon n ip ≡ false → n.is_valid (n.unmap ip) ≡ true
  unfolding is_bogon is_bogon_plain
  bogon_valid ip h = ground (arith, h)

  prioritize_mem :
      (ips : List n.Addr) (ip : n.Addr)
      → Memᴰ ip ips
      → is_bogon n ip ≡ false
      → Memᴰ (n.unmap ip) (prioritize n ips)
  unfolding prioritize is_one_of
  prioritize_mem ips ip m h = elim (unique_from_mem [] ips ip m (bogon_valid ip h)) [
    | inl t ↦ absurd (ground (arith, t))
    | inr u ↦
        let p =
          mem_filter_in (λ x. not (is_bogon n x)) (n.unmap ip) (unique n ips) u
            (ground (arith, is_bogon-unmap ip, h)) in
        elim (Bool-cases (n.is_4 (n.unmap ip))) [
          | inl t ↦ mem_left (n.unmap ip) _ _ (mem_filter_in n.is_4 (n.unmap ip) _ p t)
          | inr t ↦
              mem_right (n.unmap ip) _ _
                (mem_filter_in (λ x. not (n.is_4 x)) (n.unmap ip) _ p (ground (arith, t)))
        ]
  ]

  not_bogon : (ip : n.Addr) → not (is_bogon n ip) ≡ true → is_bogon n ip ≡ false
  not_bogon ip h = ground (arith, h)

  public_of-All : (ips : List n.Addr) → All (λ ip. is_bogon n ip ≡ false) (public_of n ips)
  public_of-All [] = tt
  public_of-All (ip ∷ ips) =
      let rest = public_of-All ips in
      if_lem (All (λ x. is_bogon n x ≡ false)) (not (is_bogon n ip)) (ip ∷ public_of n ips)
        (public_of n ips) (λ t. (not_bogon ip t, rest)) (λ _. rest)

  prioritize-All : (ips : List n.Addr) → All (λ ip. is_bogon n ip ≡ false) (prioritize n ips)
  unfolding prioritize
  prioritize-All ips =
      let p = public_of-All (unique n ips) in
      All-append (λ ip. is_bogon n ip ≡ false) _ _
        (All-filter (λ ip. is_bogon n ip ≡ false) n.is_4 _ p)
        (All-filter (λ ip. is_bogon n ip ≡ false) (λ ip. not (n.is_4 ip)) _ p)

  filter-IsGood :
      (usable : n.Addr → Bool) (xs : List n.Addr)
      → All (λ ip. is_bogon n ip ≡ false) xs
      → All (IsGood (some usable)) (filter usable xs)
  filter-IsGood usable [] h = tt
  filter-IsGood usable (x ∷ xs) h =
      let rest = filter-IsGood usable xs h.1 in
      if_lem (All (IsGood (some usable))) (usable x) (x ∷ filter usable xs) (filter usable xs)
        (λ t. ((h.0, t), rest)) (λ _. rest)

  All-IsGood : (xs : List n.Addr) → All (λ ip. is_bogon n ip ≡ false) xs → All (IsGood none) xs
  All-IsGood [] h = tt
  All-IsGood (x ∷ xs) h = ((h.0, refl), All-IsGood xs h.1)

  usable_of-IsGood :
      (usable : Option (n.Addr → Bool)) (ips : List n.Addr)
      → All (IsGood usable) (usable_of n usable (prioritize n ips))
  usable_of-IsGood none ips = All-IsGood (prioritize n ips) (prioritize-All ips)
  usable_of-IsGood (some usable) ips = filter-IsGood usable (prioritize n ips) (prioritize-All ips)

  usable_of_mem :
      (usable : Option (n.Addr → Bool)) (ips : List n.Addr) (ip : n.Addr)
      → Memᴰ ip ips
      → is_bogon n ip ≡ false
      → is_usable usable (n.unmap ip) ≡ true
      → usable_of n usable (prioritize n ips) ≢ []
  usable_of_mem none ips ip m h t = mem_nonempty (n.unmap ip) _ (prioritize_mem ips ip m h)
  usable_of_mem (some usable) ips ip m h t =
      mem_nonempty (n.unmap ip) _
        (mem_filter_in usable (n.unmap ip) _ (prioritize_mem ips ip m h) t)

  or_system-IsGood :
      (usable : Option (n.Addr → Bool)) (xs ys : List n.Addr)
      → All (IsGood usable) xs
      → All (IsGood usable) ys
      → All (IsGood usable) (or_system n xs ys).0
  or_system-IsGood usable [] [] h k = tt
  or_system-IsGood usable [] (y ∷ ys) h k = k
  or_system-IsGood usable (x ∷ xs) ys h k = h

  or_system_nonempty : (xs ys : List n.Addr) → (xs ≢ []) ⊎ (ys ≢ []) → (or_system n xs ys).0 ≢ []
  or_system_nonempty [] [] (inl h) e = h refl
  or_system_nonempty [] [] (inr h) e = h refl
  or_system_nonempty [] (y ∷ ys) h e = cc
  or_system_nonempty (x ∷ xs) ys h e = cc

  -- Where either view holds an address that is no bogon, and that the host can connect to once it is
  -- unmapped, `ProbeAddrs` gives some address, and only addresses that are no bogons and that the host can
  -- connect to.
  pub probe_addrs-IsGood :
      (sys trusted : View n) (usable : Option (n.Addr → Bool)) (ip : n.Addr)
      → Memᴰ ip sys.ips ⊎ Memᴰ ip trusted.ips
      → is_bogon n ip ≡ false
      → is_usable usable (n.unmap ip) ≡ true
      → All (IsGood usable) (probe_addrs n sys trusted usable).0
        × ((probe_addrs n sys trusted usable).0 ≢ [])
  unfolding probe_addrs
  probe_addrs-IsGood sys trusted usable ip m h t =
      let xs = usable_of n usable (prioritize n trusted.ips) in
      let ys = usable_of n usable (prioritize n sys.ips) in
      (
        or_system-IsGood usable xs ys (usable_of-IsGood usable trusted.ips)
            (usable_of-IsGood usable sys.ips),
        or_system_nonempty xs ys (elim m [
          | inl k ↦ inr (usable_of_mem usable sys.ips ip k h t)
          | inr k ↦ inl (usable_of_mem usable trusted.ips ip k h t)
        ]),
      )
