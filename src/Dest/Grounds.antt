-- ===== src/Dest/Grounds.antt =====
-- internal/dest/dest.go: what a comparison of two resolver views rests on.
use censor_pulse_cli.Common.{
  string_key, Bool, Memᴰ, arith, false, if_lem, if◌then◌else◌, inl, inr, length, ltb, refl, str_eq,
  str_eq_iff, true, ◌&&◌, ◌==◌, ◌≡◌, ◌⊎◌,
}
use censor_pulse_cli.Dest.Cases.{
  HasPublic, NonePublic, NoneOf, Shared, Apart, Comparable, filtered, found, absent, All-no_element,
  mem_some, public_case, intersects_case, shares_family_case,
}
use censor_pulse_cli.Dest.{
  Addresses, Comparison, View, count_public, is_bogon, compare_answers, compare_public, noted,
  tampering, compare_views, count_bogons,
}

module _ (n : Addresses) where
  -- Why a system resolver is not accused.
  pub data Excuse (sys trusted : View n) : Type 0 where
    timed_out : sys.rcode ≡ "TIMEOUT" → Excuse sys trusted
    no_trusted : NonePublic n trusted.ips → Excuse sys trusted
    no_system : NonePublic n sys.ips → Excuse sys trusted
    other_family : ((b : Bool) → NoneOf n b sys.ips ⊎ NoneOf n b trusted.ips) → Excuse sys trusted
    shared : Shared n sys.ips trusted.ips → Excuse sys trusted

  abbrev IsTampering : Comparison → Type 0
  IsTampering c = (c.tampered ≡ true) × (c.disagree ≡ false)

  -- What a comparison rests on.
  pub data Grounds (sys trusted : View n) (c : Comparison) : Type 0 where
    denied :
        sys.rcode ≡ "NXDOMAIN"
        → HasPublic n trusted.ips
        → IsTampering c
        → c.reason ≡ "nxdomain"
        → Grounds sys trusted c
    sunk :
        (x : n.Addr) × Memᴰ x sys.ips × (is_bogon n x ≡ true)
        → HasPublic n trusted.ips
        → IsTampering c
        → c.reason ≡ "bogon"
        → Grounds sys trusted c
    hijacked :
        trusted.rcode ≡ "NXDOMAIN"
        → (x : n.Addr) × Memᴰ x sys.ips
        → IsTampering c
        → c.reason ≡ "hijack"
        → Grounds sys trusted c
    differing :
        Comparable n sys.ips trusted.ips
        → Apart n sys.ips trusted.ips
        → (c.tampered ≡ false) × (c.disagree ≡ true)
        → Grounds sys trusted c
    excused :
        Excuse sys trusted → (c.tampered ≡ false) × (c.disagree ≡ false) → Grounds sys trusted c

  module _ (sys trusted : View n) where
    compare_public-Grounds : Grounds sys trusted (compare_public n sys trusted)
    unfolding compare_public
    compare_public-Grounds = elim (shares_family_case n sys.ips trusted.ips) [
      | inr (a, e) ↦ rw e (excused (other_family a) (refl, refl))
      | inl (c, e) ↦ elim (intersects_case n sys.ips trusted.ips) [
        | inr (b, f) ↦ rw (e, f) (differing c b (refl, refl))
        | inl (s, f) ↦ rw (e, f) (excused (shared s) (refl, refl))
      ]
    ]

    -- The first case of `compareAnswers` that holds, and the last two.
    compare_answers-Grounds : Grounds sys trusted (compare_answers n sys trusted)
    unfolding compare_answers
    compare_answers-Grounds = elim (public_case n trusted.ips) [
      | inl (p, e) ↦ rw e (
          if_lem (Grounds sys trusted) (str_eq sys.rcode "NXDOMAIN" && true) _ _
            (λ t.
              denied ((str_eq_iff sys.rcode "NXDOMAIN").0 (ground (arith, t))) p (refl, refl) refl)
            (λ _. elim (filtered (is_bogon n) sys.ips) [
              | found x m b f ↦ rw f (sunk (x, m, b) p (refl, refl) refl)
              | absent a f ↦
                  rw f (if_lem (Grounds sys trusted) hijack _ _ by_hijack (λ _. no_hijack))
            ]))
      | inr (a, e) ↦ rw e (
          if_lem (Grounds sys trusted) (str_eq sys.rcode "NXDOMAIN" && false) _ _
            (λ t. absurd (ground (arith, t)))
            (λ _.
              if_lem (Grounds sys trusted) (ltb 0 (count_bogons n sys.ips) && false) _ _
                (λ t. absurd (ground (arith, t)))
                (λ _. if_lem (Grounds sys trusted) hijack _ _ by_hijack (λ _.
                  if_lem (Grounds sys trusted) (ltb 0 (count_public n sys.ips) && false) _ _
                    (λ t. absurd (ground (arith, t))) (λ _. excused (no_trusted a) (refl, refl))))))
    ]
      where
        hijack : Bool
        hijack = str_eq trusted.rcode "NXDOMAIN" && ltb 0 (length sys.ips)

        by_hijack :
            hijack ≡ true
            → Grounds sys trusted (
                tampering "hijack"
                  "the trusted resolvers say the name does not exist; the system resolver returned addresses")
        by_hijack t =
            hijacked ((str_eq_iff trusted.rcode "NXDOMAIN").0 (ground (arith, t)))
              (mem_some sys.ips (ground (arith, t))) (refl, refl) refl

        no_hijack : Grounds sys trusted (
            if ltb 0 (count_public n sys.ips) && true
            then compare_public n sys trusted
            else noted "")
        no_hijack = elim (public_case n sys.ips) [
          | inl (p, e) ↦ rw e compare_public-Grounds
          | inr (a, e) ↦ rw e (excused (no_system a) (refl, refl))
        ]

    -- `Compare` never accuses a system resolver without grounds, and never excuses it without any. It
    -- reports tampering only where the resolver denies a name of which the trusted resolvers have a
    -- public address, or gives an address that is not public for such a name, or gives an address
    -- for a name that they deny. It reports a disagreement only where both give a public address of one
    -- family and no address in common. It reports neither only where the resolver timed out, or one
    -- side has no public address, or none of a family that the other one has, or both share one.
    pub compare_views-Grounds : Grounds sys trusted (compare_views n sys trusted)
    unfolding compare_views
    compare_views-Grounds =
        if_lem (Grounds sys trusted) (str_eq trusted.rcode "ERROR" && length trusted.ips == 0) _ _
          (λ t.
            excused (no_trusted (All-no_element _ trusted.ips (ground (arith, t)))) (refl, refl))
          (λ _.
            if_lem (Grounds sys trusted) (str_eq sys.rcode "TIMEOUT") _ _
              (λ t. excused (timed_out ((str_eq_iff sys.rcode "TIMEOUT").0 t)) (refl, refl))
              (λ _.
                if_lem (Grounds sys trusted)
                  (str_eq trusted.rcode "NXDOMAIN" && length sys.ips == 0) _ _
                  (λ t.
                    excused (no_system (All-no_element _ sys.ips (ground (arith, t)))) (refl, refl))
                  (λ _.
                    if_lem (Grounds sys trusted)
                      (str_eq trusted.rcode "OTHER" && length trusted.ips == 0) _ _
                      (λ t.
                        excused (no_trusted (All-no_element _ trusted.ips (ground (arith, t))))
                          (refl, refl))
                      (λ _. compare_answers-Grounds))))
