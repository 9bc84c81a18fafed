-- ===== src/Wire/L2tp/Fuel.antt =====
-- internal/l2tp/l2tp.go: the loop of `ParseControl` ends by itself.
use censor_pulse_cli.Common.{
  Bool, Bool-cases, Bytes, arith, drop, false, if◌then◌else◌, inl, inr, length, length-drop, ltb,
  lt→ltb, refl, slice, suc, true, uint16_at, zero, ℕ, ◌%◌, ◌==◌, ◌||◌, ◌≡◌, ◌≤◌,
}
use censor_pulse_cli.Wire.L2tp.{Control, parse_avps, apply_avp, AvpLoop, out_of_turns}

-- The loop came to an end of its own.
abbrev pub has_ended : AvpLoop → Bool
has_ended out_of_turns = false
has_ended l = true

-- With at least as many turns as there are bytes, the loop of `ParseControl` comes to an end of its own,
-- a Control or ErrNotL2TP, and the number of turns makes no difference to it.
pub parse_avps_enough :
    (f g : ℕ) (c : Control) (p : Bytes)
    → length p ≤ f
    → length p ≤ g
    → (has_ended (parse_avps f c p) ≡ true) × (parse_avps f c p ≡ parse_avps g c p)
unfolding parse_avps
parse_avps_enough zero zero c p hf hg = (rw (lt→ltb (length p) 6 (omega arith)) refl, refl)
parse_avps_enough zero (suc g) c p hf hg = rw (lt→ltb (length p) 6 (omega arith)) (refl, refl)
parse_avps_enough (suc f) zero c p hf hg = rw (lt→ltb (length p) 6 (omega arith)) (refl, refl)
parse_avps_enough (suc f) (suc g) c p hf hg = elim (Bool-cases (ltb (length p) 6)) [
  | inl t ↦ rw t (refl, refl)
  | inr t ↦
      rw t
        (elim (Bool-cases (ltb (uint16_at p 0 % 1024) 6 || ltb (length p) (uint16_at p 0 % 1024))) [
          | inl u ↦ rw u (refl, refl)
          | inr u ↦ rw u (
              parse_avps_enough f g
                (if uint16_at p 2 == 0
                  then apply_avp c (uint16_at p 4) (slice p 6 (uint16_at p 0 % 1024))
                  else c)
                (drop (uint16_at p 0 % 1024) p) (shorter u f hf) (shorter u g hg))
        ])
]
  where
    shorter :
        (ltb (uint16_at p 0 % 1024) 6 || ltb (length p) (uint16_at p 0 % 1024)) ≡ false
        → (n : ℕ) → length p ≤ suc n
        → length (drop (uint16_at p 0 % 1024) p) ≤ n
    shorter u n h = ground (arith, length-drop (uint16_at p 0 % 1024) p)
