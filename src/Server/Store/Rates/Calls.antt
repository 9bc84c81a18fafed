-- ===== src/Server/Store/Rates/Calls.antt =====
-- internal/server/store.go: `allowAttempt` over a sequence of calls.
use censor_pulse_cli.Common.{
  nat_eq, ==→eq, All, Bool-cases, List, [], ap, append-nil, append_assoc, arith, dec_lt, false,
  find, find-put_other, find-put_self, if◌then◌else◌, inl, inr, leb, length, length-append, le→leb,
  put, refl, subst, true, ℕ, ◌&&◌, ◌*◌, ◌++◌, ◌<◌, ◌==◌, ◌∙◌, ◌∷◌, ◌≡◌, ◌≤◌,
}
use censor_pulse_cli.Server.Store.{NetIp, Store, rate_key, minute, new_store}
use censor_pulse_cli.Server.Store.Rates.{prune, admit, allow_attempt, times_at, times_of}
use censor_pulse_cli.Server.Store.Rates.Window.{Spread, Spread-prune}
use native.Mathlib.Decide.{ℕ_discrete as dec_eq}

-- The admitted times of one key, oldest first, over a sequence of calls (ip, now).
unfoldable pub admitted : NetIp → ℕ → Store → List (ℕ × ℕ) → List ℕ
admitted net k s [] = []
admitted net k s ((ip, now) ∷ calls) =
    let rest = admitted net k (allow_attempt net s ip now).0 calls in
    if (allow_attempt net s ip now).1 && rate_key net ip == k then now ∷ rest else rest

-- The calls come in the order of their times, from `t` on.
abbrev pub InOrder : ℕ → List (ℕ × ℕ) → Type 0
InOrder t [] = Unit {0}
InOrder t ((ip, now) ∷ calls) = (t ≤ now) × InOrder now calls

length-prune : (window now : ℕ) (ts : List ℕ) → length (prune window now ts) ≤ length ts
unfolding prune
length-prune window now [] = omega arith
length-prune window now (t ∷ ts) = ground (arith, length-prune window now ts)

module _ (window limit ip now : ℕ) (m : List (ℕ × List ℕ)) where
  abbrev left : List ℕ
  left = prune window now (times_at ip m)

  admit-refused :
      limit ≤ length left
      → ((admit window limit ip now m).1 ≡ false)
        × (times_at ip (admit window limit ip now m).0 ≡ left)
  unfolding admit
  admit-refused h = rw (le→leb limit (length left) h) (refl, ap times_of (find-put_self ip left m))

  admit-admitted :
      length left < limit
      → ((admit window limit ip now m).1 ≡ true)
        × (times_at ip (admit window limit ip now m).0 ≡ left ++ (now ∷ []))
  unfolding admit
  admit-admitted h =
      rw (lt→leb h) (refl, ap times_of (find-put_self ip (left ++ (now ∷ [])) (put ip left m)))
    where
      lt→leb : length left < limit → leb limit (length left) ≡ false
      lt→leb lt = ground arith

  admit-other : (k : ℕ) → ¬ (ip ≡ k) → times_at k (admit window limit ip now m).0 ≡ times_at k m
  unfolding admit
  admit-other k h = elim (Bool-cases (leb limit (length left))) [
    | inl full ↦ rw full (ap times_of (find-put_other ip k left m h))
    | inr room ↦ rw room (
        ap times_of (
          find-put_other ip k (left ++ (now ∷ [])) (put ip left m) h
          ∙ find-put_other ip k left m h))
  ]

  -- Whatever the answer, no more times are kept than the limit.
  admit-length :
      length (times_at ip m) ≤ limit → length (times_at ip (admit window limit ip now m).0) ≤ limit
  admit-length h = elim (dec_lt (length left) limit) [
    | yes room ↦ omega (arith, ap length (admit-admitted room).1, length-append left (now ∷ []))
    | no full ↦
        omega (
          arith,
          ap length (admit-refused (omega arith)).1,
          length-prune window now (times_at ip m),
        )
  ]

All-le : (t now : ℕ) (ts : List ℕ) → t ≤ now → All (λ u. now ≤ u) ts → All (λ u. t ≤ u) ts
All-le t now [] h a = tt
All-le t now (u ∷ ts) h a = (omega (arith, a.0), All-le t now ts h a.1)

module _ (net : NetIp) (k : ℕ) where
  abbrev window : ℕ
  window = 10 * minute

  -- The times that the store holds for the key.
  abbrev kept : Store → List ℕ
  kept s = times_at k s.attempt_rate

  abbrev after : Store → ℕ → ℕ → Store
  after s ip now = (allow_attempt net s ip now).0

  after-limit : (s : Store) (ip now : ℕ) → (after s ip now).att_per_10_min ≡ s.att_per_10_min
  unfolding allow_attempt
  after-limit s ip now = refl

  -- A call either leaves the key's times and admits nothing of it, or it prunes them and admits
  -- nothing, or it prunes them and adds the time that it admits.
  data Call (s : Store) (ip now : ℕ) (calls : List (ℕ × ℕ)) : Type 0 where
    other :
        kept (after s ip now) ≡ kept s
        → admitted net k s ((ip, now) ∷ calls) ≡ admitted net k (after s ip now) calls
        → Call s ip now calls
    refused :
        kept (after s ip now) ≡ prune window now (kept s)
        → admitted net k s ((ip, now) ∷ calls) ≡ admitted net k (after s ip now) calls
        → Call s ip now calls
    allowed :
        kept (after s ip now) ≡ prune window now (kept s) ++ (now ∷ [])
        → admitted net k s ((ip, now) ∷ calls) ≡ now ∷ admitted net k (after s ip now) calls
        → Call s ip now calls

  call : (s : Store) (ip now : ℕ) (calls : List (ℕ × ℕ)) → Call s ip now calls
  unfolding admitted allow_attempt
  call s ip now calls = elim (Bool-cases (rate_key net ip == k)) [
    | inl same ↦
        let e = ==→eq (rate_key net ip) k same in
        elim (dec_lt (length (prune window now (times_at (rate_key net ip) s.attempt_rate)))
          s.att_per_10_min) [
            | yes room ↦
                let a =
                  admit-admitted window s.att_per_10_min (rate_key net ip) now s.attempt_rate
                    room in
                allowed (rw (← e) a.1) (rw (a.0, same) refl)
            | no full ↦
                let a =
                  admit-refused window s.att_per_10_min (rate_key net ip) now s.attempt_rate
                    (omega arith) in
                refused (rw (← e) a.1) (rw (a.0) refl)
          ]
    | inr diff ↦
        other
          (admit-other window s.att_per_10_min (rate_key net ip) now s.attempt_rate k
            (ground arith))
          (ground arith)
  ]

  admitted-late :
      (t : ℕ) (s : Store) (calls : List (ℕ × ℕ))
      → InOrder t calls
      → All (λ u. t ≤ u) (admitted net k s calls)
  admitted-late t s [] h = unfold admitted in tt
  admitted-late t s ((ip, now) ∷ calls) h =
      let later =
        All-le t now (admitted net k (after s ip now) calls) h.0
          (admitted-late now (after s ip now) calls h.1) in
      elim (call s ip now calls) [
        | other _ e ↦ rw e later
        | refused _ e ↦ rw e later
        | allowed _ e ↦ rw e (h.0, later)
      ]

  kept-after :
      (s : Store) (ip now : ℕ)
      → length (kept s) ≤ s.att_per_10_min
      → length (kept (after s ip now)) ≤ s.att_per_10_min
  unfolding allow_attempt
  kept-after s ip now short = elim (dec_eq (rate_key net ip) k) [
    | yes e ↦
        subst
          (λ (j : ℕ).
            length (times_at j s.attempt_rate) ≤ s.att_per_10_min
            → length (times_at j (after s ip now).attempt_rate) ≤ s.att_per_10_min)
          e (admit-length window s.att_per_10_min (rate_key net ip) now s.attempt_rate) short
    | no d ↦ rw (admit-other window s.att_per_10_min (rate_key net ip) now s.attempt_rate k d) short
  ]

  Spread-admitted :
      (t : ℕ) (s : Store) (calls : List (ℕ × ℕ))
      → InOrder t calls
      → length (kept s) ≤ s.att_per_10_min
      → Spread window s.att_per_10_min (kept s ++ admitted net k s calls)
  unfolding allow_attempt admitted
  Spread-admitted t s [] h short = λ i hi. absurd (omega (arith, ap length (append-nil (kept s))))
  Spread-admitted t s ((ip, now) ∷ calls) h short =
      let late = admitted-late now (after s ip now) calls h.1 in
      let rest = Spread-admitted now (after s ip now) calls h.1 (kept-after s ip now short) in
      elim (call s ip now calls) [
        | other same e ↦ rw (e, ← same) rest
        | refused pruned e ↦
            rw e
              (Spread-prune window s.att_per_10_min now (kept s) _ short late (rw pruned at rest))
        | allowed pruned e ↦ rw e (
            Spread-prune window s.att_per_10_min now (kept s) _ short (omega arith, late)
              (rw (pruned, append_assoc) at rest))
      ]

-- Over any sequence of calls in the order of their times, of any addresses, on a new store: of the
-- attempts that `allowAttempt` admits for one rate key, any two that are as many places apart as the
-- limit are more than ten minutes apart. No window of ten minutes holds more than the limit.
pub allow_attempt-Spread :
    (net : NetIp) (k max_obs retention sess_per_min limit : ℕ) (calls : List (ℕ × ℕ))
    → InOrder 0 calls
    → Spread
        (10 * minute)
        limit
        (admitted net k (new_store max_obs retention sess_per_min limit) calls)
unfolding new_store find
allow_attempt-Spread net k max_obs retention sess_per_min limit calls h =
    Spread-admitted net k 0 (new_store max_obs retention sess_per_min limit) calls h (omega arith)
