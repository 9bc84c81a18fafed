-- ===== src/Server/Store/Rates/Window.antt =====
-- internal/server/store.go: no window holds more admitted calls than the limit.
use censor_pulse_cli.Common.{
  nat_eq, All, Bool-cases, List, [], arith, get_or, inl, inr, length, ltb, ltb→lt, suc, zero, ℕ,
  ◌++◌, ◌+◌, ◌<◌, ◌∷◌, ◌≡◌, ◌≤◌,
}
use censor_pulse_cli.Server.Store.Rates.{prune}

-- Each time is followed, `limit` places on, by one that is more than a window later.
abbrev pub Spread : ℕ → ℕ → List ℕ → Type 0
Spread window limit ts =
    (i : ℕ) → i + limit < length ts → get_or ts i 0 + window < get_or ts (i + limit) 0

late_entry :
    (now : ℕ) (xs ys : List ℕ) (j : ℕ)
    → All (λ t. now ≤ t) ys
    → length xs ≤ j
    → j < length (xs ++ ys)
    → now ≤ get_or (xs ++ ys) j 0
late_entry now [] [] j h lo hi = absurd (omega arith)
late_entry now [] (y ∷ ys) zero h lo hi = h.0
late_entry now [] (y ∷ ys) (suc j) h lo hi = late_entry now [] ys j h.1 (omega arith) (omega arith)
late_entry now (x ∷ xs) ys zero h lo hi = absurd (omega arith)
late_entry now (x ∷ xs) ys (suc j) h lo hi = late_entry now xs ys j h (omega arith) (omega arith)

Spread-cons :
    (window limit now t : ℕ) (ts later : List ℕ)
    → t + window < now
    → length (t ∷ ts) ≤ limit
    → All (λ u. now ≤ u) later
    → Spread window limit (ts ++ later)
    → Spread window limit (t ∷ (ts ++ later))
Spread-cons window limit now t ts later old short h spread zero hi =
    lt_trans (late_entry now (t ∷ ts) later (0 + limit) h (omega arith) hi)
  where
    lt_trans :
        now ≤ get_or (t ∷ (ts ++ later)) (0 + limit) 0
        → t + window < get_or (t ∷ (ts ++ later)) (0 + limit) 0
    lt_trans le = omega arith
Spread-cons window limit now t ts later old short h spread (suc i) hi =
    rw (suc_add) (spread i (omega arith))
  where
    suc_add : suc i + limit ≡ suc (i + limit)
    suc_add = omega arith

pub Spread-prune :
    (window limit now : ℕ) (ts later : List ℕ)
    → length ts ≤ limit
    → All (λ u. now ≤ u) later
    → Spread window limit (prune window now ts ++ later)
    → Spread window limit (ts ++ later)
unfolding prune
Spread-prune window limit now [] later short h spread = spread
Spread-prune window limit now (t ∷ ts) later short h spread =
    elim (Bool-cases (ltb (t + window) now)) [
      | inl old ↦
          Spread-cons window limit now t ts later (ltb→lt _ _ old) short h
            (Spread-prune window limit now ts later (omega arith) h (rw old at spread))
      | inr new ↦ rw new at spread
    ]
