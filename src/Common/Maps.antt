-- ===== src/Common/Maps.antt =====
-- Go maps as association lists, over keys with an equality test.
use mathlib.Core.Path.{◌≡◌, refl, sym, ap, ap₂, ◌∙◌, subst}
use mathlib.Core.Logic.{◌↔◌, inl, inr}
use mathlib.Core.Bool.{Bool, true, false}
use mathlib.Core.Option.{Option, none, some}
use mathlib.Core.List.{List, [], ◌∷◌}
use native.Mathlib.Omega.{arith}
use Prim.Native.Nat.{ℕ}
use censor_pulse_cli.Common.Tests.{Bool-cases, ◌==◌, if◌then◌else◌, ==→eq, ==-refl}
use censor_pulse_cli.Common.Lists.{All}
use censor_pulse_cli.Common.ByteStrings.{Bytes, bytes_eq, bytes_eq_iff}

pub record Eq (A : Type 0) : Type 0 where
  pub beq : A → A → Bool
  pub beq_iff : (a b : A) → (beq a b ≡ true) ↔ (a ≡ b)

pub nat_beq_iff : (a b : ℕ) → ((a == b) ≡ true) ↔ (a ≡ b)
nat_beq_iff a b = (==→eq a b, λ e. ap (◌==◌ a) (sym e) ∙ ==-refl a)

instance abbrev pub nat_eq : Eq ℕ
nat_eq = record { beq = ◌==◌; beq_iff = nat_beq_iff }

instance abbrev pub bytes_key : Eq Bytes
bytes_key = record { beq = bytes_eq; beq_iff = bytes_eq_iff }

some_eq : {V : Type 0} (w v : V) → some w ≡ some v → w ≡ v
some_eq w v h = cc

module _ {K V : Type 0} ⦃e : Eq K⦄ where
  -- m[k], where it is there.
  unfoldable pub find : K → List (K × V) → Option V
  find k [] = none
  find k ((j, v) ∷ m) = if e.beq j k then some v else find k m

  -- m[k] = v
  unfoldable pub put : K → V → List (K × V) → List (K × V)
  put k v [] = (k, v) ∷ []
  put k v ((j, w) ∷ m) = if e.beq j k then (k, v) ∷ m else (j, w) ∷ put k v m

  pub find-put :
      (k j : K) (v : V) (m : List (K × V))
      → find j (put k v m) ≡ (if e.beq k j then some v else find j m)
  unfolding find put
  find-put k j v [] = refl
  find-put k j v ((i, w) ∷ m) =
      ground (arith, e.beq_iff k j, e.beq_iff i k, e.beq_iff i j, find-put k j v m)

  pub find-put_self : (k : K) (v : V) (m : List (K × V)) → find k (put k v m) ≡ some v
  find-put_self k v m = ground (arith, find-put k k v m, e.beq_iff k k)

  pub find-put_other :
      (k j : K) (v : V) (m : List (K × V)) → ¬ (k ≡ j) → find j (put k v m) ≡ find j m
  find-put_other k j v m h = ground (arith, find-put k j v m, e.beq_iff k j, h)

  -- What holds of every entry holds after a write that keeps to it.
  pub All-put {κ} :
      (P : K × V → Type κ) (k : K) (v : V) (m : List (K × V))
      → All P m
      → P (k, v)
      → All P (put k v m)
  unfolding put
  All-put P k v [] a p = (p, tt)
  All-put P k v ((j, w) ∷ m) a p = go (e.beq j k) (All-put P k v m a.1 p)
    where
      go : (b : Bool) → All P (put k v m) → All P (if b then (k, v) ∷ m else (j, w) ∷ put k v m)
      go true rest = (p, a.1)
      go false rest = (a.0, rest)

  pub All-find {κ} :
      (P : K × V → Type κ) (k : K) (v : V) (m : List (K × V))
      → All P m
      → find k m ≡ some v
      → P (k, v)
  unfolding find
  All-find P k v [] a h = cc
  All-find P k v ((j, w) ∷ m) a h = elim (Bool-cases (e.beq j k)) [
    | inl same ↦
        subst (λ (q : K × V). P q)
          (ap₂ (λ (x : K) (y : V). (x, y)) ((e.beq_iff j k).0 same) (some_eq w v (rw same at h)))
          a.0
    | inr other ↦ All-find P k v m a.1 (rw other at h)
  ]
