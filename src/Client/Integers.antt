-- ===== src/Client/Integers.antt =====
-- Go's int, which the counts in an attempt's detail are read as.
use censor_pulse_cli.Common.{
  Bool, false, if◌then◌else◌, leb, ltb, not, suc, true, zero, ℕ, ◌+◌, ◌-◌, ◌/◌, ◌==◌,
}

pub data ℤ : Type 0 where
  pos : ℕ → ℤ
  negsuc : ℕ → ℤ

abbrev pub int_ltb : ℤ → ℤ → Bool
int_ltb (pos m) (pos n) = ltb m n
int_ltb (pos m) (negsuc n) = false
int_ltb (negsuc m) (pos n) = true
int_ltb (negsuc m) (negsuc n) = ltb n m

abbrev pub int_leb : ℤ → ℤ → Bool
int_leb x y = not (int_ltb y x)

abbrev pub int_eq : ℤ → ℤ → Bool
int_eq (pos m) (pos n) = m == n
int_eq (pos m) (negsuc n) = false
int_eq (negsuc m) (pos n) = false
int_eq (negsuc m) (negsuc n) = m == n

-- max
abbrev pub int_max : ℤ → ℤ → ℤ
int_max x y = if int_ltb x y then y else x

-- m - n, of natural numbers
unfoldable pub nat_diff : ℕ → ℕ → ℤ
nat_diff m n = if leb n m then pos (m - n) else negsuc (n - m - 1)

unfoldable pub int_add : ℤ → ℤ → ℤ
int_add (pos m) (pos n) = pos (m + n)
int_add (pos m) (negsuc n) = nat_diff m (n + 1)
int_add (negsuc m) (pos n) = nat_diff n (m + 1)
int_add (negsuc m) (negsuc n) = negsuc (m + n + 1)

abbrev pub int_neg : ℤ → ℤ
int_neg (pos zero) = pos 0
int_neg (pos (suc n)) = negsuc n
int_neg (negsuc n) = pos (n + 1)

abbrev pub int_sub : ℤ → ℤ → ℤ
int_sub x y = int_add x (int_neg y)

-- Go's division by a positive number, which drops the fraction.
unfoldable pub int_quot : ℤ → ℕ → ℤ
int_quot (pos m) k = pos (m / k)
int_quot (negsuc m) k = int_neg (pos ((m + 1) / k))
