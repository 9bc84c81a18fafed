-- ===== src/Common/ByteStrings.antt =====
-- Byte strings: slices, big-endian integers, and a buffer that is put together from segments.
use Prim.Native.Nat.{ℕ, zero, suc, ◌+◌, ◌-◌, ◌*◌, ◌/◌, ◌%◌, ◌^◌, ◌≤◌, ◌<◌}
use mathlib.Core.Path.{◌≡◌, refl, ap, sym, ◌∙◌, subst}
use mathlib.Core.Logic.{◌↔◌}
use mathlib.Core.Bool.{Bool, true, false, ◌&&◌}
use mathlib.Core.List.{List, [], ◌∷◌, ◌++◌, append_assoc}
use native.Mathlib.Omega.{arith}
use censor_pulse_cli.Common.Tests.{◌==◌}
use censor_pulse_cli.Common.Lists.{
  length, get_or, take, drop, length-append, length-take, length-drop, take-append_length,
  get_or-append, drop-take, take-take,
}

abbrev pub Bytes : Type 0
Bytes = List ℕ

abbrev pub IsByte : ℕ → Type 0
IsByte b = b < 256

abbrev pub bytes_eq : Bytes → Bytes → Bool
bytes_eq [] [] = true
bytes_eq [] (y ∷ ys) = false
bytes_eq (x ∷ xs) [] = false
bytes_eq (x ∷ xs) (y ∷ ys) = x == y && bytes_eq xs ys

pub bytes_eq→eq : (xs ys : Bytes) → bytes_eq xs ys ≡ true → xs ≡ ys
bytes_eq→eq [] [] h = refl
bytes_eq→eq [] (y ∷ ys) h = ground arith
bytes_eq→eq (x ∷ xs) [] h = ground arith
bytes_eq→eq (x ∷ xs) (y ∷ ys) h = ground (arith, bytes_eq→eq xs ys)

pub bytes_eq_refl : (xs : Bytes) → bytes_eq xs xs ≡ true
bytes_eq_refl [] = refl
bytes_eq_refl (x ∷ xs) = ground (arith, bytes_eq_refl xs)

pub bytes_eq_iff : (xs ys : Bytes) → (bytes_eq xs ys ≡ true) ↔ (xs ≡ ys)
bytes_eq_iff xs ys = (bytes_eq→eq xs ys, λ e. ap (bytes_eq xs) (sym e) ∙ bytes_eq_refl xs)

-- b[i]; the callers have compared the length first.
abbrev pub byte_at : Bytes → ℕ → ℕ
byte_at b i = get_or b i 0

-- b[i:j], for i ≤ j ≤ len(b).
abbrev pub slice : Bytes → ℕ → ℕ → Bytes
slice b i j = take (j - i) (drop i b)

-- The number that a big-endian byte string stands for.
abbrev pub be_value_from : ℕ → Bytes → ℕ
be_value_from acc [] = acc
be_value_from acc (x ∷ xs) = be_value_from (acc * 256 + x) xs

abbrev pub be_value : Bytes → ℕ
be_value = be_value_from 0

-- binary.BigEndian.Uint16 and so on, at an offset.
abbrev pub uint16_at : Bytes → ℕ → ℕ
uint16_at b i = be_value (slice b i (i + 2))

abbrev pub uint32_at : Bytes → ℕ → ℕ
uint32_at b i = be_value (slice b i (i + 4))

abbrev pub uint64_at : Bytes → ℕ → ℕ
uint64_at b i = be_value (slice b i (i + 8))

-- What AppendUint16, AppendUint32 and AppendUint64 append.
abbrev pub put_uint16 : ℕ → Bytes
put_uint16 v = v / 256 % 256 ∷ v % 256 ∷ []

abbrev pub put_uint32 : ℕ → Bytes
put_uint32 v = v / 16777216 % 256 ∷ v / 65536 % 256 ∷ v / 256 % 256 ∷ v % 256 ∷ []

abbrev pub put_uint64 : ℕ → Bytes
put_uint64 v = put_uint32 (v / 4294967296) ++ put_uint32 v

pub be_value-put_uint16 : (v : ℕ) → v < 2 ^ 16 → be_value (put_uint16 v) ≡ v
be_value-put_uint16 v h = omega arith

pub be_value-put_uint32 : (v : ℕ) → v < 2 ^ 32 → be_value (put_uint32 v) ≡ v
be_value-put_uint32 v h = omega arith

pub be_value-put_uint64 : (v : ℕ) → v < 2 ^ 64 → be_value (put_uint64 v) ≡ v
be_value-put_uint64 v h = omega arith

-- A buffer as the list of the pieces that were appended to it.
abbrev pub concat : List Bytes → Bytes
concat [] = []
concat (x ∷ xs) = x ++ concat xs

abbrev pub offset : ℕ → List Bytes → ℕ
offset zero segs = 0
offset (suc k) [] = 0
offset (suc k) (x ∷ segs) = length x + offset k segs

pub length-slice : (b : Bytes) (i j : ℕ) → i ≤ j → j ≤ length b → length (slice b i j) ≡ j - i
length-slice b i j h k = omega (arith, length-take (j - i) (drop i b), length-drop i b)

drop-append_add : (xs ys : Bytes) (n : ℕ) → drop (length xs + n) (xs ++ ys) ≡ drop n ys
drop-append_add [] ys n = rw (zero_add n) refl
  where
    zero_add : (m : ℕ) → 0 + m ≡ m
    zero_add m = omega arith
drop-append_add (x ∷ xs) ys n = rw (suc_add n) (drop-append_add xs ys n)
  where
    suc_add : (m : ℕ) → suc (length xs) + m ≡ suc (length xs + m)
    suc_add m = omega arith

take_nil : (n : ℕ) → ◌≡◌ {A = Bytes} (take n []) []
take_nil zero = refl
take_nil (suc n) = refl

take-segment :
    (k : ℕ) (segs : List Bytes) (n : ℕ)
    → n ≡ length (get_or segs k [])
    → take n (drop (offset k segs) (concat segs)) ≡ get_or segs k []
take-segment zero [] n h = take_nil n
take-segment zero (x ∷ segs) n h = take-append_length x (concat segs) n h
take-segment (suc k) [] n h = take_nil n
take-segment (suc k) (x ∷ segs) n h =
    rw (drop-append_add x (concat segs) (offset k segs)) (take-segment k segs n h)

pub slice-take : (n i j : ℕ) (b : Bytes) → i ≤ j → j ≤ n → slice (take n b) i j ≡ slice b i j
slice-take n i j b h k =
    ap (take (j - i)) (drop-take i n b) ∙ take-take (j - i) (n - i) (drop i b) (omega arith)

-- The k-th piece stands between its own offset and that of the next piece.
pub slice-concat :
    (k : ℕ) (segs : List Bytes) (i j : ℕ)
    → i ≡ offset k segs
    → j ≡ i + length (get_or segs k [])
    → slice (concat segs) i j ≡ get_or segs k []
slice-concat k segs i j hi hj =
    subst (λ (o : ℕ). take (j - i) (drop o (concat segs)) ≡ get_or segs k []) (sym hi)
      (take-segment k segs (j - i) (omega arith))

get_or-drop : (b : Bytes) (n m : ℕ) → get_or b (n + m) 0 ≡ get_or (drop n b) m 0
get_or-drop b zero m = ap (λ (i : ℕ). get_or b i 0) (omega arith)
get_or-drop [] (suc n) m = refl
get_or-drop (x ∷ b) (suc n) m = ap (λ (i : ℕ). get_or (x ∷ b) i 0) (suc_add) ∙ get_or-drop b n m
  where
    suc_add : suc n + m ≡ suc (n + m)
    suc_add = omega arith

get_or-segment :
    (k : ℕ) (segs : List Bytes) (m : ℕ)
    → m < length (get_or segs k [])
    → byte_at (concat segs) (offset k segs + m) ≡ byte_at (get_or segs k []) m
get_or-segment zero [] m h = absurd (omega arith)
get_or-segment zero (x ∷ segs) m h =
    ap (λ (i : ℕ). get_or (x ++ concat segs) i 0) (omega arith)
    ∙ get_or-append x (concat segs) m 0 h
get_or-segment (suc k) [] m h = absurd (omega arith)
get_or-segment (suc k) (x ∷ segs) m h =
    get_or-drop (x ++ concat segs) (length x + offset k segs) m
    ∙ ap (λ (t : Bytes). get_or t m 0) (drop-append_add x (concat segs) (offset k segs))
    ∙ sym (get_or-drop (concat segs) (offset k segs) m)
    ∙ get_or-segment k segs m h

-- The m-th byte of the k-th piece.
pub byte_at-concat :
    (k : ℕ) (segs : List Bytes) (i m : ℕ)
    → i ≡ offset k segs + m
    → m < length (get_or segs k [])
    → byte_at (concat segs) i ≡ byte_at (get_or segs k []) m
byte_at-concat k segs i m hi h = ap (byte_at (concat segs)) hi ∙ get_or-segment k segs m h

take_add : (xs ys : Bytes) (n : ℕ) → take (length xs + n) (xs ++ ys) ≡ xs ++ take n ys
take_add [] ys n = ap (λ (i : ℕ). take i ys) (omega arith)
take_add (x ∷ xs) ys n =
    ap (λ (i : ℕ). take i (x ∷ xs ++ ys)) suc_add ∙ ap (◌∷◌ x) (take_add xs ys n)
  where
    suc_add : suc (length xs) + n ≡ suc (length xs + n)
    suc_add = omega arith

take-segments :
    (k : ℕ) (segs : List Bytes) → take (offset k segs) (concat segs) ≡ concat (take k segs)
take-segments zero segs = refl
take-segments (suc k) [] = refl
take-segments (suc k) (x ∷ segs) =
    take_add x (concat segs) (offset k segs) ∙ ap (◌++◌ x) (take-segments k segs)

-- The buffer up to the k-th piece.
pub take-concat :
    (k : ℕ) (segs : List Bytes) (i : ℕ)
    → i ≡ offset k segs
    → take i (concat segs) ≡ concat (take k segs)
take-concat k segs i h = ap (λ (o : ℕ). take o (concat segs)) h ∙ take-segments k segs

pub length-concat : (segs : List Bytes) → length (concat segs) ≡ offset (length segs) segs
length-concat [] = refl
length-concat (x ∷ segs) = omega (arith, length-append x (concat segs), length-concat segs)

pub concat-append : (xs ys : List Bytes) → concat (xs ++ ys) ≡ concat xs ++ concat ys
concat-append [] ys = refl
concat-append (x ∷ xs) ys =
    ap (◌++◌ x) (concat-append xs ys) ∙ sym (append_assoc x (concat xs) (concat ys))
