-- ===== src/Classify/Rules/Connect.antt =====
-- internal/classify/helpers.go and rules_path.go: medians.
use censor_pulse_cli.Common.{
  string_key, Bool, List, Option, String, [], detail_at, find, get_or, if◌then◌else◌, length, ltb,
  none, not, some, str_eq, ℕ, ◌&&◌, ◌++◌, ◌/◌, ◌==◌, ◌∷◌,
}
use censor_pulse_cli.Client.Integers.{ℤ, int_ltb, pos}
use censor_pulse_cli.Client.Merge.{Runtime, Attempt}

-- sort.Ints and sort.Float64s
unfoldable pub insert_by : {A : Type 0} → (A → A → Bool) → A → List A → List A
insert_by lt_test x [] = x ∷ []
insert_by lt_test x (y ∷ ys) = if lt_test y x then y ∷ insert_by lt_test x ys else x ∷ y ∷ ys

unfoldable pub sort_by : {A : Type 0} → (A → A → Bool) → List A → List A
sort_by lt_test [] = []
sort_by lt_test (x ∷ xs) = insert_by lt_test x (sort_by lt_test xs)

-- `median` and `medianF`: 0 of no values, else the middle one.
unfoldable pub median_of : {A : Type 0} → (A → A → Bool) → A → List A → A
median_of lt_test zero_value xs = get_or (sort_by lt_test xs) (length xs / 2) zero_value

-- `median`
unfoldable pub median : List ℤ → ℤ
median = median_of int_ltb (pos 0)

abbrev pub connect_min_samples : ℕ
connect_min_samples = 2

module _ (g : Runtime) where
  -- `medianF`
  unfoldable pub median_float : List g.Float → g.Float
  median_float = median_of g.float_ltb (g.float_of_nat 0)

  -- The number that the first key that parses holds.
  unfoldable pub first_int : Attempt g → List String → List ℤ
  first_int a [] = []
  first_int a (k ∷ keys) =
      let v = g.atoi (detail_at a.detail k) in if v.1 then v.0 ∷ [] else first_int a keys

  -- `detailInts`
  unfoldable pub detail_ints : List (Attempt g) → List String → List ℤ
  detail_ints [] keys = []
  detail_ints (a ∷ attempts) keys = first_int a keys ++ detail_ints attempts keys

  abbrev pub positive : Option g.Float → List g.Float
  positive none = []
  positive (some ms) = if g.float_ltb (g.float_of_nat 0) ms then ms ∷ [] else []

  -- The connect times of the successful dials of a port.
  unfoldable pub connect_times : List (Attempt g) → ℕ → List g.Float
  connect_times [] port = []
  connect_times (a ∷ attempts) port =
      (if str_eq a.transport "tcp" && a.dst_port == port && not (str_eq a.test_id "tcp.rtt")
        then positive (find "connect" a.stages)
        else [])
      ++ connect_times attempts port

  -- `medianConnect`
  unfoldable pub median_connect : List (Attempt g) → ℕ → Option g.Float
  median_connect attempts port =
      if ltb (length (connect_times attempts port)) connect_min_samples
      then none
      else some (median_float (connect_times attempts port))
