-- ===== src/Server/Store/Bulk/Quota.antt =====
-- internal/server/store.go: over a day, `consumeBulk` grants no more than the quotas.
use censor_pulse_cli.Common.{
  nat_eq, ==→eq, All, Bool, Bool-cases, List, Option, [], ap, arith, false, find, find-put_other,
  find-put_self, if◌then◌else◌, inl, inr, none, put, refl, some, subst, true, ℕ, ◌&&◌, ◌+◌, ◌<◌,
  ◌==◌, ◌^◌, ◌∙◌, ◌∷◌, ◌≡◌, ◌≤◌,
}
use censor_pulse_cli.Server.Store.{NetIp, Store, rate_key, BulkUse, bulk_global_per_day, new_store}
use censor_pulse_cli.Server.Store.Bulk.{
  consume_bulk, add_bytes, everyone, use_today, used_by, int64_add, int64_ltb,
}

-- The bytes granted to the callers that pass a test, over the calls (ip, n) of one day.
unfoldable pub granted : NetIp → ℕ → (ℕ → Bool) → Store → List (ℕ × ℕ) → ℕ
granted net day counts s [] = 0
granted net day counts s ((ip, n) ∷ calls) =
    (if (consume_bulk net s ip n day).1 && counts (rate_key net ip) then n else 0)
    + granted net day counts (consume_bulk net s ip n day).0 calls

used_by-day : (day : ℕ) (o : Option BulkUse) → (use_today day o).day ≡ day
used_by-day day none = refl
used_by-day day (some u) = ground arith

module _ (day : ℕ) where
  abbrev bytes_by : ℕ → List (ℕ × BulkUse) → ℕ
  bytes_by key m = (used_by day key m).bytes

  bytes_by-put_self :
      (key n : ℕ) (u : BulkUse) (m : List (ℕ × BulkUse))
      → u.day ≡ day
      → bytes_by key (put key (add_bytes u n) m) ≡ int64_add u.bytes n
  bytes_by-put_self key n u m h =
      ap (λ (o : Option BulkUse). (use_today day o).bytes) (find-put_self key (add_bytes u n) m)
      ∙ ground arith

  bytes_by-put_other :
      (key j : ℕ) (u : BulkUse) (m : List (ℕ × BulkUse))
      → ¬ (key ≡ j)
      → bytes_by j (put key u m) ≡ bytes_by j m
  bytes_by-put_other key j u m h =
      ap (λ (o : Option BulkUse). (use_today day o).bytes) (find-put_other key j u m h)

  -- The map after a granted transfer.
  abbrev charge : ℕ → ℕ → List (ℕ × BulkUse) → List (ℕ × BulkUse)
  charge key n m =
      put everyone (add_bytes (used_by day everyone m) n)
        (put key (add_bytes (used_by day key m) n) m)

  charge-everyone :
      (key n : ℕ) (m : List (ℕ × BulkUse))
      → bytes_by everyone (charge key n m) ≡ int64_add (bytes_by everyone m) n
  charge-everyone key n m =
      bytes_by-put_self everyone n (used_by day everyone m)
        (put key (add_bytes (used_by day key m) n) m) (used_by-day day (find everyone m))

  charge-key :
      (key n j : ℕ) (m : List (ℕ × BulkUse))
      → ¬ (0 ≡ j)
      → bytes_by j (charge key n m)
        ≡ (if key == j then int64_add (bytes_by j m) n else bytes_by j m)
  charge-key key n j m h =
      bytes_by-put_other everyone j (add_bytes (used_by day everyone m) n)
        (put key (add_bytes (used_by day key m) n) m) h
      ∙ elim (Bool-cases (key == j)) [
        | inl same ↦ rw same (
            subst
              (λ (i : ℕ).
                bytes_by i (put key (add_bytes (used_by day key m) n) m)
                ≡ int64_add (bytes_by i m) n)
              (==→eq key j same)
              (bytes_by-put_self key n (used_by day key m) m (used_by-day day (find key m))))
        | inr diff ↦
            rw diff (bytes_by-put_other key j (add_bytes (used_by day key m) n) m (ground arith))
      ]

module _ (net : NetIp) (day : ℕ) where
  -- The two things that `consumeBulk` does.
  data Consumed (s : Store) (key n : ℕ) (r : Store × Bool) : Type 0 where
    refused : r.1 ≡ false → r.0 ≡ s → Consumed s key n r
    charged :
        r.1 ≡ true
        → r.0.bulk_per_day ≡ s.bulk_per_day
        → r.0.bulk_used ≡ charge day key n s.bulk_used
        → (bytes_by day everyone s.bulk_used ≤ 4294967296
            → bytes_by day everyone s.bulk_used + n ≤ 4294967296)
        → (0 < s.bulk_per_day
            → s.bulk_per_day < 2 ^ 62
            → bytes_by day key s.bulk_used ≤ s.bulk_per_day
            → bytes_by day key s.bulk_used + n ≤ s.bulk_per_day)
        → Consumed s key n r

  consume_bulk-Consumed :
      (s : Store) (ip n : ℕ)
      → n < 2 ^ 62
      → Consumed s (rate_key net ip) n (consume_bulk net s ip n day)
  unfolding consume_bulk
  consume_bulk-Consumed s ip n hn = elim (Bool-cases own) [
    | inl over ↦ rw over (refused refl refl)
    | inr fits ↦ rw fits (elim (Bool-cases all) [
      | inl over ↦ rw over (refused refl refl)
      | inr room ↦ rw room (charged refl refl refl (λ h. ground arith) (λ p l h. ground arith))
    ])
  ]
    where
      own : Bool
      own =
          int64_ltb 0 s.bulk_per_day
          && int64_ltb s.bulk_per_day (int64_add (bytes_by day (rate_key net ip) s.bulk_used) n)

      all : Bool
      all = int64_ltb bulk_global_per_day (int64_add (bytes_by day everyone s.bulk_used) n)

  abbrev anyone : ℕ → Bool
  anyone k = true

  granted-global :
      (s : Store) (calls : List (ℕ × ℕ))
      → All (λ c. c.1 < 2 ^ 62) calls
      → bytes_by day everyone s.bulk_used ≤ 4294967296
      → granted net day anyone s calls + bytes_by day everyone s.bulk_used ≤ 4294967296
  unfolding granted
  granted-global s [] v h = omega arith
  granted-global s ((ip, n) ∷ calls) v h =
      let s' = (consume_bulk net s ip n day).0 in
      elim (consume_bulk-Consumed s ip n v.0) [
        | refused no_answer same ↦
            rw (no_answer, same) (omega (arith, granted-global s calls v.1 h))
        | charged granted_it limit used fits own ↦
            let more =
              ap (bytes_by day everyone) used
              ∙ charge-everyone day (rate_key net ip) n s.bulk_used in
            let room = fits h in
            rw granted_it (
              omega
                (arith, more, room, v.0, granted-global s' calls v.1 (omega (arith, more, room))))
      ]

  own_room :
      (k limit : ℕ) (s : Store) (ip n : ℕ)
      → (rate_key net ip == k) ≡ true
      → s.bulk_per_day ≡ limit
      → 0 < limit
      → limit < 2 ^ 62
      → (0 < s.bulk_per_day
          → s.bulk_per_day < 2 ^ 62
          → bytes_by day (rate_key net ip) s.bulk_used ≤ s.bulk_per_day
          → bytes_by day (rate_key net ip) s.bulk_used + n ≤ s.bulk_per_day)
      → bytes_by day k s.bulk_used ≤ limit
      → bytes_by day k s.bulk_used + n ≤ limit
  own_room k limit s ip n mine same p l own =
      subst (λ (j : ℕ). bytes_by day j s.bulk_used ≤ limit → bytes_by day j s.bulk_used + n ≤ limit)
        (==→eq (rate_key net ip) k mine)
        (λ h.
          omega
            (arith, own (omega (arith, same)) (omega (arith, same)) (omega (arith, same, h)), same))

  granted-key :
      (k limit : ℕ) (s : Store) (calls : List (ℕ × ℕ))
      → ¬ (0 ≡ k)
      → 0 < limit
      → limit < 2 ^ 62
      → All (λ c. c.1 < 2 ^ 62) calls
      → s.bulk_per_day ≡ limit
      → bytes_by day k s.bulk_used ≤ limit
      → granted net day (λ j. j == k) s calls + bytes_by day k s.bulk_used ≤ limit
  unfolding granted
  granted-key k limit s [] z p l v same_limit h = omega arith
  granted-key k limit s ((ip, n) ∷ calls) z p l v same_limit h =
      let s' = (consume_bulk net s ip n day).0 in
      elim (consume_bulk-Consumed s ip n v.0) [
        | refused no_answer same ↦
            rw (no_answer, same) (omega (arith, granted-key k limit s calls z p l v.1 same_limit h))
        | charged granted_it limit' used fits own ↦
            let more =
              ap (bytes_by day k) used ∙ charge-key day (rate_key net ip) n k s.bulk_used z in
            elim (Bool-cases (rate_key net ip == k)) [
              | inl mine ↦
                  let more' = more ∙ ap grown mine in
                  let room = own_room k limit s ip n mine same_limit p l own h in
                  rw (granted_it, mine)
                    (omega (
                      arith,
                      more',
                      room,
                      granted-key k limit s' calls z p l v.1 (limit' ∙ same_limit)
                          (omega (arith, more', room, l)),
                    ))
              | inr other ↦
                  let more' = more ∙ ap grown other in
                  rw (granted_it, other)
                    (omega (
                      arith,
                      more',
                      granted-key k limit s' calls z p l v.1 (limit' ∙ same_limit)
                          (omega (arith, more')),
                    ))
            ]
      ]
    where
      grown : Bool → ℕ
      grown b = if b then int64_add (bytes_by day k s.bulk_used) n else bytes_by day k s.bulk_used

-- Over any calls of one day on a new store, by any addresses and of fewer than 2^62 bytes each,
-- `consumeBulk` grants no more than 4 GiB in all, and no more than 64 MiB to any one rate key but the
-- zero Addr, which stands for all: its sums of int64 do not wrap.
pub consume_bulk-quota :
    (net : NetIp) (day k max_obs retention sess_per_min att_per_10_min : ℕ) (calls : List (ℕ × ℕ))
    → ¬ (0 ≡ k)
    → All (λ c. c.1 < 2 ^ 62) calls
    → (granted net day (λ j. true) (new_store max_obs retention sess_per_min att_per_10_min) calls
        ≤ 4294967296)
      × (granted net day
            (λ j. j == k)
            (new_store max_obs retention sess_per_min att_per_10_min)
            calls
          ≤ 67108864)
unfolding new_store find
consume_bulk-quota net day k max_obs retention sess_per_min att_per_10_min calls h v =
    let s = new_store max_obs retention sess_per_min att_per_10_min in
    (
      omega (arith, granted-global net day s calls v (omega arith)),
      omega (
        arith,
        granted-key net day k 67108864 s calls h (omega arith) (omega arith) v refl (omega arith),
      ),
    )
