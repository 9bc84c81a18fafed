-- ===== src/Server/Store/Bulk.antt =====
-- internal/server/store.go: the bulk transfer quotas. `day` is the day of the year of the call's time.
-- A number of bytes is an int64, which is its bit pattern, below 2^64.
pub mod Quota
use censor_pulse_cli.Common.{
  nat_eq, Bool, List, Option, false, find, if◌then◌else◌, ltb, none, put, some, true, ℕ, ◌%◌, ◌&&◌,
  ◌+◌, ◌==◌, ◌^◌,
}
use censor_pulse_cli.Server.Store.{NetIp, BulkUse, Store, rate_key, bulk_global_per_day}

-- Addition and order of int64.
abbrev pub int64_add : ℕ → ℕ → ℕ
int64_add a b = (a + b) % 2 ^ 64

abbrev pub int64_ltb : ℕ → ℕ → Bool
int64_ltb a b = ltb ((a + 2 ^ 63) % 2 ^ 64) ((b + 2 ^ 63) % 2 ^ 64)

-- What a key has used today; the zero bulkUse where the key is not there.
abbrev pub use_today : ℕ → Option BulkUse → BulkUse
use_today day none = record { day = day; bytes = 0 }
use_today day (some u) = if u.day == day then u else record { day = day; bytes = 0 }

abbrev pub used_by : ℕ → ℕ → List (ℕ × BulkUse) → BulkUse
used_by day key m = use_today day (find key m)

abbrev pub add_bytes : BulkUse → ℕ → BulkUse
add_bytes u n = record u { bytes = int64_add u.bytes n }

-- The zero Addr is the key of the global quota.
abbrev pub everyone : ℕ
everyone = 0

-- `consumeBulk`
unfoldable pub consume_bulk : NetIp → Store → ℕ → ℕ → ℕ → Store × Bool
consume_bulk net s ip n day =
    let key = rate_key net ip in
    let u = used_by day key s.bulk_used in
    let g = used_by day everyone s.bulk_used in
    if int64_ltb 0 s.bulk_per_day && int64_ltb s.bulk_per_day (int64_add u.bytes n)
    then (s, false)
    else if int64_ltb bulk_global_per_day (int64_add g.bytes n)
    then (s, false)
    else (
      record s { bulk_used = put everyone (add_bytes g n) (put key (add_bytes u n) s.bulk_used) },
      true,
    )
