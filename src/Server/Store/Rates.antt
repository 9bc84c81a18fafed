-- ===== src/Server/Store/Rates.antt =====
-- internal/server/store.go: the sliding windows of sessions and attempts.
pub mod Window
pub mod Calls
use censor_pulse_cli.Common.{
  nat_eq, Bool, List, Option, [], false, find, if◌then◌else◌, leb, length, ltb, none, put, some,
  true, ℕ, ◌*◌, ◌++◌, ◌+◌, ◌∷◌,
}
use censor_pulse_cli.Server.Store.{NetIp, Store, rate_key, minute, max_live_sessions}

-- `prune(ts, now.Add(-window))`: the times before the window are a prefix.
unfoldable pub prune : ℕ → ℕ → List ℕ → List ℕ
prune window now [] = []
prune window now (t ∷ ts) = if ltb (t + window) now then prune window now ts else t ∷ ts

abbrev pub times_of : Option (List ℕ) → List ℕ
times_of none = []
times_of (some ts) = ts

-- `m[ip]`, nil where it is not there.
abbrev pub times_at : ℕ → List (ℕ × List ℕ) → List ℕ
times_at ip m = times_of (find ip m)

-- The step that `allowSession` and `allowAttempt` share: prune the key's times, then admit the call
-- if fewer than `limit` are left.
unfoldable pub admit : ℕ → ℕ → ℕ → ℕ → List (ℕ × List ℕ) → List (ℕ × List ℕ) × Bool
admit window limit ip now m =
    let ts = prune window now (times_at ip m) in
    let pruned = put ip ts m in
    if leb limit (length ts) then (pruned, false) else (put ip (ts ++ (now ∷ [])) pruned, true)

-- `allowSession`
unfoldable pub allow_session : NetIp → Store → ℕ → ℕ → Store × Bool
allow_session net s ip now =
    if leb max_live_sessions (length s.sessions)
    then (s, false)
    else let (rate, allowed) = admit minute s.sess_per_min (rate_key net ip) now s.sess_rate in
      (record s { sess_rate = rate }, allowed)

-- `allowAttempt`
unfoldable pub allow_attempt : NetIp → Store → ℕ → ℕ → Store × Bool
allow_attempt net s ip now =
    let (rate, allowed) =
      admit (10 * minute) s.att_per_10_min (rate_key net ip) now s.attempt_rate in
    (record s { attempt_rate = rate }, allowed)
