-- ===== src/Server/Store/Gc.antt =====
-- internal/server/store.go: `gc`. `day` is the day of the year of `now`.
pub mod Keeps
use censor_pulse_cli.Common.{
  bytes_key, Bytes, List, [], filter, if◌then◌else◌, length, ltb, not, ℕ, ◌&&◌, ◌*◌, ◌+◌, ◌-◌, ◌==◌,
  ◌∷◌,
}
use censor_pulse_cli.Model.{Observation}
use censor_pulse_cli.Server.Store.{Session, Reservation, BulkUse, Store, minute}
use censor_pulse_cli.Server.Store.Rates.{prune}

-- The rows of a session that are not past retention.
unfoldable pub fresh_rows : ℕ → ℕ → List Observation → List Observation
fresh_rows now retention rows = filter (λ o. ltb now (o.first_seen_at + retention)) rows

-- The loop over the sessions, with the count of rows that it carries.
unfoldable pub sweep : ℕ → ℕ → List (Bytes × Session) → ℕ → List (Bytes × Session) × ℕ
sweep now retention [] count = ([], count)
sweep now retention ((id, sess) ∷ m) count =
    let keep = fresh_rows now retention sess.obs in
    let gone = sweep now retention m (count - length sess.obs) in
    let stays = sweep now retention m (count - (length sess.obs - length keep)) in
    if ltb (sess.expires + minute) now
    then gone
    else ((id, record sess { obs = keep }) ∷ stays.0, stays.1)

-- A rate limit entry goes when none of its times is in the window.
unfoldable pub live_rates : ℕ → ℕ → List (ℕ × List ℕ) → List (ℕ × List ℕ)
live_rates window now = filter (λ e. not (length (prune window now e.1) == 0))

unfoldable pub live_bulk : ℕ → List (ℕ × BulkUse) → List (ℕ × BulkUse)
live_bulk day = filter (λ e. e.1.day == day)

unfoldable pub live_reservations : ℕ → List Reservation → List Reservation
live_reservations now = filter (λ r. not r.used && ltb now (r.expires + minute))

-- `gc`
unfoldable pub gc : Store → ℕ → ℕ → Store
gc s now day =
    let swept = sweep now s.retention s.sessions s.obs_count in
    record s {
      sessions = swept.0;
      obs_count = swept.1;
      sess_rate = live_rates minute now s.sess_rate;
      attempt_rate = live_rates (10 * minute) now s.attempt_rate;
      bulk_used = live_bulk day s.bulk_used;
      reservations = live_reservations now s.reservations;
    }
