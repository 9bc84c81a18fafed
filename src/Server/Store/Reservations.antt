-- ===== src/Server/Store/Reservations.antt =====
-- internal/server/store.go: correlation windows for native handshakes. The code keeps pointers to
-- reservations; a reservation is named here by its place in the list.
pub mod Matching
use censor_pulse_cli.Common.{
  string_key, Bool, List, Option, String, [], false, if◌then◌else◌, ltb, none, not, put, some,
  str_eq, suc, true, zero, ℕ, ◌&&◌, ◌++◌, ◌+◌, ◌==◌, ◌||◌, ◌∷◌,
}
use censor_pulse_cli.Model.{Observation}
use censor_pulse_cli.Server.Store.{NetIp, Hex, Reservation, Store}

-- `reserve`; `fresh` is the id that the code draws.
unfoldable pub reserve : Store → String → Reservation → Store × String
reserve s fresh r =
    (record s { reservations = s.reservations ++ (record r { id = fresh } ∷ []) }, fresh)

-- The two tests of `findReservation` that skip a reservation.
unfoldable pub is_match : ℕ → String → ℕ → String → ℕ → Reservation → Bool
is_match ip transport dst_port kind now r =
    not (
      r.used
      || ltb r.expires now
      || not (r.client_ip == ip)
      || not (str_eq r.transport transport)
      || not (r.dst_port == dst_port))
    && not (not (str_eq r.kind "") && not (str_eq kind "") && not (str_eq r.kind kind))

abbrev pub is_newer : Reservation → Option (ℕ × Reservation) → Bool
is_newer r none = true
is_newer r (some (i, best)) = ltb best.expires r.expires

-- The loop of `findReservation`, at place `i`.
unfoldable pub best_from :
    (Reservation → Bool)
    → ℕ
    → Option (ℕ × Reservation)
    → List Reservation
    → Option (ℕ × Reservation)
best_from test i best [] = best
best_from test i best (r ∷ rs) =
    best_from test (i + 1) (if test r && is_newer r best then some (i, r) else best) rs

-- `best.Used = true`
unfoldable pub use_at : ℕ → List Reservation → List Reservation
use_at i [] = []
use_at zero (r ∷ rs) = record r { used = true } ∷ rs
use_at (suc i) (r ∷ rs) = r ∷ use_at i rs

unfoldable pub take_best : Store → Bool → Option (ℕ × Reservation) → Store × Option Reservation
take_best s consume none = (s, none)
take_best s consume (some (i, r)) =
    if consume
    then (record s { reservations = use_at i s.reservations }, some (record r { used = true }))
    else (s, some r)

-- `findReservation`
unfoldable pub find_reservation :
    NetIp → Store → ℕ → String → ℕ → String → ℕ → Bool → Store × Option Reservation
find_reservation net s ip transport dst_port kind now consume =
    take_best s consume
      (best_from (is_match (net.unmap ip) transport dst_port kind now) 0 none s.reservations)

-- `matchReservation`
unfoldable pub match_reservation :
    NetIp → Store → ℕ → String → ℕ → String → ℕ → Store × Option Reservation
match_reservation net s ip transport dst_port kind now =
    find_reservation net s ip transport dst_port kind now true

-- `attributeReservation`
unfoldable pub attribute_reservation :
    NetIp → Store → ℕ → String → ℕ → ℕ → Store × Option Reservation
attribute_reservation net s ip transport dst_port now =
    find_reservation net s ip transport dst_port "" now false

abbrev pub identity : Option Reservation → String × String
identity none = ("", "")
identity (some r) = (r.test_id, r.variant)

-- `peekReservation`
unfoldable pub peek_reservation : NetIp → Store → ℕ → String → ℕ → String → ℕ → String × String
peek_reservation net s ip transport dst_port kind now =
    identity (find_reservation net s ip transport dst_port kind now false).1

-- `applyReservation`
unfoldable pub apply_reservation : Hex → Observation → Reservation → Observation
apply_reservation hex o r = record o {
  session_id = hex.encode r.session_id;
  attempt_id = r.id;
  test_id = r.test_id;
  detail = if str_eq r.variant "" then o.detail else put "variant" r.variant o.detail;
}
