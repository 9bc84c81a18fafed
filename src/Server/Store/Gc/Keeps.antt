-- ===== src/Server/Store/Gc/Keeps.antt =====
-- internal/server/store.go: what `gc` keeps.
use censor_pulse_cli.Server.Store.Reservations.{is_match}
use censor_pulse_cli.Common.{
  bytes_key, All, All-filter, Bool, Bool-cases, Bytes, List, Option, String, [], ap, arith, filter,
  find, if◌then◌else◌, inl, inr, length, length-filter-le, le→ltb, ltb, none, refl, some, true, ℕ,
  ◌+◌, ◌-◌, ◌∙◌, ◌∷◌, ◌≡◌, ◌≤◌,
}
use censor_pulse_cli.Model.{Observation}
use censor_pulse_cli.Server.Store.{Hex, Session, minute, Store}
use censor_pulse_cli.Server.Store.Sessions.{live, get_session}
use censor_pulse_cli.Server.Store.Sessions.Rows.{Held, total_rows, IsConsistent}
use censor_pulse_cli.Server.Store.Gc.{sweep, fresh_rows, gc, live_reservations}

sweep-count :
    (now retention extra : ℕ) (m : List (Bytes × Session)) (count : ℕ)
    → count ≡ extra + total_rows m
    → (sweep now retention m count).1 ≡ extra + total_rows (sweep now retention m count).0
unfolding sweep total_rows fresh_rows
sweep-count now retention extra [] count h = h
sweep-count now retention extra ((id, sess) ∷ m) count h =
    elim (Bool-cases (ltb (sess.expires + minute) now)) [
      | inl old ↦ rw old (sweep-count now retention extra m (count - length sess.obs) (omega arith))
      | inr alive ↦ rw alive (
          sweep-count now retention (extra + length keep) m
            (count - (length sess.obs - length keep)) (omega (arith, shorter))
          ∙ omega arith)
    ]
  where
    keep : List Observation
    keep = fresh_rows now retention sess.obs

    shorter : length keep ≤ length sess.obs
    shorter = length-filter-le (λ o. ltb now (o.first_seen_at + retention)) sess.obs

sweep-le :
    (now retention count : ℕ) (m : List (Bytes × Session)) → (sweep now retention m count).1 ≤ count
unfolding sweep
sweep-le now retention count [] = omega arith
sweep-le now retention count ((id, sess) ∷ m) =
    elim (Bool-cases (ltb (sess.expires + minute) now)) [
      | inl old ↦ rw old (omega (arith, sweep-le now retention (count - length sess.obs) m))
      | inr alive ↦ rw alive (
          omega (
            arith,
            sweep-le now retention
                (count - (length sess.obs - length (fresh_rows now retention sess.obs))) m,
          ))
    ]

keep-Held :
    (hex : Hex) (now retention : ℕ) (id : Bytes) (sess : Session)
    → Held hex (id, sess)
    → Held hex (id, record sess { obs = fresh_rows now retention sess.obs })
unfolding fresh_rows
keep-Held hex now retention id sess h = record {
  own_id = h.own_id;
  capped = omega (arith, h.capped, length-filter-le fresh sess.obs);
  own_rows = All-filter (λ o. o.session_id ≡ hex.encode id) fresh sess.obs h.own_rows;
}
  where
    fresh : Observation → Bool
    fresh o = ltb now (o.first_seen_at + retention)

sweep-Held :
    (hex : Hex) (now retention count : ℕ) (m : List (Bytes × Session))
    → All (Held hex) m
    → All (Held hex) (sweep now retention m count).0
unfolding sweep
sweep-Held hex now retention count [] h = h
sweep-Held hex now retention count ((id, sess) ∷ m) h =
    elim (Bool-cases (ltb (sess.expires + minute) now)) [
      | inl old ↦ rw old (sweep-Held hex now retention (count - length sess.obs) m h.1)
      | inr alive ↦ rw alive (
        keep-Held hex now retention id sess h.0,
        sweep-Held hex now retention
            (count - (length sess.obs - length (fresh_rows now retention sess.obs))) m h.1,
      )
    ]

-- A collection keeps the store consistent: the count of rows is again that of the rows that are left.
pub gc-IsConsistent :
    (hex : Hex) (s : Store) (now day : ℕ) → IsConsistent hex s → IsConsistent hex (gc s now day)
unfolding gc
gc-IsConsistent hex s now day c = record {
  counted =
      sweep-count now s.retention 0 s.sessions s.obs_count (omega (arith, c.counted)) ∙ omega arith;
  bounded = omega (arith, c.bounded, sweep-le now s.retention s.obs_count s.sessions);
  held = sweep-Held hex now s.retention s.obs_count s.sessions c.held;
}

sweep-find :
    (now retention count : ℕ) (m : List (Bytes × Session)) (id : Bytes) (sess : Session)
    → find id m ≡ some sess
    → now ≤ sess.expires
    → find id (sweep now retention m count).0
      ≡ some (record sess { obs = fresh_rows now retention sess.obs })
unfolding sweep find
sweep-find now retention count [] id sess e h = cc
sweep-find now retention count ((j, other) ∷ m) id sess e h = ground (
  arith,
  sweep-find now retention (count - length other.obs) m id sess,
  sweep-find now retention
      (count - (length other.obs - length (fresh_rows now retention other.obs))) m id sess,
)

live-eq :
    (now : ℕ) (o : Option Session) (sess : Session)
    → live now o ≡ some sess
    → (o ≡ some sess) × (now ≤ sess.expires)
live-eq now none sess e = cc
live-eq now (some x) sess e = ground arith

-- A collection takes no session away that is still live: `getSession` finds it as before, less the
-- rows that are past retention.
pub get_session-gc :
    (s : Store) (now day : ℕ) (id : Bytes) (sess : Session)
    → get_session s id now ≡ some sess
    → get_session (gc s now day) id now
      ≡ some (record sess { obs = fresh_rows now s.retention sess.obs })
unfolding get_session gc
get_session-gc s now day id sess e =
    let (there, alive) = live-eq now (find id s.sessions) sess e in
    ap (live now) (sweep-find now s.retention s.obs_count s.sessions id sess there alive)
    ∙ ap
        (λ (b : Bool).
          if b then none else some (record sess { obs = fresh_rows now s.retention sess.obs }))
        (le→ltb sess.expires now alive)

filter-filter :
    {A : Type 0} (p q : A → Bool) (xs : List A)
    → ((x : A) → p x ≡ true → q x ≡ true)
    → filter p (filter q xs) ≡ filter p xs
filter-filter p q [] h = refl
filter-filter p q (x ∷ xs) h = ground (arith, h x, filter-filter p q xs h)

-- No flow can tell a collection from the reservations: those that match it, then or at any later
-- time, are the same, in the same order.
pub is_match-gc :
    (s : Store) (now day later ip : ℕ) (transport : String) (dst_port : ℕ) (kind : String)
    → now ≤ later
    → filter (is_match ip transport dst_port kind later) (gc s now day).reservations
      ≡ filter (is_match ip transport dst_port kind later) s.reservations
unfolding gc live_reservations
is_match-gc s now day later ip transport dst_port kind h =
    filter-filter (is_match ip transport dst_port kind later) _ s.reservations
      (unfold is_match in λ r m. ground arith)
