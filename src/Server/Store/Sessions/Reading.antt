-- ===== src/Server/Store/Sessions/Reading.antt =====
-- internal/server/store.go: what `observationsFor` returns.
use mathlib.Core.List.{Perm}
use mathlib.Core.List.Perm
use censor_pulse_cli.Common.{
  bytes_key, All, All-find, Bool-cases, Bytes, List, Option, String, [], arith, dec_lt, find, inl,
  inr, le→ltb, ltb, lt→ltb, none, refl, some, ℕ, ◌∷◌, ◌≡◌, ◌≤◌,
}
use censor_pulse_cli.Model.{Observation}
use censor_pulse_cli.Server.Store.{Hex, Session, Store}
use censor_pulse_cli.Server.Store.Sessions.{
  observations_for, sort_rows, insert_row, parse_session_id, rows_of,
}
use censor_pulse_cli.Server.Store.Sessions.Rows.{IsConsistent, Held}

-- The rows stand in the order of the times at which their flows began.
abbrev pub IsOrdered : List Observation → Type 0
IsOrdered [] = Unit {0}
IsOrdered (o ∷ rows) = All (λ p. o.first_seen_at ≤ p.first_seen_at) rows × IsOrdered rows

insert_row-All :
    (P : Observation → Type 0) (o : Observation) (rows : List Observation)
    → P o
    → All P rows
    → All P (insert_row o rows)
unfolding insert_row
insert_row-All P o [] h a = (h, tt)
insert_row-All P o (p ∷ rows) h a = elim (Bool-cases (ltb p.first_seen_at o.first_seen_at)) [
  | inl before ↦ rw before (a.0, insert_row-All P o rows h a.1)
  | inr not_before ↦ rw not_before (h, a)
]

All-later :
    (a b : ℕ) (rows : List Observation)
    → a ≤ b
    → All (λ p. b ≤ p.first_seen_at) rows
    → All (λ p. a ≤ p.first_seen_at) rows
All-later a b [] h r = tt
All-later a b (p ∷ rows) h r = (omega (arith, r.0), All-later a b rows h r.1)

insert_row-IsOrdered :
    (o : Observation) (rows : List Observation) → IsOrdered rows → IsOrdered (insert_row o rows)
unfolding insert_row
insert_row-IsOrdered o [] h = (tt, tt)
insert_row-IsOrdered o (p ∷ rows) h = elim (dec_lt p.first_seen_at o.first_seen_at) [
  | yes before ↦ rw (lt→ltb p.first_seen_at o.first_seen_at before) (
    insert_row-All (λ q. p.first_seen_at ≤ q.first_seen_at) o rows (omega arith) h.0,
    insert_row-IsOrdered o rows h.1,
  )
  | no not_before ↦
      rw (le→ltb p.first_seen_at o.first_seen_at (omega arith))
        ((omega arith, All-later o.first_seen_at p.first_seen_at rows (omega arith) h.0), h)
]

insert_row-perm : (o : Observation) (rows : List Observation) → Perm (insert_row o rows) (o ∷ rows)
unfolding insert_row
insert_row-perm o [] = Perm.refl (o ∷ [])
insert_row-perm o (p ∷ rows) = elim (Bool-cases (ltb p.first_seen_at o.first_seen_at)) [
  | inl before ↦ rw before (Perm.trans (Perm.cons p (insert_row-perm o rows)) (Perm.swap o p rows))
  | inr not_before ↦ rw not_before (Perm.refl (o ∷ p ∷ rows))
]

sort_rows-IsOrdered : (rows : List Observation) → IsOrdered (sort_rows rows)
unfolding sort_rows
sort_rows-IsOrdered [] = tt
sort_rows-IsOrdered (o ∷ rows) = insert_row-IsOrdered o (sort_rows rows) (sort_rows-IsOrdered rows)

sort_rows-perm : (rows : List Observation) → Perm (sort_rows rows) rows
unfolding sort_rows
sort_rows-perm [] = Perm.refl []
sort_rows-perm (o ∷ rows) =
    Perm.trans (insert_row-perm o (sort_rows rows)) (Perm.cons o (sort_rows-perm rows))

sort_rows-All :
    (P : Observation → Type 0) (rows : List Observation) → All P rows → All P (sort_rows rows)
unfolding sort_rows
sort_rows-All P [] h = tt
sort_rows-All P (o ∷ rows) h = insert_row-All P o (sort_rows rows) h.0 (sort_rows-All P rows h.1)

own_rows :
    (hex : Hex) (s : Store) (id : Bytes) (o : Option Session)
    → find id s.sessions ≡ o
    → IsConsistent hex s
    → All (λ r. r.session_id ≡ hex.encode id) (rows_of o)
own_rows hex s id none e c = tt
own_rows hex s id (some sess) e c = (All-find (Held hex) id sess s.sessions c.held e).own_rows

-- On a consistent store, `observationsFor` returns exactly the rows of the session that it is asked
-- for, each of which names that session, in the order of the times at which their flows began.
pub observations_for-own :
    (hex : Hex) (s : Store) (sid : String) (id : Bytes)
    → IsConsistent hex s
    → parse_session_id hex sid ≡ some id
    → Perm (observations_for hex s sid) (rows_of (find id s.sessions))
      × All (λ r. r.session_id ≡ hex.encode id) (observations_for hex s sid)
      × IsOrdered (observations_for hex s sid)
unfolding observations_for
observations_for-own hex s sid id c e = rw e (
  sort_rows-perm (rows_of (find id s.sessions)),
  sort_rows-All (λ r. r.session_id ≡ hex.encode id) (rows_of (find id s.sessions))
      (own_rows hex s id (find id s.sessions) refl c),
  sort_rows-IsOrdered (rows_of (find id s.sessions)),
)
