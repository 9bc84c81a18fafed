-- ===== src/Server/Store/Sessions/Rows.antt =====
-- internal/server/store.go: the rows are counted, capped, and stand under the session they name.
use censor_pulse_cli.Common.{
  bytes_key, All, All-find, All-put, Bytes, List, Option, String, [], ap, arith, find, length, none,
  put, refl, some, str_eq_iff, subst, sym, ℕ, ◌+◌, ◌∷◌, ◌≡◌, ◌≤◌,
}
use censor_pulse_cli.Server.Store.{Hex, Session, Store}
use censor_pulse_cli.Server.Store.Sessions.{
  rows_of, adopt, find_entry, named_session, parse_session_id, put_session, spelled, under,
}

-- The rows of all sessions.
unfoldable pub total_rows : List (Bytes × Session) → ℕ
total_rows [] = 0
total_rows ((id, sess) ∷ m) = length sess.obs + total_rows m

-- An entry of the session map: the session stands under its own id, within its cap, and each of its
-- rows carries that id.
pub record Held (hex : Hex) (entry : Bytes × Session) : Type 0 where
  pub own_id : entry.1.id ≡ entry.0
  pub capped : length entry.1.obs ≤ 8192
  pub own_rows : All (λ o. o.session_id ≡ hex.encode entry.0) entry.1.obs

pub record IsConsistent (hex : Hex) (s : Store) : Type 0 where
  pub counted : s.obs_count ≡ total_rows s.sessions
  pub bounded : s.obs_count ≤ s.obs_max
  pub held : All (Held hex) s.sessions

pub total_rows-put :
    (id : Bytes) (sess : Session) (m : List (Bytes × Session))
    → total_rows (put id sess m) + length (rows_of (find id m)) ≡ total_rows m + length sess.obs
unfolding total_rows put find
total_rows-put id sess [] = omega arith
total_rows-put id sess ((j, old) ∷ m) = ground (arith, total_rows-put id sess m)

module _ (hex : Hex) where
  adopt-obs :
      (o : Option Session) (sess : Session)
      → sess.obs ≡ []
      → length (adopt o sess).obs ≡ length (rows_of o)
  adopt-obs none sess fresh = ap length fresh
  adopt-obs (some old) sess fresh = refl

  adopt-Held :
      (o : Option Session) (sess : Session)
      → sess.obs ≡ []
      → ((old : Session) → o ≡ some old → Held hex (sess.id, old))
      → Held hex (sess.id, adopt o sess)
  adopt-Held none sess fresh h = record {
    own_id = refl;
    capped = omega (arith, ap length fresh);
    own_rows = subst (All (λ o. o.session_id ≡ hex.encode sess.id)) (sym fresh) tt;
  }
  adopt-Held (some old) sess fresh h = record {
    own_id = refl;
    capped = (h old refl).capped;
    own_rows = (h old refl).own_rows;
  }

  -- Storing a new session, or one whose id is known already, keeps the store consistent.
  pub put_session-IsConsistent :
      (s : Store) (sess : Session)
      → sess.obs ≡ []
      → IsConsistent hex s
      → IsConsistent hex (put_session s sess)
  unfolding put_session
  put_session-IsConsistent s sess fresh c = record {
    counted = omega (
      arith,
      c.counted,
      total_rows-put sess.id (adopt (find sess.id s.sessions) sess) s.sessions,
      adopt-obs (find sess.id s.sessions) sess fresh,
    );
    bounded = c.bounded;
    held = All-put (Held hex) sess.id (adopt (find sess.id s.sessions) sess) s.sessions c.held (
        adopt-Held (find sess.id s.sessions) sess fresh
          (λ old e. All-find (Held hex) sess.id old s.sessions c.held e));
  }

  -- What `addObservationAt` looks up.
  spelled-eq :
      (sid : String) (o : Option Bytes) (id : Bytes)
      → spelled hex sid o ≡ some id
      → hex.encode id ≡ sid
  spelled-eq sid none id e = cc
  spelled-eq sid (some b) id e = ground (arith, str_eq_iff (hex.encode b) sid)

  under-eq :
      (id : Bytes) (o : Option Session) (q : Bytes × Session)
      → under id o ≡ some q
      → (q.0 ≡ id) × (o ≡ some q.1)
  under-eq id none q e = cc
  under-eq id (some x) q e = ground arith

  find_entry-eq :
      (s : Store) (o : Option Bytes) (q : Bytes × Session)
      → find_entry s o ≡ some q
      → (o ≡ some q.0) × (find q.0 s.sessions ≡ some q.1)
  find_entry-eq s none q e = cc
  find_entry-eq s (some id) q e = ground (arith, under-eq id (find id s.sessions) q e)

  pub named_session-eq :
      (s : Store) (sid : String) (q : Bytes × Session)
      → named_session hex s sid ≡ some q
      → (hex.encode q.0 ≡ sid) × (find q.0 s.sessions ≡ some q.1)
  unfolding named_session
  named_session-eq s sid q e =
      let p = find_entry-eq s (spelled hex sid (parse_session_id hex sid)) q e in
      (spelled-eq sid (parse_session_id hex sid) q.0 p.0, p.1)
