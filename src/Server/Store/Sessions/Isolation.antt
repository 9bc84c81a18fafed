-- ===== src/Server/Store/Sessions/Isolation.antt =====
-- internal/server/store.go: a row is refused or kept, and disturbs no other row.
use censor_pulse_cli.Common.{
  bytes_key, All-append, All-find, All-put, Bool, Bool-cases, Bytes, Option, String, [], ap, arith,
  dec_lt, false, find, find-put_other, find-put_self, if◌then◌else◌, inl, inr, length,
  length-append, le→leb, le→ltb, lt→leb, lt→ltb, none, put, refl, some, str_eq, str_eq_iff, subst,
  sym, true, ℕ, ◌&&◌, ◌++◌, ◌+◌, ◌<◌, ◌∙◌, ◌∷◌, ◌≡◌, ◌≤◌,
}
use censor_pulse_cli.Model.{Observation}
use censor_pulse_cli.Server.Store.Sessions.Rows.{
  IsConsistent, named_session-eq, Held, total_rows-put,
}
use censor_pulse_cli.Server.Store.{Session, Store, Drops, total_drops, Hex}
use censor_pulse_cli.Server.Store.Sessions.{
  record_row, add_observation, named_session, rows_of, with_id,
}

-- The store with a row added to a session.
abbrev pub with_row : Store → Bytes → Session → Observation → Store
with_row s id sess o = record s {
  sessions = put id (record sess { obs = sess.obs ++ (o ∷ []) }) s.sessions;
  obs_count = s.obs_count + 1;
}

-- The two things that can become of a row.
pub data Outcome (s : Store) (entry : Option (Bytes × Session)) (o : Observation) (now : ℕ)
    (r : Store × Bool) : Type 0 where
  kept :
      (id : Bytes) (sess : Session)
      → entry ≡ some (id, sess)
      → now ≤ sess.expires
      → length sess.obs < 8192
      → s.obs_count < s.obs_max
      → r ≡ (with_row s id sess o, true)
      → Outcome s entry o now r
  refused :
      (d : Drops)
      → total_drops d ≡ total_drops s.drops + 1
      → r ≡ (record s { drops = d }, false)
      → Outcome s entry o now r

record_row-Outcome :
    (s : Store) (entry : Option (Bytes × Session)) (o : Observation) (now : ℕ)
    → Outcome s entry o now (record_row s entry o now)
unfolding record_row total_drops
record_row-Outcome s none o now = refused _ (omega arith) refl
record_row-Outcome s (some (id, sess)) o now = elim (dec_lt sess.expires now) [
  | yes late ↦ rw (lt→ltb sess.expires now late) (refused _ (omega arith) refl)
  | no alive ↦ rw (le→ltb sess.expires now (omega arith)) (elim (dec_lt (length sess.obs) 8192) [
    | no full ↦ rw (le→leb 8192 (length sess.obs) (omega arith)) (refused _ (omega arith) refl)
    | yes room ↦ rw (lt→leb 8192 (length sess.obs) room) (elim (dec_lt s.obs_count s.obs_max) [
      | no full ↦ rw (le→leb s.obs_max s.obs_count (omega arith)) (refused _ (omega arith) refl)
      | yes space ↦
          rw (lt→leb s.obs_max s.obs_count space) (kept id sess refl (omega arith) room space refl)
    ])
  ])
]

module _ (hex : Hex) (fresh : String) (s : Store) (o : Observation) (now : ℕ) where
  abbrev entry : Option (Bytes × Session)
  entry = named_session hex s o.session_id

  abbrev r : Store × Bool
  r = add_observation hex fresh s o now

  outcome : Outcome s entry (with_id fresh o) now r
  unfolding add_observation
  outcome = record_row-Outcome s entry (with_id fresh o) now

  with_id-session_id : (with_id fresh o).session_id ≡ o.session_id
  with_id-session_id = ground arith

  encode-injective : (a b : Bytes) → hex.encode a ≡ hex.encode b → a ≡ b
  encode-injective a b e = cc (hex.decode-encode a, hex.decode-encode b)

  with_row-rows :
      (id j : Bytes) (sess : Session)
      → hex.encode id ≡ o.session_id
      → find id s.sessions ≡ some sess
      → rows_of (find j (with_row s id sess (with_id fresh o)).sessions) ≡ (
          if str_eq (hex.encode j) o.session_id
          then rows_of (find j s.sessions) ++ (with_id fresh o ∷ [])
          else rows_of (find j s.sessions))
  with_row-rows id j sess name there = elim (Bool-cases (str_eq (hex.encode j) o.session_id)) [
    | inl same ↦
        let e =
          encode-injective id j (name ∙ sym ((str_eq_iff (hex.encode j) o.session_id).0 same)) in
        rw same (
          subst
            (λ (k : Bytes).
              rows_of (find k (with_row s id sess (with_id fresh o)).sessions)
              ≡ rows_of (find k s.sessions) ++ (with_id fresh o ∷ []))
            e
            (rw
              (
                find-put_self id (record sess { obs = sess.obs ++ (with_id fresh o ∷ []) })
                    s.sessions,
                there,
              )
              refl))
    | inr diff ↦ rw diff (
        ap rows_of (
          find-put_other id j (record sess { obs = sess.obs ++ (with_id fresh o ∷ []) }) s.sessions
            (λ e. cc ((str_eq_iff (hex.encode j) o.session_id).1 (ap hex.encode (sym e) ∙ name)))))
  ]

  -- Every row that is offered is counted once: as a row held, or as a drop.
  pub add_observation-counts :
      r.0.obs_count + total_drops r.0.drops ≡ s.obs_count + total_drops s.drops + 1
  add_observation-counts = elim outcome [
    | kept id sess e alive room space q ↦ rw q (omega arith)
    | refused d more q ↦ rw q (omega (arith, more))
  ]

  -- Offering a row to the store leaves the rows of every session as they are, but for this: if it is
  -- kept, it is added behind the rows of the session whose id the row spells.
  pub add_observation-rows :
      (j : Bytes)
      → rows_of (find j r.0.sessions) ≡ (
          if r.1 && str_eq (hex.encode j) o.session_id
          then rows_of (find j s.sessions) ++ (with_id fresh o ∷ [])
          else rows_of (find j s.sessions))
  add_observation-rows j = elim outcome [
    | kept id sess e alive room space q ↦
        let p = named_session-eq hex s o.session_id (id, sess) e in
        rw q (with_row-rows id j sess p.0 p.1)
    | refused d more q ↦ rw q refl
  ]

  with_row-IsConsistent :
      (id : Bytes) (sess : Session)
      → entry ≡ some (id, sess)
      → length sess.obs < 8192
      → s.obs_count < s.obs_max
      → IsConsistent hex s
      → IsConsistent hex (with_row s id sess (with_id fresh o))
  with_row-IsConsistent id sess e room space c =
      let p = named_session-eq hex s o.session_id (id, sess) e in
      let h = All-find (Held hex) id sess s.sessions c.held p.1 in
      let longer = length-append sess.obs (with_id fresh o ∷ []) in
      record {
        counted = omega (
          arith,
          c.counted,
          longer,
          total_rows-put id (record sess { obs = sess.obs ++ (with_id fresh o ∷ []) }) s.sessions,
          ap (λ (x : Option Session). length (rows_of x)) p.1,
        );
        bounded = omega arith;
        held =
            All-put (Held hex) id (record sess { obs = sess.obs ++ (with_id fresh o ∷ []) })
              s.sessions c.held
              (record {
                own_id = h.own_id;
                capped = omega (arith, longer);
                own_rows =
                    All-append (λ o. o.session_id ≡ hex.encode id) sess.obs (with_id fresh o ∷ [])
                      h.own_rows (with_id-session_id ∙ sym p.0, tt);
              });
      }

  -- Offering a row keeps the store consistent.
  pub add_observation-IsConsistent : IsConsistent hex s → IsConsistent hex r.0
  add_observation-IsConsistent c = elim outcome [
    | kept id sess e alive room space q ↦ rw q (with_row-IsConsistent id sess e room space c)
    | refused d more q ↦ rw q (record { counted = c.counted; bounded = c.bounded; held = c.held })
  ]
