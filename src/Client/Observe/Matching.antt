-- ===== src/Client/Observe/Matching.antt =====
-- internal/client/merge.go: which observation an attempt is given.
use Prim.Native.String.{◌++◌ as text_append}
use censor_pulse_cli.Common.{
  string_key, All, All-append, All-find, All-put, Bool, Bool-cases, List, Option, String, [], arith,
  detail_at, false, find, inl, inr, none, not, refl, some, str_eq, str_eq_iff, subst, sym, true,
  ◌&&◌, ◌==◌, ◌∷◌, ◌≡◌, ◌≢◌,
}
use censor_pulse_cli.Model.{Observation}
use censor_pulse_cli.Client.Merge.{Runtime, Attempt}
use censor_pulse_cli.Client.Observe.{
  Index, by_own_nonce, empty_index, first, gives_way, index_attempt, index_dns, index_from,
  index_nonce, is_accepted, is_flow, is_follow_up, is_query, is_richer, nonce_key, by_last_resort,
  by_reservation, find_server, or_else_try,
}

-- What the maps hold, where P holds of every observation.
record IsIndexed (P : Observation → Type 0) (x : Index) : Type 0 where
  nonces : All (λ e. P e.1 × (e.0 ≡ nonce_key e.1.test_id e.1.nonce)) x.by_nonce
  attempts : All (λ e. P e.1 × (e.0 ≡ e.1.attempt_id)) x.by_attempt
  dns : All (λ o. P o × (o.parse ≡ "dns_query")) x.dns_obs

module _ (P : Observation → Type 0) where
  index_nonce-IsIndexed :
      (x : Index) (o : Observation) → P o → IsIndexed P x → IsIndexed P (index_nonce x o)
  unfolding index_nonce
  index_nonce-IsIndexed x o p h =
      elim (Bool-cases
        (not (str_eq o.nonce "") && is_richer (find (nonce_key o.test_id o.nonce) x.by_nonce) o)) [
          | inl t ↦ rw t (record {
            nonces = All-put _ (nonce_key o.test_id o.nonce) o x.by_nonce h.nonces (p, refl);
            attempts = h.attempts;
            dns = h.dns;
          })
          | inr t ↦ rw t h
        ]

  index_attempt-IsIndexed :
      (x : Index) (o : Observation) → P o → IsIndexed P x → IsIndexed P (index_attempt x o)
  unfolding index_attempt
  index_attempt-IsIndexed x o p h = elim (Bool-cases (str_eq o.attempt_id "")) [
    | inl t ↦ rw t h
    | inr t ↦ rw t (elim (Bool-cases (is_follow_up o)) [
      | inl u ↦ rw u (elim (Bool-cases (is_accepted o)) [
        | inl v ↦ rw v (elim (Bool-cases (str_eq (detail_at o.detail "stage") "control")) [
          | inl w ↦ rw w (record { nonces = h.nonces; attempts = h.attempts; dns = h.dns })
          | inr w ↦ rw w (record { nonces = h.nonces; attempts = h.attempts; dns = h.dns })
        ])
        | inr v ↦ rw v h
      ])
      | inr u ↦ rw u (elim (Bool-cases (gives_way (find o.attempt_id x.by_attempt) o)) [
        | inl v ↦ rw v (record {
          nonces = h.nonces;
          attempts = All-put _ o.attempt_id o x.by_attempt h.attempts (p, refl);
          dns = h.dns;
        })
        | inr v ↦ rw v h
      ])
    ])
  ]

  index_dns-IsIndexed :
      (x : Index) (o : Observation) → P o → IsIndexed P x → IsIndexed P (index_dns x o)
  unfolding index_dns
  index_dns-IsIndexed x o p h = elim (Bool-cases (str_eq o.parse "dns_query")) [
    | inl t ↦ rw t (record {
      nonces = h.nonces;
      attempts = h.attempts;
      dns = All-append _ x.dns_obs (o ∷ []) h.dns ((p, (str_eq_iff o.parse "dns_query").0 t), tt);
    })
    | inr t ↦ rw t h
  ]

  index_from-IsIndexed :
      (obs : List Observation) (x : Index)
      → All P obs
      → IsIndexed P x
      → IsIndexed P (index_from x obs)
  unfolding index_from
  index_from-IsIndexed [] x ps h = h
  index_from-IsIndexed (o ∷ obs) x ps h =
      index_from-IsIndexed obs (index_dns (index_attempt (index_nonce x o) o) o) ps.1 (
        index_dns-IsIndexed (index_attempt (index_nonce x o) o) o ps.0
          (index_attempt-IsIndexed (index_nonce x o) o ps.0 (index_nonce-IsIndexed x o ps.0 h)))

  first-All :
      (test : Observation → Bool) (obs : List Observation) (o : Observation)
      → All P obs
      → first test obs ≡ some o
      → P o × (test o ≡ true)
  unfolding first
  first-All test [] o ps e = absurd (ground (arith, e))
  first-All test (q ∷ obs) o ps e = elim (Bool-cases (test q)) [
    | inl t ↦ subst (λ r. P r × (test r ≡ true)) (some_path q o (rw t at e)) (ps.0, t)
    | inr t ↦ first-All test obs o ps.1 (rw t at e)
  ]
    where
      some_path : (r s : Observation) → some r ≡ some s → r ≡ s
      some_path r s h = cc

module _ (g : Runtime) (a : Attempt g) where
  -- The ways in which an observation is one of this attempt.
  pub data IsOwn (o : Observation) : Type 0 where
    -- The attempt has a nonce, and its test and nonce, joined with a slash, are those of the observation.
    same_nonce :
        a.nonce ≢ ""
        → text_append o.test_id (text_append "/" o.nonce)
          ≡ text_append a.test_id (text_append "/" a.nonce)
        → IsOwn o
    same_reservation : a.attempt_id ≢ "" → o.attempt_id ≡ a.attempt_id → IsOwn o
    -- A DNS test with a nonce, and a query for a name that begins with the nonce and a dot.
    own_query :
        g.has_prefix a.test_id "dns." ≡ true
        → a.nonce ≢ ""
        → o.parse ≡ "dns_query"
        → g.has_prefix (detail_at o.detail "qname") (text_append a.nonce ".") ≡ true
        → IsOwn o
    -- A TCP flow of the same test between the same ports, of which the server has a part.
    same_flow :
        (a.transport ≡ "tcp") × (o.transport ≡ "tcp")
        → (a.src_port ≢ 0) × (o.src_port ≡ a.src_port)
        → o.dst_port ≡ a.dst_port
        → o.test_id ≡ a.test_id
        → detail_at o.detail "partial" ≡ "true"
        → IsOwn o

  not_text : (x y : String) → str_eq x y ≡ false → x ≢ y
  not_text x y h e = ground (arith, h, (str_eq_iff x y).1 e)

  is_flow-IsOwn :
      (o : Observation)
      → (str_eq a.transport "tcp" && not (a.src_port == 0)) ≡ true
      → is_flow g a o ≡ true
      → IsOwn o
  unfolding is_flow
  is_flow-IsOwn o u f =
      same_flow
        (
          (str_eq_iff a.transport "tcp").0 (ground (arith, u)),
          (str_eq_iff o.transport "tcp").0 (ground (arith, f)),
        )
        (λ z. ground (arith, u, z), ground (arith, f)) (ground (arith, f))
        ((str_eq_iff o.test_id a.test_id).0 (ground (arith, f)))
        ((str_eq_iff (detail_at o.detail "partial") "true").0 (ground (arith, f)))

  is_query-IsOwn :
      (o : Observation)
      → (g.has_prefix a.test_id "dns." && not (str_eq a.nonce "")) ≡ true
      → o.parse ≡ "dns_query"
      → is_query g a o ≡ true
      → IsOwn o
  unfolding is_query
  is_query-IsOwn o t p f =
      own_query (ground (arith, t)) (not_text a.nonce "" (ground (arith, t))) p f

  module _ (P : Observation → Type 0) (obs : List Observation) (ps : All P obs)
      (o : Observation) where
    abbrev x : Index
    x = index_from empty_index obs

    indexed : IsIndexed P x
    indexed =
        index_from-IsIndexed P obs empty_index ps (record { nonces = tt; attempts = tt; dns = tt })

    by_own_nonce-IsOwn : by_own_nonce g a x ≡ some o → P o × IsOwn o
    unfolding by_own_nonce nonce_key
    by_own_nonce-IsOwn e = elim (Bool-cases (str_eq a.nonce "")) [
      | inl t ↦ absurd (ground (arith, rw t at e))
      | inr t ↦
          let f =
            All-find _ (nonce_key a.test_id a.nonce) o x.by_nonce indexed.nonces (rw t at e) in
          (f.0, same_nonce (not_text a.nonce "" t) (sym f.1))
    ]

    pub by_own_nonce-nonce_key :
        by_own_nonce g a x ≡ some o → nonce_key a.test_id a.nonce ≡ nonce_key o.test_id o.nonce
    unfolding by_own_nonce
    by_own_nonce-nonce_key e = elim (Bool-cases (str_eq a.nonce "")) [
      | inl t ↦ absurd (ground (arith, rw t at e))
      | inr t ↦ (All-find _ (nonce_key a.test_id a.nonce) o x.by_nonce indexed.nonces (rw t at e)).1
    ]

    by_reservation-IsOwn : by_reservation g a x ≡ some o → P o × IsOwn o
    unfolding by_reservation
    by_reservation-IsOwn e = elim (Bool-cases (str_eq a.attempt_id "")) [
      | inl t ↦ absurd (ground (arith, rw t at e))
      | inr t ↦
          let f = All-find _ a.attempt_id o x.by_attempt indexed.attempts (rw t at e) in
          (f.0, same_reservation (not_text a.attempt_id "" t) (sym f.1))
    ]

    by_last_resort-IsOwn : by_last_resort g a x obs ≡ some o → P o × IsOwn o
    unfolding by_last_resort
    by_last_resort-IsOwn e =
        elim (Bool-cases (g.has_prefix a.test_id "dns." && not (str_eq a.nonce ""))) [
          | inl t ↦
              let f = first-All _ (is_query g a) x.dns_obs o indexed.dns (rw t at e) in
              (f.0.0, is_query-IsOwn o t f.0.1 f.1)
          | inr t ↦ elim (Bool-cases (str_eq a.transport "tcp" && not (a.src_port == 0))) [
            | inl u ↦
                let f = first-All P (is_flow g a) obs o ps (rw (t, u) at e) in
                (f.0, is_flow-IsOwn o u f.1)
            | inr u ↦ absurd (ground (arith, rw (t, u) at e))
          ]
        ]

    or_else_try-IsOwn :
        (p q : Option Observation)
        → (p ≡ some o → P o × IsOwn o)
        → (q ≡ some o → P o × IsOwn o)
        → or_else_try p q ≡ some o
        → P o × IsOwn o
    or_else_try-IsOwn none q h k e = k e
    or_else_try-IsOwn (some r) q h k e = h e

    -- The observation that an attempt is given is one of those that were fetched, so that it has any
    -- property that they all have, and it is the attempt's own: it has the same test and nonce, joined
    -- with a slash, or the same reservation, or it is the query of a DNS test for a name with the
    -- attempt's nonce, or it is a partial TCP flow of the same test between the same two ports.
    pub find_server-IsOwn : find_server g a obs ≡ some o → P o × IsOwn o
    unfolding find_server
    find_server-IsOwn =
        or_else_try-IsOwn (by_own_nonce g a x)
          (or_else_try (by_reservation g a x) (by_last_resort g a x obs)) by_own_nonce-IsOwn
          (or_else_try-IsOwn (by_reservation g a x) (by_last_resort g a x obs) by_reservation-IsOwn
            by_last_resort-IsOwn)
