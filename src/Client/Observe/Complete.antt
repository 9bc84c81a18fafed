-- ===== src/Client/Observe/Complete.antt =====
-- internal/client/merge.go: an observation with the nonce of an attempt is found.
use mathlib.Core.Path.{ap₂}
use censor_pulse_cli.Common.{
  string_key, All, Bool, Bool-cases, List, Option, Option-cases, String, [], arith, false, find,
  find-put, find-put_self, inl, inr, none, not, put, refl, some, str_eq, subst, sym, true, ◌&&◌,
  ◌++◌, ◌∷◌, ◌≡◌,
}
use censor_pulse_cli.Model.{Observation}
use censor_pulse_cli.Client.Merge.{Runtime, Attempt}
use censor_pulse_cli.Client.Observe.Matching.{by_own_nonce-nonce_key}
use censor_pulse_cli.Client.Observe.{
  find_server, Index, by_own_nonce, index_attempt, index_dns, index_from, index_nonce, is_richer,
  nonce_key, empty_index, or_else_try,
}

abbrev pub is_found : Option Observation → Bool
is_found none = false
is_found (some o) = true

module _ (key : String) where
  found_put :
      (k : String) (o : Observation) (m : List (String × Observation))
      → is_found (find key m) ≡ true
      → is_found (find key (put k o m)) ≡ true
  found_put k o m h =
      rw (find-put k key o m)
        (elim (Bool-cases (str_eq k key)) [ inl t ↦ rw t refl | inr t ↦ rw t h ])

  found-index_nonce :
      (x : Index) (o : Observation)
      → is_found (find key x.by_nonce) ≡ true
      → is_found (find key (index_nonce x o).by_nonce) ≡ true
  unfolding index_nonce
  found-index_nonce x o h =
      elim (Bool-cases
        (not (str_eq o.nonce "") && is_richer (find (nonce_key o.test_id o.nonce) x.by_nonce) o)) [
          | inl t ↦ rw t (found_put (nonce_key o.test_id o.nonce) o x.by_nonce h)
          | inr t ↦ rw t h
        ]

  same_nonces :
      (x : Index) (o : Observation) → (index_dns (index_attempt x o) o).by_nonce ≡ x.by_nonce
  unfolding index_attempt index_dns
  same_nonces x o = ground arith

  found-index_from :
      (obs : List Observation) (x : Index)
      → is_found (find key x.by_nonce) ≡ true
      → is_found (find key (index_from x obs).by_nonce) ≡ true
  unfolding index_from
  found-index_from [] x h = h
  found-index_from (o ∷ obs) x h =
      found-index_from obs (index_dns (index_attempt (index_nonce x o) o) o)
        (rw (same_nonces (index_nonce x o) o) (found-index_nonce x o h))

index_nonce_found :
    (x : Index) (o : Observation)
    → str_eq o.nonce "" ≡ false
    → is_found (find (nonce_key o.test_id o.nonce) (index_nonce x o).by_nonce) ≡ true
unfolding index_nonce
index_nonce_found x o h =
    rw h (elim (Option-cases (find (nonce_key o.test_id o.nonce) x.by_nonce)) [
      | inl e ↦ rw (e, find-put_self (nonce_key o.test_id o.nonce) o x.by_nonce) refl
      | inr (prev, e) ↦ rw e (elim (Bool-cases (is_richer (some prev) o)) [
        | inl t ↦ rw (t, find-put_self (nonce_key o.test_id o.nonce) o x.by_nonce) refl
        | inr t ↦ rw (t, e) refl
      ])
    ])

index_from_found :
    (before after : List Observation) (x : Index) (o : Observation)
    → str_eq o.nonce "" ≡ false
    → is_found (find (nonce_key o.test_id o.nonce) (index_from x (before ++ o ∷ after)).by_nonce)
      ≡ true
unfolding index_from
index_from_found [] after x o h =
    found-index_from (nonce_key o.test_id o.nonce) after
      (index_dns (index_attempt (index_nonce x o) o) o)
      (rw (same_nonces (nonce_key o.test_id o.nonce) (index_nonce x o) o) (index_nonce_found x o h))
index_from_found (p ∷ before) after x o h =
    index_from_found before after (index_dns (index_attempt (index_nonce x p) p) p) o h

module _ (g : Runtime) (a : Attempt g) where
  first_found :
      (p q : Option Observation)
      → is_found p ≡ true
      → (r : Observation) × (p ≡ some r) × (or_else_try p q ≡ some r)
  first_found none q h = absurd (ground (arith, h))
  first_found (some r) q h = (r, refl, refl)

  own_found :
      (before after : List Observation) (o : Observation)
      → o.nonce ≡ a.nonce
      → o.test_id ≡ a.test_id
      → str_eq a.nonce "" ≡ false
      → is_found (by_own_nonce g a (index_from empty_index (before ++ o ∷ after))) ≡ true
  unfolding by_own_nonce
  own_found before after o n t h = rw h (
      subst (λ k. is_found (find k (index_from empty_index (before ++ o ∷ after)).by_nonce) ≡ true)
        (ap₂ nonce_key t n)
        (index_from_found before after empty_index o (subst (λ s. str_eq s "" ≡ false) (sym n) h)))

  any : (obs : List Observation) → All (λ o. Unit {0}) obs
  any [] = tt
  any (o ∷ obs) = (tt, any obs)

  -- If the server reported an observation with the attempt's test and its nonce, which is not empty,
  -- the attempt is given an observation with the key of that test and nonce, wherever it stands among
  -- the observations, and whatever the others are.
  pub find_server-nonce_key :
      (before after : List Observation) (o : Observation)
      → o.nonce ≡ a.nonce
      → o.test_id ≡ a.test_id
      → str_eq a.nonce "" ≡ false
      → (r : Observation) × (find_server g a (before ++ o ∷ after) ≡ some r)
        × (nonce_key a.test_id a.nonce ≡ nonce_key r.test_id r.nonce)
  unfolding find_server
  find_server-nonce_key before after o n t h =
      let obs = before ++ o ∷ after in
      let f =
        first_found (by_own_nonce g a (index_from empty_index obs)) _
          (own_found before after o n t h) in
      (f.0, f.2, by_own_nonce-nonce_key g a (λ q. Unit {0}) obs (any obs) f.0 f.1)
