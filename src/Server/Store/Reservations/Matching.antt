-- ===== src/Server/Store/Reservations/Matching.antt =====
-- internal/server/store.go: which reservation a flow gets, and that it gets each one once.
use censor_pulse_cli.Common.{
  string_key, All, All-append, Bool, Bool-cases, List, Option, String, [], append-nil, append_assoc,
  ap₂, arith, dec_lt, false, get_elem?, get_elem?-append, get_elem?-append_length, if◌then◌else◌,
  inl, inr, length, length-append, le→ltb, lt→ltb, none, not, refl, some, str_eq, subst, suc, true,
  zero, ℕ, ◌&&◌, ◌++◌, ◌+◌, ◌∷◌, ◌≡◌, ◌≤◌,
}
use censor_pulse_cli.Server.Store.{NetIp, Reservation, Store}
use censor_pulse_cli.Server.Store.Reservations.{
  is_match, best_from, find_reservation, is_newer, match_reservation, take_best, use_at,
}

-- What the loop has found in the reservations that it has passed.
abbrev pub Best : (Reservation → Bool) → List Reservation → Option (ℕ × Reservation) → Type 0
Best test rs none = All (λ q. test q ≡ false) rs
Best test rs (some (i, r)) =
    (get_elem? rs i ≡ some r)
    × (test r ≡ true)
    × All (λ q. test q ≡ true → q.expires ≤ r.expires) rs

module _ (test : Reservation → Bool) where
  All-expires :
      (a b : ℕ) (rs : List Reservation)
      → a ≤ b
      → All (λ q. test q ≡ true → q.expires ≤ a) rs
      → All (λ q. test q ≡ true → q.expires ≤ b) rs
  All-expires a b [] h p = tt
  All-expires a b (r ∷ rs) h p = ((λ e. le_trans (p.0 e)), All-expires a b rs h p.1)
    where
      le_trans : r.expires ≤ a → r.expires ≤ b
      le_trans q = omega arith

  All-vacuous :
      (b : ℕ) (rs : List Reservation)
      → All (λ q. test q ≡ false) rs
      → All (λ q. test q ≡ true → q.expires ≤ b) rs
  All-vacuous b [] p = tt
  All-vacuous b (r ∷ rs) p = ((λ e. cc (p.0)), All-vacuous b rs p.1)

  step-Best :
      (passed : List Reservation) (best : Option (ℕ × Reservation)) (r : Reservation)
      → Best test passed best
      → Best test
          (passed ++ (r ∷ []))
          (if test r && is_newer r best then some (length passed, r) else best)
  step-Best passed none r h = elim (Bool-cases (test r)) [
    | inl hit ↦ rw hit (
      get_elem?-append_length passed r [],
      hit,
      All-append _ passed (r ∷ []) (All-vacuous r.expires passed h) ((λ _. omega arith), tt),
    )
    | inr miss ↦ rw miss (All-append _ passed (r ∷ []) h (miss, tt))
  ]
  step-Best passed (some (i, b)) r h = elim (Bool-cases (test r)) [
    | inl hit ↦ elim (dec_lt b.expires r.expires) [
      | yes newer ↦
          rw (hit, lt→ltb b.expires r.expires newer)
            (
              get_elem?-append_length passed r [],
              hit,
              All-append _ passed (r ∷ [])
                  (All-expires b.expires r.expires passed (omega arith) h.2)
                  ((λ _. omega arith), tt),
            )
      | no older ↦
          rw (hit, le→ltb b.expires r.expires (omega arith))
            (
              get_elem?-append passed (r ∷ []) i b h.0,
              h.1,
              All-append _ passed (r ∷ []) h.2 ((λ _. omega arith), tt),
            )
    ]
    | inr miss ↦ rw miss (
      get_elem?-append passed (r ∷ []) i b h.0,
      h.1,
      All-append _ passed (r ∷ []) h.2 ((λ e. cc miss), tt),
    )
  ]

  best_from-Best :
      (passed rs : List Reservation) (best : Option (ℕ × Reservation))
      → Best test passed best
      → Best test (passed ++ rs) (best_from test (length passed) best rs)
  unfolding best_from
  best_from-Best passed [] best h = rw append-nil h
  best_from-Best passed (r ∷ rs) best h =
      subst (λ (q : List Reservation × ℕ). Best test q.0 (best_from test q.1 found rs))
        (ap₂ (λ (x : List Reservation) (n : ℕ). (x, n)) (append_assoc passed (r ∷ []) rs)
          (length-append passed (r ∷ [])))
        (best_from-Best (passed ++ (r ∷ [])) rs found (step-Best passed best r h))
    where
      found : Option (ℕ × Reservation)
      found = if test r && is_newer r best then some (length passed, r) else best

-- The unused reservations of an id.
unfoldable pub unused_of : String → List Reservation → ℕ
unused_of id [] = 0
unused_of id (r ∷ rs) =
    let others = unused_of id rs in if not r.used && str_eq r.id id then 1 + others else others

-- Whether an answer is a reservation of an id.
abbrev pub answers_with : String → Option Reservation → ℕ
answers_with id none = 0
answers_with id (some r) = if str_eq r.id id then 1 else 0

use_at-unused_of :
    (id : String) (i : ℕ) (rs : List Reservation) (r : Reservation)
    → get_elem? rs i ≡ some r
    → r.used ≡ false
    → unused_of id (use_at i rs) + answers_with id (some r) ≡ unused_of id rs
unfolding use_at unused_of
use_at-unused_of id i [] r h u = cc
use_at-unused_of id zero (q ∷ rs) r h u =
    subst
      (λ (x : Reservation).
        x.used ≡ false
        → unused_of id (record q { used = true } ∷ rs) + answers_with id (some x)
          ≡ unused_of id (q ∷ rs))
      (some_path q r h) (λ v. ground arith) u
  where
    some_path : (x y : Reservation) → some x ≡ some y → x ≡ y
    some_path x y e = cc
use_at-unused_of id (suc i) (q ∷ rs) r h u = ground (arith, use_at-unused_of id i rs r h u)

module _ (net : NetIp) (s : Store) (ip : ℕ) (transport : String) (dst_port : ℕ) (kind : String)
    (now : ℕ) where
  abbrev test : Reservation → Bool
  test = is_match (net.unmap ip) transport dst_port kind now

  abbrev chosen : Option (ℕ × Reservation)
  chosen = best_from test 0 none s.reservations

  -- What a flow is given.
  pub data Answer (consume : Bool) (result : Store × Option Reservation) : Type 0 where
    nothing : All (λ q. test q ≡ false) s.reservations → result ≡ (s, none) → Answer consume result
    given :
        (i : ℕ) (r : Reservation)
        → get_elem? s.reservations i ≡ some r
        → test r ≡ true
        → All (λ q. test q ≡ true → q.expires ≤ r.expires) s.reservations
        → result ≡ (
            if consume
            then (
              record s { reservations = use_at i s.reservations },
              some (record r { used = true }),
            )
            else (s, some r))
        → Answer consume result

  -- `findReservation` answers a flow with a reservation that matches it, and with one that expires no
  -- earlier than any other match; it answers with none only where none matches. It changes the
  -- store only where it consumes what it found, and then marks that reservation and nothing else.
  pub find_reservation-Answer :
      (consume : Bool)
      → Answer consume (find_reservation net s ip transport dst_port kind now consume)
  unfolding find_reservation take_best
  find_reservation-Answer consume = go chosen (best_from-Best test [] s.reservations none tt)
    where
      go :
          (o : Option (ℕ × Reservation))
          → Best test s.reservations o
          → Answer consume (take_best s consume o)
      go none h = nothing h refl
      go (some (i, r)) h = given i r h.0 h.1 h.2 refl

  is_match-unused : (r : Reservation) → test r ≡ true → r.used ≡ false
  unfolding is_match
  is_match-unused r h = ground arith

  match_reservation-unused_of :
      (id : String)
      → unused_of id (match_reservation net s ip transport dst_port kind now).0.reservations
          + answers_with id (match_reservation net s ip transport dst_port kind now).1
        ≡ unused_of id s.reservations
  unfolding match_reservation
  match_reservation-unused_of id = elim (find_reservation-Answer true) [
    | nothing h e ↦ rw e (omega arith)
    | given i r at hit best e ↦
        rw e (use_at-unused_of id i s.reservations r at (is_match-unused r hit))
  ]

-- A flow that `matchReservation` is asked about.
pub record Flow : Type 0 where
  pub ip : ℕ
  pub transport : String
  pub dst_port : ℕ
  pub kind : String
  pub now : ℕ

module _ (net : NetIp) where
  abbrev asked : Store → Flow → Store × Option Reservation
  asked s f = match_reservation net s f.ip f.transport f.dst_port f.kind f.now

  -- The store after a sequence of flows.
  unfoldable pub after_flows : Store → List Flow → Store
  after_flows s [] = s
  after_flows s (f ∷ flows) = after_flows (asked s f).0 flows

  -- How many of the flows got a reservation of an id.
  unfoldable pub answered_with : String → Store → List Flow → ℕ
  answered_with id s [] = 0
  answered_with id s (f ∷ flows) =
      answers_with id (asked s f).1 + answered_with id (asked s f).0 flows

  -- Over any sequence of flows, the number of those that `matchReservation` answers with a reservation of
  -- some id is the number of unused reservations of this id that it uses up. The answer is thus the very
  -- reservation that is marked: as many flows get an id as there were unused reservations of it at
  -- most, one if the ids are distinct.
  pub match_reservation-once :
      (id : String) (s : Store) (flows : List Flow)
      → answered_with id s flows + unused_of id (after_flows s flows).reservations
        ≡ unused_of id s.reservations
  unfolding after_flows answered_with
  match_reservation-once id s [] = omega arith
  match_reservation-once id s (f ∷ flows) = omega (
    arith,
    match_reservation-once id (asked s f).0 flows,
    match_reservation-unused_of net s f.ip f.transport f.dst_port f.kind f.now id,
  )
