-- ===== src/Client/Observe/Counts.antt =====
-- internal/client/merge.go: the packets after the handshake are counted for each attempt.
use censor_pulse_cli.Common.{
  string_key, Bool, Bool-cases, List, String, [], ap, arith, detail_at, false, filter, find,
  find-put, if◌then◌else◌, inl, inr, length, length-filter_cons, not, one_if, put, refl, str_eq,
  str_eq_iff, true, ℕ, ◌&&◌, ◌+◌, ◌∙◌, ◌∷◌, ◌≡◌,
}
use censor_pulse_cli.Model.{Observation}
use censor_pulse_cli.Client.Observe.{
  index_from, Index, count_of, count_up, index_attempt, index_dns, index_nonce, is_accepted,
  is_follow_up, empty_index, gives_way,
}

-- A packet that is counted for the reservation `id`, on the control channel or not.
abbrev pub is_counted : Bool → String → Observation → Bool
is_counted control id o =
    not (str_eq o.attempt_id "")
    && is_follow_up o
    && is_accepted o
    && (if control
        then str_eq (detail_at o.detail "stage") "control"
        else not (str_eq (detail_at o.detail "stage") "control"))
    && str_eq o.attempt_id id

abbrev pub counts_of : Bool → Index → List (String × ℕ)
counts_of control x = if control then x.ctl_seen else x.data_seen

pub count_up_lem :
    (key id : String) (m : List (String × ℕ))
    → count_of (find id (count_up key m)) ≡ count_of (find id m) + one_if (str_eq key id)
count_up_lem key id m = elim (Bool-cases (str_eq key id)) [
  | inl e ↦ rw (find-put key id (count_of (find key m) + 1) m, e, (str_eq_iff key id).0 e) refl
  | inr e ↦ rw (find-put key id (count_of (find key m) + 1) m, e) (omega arith)
]

counts_of-index_nonce :
    (control : Bool) (x : Index) (o : Observation)
    → counts_of control (index_nonce x o) ≡ counts_of control x
unfolding index_nonce
counts_of-index_nonce true x o = ground arith
counts_of-index_nonce false x o = ground arith

counts_of-index_dns :
    (control : Bool) (x : Index) (o : Observation)
    → counts_of control (index_dns x o) ≡ counts_of control x
unfolding index_dns
counts_of-index_dns true x o = ground arith
counts_of-index_dns false x o = ground arith

accepted_counts :
    (control stage : Bool) (id key : String) (x : Index)
    → count_of (
        find id (
          counts_of control (
            if stage
            then record x { ctl_seen = count_up key x.ctl_seen }
            else record x { data_seen = count_up key x.data_seen })))
      ≡ count_of (find id (counts_of control x))
        + one_if ((if control then stage else not stage) && str_eq key id)
accepted_counts true true id key x = count_up_lem key id x.ctl_seen
accepted_counts true false id key x = omega arith
accepted_counts false true id key x = omega arith
accepted_counts false false id key x = count_up_lem key id x.data_seen

counts_of-by_attempt :
    (control : Bool) (x : Index) (m : List (String × Observation))
    → counts_of control (record x { by_attempt = m }) ≡ counts_of control x
counts_of-by_attempt true x m = refl
counts_of-by_attempt false x m = refl

index_attempt_counts :
    (control : Bool) (id : String) (x : Index) (o : Observation)
    → count_of (find id (counts_of control (index_attempt x o)))
      ≡ count_of (find id (counts_of control x)) + one_if (is_counted control id o)
unfolding index_attempt
index_attempt_counts control id x o = elim (Bool-cases (str_eq o.attempt_id "")) [
  | inl t ↦ rw t (omega arith)
  | inr t ↦ rw t (elim (Bool-cases (is_follow_up o)) [
    | inl u ↦ rw u (elim (Bool-cases (is_accepted o)) [
      | inl v ↦ rw v (
          accepted_counts control (str_eq (detail_at o.detail "stage") "control") id o.attempt_id x)
      | inr v ↦ rw v (omega arith)
    ])
    | inr u ↦ rw u (elim (Bool-cases (gives_way (find o.attempt_id x.by_attempt) o)) [
      | inl v ↦
          rw (v, counts_of-by_attempt control x (put o.attempt_id o x.by_attempt)) (omega arith)
      | inr v ↦ rw v (omega arith)
    ])
  ])
]

index_step_counts :
    (control : Bool) (id : String) (x : Index) (o : Observation)
    → count_of (find id (counts_of control (index_dns (index_attempt (index_nonce x o) o) o)))
      ≡ count_of (find id (counts_of control x)) + one_if (is_counted control id o)
index_step_counts control id x o =
    ap (λ m. count_of (find id m))
      (counts_of-index_dns control (index_attempt (index_nonce x o) o) o)
    ∙ index_attempt_counts control id (index_nonce x o) o
    ∙ ap (λ m. count_of (find id m) + one_if (is_counted control id o))
        (counts_of-index_nonce control x o)

index_from_counts :
    (control : Bool) (id : String) (x : Index) (obs : List Observation)
    → count_of (find id (counts_of control (index_from x obs)))
      ≡ count_of (find id (counts_of control x)) + length (filter (is_counted control id) obs)
unfolding index_from
index_from_counts control id x [] = omega arith
index_from_counts control id x (o ∷ obs) =
    index_from_counts control id (index_dns (index_attempt (index_nonce x o) o) o) obs
    ∙ ap (λ (n : ℕ). n + length (filter (is_counted control id) obs))
        (index_step_counts control id x o)
    ∙ omega (arith, length-filter_cons (is_counted control id) o obs)

-- For each reservation and each of the two channels, the number of packets after the handshake that
-- the first loop counts is the number of reported observations that are such packets of that
-- reservation and that the server accepted.
pub count_of-index_from :
    (control : Bool) (id : String) (obs : List Observation)
    → count_of (find id (counts_of control (index_from empty_index obs)))
      ≡ length (filter (is_counted control id) obs)
unfolding find
count_of-index_from true id obs = index_from_counts true id empty_index obs ∙ omega arith
count_of-index_from false id obs = index_from_counts false id empty_index obs ∙ omega arith
