-- ===== src/Client/Attach/Chosen.antt =====
-- internal/client/merge.go: `mergeObservations` as a whole against the choice of the observation.
use censor_pulse_cli.Common.{
  Bool, List, Option, [], ap, detail_at, false, if_lem, none, refl, some, str_eq, suc, true, zero,
  ◌==◌, ◌||◌, ◌∙◌, ◌≡◌,
}
use censor_pulse_cli.Model.{Observation}
use censor_pulse_cli.Client.Integers.{ℤ, negsuc, pos}
use censor_pulse_cli.Client.Merge.{Runtime, Attempt, one_of}
use censor_pulse_cli.Client.Observe.{
  Index, index_from, find_server, by_last_resort, by_own_nonce, by_reservation, empty_index,
  is_flow, is_query, or_else_try,
}
use censor_pulse_cli.Client.Attach.{
  merge_attempt, attach, attach_to, mark_server_delay, note_burst, note_chunks, note_control,
  note_counts, note_data, note_packets, note_server_chunks, note_session, session_tests,
}

module _ (g : Runtime) where
  -- An attempt without its detail.
  abbrev pub forget_detail : Attempt g → Attempt g
  forget_detail a = record a { detail = [] }

  -- An attempt with the observation that is chosen for it, if there is one.
  abbrev pub with_server : Option Observation → Attempt g → Attempt g
  with_server o a = record a { server = or_else_try o a.server }

  abbrev IsSame : Attempt g → Attempt g → Type 0
  IsSame a b = forget_detail a ≡ forget_detail b

  mark-IsSame :
      (o : Observation) (skew : ℤ) (a : Attempt g) → IsSame (mark_server_delay g o skew a) a
  unfolding mark_server_delay
  mark-IsSame o skew a =
      if_lem (λ b. IsSame b a) (o.first_seen_at == 0 || a.started_at == 0) a _ (λ _. refl)
        (λ _. refl)

  note_session-IsSame :
      (x : Index) (o : Observation) (a : Attempt g) → IsSame (note_session g x o a) a
  unfolding note_session note_control note_data
  note_session-IsSame x o a =
      if_lem (λ b. IsSame b a) (one_of a.test_id session_tests) _ a
        (λ _.
          if_lem (λ b. IsSame b a) (str_eq (detail_at (note_data g x o a).detail "ctl_sent") "")
            (note_data g x o a) _ (λ _. refl) (λ _. refl))
        (λ _. refl)

  note_counts-IsSame :
      (x : Index) (obs : List Observation) (a : Attempt g) → IsSame (note_counts g x obs a) a
  unfolding note_counts note_burst
  note_counts-IsSame x obs a =
      if_lem (λ b. IsSame b a) (str_eq a.test_id "tls.burst") _ _ (λ _. refl)
        (λ _. if_lem (λ b. IsSame b a) (str_eq a.test_id "udp.packets") _ a (λ _. refl) (λ _. refl))

  note_chunks-IsSame : (p c : ℤ × Bool) (a : Attempt g) → IsSame (note_chunks g p c a) a
  unfolding note_chunks
  note_chunks-IsSame (pb, true) (pos (suc n), true) a = refl
  note_chunks-IsSame (pb, true) (pos zero, true) a = refl
  note_chunks-IsSame (pb, true) (negsuc n, true) a = refl
  note_chunks-IsSame (pb, true) (cb, false) a = refl
  note_chunks-IsSame (pb, false) cb a = refl

  note_server_chunks-IsSame :
      (o : Option Observation) (a : Attempt g) → IsSame (note_server_chunks g o a) a
  unfolding note_server_chunks
  note_server_chunks-IsSame none a = refl
  note_server_chunks-IsSame (some o) a = note_chunks-IsSame _ _ a

  note_packets-IsSame : (a : Attempt g) → IsSame (note_packets g a) a
  unfolding note_packets
  note_packets-IsSame a =
      if_lem (λ b. IsSame b a) (str_eq a.test_id "tcp.packets") _ a
        (λ _. note_server_chunks-IsSame a.server a) (λ _. refl)

  attach-IsSame :
      (obs : List Observation) (skew : ℤ) (a : Attempt g)
      → IsSame
          (attach g (index_from empty_index obs) obs skew a)
          (with_server (find_server g a obs) a)
  unfolding attach find_server attach_to
  attach-IsSame obs skew a =
      let x = index_from empty_index obs in
      by_cases x (by_own_nonce g a x) (by_reservation g a x) (by_last_resort g a x obs)
    where
      by_cases :
          (x : Index) (o1 o2 o3 : Option Observation)
          → IsSame
              (elim o1 [
                | some o ↦ attach_to g o skew a
                | none ↦ elim o2 [
                  | some o ↦ note_session g x o (attach_to g o skew a)
                  | none ↦ elim o3 [ some o ↦ attach_to g o skew a | none ↦ a ]
                ]
              ])
              (with_server (or_else_try o1 (or_else_try o2 o3)) a)
      by_cases x (some o) o2 o3 = mark-IsSame o skew _
      by_cases x none (some o) o3 =
          note_session-IsSame x o (attach_to g o skew a) ∙ mark-IsSame o skew _
      by_cases x none none (some o) = mark-IsSame o skew _
      by_cases x none none none = refl

  -- Nothing that the choice or the server's place read changes with the detail.
  chosen_congr :
      (obs : List Observation) (a b : Attempt g)
      → IsSame a b
      → IsSame (with_server (find_server g a obs) a) (with_server (find_server g b obs) b)
  unfolding find_server by_own_nonce by_reservation by_last_resort is_query is_flow
  chosen_congr obs a b e = ap (λ (c : Attempt g). with_server (find_server g c obs) c) e

  -- Of an attempt, `mergeObservations` changes at most the detail and the server's observation, and the
  -- observation is the one that is chosen: by nonce, by reservation, by the DNS name or by the flow.
  pub merge_attempt-chosen :
      (obs : List Observation) (skew : ℤ) (a : Attempt g)
      → forget_detail (merge_attempt g (index_from empty_index obs) obs skew a)
        ≡ forget_detail (with_server (find_server g a obs) a)
  unfolding merge_attempt
  merge_attempt-chosen obs skew a =
      let x = index_from empty_index obs in
      let b = note_counts g x obs a in
      note_packets-IsSame (attach g x obs skew b)
      ∙ (attach-IsSame obs skew b ∙ chosen_congr obs b a (note_counts-IsSame x obs a))
