-- ===== src/Client/Merge/Evidence.antt =====
-- internal/client/merge.go: what stands behind a merged verdict.
use censor_pulse_cli.Common.{
  Bool, Option, arith, detail_at, false, if_lem, inl, inr, none, refl, str_eq_iff, true, ◌≡◌, ◌⊎◌,
}
use censor_pulse_cli.Model.{Observation}
use censor_pulse_cli.Client.Integers.{ℤ, pos, int_eq, int_ltb}
use censor_pulse_cli.Client.Merge.{
  Runtime, Merged, Attempt, connect_diverged, cookie_mismatch, downlink_drop,
  downlink_drop_after_handshake, downlink_modified, refused_after_seen, rst_bidirectional,
  server_closed, server_rejected, server_silent, stalled_after_seen, uplink_delayed,
  uplink_modified, inconclusive, number, server_error,
}
use censor_pulse_cli.Client.Merge.Verdict.{
  ok_verdict, answer_verdict, bulk_verdict, eof_verdict, handshake_verdict, packets_verdict,
  refused_verdict, reset_verdict, session_verdict, spoof_verdict, timeout_verdict, burst_counts,
  burst_verdict,
}
use censor_pulse_cli.Client.Merge.Table.{
  switch_lem, outcome_verdict, is_dest_test, merge_verdict, verdict_cases, done, ◌▸◌,
}

-- The verdicts that say what the server did, or what happened to a flow that it saw.
abbrev pub needs_server : Merged → Bool
needs_server uplink_modified = true
needs_server connect_diverged = true
needs_server cookie_mismatch = true
needs_server uplink_delayed = true
needs_server downlink_drop = true
needs_server server_silent = true
needs_server server_error = true
needs_server rst_bidirectional = true
needs_server server_closed = true
needs_server refused_after_seen = true
needs_server server_rejected = true
needs_server downlink_modified = true
needs_server downlink_drop_after_handshake = true
needs_server stalled_after_seen = true
needs_server m = false

module _ (g : Runtime) where
  -- The verdicts that do not need the server's observation: of a burst, which is judged by the counts
  -- that the server reports of it, and of the client's own server_error.
  abbrev pub IsBackedOtherwise : Attempt g → Merged → Type 0
  IsBackedOtherwise a m =
      ((a.outcome ≡ "burst_freeze") × ((m ≡ downlink_drop) ⊎ (m ≡ server_rejected)))
      ⊎ ((a.outcome ≡ "server_error") × (m ≡ server_error))

  burst_verdict-unseen :
      (a : Attempt g) (s : Option Observation)
      → needs_server (burst_verdict g a s) ≡ true
      → (burst_verdict g a s ≡ downlink_drop) ⊎ (burst_verdict g a s ≡ server_rejected)
  unfolding burst_verdict
  burst_verdict-unseen a s =
      if_lem P (int_ltb saw (number g (detail_at a.detail "burst_n"))) _ _
        (λ _ e. absurd (ground (arith, e)))
        (λ _.
          if_lem P (int_ltb (pos 0) (burst_counts g a s).0) _ _ (λ _ _. inl refl)
            (λ _.
              if_lem P (int_eq (burst_counts g a s).1 saw) _ _ (λ _ e. absurd (ground (arith, e)))
                (λ _ _. inr refl)))
    where
      saw : ℤ
      saw = number g (detail_at a.detail "server_alpha_seen")

      P : Merged → Type 0
      P m = needs_server m ≡ true → (m ≡ downlink_drop) ⊎ (m ≡ server_rejected)

  outcome_verdict-unseen :
      (a : Attempt g)
      → a.server ≡ none
      → needs_server (outcome_verdict g a) ≡ true
      → IsBackedOtherwise a (outcome_verdict g a)
  unfolding outcome_verdict ok_verdict timeout_verdict reset_verdict eof_verdict refused_verdict
      spoof_verdict session_verdict packets_verdict bulk_verdict handshake_verdict answer_verdict
  outcome_verdict-unseen a e =
      switch_lem (λ m. needs_server m ≡ true → IsBackedOtherwise a m) (verdict_cases g a)
        inconclusive
        ((λ _ h. absurd (ground (arith, rw e at h)))
          ▸ (λ _ h. absurd (ground (arith, rw e at h)))
          ▸ (λ _ h. absurd (ground (arith, rw e at h)))
          ▸ (λ _ h. absurd (ground (arith, rw e at h)))
          ▸ (λ _ h. absurd (ground (arith, rw e at h)))
          ▸ (λ _ h. absurd (ground (arith, rw e at h)))
          ▸ (λ _ h. absurd (ground (arith, rw e at h)))
          ▸ (λ _ h. absurd (ground (arith, rw e at h)))
          ▸ (λ t h.
              inl ((str_eq_iff a.outcome "burst_freeze").0 t, burst_verdict-unseen a a.server h))
          ▸ (λ _ h. absurd (ground (arith, rw e at h)))
          ▸ (λ _ h. absurd (ground (arith, rw e at h)))
          ▸ (λ _ h. absurd (ground (arith, rw e at h)))
          ▸ (λ _ h. absurd (ground (arith, h)))
          ▸ (λ t _. inr ((str_eq_iff a.outcome "server_error").0 t, refl))
          ▸ done)
        (λ h. absurd (ground (arith, h)))

  -- When the server has no observation of an attempt, the merged verdict is none of those that say what
  -- the server did, or what happened to a flow that it saw, but in two cases: for a frozen burst,
  -- which is judged by counts of its own, it may be downlink_drop or server_rejected_handshake, and
  -- it is server_error where the client's own outcome was that.
  pub merge_verdict-unseen :
      (a : Attempt g)
      → a.server ≡ none
      → needs_server (merge_verdict g a) ≡ true
      → IsBackedOtherwise a (merge_verdict g a)
  unfolding merge_verdict
  merge_verdict-unseen a e =
      if_lem (λ m. needs_server m ≡ true → IsBackedOtherwise a m) (is_dest_test g a.test_id) _ _
        (λ _ h. absurd (ground (arith, h))) (λ _. outcome_verdict-unseen a e)
