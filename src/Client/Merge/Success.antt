-- ===== src/Client/Merge/Success.antt =====
-- internal/client/merge.go: when the merged verdict is success.
use censor_pulse_cli.Common.{
  Bool, Option, ap, arith, false, none, not, refl, some, str_eq, str_eq_iff, true, ◌↔◌, ◌≡◌,
}
use censor_pulse_cli.Model.{Observation}
use censor_pulse_cli.Client.Merge.{Runtime, Merged, Attempt, inconclusive, merged_ok}
use censor_pulse_cli.Client.Merge.Verdict.{
  ok_verdict, answer_verdict, bulk_verdict, burst_verdict, eof_verdict, handshake_verdict,
  mac_invalid, packets_verdict, refused_verdict, reset_verdict, session_verdict, spoof_verdict,
  timeout_verdict,
}
use censor_pulse_cli.Client.Merge.Table.{
  merge_verdict, switch_lem, done, ◌▸◌, is_dest_test, outcome_verdict, verdict_cases,
}

-- The server received what the client sent: no observation has an invalid MAC.
abbrev pub is_intact : Option Observation → Bool
is_intact none = true
is_intact (some o) = not (mac_invalid o)

abbrev pub is_ok : Merged → Bool
is_ok merged_ok = true
is_ok m = false

module _ (g : Runtime) where
  module _ (a : Attempt g) where
    timeout_not_ok : (s : Option Observation) → is_ok (timeout_verdict g a s) ≡ false
    unfolding timeout_verdict
    timeout_not_ok none = refl
    timeout_not_ok (some o) = ground arith

    session_not_ok : (s : Option Observation) → is_ok (session_verdict g a s) ≡ false
    unfolding session_verdict
    session_not_ok none = refl
    session_not_ok (some o) = ground arith

    packets_not_ok : (s : Option Observation) → is_ok (packets_verdict g a s) ≡ false
    unfolding packets_verdict
    packets_not_ok none = refl
    packets_not_ok (some o) = ground arith

    burst_not_ok : (s : Option Observation) → is_ok (burst_verdict g a s) ≡ false
    unfolding burst_verdict
    burst_not_ok s = ground arith

    bulk_not_ok : (s : Option Observation) → is_ok (bulk_verdict g a s) ≡ false
    unfolding bulk_verdict
    bulk_not_ok none = refl
    bulk_not_ok (some o) = ground arith

    handshake_not_ok : (s : Option Observation) → is_ok (handshake_verdict g a s) ≡ false
    unfolding handshake_verdict
    handshake_not_ok none = ground arith
    handshake_not_ok (some o) = ground arith

  reset_not_ok : (s : Option Observation) → is_ok (reset_verdict g s) ≡ false
  unfolding reset_verdict
  reset_not_ok none = refl
  reset_not_ok (some o) = ground arith

  eof_not_ok : (s : Option Observation) → is_ok (eof_verdict g s) ≡ false
  unfolding eof_verdict
  eof_not_ok none = refl
  eof_not_ok (some o) = ground arith

  refused_not_ok : (s : Option Observation) → is_ok (refused_verdict g s) ≡ false
  unfolding refused_verdict
  refused_not_ok none = refl
  refused_not_ok (some o) = ground arith

  spoof_not_ok : (s : Option Observation) → is_ok (spoof_verdict g s) ≡ false
  unfolding spoof_verdict
  spoof_not_ok none = refl
  spoof_not_ok (some o) = ground arith

  answer_not_ok : (s : Option Observation) → is_ok (answer_verdict g s) ≡ false
  unfolding answer_verdict
  answer_not_ok none = refl
  answer_not_ok (some o) = ground arith

  ok_intact : (s : Option Observation) → is_ok (ok_verdict g s) ≡ true → is_intact s ≡ true
  unfolding ok_verdict
  ok_intact none e = refl
  ok_intact (some o) e = ground (arith, e)

  intact_ok : (s : Option Observation) → is_intact s ≡ true → ok_verdict g s ≡ merged_ok
  unfolding ok_verdict
  intact_ok none e = refl
  intact_ok (some o) e = ground (arith, e)

  outcome_verdict_ok :
      (a : Attempt g)
      → is_ok (outcome_verdict g a) ≡ true
      → (str_eq a.outcome "ok" ≡ true) × (is_intact a.server ≡ true)
  unfolding outcome_verdict
  outcome_verdict_ok a =
      switch_lem
        (λ m. is_ok m ≡ true → (str_eq a.outcome "ok" ≡ true) × (is_intact a.server ≡ true))
        (verdict_cases g a) inconclusive
        ((λ t e. (t, ok_intact a.server e))
          ▸ (λ _ e. absurd (ground (arith, e, timeout_not_ok a a.server)))
          ▸ (λ _ e. absurd (ground (arith, e, reset_not_ok a.server)))
          ▸ (λ _ e. absurd (ground (arith, e, eof_not_ok a.server)))
          ▸ (λ _ e. absurd (ground (arith, e, refused_not_ok a.server)))
          ▸ (λ _ e. absurd (ground (arith, e, spoof_not_ok a.server)))
          ▸ (λ _ e. absurd (ground (arith, e, session_not_ok a a.server)))
          ▸ (λ _ e. absurd (ground (arith, e, packets_not_ok a a.server)))
          ▸ (λ _ e. absurd (ground (arith, e, burst_not_ok a a.server)))
          ▸ (λ _ e. absurd (ground (arith, e, bulk_not_ok a a.server)))
          ▸ (λ _ e. absurd (ground (arith, e, handshake_not_ok a a.server)))
          ▸ (λ _ e. absurd (ground (arith, e, answer_not_ok a.server)))
          ▸ (λ _ e. absurd (ground (arith, e)))
          ▸ (λ _ e. absurd (ground (arith, e)))
          ▸ done)
        (λ e. absurd (ground (arith, e)))

  -- The merged verdict of an attempt that is no test of a destination is success exactly when the
  -- client had success and the server, if it saw the flow, did not flag the MAC of the request as invalid.
  pub merge_verdict-ok_iff :
      (a : Attempt g)
      → is_dest_test g a.test_id ≡ false
      → (merge_verdict g a ≡ merged_ok) ↔ ((a.outcome ≡ "ok") × (is_intact a.server ≡ true))
  unfolding merge_verdict outcome_verdict
  merge_verdict-ok_iff a d = rw d (
    (λ e. let h = outcome_verdict_ok a (ap is_ok e) in ((str_eq_iff a.outcome "ok").0 h.0, h.1)),
    (λ h. rw h.0 (intact_ok a.server h.1)),
  )
