-- ===== src/Client/Merge/Table.antt =====
-- internal/client/merge.go: the switch of `mergeVerdict` on the outcome.
use censor_pulse_cli.Common.{
  Bool, Bool-cases, List, String, [], if◌then◌else◌, inl, inr, str_eq, true, ◌∷◌, ◌≡◌,
}
use censor_pulse_cli.Client.Merge.{
  Runtime, Merged, Attempt, client_outcome, inconclusive, one_of, server_error, tls_mitm,
}
use censor_pulse_cli.Client.Merge.Verdict.{
  ok_verdict, answer_verdict, bulk_verdict, burst_verdict, eof_verdict, handshake_verdict,
  packets_verdict, refused_verdict, reset_verdict, session_verdict, spoof_verdict, timeout_verdict,
}

abbrev pub timeouts : List String
timeouts = "connect_timeout" ∷ "payload_timeout" ∷ "dns_timeout" ∷ "quic_no_response" ∷ []

abbrev pub resets : List String
resets = "connect_reset" ∷ "midstream_reset" ∷ []

abbrev pub bulk_failures : List String
bulk_failures = "bulk_stall" ∷ "bulk_reset" ∷ []

abbrev pub handshake_failures : List String
handshake_failures = "tls_alert" ∷ "tls_parse_failure" ∷ "quic_handshake_failure" ∷ []

abbrev pub wrong_answers : List String
wrong_answers =
    "unexpected_response" ∷ "modified" ∷ "dns_answer_mismatch" ∷ "dns_rcode" ∷ "dns_injected_race"
    ∷ []

infixr 5 ◌▸◌
-- A switch without an expression: the value of the first case that holds.
abbrev pub switch : {A : Type 0} → List (Bool × A) → A → A
switch [] d = d
switch (c ∷ cs) d = if c.0 then c.1 else switch cs d

-- Each case of a switch has the property, if it is taken.
pub data Each {A : Type 0} (P : A → Type 0) : List (Bool × A) → Type 0 where
  done : Each P []
  ◌▸◌ : {c : Bool × A} → {cs : List (Bool × A)} → (c.0 ≡ true → P c.1) → Each P cs → Each P (c ∷ cs)

-- What holds of the default and of each case that may be taken holds of the switch.
pub switch_lem :
    {A : Type 0} (P : A → Type 0) (cs : List (Bool × A)) (d : A) → Each P cs → P d → P (switch cs d)
switch_lem P [] d done k = k
switch_lem P (c ∷ cs) d (h ▸ hs) k = elim (Bool-cases c.0) [
  | inl e ↦ rw e (h e)
  | inr e ↦ rw e (switch_lem P cs d hs k)
]

-- `IsDestTest`
unfoldable pub is_dest_test : Runtime → String → Bool
is_dest_test g id = g.has_prefix id "dest."

module _ (g : Runtime) where
  -- The switch of `mergeVerdict`.
  abbrev pub verdict_cases : Attempt g → List (Bool × Merged)
  verdict_cases a =
      (str_eq a.outcome "ok", ok_verdict g a.server)
      ∷ (one_of a.outcome timeouts, timeout_verdict g a a.server)
      ∷ (one_of a.outcome resets, reset_verdict g a.server)
      ∷ (str_eq a.outcome "midstream_eof", eof_verdict g a.server)
      ∷ (str_eq a.outcome "connect_refused", refused_verdict g a.server)
      ∷ (str_eq a.outcome "tls_spoof", spoof_verdict g a.server)
      ∷ (str_eq a.outcome "session_cut", session_verdict g a a.server)
      ∷ (str_eq a.outcome "packets_cut", packets_verdict g a a.server)
      ∷ (str_eq a.outcome "burst_freeze", burst_verdict g a a.server)
      ∷ (one_of a.outcome bulk_failures, bulk_verdict g a a.server)
      ∷ (one_of a.outcome handshake_failures, handshake_verdict g a a.server)
      ∷ (one_of a.outcome wrong_answers, answer_verdict g a.server)
      ∷ (str_eq a.outcome "cert_mismatch", tls_mitm)
      ∷ (str_eq a.outcome "server_error", server_error)
      ∷ []

  unfoldable pub outcome_verdict : Attempt g → Merged
  outcome_verdict a = switch (verdict_cases a) inconclusive

  -- `mergeVerdict`
  unfoldable pub merge_verdict : Attempt g → Merged
  merge_verdict a = if is_dest_test g a.test_id then client_outcome a.outcome else outcome_verdict a
