-- ===== src/Client/Remerge.antt =====
-- internal/client/merge.go, tests_dest.go and attempt.go: `Remerge`, which brings the attempts of a stored
-- report in line with the table.
pub mod Failing
use Prim.Native.String.{◌++◌ as text_append}
use censor_pulse_cli.Common.{
  string_key, Bool, List, Option, String, [], detail_at, false, filter, find, if◌then◌else◌, map,
  none, not, put, some, str_eq, true, ◌&&◌, ◌^◌, ◌||◌, ◌∷◌,
}
use censor_pulse_cli.Model.{Observation}
use censor_pulse_cli.Client.Integers.{ℤ}
use censor_pulse_cli.Client.Local.{local_failure, local_no_route}
use censor_pulse_cli.Client.Merge.{Runtime, Attempt, one_of, merged_text}
use censor_pulse_cli.Client.Merge.Table.{merge_verdict}
use censor_pulse_cli.Client.Attach.{mark_server_delay}
use censor_pulse_cli.Classify.Dest.Resets.{reset_timing, reset_before_rtt}

-- `serveResult`
pub record ServeResult : Type 0 where
  pub handshake : Bool
  pub chain : String
  pub why : String
  pub outcome : String

-- `serveResult.unfinished`
unfoldable pub unfinished : ServeResult → Bool
unfinished r =
    one_of r.outcome
      ("connect_timeout" ∷ "payload_timeout" ∷ "server_error" ∷ "skipped" ∷ "inconclusive" ∷ [])

-- The ways a verified disagreement ends.
pub data Disagreement : Type 0 where
  geo_dns : Disagreement
  poisoned : Disagreement
  unverified : Disagreement
  neither_serves : Disagreement

-- `judgeDisagreement`
unfoldable pub judge_disagreement : ServeResult → ServeResult → Disagreement
judge_disagreement sys trusted =
    let sys_serves =
      sys.handshake
      && (str_eq sys.chain "true" || (trusted.handshake && not (str_eq trusted.chain "true"))) in
    let trusted_serves = trusted.handshake && (str_eq trusted.chain "true" || not sys.handshake) in
    if sys_serves
    then geo_dns
    else if unfinished sys || (not trusted_serves && unfinished trusted)
    then unverified
    else if trusted_serves
    then poisoned
    else neither_serves

-- delete(m, key)
unfoldable pub delete_key : {A : Type 0} → String → List (String × A) → List (String × A)
delete_key k m = filter (λ e. not (str_eq e.0 k)) m

module _ (g : Runtime) where
  -- `markLocal`
  unfoldable pub mark_local : String → Attempt g → Attempt g
  mark_local name a = record a { detail = put "local_error" name a.detail }

  -- `connectFailedAt`
  unfoldable pub connect_failed_at : Attempt g → g.Float
  connect_failed_at a = elim (find "done" a.stages) [
    | none ↦ g.float_of_nat (2 ^ 30)
    | some ended ↦ elim (find "first_write" a.stages) [
      | some wrote ↦ g.float_sub ended wrote
      | none ↦ g.float_sub ended (g.float_of_nat 0)
    ]
  ]

  -- `serveResultFrom`
  unfoldable pub serve_result_from : String → ServeResult
  serve_result_from why =
      let stage = (g.cut why ":").0 in
      let what = (g.cut why ":").1 in
      if str_eq what "ok" && not (str_eq stage "cert")
      then record { handshake = true; chain = "true"; why = why; outcome = "" }
      else if str_eq stage "cert"
      then record { handshake = true; chain = what; why = why; outcome = "" }
      else record { handshake = false; chain = ""; why = why; outcome = what }

  abbrev pub is_unmarked : Attempt g → Bool
  is_unmarked a = str_eq (detail_at a.detail "local_error") ""

  -- A failure of the host itself.
  unfoldable pub read_local : Attempt g → Attempt g
  read_local a =
      let name = local_failure g a in
      if str_eq name "" || not (is_unmarked a)
      then a
      else if one_of a.outcome ("inconclusive" ∷ "skipped" ∷ [])
      then mark_local name a
      else record (mark_local name a) { outcome = "server_error" }

  -- A connect timeout that took no time.
  unfoldable pub read_no_route : Attempt g → Attempt g
  read_no_route a =
      if str_eq a.outcome "connect_timeout"
        && is_unmarked a
        && g.float_ltb (connect_failed_at a) (g.float_of_nat 5)
      then record (mark_local local_no_route a) { outcome = "server_error" }
      else a

  -- A DNS disagreement that the report took for tampering.
  unfoldable pub is_disagreement : Attempt g → Bool
  is_disagreement a =
      str_eq a.test_id "dest.dns"
      && str_eq a.outcome "dns_answer_mismatch"
      && str_eq (detail_at a.detail "tamper") "system_address_fails"

  unfoldable pub unverified_note : Attempt g → String → String → String
  unverified_note a sys trusted = text_append "the check did not finish (system address " (
      text_append (detail_at a.detail "verify_ip") (
        text_append ": " (
          text_append sys (
            text_append "; trusted address: "
              (text_append trusted "): the disagreement is not verified")))))

  unfoldable pub settle_as : Disagreement → String → Attempt g → Attempt g
  settle_as geo_dns note a = record a {
    outcome = "ok";
    error_text = "";
    detail = delete_key "tamper" a.detail;
  }
  settle_as neither_serves note a = record a {
    outcome = "ok";
    error_text = "";
    detail = delete_key "tamper" a.detail;
  }
  settle_as unverified note a = record a {
    outcome = "inconclusive";
    error_text = note;
    detail = put "note" note (delete_key "tamper" a.detail);
  }
  settle_as poisoned note a = a

  unfoldable pub judge_again : Attempt g → Attempt g
  judge_again a =
      let sys = serve_result_from (detail_at a.detail "verify_system") in
      let trusted = serve_result_from (detail_at a.detail "verify_trusted") in
      if is_disagreement a
      then settle_as (judge_disagreement sys trusted) (unverified_note a sys.why trusted.why) a
      else a

  -- `markResetTiming`
  unfoldable pub mark_timing : Option (g.Float × g.Float) → Attempt g → Attempt g
  mark_timing none a = a
  mark_timing (some (reset_ms, rtt)) a = record a {
    detail =
        if reset_before_rtt g reset_ms rtt
        then put "reset_before_rtt" "true" (put "reset_ms" (g.format_float reset_ms) a.detail)
        else put "reset_ms" (g.format_float reset_ms) a.detail;
  }

  unfoldable pub time_reset : Attempt g → Attempt g
  time_reset a =
      if str_eq a.test_id "dest.tls" && str_eq (detail_at a.detail "reset_ms") ""
      then mark_timing (reset_timing g a) a
      else a

  -- `reinterpret`
  unfoldable pub reinterpret : Attempt g → Attempt g
  reinterpret a =
      if str_eq a.outcome "ok" then a else time_reset (judge_again (read_no_route (read_local a)))

  unfoldable pub delay_again : Option Observation → ℤ → Attempt g → Attempt g
  delay_again none skew a = a
  delay_again (some o) skew a = mark_server_delay g o skew a

  unfoldable pub with_verdict : Attempt g → Attempt g
  with_verdict a = record a { merged = merged_text (merge_verdict g a) }

  unfoldable pub remerge_one : ℤ → Attempt g → Attempt g
  remerge_one skew a = let b = reinterpret a in with_verdict (delay_again b.server skew b)

  -- `Remerge`
  unfoldable pub remerge : ℤ → List (Attempt g) → List (Attempt g)
  remerge skew = map (remerge_one skew)
