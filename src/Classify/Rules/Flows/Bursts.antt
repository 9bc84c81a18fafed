-- ===== src/Classify/Rules/Flows/Bursts.antt =====
-- internal/classify/rules_flow.go: the third part of rule 5b, the rate of TLS handshakes.
use censor_pulse_cli.Common.{
  List, Option, String, [], concat_map, detail_at, if◌then◌else◌, leb, ltb, none, not, some, str_eq,
  ◌&&◌, ◌*◌, ◌++◌, ◌==◌, ◌||◌, ◌∷◌,
}
use censor_pulse_cli.Client.Integers.{int_ltb, pos}
use censor_pulse_cli.Client.Merge.{Runtime, Attempt}
use censor_pulse_cli.Classify.Cells.{
  Cell, Level, medium, low, passes, fails, confidence, measured, count_at, direction_from,
}
use censor_pulse_cli.Classify.Cells.Keys.{key, dominant}
use censor_pulse_cli.Classify.Rules.{
  RuleCtx, line, formatted, integer, text, find_in, Evidence, Verdict, add_all, verdict,
}
use censor_pulse_cli.Classify.Rules.Connect.{median, detail_ints}
use censor_pulse_cli.Classify.Rules.Flows.{cell_attempts, is_any}

module _ (g : Runtime) where
  -- A detail of the last attempt.
  unfoldable pub last_detail : List (Attempt g) → String → String
  last_detail [] k = ""
  last_detail (a ∷ []) k = detail_at a.detail k
  last_detail (a ∷ b ∷ attempts) k = last_detail (b ∷ attempts) k

  unfoldable pub burst_passed_lines : List (Attempt g) → List (Evidence g)
  burst_passed_lines attempts =
      let alpha_ok = detail_ints g attempts ("alpha_ok" ∷ []) in
      if is_any g alpha_ok
      then formatted
          "%s parallel handshakes (%s parrot, ClientHellos within ~%d ms): median %d passed; the single handshake to another name right after passed"
          (text (last_detail attempts "burst_n")
            ∷ text (last_detail attempts "fingerprint")
            ∷ integer (median (detail_ints g attempts ("burst_spread_ms" ∷ [])))
            ∷ integer (median alpha_ok)
            ∷ [])
        ∷ []
      else []

  unfoldable pub burst_seen_lines : Cell → List (Attempt g) → List (Evidence g)
  burst_seen_lines c attempts =
      let seen = detail_ints g attempts ("server_alpha_seen" ∷ []) in
      let partial = detail_ints g attempts ("server_alpha_partial" ∷ []) in
      let answered =
        median (detail_ints g attempts ("server_alpha_answered" ∷ "server_alpha_hello" ∷ [])) in
      let n = last_detail attempts "burst_n" in
      if not (is_any g seen)
      then []
      else if is_any g partial && int_ltb (pos 0) (median partial)
      then formatted
          "server saw median %d of %s ClientHellos and sent a ServerHello to %d, %d arrived cut mid-hello: %s"
          (integer (median seen)
            ∷ text n
            ∷ integer answered
            ∷ integer (median partial)
            ∷ text (direction_from (dominant c))
            ∷ [])
        ∷ []
      else formatted "server saw median %d of %s ClientHellos and sent a ServerHello to %d: %s" (
          integer (median seen)
          ∷ text n
          ∷ integer answered
          ∷ text (direction_from (dominant c))
          ∷ [])
        ∷ []

  -- `burstEvidence`
  unfoldable pub burst_evidence : RuleCtx g → Cell → List (Evidence g)
  burst_evidence rc c =
      let attempts =
        cell_attempts g rc c (λ a. not (str_eq (detail_at a.detail "transient") "true")) in
      line "" c ∷ (burst_passed_lines attempts ++ burst_seen_lines c attempts)

  -- The other bursts on the port.
  unfoldable pub parrot_lines : Cell → Cell → List (Evidence g)
  parrot_lines c o =
      if not (str_eq o.test_id "tls.burst" && o.port == c.port && not (str_eq o.variant c.variant))
      then []
      else if passes o
      then formatted "the same burst with the %s parrot passed: the rule is fingerprint-dependent"
          (text (g.before o.variant "-") ∷ [])
        ∷ line "" o
        ∷ []
      else if fails o
      then formatted
          "the same burst with the %s parrot failed too: the rule does not depend on the fingerprint"
          (text (g.before o.variant "-") ∷ [])
        ∷ line "" o
        ∷ []
      else []

  -- The confidence of a burst without an outer control that passes.
  unfoldable pub own_confidence : Cell → Level
  own_confidence c =
      if leb 2 (measured c) && ltb (measured c) (count_at c.outcomes "burst_freeze" * 2)
      then medium
      else low

  unfoldable pub burst_confidence : Cell → Option Cell → Level
  burst_confidence c none = own_confidence c
  burst_confidence c (some outer) = if passes outer then confidence c outer else own_confidence c

  unfoldable pub outer_lines : Option Cell → List (Evidence g)
  outer_lines none = []
  outer_lines (some outer) = line "single-handshake baseline on the same port: " outer ∷ []

  -- What `ruleBurstFreeze` says of a cell. The code puts a parrot's line and that of its cell into one
  -- text.
  unfoldable pub burst_verdicts : RuleCtx g → Cell → List (Verdict g)
  burst_verdicts rc c =
      let outer = find_in g rc "tls.sni" "tcp" c.port "benign" in
      if not (str_eq c.test_id "tls.burst") || count_at c.outcomes "burst_freeze" == 0 || passes c
      then []
      else verdict g "tls_burst_freeze_suspected" (key g c) (burst_confidence c outer)
          (burst_evidence rc c ++ (outer_lines outer ++ concat_map (parrot_lines c) rc.cells))
        ∷ []

  -- `ruleBurstFreeze`
  unfoldable pub rule_burst_freeze : RuleCtx g → RuleCtx g
  rule_burst_freeze rc = add_all g (concat_map (burst_verdicts rc) rc.cells) rc
