-- ===== src/Classify/Rules/Flows/Sessions.antt =====
-- internal/classify/rules_flow.go: rule 5c, the VPN sessions.
use Prim.Native.String.{◌++◌ as text_append}
use censor_pulse_cli.Common.{
  Bool, List, Option, String, [], concat_map, if◌then◌else◌, leb, ltb, none, some, str_eq, ◌&&◌,
  ◌*◌, ◌++◌, ◌==◌, ◌||◌, ◌∷◌,
}
use censor_pulse_cli.Client.Integers.{ℤ, int_ltb, int_eq, pos}
use censor_pulse_cli.Client.Merge.{Runtime}
use censor_pulse_cli.Classify.Cells.{
  Cell, Level, high, medium, low, passes, confidence, measured, count_at, direction_from,
  echo_test_for, plain_test_for, handshake_cell, handshake_test_of,
}
use censor_pulse_cli.Classify.Cells.Keys.{key, dominant}
use censor_pulse_cli.Classify.Rules.{
  RuleCtx, line, formatted, integer, text, find_in, Evidence, Verdict, add_all, first_or, option_or,
  verdict,
}
use censor_pulse_cli.Classify.Rules.Connect.{median, detail_ints}
use censor_pulse_cli.Classify.Rules.Flows.{cell_attempts, is_any}

module _ (g : Runtime) where
  -- The control channel, where it was counted on the client.
  unfoldable pub control_line : List ℤ → List ℤ → List ℤ → List ℤ → Evidence g
  control_line ctl_recv ctl_sent recv first_loss =
      let counts = integer (median ctl_recv) ∷ integer (median ctl_sent) ∷ [] in
      if int_eq (median ctl_recv) (pos 0)
      then formatted
          "the control channel itself was cut right after the reset: median %d of %d control packets answered"
          counts
      else if is_any g recv && int_eq (median recv) (pos 0)
      then formatted
          "control channel passed (median %d of %d control packets answered), data channel cut: not one data packet came back"
          counts
      else if is_any g first_loss && int_ltb (pos 0) (median first_loss)
      then formatted
          "control channel passed (median %d of %d control packets answered), data channel cut after %d data packets"
          (counts ++ (integer (median first_loss) ∷ []))
      else formatted "control channel: median %d of %d control packets answered" counts

  unfoldable pub loss_lines : List ℤ → List ℤ → List ℤ → List ℤ → List ℤ → List (Evidence g)
  loss_lines ctl_recv ctl_sent ctl_seen recv first_loss =
      if is_any g ctl_sent && is_any g ctl_recv
      then control_line ctl_recv ctl_sent recv first_loss
        ∷ (if is_any g ctl_seen
            then formatted "server saw median %d control packets" (integer (median ctl_seen) ∷ [])
              ∷ []
            else [])
      else if is_any g first_loss && int_ltb (pos 0) (median first_loss)
      then formatted "cut after %d data packets" (integer (median first_loss) ∷ []) ∷ []
      else []

  -- `sessionCutEvidence`
  unfoldable pub session_evidence : RuleCtx g → Cell → Cell → List (Evidence g)
  session_evidence rc c init =
      let attempts = cell_attempts g rc c (λ a. str_eq a.transport c.transport) in
      let cut =
        cell_attempts g rc c
          (λ a. str_eq a.transport c.transport && str_eq a.outcome "session_cut") in
      let ints = λ (k : String). detail_ints g attempts (k ∷ []) in
      line "" c
      ∷ line "handshake on the same port passed: " init
      ∷ ((if is_any g (ints "data_recv") && is_any g (ints "data_sent")
            then formatted "data packets answered: median %d of %d"
                (integer (median (ints "data_recv")) ∷ integer (median (ints "data_sent")) ∷ [])
              ∷ []
            else [])
          ++ (loss_lines (ints "ctl_recv") (ints "ctl_sent") (ints "server_ctl_seen")
                (ints "data_recv") (detail_ints g cut ("data_first_loss" ∷ []))
              ++ (if is_any g (ints "server_data_seen")
                  then formatted "server saw median %d data packets: %s" (
                      integer (median (ints "server_data_seen"))
                      ∷ text (direction_from (dominant c))
                      ∷ [])
                    ∷ []
                  else [])))

  abbrev pub passing : Option Cell → List Cell
  passing none = []
  passing (some c) = if passes c then c ∷ [] else []

  -- The plain baselines that pass on the port: the echo before the packets.
  unfoldable pub plain_baselines : RuleCtx g → Cell → List Cell
  plain_baselines rc c =
      passing (find_in g rc (echo_test_for c.transport) c.transport c.port "")
      ++ passing (find_in g rc (plain_test_for c.transport "packets") c.transport c.port "")

  -- The cut repeats in two rounds of three, of three or more.
  unfoldable pub is_repeated : Cell → Bool
  is_repeated c = leb (measured c * 2) (count_at c.outcomes "session_cut" * 3) && leb 3 (measured c)

  -- The general rule, capped where a round passed.
  unfoldable pub capped_confidence : Cell → Cell → Level
  capped_confidence c init = cap (confidence c init)
    where
      cap : Level → Level
      cap high = if ltb 0 c.ok_count then medium else high
      cap medium = medium
      cap low = low

  -- The verdict of `ruleSessionCut` on a session whose handshake passes.
  unfoldable pub session_verdict_of : RuleCtx g → Cell → Cell → Verdict g
  session_verdict_of rc c init =
      let kind = text_append (g.trim_suffix c.test_id ".session") "_session_cut_suspected" in
      let plain =
        verdict g kind (key g c) (capped_confidence c init) (session_evidence rc c init) in
      if is_repeated c
      then first_or (plain_baselines rc c) plain (λ base.
        verdict g kind (key g c) high
          (session_evidence rc c init ++ (line "baseline on the same port passed: " base ∷ [])))
      else plain

  unfoldable pub session_verdicts : RuleCtx g → Cell → List (Verdict g)
  session_verdicts rc c =
      if str_eq (handshake_test_of c.test_id) "" || passes c || measured c == 0
      then []
      else option_or (handshake_cell g.trim_suffix rc.cells c) []
          (λ init. if passes init then session_verdict_of rc c init ∷ [] else [])

  -- `ruleSessionCut`
  unfoldable pub rule_session_cut : RuleCtx g → RuleCtx g
  rule_session_cut rc = add_all g (concat_map (session_verdicts rc) rc.cells) rc
