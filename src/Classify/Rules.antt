-- ===== src/Classify/Rules.antt =====
-- internal/classify/rules.go, classify.go and helpers.go: what a rule reads and writes. A line of
-- evidence that the code formats is its format with its arguments.
pub mod Connect
pub mod Protocol
pub mod Variants
pub mod Flows
pub mod Dns
pub mod Paths
pub mod Ports
use censor_pulse_cli.Common.{
  string_key, Bool, List, Option, String, [], filter, none, some, str_eq, ℕ, ◌++◌, ◌||◌, ◌∷◌,
}
use censor_pulse_cli.Client.Integers.{ℤ}
use censor_pulse_cli.Client.Merge.{Runtime, Attempt}
use censor_pulse_cli.Classify.Cells.{Cell, Level, find_cell}
use censor_pulse_cli.Classify.Cells.Keys.{key, dominant}

pub data Arg (g : Runtime) : Type 0 where
  text : String → Arg g
  count : ℕ → Arg g
  integer : ℤ → Arg g
  float : g.Float → Arg g

-- A line about a cell behind a prefix, or a format with its arguments.
pub data Evidence (g : Runtime) : Type 0 where
  line : String → Cell → Evidence g
  formatted : String → List (Arg g) → Evidence g

abbrev pub first_or : {A B : Type 0} → List A → B → (A → B) → B
first_or [] none_left f = none_left
first_or (x ∷ xs) none_left f = f x

abbrev pub option_or : {A B : Type 0} → Option A → B → (A → B) → B
option_or none d f = d
option_or (some x) d f = f x

module _ (g : Runtime) where
  abbrev pub said : String → Evidence g
  said s = formatted s []

  -- What `ruleCtx.ev` formats of a cell.
  unfoldable pub ev : Cell → Evidence g
  ev c = formatted "%s: %d/%d ok, dominant=%s, server_saw=%d" (
      text (key g c)
      ∷ count c.ok_count
      ∷ count c.total
      ∷ text (dominant c)
      ∷ count c.server_saw
      ∷ [])

  -- `Verdict`
  pub record Verdict : Type 0 where
    pub kind : String
    pub subject : String
    pub confidence : Level
    pub evidence : List (Evidence g)

  -- `ruleCtx`, its indexes apart.
  pub record RuleCtx : Type 0 where
    pub attempts : List (Attempt g)
    pub cells : List Cell
    pub verdicts : List Verdict

  abbrev pub is_baseline_test : Cell → Bool
  is_baseline_test c = str_eq c.test_id "tcp.echo" || str_eq c.test_id "udp.echo"

  -- `newRuleCtx`: the baselines and the cells of a test, in the order of the cells.
  unfoldable pub new_rule_ctx : List (Attempt g) → List Cell → RuleCtx
  new_rule_ctx attempts cells = record { attempts = attempts; cells = cells; verdicts = [] }

  unfoldable pub baselines : RuleCtx → List Cell
  baselines rc = filter is_baseline_test rc.cells

  unfoldable pub by_test : RuleCtx → String → List Cell
  by_test rc test = filter (λ c. str_eq c.test_id test) rc.cells

  -- `ruleCtx.find`
  abbrev pub find_in : RuleCtx → String → String → ℕ → String → Option Cell
  find_in rc test transport port variant = find_cell rc.cells test transport port variant

  -- `ruleCtx.add`, once for each of a list.
  unfoldable pub add_all : List Verdict → RuleCtx → RuleCtx
  add_all vs rc = record rc { verdicts = rc.verdicts ++ vs }

  abbrev pub verdict : String → String → Level → List (Evidence g) → Verdict
  verdict kind subject confidence evidence = record {
    kind = kind;
    subject = subject;
    confidence = confidence;
    evidence = evidence;
  }
