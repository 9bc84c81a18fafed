-- ===== src/Classify/Justified/Baselines.antt =====
-- internal/classify/rules_port.go: what stands behind the verdicts of rules 1 to 3.
use censor_pulse_cli.Common.{All, Memᴰ, String, [], arith, refl, true, ◌≡◌}
use censor_pulse_cli.Client.Merge.{Runtime}
use censor_pulse_cli.Classify.Cells.{Cell, passes, fails}
use censor_pulse_cli.Classify.Rules.{RuleCtx, Verdict, baselines, is_baseline_test}
use censor_pulse_cli.Classify.Rules.Ports.{
  endpoint_verdicts, failing_baselines, passing_apps, passing_baselines, port_verdict,
  port_verdicts, proxy_evidence, udp_verdicts,
}
use censor_pulse_cli.Classify.Justified.{
  IsJustified, justify, fails-passes, first_or_lem, map-All, mem_filter,
}

module _ (g : Runtime) (rc : RuleCtx g) where
  abbrev OfCells : Verdict g → Type 0
  OfCells = IsJustified g rc.cells

  pub endpoint_verdicts-IsJustified : All (IsJustified g rc.cells) (endpoint_verdicts g rc)
  unfolding endpoint_verdicts
  endpoint_verdicts-IsJustified = ground arith

  pub udp_verdicts-IsJustified : All (IsJustified g rc.cells) (udp_verdicts g rc)
  unfolding udp_verdicts
  udp_verdicts-IsJustified = ground arith

  mem_baselines : (c : Cell) → Memᴰ c (baselines g rc) → Memᴰ c rc.cells
  unfolding baselines
  mem_baselines c m = (mem_filter (is_baseline_test g) c rc.cells m).0

  -- A failing echo and a passing one, and what the app on its port says.
  port_verdict-IsJustified :
      (tr : String) (elsewhere f : Cell)
      → Memᴰ elsewhere rc.cells
      → passes elsewhere ≡ true
      → Memᴰ f rc.cells
      → fails f ≡ true
      → IsJustified g rc.cells (port_verdict g rc tr elsewhere f)
  unfolding port_verdict passing_apps proxy_evidence
  port_verdict-IsJustified tr elsewhere f me pe mf ff =
      first_or_lem OfCells (passing_apps g rc tr f) _ _
        (justify g rc.cells _ f elsewhere "" "passing control: " mf me (fails-passes f ff) pe
          (Memᴰ.head refl) (Memᴰ.tail (Memᴰ.head refl)))
        (λ app m.
          let r = mem_filter _ app rc.cells m in
          justify g rc.cells _ f app "" "but on the same port: " mf r.0 (fails-passes f ff)
            (ground (arith, r.1)) (Memᴰ.head refl) (Memᴰ.tail (Memᴰ.head refl)))

  pub port_verdicts-IsJustified :
      (tr : String) → All (IsJustified g rc.cells) (port_verdicts g rc tr)
  unfolding port_verdicts passing_baselines failing_baselines
  port_verdicts-IsJustified tr =
      first_or_lem (All OfCells) (passing_baselines g rc tr) [] _ tt (λ elsewhere m.
        map-All OfCells (port_verdict g rc tr elsewhere) (failing_baselines g rc tr) (λ f n.
          let r = mem_filter _ elsewhere (baselines g rc) m in
          let q = mem_filter _ f (baselines g rc) n in
          port_verdict-IsJustified tr elsewhere f (mem_baselines elsewhere r.0)
            (ground (arith, r.1)) (mem_baselines f q.0) (ground (arith, q.1))))
