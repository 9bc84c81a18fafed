-- ===== src/Classify/Justified/Families.antt =====
-- internal/classify/rules_protocol.go: what stands behind the verdicts of rules 4 and 5.
use censor_pulse_cli.Client.Merge.Table.{is_dest_test}
use censor_pulse_cli.Common.{
  All, Bool, List, Memᴰ, Option, String, [], arith, false, filter, if_lem, if◌then◌else◌, inl, none,
  not, refl, some, str_eq, subst, true, ◌&&◌, ◌||◌, ◌∷◌, ◌≡◌,
}
use censor_pulse_cli.Client.Merge.{Runtime, one_of}
use censor_pulse_cli.Classify.Cells.{Cell, passes, fails, echo_test_for}
use censor_pulse_cli.Classify.Cells.Keys.{family_key}
use censor_pulse_cli.Classify.Rules.{RuleCtx, Verdict, by_test}
use censor_pulse_cli.Classify.Rules.Protocol.{
  Finding, compare_plain, protocol_from, blocked, control_failed, family_fails, handshake_settles,
  native_tests, nothing, protocol_finding,
}
use censor_pulse_cli.Classify.Rules.Variants.{
  nominal_baseline, first_passing, group_of, is_differential, variant_baseline, variant_verdicts,
}
use censor_pulse_cli.Classify.Justified.{
  IsJustified, justify, IsFrom, fails-passes, find_cell-IsFrom, low_not_high, first_or_lem,
  mem_filter, option_or_lem, some_path,
}

second_holds : (a b c d : Bool) → (not a || not b || c || d) ≡ false → b ≡ true
second_holds a b c d h = ground arith

module _ (g : Runtime) (rc : RuleCtx g) where
  abbrev OfCells : Verdict g → Type 0
  OfCells = IsJustified g rc.cells

  abbrev OfFinding : Finding g → Type 0
  OfFinding nothing = Unit {0}
  OfFinding (control_failed v) = OfCells v
  OfFinding (blocked v) = OfCells v

  compare_plain-OfFinding :
      (c : Cell) (echo rnd : Option Cell)
      → Memᴰ c rc.cells
      → fails c ≡ true
      → IsFrom rc.cells echo
      → OfFinding (compare_plain g rc c echo rnd)
  unfolding compare_plain
  compare_plain-OfFinding c none rnd mc fc he = tt
  compare_plain-OfFinding c (some echo) none mc fc he =
      if_lem OfFinding (passes echo && family_fails g rc c && not (str_eq c.role "control")) _
        nothing
        (λ t.
          justify g rc.cells _ c echo "" "passing echo control: " mc (he echo refl)
            (fails-passes c fc) (ground (arith, t)) (Memᴰ.head refl) (Memᴰ.tail (Memᴰ.head refl)))
        (λ _. tt)
  compare_plain-OfFinding c (some echo) (some rnd) mc fc he =
      if_lem OfFinding (passes echo && fails rnd && not (str_eq c.role "control")) _ _
        (λ _. inl low_not_high)
        (λ _.
          if_lem OfFinding
            (passes echo && passes rnd && family_fails g rc c && not (str_eq c.role "control")) _
            nothing
            (λ t.
              justify g rc.cells _ c echo "" "passing echo control: " mc (he echo refl)
                (fails-passes c fc) (ground (arith, t)) (Memᴰ.head refl)
                (Memᴰ.tail (Memᴰ.head refl)))
            (λ _. tt))

  protocol_finding-OfFinding :
      (reported : List String) (c : Cell)
      → Memᴰ c rc.cells
      → OfFinding (protocol_finding g rc reported c)
  unfolding protocol_finding
  protocol_finding-OfFinding reported c mc =
      if_lem OfFinding
        (not (one_of c.test_id native_tests)
          || not (fails c)
          || handshake_settles g rc c
          || one_of (family_key g c.test_id c.transport c.port) reported)
        nothing _ (λ _. tt)
        (λ t.
          compare_plain-OfFinding c _ _ mc (second_holds (one_of c.test_id native_tests) _ _ _ t)
            (find_cell-IsFrom rc.cells (echo_test_for c.transport) c.transport c.port ""))

  after_finding :
      (found : Finding g) (rest rest' : List (Verdict g))
      → OfFinding found
      → All OfCells rest
      → All OfCells rest'
      → All OfCells
          (elim found [ nothing ↦ rest | control_failed v ↦ v ∷ rest | blocked v ↦ v ∷ rest' ])
  after_finding nothing rest rest' h k l = k
  after_finding (control_failed v) rest rest' h k l = (h, k)
  after_finding (blocked v) rest rest' h k l = (h, l)

  pub protocol_from-IsJustified :
      (reported : List String) (cells : List Cell)
      → All (λ c. Memᴰ c rc.cells) cells
      → All (IsJustified g rc.cells) (protocol_from g rc reported cells)
  unfolding protocol_from
  protocol_from-IsJustified reported [] ms = tt
  protocol_from-IsJustified reported (c ∷ cells) ms =
      after_finding (protocol_finding g rc reported c) _ _
        (protocol_finding-OfFinding reported c ms.0) (protocol_from-IsJustified reported cells ms.1)
        (protocol_from-IsJustified (family_key g c.test_id c.transport c.port ∷ reported) cells
          ms.1)

  nominal_baseline-IsFrom :
      (test : String) (base : Option Cell) (cells : List Cell)
      → IsFrom rc.cells base
      → All (λ c. Memᴰ c rc.cells) cells
      → IsFrom rc.cells (nominal_baseline g test base cells)
  unfolding nominal_baseline
  nominal_baseline-IsFrom test base [] hb ms = hb
  nominal_baseline-IsFrom test none (c ∷ cells) hb ms =
      let first =
        str_eq c.role "baseline" || (str_eq c.role "control" && g.has_prefix test "vless.") in
      nominal_baseline-IsFrom test (if first then some c else none) cells
        (if_lem (IsFrom rc.cells) first (some c) none
          (λ _ d e. subst (λ q. Memᴰ q rc.cells) (some_path c d e) ms.0) (λ _. hb))
        ms.1
  nominal_baseline-IsFrom test (some b) (c ∷ cells) hb ms =
      nominal_baseline-IsFrom test (if str_eq c.role "baseline" then some c else some b) cells
        (if_lem (IsFrom rc.cells) (str_eq c.role "baseline") (some c) (some b)
          (λ _ d e. subst (λ q. Memᴰ q rc.cells) (some_path c d e) ms.0) (λ _. hb))
        ms.1

  -- The baseline of a group is one of the cells, and it passes.
  abbrev IsPassing : Option Cell → Type 0
  IsPassing o = (c : Cell) → o ≡ some c → Memᴰ c rc.cells × (passes c ≡ true)

  first_passing-IsPassing :
      (cells : List Cell)
      → ((c : Cell) → Memᴰ c cells → Memᴰ c rc.cells)
      → IsPassing (first_passing g cells)
  unfolding first_passing
  first_passing-IsPassing cells h =
      first_or_lem IsPassing (filter (λ c. passes c && not (str_eq c.role "control")) cells) none
        (λ c. some c) (λ c e. absurd (ground (arith, e)))
        (λ x m c e.
          let r = mem_filter _ x cells m in
          subst (λ d. Memᴰ d rc.cells × (passes d ≡ true)) (some_path x c e)
            (h x r.0, ground (arith, r.1)))

  variant_baseline-IsPassing :
      (test : String) (cells : List Cell)
      → ((c : Cell) → Memᴰ c cells → Memᴰ c rc.cells)
      → All (λ c. Memᴰ c rc.cells) cells
      → IsPassing (variant_baseline g test cells)
  unfolding variant_baseline
  variant_baseline-IsPassing test cells h ms =
      option_or_lem IsPassing (nominal_baseline g test none cells) (first_passing g cells) _
        (first_passing-IsPassing cells h)
        (λ base e.
          if_lem IsPassing (passes base) (some base) (first_passing g cells)
            (λ t c k.
              subst (λ d. Memᴰ d rc.cells × (passes d ≡ true)) (some_path base c k)
                (
                  nominal_baseline-IsFrom test none cells (λ d q. absurd (ground (arith, q))) ms
                      base e,
                  t,
                ))
            (λ _. first_passing-IsPassing cells h))

  all_from :
      (cells : List Cell)
      → ((c : Cell) → Memᴰ c cells → Memᴰ c rc.cells)
      → All (λ c. Memᴰ c rc.cells) cells
  all_from [] h = tt
  all_from (c ∷ cells) h = (h c (Memᴰ.head refl), all_from cells (λ d m. h d (Memᴰ.tail m)))

  mem_group : (v c : Cell) → Memᴰ c (group_of g rc v) → Memᴰ c rc.cells
  unfolding group_of by_test
  mem_group v c m = (mem_filter _ c rc.cells (mem_filter _ c (by_test g rc v.test_id) m).0).0

  pub variant_verdicts-IsJustified :
      (v : Cell) → Memᴰ v rc.cells → All (IsJustified g rc.cells) (variant_verdicts g rc v)
  unfolding variant_verdicts is_differential
  variant_verdicts-IsJustified v mv =
      if_lem (All OfCells) (is_dest_test g v.test_id) [] _ (λ _. tt)
        (λ _.
          option_or_lem (All OfCells) (variant_baseline g v.test_id (group_of g rc v)) [] _ tt
            (λ base e.
              let b =
                variant_baseline-IsPassing v.test_id (group_of g rc v) (mem_group v)
                  (all_from (group_of g rc v) (mem_group v)) base e in
              if_lem (All OfCells) (is_differential g rc base v) _ []
                (λ t. (
                  justify g rc.cells _ v base "" "passing baseline: " mv b.0
                      (fails-passes v (ground (arith, t))) b.1 (Memᴰ.head refl)
                      (Memᴰ.tail (Memᴰ.head refl)),
                  tt,
                ))
                (λ _. tt)))

  pub every_cell : All (λ c. Memᴰ c rc.cells) rc.cells
  every_cell = all_from rc.cells (λ c m. m)

  pub protocol_verdicts-IsJustified : All (IsJustified g rc.cells) (protocol_from g rc [] rc.cells)
  protocol_verdicts-IsJustified = protocol_from-IsJustified [] rc.cells every_cell
