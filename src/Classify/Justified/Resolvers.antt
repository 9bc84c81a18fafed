-- ===== src/Classify/Justified/Resolvers.antt =====
-- internal/classify/rules_dns.go: what stands behind the verdicts of rule 6.
use censor_pulse_cli.Common.{
  All, All-append, Bool, List, Memᴰ, Option, [], arith, concat_map, if_lem, none, refl, some, subst,
  ◌&&◌, ◌∷◌,
}
use censor_pulse_cli.Client.Merge.{Runtime}
use censor_pulse_cli.Classify.Cells.{Cell, fails, passes}
use censor_pulse_cli.Classify.Rules.{RuleCtx, Verdict}
use censor_pulse_cli.Classify.Rules.Dns.{
  dns_verdicts, dns_port_verdicts, dns_tcp_cell, dns_udp_cell, dns_udp_verdicts, is_other,
  last_cell, manipulation_verdicts, passing_echoes,
}
use censor_pulse_cli.Classify.Justified.{
  IsJustified, IsFrom, concat_map-All, fails-passes, first_or_lem, justify, mem_filter, some_path,
}
use censor_pulse_cli.Classify.Justified.Families.{every_cell}

module _ (g : Runtime) (rc : RuleCtx g) where
  abbrev OfCells : Verdict g → Type 0
  OfCells = IsJustified g rc.cells

  manipulation_verdicts-IsJustified :
      (c : Cell) → All (IsJustified g rc.cells) (manipulation_verdicts g c)
  unfolding manipulation_verdicts
  manipulation_verdicts-IsJustified c = ground arith

  last_cell-IsFrom :
      (test : Cell → Bool) (found : Option Cell) (cells : List Cell)
      → IsFrom rc.cells found
      → All (λ c. Memᴰ c rc.cells) cells
      → IsFrom rc.cells (last_cell g test found cells)
  unfolding last_cell
  last_cell-IsFrom test found [] h ms = h
  last_cell-IsFrom test found (c ∷ cells) h ms =
      last_cell-IsFrom test _ cells
        (if_lem (IsFrom rc.cells) (test c) (some c) found
          (λ _ d e. subst (λ q. Memᴰ q rc.cells) (some_path c d e) ms.0) (λ _. h))
        ms.1

  dns_udp_verdicts-IsJustified :
      (udp tcp : Option Cell)
      → IsFrom rc.cells udp
      → IsFrom rc.cells tcp
      → All (IsJustified g rc.cells) (dns_udp_verdicts g udp tcp)
  unfolding dns_udp_verdicts
  dns_udp_verdicts-IsJustified none tcp hu ht = tt
  dns_udp_verdicts-IsJustified (some udp) none hu ht = tt
  dns_udp_verdicts-IsJustified (some udp) (some tcp) hu ht =
      if_lem (All OfCells) (passes tcp && fails udp) _ []
        (λ t. (
          justify g rc.cells _ udp tcp "" "passing control: " (hu udp refl) (ht tcp refl)
              (fails-passes udp (ground (arith, t))) (ground (arith, t)) (Memᴰ.head refl)
              (Memᴰ.tail (Memᴰ.head refl)),
          tt,
        ))
        (λ _. tt)

  dns_port_verdicts-IsJustified :
      (only : Bool) (c : Cell)
      → Memᴰ c rc.cells
      → All (IsJustified g rc.cells) (dns_port_verdicts g rc only c)
  unfolding dns_port_verdicts is_other passing_echoes
  dns_port_verdicts-IsJustified only c mc =
      if_lem (All OfCells) (is_other g rc only c) [] _ (λ _. tt)
        (λ t. first_or_lem (All OfCells) (passing_echoes g rc c.transport) [] _ tt (λ control m.
          let r = mem_filter _ control rc.cells m in
          (
            justify g rc.cells _ c control ""
                "no echo runs on this port; passing echo on another port of the same transport: " mc
                r.0 (fails-passes c (ground (arith, t))) (ground (arith, r.1)) (Memᴰ.head refl)
                (Memᴰ.tail (Memᴰ.head refl)),
            tt,
          )))

  pub dns_verdicts-IsJustified : All (IsJustified g rc.cells) (dns_verdicts g rc)
  unfolding dns_verdicts dns_udp_cell dns_tcp_cell
  dns_verdicts-IsJustified =
      All-append OfCells (concat_map (manipulation_verdicts g) rc.cells) _
        (concat_map-All OfCells (manipulation_verdicts g) rc.cells
          (λ c _. manipulation_verdicts-IsJustified c))
        (All-append OfCells (dns_udp_verdicts g (dns_udp_cell g rc) (dns_tcp_cell g rc)) _
          (dns_udp_verdicts-IsJustified (dns_udp_cell g rc) (dns_tcp_cell g rc)
            (last_cell-IsFrom _ none rc.cells (λ c e. absurd (ground (arith, e))) (every_cell g rc))
            (last_cell-IsFrom _ none rc.cells (λ c e. absurd (ground (arith, e)))
              (every_cell g rc)))
          (concat_map-All OfCells _ rc.cells (dns_port_verdicts-IsJustified _)))
