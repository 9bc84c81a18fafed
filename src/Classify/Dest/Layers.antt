-- ===== src/Classify/Dest/Layers.antt =====
-- internal/classify/dest.go: the verdicts on the layers of one site.
use Prim.Native.String.{◌++◌ as text_append}
use censor_pulse_cli.Common.{
  Bool, List, Option, String, [], if◌then◌else◌, none, not, some, str_eq, true, ◌&&◌, ◌++◌, ◌==◌,
  ◌||◌, ◌∷◌,
}
use censor_pulse_cli.Client.Merge.{Runtime, one_of}
use censor_pulse_cli.Classify.Cells.{Cell, passes, fails, low, measured}
use censor_pulse_cli.Classify.Cells.Keys.{key, dominant}
use censor_pulse_cli.Classify.Rules.{Evidence, Verdict, said, verdict, option_or}
use censor_pulse_cli.Classify.Dest.{
  dest_failed, around, brief, capped, cell_or_none, connect_stage, find_variant, is_with,
}
use censor_pulse_cli.Classify.Dest.Family.{Controls}

-- The cells of a site.
pub record Site : Type 0 where
  pub dns : Option Cell
  pub tcp : Option Cell
  pub real : Option Cell
  pub decoy : Option Cell
  pub absent : Option Cell
  pub http : Option Cell
  pub proto : Option Cell

unfoldable pub site_of : List Cell → String → Site
site_of cells d = record {
  dns = find_variant cells "dest.dns" d;
  tcp = find_variant cells "dest.tcp" d;
  real = find_variant cells "dest.tls" d;
  decoy = find_variant cells "dest.tls" (text_append "decoy:" d);
  absent = find_variant cells "dest.tls" (text_append "absent:" d);
  http = find_variant cells "dest.http" d;
  proto = find_variant cells "dest.proto" d;
}

abbrev pub is_dominated : String → Cell → Bool
is_dominated outcome c = str_eq (dominant c) outcome

abbrev pub lines_if : {A : Type 0} → Bool → List A → List A
lines_if t xs = if t then xs else []

module _ (g : Runtime) where
  abbrev pub is_unmeasured_cell : Option Cell → Bool
  is_unmeasured_cell none = true
  is_unmeasured_cell (some c) = measured c == 0

  -- tcpPass || (tcpUnmeasured && !connectStage(c))
  unfoldable pub is_reached : Site → Cell → Bool
  is_reached s c = is_with s.tcp passes || (is_unmeasured_cell s.tcp && not (connect_stage c))

  -- `tcpLine`
  unfoldable pub tcp_line : Site → Evidence g
  tcp_line s =
      if is_with s.tcp passes
      then brief g "passing control: TCP connect " (cell_or_none s.tcp)
      else said g
          "TCP to the address connected in the handshake attempts themselves (the TCP layer measured nothing)"

module _ (g : Runtime) (k : Controls) where
  abbrev pub control_lines : Cell → List (Evidence g)
  control_lines control =
      brief g "passing control: " control
      ∷ said g
          "the system resolver's answer for this name is not the one the trusted resolvers give and does not serve; a control site resolves cleanly"
      ∷ []

  -- A resolver that answers with another address, without a control.
  unfoldable pub alone_verdicts : Cell → List (Verdict g)
  alone_verdicts dns =
      if k.system_unreliable
      then []
      else verdict g "dest_dns_poisoning_suspected" (key g dns) low (
          brief g "" dns
          ∷ said g
              "no site resolved cleanly through the system resolver: the whole resolver may be substituted"
          ∷ [])
        ∷ []

  -- A resolver that answers with another address.
  unfoldable pub mismatch_verdicts : Cell → List (Verdict g)
  mismatch_verdicts dns = option_or k.dns_control (alone_verdicts dns) (λ control.
      verdict g "dest_dns_poisoning_suspected" (key g dns) (capped g dns control)
        (brief g "" dns ∷ control_lines control)
      ∷ [])

  unfoldable pub dns_layer : Site → List (Verdict g)
  dns_layer s =
      let dns = cell_or_none s.dns in
      if not (is_with s.dns dest_failed)
      then []
      else if is_dominated "dns_answer_mismatch" dns
      then mismatch_verdicts dns
      else if is_dominated "dns_timeout" dns && not k.system_down && k.transport_ok
      then verdict g "dest_dns_poisoning_suspected" (key g dns) low (
          brief g "" dns
          ∷ said g
              "the system resolver timed out for this name only while the trusted resolvers answered; other names resolved: a per-name blackhole in the resolver, or loss"
          ∷ brief g "passing control: " (cell_or_none k.anycast)
          ∷ [])
        ∷ []
      else []

  unfoldable pub tcp_lines : Site → List (Evidence g)
  tcp_lines s =
      brief g "" (cell_or_none s.tcp)
      ∷ brief g "passing control: " (cell_or_none k.anycast)
      ∷ lines_if (is_with s.dns (λ dns. fails dns && is_dominated "dns_answer_mismatch" dns)) (
          said g "the addresses probed are the trusted resolvers' answers, not the poisoned ones"
          ∷ [])

  -- Kind and last line of a failing TCP layer.
  unfoldable pub tcp_kind : String → String × List (Evidence g)
  tcp_kind outcome =
      if str_eq outcome "connect_timeout"
      then (
        "dest_tcp_blackhole_suspected",
        said g
              "SYN to the site's address on :443 is never answered while a clean anycast address answers: the address (or prefix) is dropped"
            ∷ [],
      )
      else if one_of outcome ("connect_reset" ∷ "connect_refused" ∷ [])
      then (
        "dest_tcp_reset_suspected",
        said g
              "the connect is actively rejected (RST / refused) while a clean anycast address accepts: an injected reset or a sinkhole"
            ∷ [],
      )
      else ("dest_tcp_blocking_suspected", [])

  unfoldable pub tcp_layer : Site → List (Verdict g)
  tcp_layer s =
      let tcp = cell_or_none s.tcp in
      lines_if (is_with s.tcp dest_failed && k.transport_ok) (
        verdict g (tcp_kind (dominant tcp)).0 (key g tcp) (capped g tcp (cell_or_none k.anycast))
          (tcp_lines s ++ (tcp_kind (dominant tcp)).1)
        ∷ [])

  -- The first address of a site does not accept what another one does.
  unfoldable pub primary_verdicts : Site → Cell → String → List (Verdict g)
  primary_verdicts s c after = lines_if k.transport_ok (
      verdict g "dest_tcp_blackhole_suspected" (key g c) low (
        brief g "" c
        ∷ brief g "passing control: " (cell_or_none k.anycast)
        ∷ around g
            "the site's primary address does not accept TCP on :443 while another of its addresses does ("
            (cell_or_none s.tcp) after
        ∷ [])
      ∷ [])
