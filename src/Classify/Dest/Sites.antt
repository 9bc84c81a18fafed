-- ===== src/Classify/Dest/Sites.antt =====
-- internal/classify/dest.go: `Destinations`, the summary of each site. The entries stand in the order of
-- their first attempt until they are sorted.
use Prim.Native.String.{◌++◌ as text_append}
use censor_pulse_cli.Common.{
  string_key, Bool, List, Option, String, [], detail_at, false, filter, find, get_elem?,
  if◌then◌else◌, length, ltb, map, none, not, put, some, str_eq, true, ℕ, ◌&&◌, ◌++◌, ◌+◌, ◌==◌,
  ◌^◌, ◌||◌, ◌∷◌,
}
use censor_pulse_cli.Client.Integers.{ℤ, int_ltb, int_eq, pos}
use censor_pulse_cli.Client.Merge.{Runtime, Attempt, one_of}
use censor_pulse_cli.Client.Merge.Table.{is_dest_test}
use censor_pulse_cli.Classify.Cells.{Cell, Level, measured}
use censor_pulse_cli.Classify.Cells.Keys.{dominant, str_ltb, unmeasured_merged}
use censor_pulse_cli.Classify.Rules.{Verdict, option_or}
use censor_pulse_cli.Classify.Rules.Connect.{sort_by}
use censor_pulse_cli.Classify.Dest.{dest_domain, is_site_cell}

-- `destOrder`
abbrev pub dest_order : List String
dest_order =
    "dest_dns_poisoning_suspected" ∷ "dest_tcp_blackhole_suspected" ∷ "dest_tcp_reset_suspected"
    ∷ "dest_tcp_blocking_suspected" ∷ "dest_sni_blocking_suspected" ∷ "dest_tls_blocking_suspected"
    ∷ "dest_proto_blocking_suspected" ∷ "dest_legal_block_suspected"
    ∷ "dest_tls_interception_suspected" ∷ []

-- `rank`
unfoldable pub rank_in : List String → String → ℕ
rank_in [] kind = 0
rank_in (k ∷ order) kind = if str_eq k kind then 0 else 1 + rank_in order kind

abbrev pub rank : String → ℕ
rank = rank_in dest_order

-- `Destination`, with its entries of `pos` and `hasTLS`.
pub record Destination : Type 0 where
  pub domain : String
  pub category : String
  pub label : String
  pub result : String
  pub confidence : Option Level
  pub layers : List (String × String)
  pub place : ℤ
  pub has_tls : Bool

abbrev pub layer_at : List (String × String) → String → String
layer_at layers layer = detail_at layers layer

-- `layerValue`
unfoldable pub layer_value : Cell → String
layer_value c =
    if measured c == 0
    then dominant c
    else if c.ok_count == measured c
    then "ok"
    else if c.ok_count == 0
    then dominant c
    else text_append "mixed:" (dominant c)

-- A control layer, or a layer that passed.
unfoldable pub is_quiet : String × String → Bool
is_quiet e = one_of e.0 ("decoy" ∷ "absent" ∷ []) || str_eq e.1 "ok"

-- layer == "dns" && v == client.OutcomeDNSRcode
unfoldable pub is_no_name : String × String → Bool
is_no_name e = not (is_quiet e) && str_eq e.0 "dns" && str_eq e.1 "dns_rcode"

-- A layer that sets `unassessed`.
unfoldable pub is_unassessed : String × String → Bool
is_unassessed e = not (is_quiet e) && unmeasured_merged e.1 && one_of e.0 ("dns" ∷ "http" ∷ [])

-- A layer that sets `failed`.
unfoldable pub is_degraded : String × String → Bool
is_degraded e = not (is_quiet e) && not (is_no_name e) && not (unmeasured_merged e.1)

abbrev pub is_some_layer : (String × String → Bool) → List (String × String) → Bool
is_some_layer test layers = not (length (filter test layers) == 0)

-- `reached`
unfoldable pub reached : List (String × String) → Bool → Bool
reached layers has_tls =
    if has_tls
    then str_eq (layer_at layers "tls") "ok" || str_eq (layer_at layers "http") "ok"
    else elim (find "proto" layers) [
      | some v ↦ str_eq v "ok"
      | none ↦ str_eq (layer_at layers "tcp") "ok"
    ]

-- `siteVerdict`
unfoldable pub site_verdict : List (String × String) → Bool → String
site_verdict layers has_tls =
    if is_some_layer is_no_name layers
    then "nxdomain"
    else if is_some_layer is_degraded layers
    then "degraded"
    else if is_some_layer is_unassessed layers || not (reached layers has_tls)
    then "inconclusive"
    else "clear"

module _ (g : Runtime) where
  -- `layerOf`
  unfoldable pub layer_of : String → String → String
  layer_of test variant =
      if str_eq test "dest.dns"
      then "dns"
      else if str_eq test "dest.tcp"
      then "tcp"
      else if str_eq test "dest.http"
      then "http"
      else if str_eq test "dest.proto"
      then "proto"
      else if g.has_prefix variant "decoy:"
      then "decoy"
      else if g.has_prefix variant "absent:"
      then "absent"
      else "tls"

  -- The entry of a site, as its first attempt makes it.
  unfoldable pub new_destination : Attempt g → Destination
  new_destination a =
      let order = g.atoi (detail_at a.detail "order") in
      record {
        domain = detail_at a.detail "domain";
        category = detail_at a.detail "category";
        label = detail_at a.detail "label";
        result = "";
        confidence = none;
        layers = [];
        place = if order.1 then order.0 else pos (2 ^ 30);
        has_tls = false;
      }

  -- hasTLS[d] = true
  unfoldable pub note_tls : Attempt g → Destination → Destination
  note_tls a d =
      if str_eq a.test_id "dest.tls" && str_eq a.variant d.domain
      then record d { has_tls = true }
      else d

  -- f on the entry of a domain.
  unfoldable pub change_at :
      String → (Destination → Destination) → List Destination → List Destination
  change_at domain f [] = []
  change_at domain f (d ∷ ds) =
      let rest = change_at domain f ds in if str_eq d.domain domain then f d ∷ ds else d ∷ rest

  unfoldable pub is_known : String → List Destination → Bool
  is_known domain [] = false
  is_known domain (d ∷ ds) = str_eq d.domain domain || is_known domain ds

  unfoldable pub note_attempt : Attempt g → List Destination → List Destination
  note_attempt a ds =
      let domain = detail_at a.detail "domain" in
      if not (is_dest_test g a.test_id) || str_eq domain ""
      then ds
      else change_at domain (note_tls a)
          (if is_known domain ds then ds else ds ++ (new_destination a ∷ []))

  unfoldable pub note_attempts : List Destination → List (Attempt g) → List Destination
  note_attempts ds [] = ds
  note_attempts ds (a ∷ attempts) = note_attempts (note_attempt a ds) attempts

  -- The catalogue's order, then the name.
  unfoldable pub is_before : Destination → Destination → Bool
  is_before d e =
      if not (int_eq d.place e.place) then int_ltb d.place e.place else str_ltb d.domain e.domain

  abbrev pub set_layer : String → String → Destination → Destination
  set_layer layer value d = record d { layers = put layer value d.layers }

  unfoldable pub note_layers : List Cell → List Destination → List Destination
  note_layers [] ds = ds
  note_layers (c ∷ cells) ds = note_layers cells (
      if is_site_cell g c
      then change_at (dest_domain g c.variant)
          (set_layer (layer_of c.test_id c.variant) (layer_value c)) ds
      else ds)

  abbrev pub skip_layer : String → Destination → Destination
  skip_layer layer d =
      if str_eq (layer_at d.layers layer) "" then set_layer layer "skipped" d else d

  unfoldable pub note_skipped : List (Attempt g) → List Destination → List Destination
  note_skipped [] ds = ds
  note_skipped (a ∷ attempts) ds = note_skipped attempts (
      if is_dest_test g a.test_id && str_eq (detail_at a.detail "transient") "true"
      then change_at (detail_at a.detail "domain") (skip_layer (layer_of a.test_id a.variant)) ds
      else ds)

  -- A verdict that ranks before the one that is there takes its place.
  unfoldable pub note_verdict : Verdict g → Destination → Destination
  note_verdict v d =
      if str_eq d.result "" || ltb (rank v.kind) (rank d.result)
      then record d { result = v.kind; confidence = some v.confidence }
      else d

  -- The third field of a subject.
  abbrev pub third : List String → Option String
  third fields = get_elem? fields 2

  unfoldable pub note_verdicts : List (Verdict g) → List Destination → List Destination
  note_verdicts [] ds = ds
  note_verdicts (v ∷ verdicts) ds = note_verdicts verdicts (
      if not (g.has_prefix v.kind "dest_")
      then ds
      else option_or (third (g.fields v.subject)) ds
          (λ variant. change_at (dest_domain g variant) (note_verdict v) ds))

  unfoldable pub settle : Destination → Destination
  settle d = if str_eq d.result "" then record d { result = site_verdict d.layers d.has_tls } else d

  -- `Destinations`
  unfoldable pub destinations : List (Attempt g) → List Cell → List (Verdict g) → List Destination
  destinations attempts cells verdicts = map settle (
      note_verdicts verdicts
        (note_skipped attempts (note_layers cells (sort_by is_before (note_attempts [] attempts)))))
