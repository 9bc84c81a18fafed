-- ===== src/Dest.antt =====
-- internal/dest/dest.go: the addresses of a site that two resolver views give, and which of them are
-- probed. The addresses are those of net/netip.
pub mod Public
pub mod Cases
pub mod Grounds
use Prim.Native.String.{◌++◌ as text_append}
use censor_pulse_cli.Common.{
  Bool, List, Option, String, [], false, filter, if◌then◌else◌, leb, length, ltb, map, none, not,
  some, str_eq, true, ℕ, ◌&&◌, ◌++◌, ◌==◌, ◌||◌, ◌↔◌, ◌∷◌, ◌≡◌,
}

-- What the code calls of net/netip: equality, `Unmap`, `IsValid`, `IsGlobalUnicast`, `IsPrivate`, `Is4` and
-- `As4`. Unmapping twice is unmapping once.
pub record Addresses : Type 1 where
  pub Addr : Type 0
  pub same : Addr → Addr → Bool
  pub same_iff : (x y : Addr) → (same x y ≡ true) ↔ (x ≡ y)
  pub unmap : Addr → Addr
  pub unmap_unmap : (x : Addr) → unmap (unmap x) ≡ unmap x
  pub is_valid : Addr → Bool
  pub is_global_unicast : Addr → Bool
  pub is_private : Addr → Bool
  pub is_4 : Addr → Bool
  pub octets : Addr → ℕ × ℕ × ℕ × ℕ

-- The IPv4 ranges of `IsBogon`.
unfoldable pub is_reserved : ℕ → ℕ → ℕ → Bool
is_reserved a b c =
    a == 0
    || a == 127
    || a == 255
    || (a == 100 && leb 64 b && leb b 127)
    || (a == 169 && b == 254)
    || (a == 192 && b == 0 && c == 2)
    || (a == 198 && b == 51 && c == 100)
    || (a == 203 && b == 0 && c == 113)

-- `Comparison`
pub record Comparison : Type 0 where
  pub tampered : Bool
  pub reason : String
  pub disagree : Bool
  pub note : String

abbrev pub noted : String → Comparison
noted note = record { tampered = false; reason = ""; disagree = false; note = note }

abbrev pub tampering : String → String → Comparison
tampering reason note = record { tampered = true; reason = reason; disagree = false; note = note }

abbrev pub disagreement : String → Comparison
disagreement note = record { tampered = false; reason = ""; disagree = true; note = note }

-- `ClassifyHTTP`, with the number of any other status as it is printed.
unfoldable pub classify_http : (ℕ → String) → ℕ → Bool × String
classify_http itoa status =
    if status == 451
    then (true, "HTTP 451: unavailable for legal reasons")
    else if status == 403
    then (false, "HTTP 403: inconclusive (region gate or bot wall)")
    else if status == 0
    then (false, "no HTTP response")
    else (false, text_append "HTTP " (itoa status))

module _ (n : Addresses) where
  -- `IsBogon`, of an address that is unmapped.
  unfoldable pub is_bogon_plain : n.Addr → Bool
  is_bogon_plain ip =
      not (n.is_valid ip)
      || not (n.is_global_unicast ip)
      || n.is_private ip
      || (n.is_4 ip && is_reserved (n.octets ip).0 (n.octets ip).1 (n.octets ip).2)

  -- `IsBogon`
  unfoldable pub is_bogon : n.Addr → Bool
  is_bogon ip = is_bogon_plain (n.unmap ip)

  -- seen[ip]
  unfoldable pub is_one_of : n.Addr → List n.Addr → Bool
  is_one_of ip [] = false
  is_one_of ip (x ∷ xs) = n.same ip x || is_one_of ip xs

  -- !ip.IsValid() || seen[ip]
  abbrev pub is_skipped : List n.Addr → n.Addr → Bool
  is_skipped seen ip = not (n.is_valid ip) || is_one_of ip seen

  -- `Unique`, after some addresses.
  unfoldable pub unique_from : List n.Addr → List n.Addr → List n.Addr
  unique_from seen [] = []
  unique_from seen (ip ∷ ips) =
      (if is_skipped seen (n.unmap ip) then [] else n.unmap ip ∷ [])
      ++ unique_from (if is_skipped seen (n.unmap ip) then seen else n.unmap ip ∷ seen) ips

  -- `Unique`
  abbrev pub unique : List n.Addr → List n.Addr
  unique = unique_from []

  abbrev pub public_of : List n.Addr → List n.Addr
  public_of ips = filter (λ ip. not (is_bogon ip)) ips

  -- `Prioritize`
  unfoldable pub prioritize : List n.Addr → List n.Addr
  prioritize ips =
      let public = public_of (unique ips) in
      filter n.is_4 public ++ filter (λ ip. not (n.is_4 ip)) public

  -- `SystemResult` and `Consensus`, as far as they are compared.
  pub record View : Type 0 where
    pub ips : List n.Addr
    pub rcode : String

  -- `Usable`
  abbrev pub usable_of : Option (n.Addr → Bool) → List n.Addr → List n.Addr
  usable_of none ips = ips
  usable_of (some usable) ips = filter usable ips

  abbrev pub or_none : List n.Addr → List n.Addr × String
  or_none [] = ([], "none")
  or_none (ip ∷ ips) = (ip ∷ ips, "system")

  abbrev pub or_system : List n.Addr → List n.Addr → List n.Addr × String
  or_system [] system = or_none system
  or_system (ip ∷ ips) system = (ip ∷ ips, "trusted")

  -- `ProbeAddrs`
  unfoldable pub probe_addrs : View → View → Option (n.Addr → Bool) → List n.Addr × String
  probe_addrs sys trusted usable =
      or_system (usable_of usable (prioritize trusted.ips)) (usable_of usable (prioritize sys.ips))

  -- A public address of a family.
  abbrev pub has_family : Bool → List n.Addr → Bool
  has_family is_4 ips = ltb 0 (
      length
        (filter (λ ip. not (is_bogon ip) && (if n.is_4 (n.unmap ip) then is_4 else not is_4)) ips))

  -- `sharesFamily`
  unfoldable pub shares_family : List n.Addr → List n.Addr → Bool
  shares_family xs ys =
      (has_family true xs && has_family true ys) || (has_family false xs && has_family false ys)

  -- `intersects`
  unfoldable pub intersects : List n.Addr → List n.Addr → Bool
  intersects [] ys = false
  intersects (x ∷ xs) ys = is_one_of (n.unmap x) (map n.unmap ys) || intersects xs ys

  abbrev pub count_public : List n.Addr → ℕ
  count_public ips = length (public_of ips)

  abbrev pub count_bogons : List n.Addr → ℕ
  count_bogons ips = length (filter is_bogon ips)

  -- The last two cases of `Compare`, of two views with public addresses.
  unfoldable pub compare_public : View → View → Comparison
  compare_public sys trusted =
      if not (shares_family sys.ips trusted.ips)
      then noted
          "the system and trusted answers are of different address families (A records on one side, AAAA on the other): not compared"
      else if not (intersects sys.ips trusted.ips)
      then disagreement
          "system and trusted answers share no address: geo-DNS or poisoning, verified by connecting to the system address"
      else noted ""

  -- The cases of `Compare` on views that say something.
  unfoldable pub compare_answers : View → View → Comparison
  compare_answers sys trusted =
      let trusted_public = ltb 0 (count_public trusted.ips) in
      if str_eq sys.rcode "NXDOMAIN" && trusted_public
      then tampering "nxdomain"
          "the system resolver says the name does not exist while the trusted resolvers return addresses"
      else if ltb 0 (count_bogons sys.ips) && trusted_public
      then tampering "bogon"
          "the system resolver returned sinkhole addresses while the trusted resolvers returned public ones"
      else if str_eq trusted.rcode "NXDOMAIN" && ltb 0 (length sys.ips)
      then tampering "hijack"
          "the trusted resolvers say the name does not exist; the system resolver returned addresses"
      else if ltb 0 (count_public sys.ips) && trusted_public
      then compare_public sys trusted
      else noted ""

  -- `Compare`
  unfoldable pub compare_views : View → View → Comparison
  compare_views sys trusted =
      if str_eq trusted.rcode "ERROR" && length trusted.ips == 0
      then noted "every trusted resolver failed: tampering cannot be assessed"
      else if str_eq sys.rcode "TIMEOUT"
      then noted "system resolver timed out"
      else if str_eq trusted.rcode "NXDOMAIN" && length sys.ips == 0
      then noted "NXDOMAIN on both sides"
      else if str_eq trusted.rcode "OTHER" && length trusted.ips == 0
      then noted "the trusted resolvers returned SERVFAIL/REFUSED: tampering cannot be assessed"
      else compare_answers sys trusted
