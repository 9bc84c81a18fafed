-- ===== src/Client/Plan/Quick.antt =====
-- internal/client/profile.go: the quick profile. No rule has an empty list of ports in the code, so []
-- stands for nil.
pub mod Covers
use censor_pulse_cli.Common.{
  Bool, List, String, [], false, if◌then◌else◌, length, map, not, str_eq, true, ℕ, ◌&&◌, ◌++◌, ◌==◌,
  ◌||◌, ◌∷◌,
}
use censor_pulse_cli.Client.Merge.{Runtime}
use censor_pulse_cli.Client.Plan.{Plan}

-- `quickRule`
pub record QuickRule : Type 0 where
  pub test : String
  pub transport : String
  pub ports : List ℕ
  pub variant : String

abbrev rule : String → String → List ℕ → String → QuickRule
rule test transport ports variant = record {
  test = test;
  transport = transport;
  ports = ports;
  variant = variant;
}

-- `quickPlan`
abbrev pub quick_plan : List QuickRule
quick_plan =
    rule "tcp.echo" "tcp" (80 ∷ 8080 ∷ 443 ∷ 4433 ∷ []) "cp1-64"
    ∷ rule "tcp.rtt" "tcp" (443 ∷ []) ""
    ∷ rule "http.host" "tcp" (80 ∷ 8080 ∷ 443 ∷ []) "benign"
    ∷ rule "http.host" "tcp" (80 ∷ []) "trigger:"
    ∷ rule "tls.sni" "tcp" (443 ∷ []) "benign"
    ∷ rule "tls.sni" "tcp" (443 ∷ []) "trigger:"
    ∷ rule "tls.sni" "tcp" (443 ∷ []) "absent"
    ∷ rule "tls.version" "tcp" (443 ∷ []) ""
    ∷ rule "tls.fingerprint" "tcp" (443 ∷ []) "chrome"
    ∷ rule "tls.fingerprint" "tcp" (443 ∷ []) "firefox"
    ∷ rule "tls.fingerprint" "tcp" (443 ∷ []) "android"
    ∷ rule "dns.udp" "udp" (53 ∷ []) ""
    ∷ rule "dns.system" "udp" [] ""
    ∷ rule "quic.v1" "udp" (443 ∷ []) ""
    ∷ rule "stun.binding" "udp" (443 ∷ []) ""
    ∷ rule "dtls.hello" "udp" (443 ∷ []) ""
    ∷ rule "udp.echo" "udp" (443 ∷ 1194 ∷ 51820 ∷ []) ""
    ∷ rule "openvpn.reset" "udp" (1194 ∷ []) "udp+tls-auth"
    ∷ rule "openvpn.session" "udp" (1194 ∷ []) "udp+tls-auth+data"
    ∷ rule "openvpn.reset" "tcp" (443 ∷ []) "tcp+tls-auth"
    ∷ rule "openvpn.session" "tcp" (443 ∷ []) "tcp+tls-auth+data"
    ∷ rule "wireguard.init" "udp" (51820 ∷ []) ""
    ∷ rule "wireguard.session" "udp" (51820 ∷ []) ""
    ∷ rule "tcp.payload.random" "tcp" (443 ∷ []) "random-2048"
    ∷ rule "obfs4.handshake" "tcp" (443 ∷ []) ""
    ∷ rule "obfs4.session" "tcp" (443 ∷ []) ""
    ∷ rule "tor.handshake" "tcp" (443 ∷ []) ""
    ∷ rule "tor.link" "tcp" (443 ∷ []) ""
    ∷ rule "vless.reality" "tcp" (443 ∷ []) ""
    ∷ rule "vless.session" "tcp" (443 ∷ []) "reality:"
    ∷ []

-- `containsInt`
unfoldable pub contains_port : List ℕ → ℕ → Bool
contains_port [] port = false
contains_port (p ∷ ports) port = p == port || contains_port ports port

-- A plan with its place in `keep`.
abbrev pub Kept : Type 0
Kept = Plan × Bool

abbrev pub unkept : Plan → Kept
unkept p = (p, false)

-- keep[i] = true for every plan that passes.
unfoldable pub keep_all : (Plan → Bool) → List Kept → List Kept
keep_all test [] = []
keep_all test (k ∷ ks) = (k.0, k.1 || test k.0) ∷ keep_all test ks

-- keep[i] = true for the first plan that passes.
unfoldable pub keep_first : (Plan → Bool) → List Kept → List Kept
keep_first test [] = []
keep_first test (k ∷ ks) =
    let rest = keep_first test ks in if test k.0 then (k.0, true) ∷ ks else k ∷ rest

-- A plan passes.
unfoldable pub is_found : (Plan → Bool) → List Kept → Bool
is_found test [] = false
is_found test (k ∷ ks) = test k.0 || is_found test ks

-- The plans that are kept, in their order.
unfoldable pub plans_kept : List Kept → List Plan
plans_kept [] = []
plans_kept (k ∷ ks) = (if k.1 then k.0 ∷ [] else []) ++ plans_kept ks

-- Test and transport are those of a rule.
abbrev pub is_of : QuickRule → Plan → Bool
is_of r p = str_eq p.test_id r.test && str_eq p.transport r.transport

module _ (g : Runtime) where
  -- `match`
  unfoldable pub matches : Bool → Bool → QuickRule → Plan → Bool
  matches port variant r p =
      is_of r p
      && not (variant && not (str_eq r.variant "") && not (g.has_prefix p.variant r.variant))
      && not (port && not (length r.ports == 0) && not (contains_port r.ports p.port))

  -- The fallbacks of a rule, one plan each.
  unfoldable pub fall_back : QuickRule → List Kept → List Kept
  fall_back r ks =
      if is_found (matches false true r) ks
      then keep_first (matches false true r) ks
      else if is_found (matches true false r) ks
      then keep_first (matches true false r) ks
      else keep_first (matches false false r) ks

  unfoldable pub keep_rule : QuickRule → List Kept → List Kept
  keep_rule r ks =
      if is_found (matches true true r) ks
      then keep_all (matches true true r) ks
      else fall_back r ks

  unfoldable pub keep_rules : List QuickRule → List Kept → List Kept
  keep_rules [] ks = ks
  keep_rules (r ∷ rs) ks = keep_rules rs (keep_rule r ks)

  -- `quickFilter`
  unfoldable pub quick_filter : List Plan → List Plan
  quick_filter plans = plans_kept (keep_rules quick_plan (map unkept plans))
