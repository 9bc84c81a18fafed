-- ===== src/Client/Plan.antt =====
-- internal/client/plan.go: plans, and what `Catalog` builds them from. A plan stands without the closure
-- that runs it.
pub mod Ports
pub mod Shapes
pub mod Catalog
pub mod Quick
use Prim.Native.String.{◌++◌ as text_append}
use censor_pulse_cli.Common.{
  Bool, List, String, [], concat_map, filter, if◌then◌else◌, length, str_eq, ℕ, ◌&&◌, ◌==◌, ◌||◌,
  ◌∷◌,
}
use censor_pulse_cli.Client.Merge.{Runtime, one_of}

-- `Plan`
pub record Plan : Type 0 where
  pub test_id : String
  pub group : String
  pub role : String
  pub variant : String
  pub transport : String
  pub port : ℕ
  pub last : Bool
  pub serial : String

-- `dest.Target`, as far as the plans read it.
pub record Target : Type 0 where
  pub domain : String
  pub category : String
  pub skip_dns : Bool
  pub skip_tls : Bool
  pub http_check : Bool
  pub proto : String

-- What `Catalog` reads of the parameters of the server and of the options.
pub record Scan : Type 0 where
  pub session_tests : List String
  pub tests : List String
  pub tcp_ports : List ℕ
  pub udp_ports : List ℕ
  pub dns_ports : List ℕ
  pub dot_port : ℕ
  pub quic_ports : List ℕ
  pub zone : String
  pub features : List String
  pub tls_auth_key : String
  pub trigger_host : String
  pub control_port : ℕ
  pub sni_list : List String
  pub reality_sni : String
  pub burst_n : ℕ
  pub profile : String
  pub is_sites : Bool
  pub is_standalone : Bool
  pub targets : List Target

-- `want`
unfoldable pub wanted : Scan → List String
wanted s = elim s.tests [
  | [] ↦ s.session_tests
  | t ∷ ts ↦ filter (λ x. one_of x s.session_tests) (t ∷ ts)
]

abbrev pub has_feature : Scan → String → Bool
has_feature s feature = one_of feature s.features

-- `intersect`
unfoldable pub intersect : List ℕ → List ℕ → List ℕ
intersect xs ys = concat_map (λ x. concat_map (λ y. if x == y then x ∷ [] else []) ys) xs

-- offered[:1]
abbrev pub first_of : List ℕ → List ℕ
first_of [] = []
first_of (p ∷ ps) = p ∷ []

-- `preferPorts`
unfoldable pub prefer_ports : List ℕ → List ℕ → List ℕ
prefer_ports offered preferred =
    let found = intersect offered preferred in if length found == 0 then first_of offered else found

-- `pick`, of ports that are not empty; none of no ports.
unfoldable pub pick : List ℕ → ℕ → List ℕ
pick [] preferred = []
pick (p ∷ ps) preferred =
    if length (filter (λ q. q == preferred) (p ∷ ps)) == 0 then p ∷ [] else preferred ∷ []

module _ (g : Runtime) where
  -- `reserveKind`
  unfoldable pub reserve_kind : String → String → String
  reserve_kind test variant =
      if g.has_prefix test "tls." || g.has_prefix test "tor.handshake" || str_eq test "tor.link"
      then "tls_client_hello"
      else if g.has_prefix test "vless."
      then "vless"
      else if str_eq test "tcp.packets"
      then if g.has_prefix variant "tls" then "tls_client_hello" else "cp1_envelope"
      else if one_of test ("tcp.payload.random" ∷ "udp.payload.random" ∷ [])
      then "unknown"
      else if g.has_prefix test "openvpn."
      then "openvpn_reset"
      else if g.has_prefix test "wireguard."
      then "wireguard_initiation"
      else if g.has_prefix test "ikev2."
      then "ikev2"
      else if g.has_prefix test "l2tp."
      then "l2tp_control"
      else if g.has_prefix test "socks5."
      then "socks5"
      else if g.has_prefix test "obfs4."
      then "obfs4_handshake"
      else if str_eq test "quic.v1"
      then "quic"
      else if str_eq test "dtls.hello"
      then "dtls_client_hello"
      else if str_eq test "stun.binding"
      then "stun_binding"
      else if str_eq test "tor.dir"
      then "http_request"
      else if str_eq test "dns.udp" && g.has_prefix variant "trigger:"
      then "dns_query"
      else ""

  -- transport + "/" + strconv.Itoa(port)
  abbrev pub group_of_port : String → ℕ → String
  group_of_port transport port = text_append transport (text_append "/" (g.itoa port))

  unfoldable pub serial_of : String → ℕ → String → String
  serial_of transport port kind =
      if str_eq kind ""
      then ""
      else text_append (group_of_port transport port) (text_append "/" kind)

  unfoldable pub new_plan : Bool → String → String → String → String → ℕ → Plan
  new_plan last test role variant transport port = record {
    test_id = test;
    group = group_of_port transport port;
    role = role;
    variant = variant;
    transport = transport;
    port = port;
    last = last;
    serial = serial_of transport port (reserve_kind test variant);
  }

  -- `add` and `addLast`: the plans that they append.
  unfoldable pub add_plan : List String → Bool → String → String → String → String → ℕ → List Plan
  add_plan want last test role variant transport port =
      if one_of test want then new_plan last test role variant transport port ∷ [] else []
