-- ===== src/Client/Plan/Shapes.antt =====
-- internal/client/plan.go and tests_tor.go: the second half of `Catalog`, the tests of protocol shapes.
use Prim.Native.String.{◌++◌ as text_append}
use censor_pulse_cli.Common.{
  Bool, List, String, [], concat_map, false, if◌then◌else◌, not, str_eq, true, ℕ, ◌&&◌, ◌++◌, ◌==◌,
  ◌∷◌,
}
use censor_pulse_cli.Client.Merge.{Runtime}
use censor_pulse_cli.Client.Plan.{Plan, Scan, add_plan, prefer_ports, pick, has_feature}
use censor_pulse_cli.Client.Plan.Ports.{role_if}

-- `torOptions`, without Link.
pub record TorOptions : Type 0 where
  pub tor_hello : Bool
  pub tor_cert : Bool
  pub tls13 : Bool

-- `torOptions.variant`
unfoldable pub tor_variant : TorOptions → String
tor_variant o = text_append (if o.tor_hello then "tor-hello" else "go-hello") (
    text_append "+" (
      text_append (if o.tor_cert then "tor-cert" else "probe-cert")
        (if o.tls13 then "@1.3" else "")))

abbrev pub plain_tls : TorOptions
plain_tls = record { tor_hello = false; tor_cert = false; tls13 = false }

abbrev pub tor_tls12 : TorOptions
tor_tls12 = record { tor_hello = true; tor_cert = true; tls13 = false }

abbrev pub tor_tls13 : TorOptions
tor_tls13 = record { tor_hello = true; tor_cert = true; tls13 = true }

-- `allTorHandshakes`
abbrev pub all_tor_handshakes : List TorOptions
all_tor_handshakes =
    plain_tls
    ∷ record { tor_hello = false; tor_cert = true; tls13 = false }
    ∷ record { tor_hello = true; tor_cert = false; tls13 = false }
    ∷ tor_tls12
    ∷ tor_tls13
    ∷ []

-- ovpn.AuthTLS or ovpn.AuthNone
pub data Auth : Type 0 where
  auth_none : Auth
  auth_tls : Auth

-- `ovpnVariant`
unfoldable pub ovpn_variant : String → Auth → Bool → String
ovpn_variant transport auth_tls session =
    text_append transport (text_append "+tls-auth" (if session then "+data" else ""))
ovpn_variant transport auth_none session =
    text_append transport (if session then "+control+data" else "")

-- `ovpnAuths`
abbrev pub ovpn_auths : Scan → List Auth
ovpn_auths s = auth_none ∷ (if str_eq s.tls_auth_key "" then [] else auth_tls ∷ [])

module _ (g : Runtime) (s : Scan) (want : List String) where
  abbrev pub add_shape : String → String → String → String → ℕ → List Plan
  add_shape = add_plan g want false

  abbrev pub add_last : String → String → String → String → ℕ → List Plan
  add_last = add_plan g want true

  abbrev pub with_feature : String → List Plan → List Plan
  with_feature feature plans = if has_feature s feature then plans else []

  -- `addTorHandshake` and `addTorLink`
  unfoldable pub tor_tail : List TorOptions → ℕ → List Plan
  tor_tail options port =
      concat_map
        (λ o.
          add_last "tor.handshake" (role_if (not o.tor_hello && not o.tor_cert)) (tor_variant o)
            "tcp" port)
        options
      ++ add_last "tor.link" "variant" "tor-hello+tor-cert" "tcp" port

  -- The shapes of 443, where it is not the port of the relay.
  abbrev pub other_tor_tail : List ℕ → List ℕ → List Plan
  other_tor_tail [] ports = []
  other_tor_tail (or_port ∷ rest) ports =
      concat_map
        (λ port.
          if port == or_port then [] else tor_tail (plain_tls ∷ tor_tls12 ∷ tor_tls13 ∷ []) port)
        ports

  unfoldable pub tor_plans : List Plan
  tor_plans = with_feature "tor" (
      concat_map (add_shape "tor.dir" "variant" "consensus-microdesc" "tcp")
        (prefer_ports s.tcp_ports (9030 ∷ 80 ∷ []))
      ++ (concat_map (tor_tail all_tor_handshakes) (pick s.tcp_ports 9001)
          ++ other_tor_tail (pick s.tcp_ports 9001) (pick s.tcp_ports 443)))

  unfoldable pub obfs4_plans : ℕ → List Plan
  obfs4_plans port =
      add_shape "tcp.payload.random" "control" "random-2048" "tcp" port
      ++ (add_shape "obfs4.handshake" "variant" "ntor-shaped" "tcp" port
          ++ add_shape "obfs4.session" "variant" "ntor-shaped" "tcp" port)

  unfoldable pub dtls_plans : ℕ → List Plan
  dtls_plans port =
      concat_map (λ fp. add_shape "dtls.hello" (role_if (str_eq fp "firefox-138")) fp "udp" port)
        ("firefox-138" ∷ "pion" ∷ "chrome-136" ∷ [])

  unfoldable pub webrtc_plans : List Plan
  webrtc_plans =
      with_feature "obfs4" (concat_map obfs4_plans (prefer_ports s.tcp_ports (8388 ∷ 443 ∷ [])))
      ++ (with_feature "stun" (
            concat_map (add_shape "stun.binding" "variant" "rfc5389" "udp")
              (prefer_ports s.udp_ports (3478 ∷ 443 ∷ [])))
          ++ with_feature "dtls"
              (concat_map dtls_plans (prefer_ports s.udp_ports (3478 ∷ 443 ∷ []))))

  unfoldable pub burst_plans : ℕ → List Plan
  burst_plans port =
      add_last "tls.burst" "variant" (text_append "chrome-x" (g.itoa s.burst_n)) "tcp" port
      ++ add_last "tls.burst" "control" (text_append "firefox-x" (g.itoa s.burst_n)) "tcp" port

  unfoldable pub plain_bulk_plans : ℕ → List Plan
  plain_bulk_plans port =
      add_shape "tcp.bulk" "baseline" "up-plain" "tcp" port
      ++ add_shape "tcp.bulk" "variant" "down-plain" "tcp" port

  unfoldable pub tls_bulk_plans : ℕ → List Plan
  tls_bulk_plans port =
      add_shape "tcp.bulk" "baseline" "up-tls" "tcp" port
      ++ (add_shape "tcp.bulk" "variant" "down-tls" "tcp" port
          ++ (add_shape "tcp.bulk" "variant" (text_append "up-tls:trigger:" s.trigger_host) "tcp"
                port
              ++ concat_map
                  (λ sni.
                    add_shape "tcp.bulk" "variant" (text_append "up-tls:list:" sni) "tcp" port)
                  s.sni_list))

  unfoldable pub bulk_plans : List Plan
  bulk_plans = with_feature "bulk" (
      concat_map plain_bulk_plans (prefer_ports s.tcp_ports (80 ∷ 8080 ∷ []))
      ++ concat_map tls_bulk_plans (prefer_ports s.tcp_ports (443 ∷ 8443 ∷ 4433 ∷ [])))

  -- The plans of an OpenVPN test on both transports.
  unfoldable pub ovpn_plans : String → Bool → Auth → List Plan
  ovpn_plans test session auth =
      concat_map (add_shape test "variant" (ovpn_variant "tcp" auth session) "tcp")
        (prefer_ports s.tcp_ports (1194 ∷ 443 ∷ []))
      ++ concat_map (add_shape test "variant" (ovpn_variant "udp" auth session) "udp")
          (prefer_ports s.udp_ports (1194 ∷ 443 ∷ []))

  abbrev pub wireguard_ports : List ℕ
  wireguard_ports = prefer_ports s.udp_ports (51820 ∷ 443 ∷ [])

  unfoldable pub vpn_plans : List Plan
  vpn_plans =
      concat_map (ovpn_plans "openvpn.reset" false) (ovpn_auths s)
      ++ (concat_map (add_shape "wireguard.init" "variant" "noise-ik" "udp") wireguard_ports
          ++ with_feature "vpn-session" (
              concat_map (add_shape "wireguard.session" "variant" "noise-ik+data" "udp")
                wireguard_ports
              ++ concat_map (ovpn_plans "openvpn.session" true) (ovpn_auths s)))

  -- A handshake and its session of one variant.
  abbrev pub pair_plans : String → String → String → String → String → ℕ → List Plan
  pair_plans init session role variant transport port =
      add_shape init role variant transport port
      ++ add_shape session "variant" variant transport port

  unfoldable pub ike_plans : List Plan
  ike_plans =
      with_feature "ike" (
        concat_map (pair_plans "ikev2.init" "ikev2.session" "variant" "plain" "udp")
          (prefer_ports s.udp_ports (500 ∷ []))
        ++ concat_map (pair_plans "ikev2.init" "ikev2.session" "variant" "nat-t" "udp")
            (prefer_ports s.udp_ports (4500 ∷ [])))
      ++ with_feature "l2tp" (
          concat_map (pair_plans "l2tp.init" "l2tp.session" "variant" "v2" "udp")
            (prefer_ports s.udp_ports (1701 ∷ [])))

  unfoldable pub socks5_plans : ℕ → List Plan
  socks5_plans port =
      add_shape "socks5.connect" "baseline" "noauth" "tcp" port
      ++ (add_shape "socks5.connect" "variant" "userpass" "tcp" port
          ++ add_shape "socks5.session" "variant" "noauth" "tcp" port)

  unfoldable pub vless_plans : ℕ → List Plan
  vless_plans port =
      let reality = text_append "reality:" s.reality_sni in
      add_shape "vless.reality" "variant" reality "tcp" port
      ++ (add_shape "vless.reality" "control" "benign" "tcp" port
          ++ (add_shape "vless.session" "variant" reality "tcp" port
              ++ add_shape "vless.session" "control" "benign" "tcp" port))

  unfoldable pub proxy_plans : List Plan
  proxy_plans =
      with_feature "socks5" (concat_map socks5_plans (prefer_ports s.tcp_ports (1080 ∷ [])))
      ++ with_feature "vless" (concat_map vless_plans (prefer_ports s.tcp_ports (443 ∷ 4433 ∷ [])))

  -- The plans of the second half, in their order.
  unfoldable pub shape_plans : List Plan
  shape_plans =
      tor_plans
      ++ (webrtc_plans
          ++ (concat_map burst_plans (pick s.tcp_ports 443)
              ++ (bulk_plans
                  ++ (concat_map (add_shape "quic.v1" "variant" "h3" "udp") s.quic_ports
                      ++ (vpn_plans ++ (ike_plans ++ proxy_plans))))))
