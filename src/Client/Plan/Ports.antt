-- ===== src/Client/Plan/Ports.antt =====
-- internal/client/plan.go: the first half of `Catalog`, the tests of ports, names and resolvers.
use Prim.Native.String.{◌++◌ as text_append}
use censor_pulse_cli.Common.{
  Bool, List, String, [], concat_map, false, if◌then◌else◌, length, not, str_eq, true, ℕ, ◌&&◌,
  ◌++◌, ◌==◌, ◌||◌, ◌∷◌,
}
use censor_pulse_cli.Client.Merge.{Runtime, one_of}
use censor_pulse_cli.Client.Plan.{Plan, Scan, add_plan, prefer_ports, pick, first_of, has_feature}

-- `fingerprintPlan`
abbrev pub fingerprint_plan : List String
fingerprint_plan = "chrome" ∷ "firefox" ∷ "safari" ∷ "ios" ∷ "edge" ∷ "android" ∷ "golang" ∷ []

-- The first of a list is the baseline, and the others are variants.
abbrev pub role_if : Bool → String
role_if true = "baseline"
role_if false = "variant"

module _ (g : Runtime) (s : Scan) (want : List String) where
  abbrev pub add : String → String → String → String → ℕ → List Plan
  add = add_plan g want false

  unfoldable pub echo_plans : String → ℕ → List Plan
  echo_plans transport port =
      add (text_append transport ".echo") "baseline" "cp1-64" transport port
      ++ add (text_append transport ".payload.random") "control" "random-64" transport port

  unfoldable pub http_plans : ℕ → List Plan
  http_plans port =
      add "http.host" "baseline" "benign" "tcp" port
      ++ (add "http.host" "variant" (text_append "trigger:" s.trigger_host) "tcp" port
          ++ add "http.host" "control" "random" "tcp" port)

  unfoldable pub dns_plans : ℕ → List Plan
  dns_plans port =
      add "dns.udp" "baseline" "TXT" "udp" port
      ++ (add "dns.udp" "variant" "A" "udp" port
          ++ (add "dns.udp" "variant" (text_append "trigger:" s.trigger_host) "udp" port
              ++ add "dns.tcp" "variant" "TXT" "tcp" port))

  unfoldable pub resolver_plans : List Plan
  resolver_plans =
      (if s.dot_port == 0 then [] else add "dns.dot" "variant" "TXT" "tcp" s.dot_port)
      ++ (if not (str_eq s.zone "probe.invalid.") && has_feature s "whoami"
          then add "dns.system" "variant" "whoami" "udp" 0
          else [])

  -- "dns.doh" is wanted by itself.
  unfoldable pub doh_plans : List Plan
  doh_plans =
      if has_feature s "doh" && (length s.tests == 0 || one_of "dns.doh" s.tests)
      then add_plan g ("dns.doh" ∷ want) false "dns.doh" "variant" "TXT" "tcp" s.control_port
      else []

  unfoldable pub sni_plans : ℕ → List Plan
  sni_plans port =
      add "tls.version" "baseline" "1.3" "tcp" port
      ++ (add "tls.version" "variant" "1.2" "tcp" port
          ++ (add "tls.sni" "baseline" "benign" "tcp" port
              ++ (add "tls.sni" "variant" (text_append "trigger:" s.trigger_host) "tcp" port
                  ++ (add "tls.sni" "control" "absent" "tcp" port
                      ++ concat_map
                          (λ sni. add "tls.sni" "variant" (text_append "list:" sni) "tcp" port)
                          s.sni_list))))

  unfoldable pub tls_plans : ℕ → List Plan
  tls_plans port =
      sni_plans port
      ++ (concat_map (λ alpn. add "tls.alpn" (role_if (str_eq alpn "http/1.1")) alpn "tcp" port)
            ("http/1.1" ∷ "h2" ∷ "cp1" ∷ "none" ∷ [])
          ++ concat_map (λ fp. add "tls.fingerprint" (role_if (str_eq fp "chrome")) fp "tcp" port)
              fingerprint_plan)

  unfoldable pub packet_plans : List Plan
  packet_plans =
      concat_map (add "tcp.packets" "variant" "plain-2B" "tcp")
        (first_of (prefer_ports s.tcp_ports (80 ∷ 8080 ∷ [])))
      ++ (concat_map (add "tcp.packets" "variant" "tls-2B" "tcp") (pick s.tcp_ports 443)
          ++ concat_map (add "udp.packets" "variant" "cp1-32x32" "udp") (pick s.udp_ports 443))

  -- The plans of the first half, in their order.
  unfoldable pub port_plans : List Plan
  port_plans =
      concat_map (echo_plans "tcp") s.tcp_ports
      ++ (concat_map (add "tcp.rtt" "baseline" "x5" "tcp") (pick s.tcp_ports 443)
          ++ (concat_map (echo_plans "udp") s.udp_ports
              ++ (concat_map http_plans (prefer_ports s.tcp_ports (80 ∷ 8080 ∷ 443 ∷ []))
                  ++ (concat_map dns_plans s.dns_ports
                      ++ (resolver_plans
                          ++ (doh_plans
                              ++ (concat_map tls_plans
                                    (prefer_ports s.tcp_ports (443 ∷ 8443 ∷ 4433 ∷ []))
                                  ++ packet_plans)))))))
