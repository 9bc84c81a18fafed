-- ===== src/Client/Plan/Catalog.antt =====
-- internal/client/plan.go and tests_dest.go: `Catalog`, `destPlans` and `destWanted`.
use Prim.Native.String.{◌++◌ as text_append}
use censor_pulse_cli.Common.{
  List, String, [], concat_map, false, filter, if◌then◌else◌, length, not, str_eq, ℕ, ◌++◌, ◌==◌,
  ◌||◌, ◌∷◌,
}
use censor_pulse_cli.Client.Merge.{Runtime, one_of}
use censor_pulse_cli.Client.Merge.Table.{is_dest_test}
use censor_pulse_cli.Client.Plan.{Plan, Scan, Target, wanted}
use censor_pulse_cli.Client.Plan.Ports.{port_plans, role_if}
use censor_pulse_cli.Client.Plan.Shapes.{shape_plans}
use censor_pulse_cli.Client.Plan.Quick.{quick_filter}

-- `DestTests`
abbrev pub dest_tests : List String
dest_tests =
    "dest.dns" ∷ "dest.nxdomain" ∷ "dest.tcp" ∷ "dest.tls" ∷ "dest.proto" ∷ "dest.http" ∷ []

-- `DestPort`
abbrev pub dest_port : ℕ
dest_port = 443

-- `add` of destPlans.
unfoldable pub add_dest : List String → String → String → String → String → String → ℕ → List Plan
add_dest want group test role variant transport port =
    if one_of test want
    then record {
      test_id = test;
      group = group;
      role = role;
      variant = variant;
      transport = transport;
      port = port;
      last = false;
      serial = "";
    }
      ∷ []
    else []

-- The plans of the handshakes of a target that is reached over TLS.
unfoldable pub handshake_plans : List String → Target → List Plan
handshake_plans want t =
    let add_here = add_dest want (text_append "dest/" t.domain) in
    let role = role_if (str_eq t.category "control") in
    add_here "dest.tls" role t.domain "tcp" dest_port
    ++ (add_here "dest.tls" "control" (text_append "decoy:" t.domain) "tcp" dest_port
        ++ (add_here "dest.tls" "control" (text_append "absent:" t.domain) "tcp" dest_port
            ++ (if t.http_check then add_here "dest.http" role t.domain "tcp" dest_port else [])))

unfoldable pub target_plans : List String → Target → List Plan
target_plans want t =
    let add_here = add_dest want (text_append "dest/" t.domain) in
    let role = role_if (str_eq t.category "control") in
    (if t.skip_dns then [] else add_here "dest.dns" role t.domain "udp" 53)
    ++ (add_here "dest.tcp" role t.domain "tcp" dest_port
        ++ (if not (str_eq t.proto "")
            then add_here "dest.proto" role t.domain "tcp" dest_port
            else if t.skip_tls
            then []
            else handshake_plans want t))

-- `destPlans`
unfoldable pub dest_plans : List String → List Target → List Plan
dest_plans want targets =
    add_dest want "dest/control" "dest.nxdomain" "control" "invalid" "udp" 53
    ++ (add_dest want "dest/control" "dest.tcp" "control" "anycast" "tcp" dest_port
        ++ concat_map (target_plans want) targets)

module _ (g : Runtime) where
  -- `destWanted`
  unfoldable pub dest_wanted : Scan → List String
  dest_wanted s =
      if not (length s.tests == 0)
      then filter (is_dest_test g) s.tests
      else if s.is_sites || s.is_standalone
      then dest_tests
      else []

  -- The plans that need the server.
  unfoldable pub probe_plans : Scan → List Plan
  probe_plans s = port_plans g s (wanted s) ++ shape_plans g s (wanted s)

  -- `Catalog`
  unfoldable pub catalog : Scan → List Plan
  catalog s =
      (if str_eq s.profile "quick" then quick_filter g (probe_plans s) else probe_plans s)
      ++ dest_plans (dest_wanted s) s.targets
