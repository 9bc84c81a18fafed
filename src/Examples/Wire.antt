-- ===== src/Examples/Wire.antt =====
-- internal/socks5/socks5.go and internal/vless/vless.go at concrete inputs.
use censor_pulse_cli.Common.{
  Bytes, [], arith, length, none, put_uint16, refl, replicate, some, take, true, ◌++◌, ◌∷◌, ◌≡◌,
}
use censor_pulse_cli.Wire.Socks5.{
  greeting, address_len, cmd_connect, connect, greeting_methods, is_greeting, parse_request,
  read_address,
}
use censor_pulse_cli.Wire.Socks5.RoundTrip.{
  greeting_methods-greeting, parse_request-connect, parse_request-take,
}
use censor_pulse_cli.Wire.L2tp.{
  parse_control, avp, avp_bytes, finish, new_control, Control, parse_avps, apply_avp, finished,
  not_l2tp,
}
use censor_pulse_cli.Wire.L2tp.Fuel.{parse_avps_enough, has_ended}
use censor_pulse_cli.Wire.Ike.{looks, parse_header}
use censor_pulse_cli.Wire.L2tp.RoundTrip.{parse_control-finish, add_avps, apply_avps}
use censor_pulse_cli.Wire.Vless.{request, parse, cmd_tcp}
use censor_pulse_cli.Wire.Vless.RoundTrip.{parse-request}

abbrev site : Bytes
site = b'a' ∷ b'.' ∷ b'b' ∷ []

greeting_methods-greeting_example :
    (is_greeting (greeting (0 ∷ 2 ∷ []) ++ (9 ∷ [])) ≡ true)
    × (greeting_methods (greeting (0 ∷ 2 ∷ []) ++ (9 ∷ [])) ≡ 0 ∷ 2 ∷ [])
greeting_methods-greeting_example =
    greeting_methods-greeting (0 ∷ 2 ∷ []) (9 ∷ []) (omega arith) (omega arith)

parse_request-connect_example :
    parse_request (connect site 443 ++ (9 ∷ []))
    ≡ some (record { cmd = cmd_connect; host = site; port = 443; len = length (connect site 443) })
parse_request-connect_example = parse_request-connect site (9 ∷ []) 443 (omega arith) (omega arith)

connect_len : length (connect site 443) ≡ 10
unfolding connect
connect_len = refl

parse_request-take_example : parse_request (take 8 (connect site 443)) ≡ none
parse_request-take_example =
    parse_request-take site 443 8 (omega arith) (omega arith) (rw connect_len (omega arith))

abbrev ipv4_request : Bytes
ipv4_request = 5 ∷ 1 ∷ 0 ∷ 1 ∷ 10 ∷ 0 ∷ 0 ∷ 1 ∷ 0 ∷ 80 ∷ 9 ∷ []

ipv4_parsed :
    parse_request ipv4_request
    ≡ some (record { cmd = 1; host = b'i' ∷ b'p' ∷ []; port = 80; len = 10 })
unfolding parse_request address_len read_address
ipv4_parsed = refl

parse-request_example :
    parse (request (replicate 16 3) site 443 ++ (22 ∷ []))
    ≡ some (record {
      cmd = cmd_tcp;
      host = site;
      port = 443;
      len = length (request (replicate 16 3) site 443);
    })
parse-request_example =
    parse-request (replicate 16 3) site (22 ∷ []) 443 refl (omega arith) (omega arith)

parse_control-finish_example :
    parse_control
      (finish (add_avps (new_control 5 6 1 2) ((0, put_uint16 10) ∷ (14, put_uint16 77) ∷ [])))
    ≡ some (
        apply_avps
          (record {
            tunnel_id = 5;
            session_id = 6;
            ns = 1;
            nr = 2;
            message_type = 0;
            assigned_tunnel = 0;
            assigned_session = 0;
            host_name = [];
          })
          ((0, put_uint16 10) ∷ (14, put_uint16 77) ∷ []))
unfolding finish avp new_control avp_bytes
parse_control-finish_example =
    parse_control-finish 5 6 1 2 ((0, put_uint16 10) ∷ (14, put_uint16 77) ∷ []) (omega arith)
      (omega arith) (omega arith) (omega arith) (ground arith) (omega arith)

abbrev silent_control : Control
silent_control = record {
  tunnel_id = 0;
  session_id = 0;
  ns = 0;
  nr = 0;
  message_type = 0;
  assigned_tunnel = 0;
  assigned_session = 0;
  host_name = [];
}

-- Two AVPs, the first one vendor-specific, and a byte that is left over.
abbrev two_avps : Bytes
two_avps = 128 ∷ 6 ∷ 0 ∷ 9 ∷ 0 ∷ 0 ∷ 128 ∷ 8 ∷ 0 ∷ 0 ∷ 0 ∷ 9 ∷ 1 ∷ 4 ∷ 7 ∷ []

two_avps-parsed :
    parse_avps 20 silent_control two_avps
    ≡ finished (record silent_control { assigned_tunnel = 260 })
unfolding parse_avps apply_avp
two_avps-parsed = refl

-- An AVP of length zero ends the loop.
empty_avp-parsed : parse_avps 20 silent_control (128 ∷ 0 ∷ 0 ∷ 9 ∷ 0 ∷ 0 ∷ []) ≡ not_l2tp
unfolding parse_avps
empty_avp-parsed = refl

parse_avps_enough_example :
    (has_ended (parse_avps 20 silent_control two_avps) ≡ true)
    × (parse_avps 20 silent_control two_avps ≡ parse_avps 15 silent_control two_avps)
parse_avps_enough_example =
    parse_avps_enough 20 15 silent_control two_avps (omega arith) (omega arith)

abbrev ike_message : Bytes
ike_message = replicate 17 1 ++ (32 ∷ 34 ∷ 8 ∷ 0 ∷ 0 ∷ 0 ∷ 0 ∷ 0 ∷ 0 ∷ 0 ∷ 28 ∷ [])

ike_looks : looks ike_message ≡ true
unfolding looks parse_header
ike_looks = refl
