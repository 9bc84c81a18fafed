-- ===== src/Wire/L2tp.antt =====
-- internal/l2tp/l2tp.go. A random number is an argument; a 16-bit field is a number below 2^16.
pub mod Fuel
pub mod RoundTrip
use censor_pulse_cli.Common.{
  Bool, Bytes, Option, [], be_value, concat, drop, if◌then◌else◌, leb, length, ltb, none,
  put_uint16, put_uint32, slice, some, suc, take, uint16_at, zero, ℕ, ◌%◌, ◌&&◌, ◌++◌, ◌+◌, ◌/◌,
  ◌==◌, ◌||◌, ◌∷◌,
}

-- `Control`
pub record Control : Type 0 where
  pub tunnel_id : ℕ
  pub session_id : ℕ
  pub ns : ℕ
  pub nr : ℕ
  pub message_type : ℕ
  pub assigned_tunnel : ℕ
  pub assigned_session : ℕ
  pub host_name : Bytes

-- `IsControl`: the flags T, L and S, the version and the length.
unfoldable pub is_control : Bytes → Bool
is_control b =
    let f = uint16_at b 0 in
    leb 12 (length b)
    && f / 32768 % 2 == 1
    && f / 16384 % 2 == 1
    && f / 2048 % 2 == 1
    && f % 16 == 2
    && uint16_at b 2 == length b

-- `IsData`
unfoldable pub is_data : Bytes → Bool
is_data b =
    let f = uint16_at b 0 in
    leb 6 (length b)
    && f / 32768 % 2 == 0
    && f % 16 == 2
    && f / 16384 % 2 == 0
    && f / 2048 % 2 == 0
    && f / 512 % 2 == 0

-- `DataTunnel`
unfoldable pub data_tunnel : Bytes → ℕ
data_tunnel b = uint16_at b 2

-- The switch of `ParseControl` on the type of an AVP.
unfoldable pub apply_avp : Control → ℕ → Bytes → Control
apply_avp c typ val =
    if typ == 0 && length val == 2
    then record c { message_type = be_value val }
    else if typ == 9 && length val == 2
    then record c { assigned_tunnel = be_value val }
    else if typ == 14 && length val == 2
    then record c { assigned_session = be_value val }
    else if typ == 7
    then record c { host_name = val }
    else c

-- How the loop of `ParseControl` ends; it is out of turns where a bound on them cuts it off.
pub data AvpLoop : Type 0 where
  finished : Control → AvpLoop
  not_l2tp : AvpLoop
  out_of_turns : AvpLoop

-- The loop of `ParseControl`.
unfoldable pub parse_avps : ℕ → Control → Bytes → AvpLoop
parse_avps zero c p = if ltb (length p) 6 then finished c else out_of_turns
parse_avps (suc fuel) c p =
    let n = uint16_at p 0 % 1024 in
    let next = if uint16_at p 2 == 0 then apply_avp c (uint16_at p 4) (slice p 6 n) else c in
    let rest = parse_avps fuel next (drop n p) in
    if ltb (length p) 6 then finished c else if ltb n 6 || ltb (length p) n then not_l2tp else rest

-- The Control of a loop that came to its end; `none` is an error.
abbrev pub control_of : AvpLoop → Option Control
control_of (finished c) = some c
control_of not_l2tp = none
control_of out_of_turns = none

-- `ParseControl`; `none` is ErrNotL2TP, for the turns are enough.
unfoldable pub parse_control : Bytes → Option Control
parse_control b =
    if is_control b
    then control_of (
        parse_avps (length b)
          (record {
            tunnel_id = uint16_at b 4;
            session_id = uint16_at b 6;
            ns = uint16_at b 8;
            nr = uint16_at b 10;
            message_type = 0;
            assigned_tunnel = 0;
            assigned_session = 0;
            host_name = [];
          })
          (drop 12 b))
    else none

-- `newControl`
unfoldable pub new_control : ℕ → ℕ → ℕ → ℕ → Bytes
new_control tunnel session ns nr = concat (
    put_uint16 51202
    ∷ (0 ∷ 0 ∷ [])
    ∷ put_uint16 tunnel
    ∷ put_uint16 session
    ∷ put_uint16 ns
    ∷ put_uint16 nr
    ∷ [])

-- The header of an AVP and its value: 0x8000|n is 0x8000 and the lower 15 bits of n.
unfoldable pub avp_bytes : ℕ → Bytes → Bytes
avp_bytes typ val =
    put_uint16 (32768 + (6 + length val) % 32768) ++ ((0 ∷ 0 ∷ []) ++ (put_uint16 typ ++ val))

-- `builder.avp`
unfoldable pub avp : ℕ → Bytes → Bytes → Bytes
avp typ val out = out ++ avp_bytes typ val

-- `builder.u16`
unfoldable pub u16 : ℕ → ℕ → Bytes → Bytes
u16 typ v out = avp typ (put_uint16 v) out

-- `builder.u32`
unfoldable pub u32 : ℕ → ℕ → Bytes → Bytes
u32 typ v out = avp typ (put_uint32 v) out

-- `builder.finish`
unfoldable pub finish : Bytes → Bytes
finish out = take 2 out ++ (put_uint16 (length out % 65536) ++ drop 4 out)

abbrev pub censor_pulse : Bytes
censor_pulse = 67 ∷ 101 ∷ 110 ∷ 115 ∷ 111 ∷ 114 ∷ 80 ∷ 117 ∷ 108 ∷ 115 ∷ 101 ∷ []

-- `SCCRQ`
unfoldable pub sccrq : ℕ → Bytes → Bytes
sccrq assigned_tunnel host = finish (
    avp 8 censor_pulse (
      u16 10 4
        (u16 9 assigned_tunnel (u32 3 3 (avp 7 host (u16 2 256 (u16 0 1 (new_control 0 0 0 0))))))))

-- `SCCRP`
unfoldable pub sccrp : ℕ → ℕ → Bytes → Bytes
sccrp peer_tunnel assigned_tunnel host = finish (
    u16 9 assigned_tunnel
      (avp 7 host (u32 3 3 (u16 2 256 (u16 0 2 (new_control peer_tunnel 0 0 1))))))

-- `SCCCN`
unfoldable pub scccn : ℕ → Bytes
scccn peer_tunnel = finish (u16 0 3 (new_control peer_tunnel 0 1 1))

-- `ICRQ`
unfoldable pub icrq : ℕ → ℕ → ℕ → ℕ → ℕ → Bytes
icrq serial peer_tunnel assigned_session ns nr =
    finish (u32 15 serial (u16 14 assigned_session (u16 0 10 (new_control peer_tunnel 0 ns nr))))

-- `ICRP`
unfoldable pub icrp : ℕ → ℕ → ℕ → ℕ → ℕ → Bytes
icrp peer_tunnel peer_session assigned_session ns nr =
    finish (u16 14 assigned_session (u16 0 11 (new_control peer_tunnel peer_session ns nr)))

-- `ICCN`
unfoldable pub iccn : ℕ → ℕ → ℕ → ℕ → Bytes
iccn peer_tunnel peer_session ns nr =
    finish (u32 19 1 (u32 24 100000000 (u16 0 12 (new_control peer_tunnel peer_session ns nr))))

-- `ZLB`
unfoldable pub zlb : ℕ → ℕ → ℕ → ℕ → Bytes
zlb peer_tunnel peer_session ns nr = finish (new_control peer_tunnel peer_session ns nr)

-- `Data`
unfoldable pub data_message : ℕ → ℕ → Bytes → Bytes
data_message peer_tunnel peer_session ppp =
    concat (put_uint16 2 ∷ put_uint16 peer_tunnel ∷ put_uint16 peer_session ∷ ppp ∷ [])

-- `DataPayload`
unfoldable pub data_payload : Bytes → Bytes
data_payload b = drop 6 b

-- `PPPLCPConfigureRequest`
unfoldable pub ppp_lcp_configure_request : Bytes → ℕ → Bytes
ppp_lcp_configure_request magic id =
    (255 ∷ 3 ∷ 192 ∷ 33 ∷ 1 ∷ id ∷ 0 ∷ 14 ∷ 1 ∷ 4 ∷ 5 ∷ 220 ∷ 5 ∷ 6 ∷ []) ++ magic

-- `PPPIP`
unfoldable pub ppp_ip : Bytes → Bytes
ppp_ip payload = (255 ∷ 3 ∷ 0 ∷ 33 ∷ []) ++ payload
