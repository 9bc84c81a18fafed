-- ===== src/Wire/Socks5.antt =====
-- internal/socks5/socks5.go. Strings are lists of bytes.
pub mod RoundTrip
use censor_pulse_cli.Common.{
  Bool, Bytes, Option, [], byte_at, concat, if◌then◌else◌, leb, length, ltb, none, not, put_uint16,
  slice, some, uint16_at, ℕ, ◌%◌, ◌&&◌, ◌+◌, ◌==◌, ◌||◌, ◌∷◌,
}

abbrev pub version : ℕ
version = 5

abbrev pub cmd_connect : ℕ
cmd_connect = 1

abbrev pub atyp_ipv4 : ℕ
atyp_ipv4 = 1

abbrev pub atyp_domain : ℕ
atyp_domain = 3

abbrev pub atyp_ipv6 : ℕ
atyp_ipv6 = 4

-- `IsGreeting`
unfoldable pub is_greeting : Bytes → Bool
is_greeting b =
    leb 3 (length b)
    && byte_at b 0 == version
    && leb 1 (byte_at b 1)
    && leb (byte_at b 1) 4
    && leb (2 + byte_at b 1) (length b)

-- `Greeting`
unfoldable pub greeting : Bytes → Bytes
greeting methods = version ∷ length methods % 256 ∷ methods

-- `GreetingMethods`
unfoldable pub greeting_methods : Bytes → Bytes
greeting_methods b = slice b 2 (2 + byte_at b 1)

-- `MethodReply`
unfoldable pub method_reply : ℕ → Bytes
method_reply m = version ∷ m ∷ []

-- `UserPass`
unfoldable pub user_pass : Bytes → Bytes → Bytes
user_pass user pass =
    concat ((1 ∷ length user % 256 ∷ []) ∷ user ∷ (length pass % 256 ∷ []) ∷ pass ∷ [])

-- `ParseUserPass`; `none` is ErrNotSOCKS.
unfoldable pub parse_user_pass : Bytes → Option (Bytes × Bytes)
parse_user_pass b =
    let ul = byte_at b 1 in
    let pl = byte_at b (2 + ul) in
    if ltb (length b) 3 || not (byte_at b 0 == 1)
    then none
    else if ltb (length b) (3 + ul)
    then none
    else if ltb (length b) (3 + ul + pl)
    then none
    else some (slice b 2 (2 + ul), slice b (3 + ul) (3 + ul + pl))

-- `UserPassReply`
unfoldable pub user_pass_reply : ℕ → Bytes
user_pass_reply status = 1 ∷ status ∷ []

-- `Connect`
unfoldable pub connect : Bytes → ℕ → Bytes
connect host port = concat (
    (version ∷ cmd_connect ∷ 0 ∷ atyp_domain ∷ length host % 256 ∷ [])
    ∷ host
    ∷ put_uint16 port
    ∷ [])

-- `Request`
pub record Request : Type 0 where
  pub cmd : ℕ
  pub host : Bytes
  pub port : ℕ
  pub len : ℕ

-- The length of the address, by its type: the switch of `ParseRequest`.
unfoldable pub address_len : Bytes → Option ℕ
address_len b =
    if byte_at b 3 == atyp_ipv4
    then some 4
    else if byte_at b 3 == atyp_ipv6
    then some 16
    else if byte_at b 3 == atyp_domain
    then some (1 + byte_at b 4)
    else none

abbrev pub ip_host : Bytes
ip_host = b'i' ∷ b'p' ∷ []

-- `ParseRequest` behind the switch, for an address of n bytes.
unfoldable pub read_address : Bytes → Option ℕ → Option Request
read_address b none = none
read_address b (some n) =
    if ltb (length b) (4 + n + 2)
    then none
    else some (record {
      cmd = byte_at b 1;
      host = if byte_at b 3 == atyp_domain then slice b 5 (5 + byte_at b 4) else ip_host;
      port = uint16_at b (4 + n);
      len = 4 + n + 2;
    })

-- `ParseRequest`; `none` is ErrNotSOCKS.
unfoldable pub parse_request : Bytes → Option Request
parse_request b =
    if ltb (length b) 7 || not (byte_at b 0 == version) || not (byte_at b 2 == 0)
    then none
    else read_address b (address_len b)

-- `Reply`
unfoldable pub reply : ℕ → Bytes
reply rep = version ∷ rep ∷ 0 ∷ atyp_ipv4 ∷ 0 ∷ 0 ∷ 0 ∷ 0 ∷ 0 ∷ 0 ∷ []

-- `IsReply`
unfoldable pub is_reply : Bytes → Bool
is_reply b =
    leb 10 (length b) && byte_at b 0 == version && byte_at b 2 == 0 && byte_at b 3 == atyp_ipv4
