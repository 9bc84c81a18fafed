-- ===== src/Wire/Vless.antt =====
-- internal/vless/vless.go. Strings are lists of bytes; the random UUID is an argument.
pub mod RoundTrip
use censor_pulse_cli.Common.{
  Bool, Bytes, Option, [], byte_at, concat, false, if◌then◌else◌, length, ltb, none, not,
  put_uint16, slice, some, true, uint16_at, ℕ, ◌%◌, ◌+◌, ◌==◌, ◌||◌, ◌∷◌,
}

abbrev pub version : ℕ
version = 0

abbrev pub cmd_tcp : ℕ
cmd_tcp = 1

abbrev pub cmd_mux : ℕ
cmd_mux = 3

abbrev pub atyp_ipv4 : ℕ
atyp_ipv4 = 1

abbrev pub atyp_domain : ℕ
atyp_domain = 2

abbrev pub atyp_ipv6 : ℕ
atyp_ipv6 = 3

-- `Request`
unfoldable pub request : Bytes → Bytes → ℕ → Bytes
request uuid host port = concat (
    (version ∷ [])
    ∷ uuid
    ∷ (0 ∷ cmd_tcp ∷ [])
    ∷ put_uint16 port
    ∷ (atyp_domain ∷ length host % 256 ∷ [])
    ∷ host
    ∷ [])

-- `Parsed`
pub record Parsed : Type 0 where
  pub cmd : ℕ
  pub host : Bytes
  pub port : ℕ
  pub len : ℕ

abbrev pub ip_host : Bytes
ip_host = b'i' ∷ b'p' ∷ []

-- The switch of `Parse` on the address type: the host and where the header ends, for an address
-- at i.
unfoldable pub parse_address : Bytes → ℕ → ℕ → Option (Bytes × ℕ)
parse_address b atyp i =
    if atyp == atyp_ipv4
    then if ltb (length b) (i + 4) then none else some (ip_host, i + 4)
    else if atyp == atyp_ipv6
    then if ltb (length b) (i + 16) then none else some (ip_host, i + 16)
    else if atyp == atyp_domain
    then if ltb (length b) (i + 1) || ltb (length b) (i + 1 + byte_at b i)
      then none
      else some (slice b (i + 1) (i + 1 + byte_at b i), i + 1 + byte_at b i)
    else none

abbrev pub map_option : {A B : Type 0} → (A → B) → Option A → Option B
map_option f none = none
map_option f (some x) = some (f x)

-- `Parse` from i, where the addons end.
unfoldable pub parse_command : Bytes → ℕ → Option Parsed
parse_command b i =
    if ltb (length b) (i + 1 + 2 + 1) || ltb (byte_at b i) cmd_tcp || ltb cmd_mux (byte_at b i)
    then none
    else map_option
        (λ (a : Bytes × ℕ). record {
          cmd = byte_at b i;
          host = a.0;
          port = uint16_at b (i + 1);
          len = a.1;
        })
        (parse_address b (byte_at b (i + 3)) (i + 4))

-- `Parse`; `none` is ErrNotVLESS.
unfoldable pub parse : Bytes → Option Parsed
parse b =
    if ltb (length b) 22 || not (byte_at b 0 == version)
    then none
    else parse_command b (18 + byte_at b 17)

abbrev pub has_result : Option Parsed → Bool
has_result none = false
has_result (some p) = true

-- `IsRequest`
unfoldable pub is_request : Bytes → Bool
is_request b = has_result (parse b)

-- `Response`
unfoldable pub response : Bytes
response = version ∷ 0 ∷ []
