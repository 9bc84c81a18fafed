-- ===== src/Wire/Ike.antt =====
-- internal/ike/ike.go: the header of an IKEv2 message, its payload chain, and ESP in UDP. Random bytes
-- are arguments.
pub mod Laws
use censor_pulse_cli.Common.{
  Bool, Bytes, Option, [], byte_at, concat, drop, false, if◌then◌else◌, leb, length, ltb, none, not,
  put_uint16, put_uint32, replicate, slice, some, take, true, uint32_at, ℕ, ◌%◌, ◌&&◌, ◌++◌, ◌+◌,
  ◌==◌, ◌||◌, ◌∷◌,
}

-- `Header`
pub record Header : Type 0 where
  pub spi_i : Bytes
  pub spi_r : Bytes
  pub next_payload : ℕ
  pub exchange : ℕ
  pub flags : ℕ
  pub message_id : ℕ
  pub total : ℕ

abbrev pub exchange_sa_init : ℕ
exchange_sa_init = 34

abbrev pub exchange_auth : ℕ
exchange_auth = 35

-- `ParseHeader`; `none` is ErrNotIKE.
unfoldable pub parse_header : Bytes → Option Header
parse_header b =
    if ltb (length b) 28 || not (byte_at b 17 == 32)
    then none
    else if not (uint32_at b 24 == length b % 4294967296)
        || (not (byte_at b 18 == exchange_sa_init) && not (byte_at b 18 == exchange_auth))
    then none
    else some (record {
      spi_i = slice b 0 8;
      spi_r = slice b 8 16;
      next_payload = byte_at b 16;
      exchange = byte_at b 18;
      flags = byte_at b 19;
      message_id = uint32_at b 20;
      total = uint32_at b 24;
    })

-- `Looks`
unfoldable pub looks : Bytes → Bool
looks b = has_header (parse_header b)
  where
    has_header : Option Header → Bool
    has_header none = false
    has_header (some h) = true

abbrev pub marker : Bytes
marker = 0 ∷ 0 ∷ 0 ∷ 0 ∷ []

-- `StripNATT`
unfoldable pub strip_natt : Bytes → Bytes × Bool
strip_natt b =
    if ltb 4 (length b)
      && byte_at b 0 == 0
      && byte_at b 1 == 0
      && byte_at b 2 == 0
      && byte_at b 3 == 0
      && looks (drop 4 b)
    then (drop 4 b, true)
    else (b, false)

-- `AddNATT`
unfoldable pub add_natt : Bytes → Bytes
add_natt b = marker ++ b

-- `IsESPUDP`
unfoldable pub is_esp_udp : Bytes → Bool
is_esp_udp b = leb 24 (length b) && not (uint32_at b 0 == 0)

-- `ESPSPI`
unfoldable pub esp_spi : Bytes → ℕ
esp_spi b = uint32_at b 0

-- `ESP`
unfoldable pub esp : ℕ → ℕ → Bytes → Bytes
esp spi seq payload = concat (put_uint32 spi ∷ put_uint32 seq ∷ payload ∷ [])

-- `ESPSPIFor`
unfoldable pub esp_spi_for : Bytes → ℕ
esp_spi_for spi_r = let spi = uint32_at spi_r 0 in if spi == 0 then 195939070 else spi

-- `transform` in `saProposal`
unfoldable pub transform : ℕ → ℕ → ℕ → ℕ → Bytes
transform more typ id key_len =
    if key_len == 0
    then concat ((more ∷ 0 ∷ 0 ∷ 8 ∷ typ ∷ 0 ∷ []) ∷ put_uint16 id ∷ [])
    else concat (
        (more ∷ 0 ∷ 0 ∷ 12 ∷ typ ∷ 0 ∷ [])
        ∷ put_uint16 id
        ∷ (128 ∷ 14 ∷ [])
        ∷ put_uint16 key_len
        ∷ [])

abbrev pub transforms : Bytes
transforms =
    concat (transform 3 1 12 256 ∷ transform 3 2 5 0 ∷ transform 3 3 12 0 ∷ transform 0 4 31 0 ∷ [])

-- `saProposal`
unfoldable pub sa_proposal : Bytes
sa_proposal =
    concat
      ((0 ∷ 0 ∷ []) ∷ put_uint16 (8 + length transforms) ∷ (1 ∷ 1 ∷ 0 ∷ 4 ∷ []) ∷ transforms ∷ [])

-- `kePayload`
unfoldable pub ke_payload : Bytes → Bytes
ke_payload key = put_uint16 31 ++ ((0 ∷ 0 ∷ []) ++ key)

-- `notify`
unfoldable pub notify : ℕ → Bytes → Bytes
notify typ data_bytes = (0 ∷ 0 ∷ []) ++ (put_uint16 typ ++ data_bytes)

-- `payloadWriter`; `none` is a negative `prev`.
pub record Writer : Type 0 where
  pub out : Bytes
  pub prev : Option ℕ

-- b[i] = v
abbrev pub set_byte : ℕ → ℕ → Bytes → Bytes
set_byte i v b = take i b ++ (v ∷ drop (i + 1) b)

-- Where the next payload's type is written.
abbrev pub link_at : Option ℕ → ℕ
link_at none = 16
link_at (some i) = i

-- `payloadWriter.add`
unfoldable pub add_payload : ℕ → Bytes → Writer → Writer
add_payload typ body w = record {
  out = concat (
      set_byte (link_at w.prev) typ w.out
      ∷ (0 ∷ 0 ∷ [])
      ∷ put_uint16 ((4 + length body) % 65536)
      ∷ body
      ∷ []);
  prev = some (length w.out);
}

-- `payloadWriter.finish`
unfoldable pub finish_message : Writer → Bytes
finish_message w = take 24 w.out ++ (put_uint32 (length w.out % 4294967296) ++ drop 28 w.out)

-- `newMessage`
unfoldable pub new_message : Bytes → Bytes → ℕ → ℕ → ℕ → Writer
new_message spi_i spi_r exchange flags message_id = record {
  out = concat (
      spi_i
      ∷ spi_r
      ∷ (0 ∷ 32 ∷ exchange ∷ flags ∷ [])
      ∷ put_uint32 message_id
      ∷ (0 ∷ 0 ∷ 0 ∷ 0 ∷ [])
      ∷ []);
  prev = none;
}

-- What the two builders of IKE_SA_INIT add to a message: the proposal, the key, the nonce and the
-- two notifications of NAT detection.
abbrev pub add_init : Bytes → Bytes → Bytes → Bytes → Writer → Writer
add_init key nonce source dest w = add_payload 41 (notify 16389 dest) (
    add_payload 41 (notify 16388 source)
      (add_payload 40 nonce (add_payload 34 (ke_payload key) (add_payload 33 sa_proposal w))))

-- `SAInit`
unfoldable pub sa_init : Bytes → Bytes → Bytes → Bytes → Bytes → Bytes → Bytes
sa_init spi_i key nonce source dest vendor = finish_message (
    add_payload 43 vendor
      (add_init key nonce source dest (new_message spi_i (replicate 8 0) exchange_sa_init 8 0)))

-- `SAInitResponse`
unfoldable pub sa_init_response : Header → Bytes → Bytes → Bytes → Bytes → Bytes → Bytes
sa_init_response req spi_r key nonce source dest =
    finish_message
      (add_init key nonce source dest (new_message req.spi_i spi_r exchange_sa_init 32 0))

-- `Auth`; `body` gives the random bytes of a length.
unfoldable pub auth : (ℕ → Bytes) → Bytes → Bytes → ℕ → ℕ → Bool → Bytes
auth body spi_i spi_r message_id inner_len response = finish_message (
    add_payload 46 (body (if ltb inner_len 32 then 32 else inner_len))
      (new_message spi_i spi_r exchange_auth (if response then 32 else 8) message_id))
