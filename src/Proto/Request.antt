-- ===== src/Proto/Request.antt =====
-- internal/proto/envelope.go, requests. A string, an array and a slice are lists of bytes. The
-- session key lookup is an argument; `none` is its nil.
pub mod Framing
pub mod Streaming
pub mod RoundTrip
pub mod Decoding
pub mod Partial
use censor_pulse_cli.Common.{
  ℕ, ◌+◌, ◌%◌, Bool, false, not, ◌&&◌, ◌||◌, Option, none, some, List, [], ◌∷◌, ◌++◌, bit_and, ltb,
  leb, ◌==◌, if◌then◌else◌, Bytes, length, take, replicate, bytes_eq, byte_at, slice, uint16_at,
  uint32_at, put_uint16, put_uint32, concat, Result, ok, err,
}
use censor_pulse_cli.Proto.Hashes.{Hashes, mac, mac_len}

abbrev pub magic : Bytes
magic = 67 ∷ 80 ∷ 49 ∷ []

abbrev pub version : ℕ
version = 1

abbrev pub kind_request : ℕ
kind_request = 1

abbrev pub session_id_len : ℕ
session_id_len = 16

abbrev pub nonce_len : ℕ
nonce_len = 12

abbrev pub cookie_len : ℕ
cookie_len = 16

abbrev pub max_payload : ℕ
max_payload = 8192

-- `Request`
pub record Request : Type 0 where
  pub session_id : Bytes
  pub test_id : Bytes
  pub nonce : Bytes
  pub seq : ℕ
  pub cookie : Option Bytes
  pub payload : Bytes
  pub raw : Bytes

pub data EncodeError : Type 0 where
  bad_test_id_length payload_too_large bad_cookie_length : ℕ → EncodeError

-- What a decoder returns: the value, the value with ErrBadMAC, or nil with an error.
pub data Decoded (A : Type 0) : Type 0 where
  decoded : A → Decoded A
  bad_mac : A → Decoded A
  not_envelope : Decoded A
  truncated : Decoded A

abbrev pub cookie_flag : Option Bytes → ℕ
cookie_flag none = 0
cookie_flag (some c) = 1

abbrev pub cookie_bytes : Option Bytes → Bytes
cookie_bytes none = []
cookie_bytes (some c) = c

abbrev pub bad_cookie : Option Bytes → Bool
bad_cookie none = false
bad_cookie (some c) = not (length c == cookie_len)

-- The pieces that `EncodeRequest` appends before the MAC.
unfoldable pub request_pieces : Request → List Bytes
request_pieces r =
    magic
    ∷ (version ∷ kind_request ∷ cookie_flag r.cookie ∷ [])
    ∷ r.session_id
    ∷ (length r.test_id % 256 ∷ [])
    ∷ r.test_id
    ∷ r.nonce
    ∷ put_uint32 r.seq
    ∷ cookie_bytes r.cookie
    ∷ put_uint16 (length r.payload % 65536)
    ∷ r.payload
    ∷ []

-- `EncodeRequest`
unfoldable pub encode_request : Hashes → Request → Bytes → Result EncodeError Bytes
encode_request h r key =
    if length r.test_id == 0 || ltb 255 (length r.test_id)
    then err (bad_test_id_length (length r.test_id))
    else if ltb max_payload (length r.payload)
    then err (payload_too_large (length r.payload))
    else if bad_cookie r.cookie
    then err (bad_cookie_length (length (cookie_bytes r.cookie)))
    else let buf = concat (request_pieces r) in ok (buf ++ mac h key buf)

-- `IsEnvelope`
unfoldable pub is_envelope : Bytes → Bool
is_envelope b = leb 6 (length b) && bytes_eq (take 3 b) magic && byte_at b 3 == version

abbrev pub has_cookie : Bytes → Bool
has_cookie b = not (bit_and (byte_at b 5) 1 == 0)

-- Where the payload length stands.
abbrev pub length_offset : Bytes → ℕ
length_offset b =
    if has_cookie b
    then 23 + byte_at b 22 + nonce_len + 4 + cookie_len
    else 23 + byte_at b 22 + nonce_len + 4

-- `RequestLen`: (total, need).
unfoldable pub request_len : Bytes → ℕ × ℕ
request_len b =
    if ltb (length b) 23
    then (0, 23)
    else let off = length_offset b in
      if ltb (length b) (off + 2)
      then (0, off + 2)
      else let total = off + 2 + uint16_at b off + mac_len in
        if ltb (length b) total then (0, total) else (total, total)

-- What `DecodeRequest` reads from an envelope of the right length, and where the MAC stands.
unfoldable pub read_request : Bytes → Request × ℕ
read_request b =
    let tl = byte_at b 22 in
    let off = length_offset b in
    let pl = uint16_at b off in
    (
      record {
        session_id = slice b 6 22;
        test_id = slice b 23 (23 + tl);
        nonce = slice b (23 + tl) (23 + tl + nonce_len);
        seq = uint32_at b (23 + tl + nonce_len);
        cookie =
            if has_cookie b
            then some (slice b (23 + tl + nonce_len + 4) (23 + tl + nonce_len + 4 + cookie_len))
            else none;
        payload = slice b (off + 2) (off + 2 + pl);
        raw = b;
      },
      off + 2 + pl,
    )

-- The MAC check at the end of `DecodeRequest`.
unfoldable pub check_mac : Hashes → Option Bytes → Bytes → ℕ → Bool
check_mac h none b off = false
check_mac h (some key) b off = bytes_eq (slice b off (off + mac_len)) (mac h key (take off b))

unfoldable pub decode_body : Hashes → (Bytes → Option Bytes) → Bytes → Decoded Request
decode_body h key_for b =
    let (r, off) = read_request b in
    if check_mac h (key_for r.session_id) b off then decoded r else bad_mac r

-- `DecodeRequest`
unfoldable pub decode_request : Hashes → (Bytes → Option Bytes) → Bytes → Decoded Request
decode_request h key_for b =
    if not (is_envelope b) || not (byte_at b 4 == kind_request)
    then not_envelope
    else let total = (request_len b).0 in
      if total == 0 then truncated else decode_body h key_for (take total b)

-- What `PeekRequest` returns: session id, test id and nonce, zero where they are not there yet, and
-- how many of the three are there.
pub record Peeked : Type 0 where
  pub session_id : Bytes
  pub test_id : Bytes
  pub nonce : Bytes
  pub have : ℕ

-- `PeekRequest`
unfoldable pub peek_request : Bytes → Peeked
peek_request b =
    let tl = byte_at b 22 in
    let no_nonce = replicate nonce_len 0 in
    let sid = slice b 6 22 in
    let test_id = slice b 23 (23 + tl) in
    if not (is_envelope b) || not (byte_at b 4 == kind_request) || ltb (length b) 22
    then record {
      session_id = replicate session_id_len 0;
      test_id = [];
      nonce = no_nonce;
      have = 0;
    }
    else if ltb (length b) 23
    then record { session_id = sid; test_id = []; nonce = no_nonce; have = 1 }
    else if ltb (length b) (23 + tl)
    then record { session_id = sid; test_id = []; nonce = no_nonce; have = 1 }
    else if ltb (length b) (23 + tl + nonce_len)
    then record { session_id = sid; test_id = test_id; nonce = no_nonce; have = 2 }
    else record {
      session_id = sid;
      test_id = test_id;
      nonce = slice b (23 + tl) (23 + tl + nonce_len);
      have = 3;
    }
