-- ===== src/Proto/Request/Framing.antt =====
-- internal/proto/envelope.go: what `RequestLen` and the field offsets see of an encoded request.
use censor_pulse_cli.Common.{
  Bytes, List, Option, [], ap, arith, be_value, be_value-put_uint16, be_value-put_uint32, bit_and,
  byte_at, byte_at-concat, concat, if◌then◌else◌, length, none, not, refl, slice, slice-concat,
  some, take, take-concat, true, uint16_at, uint32_at, ℕ, ◌%◌, ◌++◌, ◌+◌, ◌<◌, ◌==◌, ◌^◌, ◌∙◌, ◌∷◌,
  ◌≡◌, ◌≤◌,
}
use censor_pulse_cli.Proto.Request.{
  Request, request_pieces, cookie_bytes, cookie_flag, has_cookie, is_envelope, length_offset,
}

-- What the types of the fields and the checks of `EncodeRequest` guarantee.
pub record IsValid (r : Request) : Type 0 where
  pub session_id_16 : length r.session_id ≡ 16
  pub nonce_12 : length r.nonce ≡ 12
  pub test_id_pos : 0 < length r.test_id
  pub test_id_byte : length r.test_id < 256
  pub payload_bound : length r.payload ≤ 8192
  pub seq_32 : r.seq < 2 ^ 32

abbrev pub IsCookie : Option Bytes → Type 0
IsCookie none = Unit {0}
IsCookie (some c) = length c ≡ 16

flag_width :
    (c : Option Bytes)
    → IsCookie c
    → (flags tl : ℕ) → flags ≡ cookie_flag c
    → (if not (bit_and flags 1 == 0) then 23 + tl + 12 + 4 + 16 else 23 + tl + 12 + 4)
      ≡ 23 + tl + 16 + length (cookie_bytes c)
flag_width none k flags tl e = rw e (omega arith)
flag_width (some c) k flags tl e = rw e (omega arith)

choose_cookie :
    (c : Option Bytes)
    → IsCookie c
    → (flags : ℕ) (t : Bytes) → flags ≡ cookie_flag c
    → (length (cookie_bytes c) ≡ 16 → t ≡ cookie_bytes c)
    → (if not (bit_and flags 1 == 0) then some t else none) ≡ c
choose_cookie none k flags t e h = rw e refl
choose_cookie (some c) k flags t e h = rw e (ap some (h k))

-- The encoded pieces, a MAC and whatever follows.
abbrev pub segments : Request → Bytes → Bytes → List Bytes
segments r m rest = request_pieces r ++ (m ∷ rest ∷ [])

module _ (r : Request) (m rest : Bytes) (v : IsValid r) (c : IsCookie r.cookie) where
  abbrev b : Bytes
  b = concat (segments r m rest)

  pub byte_flags : byte_at b 5 ≡ cookie_flag r.cookie
  unfolding request_pieces
  byte_flags = byte_at-concat 1 (segments r m rest) 5 2 (omega arith) (omega arith)

  pub byte_kind : byte_at b 4 ≡ 1
  unfolding request_pieces
  byte_kind = byte_at-concat 1 (segments r m rest) 4 1 (omega arith) (omega arith)

  pub byte_test_id : byte_at b 22 ≡ length r.test_id
  unfolding request_pieces
  byte_test_id =
      byte_at-concat 3 (segments r m rest) 22 0 (omega (arith, v.session_id_16)) (omega arith)
      ∙ omega (arith, v.test_id_byte)

  pub envelope_shape : is_envelope b ≡ true
  unfolding request_pieces is_envelope
  envelope_shape = ground arith

  pub length_offset-request :
      length_offset b ≡ 23 + length r.test_id + 16 + length (cookie_bytes r.cookie)
  length_offset-request =
      flag_width r.cookie c (byte_at b 5) (byte_at b 22) byte_flags ∙ omega (arith, byte_test_id)

  pub payload_length : uint16_at b (length_offset b) ≡ length r.payload
  unfolding request_pieces
  payload_length =
      ap be_value (
        slice-concat 8 (segments r m rest) (length_offset b) (length_offset b + 2)
          (omega (arith, length_offset-request, v.session_id_16, v.nonce_12)) (omega arith))
      ∙ be_value-put_uint16 (length r.payload % 65536) (omega arith)
      ∙ omega (arith, v.payload_bound)

  pub read_session_id : slice b 6 22 ≡ r.session_id
  unfolding request_pieces
  read_session_id =
      slice-concat 2 (segments r m rest) 6 22 (omega arith) (omega (arith, v.session_id_16))

  pub read_test_id : slice b 23 (23 + byte_at b 22) ≡ r.test_id
  unfolding request_pieces
  read_test_id =
      slice-concat 4 (segments r m rest) 23 (23 + byte_at b 22) (omega (arith, v.session_id_16))
        (omega (arith, byte_test_id))

  pub read_nonce : slice b (23 + byte_at b 22) (23 + byte_at b 22 + 12) ≡ r.nonce
  unfolding request_pieces
  read_nonce =
      slice-concat 5 (segments r m rest) (23 + byte_at b 22) (23 + byte_at b 22 + 12)
        (omega (arith, v.session_id_16, byte_test_id)) (omega (arith, v.nonce_12))

  pub read_seq : uint32_at b (23 + byte_at b 22 + 12) ≡ r.seq
  unfolding request_pieces
  read_seq =
      ap be_value (
        slice-concat 6 (segments r m rest) (23 + byte_at b 22 + 12) (23 + byte_at b 22 + 12 + 4)
          (omega (arith, v.session_id_16, v.nonce_12, byte_test_id)) (omega arith))
      ∙ be_value-put_uint32 r.seq v.seq_32

  read_cookie_bytes :
      length (cookie_bytes r.cookie) ≡ 16
      → slice b (23 + byte_at b 22 + 12 + 4) (23 + byte_at b 22 + 12 + 4 + 16)
        ≡ cookie_bytes r.cookie
  unfolding request_pieces
  read_cookie_bytes h =
      slice-concat 7 (segments r m rest) (23 + byte_at b 22 + 12 + 4)
        (23 + byte_at b 22 + 12 + 4 + 16) (omega (arith, v.session_id_16, v.nonce_12, byte_test_id))
        (omega arith)

  pub read_cookie :
      (if has_cookie b
        then some (slice b (23 + byte_at b 22 + 12 + 4) (23 + byte_at b 22 + 12 + 4 + 16))
        else none)
      ≡ r.cookie
  read_cookie = choose_cookie r.cookie c (byte_at b 5) _ byte_flags read_cookie_bytes

  pub read_payload :
      slice b (length_offset b + 2) (length_offset b + 2 + uint16_at b (length_offset b))
      ≡ r.payload
  unfolding request_pieces
  read_payload =
      slice-concat 9 (segments r m rest) (length_offset b + 2)
        (length_offset b + 2 + uint16_at b (length_offset b))
        (omega (arith, length_offset-request, v.session_id_16, v.nonce_12))
        (omega (arith, payload_length))

  abbrev body_end : ℕ
  body_end = length_offset b + 2 + uint16_at b (length_offset b)

  pub read_mac : length m ≡ 16 → slice b body_end (body_end + 16) ≡ m
  unfolding request_pieces
  read_mac h =
      slice-concat 10 (segments r m rest) body_end (body_end + 16)
        (omega (arith, length_offset-request, payload_length, v.session_id_16, v.nonce_12))
        (omega arith)

  pub read_body : take body_end b ≡ concat (request_pieces r)
  unfolding request_pieces
  read_body =
      take-concat 10 (segments r m rest) body_end
        (omega (arith, length_offset-request, payload_length, v.session_id_16, v.nonce_12))
