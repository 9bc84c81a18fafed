-- ===== src/Proto/Reply.antt =====
-- internal/proto/envelope.go, replies. A time is its UnixNano as a 64-bit pattern, which is how it
-- stands on the wire.
pub mod RoundTrip
use censor_pulse_cli.Common.{
  Bytes, List, [], byte_at, bytes_eq, concat, if◌then◌else◌, length, ltb, not, put_uint16,
  put_uint32, put_uint64, slice, take, uint16_at, uint32_at, uint64_at, ℕ, ◌%◌, ◌++◌, ◌+◌, ◌==◌,
  ◌||◌, ◌∷◌,
}
use censor_pulse_cli.Proto.Hashes.{Hashes, mac, mac_len}
use censor_pulse_cli.Proto.Request.{
  Request, Decoded, decoded, bad_mac, not_envelope, truncated, magic, version, nonce_len,
  is_envelope,
}

abbrev pub kind_reply : ℕ
kind_reply = 2

-- `Reply`
pub record Reply : Type 0 where
  pub session_id : Bytes
  pub test_id : Bytes
  pub nonce : Bytes
  pub seq : ℕ
  pub recv_len : ℕ
  pub payload_sha256 : Bytes
  pub seen_at : ℕ
  pub replied_at : ℕ

-- The pieces that `EncodeReply` appends before the MAC.
unfoldable pub reply_pieces : Hashes → Request → ℕ → ℕ → List Bytes
reply_pieces h r seen_at replied_at =
    magic
    ∷ (version ∷ kind_reply ∷ 0 ∷ [])
    ∷ r.session_id
    ∷ (length r.test_id % 256 ∷ [])
    ∷ r.test_id
    ∷ r.nonce
    ∷ put_uint32 r.seq
    ∷ put_uint16 (length r.payload % 65536)
    ∷ h.sha256 r.payload
    ∷ put_uint64 seen_at
    ∷ put_uint64 replied_at
    ∷ []

-- `EncodeReply`
unfoldable pub encode_reply : Hashes → Request → ℕ → ℕ → Bytes → Bytes
encode_reply h r seen_at replied_at key =
    let buf = concat (reply_pieces h r seen_at replied_at) in buf ++ mac h key buf

-- `ReplyLen`: (total, need).
unfoldable pub reply_len : Bytes → ℕ × ℕ
reply_len b =
    if ltb (length b) 23
    then (0, 23)
    else let total = 23 + byte_at b 22 + nonce_len + 4 + 2 + 32 + 8 + 8 + mac_len in
      if ltb (length b) total then (0, total) else (total, total)

-- What `DecodeReply` reads from a reply of the right length, and where the MAC stands.
unfoldable pub read_reply : Bytes → Reply × ℕ
read_reply b =
    let off = 23 + byte_at b 22 in
    (
      record {
        session_id = slice b 6 22;
        test_id = slice b 23 off;
        nonce = slice b off (off + nonce_len);
        seq = uint32_at b (off + nonce_len);
        recv_len = uint16_at b (off + nonce_len + 4);
        payload_sha256 = slice b (off + nonce_len + 4 + 2) (off + nonce_len + 4 + 2 + 32);
        seen_at = uint64_at b (off + nonce_len + 4 + 2 + 32);
        replied_at = uint64_at b (off + nonce_len + 4 + 2 + 32 + 8);
      },
      off + nonce_len + 4 + 2 + 32 + 8 + 8,
    )

unfoldable pub decode_reply_body : Hashes → Bytes → Bytes → Decoded Reply
decode_reply_body h key b =
    let (r, off) = read_reply b in
    if bytes_eq (slice b off (off + mac_len)) (mac h key (take off b)) then decoded r else bad_mac r

-- `DecodeReply`
unfoldable pub decode_reply : Hashes → Bytes → Bytes → Decoded Reply
decode_reply h key b =
    if not (is_envelope b) || not (byte_at b 4 == kind_reply)
    then not_envelope
    else let total = (reply_len b).0 in
      if total == 0 then truncated else decode_reply_body h key (take total b)
