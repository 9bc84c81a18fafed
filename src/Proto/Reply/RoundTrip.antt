-- ===== src/Proto/Reply/RoundTrip.antt =====
-- internal/proto/envelope.go: `EncodeReply` against `ReplyLen`, `DecodeReply` and `DecodeRequest`.
use censor_pulse_cli.Common.{
  Bytes, List, Option, [], ap, append-nil, append_assoc, arith, be_value, be_value-put_uint16,
  be_value-put_uint32, be_value-put_uint64, byte_at, byte_at-concat, bytes_eq_refl, concat,
  concat-append, length, length-append, length-concat, put_uint64, refl, slice, slice-concat, sym,
  take, take-append_length, take-concat, true, ℕ, ◌%◌, ◌++◌, ◌+◌, ◌<◌, ◌^◌, ◌∙◌, ◌∷◌, ◌≡◌,
}
use censor_pulse_cli.Proto.Hashes.{Hashes, mac, length-mac}
use censor_pulse_cli.Proto.Request.{Request, is_envelope, decoded, decode_request, not_envelope}
use censor_pulse_cli.Proto.Reply.{
  Reply, reply_pieces, encode_reply, reply_len, read_reply, decode_reply_body, decode_reply,
}

-- What the types of the fields guarantee.
pub record IsReplyable (r : Request) : Type 0 where
  pub session_id_16 : length r.session_id ≡ 16
  pub nonce_12 : length r.nonce ≡ 12
  pub test_id_byte : length r.test_id < 256
  pub payload_16 : length r.payload < 2 ^ 16
  pub seq_32 : r.seq < 2 ^ 32

-- The reply that the client is to read.
abbrev pub reply_to : Hashes → Request → ℕ → ℕ → Reply
reply_to h r seen_at replied_at = record {
  session_id = r.session_id;
  test_id = r.test_id;
  nonce = r.nonce;
  seq = r.seq;
  recv_len = length r.payload;
  payload_sha256 = h.sha256 r.payload;
  seen_at = seen_at;
  replied_at = replied_at;
}

length-put_uint64 : (v : ℕ) → length (put_uint64 v) ≡ 8
length-put_uint64 v = refl

module _ (h : Hashes) (r : Request) (seen replied : ℕ) (key rest : Bytes) (v : IsReplyable r) where
  abbrev body : Bytes
  body = concat (reply_pieces h r seen replied)

  abbrev segments : List Bytes
  segments = reply_pieces h r seen replied ++ (mac h key body ∷ rest ∷ [])

  abbrev b : Bytes
  b = concat segments

  encoded-segments : encode_reply h r seen replied key ++ rest ≡ b
  unfolding encode_reply
  encoded-segments =
      append_assoc body (mac h key body) rest
      ∙ ap (λ (t : Bytes). body ++ (mac h key body ++ t)) (sym (append-nil rest))
      ∙ sym (concat-append (reply_pieces h r seen replied) (mac h key body ∷ rest ∷ []))

  shape : (is_envelope b ≡ true) × (byte_at b 4 ≡ 2)
  unfolding is_envelope reply_pieces
  shape = (ground arith, byte_at-concat 1 segments 4 1 (omega arith) (omega arith))

  tl : byte_at b 22 ≡ length r.test_id
  unfolding reply_pieces
  tl =
      byte_at-concat 3 segments 22 0 (omega (arith, v.session_id_16)) (omega arith)
      ∙ omega (arith, v.test_id_byte)

  length-body : length body ≡ 89 + length r.test_id
  unfolding reply_pieces
  length-body =
      length-concat (reply_pieces h r seen replied)
      ∙ omega (arith, v.session_id_16, v.nonce_12, h.length-sha256 r.payload)

  pub length-encode_reply : length (encode_reply h r seen replied key) ≡ 105 + length r.test_id
  unfolding encode_reply
  length-encode_reply =
      omega (arith, length-append body (mac h key body), length-body, length-mac h key body)

  total : reply_len b ≡ (105 + length r.test_id, 105 + length r.test_id)
  unfolding reply_len
  total = ground (
    arith,
    tl,
    ap length encoded-segments,
    length-append (encode_reply h r seen replied key) rest,
    length-encode_reply,
  )

  abbrev at : ℕ
  at = 23 + byte_at b 22

  seal : slice b (at + 12 + 4 + 2 + 32 + 8 + 8) (at + 12 + 4 + 2 + 32 + 8 + 8 + 16) ≡ mac h key body
  unfolding reply_pieces
  seal =
      slice-concat 11 segments _ _
        (omega (arith, tl, v.session_id_16, v.nonce_12, h.length-sha256 r.payload))
        (omega (arith, length-mac h key body))

  body_lem : take (at + 12 + 4 + 2 + 32 + 8 + 8) b ≡ body
  unfolding reply_pieces
  body_lem =
      take-concat 11 segments _
        (omega (arith, tl, v.session_id_16, v.nonce_12, h.length-sha256 r.payload))

  recv_mod : length r.payload % 65536 ≡ length r.payload
  recv_mod = omega (arith, v.payload_16)

  read_fields : seen < 2 ^ 64 → replied < 2 ^ 64 → (read_reply b).0 ≡ reply_to h r seen replied
  unfolding read_reply reply_pieces
  read_fields hs hr = λ i. record {
    session_id = slice-concat 2 segments 6 22 (omega arith) (omega (arith, v.session_id_16)) i;
    test_id = slice-concat 4 segments 23 at (omega (arith, v.session_id_16)) (omega (arith, tl)) i;
    nonce =
        slice-concat 5 segments at (at + 12) (omega (arith, tl, v.session_id_16))
          (omega (arith, v.nonce_12)) i;
    seq =
        (ap be_value (
              slice-concat 6 segments (at + 12) (at + 12 + 4) (omega (arith, place 12))
                (omega arith))
            ∙ be_value-put_uint32 r.seq v.seq_32)
          i;
    recv_len =
        (ap be_value (
              slice-concat 7 segments (at + 12 + 4) (at + 12 + 4 + 2) (omega (arith, place 12))
                (omega arith))
            ∙ be_value-put_uint16 (length r.payload % 65536) (omega arith)
            ∙ recv_mod)
          i;
    payload_sha256 =
        slice-concat 8 segments (at + 12 + 4 + 2) (at + 12 + 4 + 2 + 32) (omega (arith, place 12))
          (omega (arith, h.length-sha256 r.payload)) i;
    seen_at =
        (ap be_value (
              slice-concat 9 segments (at + 12 + 4 + 2 + 32) (at + 12 + 4 + 2 + 32 + 8)
                (omega (arith, place 12, h.length-sha256 r.payload)) (omega arith))
            ∙ be_value-put_uint64 seen hs)
          i;
    replied_at =
        (ap be_value (
              slice-concat 10 segments (at + 12 + 4 + 2 + 32 + 8) (at + 12 + 4 + 2 + 32 + 8 + 8)
                (omega (arith, place 12, h.length-sha256 r.payload)) (omega arith))
            ∙ be_value-put_uint64 replied hr)
          i;
  }
    where
      place : (n : ℕ) → at + n ≡ 23 + length r.test_id + n
      place n = omega (arith, tl)

  decode_reply_body-encoded :
      seen < 2 ^ 64
      → replied < 2 ^ 64
      → decode_reply_body h key b ≡ decoded (reply_to h r seen replied)
  unfolding decode_reply_body read_reply
  decode_reply_body-encoded hs hr =
      rw (seal, body_lem, bytes_eq_refl (mac h key body)) (ap decoded (read_fields hs hr))

  complete : take (105 + length r.test_id) b ≡ encode_reply h r seen replied key
  complete =
      ap (take (105 + length r.test_id)) (sym encoded-segments)
      ∙ take-append_length (encode_reply h r seen replied key) rest (105 + length r.test_id)
          (sym length-encode_reply)

  decode_reply-segments :
      decode_reply h key b ≡ decode_reply_body h key (encode_reply h r seen replied key)
  unfolding decode_reply
  decode_reply-segments = rw (shape.0, shape.1, total) (ground (arith, complete))

  decode_request-segments :
      (key_for : Bytes → Option Bytes) → decode_request h key_for b ≡ not_envelope
  unfolding decode_request
  decode_request-segments key_for = rw (shape.0, shape.1) refl

module _ (h : Hashes) (r : Request) (seen replied : ℕ) (key rest : Bytes) (v : IsReplyable r) where
  -- On a stream that starts with a reply the client reads back what the server put in: the identity
  -- of the request, the length and the hash of its payload and both times; whatever follows the
  -- reply is left alone. Times are 64-bit patterns.
  pub decode_reply-encode_reply :
      seen < 2 ^ 64
      → replied < 2 ^ 64
      → decode_reply h key (encode_reply h r seen replied key ++ rest)
        ≡ decoded (reply_to h r seen replied)
  decode_reply-encode_reply hs hr =
      ap (decode_reply h key) (encoded-segments h r seen replied key rest v)
      ∙ decode_reply-segments h r seen replied key rest v
      ∙ ap (decode_reply_body h key) (
          sym (append-nil (encode_reply h r seen replied key))
          ∙ encoded-segments h r seen replied key [] v)
      ∙ decode_reply_body-encoded h r seen replied key [] v hs hr

  -- A reply that is sent back to a server is no request: `DecodeRequest` answers `not_envelope`,
  -- under any key lookup.
  pub decode_request-encode_reply :
      (key_for : Bytes → Option Bytes)
      → decode_request h key_for (encode_reply h r seen replied key ++ rest) ≡ not_envelope
  decode_request-encode_reply key_for =
      ap (decode_request h key_for) (encoded-segments h r seen replied key rest v)
      ∙ decode_request-segments h r seen replied key rest v key_for
