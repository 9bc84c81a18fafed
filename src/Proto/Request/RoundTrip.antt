-- ===== src/Proto/Request/RoundTrip.antt =====
-- internal/proto/envelope.go: `EncodeRequest` against `RequestLen` and `DecodeRequest`.
use censor_pulse_cli.Common.{
  Bytes, Option, [], ap, append-nil, append_assoc, arith, bytes_eq_refl, concat, concat-append,
  false, length, length-append, length-concat, none, ok, refl, some, sym, take, take-append_length,
  true, ◌++◌, ◌+◌, ◌∙◌, ◌∷◌, ◌≡◌,
}
use censor_pulse_cli.Proto.Hashes.{Hashes, mac, length-mac}
use censor_pulse_cli.Proto.Request.{
  Request, request_pieces, cookie_bytes, request_len, encode_request, read_request, check_mac,
  bad_cookie, bad_mac, decode_body, decode_request, decoded,
}
use censor_pulse_cli.Proto.Request.Framing.{
  IsValid, IsCookie, segments, length_offset-request, payload_length, read_session_id, read_test_id,
  read_nonce, read_seq, read_cookie, read_payload, read_mac, read_body, byte_kind, envelope_shape,
}
use censor_pulse_cli.Proto.Request.Streaming.{request_len_complete}

-- The bytes that `EncodeRequest` returns.
abbrev pub sealed : Hashes → Request → Bytes → Bytes
sealed h r key = concat (request_pieces r) ++ mac h key (concat (request_pieces r))

good_cookie : (c : Option Bytes) → IsCookie c → bad_cookie c ≡ false
good_cookie none k = refl
good_cookie (some c) k = rw k refl

-- A valid request is encoded, and never refused.
pub encode_request-ok :
    (h : Hashes) (r : Request) (key : Bytes)
    → IsValid r
    → IsCookie r.cookie
    → encode_request h r key ≡ ok (sealed h r key)
unfolding encode_request
encode_request-ok h r key v c = ground (arith, good_cookie r.cookie c)

module _ (h : Hashes) (r : Request) (key : Bytes) (v : IsValid r) (c : IsCookie r.cookie) where
  abbrev m : Bytes
  m = mac h key (concat (request_pieces r))

  sealed-segments : (rest : Bytes) → sealed h r key ++ rest ≡ concat (segments r m rest)
  sealed-segments rest =
      append_assoc (concat (request_pieces r)) m rest
      ∙ ap (λ (t : Bytes). concat (request_pieces r) ++ (m ++ t)) (sym (append-nil rest))
      ∙ sym (concat-append (request_pieces r) (m ∷ rest ∷ []))

  length-pieces :
      length (concat (request_pieces r))
      ≡ 41 + length r.test_id + length (cookie_bytes r.cookie) + length r.payload
  unfolding request_pieces
  length-pieces = length-concat (request_pieces r) ∙ omega (arith, v.session_id_16, v.nonce_12)

  pub length-sealed :
      length (sealed h r key)
      ≡ 57 + length r.test_id + length (cookie_bytes r.cookie) + length r.payload
  length-sealed = omega (
    arith,
    length-append (concat (request_pieces r)) m,
    length-pieces,
    length-mac h key (concat (request_pieces r)),
  )

  total_segments :
      (rest : Bytes)
      → request_len (concat (segments r m rest))
        ≡ (length (sealed h r key), length (sealed h r key))
  total_segments rest =
      request_len_complete (concat (segments r m rest)) (length (sealed h r key))
        (omega
          (arith, length-sealed, length_offset-request r m rest v c, payload_length r m rest v c))
        (omega (arith, ap length (sealed-segments rest), length-append (sealed h r key) rest))

  -- `RequestLen` finds the end of an encoded request, whatever follows it.
  pub request_len-encoded :
      (rest : Bytes)
      → request_len (sealed h r key ++ rest) ≡ (length (sealed h r key), length (sealed h r key))
  request_len-encoded rest = rw (sealed-segments rest) (total_segments rest)

  abbrev b : Bytes
  b = concat (segments r m [])

  pub whole-segments : sealed h r key ≡ b
  whole-segments = sym (append-nil (sealed h r key)) ∙ sealed-segments []

  read_fields : (read_request b).0 ≡ record r { raw = b }
  unfolding read_request
  read_fields = λ i. record {
    session_id = read_session_id r m [] v c i;
    test_id = read_test_id r m [] v c i;
    nonce = read_nonce r m [] v c i;
    seq = read_seq r m [] v c i;
    cookie = read_cookie r m [] v c i;
    payload = read_payload r m [] v c i;
    raw = b;
  }

  checks : check_mac h (some key) b (read_request b).1 ≡ true
  unfolding check_mac read_request
  checks =
      rw (read_mac r m [] v c (length-mac h key (concat (request_pieces r))), read_body r m [] v c)
        (bytes_eq_refl m)

  decode_body-sealed :
      (key_for : Bytes → Option Bytes)
      → key_for r.session_id ≡ some key
      → decode_body h key_for b ≡ decoded (record r { raw = b })
  unfolding decode_body
  decode_body-sealed key_for hk =
      rw (ap (λ (q : Request). key_for q.session_id) read_fields, hk, checks)
        (ap decoded read_fields)

  decode_body-unknown :
      (key_for : Bytes → Option Bytes)
      → key_for r.session_id ≡ none
      → decode_body h key_for b ≡ bad_mac (record r { raw = b })
  unfolding decode_body check_mac
  decode_body-unknown key_for hk =
      rw (ap (λ (q : Request). key_for q.session_id) read_fields, hk) (ap bad_mac read_fields)

  decode_segments :
      (key_for : Bytes → Option Bytes) (rest : Bytes)
      → decode_request h key_for (concat (segments r m rest)) ≡ decode_body h key_for b
  unfolding decode_request
  decode_segments key_for rest =
      rw (envelope_shape r m rest v c, byte_kind r m rest v c, total_segments rest)
        (ground (arith, length-sealed, cut))
    where
      cut : take (length (sealed h r key)) (concat (segments r m rest)) ≡ b
      cut =
          ap (take (length (sealed h r key))) (sym (sealed-segments rest))
          ∙ take-append_length (sealed h r key) rest (length (sealed h r key)) refl
          ∙ whole-segments

  -- On a stream that starts with the encoding of a valid request, whatever follows it, a server that
  -- has the key which the request was encoded with under its session id decodes it to the same
  -- request, with the encoding as its raw bytes.
  pub decode_request-sealed :
      (key_for : Bytes → Option Bytes) (rest : Bytes)
      → key_for r.session_id ≡ some key
      → decode_request h key_for (sealed h r key ++ rest)
        ≡ decoded (record r { raw = sealed h r key })
  decode_request-sealed key_for rest hk =
      ap (decode_request h key_for) (sealed-segments rest)
      ∙ decode_segments key_for rest
      ∙ decode_body-sealed key_for hk
      ∙ ap (λ (t : Bytes). decoded (record r { raw = t })) (sym whole-segments)

  -- A server that has no key for the session id reads the same request, and returns it as one whose
  -- MAC it could not verify.
  pub decode_request-sealed_unknown :
      (key_for : Bytes → Option Bytes) (rest : Bytes)
      → key_for r.session_id ≡ none
      → decode_request h key_for (sealed h r key ++ rest)
        ≡ bad_mac (record r { raw = sealed h r key })
  decode_request-sealed_unknown key_for rest hk =
      ap (decode_request h key_for) (sealed-segments rest)
      ∙ decode_segments key_for rest
      ∙ decode_body-unknown key_for hk
      ∙ ap (λ (t : Bytes). bad_mac (record r { raw = t })) (sym whole-segments)
