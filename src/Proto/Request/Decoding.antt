-- ===== src/Proto/Request/Decoding.antt =====
-- internal/proto/envelope.go: what `DecodeRequest` and `PeekRequest` guarantee on any input.
use censor_pulse_cli.Common.{
  Bytes, Option, ap, ap₂, arith, bytes_eq→eq, length, length-take, none, refl, slice, some, sym,
  take, true, uint16_at, ℕ, ◌+◌, ◌-◌, ◌<◌, ◌∙◌, ◌≡◌, ◌≤◌,
}
use censor_pulse_cli.Proto.Request.Streaming.{request_len-whole, request_len-take_enough}
use censor_pulse_cli.Proto.Hashes.{Hashes, mac}
use censor_pulse_cli.Proto.Request.{
  Request, check_mac, decode_body, decode_request, decoded, read_request, request_len,
  length_offset,
}

-- The session key and the MAC that a decoded request was accepted with.
pub record Authentic (h : Hashes) (key_for : Bytes → Option Bytes) (b : Bytes) (r : Request)
    : Type 0 where
  pub key : Bytes
  pub known : key_for r.session_id ≡ some key
  pub envelope : r.raw ≡ take (request_len b).0 b
  pub complete : (request_len b).0 ≤ length b
  pub mac_end : length r.raw ≡ (request_len b).0
  pub sealed_with :
      slice r.raw (length r.raw - 16) (length r.raw) ≡ mac h key (take (length r.raw - 16) r.raw)

check_mac-Authentic :
    (h : Hashes) (o : Option Bytes) (b : Bytes) (off : ℕ)
    → check_mac h o b off ≡ true
    → (key : Bytes) × (o ≡ some key) × (slice b off (off + 16) ≡ mac h key (take off b))
unfolding check_mac
check_mac-Authentic h none b off e = cc
check_mac-Authentic h (some key) b off e =
    (key, refl, bytes_eq→eq (slice b off (off + 16)) (mac h key (take off b)) e)

decode_body-eq_decoded :
    (h : Hashes) (key_for : Bytes → Option Bytes) (b : Bytes) (r : Request)
    → decode_body h key_for b ≡ decoded r
    → ((read_request b).0 ≡ r)
      × (check_mac h (key_for (read_request b).0.session_id) b (read_request b).1 ≡ true)
unfolding decode_body
decode_body-eq_decoded h key_for b r e = ground arith

decode_request-eq_decoded :
    (h : Hashes) (key_for : Bytes → Option Bytes) (b : Bytes) (r : Request)
    → decode_request h key_for b ≡ decoded r
    → (0 < (request_len b).0) × (decode_body h key_for (take (request_len b).0 b) ≡ decoded r)
unfolding decode_request
decode_request-eq_decoded h key_for b r e = ground arith

read_request-raw : (b : Bytes) → (read_request b).0.raw ≡ b
unfolding read_request
read_request-raw b = refl

read_request-end :
    (b : Bytes) → (read_request b).1 ≡ length_offset b + 2 + uint16_at b (length_offset b)
unfolding read_request
read_request-end b = refl

-- What `DecodeRequest` returns with no error is authentic, for any input and any key lookup: the
-- lookup knows a key for its session id, its raw bytes are the first `RequestLen` bytes of the
-- input, which are all there, and their last 16 bytes are the MAC of the bytes before them under
-- that key.
pub decode_request-Authentic :
    (h : Hashes) (key_for : Bytes → Option Bytes) (b : Bytes) (r : Request)
    → decode_request h key_for b ≡ decoded r
    → Authentic h key_for b r
decode_request-Authentic h key_for b r e = record {
  key = checked.0;
  known = ap (λ (q : Request). key_for q.session_id) (sym body.0) ∙ checked.1;
  envelope = raw_eq;
  complete = fits;
  mac_end = raw_length;
  sealed_with = seal;
}
  where
    n : ℕ
    n = (request_len b).0

    front : Bytes
    front = take n b

    known_length : 0 < n
    known_length = (decode_request-eq_decoded h key_for b r e).0

    body :
        ((read_request front).0 ≡ r)
        × (check_mac h (key_for (read_request front).0.session_id) front (read_request front).1
            ≡ true)
    body = decode_body-eq_decoded h key_for front r (decode_request-eq_decoded h key_for b r e).1

    checked :
        (key : Bytes) × (key_for (read_request front).0.session_id ≡ some key)
        × (slice front (read_request front).1 ((read_request front).1 + 16)
            ≡ mac h key (take (read_request front).1 front))
    checked = check_mac-Authentic h _ front (read_request front).1 body.1

    fits : n ≤ length b
    fits = (request_len-whole b known_length).1

    raw_eq : r.raw ≡ front
    raw_eq = ap (λ (q : Request). q.raw) (sym body.0) ∙ read_request-raw front

    raw_length : length r.raw ≡ n
    raw_length = ap length raw_eq ∙ length-take n b ∙ omega (arith, fits)

    front_len : request_len front ≡ (n, n)
    front_len = request_len-take_enough n b known_length (omega arith)

    mac_at : (read_request front).1 ≡ n - 16
    mac_at = omega (
      arith,
      read_request-end front,
      (request_len-whole front (rw front_len known_length)).0,
      ap (λ (p : ℕ × ℕ). p.0) front_len,
    )

    n_ge : 16 ≤ n
    n_ge = omega (arith, (request_len-whole b known_length).0)

    seal :
        slice r.raw (length r.raw - 16) (length r.raw)
        ≡ mac h checked.0 (take (length r.raw - 16) r.raw)
    seal =
        ap₂ (λ (t : Bytes) (k : ℕ). slice t (k - 16) k) raw_eq raw_length
        ∙ ap₂ (slice front) (sym mac_at) (omega (arith, mac_at, n_ge))
        ∙ checked.2
        ∙ ap₂ (λ (t : Bytes) (k : ℕ). mac h checked.0 (take k t)) (sym raw_eq)
            (mac_at ∙ omega (arith, raw_length))
