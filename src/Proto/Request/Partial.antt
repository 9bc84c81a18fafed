-- ===== src/Proto/Request/Partial.antt =====
-- internal/proto/envelope.go: `DecodeRequest` and `PeekRequest` on an envelope that was cut.
use censor_pulse_cli.Common.{
  Bytes, Option, [], ap, arith, byte_at, concat, dec_lt, get_or-take, if◌then◌else◌, length,
  length-take, ltb, refl, slice, slice-take, subst, sym, take, take-take, true, ℕ, ◌+◌, ◌<◌, ◌∙◌,
  ◌≡◌, ◌≤◌,
}
use censor_pulse_cli.Proto.Request.Framing.{
  IsValid, IsCookie, byte_kind, byte_test_id, envelope_shape, read_nonce, read_session_id,
  read_test_id, segments,
}
use censor_pulse_cli.Proto.Request.RoundTrip.{sealed, whole-segments}
use censor_pulse_cli.Proto.Hashes.{Hashes, mac}
use censor_pulse_cli.Proto.Request.{
  Request, request_len, decode_request, truncated, is_envelope, peek_request, Peeked,
  request_pieces,
}
use censor_pulse_cli.Proto.Request.Streaming.{request_len-take_short}

is_envelope-take :
    (n : ℕ) (b : Bytes) → 5 < n → is_envelope b ≡ true → is_envelope (take n b) ≡ true
unfolding is_envelope
is_envelope-take n b h e =
    ground
      (arith, length-take n b, take-take 3 n b (omega arith), get_or-take n 3 b 0 (omega arith))

-- A whole envelope of which at least six bytes, and not all, have arrived is `truncated`: it is
-- neither taken for something else nor decoded.
pub decode_request-take :
    (h : Hashes) (key_for : Bytes → Option Bytes) (n : ℕ) (b : Bytes)
    → is_envelope b ≡ true
    → byte_at b 4 ≡ 1
    → 5 < n
    → n < (request_len b).0
    → decode_request h key_for (take n b) ≡ truncated
unfolding decode_request
decode_request-take h key_for n b env kind lo hi =
    rw
      (
        is_envelope-take n b lo env,
        get_or-take n 4 b 0 (omega arith),
        kind,
        (request_len-take_short n b hi).0,
      )
      refl

-- How many of session id, test id and nonce the first n bytes hold.
abbrev pub parts_in : ℕ → ℕ → ℕ
parts_in n tl =
    if ltb n 22 then 0 else if ltb n (23 + tl) then 1 else if ltb n (23 + tl + 12) then 2 else 3

-- The parts that are there are those of the request.
pub record Agrees (r : Request) (n : ℕ) (p : Peeked) : Type 0 where
  pub counted : p.have ≡ parts_in n (length r.test_id)
  pub same_session_id : 0 < p.have → p.session_id ≡ r.session_id
  pub same_test_id : 1 < p.have → p.test_id ≡ r.test_id
  pub same_nonce : 2 < p.have → p.nonce ≡ r.nonce

-- `PeekRequest` after its shape check, on n bytes of a request.
module _ (n : ℕ) (b : Bytes) (fits : n ≤ length b) where
  size : length (take n b) ≡ n
  size = length-take n b ∙ omega arith

  peek_request-take_none : n < 22 → (peek_request (take n b)).have ≡ 0
  unfolding peek_request
  peek_request-take_none h = ground (arith, size)

  module _ (env : is_envelope b ≡ true) (kind : byte_at b 4 ≡ 1) (long : 21 < n) where
    env' : is_envelope (take n b) ≡ true
    env' = is_envelope-take n b (omega arith) env

    kind' : byte_at (take n b) 4 ≡ 1
    kind' = get_or-take n 4 b 0 (omega arith) ∙ kind

    peek_request-take :
        (tl : ℕ)
        → (22 < n → byte_at (take n b) 22 ≡ tl)
        → let p = peek_request (take n b) in
          (p.have ≡ parts_in n tl)
          × (p.session_id ≡ slice (take n b) 6 22)
          × (1 < p.have → p.test_id ≡ slice (take n b) 23 (23 + tl))
          × (2 < p.have → p.nonce ≡ slice (take n b) (23 + tl) (23 + tl + 12))
    unfolding peek_request
    peek_request-take tl h = elim (dec_lt n 23) [
      | yes short ↦ ground (arith, size, env', kind')
      | no enough ↦ ground (arith, size, env', kind', h (omega arith))
    ]

module _ (h : Hashes) (r : Request) (key : Bytes) (v : IsValid r) (c : IsCookie r.cookie) where
  abbrev m : Bytes
  m = mac h key (concat (request_pieces r))

  abbrev b : Bytes
  b = concat (segments r m [])

  peek_segments : (n : ℕ) → n ≤ length b → 21 < n → Agrees r n (peek_request (take n b))
  peek_segments n fits long = record {
    counted = p.0;
    same_session_id =
        λ _. p.1 ∙ slice-take n 6 22 b (omega arith) long ∙ read_session_id r m [] v c;
    same_test_id = λ q.
        p.2 q
        ∙ slice-take n 23 (23 + length r.test_id) b (omega arith) (ground (arith, p.0))
        ∙ ap (λ (k : ℕ). slice b 23 (23 + k)) (sym tl)
        ∙ read_test_id r m [] v c;
    same_nonce = λ q.
        p.3 q
        ∙ slice-take n (23 + length r.test_id) (23 + length r.test_id + 12) b (omega arith)
            (ground (arith, p.0))
        ∙ ap (λ (k : ℕ). slice b (23 + k) (23 + k + 12)) (sym tl)
        ∙ read_nonce r m [] v c;
  }
    where
      tl : byte_at b 22 ≡ length r.test_id
      tl = byte_test_id r m [] v c

      p :
          ((peek_request (take n b)).have ≡ parts_in n (length r.test_id))
          × ((peek_request (take n b)).session_id ≡ slice (take n b) 6 22)
          × (1 < (peek_request (take n b)).have
              → (peek_request (take n b)).test_id ≡ slice (take n b) 23 (23 + length r.test_id))
          × (2 < (peek_request (take n b)).have
              → (peek_request (take n b)).nonce
                ≡ slice (take n b) (23 + length r.test_id) (23 + length r.test_id + 12))
      p =
          peek_request-take n b fits (envelope_shape r m [] v c) (byte_kind r m [] v c) long
            (length r.test_id) (λ q. get_or-take n 22 b 0 q ∙ tl)

  -- Of the first n bytes of an encoded request, for any n, `PeekRequest` reads the session id, the
  -- test id and the nonce as far as they have arrived whole, says how many of the three these are,
  -- and what it reads is what the request carries.
  pub peek_request-Agrees :
      (n : ℕ) → n ≤ length (sealed h r key) → Agrees r n (peek_request (take n (sealed h r key)))
  peek_request-Agrees n fits =
      subst (λ (t : Bytes). Agrees r n (peek_request (take n t))) (sym (whole-segments h r key v c))
        (elim (dec_lt n 22) [ yes low ↦ few low | no high ↦ peek_segments n fits' (omega arith) ])
    where
      fits' : n ≤ length b
      fits' = omega (arith, fits, ap length (whole-segments h r key v c))

      few : n < 22 → Agrees r n (peek_request (take n b))
      few low = record {
        counted = peek_request-take_none n b fits' low ∙ ground arith;
        same_session_id = λ q. absurd (omega (arith, peek_request-take_none n b fits' low));
        same_test_id = λ q. absurd (omega (arith, peek_request-take_none n b fits' low));
        same_nonce = λ q. absurd (omega (arith, peek_request-take_none n b fits' low));
      }
