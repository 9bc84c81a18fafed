-- ===== src/Examples/Envelope.antt =====
-- internal/proto at concrete inputs, with stand-ins for the hash functions and base64.
use censor_pulse_cli.Common.{
  Bytes, Option, [], arith, byte_at, length, length-append, length-take, ok, refl, replicate, some,
  take, true, ◌++◌, ◌<◌, ◌^◌, ◌∷◌, ◌≡◌, ◌≤◌,
}
use censor_pulse_cli.Proto.Hashes.{Hashes, mac}
use censor_pulse_cli.Proto.Request.{
  Request, check_mac, decode_body, decode_request, decoded, encode_request, is_envelope,
  peek_request, read_request, request_len, request_pieces, truncated,
}
use censor_pulse_cli.Proto.Request.Framing.{IsValid}
use censor_pulse_cli.Proto.Request.Streaming.{request_len-take_short}
use censor_pulse_cli.Proto.Request.RoundTrip.{
  sealed, decode_request-sealed, encode_request-ok, length-sealed,
}
use censor_pulse_cli.Proto.Request.Decoding.{decode_request-Authentic, Authentic}
use censor_pulse_cli.Proto.Request.Partial.{peek_request-Agrees, Agrees, decode_request-take}
use censor_pulse_cli.Proto.Reply.{encode_reply, decode_reply}
use censor_pulse_cli.Proto.Reply.RoundTrip.{IsReplyable, decode_reply-encode_reply, reply_to}
use censor_pulse_cli.Server.MasterKey.{MasterUse, for_cookie, text_of-injective}
use censor_pulse_cli.Proto.Token.{token, Base64, expired, valid, verify_token}
use censor_pulse_cli.Proto.Token.Laws.{verify_token-token, Checked, verify_token-Checked}

-- Not a hash: the lengths of key and text, and the first bytes of the text.
abbrev digest : Bytes → Bytes → Bytes
digest key text = length key ∷ length text ∷ take 30 (text ++ replicate 30 0)

length-digest : (key text : Bytes) → length (digest key text) ≡ 32
length-digest key text =
    omega (arith, length-take 30 (text ++ replicate 30 0), length-append text (replicate 30 0))

abbrev toy : Hashes
toy = record {
  hmac_sha256 = digest;
  sha256 = digest [];
  length-hmac_sha256 = length-digest;
  length-sha256 = length-digest [];
}

abbrev ping : Request
ping = record {
  session_id = replicate 16 7;
  test_id = b'u' ∷ b'd' ∷ b'p' ∷ [];
  nonce = replicate 12 9;
  seq = 3;
  cookie = some (replicate 16 5);
  payload = 1 ∷ 2 ∷ [];
  raw = [];
}

ping-IsValid : IsValid ping
ping-IsValid = omega arith

abbrev secret : Bytes
secret = 42 ∷ []

abbrev keys : Bytes → Option Bytes
keys sid = some secret

abbrev wire : Bytes
wire = sealed toy ping secret

encode_request-ok_example : encode_request toy ping secret ≡ ok wire
encode_request-ok_example = encode_request-ok toy ping secret ping-IsValid refl

decode_request-sealed_example :
    decode_request toy keys (wire ++ (1 ∷ [])) ≡ decoded (record ping { raw = wire })
decode_request-sealed_example =
    decode_request-sealed toy ping secret ping-IsValid refl keys (1 ∷ []) refl

wire_len : request_len wire ≡ (78, 78)
unfolding request_len request_pieces mac
wire_len = refl

request_len-take_short_example :
    ((request_len (take 50 wire)).0 ≡ 0)
    × (50 < (request_len (take 50 wire)).1)
    × ((request_len (take 50 wire)).1 ≤ (request_len wire).0)
request_len-take_short_example = request_len-take_short 50 wire (rw wire_len (omega arith))

wire_decoded : decode_request toy keys wire ≡ decoded (record ping { raw = wire })
unfolding decode_request decode_body read_request check_mac request_len is_envelope request_pieces
    mac
wire_decoded = refl

decode_request-Authentic_example : Authentic toy keys wire (record ping { raw = wire })
decode_request-Authentic_example =
    decode_request-Authentic toy keys wire (record ping { raw = wire }) wire_decoded

wire_shape : (is_envelope wire ≡ true) × (byte_at wire 4 ≡ 1)
unfolding is_envelope request_pieces mac
wire_shape = (refl, refl)

decode_request-take_example : decode_request toy keys (take 40 wire) ≡ truncated
decode_request-take_example =
    decode_request-take toy keys 40 wire wire_shape.0 wire_shape.1 (omega arith)
      (rw wire_len (omega arith))

peek_request-Agrees_example : Agrees ping 40 (peek_request (take 40 wire))
peek_request-Agrees_example =
    peek_request-Agrees toy ping secret ping-IsValid refl 40
      (omega (arith, length-sealed toy ping secret ping-IsValid refl))

ping-IsReplyable : IsReplyable ping
ping-IsReplyable = omega arith

decode_reply-encode_reply_example :
    decode_reply toy secret (encode_reply toy ping 1000 2000 secret ++ (8 ∷ []))
    ≡ decoded (reply_to toy ping 1000 2000)
decode_reply-encode_reply_example =
    decode_reply-encode_reply toy ping 1000 2000 secret (8 ∷ []) ping-IsReplyable (omega arith)
      (omega arith)

-- A text encoding that changes nothing.
abbrev plain : Base64
plain = record { encode = λ b. b; decode = λ b. some b; decode-encode = λ b. refl }

abbrev sid : Bytes
sid = replicate 16 7

token_valid : verify_token toy plain secret (token toy plain secret sid 600) 5 ≡ valid sid 600
token_valid = verify_token-token toy plain secret sid 600 5 refl (omega arith)

verify_token-Checked_example :
    (b : Bytes) × (plain.decode (token toy plain secret sid 600) ≡ some b)
    × Checked toy secret 5 b sid 600
verify_token-Checked_example =
    verify_token-Checked toy plain secret (token toy plain secret sid 600) sid 5 600 token_valid

abbrev cookie_use : MasterUse
cookie_use = for_cookie sid (127 ∷ 0 ∷ 0 ∷ 1 ∷ []) 600

text_of-injective_example : cookie_use ≡ for_cookie (replicate 16 7) (127 ∷ 0 ∷ 0 ∷ 1 ∷ []) 600
text_of-injective_example =
    text_of-injective cookie_use (for_cookie (replicate 16 7) (127 ∷ 0 ∷ 0 ∷ 1 ∷ []) 600)
      (refl, omega arith) (refl, omega arith) refl

-- An expiry that the server's clock can reach no more: 2^63 seconds after the epoch.
far_token_expired :
    verify_token toy plain secret (token toy plain secret sid (2 ^ 63)) 5 ≡ expired sid (2 ^ 63)
far_token_expired = verify_token-token toy plain secret sid (2 ^ 63) 5 refl (omega arith)
