-- ===== src/Server/MasterKey.antt =====
-- internal/server/udp_dtls.go, `dtlsCookie`, and what all MACs under the master key are taken over:
-- three in internal/proto/token.go, and this one.
use censor_pulse_cli.Common.{
  Bytes, [], ap, arith, byte_at, length, refl, sym, take, true, ℕ, ◌++◌, ◌<◌, ◌^◌, ◌∙◌, ◌∷◌, ◌≡◌,
}
use censor_pulse_cli.Proto.Hashes.{Hashes}
use censor_pulse_cli.Proto.Token.{
  session_key_text, token_text, cookie_text, session_key_label, token_label,
}
use censor_pulse_cli.Proto.Token.Laws.{append-cancel, cookie_text-injective}

abbrev pub dtls_cookie_label : Bytes
dtls_cookie_label =
    b'd' ∷ b't' ∷ b'l' ∷ b's' ∷ b'-' ∷ b'c' ∷ b'o' ∷ b'o' ∷ b'k' ∷ b'i' ∷ b'e' ∷ b'|' ∷ []

unfoldable pub dtls_cookie_text : Bytes → Bytes
dtls_cookie_text peer = dtls_cookie_label ++ peer

-- `dtlsCookie`, for the text of the peer's address.
unfoldable pub dtls_cookie : Hashes → Bytes → Bytes → Bytes
dtls_cookie h master peer = take 16 (h.hmac_sha256 master (dtls_cookie_text peer))

-- A use of the master key, with the data that it binds.
pub data MasterUse : Type 0 where
  for_session_key : Bytes → MasterUse
  for_token : Bytes → MasterUse
  for_cookie : Bytes → Bytes → ℕ → MasterUse
  for_dtls_cookie : Bytes → MasterUse

unfoldable pub text_of : MasterUse → Bytes
text_of (for_session_key sid) = session_key_text sid
text_of (for_token body) = token_text body
text_of (for_cookie sid ip exp) = cookie_text sid ip exp
text_of (for_dtls_cookie peer) = dtls_cookie_text peer

-- A session id has 16 bytes, an expiry 64 bits.
abbrev pub IsSized : MasterUse → Type 0
IsSized (for_cookie sid ip exp) = (length sid ≡ 16) × (exp < 2 ^ 64)
IsSized u = true ≡ true

-- Byte 4 tells the labels apart.
abbrev tag_of : MasterUse → ℕ
tag_of (for_session_key _) = 115
tag_of (for_token _) = 116
tag_of (for_cookie _ _ _) = 117
tag_of (for_dtls_cookie _) = 45

byte_at-text_of : (u : MasterUse) → byte_at (text_of u) 4 ≡ tag_of u
unfolding text_of session_key_text token_text cookie_text dtls_cookie_text
byte_at-text_of (for_session_key sid) = omega arith
byte_at-text_of (for_token body) = omega arith
byte_at-text_of (for_cookie sid ip exp) = omega arith
byte_at-text_of (for_dtls_cookie peer) = omega arith

same_tag : (u v : MasterUse) → text_of u ≡ text_of v → tag_of u ≡ tag_of v
same_tag u v e = sym (byte_at-text_of u) ∙ ap (λ (t : Bytes). byte_at t 4) e ∙ byte_at-text_of v

-- Nothing that is made under the master key passes for anything else that is: two texts that a session
-- key, a token, a UDP cookie or a DTLS cookie is made over are equal only if they are for the same
-- one of the four and for the same data, of which a session id has 16 bytes and an expiry 64 bits.
pub text_of-injective : (u v : MasterUse) → IsSized u → IsSized v → text_of u ≡ text_of v → u ≡ v
unfolding text_of session_key_text token_text dtls_cookie_text
text_of-injective (for_session_key sid) (for_session_key sid') hu hv e =
    ap for_session_key (append-cancel session_key_label sid session_key_label sid' refl e).1
text_of-injective (for_token body) (for_token body') hu hv e =
    ap for_token (append-cancel token_label body token_label body' refl e).1
text_of-injective (for_dtls_cookie peer) (for_dtls_cookie peer') hu hv e =
    ap for_dtls_cookie (append-cancel dtls_cookie_label peer dtls_cookie_label peer' refl e).1
text_of-injective (for_cookie sid ip exp) (for_cookie sid' ip' exp') hu hv e =
    let same = cookie_text-injective sid sid' ip ip' exp exp' hu.0 hv.0 hu.1 hv.1 e in
    λ i. for_cookie (same.0 i) (same.1 i) (same.2 i)
text_of-injective u v hu hv e = absurd (omega (arith, same_tag u v e))
