-- ===== src/Proto/Token.antt =====
-- internal/proto/token.go. A token's expiry is a number of seconds, read back as a 64-bit pattern;
-- `now` is a number of nanoseconds since the same epoch. The text encoding of a token is
-- encoding/base64's, and an address is given by its bytes, both of which the code only calls.
pub mod Laws
use censor_pulse_cli.Common.{
  Bool, Bytes, Option, [], bytes_eq, drop, if◌then◌else◌, leb, length, ltb, none, not, put_uint64,
  some, take, uint64_at, ℕ, ◌%◌, ◌&&◌, ◌++◌, ◌+◌, ◌/◌, ◌==◌, ◌^◌, ◌||◌, ◌∷◌, ◌≡◌,
}
use censor_pulse_cli.Proto.Hashes.{Hashes, mac_len}
use censor_pulse_cli.Proto.Request.{session_id_len, cookie_len}

-- base64.RawURLEncoding, for texts given as their bytes.
pub record Base64 : Type 0 where
  pub encode : Bytes → Bytes
  pub decode : Bytes → Option Bytes
  pub decode-encode : (b : Bytes) → decode (encode b) ≡ some b

abbrev pub token_label : Bytes
token_label = b'c' ∷ b'p' ∷ b'1' ∷ b'-' ∷ b't' ∷ b'o' ∷ b'k' ∷ b'e' ∷ b'n' ∷ []

abbrev pub session_key_label : Bytes
session_key_label =
    b'c' ∷ b'p' ∷ b'1' ∷ b'-' ∷ b's' ∷ b'e' ∷ b's' ∷ b's' ∷ b'i' ∷ b'o' ∷ b'n' ∷ b'-' ∷ b'k' ∷ b'e'
    ∷ b'y' ∷ []

abbrev pub cookie_label : Bytes
cookie_label =
    b'c' ∷ b'p' ∷ b'1' ∷ b'-' ∷ b'u' ∷ b'd' ∷ b'p' ∷ b'-' ∷ b'c' ∷ b'o' ∷ b'o' ∷ b'k' ∷ b'i' ∷ b'e'
    ∷ []

abbrev pub second : ℕ
second = 1000000000

-- What the three MACs of the master key are taken over.
unfoldable pub session_key_text : Bytes → Bytes
session_key_text sid = session_key_label ++ sid

unfoldable pub token_text : Bytes → Bytes
token_text body = token_label ++ body

unfoldable pub cookie_text : Bytes → Bytes → ℕ → Bytes
cookie_text sid ip exp = cookie_label ++ (sid ++ (ip ++ put_uint64 exp))

-- `SessionKey`
unfoldable pub session_key : Hashes → Bytes → Bytes → Bytes
session_key h master sid = h.hmac_sha256 master (session_key_text sid)

abbrev pub token_mac : Hashes → Bytes → Bytes → Bytes
token_mac h master body = take mac_len (h.hmac_sha256 master (token_text body))

-- `Token`
unfoldable pub token : Hashes → Base64 → Bytes → Bytes → ℕ → Bytes
token h b64 master sid exp =
    let buf = sid ++ put_uint64 exp in b64.encode (buf ++ token_mac h master buf)

-- Session id and expiry come with the error of an expired token.
pub data TokenCheck : Type 0 where
  valid : Bytes → ℕ → TokenCheck
  expired : Bytes → ℕ → TokenCheck
  malformed : TokenCheck
  mac_mismatch : TokenCheck

-- The seconds from the first of January of the year 1 to the Unix epoch.
abbrev pub unix_to_internal : ℕ
unix_to_internal = 62135596800

-- `now.After(time.Unix(int64(exp), 0))`: a Time counts its seconds from the year 1 in an int64, whose
-- sum wraps; a pattern of 2^63 and more is a time before the year 1.
unfoldable pub is_after : ℕ → ℕ → Bool
is_after now exp =
    let internal = (exp + unix_to_internal) % 2 ^ 64 in
    let at = now / second + unix_to_internal in
    leb (2 ^ 63) internal || ltb internal at || internal == at && ltb 0 (now % second)

unfoldable pub check_token : Hashes → Bytes → ℕ → Bytes → TokenCheck
check_token h master now b =
    if not (length b == session_id_len + 8 + mac_len)
    then malformed
    else if not
        (bytes_eq (token_mac h master (take (session_id_len + 8) b)) (drop (session_id_len + 8) b))
    then mac_mismatch
    else let sid = take session_id_len b in
      let exp = uint64_at b session_id_len in
      if is_after now exp then expired sid exp else valid sid exp

-- `VerifyToken`
unfoldable pub verify_token : Hashes → Base64 → Bytes → Bytes → ℕ → TokenCheck
verify_token h b64 master tok now = elim (b64.decode tok) [
  | none ↦ malformed
  | some b ↦ check_token h master now b
]

-- `Cookie`, for the bytes of the unmapped address.
unfoldable pub cookie : Hashes → Bytes → Bytes → Bytes → ℕ → Bytes
cookie h master sid ip exp = take cookie_len (h.hmac_sha256 master (cookie_text sid ip exp))

-- `VerifyCookie`
unfoldable pub verify_cookie : Hashes → Bytes → Bytes → Bytes → ℕ → Bytes → Bool
verify_cookie h master sid ip exp got =
    length got == cookie_len && bytes_eq got (cookie h master sid ip exp)
