-- ===== src/Proto/Hashes.antt =====
-- crypto/hmac and crypto/sha256 as internal/proto uses them: two functions with outputs of 32 bytes.
-- envelope.go cuts the HMAC to 16 bytes.
use censor_pulse_cli.Common.{ℕ, ◌≡◌, Bytes, length, take, length-take, arith}

pub record Hashes : Type 0 where
  pub hmac_sha256 : Bytes → Bytes → Bytes
  pub sha256 : Bytes → Bytes
  pub length-hmac_sha256 : (key text : Bytes) → length (hmac_sha256 key text) ≡ 32
  pub length-sha256 : (text : Bytes) → length (sha256 text) ≡ 32

abbrev pub mac_len : ℕ
mac_len = 16

-- `mac`
unfoldable pub mac : Hashes → Bytes → Bytes → Bytes
mac h key text = take mac_len (h.hmac_sha256 key text)

pub length-mac : (h : Hashes) (key text : Bytes) → length (mac h key text) ≡ 16
unfolding mac
length-mac h key text =
    omega (arith, length-take 16 (h.hmac_sha256 key text), h.length-hmac_sha256 key text)
