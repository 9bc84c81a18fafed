-- ===== src/Wire/Ike/Laws.antt =====
-- internal/ike/ike.go: the NAT-T marker, ESP in UDP, and the length in the header.
use censor_pulse_cli.Common.{
  Bytes, [], arith, be_value-put_uint32, dec_lt, length, length-append, lt→ltb, refl, true, ℕ, ◌++◌,
  ◌<◌, ◌≡◌, ◌≤◌,
}
use censor_pulse_cli.Wire.Ike.{
  parse_header, add_natt, esp, esp_spi, is_esp_udp, looks, strip_natt, marker,
}

looks_long : (b : Bytes) → looks b ≡ true → 28 ≤ length b
unfolding looks parse_header
looks_long b h = elim (dec_lt (length b) 28) [
  | yes short ↦ absurd (ground (arith, rw (lt→ltb (length b) 28 short) at h))
  | no long ↦ omega arith
]

-- The marker that the client puts in front of an IKE message is taken off again.
pub strip_natt-add_natt : (b : Bytes) → looks b ≡ true → strip_natt (add_natt b) ≡ (b, true)
unfolding strip_natt add_natt
strip_natt-add_natt b h =
    rw (lt→ltb 4 (length (marker ++ b)) (omega (arith, looks_long b h)), h) refl

-- The server reads the SPI of an ESP datagram that the client packed, and takes the datagram for one
-- if the SPI is not zero and the payload has sixteen bytes or more.
pub esp_spi-esp :
    (spi seq : ℕ) (payload : Bytes)
    → 0 < spi
    → spi < 4294967296
    → 16 ≤ length payload
    → (esp_spi (esp spi seq payload) ≡ spi) × (is_esp_udp (esp spi seq payload) ≡ true)
unfolding esp_spi esp is_esp_udp
esp_spi-esp spi seq payload lo hi h = (
  be_value-put_uint32 spi hi,
  ground (arith, length-append payload [], be_value-put_uint32 spi hi),
)
