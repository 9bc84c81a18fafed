-- ===== src/Wire/Vless/RoundTrip.antt =====
-- internal/vless/vless.go: the server's parser on what the client builds.
use censor_pulse_cli.Common.{
  Bytes, List, [], ap, append-nil, append_assoc, arith, be_value, be_value-put_uint16, byte_at,
  byte_at-concat, concat, length, length-append, length-concat, le→ltb, put_uint16, refl, slice,
  slice-concat, some, sym, uint16_at, ℕ, ◌%◌, ◌++◌, ◌+◌, ◌<◌, ◌∙◌, ◌∷◌, ◌≡◌,
}
use censor_pulse_cli.Wire.Vless.{request, parse, cmd_tcp, parse_address, parse_command}

module _ (uuid name rest : Bytes) (p : ℕ) (hu : length uuid ≡ 16) (hn : length name < 256)
    (hp : p < 65536) where
  abbrev segments : List Bytes
  segments =
      (0 ∷ [])
      ∷ uuid
      ∷ (0 ∷ 1 ∷ [])
      ∷ put_uint16 p
      ∷ (2 ∷ length name % 256 ∷ [])
      ∷ name
      ∷ rest
      ∷ []

  abbrev packet : Bytes
  packet = concat segments

  whole_size : length packet ≡ 23 + length name + length rest
  whole_size = omega (arith, length-concat segments)

  read_addons : byte_at packet 17 ≡ 0
  read_addons = byte_at-concat 2 segments 17 0 (omega (arith, hu)) (omega arith)

  read_cmd : byte_at packet 18 ≡ 1
  read_cmd = byte_at-concat 2 segments 18 1 (omega (arith, hu)) (omega arith)

  read_type : byte_at packet 21 ≡ 2
  read_type = byte_at-concat 4 segments 21 0 (omega (arith, hu)) (omega arith)

  name_len : byte_at packet 22 ≡ length name
  name_len = byte_at-concat 4 segments 22 1 (omega (arith, hu)) (omega arith) ∙ omega arith

  read_name : slice packet 23 (23 + byte_at packet 22) ≡ name
  read_name =
      slice-concat 5 segments 23 (23 + byte_at packet 22) (omega (arith, hu))
        (omega (arith, name_len))

  read_port : uint16_at packet 19 ≡ p
  read_port =
      ap be_value (slice-concat 3 segments 19 21 (omega (arith, hu)) (omega arith))
      ∙ be_value-put_uint16 p hp

  parse_address-request : parse_address packet 2 22 ≡ some (name, 23 + length name)
  unfolding parse_address
  parse_address-request =
      rw
        (
          le→ltb (length packet) 23 (omega (arith, whole_size)),
          le→ltb (length packet) (23 + byte_at packet 22) (omega (arith, whole_size, name_len)),
          read_name,
          name_len,
        )
        refl

  parse_command-request :
      parse_command packet 18
      ≡ some (record { cmd = 1; host = name; port = p; len = 23 + length name })
  unfolding parse_command
  parse_command-request =
      rw
        (
          le→ltb (length packet) 22 (omega (arith, whole_size)),
          read_cmd,
          read_type,
          read_port,
          parse_address-request,
        )
        refl

  parse-packet :
      parse packet ≡ some (record { cmd = 1; host = name; port = p; len = 23 + length name })
  unfolding parse
  parse-packet =
      rw (le→ltb (length packet) 22 (omega (arith, whole_size)), read_addons) parse_command-request

  request-packet : request uuid name p ++ rest ≡ packet
  unfolding request
  request-packet = simp (append_assoc, append-nil) refl

  length-request : length (request uuid name p) ≡ 23 + length name
  length-request =
      omega (arith, whole_size, ap length request-packet, length-append (request uuid name p) rest)

-- The server reads the header that the client built, with any UUID: the command, the name and the
-- port are those the client meant, and the header ends where the data that follows it begins.
pub parse-request :
    (uuid name rest : Bytes) (p : ℕ)
    → length uuid ≡ 16
    → length name < 256
    → p < 65536
    → parse (request uuid name p ++ rest)
      ≡ some (record { cmd = cmd_tcp; host = name; port = p; len = length (request uuid name p) })
parse-request uuid name rest p hu hn hp =
    ap parse (request-packet uuid name rest p hu hn hp)
    ∙ parse-packet uuid name rest p hu hn hp
    ∙ ap (λ (l : ℕ). some (record { cmd = 1; host = name; port = p; len = l }))
        (sym (length-request uuid name rest p hu hn hp))
