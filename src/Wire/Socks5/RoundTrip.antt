-- ===== src/Wire/Socks5/RoundTrip.antt =====
-- internal/socks5/socks5.go: the server's parsers on what the client builds.
use censor_pulse_cli.Common.{
  Bool-cases, Bytes, List, Option, [], ap, append-nil, append_assoc, arith, be_value,
  be_value-put_uint16, byte_at, byte_at-concat, concat, dec_lt, get_or-take, inl, inr, length,
  length-append, length-concat, length-take, le→ltb, ltb, lt→ltb, none, not, put_uint16, refl,
  slice, slice-concat, some, subst, sym, take, take-append_length, true, uint16_at, ℕ, ◌%◌, ◌++◌,
  ◌+◌, ◌-◌, ◌<◌, ◌==◌, ◌||◌, ◌∙◌, ◌∷◌, ◌≡◌, ◌≤◌,
}
use censor_pulse_cli.Wire.Socks5.{
  greeting, greeting_methods, is_greeting, parse_user_pass, user_pass, address_len, atyp_domain,
  cmd_connect, read_address, version, connect, parse_request, Request,
}

-- The server recognises a greeting with one to four methods, whatever follows it, and reads the
-- methods that it offers.
pub greeting_methods-greeting :
    (methods rest : Bytes)
    → 1 ≤ length methods
    → length methods ≤ 4
    → (is_greeting (greeting methods ++ rest) ≡ true)
      × (greeting_methods (greeting methods ++ rest) ≡ methods)
unfolding is_greeting greeting greeting_methods
greeting_methods-greeting methods rest lo hi = (
  ground (arith, length-append methods rest, small),
  rw small (take-append_length methods rest (2 + length methods - 2) (omega arith)),
)
  where
    small : length methods % 256 ≡ length methods
    small = omega arith

module _ (user pass rest : Bytes) (hu : length user < 256) (hp : length pass < 256) where
  abbrev segments : List Bytes
  segments = (1 ∷ length user % 256 ∷ []) ∷ user ∷ (length pass % 256 ∷ []) ∷ pass ∷ rest ∷ []

  abbrev b : Bytes
  b = concat segments

  user_len : byte_at b 1 ≡ length user
  user_len = omega arith

  pass_len : byte_at b (2 + byte_at b 1) ≡ length pass
  pass_len = byte_at-concat 2 segments (2 + byte_at b 1) 0 (omega arith) (omega arith) ∙ omega arith

  read_user : slice b 2 (2 + byte_at b 1) ≡ user
  read_user = slice-concat 1 segments 2 (2 + byte_at b 1) (omega arith) (omega arith)

  read_pass : slice b (3 + byte_at b 1) (3 + byte_at b 1 + byte_at b (2 + byte_at b 1)) ≡ pass
  read_pass =
      slice-concat 3 segments (3 + byte_at b 1) (3 + byte_at b 1 + byte_at b (2 + byte_at b 1))
        (omega arith) (omega (arith, pass_len))

  size : length b ≡ 3 + length user + length pass + length rest
  size = omega (arith, length-concat segments)

  parse-segments : parse_user_pass b ≡ some (user, pass)
  unfolding parse_user_pass
  parse-segments = ground (arith, size, user_len, pass_len, read_user, read_pass)

  user_pass-segments : user_pass user pass ++ rest ≡ b
  unfolding user_pass
  user_pass-segments = simp (append_assoc, append-nil) refl

-- The server reads the credentials that the client packed, whatever follows them.
pub parse_user_pass-user_pass :
    (user pass rest : Bytes)
    → length user < 256
    → length pass < 256
    → parse_user_pass (user_pass user pass ++ rest) ≡ some (user, pass)
parse_user_pass-user_pass user pass rest hu hp =
    ap parse_user_pass (user_pass-segments user pass rest hu hp)
    ∙ parse-segments user pass rest hu hp

module _ (name rest : Bytes) (p : ℕ) (hn : length name < 256) (hp : p < 65536) where
  abbrev connect_segments : List Bytes
  connect_segments =
      (version ∷ cmd_connect ∷ 0 ∷ atyp_domain ∷ length name % 256 ∷ [])
      ∷ name
      ∷ put_uint16 p
      ∷ rest
      ∷ []

  abbrev packet : Bytes
  packet = concat connect_segments

  whole_size : length packet ≡ 7 + length name + length rest
  whole_size = omega (arith, length-concat connect_segments)

  name_len : byte_at packet 4 ≡ length name
  name_len = omega arith

  read_name : slice packet 5 (5 + byte_at packet 4) ≡ name
  read_name = slice-concat 1 connect_segments 5 (5 + byte_at packet 4) (omega arith) (omega arith)

  read_port : uint16_at packet (4 + (1 + byte_at packet 4)) ≡ p
  read_port =
      ap be_value (
        slice-concat 2 connect_segments (4 + (1 + byte_at packet 4))
          (4 + (1 + byte_at packet 4) + 2) (omega arith) (omega arith))
      ∙ be_value-put_uint16 p hp

  address_len-connect : address_len packet ≡ some (1 + byte_at packet 4)
  unfolding address_len
  address_len-connect = refl

  read_address-connect :
      read_address packet (some (1 + byte_at packet 4))
      ≡ some (record { cmd = 1; host = name; port = p; len = 7 + length name })
  unfolding read_address
  read_address-connect =
      rw
        (le→ltb (length packet) (4 + (1 + byte_at packet 4) + 2)
          (omega (arith, whole_size, name_len)))
        (λ i. some (record { cmd = 1; host = read_name i; port = read_port i; len = read_len i }))
    where
      read_len : 4 + (1 + byte_at packet 4) + 2 ≡ 7 + length name
      read_len = omega (arith, name_len)

  parse-packet :
      parse_request packet ≡ some (record { cmd = 1; host = name; port = p; len = 7 + length name })
  unfolding parse_request
  parse-packet =
      rw (le→ltb (length packet) (7) (omega (arith, whole_size)), address_len-connect)
        read_address-connect

  connect-packet : connect name p ++ rest ≡ packet
  unfolding connect
  connect-packet = simp (append_assoc, append-nil) refl

-- The server reads the CONNECT request that the client packed for a name and a port: it takes
-- exactly its bytes, whatever follows them.
pub parse_request-connect :
    (name rest : Bytes) (p : ℕ)
    → length name < 256
    → p < 65536
    → parse_request (connect name p ++ rest)
      ≡ some (record { cmd = cmd_connect; host = name; port = p; len = length (connect name p) })
unfolding connect
parse_request-connect name rest p hn hp =
    ap parse_request (connect-packet name rest p hn hp)
    ∙ parse-packet name rest p hn hp
    ∙ ap (λ (l : ℕ). some (record { cmd = 1; host = name; port = p; len = l }))
        (omega (arith, length-append name (put_uint16 p ++ [])))

module _ (name : Bytes) (p : ℕ) (hn : length name < 256) (hp : p < 65536) where
  abbrev whole : Bytes
  whole = packet name [] p hn hp

  whole_refused : (n : ℕ) → n < 7 + length name → parse_request (take n whole) ≡ none
  unfolding parse_request address_len read_address
  whole_refused n h = elim (dec_lt n 7) [
    | yes short ↦ ground (arith, length-take n whole)
    | no long ↦ ground (
      arith,
      length-take n whole,
      get_or-take n 3 whole 0 (omega arith),
      get_or-take n 4 whole 0 (omega arith),
      name_len name [] p hn hp,
    )
  ]

-- Of a CONNECT request that the client packed, no proper part is taken for a request: the server
-- waits for the rest.
pub parse_request-take :
    (name : Bytes) (p n : ℕ)
    → length name < 256
    → p < 65536
    → n < length (connect name p)
    → parse_request (take n (connect name p)) ≡ none
parse_request-take name p n hn hp h =
    ap (λ (t : Bytes). parse_request (take n t)) whole-connect
    ∙ whole_refused name p hn hp n
        (omega (arith, h, ap length whole-connect, whole_size name [] p hn hp))
  where
    whole-connect : connect name p ≡ packet name [] p hn hp
    whole-connect = sym (append-nil (connect name p)) ∙ connect-packet name [] p hn hp

request_end : Option Request → ℕ
request_end none = 0
request_end (some r) = r.len

read_address_bound :
    (packet : Bytes) (o : Option ℕ) → request_end (read_address packet o) ≤ length packet
unfolding read_address request_end
read_address_bound packet none = omega arith
read_address_bound packet (some n) = elim (dec_lt (length packet) (4 + n + 2)) [
  | yes short ↦ rw (lt→ltb (length packet) (4 + n + 2) short) (omega arith)
  | no long ↦ rw (le→ltb (length packet) (4 + n + 2) (omega arith)) (omega arith)
]

-- Whatever the bytes, the request that `ParseRequest` reads ends within them.
pub parse_request_bound :
    (packet : Bytes) (r : Request) → parse_request packet ≡ some r → r.len ≤ length packet
unfolding parse_request request_end
parse_request_bound packet r e =
    subst (λ (o : Option Request). request_end o ≤ length packet) e
      (elim (Bool-cases (
        ltb (length packet) 7
        || not (byte_at packet 0 == version)
        || not (byte_at packet 2 == 0))) [
          | inl t ↦ rw t (omega arith)
          | inr t ↦ rw t (read_address_bound packet (address_len packet))
        ])
