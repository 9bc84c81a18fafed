-- ===== src/Wire/L2tp/RoundTrip.antt =====
-- internal/l2tp/l2tp.go: `ParseControl` on what the builder writes.
use censor_pulse_cli.Common.{
  All, Bytes, List, [], ap, append-nil, append_assoc, arith, be_value-put_uint16, drop,
  drop-append_length, length, length-append, le→ltb, put_uint16, put_uint32, refl, slice, some, suc,
  sym, take-append_length, true, uint16_at, zero, ℕ, ◌%◌, ◌++◌, ◌+◌, ◌-◌, ◌<◌, ◌∙◌, ◌∷◌, ◌≡◌, ◌≤◌,
}
use censor_pulse_cli.Wire.L2tp.{
  Control, apply_avp, avp, avp_bytes, parse_avps, finish, is_control, new_control, parse_control,
  sccrq, u16, u32, censor_pulse, control_of, finished,
}

-- What the builder writes for a list of AVPs, and what the parser makes of the list.
abbrev pub add_avps : Bytes → List (ℕ × Bytes) → Bytes
add_avps out [] = out
add_avps out (a ∷ avps) = add_avps (avp a.0 a.1 out) avps

abbrev pub apply_avps : Control → List (ℕ × Bytes) → Control
apply_avps c [] = c
apply_avps c (a ∷ avps) = apply_avps (apply_avp c a.0 a.1) avps

abbrev pub IsAvp : ℕ × Bytes → Type 0
IsAvp a = (a.0 < 65536) × (length a.1 ≤ 1017)

abbrev all_bytes : List (ℕ × Bytes) → Bytes
all_bytes [] = []
all_bytes (a ∷ avps) = avp_bytes a.0 a.1 ++ all_bytes avps

add_avps-all_bytes :
    (out : Bytes) (avps : List (ℕ × Bytes)) → add_avps out avps ≡ out ++ all_bytes avps
unfolding avp
add_avps-all_bytes out [] = sym (append-nil out)
add_avps-all_bytes out (a ∷ avps) =
    add_avps-all_bytes (out ++ avp_bytes a.0 a.1) avps
    ∙ append_assoc out (avp_bytes a.0 a.1) (all_bytes avps)

module _ (typ : ℕ) (val rest : Bytes) (ht : typ < 65536) (hv : length val ≤ 1017) where
  abbrev p : Bytes
  p = avp_bytes typ val ++ rest

  size : length p ≡ 6 + length val + length rest
  unfolding avp_bytes
  size = omega (arith, length-append val rest)

  read_size : uint16_at p 0 % 1024 ≡ 6 + length val
  unfolding avp_bytes
  read_size = omega arith

  read_vendor : uint16_at p 2 ≡ 0
  unfolding avp_bytes
  read_vendor = refl

  read_type : uint16_at p 4 ≡ typ
  unfolding avp_bytes
  read_type = be_value-put_uint16 typ ht

  read_value : slice p 6 (6 + length val) ≡ val
  unfolding avp_bytes
  read_value = take-append_length val rest (6 + length val - 6) (omega arith)

  read_rest : drop (6 + length val) p ≡ rest
  unfolding avp_bytes
  read_rest = drop-append_length (avp_bytes typ val) rest (6 + length val) (omega arith)

  parse_step :
      (fuel : ℕ) (c : Control)
      → parse_avps (suc fuel) c p ≡ parse_avps fuel (apply_avp c typ val) rest
  unfolding parse_avps
  parse_step fuel c =
      rw
        (
          read_size,
          read_vendor,
          read_type,
          read_value,
          read_rest,
          le→ltb (length p) 6 (omega (arith, size)),
          le→ltb (6 + length val) 6 (omega arith),
          le→ltb (length p) (6 + length val) (omega (arith, size)),
        )
        refl

parse_avps-all_bytes :
    (avps : List (ℕ × Bytes)) (fuel : ℕ) (c : Control)
    → All IsAvp avps
    → length (all_bytes avps) ≤ fuel
    → parse_avps fuel c (all_bytes avps) ≡ finished (apply_avps c avps)
unfolding parse_avps
parse_avps-all_bytes [] zero c h k = refl
parse_avps-all_bytes [] (suc fuel) c h k = refl
parse_avps-all_bytes (a ∷ avps) zero c h k =
    absurd (omega (arith, size a.0 a.1 (all_bytes avps) h.0.0 h.0.1))
parse_avps-all_bytes (a ∷ avps) (suc fuel) c h k =
    parse_step a.0 a.1 (all_bytes avps) h.0.0 h.0.1 fuel c
    ∙ parse_avps-all_bytes avps fuel (apply_avp c a.0 a.1) h.1
        (omega (arith, size a.0 a.1 (all_bytes avps) h.0.0 h.0.1))

abbrev avps_size : List (ℕ × Bytes) → ℕ
avps_size [] = 0
avps_size (a ∷ avps) = 6 + length a.1 + avps_size avps

length-all_bytes :
    (avps : List (ℕ × Bytes)) → All IsAvp avps → length (all_bytes avps) ≡ avps_size avps
length-all_bytes [] h = refl
length-all_bytes (a ∷ avps) h =
    omega (arith, size a.0 a.1 (all_bytes avps) h.0.0 h.0.1, length-all_bytes avps h.1)

module _ (tunnel session ns nr : ℕ) (avps : List (ℕ × Bytes)) where
  abbrev message : Bytes
  message = finish (add_avps (new_control tunnel session ns nr) avps)

  -- The header with the length filled in.
  abbrev header : ℕ → Bytes
  header n =
      put_uint16 51202
      ++ (put_uint16 (n % 65536)
          ++ (put_uint16 tunnel ++ (put_uint16 session ++ (put_uint16 ns ++ put_uint16 nr))))

  message-header : message ≡ header (12 + length (all_bytes avps)) ++ all_bytes avps
  unfolding finish new_control
  message-header =
      ap finish (add_avps-all_bytes (new_control tunnel session ns nr) avps)
      ∙ ap (λ (n : ℕ). header n ++ all_bytes avps) size_of
    where
      size_of :
          length (new_control tunnel session ns nr ++ all_bytes avps) ≡ 12 + length (all_bytes avps)
      size_of = omega arith

  module _ (small : 12 + length (all_bytes avps) < 65536) (v : All IsAvp avps) (ht : tunnel < 65536)
      (hs : session < 65536) (hn : ns < 65536) (hr : nr < 65536) where
    abbrev m : Bytes
    m = header (12 + length (all_bytes avps)) ++ all_bytes avps

    shape : is_control m ≡ true
    unfolding is_control
    shape = ground arith

    parse-message :
        parse_control m
        ≡ some (
            apply_avps
              (record {
                tunnel_id = tunnel;
                session_id = session;
                ns = ns;
                nr = nr;
                message_type = 0;
                assigned_tunnel = 0;
                assigned_session = 0;
                host_name = [];
              })
              avps)
    unfolding parse_control
    parse-message = rw shape (
        ap control_of (parse_avps-all_bytes avps (length m) _ v (omega arith))
        ∙ ap (λ (c : Control). some (apply_avps c avps))
            (λ i. record {
              tunnel_id = be_value-put_uint16 tunnel ht i;
              session_id = be_value-put_uint16 session hs i;
              ns = be_value-put_uint16 ns hn i;
              nr = be_value-put_uint16 nr hr i;
              message_type = 0;
              assigned_tunnel = 0;
              assigned_session = 0;
              host_name = [];
            }))

-- `ParseControl` reads back every control message that the builder finishes: the four fields of the
-- header, and of the AVPs what its switch makes of them in the order in which they were added, if each
-- AVP fits its ten-bit length and the message its 16-bit length.
pub parse_control-finish :
    (tunnel session ns nr : ℕ) (avps : List (ℕ × Bytes))
    → tunnel < 65536
    → session < 65536
    → ns < 65536
    → nr < 65536
    → All IsAvp avps
    → length (finish (add_avps (new_control tunnel session ns nr) avps)) < 65536
    → parse_control (finish (add_avps (new_control tunnel session ns nr) avps))
      ≡ some (
          apply_avps
            (record {
              tunnel_id = tunnel;
              session_id = session;
              ns = ns;
              nr = nr;
              message_type = 0;
              assigned_tunnel = 0;
              assigned_session = 0;
              host_name = [];
            })
            avps)
parse_control-finish tunnel session ns nr avps ht hs hn hr v h =
    ap parse_control (message-header tunnel session ns nr avps)
    ∙ parse-message tunnel session ns nr avps small v ht hs hn hr
  where
    small : 12 + length (all_bytes avps) < 65536
    small = omega (arith, h, ap length (message-header tunnel session ns nr avps))

module _ (assigned : ℕ) (host : Bytes) (ha : assigned < 65536) (hh : length host ≤ 1017) where
  abbrev sccrq_avps : List (ℕ × Bytes)
  sccrq_avps =
      (0, put_uint16 1)
      ∷ (2, put_uint16 256)
      ∷ (7, host)
      ∷ (3, put_uint32 3)
      ∷ (9, put_uint16 assigned)
      ∷ (10, put_uint16 4)
      ∷ (8, censor_pulse)
      ∷ []

  sccrq_avps-IsAvp : All IsAvp sccrq_avps
  sccrq_avps-IsAvp = ground (arith, hh)

  parse_sccrq :
      parse_control (finish (add_avps (new_control 0 0 0 0) sccrq_avps))
      ≡ some (record {
        tunnel_id = 0;
        session_id = 0;
        ns = 0;
        nr = 0;
        message_type = 1;
        assigned_tunnel = assigned;
        assigned_session = 0;
        host_name = host;
      })
  unfolding apply_avp
  parse_sccrq =
      ap parse_control (message-header 0 0 0 0 sccrq_avps)
      ∙ parse-message 0 0 0 0 sccrq_avps
          (omega (arith, length-all_bytes sccrq_avps sccrq_avps-IsAvp)) sccrq_avps-IsAvp
          (omega arith) (omega arith) (omega arith) (omega arith)
      ∙ (λ i. some (record {
        tunnel_id = 0;
        session_id = 0;
        ns = 0;
        nr = 0;
        message_type = 1;
        assigned_tunnel = be_value-put_uint16 assigned ha i;
        assigned_session = 0;
        host_name = host;
      }))

-- The server reads the message type, the tunnel and the host name of a connection request, if the
-- name is no longer than an AVP can be.
pub parse_control-sccrq :
    (assigned : ℕ) (host : Bytes)
    → assigned < 65536
    → length host ≤ 1017
    → parse_control (sccrq assigned host)
      ≡ some (record {
        tunnel_id = 0;
        session_id = 0;
        ns = 0;
        nr = 0;
        message_type = 1;
        assigned_tunnel = assigned;
        assigned_session = 0;
        host_name = host;
      })
unfolding sccrq u16 u32
parse_control-sccrq assigned host ha hh = parse_sccrq assigned host ha hh
