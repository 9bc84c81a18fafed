-- ===== src/Proto/Request/Streaming.antt =====
-- internal/proto/envelope.go: `RequestLen` on a growing prefix of a stream.
use censor_pulse_cli.Common.{
  Bytes, ap, arith, be_value, dec_lt, get_or-take, if◌then◌else◌, inl, inr, length, length-take,
  ltb, min, refl, slice-take, take, uint16_at, ℕ, ◌+◌, ◌<◌, ◌∙◌, ◌≡◌, ◌≤◌, ◌⊎◌,
}
use censor_pulse_cli.Proto.Request.{length_offset, request_len}

module _ (n : ℕ) (b : Bytes) where
  length_offset-take : 22 < n → length_offset (take n b) ≡ length_offset b
  length_offset-take h = rw (get_or-take n 5 b 0 (omega arith), get_or-take n 22 b 0 h) refl

  length_offset-ge : 39 ≤ length_offset b
  length_offset-ge = ground arith

  uint16_at-take : (i : ℕ) → i + 2 ≤ n → uint16_at (take n b) i ≡ uint16_at b i
  uint16_at-take i h = ap be_value (slice-take n i (i + 2) b (omega arith) h)

-- `RequestLen` on the length of the buffer, the offset of the payload length and its value.
len_cases : ℕ → ℕ → ℕ → ℕ × ℕ
len_cases size off pl =
    if ltb size 23
    then (0, 23)
    else if ltb size (off + 2)
    then (0, off + 2)
    else if ltb size (off + 2 + pl + 16)
    then (0, off + 2 + pl + 16)
    else (off + 2 + pl + 16, off + 2 + pl + 16)

len_cases_whole :
    (size off pl : ℕ)
    → 0 < (len_cases size off pl).0
    → ((len_cases size off pl).0 ≡ off + 2 + pl + 16) × (off + 2 + pl + 16 ≤ size)
unfolding len_cases
len_cases_whole size off pl h = ground arith

abbrev Short : ℕ → ℕ → ℕ × ℕ → Type 0
Short n total (t, need) = (t ≡ 0) × (n < need) × (need ≤ total)

len_cases_low : (n size off pl : ℕ) → n < 23 → len_cases (min n size) off pl ≡ (0, 23)
unfolding len_cases
len_cases_low n size off pl h = ground arith

len_cases-Short :
    (n size off pl pl' : ℕ)
    → 39 ≤ off
    → off + 2 + pl + 16 ≤ size
    → 22 < n
    → n < off + 2 + pl + 16
    → (n < off + 2) ⊎ (pl' ≡ pl)
    → Short n (off + 2 + pl + 16) (len_cases (min n size) off pl')
unfolding len_cases
len_cases-Short n size off pl pl' h w p q (inl l) = ground arith
len_cases-Short n size off pl pl' h w p q (inr e) = ground arith

len_cases_enough :
    (n size off pl : ℕ)
    → 39 ≤ off
    → off + 2 + pl + 16 ≤ size
    → off + 2 + pl + 16 ≤ n
    → len_cases (min n size) off pl ≡ (off + 2 + pl + 16, off + 2 + pl + 16)
unfolding len_cases
len_cases_enough n size off pl h w p = ground arith

len_cases_complete :
    (size off pl : ℕ)
    → 39 ≤ off
    → off + 2 + pl + 16 ≤ size
    → len_cases size off pl ≡ (off + 2 + pl + 16, off + 2 + pl + 16)
unfolding len_cases
len_cases_complete size off pl h w = ground arith

pl_at_take :
    (n : ℕ) (b : Bytes)
    → (n < length_offset b + 2)
      ⊎ (uint16_at (take n b) (length_offset b) ≡ uint16_at b (length_offset b))
pl_at_take n b = elim (dec_lt n (length_offset b + 2)) [
  | yes h ↦ inl h
  | no h ↦ inr (uint16_at-take n b (length_offset b) (omega arith))
]

request_len-cases :
    (b : Bytes)
    → request_len b ≡ len_cases (length b) (length_offset b) (uint16_at b (length_offset b))
unfolding request_len len_cases
request_len-cases b = refl

request_len-take_low : (n : ℕ) (b : Bytes) → n < 23 → request_len (take n b) ≡ (0, 23)
request_len-take_low n b h =
    request_len-cases (take n b)
    ∙ ap
        (λ (k : ℕ).
          len_cases k (length_offset (take n b)) (uint16_at (take n b) (length_offset (take n b))))
        (length-take n b)
    ∙ len_cases_low n (length b) _ _ h

request_len-take_high :
    (n : ℕ) (b : Bytes)
    → 22 < n
    → request_len (take n b)
      ≡ len_cases (min n (length b)) (length_offset b) (uint16_at (take n b) (length_offset b))
request_len-take_high n b h =
    request_len-cases (take n b)
    ∙ ap
        (λ (k : ℕ).
          len_cases k (length_offset (take n b)) (uint16_at (take n b) (length_offset (take n b))))
        (length-take n b)
    ∙ ap (λ (o : ℕ). len_cases (min n (length b)) o (uint16_at (take n b) o))
        (length_offset-take n b h)

-- The length of a whole envelope, where `RequestLen` knows it.
pub request_len-whole :
    (b : Bytes)
    → 0 < (request_len b).0
    → ((request_len b).0 ≡ length_offset b + 2 + uint16_at b (length_offset b) + 16)
      × ((request_len b).0 ≤ length b)
request_len-whole b h =
    let e = request_len-cases b in
    let w =
      len_cases_whole (length b) (length_offset b) (uint16_at b (length_offset b)) (rw e at h) in
    rw e (w.0, omega (arith, w.0, w.1))

-- On a stream `b` that starts with a whole envelope, a reader that has the first n bytes of it and
-- not yet all of the envelope is told by `RequestLen` that the length is unknown and how many bytes
-- it needs: more than it has, and never past the end of the envelope.
pub request_len-take_short :
    (n : ℕ) (b : Bytes)
    → n < (request_len b).0
    → ((request_len (take n b)).0 ≡ 0)
      × (n < (request_len (take n b)).1)
      × ((request_len (take n b)).1 ≤ (request_len b).0)
request_len-take_short n b h =
    let (whole, fits) = request_len-whole b (omega arith) in
    elim (dec_lt n 23) [
      | yes low ↦ rw (request_len-take_low n b low) (omega (arith, whole, length_offset-ge n b))
      | no high ↦
          rw (request_len-take_high n b (omega arith), whole)
            (len_cases-Short n (length b) (length_offset b) (uint16_at b (length_offset b)) _
              (length_offset-ge n b) (omega (arith, whole, fits)) (omega arith)
              (omega (arith, whole)) (pl_at_take n b))
    ]

-- With the whole envelope in the buffer, and however much of the stream behind it, `RequestLen`
-- answers the length of the envelope.
pub request_len-take_enough :
    (n : ℕ) (b : Bytes)
    → 0 < (request_len b).0
    → (request_len b).0 ≤ n
    → request_len (take n b) ≡ ((request_len b).0, (request_len b).0)
request_len-take_enough n b p h =
    let (whole, fits) = request_len-whole b p in
    rw
      (
        request_len-take_high n b (omega (arith, whole, length_offset-ge n b)),
        whole,
        uint16_at-take n b (length_offset b) (omega (arith, whole)),
      )
      (len_cases_enough n (length b) (length_offset b) (uint16_at b (length_offset b))
        (length_offset-ge n b) (omega (arith, whole, fits)) (omega (arith, whole)))

-- `RequestLen` on a buffer that holds the envelope.
pub request_len_complete :
    (b : Bytes) (total : ℕ)
    → total ≡ length_offset b + 2 + uint16_at b (length_offset b) + 16
    → total ≤ length b
    → request_len b ≡ (total, total)
request_len_complete b total e h =
    rw (request_len-cases b, e)
      (len_cases_complete (length b) (length_offset b) (uint16_at b (length_offset b))
        (length_offset-ge 0 b) (omega (arith, e, h)))
