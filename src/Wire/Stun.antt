-- ===== src/Wire/Stun.antt =====
-- internal/stun/stun.go: the Binding Request. The random transaction id is an argument.
use censor_pulse_cli.Common.{
  Bool, Bytes, [], ap, append-nil, arith, concat, if◌then◌else◌, leb, length, le→leb, put_uint16,
  put_uint32, replicate, slice, sym, take, take-append_length, true, uint16_at, uint32_at, ℕ, ◌&&◌,
  ◌++◌, ◌+◌, ◌==◌, ◌∙◌, ◌∷◌, ◌≡◌,
}

abbrev pub magic_cookie : ℕ
magic_cookie = 554869826

-- `BindingRequest`
unfoldable pub binding_request : Bytes → Bytes
binding_request tx = concat (put_uint16 1 ∷ (0 ∷ 0 ∷ []) ∷ put_uint32 magic_cookie ∷ tx ∷ [])

-- `IsBindingRequest`
unfoldable pub is_binding_request : Bytes → Bool
is_binding_request b =
    leb 20 (length b)
    && uint16_at b 0 == 1
    && uint32_at b 4 == magic_cookie
    && uint16_at b 2 + 20 == length b

-- `TransactionID`
unfoldable pub transaction_id : Bytes → Bytes
transaction_id b = if leb 20 (length b) then slice b 8 20 else replicate 12 0

-- The server recognises the request of a client, with any transaction id, and reads the id.
pub transaction_id-binding_request :
    (tx : Bytes)
    → length tx ≡ 12
    → (is_binding_request (binding_request tx) ≡ true) × (transaction_id (binding_request tx) ≡ tx)
unfolding is_binding_request binding_request transaction_id
transaction_id-binding_request tx h = (
  ground (arith, h, append-nil tx),
  rw (append-nil tx, le→leb 20 (length (replicate 8 0 ++ tx)) (omega (arith, h)))
      (take_whole 12 tx h),
)
  where
    take_whole : (n : ℕ) (b : Bytes) → length b ≡ n → take n b ≡ b
    take_whole n b e =
        ap (take n) (sym (append-nil b)) ∙ take-append_length b [] n (omega (arith, e))
