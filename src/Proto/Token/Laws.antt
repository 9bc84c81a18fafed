-- ===== src/Proto/Token/Laws.antt =====
-- internal/proto/token.go: tokens round trip, and the text of a cookie binds what it is for.
use censor_pulse_cli.Common.{
  Bool, Bytes, Option-cases, ap, append_assoc, arith, be_value, be_value-put_uint64, bytes_eq_refl,
  bytes_eq→eq, drop, drop-append_length, if◌then◌else◌, inl, inr, leb, length, length-append,
  length-take, ltb, put_uint64, refl, some, sym, take, take-append_length, uint64_at, ℕ, ◌*◌, ◌++◌,
  ◌-◌, ◌<◌, ◌^◌, ◌||◌, ◌∙◌, ◌≡◌, ◌≤◌,
}
use censor_pulse_cli.Proto.Hashes.{Hashes}
use censor_pulse_cli.Proto.Token.{
  Base64, check_token, expired, is_after, second, token, token_mac, token_text, valid, verify_token,
  cookie_label, cookie_text, unix_to_internal,
}

length-token_mac : (h : Hashes) (master body : Bytes) → length (token_mac h master body) ≡ 16
length-token_mac h master body = omega (
  arith,
  length-take 16 (h.hmac_sha256 master (token_text body)),
  h.length-hmac_sha256 master (token_text body),
)

module _ (h : Hashes) (master sid : Bytes) (exp : ℕ) (hs : length sid ≡ 16)
    (he : exp < 2 ^ 64) where
  abbrev body : Bytes
  body = sid ++ put_uint64 exp

  abbrev m : Bytes
  m = token_mac h master body

  length-body : length body ≡ 24
  length-body = omega (arith, length-append sid (put_uint64 exp), hs)

  sized : length (body ++ m) ≡ 40
  sized = omega (arith, length-append body m, length-body, length-token_mac h master body)

  front : take 24 (body ++ m) ≡ body
  front = take-append_length body m 24 (sym length-body)

  back : drop 24 (body ++ m) ≡ m
  back = drop-append_length body m 24 (sym length-body)

  read_sid : take 16 (body ++ m) ≡ sid
  read_sid =
      ap (take 16) (append_assoc sid (put_uint64 exp) m)
      ∙ take-append_length sid (put_uint64 exp ++ m) 16 (sym hs)

  read_exp : uint64_at (body ++ m) 16 ≡ exp
  read_exp =
      ap (λ (t : Bytes). be_value (take 8 t))
        (ap (drop 16) (append_assoc sid (put_uint64 exp) m)
          ∙ drop-append_length sid (put_uint64 exp ++ m) 16 (sym hs))
      ∙ be_value-put_uint64 exp (omega arith)

  check_token-made :
      (now : ℕ)
      → check_token h master now (body ++ m)
        ≡ (if is_after now exp then expired sid exp else valid sid exp)
  unfolding check_token
  check_token-made now = rw (sized, front, back, bytes_eq_refl m, read_sid, read_exp) refl

  is_after-lt :
      (now : ℕ) → is_after now exp ≡ (leb (2 ^ 63 - unix_to_internal) exp || ltb (exp * second) now)
  unfolding is_after
  is_after-lt now = ground arith

pub verify_token-token :
    (h : Hashes) (b64 : Base64) (master sid : Bytes) (exp now : ℕ)
    → length sid ≡ 16
    → exp < 2 ^ 64
    → verify_token h b64 master (token h b64 master sid exp) now ≡ (
        if leb (2 ^ 63 - unix_to_internal) exp || ltb (exp * second) now
        then expired sid exp
        else valid sid exp)
unfolding verify_token token
verify_token-token h b64 master sid exp now hs he =
    rw
      (
        b64.decode-encode ((sid ++ put_uint64 exp) ++ token_mac h master (sid ++ put_uint64 exp)),
        verify_token,
      )
      (check_token-made h master sid exp hs he now
        ∙ ap (λ (t : Bool). if t then expired sid exp else valid sid exp)
            (is_after-lt h master sid exp hs he now))

-- What a token that passes was checked for.
pub record Checked (h : Hashes) (master : Bytes) (now : ℕ) (b sid : Bytes) (exp : ℕ) : Type 0 where
  pub sized : length b ≡ 40
  pub sealed : drop 24 b ≡ token_mac h master (take 24 b)
  pub same_sid : sid ≡ take 16 b
  pub same_exp : exp ≡ uint64_at b 16
  pub in_time : now ≤ exp * second

check_token-Checked :
    (h : Hashes) (master b sid : Bytes) (now exp : ℕ)
    → check_token h master now b ≡ valid sid exp
    → Checked h master now b sid exp
unfolding check_token is_after
check_token-Checked h master b sid now exp e =
    ground (arith, bytes_eq→eq (token_mac h master (take 24 b)) (drop 24 b))

-- A token that `VerifyToken` accepts decodes to 40 bytes whose last 16 are the MAC of the others
-- under the master key; session id and expiry are read from those, and the expiry has not passed.
pub verify_token-Checked :
    (h : Hashes) (b64 : Base64) (master tok sid : Bytes) (now exp : ℕ)
    → verify_token h b64 master tok now ≡ valid sid exp
    → (b : Bytes) × (b64.decode tok ≡ some b) × Checked h master now b sid exp
unfolding verify_token
verify_token-Checked h b64 master tok sid now exp e = elim (Option-cases (b64.decode tok)) [
  | inl q ↦ absurd (cc (rw (q, verify_token) at e))
  | inr (b, q) ↦ (b, q, check_token-Checked h master b sid now exp (rw (q, verify_token) at e))
]

pub append-cancel :
    (xs ys xs' ys' : Bytes)
    → length xs ≡ length xs'
    → xs ++ ys ≡ xs' ++ ys'
    → (xs ≡ xs') × (ys ≡ ys')
append-cancel xs ys xs' ys' h e = (
  sym (take-append_length xs ys (length xs) refl)
      ∙ ap (take (length xs)) e
      ∙ take-append_length xs' ys' (length xs) h,
  sym (drop-append_length xs ys (length xs) refl)
      ∙ ap (drop (length xs)) e
      ∙ drop-append_length xs' ys' (length xs) h,
)

-- A cookie is made over a text that determines what it binds: two cookie texts that are equal are for
-- one session id, one address and one expiry, though the address is 4 or 16 bytes long.
pub cookie_text-injective :
    (sid sid' ip ip' : Bytes) (exp exp' : ℕ)
    → length sid ≡ 16
    → length sid' ≡ 16
    → exp < 2 ^ 64
    → exp' < 2 ^ 64
    → cookie_text sid ip exp ≡ cookie_text sid' ip' exp'
    → (sid ≡ sid') × (ip ≡ ip') × (exp ≡ exp')
unfolding cookie_text
cookie_text-injective sid sid' ip ip' exp exp' hs hs' he he' e = (
  outer.0,
  inner.0,
  sym (be_value-put_uint64 exp he) ∙ ap be_value inner.1 ∙ be_value-put_uint64 exp' he',
)
  where
    outer : (sid ≡ sid') × (ip ++ put_uint64 exp ≡ ip' ++ put_uint64 exp')
    outer =
        append-cancel sid (ip ++ put_uint64 exp) sid' (ip' ++ put_uint64 exp') (hs ∙ sym hs')
          (append-cancel cookie_label _ cookie_label _ refl e).1

    same_length : length ip ≡ length ip'
    same_length = omega (
      arith,
      ap length outer.1,
      length-append ip (put_uint64 exp),
      length-append ip' (put_uint64 exp'),
    )

    inner : (ip ≡ ip') × (put_uint64 exp ≡ put_uint64 exp')
    inner = append-cancel ip (put_uint64 exp) ip' (put_uint64 exp') same_length outer.1
