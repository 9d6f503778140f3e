-- ===== src/Auth/Validate/Usernames.antt =====
-- What a valid user name is.
use platform_service.Common.{
  ℕ, zero, suc, ◌-◌, ◌≤◌, ◌≡◌, refl, sym, ap, ◌≢◌, ◌↔◌, inl, inr, Bool, true, false, ◌&&◌, [], ◌∷◌,
  arith, Bytes, ltb, ltb→lt, Bool-cases, length, take,
}
use platform_service.Http.Request.Lines.{lower}
use platform_service.Auth.Validate.{
  UsernameVerdict, reserved_usernames, lowered, normalized, all_chars, starts_alnum, listed,
  username_verdict, username_validate,
}

-- The rule for user names: 3 to 32 characters, lower case letters, digits, '_' and '-', a letter or
-- digit first, and if asked for none of the reserved names.
pub record IsUsername (check_reserved : Bool) (name : Bytes) : Type 0 where
  pub long : 3 ≤ length name
  pub short : length name ≤ 32
  pub chars : all_chars name ≡ true
  pub first : starts_alnum name ≡ true
  pub free : (check_reserved && listed name reserved_usernames) ≡ false

pub length-lowered : (xs : Bytes) → length (lowered xs) ≡ length xs
unfolding lowered
length-lowered [] = refl
length-lowered (c ∷ cs) = omega (arith, length-lowered cs)

pub take_whole : (n : ℕ) (xs : Bytes) → length xs ≤ n → take n xs ≡ xs
take_whole zero [] h = refl
take_whole zero (x ∷ xs) h = absurd (omega arith)
take_whole (suc n) [] h = refl
take_whole (suc n) (x ∷ xs) h = ap (λ (t : Bytes). x ∷ t) (take_whole n xs (omega arith))

verdict_valid :
    (raw out : Bytes) (check_reserved : Bool)
    → length raw ≡ length out
    → (username_verdict raw out check_reserved ≡ UsernameVerdict.valid)
      ↔ IsUsername check_reserved out
unfolding username_verdict
verdict_valid raw out check_reserved same = (
  λ h. record {
    long = ground arith;
    short = ground arith;
    chars = ground arith;
    first = ground arith;
    free = ground arith;
  },
  λ u. ground (arith, u.long, u.short, u.chars, u.first, u.free),
)

long_invalid :
    (raw out : Bytes) (check_reserved : Bool)
    → ltb 32 (length raw) ≡ true
    → username_verdict raw out check_reserved ≢ UsernameVerdict.valid
unfolding username_verdict
long_invalid raw out check_reserved long h = ground arith

-- With room for 32 bytes and the NUL, a name is valid exactly if its lower-case form follows the rule.
pub username_validate_iff :
    (raw : Bytes) (size : ℕ) (check_reserved : Bool)
    → 33 ≤ size
    → ((username_validate raw size check_reserved).1 ≡ UsernameVerdict.valid)
      ↔ IsUsername check_reserved (lowered raw)
unfolding username_validate username_verdict
username_validate_iff raw size check_reserved room = elim (Bool-cases (ltb 32 (length raw))) [
  | inl long ↦ (
    λ h. absurd (long_invalid raw (normalized raw size) check_reserved long h),
    λ u. absurd (omega (arith, u.short, length-lowered raw, ltb→lt 32 (length raw) long)),
  )
  | inr fits ↦
      let whole = take_whole (size - 1) raw (ground arith) in
      rw (whole) (verdict_valid raw (lowered raw) check_reserved (sym (length-lowered raw)))
]

lower-lower : (c : ℕ) → lower (lower c) ≡ lower c
lower-lower c = ground arith

lowered-lowered : (xs : Bytes) → lowered (lowered xs) ≡ lowered xs
unfolding lowered
lowered-lowered [] = refl
lowered-lowered (c ∷ cs) = rw (lower-lower c, lowered-lowered cs) refl
