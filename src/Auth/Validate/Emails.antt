-- ===== src/Auth/Validate/Emails.antt =====
-- What a valid e-mail address is.
use platform_service.Common.{
  ℕ, ◌-◌, ◌≤◌, ◌<◌, ◌≡◌, refl, ◌↔◌, inl, inr, true, false, ◌||◌, [], ◌∷◌, ◌++◌, arith, Bytes, ltb,
  ltb→lt, Bool-cases, length,
}
use platform_service.Http.Request.Lines.{is_nil, upto, beyond, trim_left, trim_right}
use platform_service.Auth.Validate.{
  EmailVerdict, lowered, has, parts_verdict, email_verdict, email_validate,
}
use platform_service.Auth.Validate.Usernames.{take_whole}

-- The rule for addresses: one '@', with a text before it and behind it one with a dot.
pub record IsAddress (address : Bytes) : Type 0 where
  pub local : Bytes
  pub domain : Bytes
  pub whole : address ≡ local ++ b'@' ∷ domain
  pub one_at : has b'@' local || has b'@' domain ≡ false
  pub local_some : 0 < length local
  pub dotted : has b'.' domain ≡ true

has-upto : (c : ℕ) (xs : Bytes) → has c (upto c xs) ≡ false
unfolding has upto
has-upto c [] = refl
has-upto c (x ∷ xs) = ground (arith, has-upto c xs)

upto-beyond : (c x : ℕ) (xs rest : Bytes) → beyond c xs ≡ x ∷ rest → xs ≡ upto c xs ++ c ∷ rest
unfolding upto beyond
upto-beyond c x [] rest h = cc
upto-beyond c x (y ∷ ys) rest h = ground (arith, upto-beyond c x ys rest)

upto_split :
    (c : ℕ) (before behind : Bytes)
    → has c before ≡ false
    → (upto c (before ++ c ∷ behind) ≡ before) × (beyond c (before ++ c ∷ behind) ≡ c ∷ behind)
unfolding has upto beyond
upto_split c [] behind h = ground arith
upto_split c (x ∷ xs) behind h = ground (arith, upto_split c xs behind)

parts_verdict-IsAddress :
    (out parts : Bytes)
    → beyond b'@' out ≡ parts
    → parts_verdict (upto b'@' out) parts ≡ EmailVerdict.valid
    → IsAddress out
unfolding parts_verdict
parts_verdict-IsAddress out [] split h = cc
parts_verdict-IsAddress out (x ∷ domain) split h = record {
  local = upto b'@' out;
  domain = domain;
  whole = upto-beyond b'@' x out domain split;
  one_at = ground (arith, has-upto b'@' out);
  local_some = nonempty (upto b'@' out) (ground arith);
  dotted = ground arith;
}
  where
    nonempty : (xs : Bytes) → is_nil xs ≡ false → 0 < length xs
    nonempty [] h = cc
    nonempty (x ∷ xs) h = omega arith

some_not_nil : (xs : Bytes) → 0 < length xs → is_nil xs ≡ false
some_not_nil [] h = absurd (omega arith)
some_not_nil (x ∷ xs) h = refl

has_not_nil : (c : ℕ) (xs : Bytes) → has c xs ≡ true → is_nil xs ≡ false
unfolding has
has_not_nil c [] h = cc
has_not_nil c (x ∷ xs) h = refl

IsAddress-parts_verdict :
    (out : Bytes)
    → IsAddress out
    → parts_verdict (upto b'@' out) (beyond b'@' out) ≡ EmailVerdict.valid
unfolding parts_verdict has
IsAddress-parts_verdict out a =
    let s = upto_split b'@' a.local a.domain (ground (arith, a.one_at)) in
    rw (a.whole, s.0, s.1)
      (rw (some_not_nil a.local a.local_some, has_not_nil b'.' a.domain a.dotted, a.dotted)
        (ground (arith, a.one_at)))

-- With room for 254 bytes and the NUL, an address is valid exactly if what is left of it without the
-- blanks around it has at most 254 bytes and in lower case follows the rule.
pub email_validate_iff :
    (raw : Bytes) (size : ℕ)
    → 255 ≤ size
    → ((email_validate raw size).1 ≡ EmailVerdict.valid) ↔ (
        (length (trim_right (trim_left raw)) ≤ 254)
        × IsAddress (lowered (trim_right (trim_left raw))))
unfolding email_validate email_verdict
email_validate_iff raw size room =
    let trimmed = trim_right (trim_left raw) in
    elim (Bool-cases (ltb 254 (length trimmed))) [
      | inl long ↦ (
        λ h. cc (rw long at h),
        λ u. absurd (omega (arith, u.0, ltb→lt 254 (length trimmed) long)),
      )
      | inr fits ↦
          let whole = take_whole (size - 1) trimmed (ground arith) in
          rw (fits, whole)
            (
              λ h. (
                ground arith,
                parts_verdict-IsAddress (lowered trimmed) (beyond b'@' (lowered trimmed)) refl h,
              ),
              λ u. IsAddress-parts_verdict (lowered trimmed) u.1,
            )
    ]
