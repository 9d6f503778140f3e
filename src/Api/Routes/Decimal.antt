-- ===== src/Api/Routes/Decimal.antt =====
-- Identifiers in decimal notation.
use platform_service.Common.{
  ℕ, zero, suc, ◌+◌, ◌-◌, ◌*◌, ◌/◌, ◌%◌, ◌≤◌, ◌<◌, ◌≡◌, refl, ap, ◌∙◌, inl, inr, some, [], ◌∷◌,
  ◌++◌, arith, Bytes, ltb, if◌then◌else◌, Bool-cases, length, length-append,
}
use platform_service.Common.Int.{ℤ, pos, negsuc}
use platform_service.Http.Request.Lines.{decimal_from}
use platform_service.Api.Routes.{
  c_string, parse_int64, signed, magnitude, positive, negative, int64_min_size,
}
use platform_service.Api.Routes.Int64.{IsInt64}

-- A number in decimal, with at most `places` digits.
decimal : ℕ → ℕ → Bytes
decimal zero n = []
decimal (suc places) n =
    let before = decimal places (n / 10) in
    if ltb n 10 then (n + b'0') ∷ [] else before ++ (n % 10 + b'0') ∷ []

-- An integer as `printf` with "%lld" writes it.
unfoldable pub printed : ℤ → Bytes
unfolding decimal
printed (pos n) = decimal 19 n
printed (negsuc n) = b'-' ∷ decimal 19 (n + 1)

tens : ℕ → ℕ
tens zero = 1
tens (suc places) = 10 * tens places

AllDigits : Bytes → Type 0
AllDigits [] = Unit {0}
AllDigits (c ∷ cs) = (b'0' ≤ c) × (c ≤ b'9') × AllDigits cs

AllDigits-append :
    (xs : Bytes) (d : ℕ) → AllDigits xs → b'0' ≤ d → d ≤ b'9' → AllDigits (xs ++ d ∷ [])
unfolding AllDigits
AllDigits-append [] d all low high = (low, high, tt)
AllDigits-append (x ∷ xs) d all low high = (all.0, all.1, AllDigits-append xs d all.2 low high)

decimal-AllDigits : (places n : ℕ) → AllDigits (decimal places n)
unfolding decimal AllDigits
decimal-AllDigits zero n = tt
decimal-AllDigits (suc places) n = elim (Bool-cases (ltb n 10)) [
  | inl small ↦ rw small (omega arith, ground arith, tt)
  | inr large ↦ rw large (
      AllDigits-append (decimal places (n / 10)) (n % 10 + b'0') (decimal-AllDigits places (n / 10))
        (omega arith) (omega arith))
]

length-decimal : (places n : ℕ) → length (decimal places n) ≤ places
unfolding decimal
length-decimal zero n = omega arith
length-decimal (suc places) n = ground (
  arith,
  length-decimal places (n / 10),
  length-append (decimal places (n / 10)) ((n % 10 + b'0') ∷ []),
)

decimal_from-append :
    (xs : Bytes) (a b d : ℕ)
    → decimal_from a xs ≡ some b
    → b'0' ≤ d
    → d ≤ b'9'
    → decimal_from a (xs ++ d ∷ []) ≡ some (b * 10 + (d - b'0'))
unfolding decimal_from
decimal_from-append [] a b d h low high = ground arith
decimal_from-append (x ∷ xs) a b d h low high =
    ground (arith, decimal_from-append xs (a * 10 + (x - b'0')) b d)

some_places : (places n : ℕ) → 10 ≤ n → n < tens (suc places) → 0 < places
unfolding tens
some_places zero n large h = absurd (omega (arith, h))
some_places (suc places) n large h = omega arith

decimal_from-decimal :
    (places n : ℕ) → 0 < places → n < tens places → decimal_from 0 (decimal places n) ≡ some n
unfolding decimal tens decimal_from
decimal_from-decimal zero n some_ h = absurd (omega arith)
decimal_from-decimal (suc places) n some_ h = elim (Bool-cases (ltb n 10)) [
  | inl small ↦ rw small (ground arith)
  | inr large ↦ rw large (
      decimal_from-append (decimal places (n / 10)) 0 (n / 10) (n % 10 + b'0')
        (decimal_from-decimal places (n / 10) (some_places places n (ground arith) h)
          (omega (arith, h)))
        (omega arith) (omega arith)
      ∙ ap some (omega arith))
]

c_string-digits : (xs : Bytes) → AllDigits xs → c_string xs ≡ xs
unfolding c_string AllDigits
c_string-digits [] all = refl
c_string-digits (c ∷ cs) all = ground (arith, c_string-digits cs all.2)

-- Digits, with no sign before them, are read as a number that is not negative.
signed-digits :
    (xs : Bytes) (n : ℕ)
    → AllDigits xs
    → 0 < length xs
    → decimal_from 0 xs ≡ some n
    → n < int64_min_size
    → signed xs ≡ some (pos n)
unfolding signed AllDigits positive magnitude
signed-digits [] n all some_ h small = absurd (omega arith)
signed-digits (c ∷ cs) n all some_ h small = ground (arith, all.0, all.1)

signed-minus :
    (xs : Bytes) (n : ℕ)
    → 0 < length xs
    → decimal_from 0 xs ≡ some (suc n)
    → n < int64_min_size
    → signed (b'-' ∷ xs) ≡ some (negsuc n)
unfolding signed negative magnitude
signed-minus [] n some_ h small = absurd (omega arith)
signed-minus (c ∷ cs) n some_ h small = ground arith

decimal_some : (places n : ℕ) → 0 < length (decimal (suc places) n)
unfolding decimal
decimal_some places n =
    ground (arith, length-append (decimal places (n / 10)) ((n % 10 + b'0') ∷ []))

parse_int64-signed :
    (text : Bytes)
    → 0 < length text
    → length text < 32
    → c_string text ≡ text
    → parse_int64 text ≡ signed text
unfolding parse_int64
parse_int64-signed text some_ short whole = ground arith

c_string-minus : (xs : Bytes) → c_string xs ≡ xs → c_string (b'-' ∷ xs) ≡ b'-' ∷ xs
unfolding c_string
c_string-minus xs h = ap (λ (t : Bytes). b'-' ∷ t) h

-- Every integer of 64 bits, in decimal as `printf` writes it, is read back.
pub parse_int64-printed : (v : ℤ) → IsInt64 v → parse_int64 (printed v) ≡ some v
unfolding printed tens
parse_int64-printed (pos n) small =
    let digits = decimal 19 n in
    let value = decimal_from-decimal 19 n (omega arith) (omega (arith, small)) in
    parse_int64-signed digits (decimal_some 18 n) (omega (arith, length-decimal 19 n))
      (c_string-digits digits (decimal-AllDigits 19 n))
    ∙ signed-digits digits n (decimal-AllDigits 19 n) (decimal_some 18 n) value small
parse_int64-printed (negsuc n) small =
    let digits = decimal 19 (n + 1) in
    let value : decimal_from 0 digits ≡ some (suc n) =
      decimal_from-decimal 19 (n + 1) (omega arith) (omega (arith, small))
      ∙ ap some (omega arith) in
    parse_int64-signed (b'-' ∷ digits) (omega arith) (omega (arith, length-decimal 19 (n + 1)))
      (c_string-minus digits (c_string-digits digits (decimal-AllDigits 19 (n + 1))))
    ∙ signed-minus digits n (decimal_some 18 (n + 1)) value small
