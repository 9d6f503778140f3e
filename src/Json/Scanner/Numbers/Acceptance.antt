-- ===== src/Json/Scanner/Numbers/Acceptance.antt =====
-- `parse_number` of src/json/json_parse.c accepts the grammar of JSON numbers.
use platform_service.Common.{
  ◌<◌, ◌≡◌, refl, Bool, true, false, Option, none, some, [], ◌∷◌, ◌++◌, append_assoc, arith, Bytes,
  length, take-append,
}
use platform_service.Json.Scanner.{
  done, is_digit, skip_digits, skip_number, skip_minus, skip_integer, skip_fraction, skip_sign,
  skip_exponent, scan_number, numbuf_size, read_literal, parse_number, invalid_number,
  invalid_fraction, invalid_exponent,
}
use platform_service.Json.Scanner.Numbers.{
  Sign, unsigned, plus, minus, Exponent, Literal, all_digits, some_digits, whole_digits,
  fraction_digits, exponent_digits, is_literal, sign_text, fraction_text, exponent_text, minus_text,
  literal_text, unlike_number, ends_number, no_digit, is_literal_parts,
}

skip_digits-append :
    (ds r : Bytes) → all_digits ds ≡ true → no_digit r ≡ true → skip_digits (ds ++ r) ≡ r
unfolding skip_digits all_digits no_digit
skip_digits-append [] [] h n = refl
skip_digits-append [] (c ∷ r) h n = ground arith
skip_digits-append (d ∷ ds) r h n = ground (arith, skip_digits-append ds r)

skip_number-append :
    (e : _) (ds r : Bytes)
    → some_digits ds ≡ true
    → no_digit r ≡ true
    → skip_number e (ds ++ r) ≡ done tt r
unfolding skip_number some_digits
skip_number-append e [] r h n = ground arith
skip_number-append e (d ∷ ds) r h n = ground (arith, skip_digits-append ds r)

no_digit-exponent_text :
    (e : Option Exponent) (r : Bytes)
    → exponent_digits e ≡ true
    → ends_number r ≡ true
    → no_digit (exponent_text e ++ r) ≡ true
unfolding no_digit exponent_text ends_number exponent_digits unlike_number is_digit
no_digit-exponent_text none [] h n = refl
no_digit-exponent_text none (c ∷ r) h n = ground arith
no_digit-exponent_text (some e) r h n = ground arith

no_digit-fraction_text :
    (f : Option Bytes) (e : Option Exponent) (r : Bytes)
    → exponent_digits e ≡ true
    → ends_number r ≡ true
    → no_digit (fraction_text f ++ (exponent_text e ++ r)) ≡ true
unfolding fraction_text no_digit is_digit
no_digit-fraction_text none e r h n = no_digit-exponent_text e r h n
no_digit-fraction_text (some s) e r h n = refl

skip_fraction-fraction_text :
    (f : Option Bytes) (e : Option Exponent) (r : Bytes)
    → fraction_digits f ≡ true
    → exponent_digits e ≡ true
    → ends_number r ≡ true
    → skip_fraction (fraction_text f ++ (exponent_text e ++ r)) ≡ done tt (exponent_text e ++ r)
unfolding skip_fraction fraction_text fraction_digits exponent_text exponent_digits ends_number
    unlike_number
skip_fraction-fraction_text none none [] h g n = refl
skip_fraction-fraction_text none none (c ∷ r) h g n = ground arith
skip_fraction-fraction_text none (some e) r h g n = ground arith
skip_fraction-fraction_text (some s) e r h g n =
    skip_number-append invalid_fraction s (exponent_text e ++ r) h (no_digit-exponent_text e r g n)

skip_sign-sign_text :
    (sg : Sign) (ds r : Bytes)
    → some_digits ds ≡ true
    → skip_sign ((sign_text sg ++ ds) ++ r) ≡ ds ++ r
unfolding skip_sign sign_text some_digits all_digits is_digit
skip_sign-sign_text unsigned [] r h = ground arith
skip_sign-sign_text unsigned (d ∷ ds) r h = ground arith
skip_sign-sign_text plus ds r h = refl
skip_sign-sign_text minus ds r h = refl

no_digit-ends_number : (r : Bytes) → ends_number r ≡ true → no_digit r ≡ true
unfolding ends_number no_digit unlike_number
no_digit-ends_number [] n = refl
no_digit-ends_number (c ∷ r) n = ground arith

skip_exponent-exponent_text :
    (e : Option Exponent) (r : Bytes)
    → exponent_digits e ≡ true
    → ends_number r ≡ true
    → skip_exponent (exponent_text e ++ r) ≡ done tt r
unfolding skip_exponent exponent_text exponent_digits ends_number unlike_number
skip_exponent-exponent_text none [] h n = refl
skip_exponent-exponent_text none (c ∷ r) h n = ground arith
skip_exponent-exponent_text (some e) r h n = ground (
  arith,
  skip_sign-sign_text e.sign e.digits r,
  skip_number-append invalid_exponent e.digits r,
  no_digit-ends_number r,
)

skip_integer-append :
    (ds r : Bytes) → whole_digits ds ≡ true → no_digit r ≡ true → skip_integer (ds ++ r) ≡ done tt r
unfolding skip_integer whole_digits some_digits
skip_integer-append [] r h n = ground arith
skip_integer-append (d ∷ []) r h n = ground (arith, skip_number-append invalid_number (d ∷ []) r)
skip_integer-append (d ∷ d' ∷ ds) r h n =
    ground (arith, skip_number-append invalid_number (d ∷ d' ∷ ds) r)

skip_minus-minus_text :
    (n : Bool) (ds r : Bytes)
    → whole_digits ds ≡ true
    → skip_minus (minus_text n ++ (ds ++ r)) ≡ ds ++ r
unfolding skip_minus minus_text whole_digits some_digits all_digits is_digit
skip_minus-minus_text true ds r h = refl
skip_minus-minus_text false [] r h = ground arith
skip_minus-minus_text false (d ∷ ds) r h = ground arith

-- The scan accepts every number of the grammar and stops behind it.
pub scan_number-literal_text :
    (l : Literal) (r : Bytes)
    → is_literal l ≡ true
    → ends_number r ≡ true
    → scan_number (literal_text l ++ r) ≡ done tt r
unfolding scan_number literal_text
scan_number-literal_text l r h n =
    let (w, f, e) = is_literal_parts l h in
    let fraction = fraction_text l.fraction in
    let exponent = exponent_text l.exponent in
    rw
      (
        append_assoc (minus_text l.negative) (l.digits ++ (fraction ++ exponent)) r,
        append_assoc l.digits (fraction ++ exponent) r,
        append_assoc fraction exponent r,
        skip_minus-minus_text l.negative l.digits (fraction ++ (exponent ++ r)) w,
        skip_integer-append l.digits (fraction ++ (exponent ++ r)) w
            (no_digit-fraction_text l.fraction l.exponent r e n),
        skip_fraction-fraction_text l.fraction l.exponent r f e n,
      )
      (skip_exponent-exponent_text l.exponent r e n)

-- A number of the grammar that has fewer than 64 bytes and that `strtod` reads is accepted with
-- strtod's value, up to where the literal ends.
pub parse_number-literal_text :
    {F : Type 0} (strtod : Bytes → Option F) (l : Literal) (n : F) (r : Bytes)
    → is_literal l ≡ true
    → ends_number r ≡ true
    → length (literal_text l) < numbuf_size
    → strtod (literal_text l) ≡ some n
    → parse_number strtod (literal_text l ++ r) ≡ done n r
unfolding parse_number read_literal
parse_number-literal_text strtod l n r h g b e =
    rw (scan_number-literal_text l r h g, take-append (literal_text l) r) (ground arith)
