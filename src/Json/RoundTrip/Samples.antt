-- ===== src/Json/RoundTrip/Samples.antt =====
-- Two numbers that stand for the doubles of src/json in examples, with their text and its reading.
use platform_service.Common.{
  ℕ, ◌<◌, ◌≡◌, refl, Bool, true, false, Option, none, some, [], ◌∷◌, arith, Bytes, codes, ◌==◌,
  if◌then◌else◌, length,
}
use platform_service.Json.Scanner.{is_digit}
use platform_service.Json.Scanner.Numbers.{Literal, is_literal, literal_text}
use platform_service.Json.Writer.{Doubles, IsLawful}

unfoldable pub read_bit : Bytes → Option Bool
read_bit [] = none
read_bit (c ∷ d ∷ s) = none
read_bit (c ∷ []) = if c == b'0' then some false else if c == b'1' then some true else none

unfoldable pub bit_text : Bool → Bytes
bit_text false = codes "0"
bit_text true = codes "1"

abbrev pub bits : Doubles Bool
bits = record { strtod = read_bit; is_finite = λ n. true; format = bit_text }

digit_literal : ℕ → Literal
digit_literal d = record { negative = false; digits = d ∷ []; fraction = none; exponent = none }

bit_grammar : (n : Bool) → (l : Literal) × (is_literal l ≡ true) × (literal_text l ≡ bit_text n)
unfolding bit_text literal_text is_literal digit_literal is_digit
bit_grammar false = (digit_literal b'0', refl, refl)
bit_grammar true = (digit_literal b'1', refl, refl)

bit_exact : (n : Bool) → read_bit (bit_text n) ≡ some n
unfolding read_bit bit_text
bit_exact false = refl
bit_exact true = refl

bit_short : (n : Bool) → length (bit_text n) < 32
unfolding bit_text
bit_short false = omega arith
bit_short true = omega arith

pub bits-IsLawful : IsLawful bits
bits-IsLawful = record {
  grammar = λ n finite. bit_grammar n;
  exact = λ n finite. bit_exact n;
  short = λ n finite. bit_short n;
}
