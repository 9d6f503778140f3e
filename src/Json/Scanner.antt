-- ===== src/Json/Scanner.antt =====
-- What the JSON parser reads with, src/json/json_parse.c: its position is the list of the bytes
-- that are left, and a failure carries the reason and the bytes left at the position that the
-- source's message names. `stuck` marks a loop whose fuel ran out.
pub mod Numbers
pub mod Progress
pub mod Outcome
use platform_service.Common.{
  ℕ, ◌-◌, Bool, ◌&&◌, ◌||◌, Option, none, some, [], ◌∷◌, Bytes, leb, ◌==◌, if◌then◌else◌, length,
  take,
}

pub data Reason : Type 0 where
  invalid_number : Reason
  invalid_fraction : Reason
  invalid_exponent : Reason
  number_too_long : Reason
  unterminated_string : Reason
  control_character : Reason
  unterminated_escape : Reason
  invalid_unicode_escape : Reason
  unpaired_surrogate : Reason
  invalid_low_surrogate : Reason
  unpaired_low_surrogate : Reason
  invalid_escape_character : Reason
  expected_comma_or_bracket : Reason
  expected_string_key : Reason
  expected_colon : Reason
  expected_comma_or_brace : Reason
  depth_exceeded : Reason
  invalid_literal : Reason
  unexpected_end : Reason
  unexpected_character : Reason
  trailing_data : Reason

pub data Parsed (A : Type 0) : Type 0 where
  done : A → Bytes → Parsed A
  failed : Reason → Bytes → Parsed A
  stuck : Parsed A

-- What follows a step that succeeded, at the position behind it.
infixl 5 ◌and_then◌
abbrev pub ◌and_then◌ : {A B : Type 0} → Parsed A → (A → Bytes → Parsed B) → Parsed B
m and_then f = elim m [ done a r ↦ f a r | failed e r ↦ failed e r | stuck ↦ stuck ]

-- `peek`: the byte at the position, `none` for -1 at the end.
unfoldable pub peek : Bytes → Option ℕ
peek [] = none
peek (c ∷ s) = some c

unfoldable pub is_space : ℕ → Bool
is_space c = c == b' ' || c == b'\t' || c == b'\n' || c == b'\r'

unfoldable pub skip_ws : Bytes → Bytes
skip_ws [] = []
skip_ws (c ∷ s) = if is_space c then skip_ws s else c ∷ s

-- `expect_literal`: the bytes behind the literal, if it stands at the position.
unfoldable pub expect_literal : Bytes → Bytes → Option Bytes
expect_literal [] s = some s
expect_literal (l ∷ ls) [] = none
expect_literal (l ∷ ls) (c ∷ s) = if c == l then expect_literal ls s else none

unfoldable pub is_digit : ℕ → Bool
is_digit c = leb b'0' c && leb c b'9'

unfoldable pub skip_digits : Bytes → Bytes
skip_digits [] = []
skip_digits (c ∷ s) = if is_digit c then skip_digits s else c ∷ s

-- At least one digit, and all that follow.
unfoldable pub skip_number : Reason → Bytes → Parsed (Unit {0})
unfolding skip_digits
skip_number e [] = failed e []
skip_number e (c ∷ s) = if is_digit c then done tt (skip_digits s) else failed e (c ∷ s)

unfoldable pub skip_minus : Bytes → Bytes
skip_minus [] = []
skip_minus (c ∷ s) = if c == b'-' then s else c ∷ s

unfoldable pub skip_integer : Bytes → Parsed (Unit {0})
unfolding skip_number
skip_integer [] = failed invalid_number []
skip_integer (c ∷ s) = if c == b'0' then done tt s else skip_number invalid_number (c ∷ s)

unfoldable pub skip_fraction : Bytes → Parsed (Unit {0})
unfolding skip_number
skip_fraction [] = done tt []
skip_fraction (c ∷ s) = if c == b'.' then skip_number invalid_fraction s else done tt (c ∷ s)

unfoldable pub skip_sign : Bytes → Bytes
skip_sign [] = []
skip_sign (c ∷ s) = if c == b'+' || c == b'-' then s else c ∷ s

unfoldable pub skip_exponent : Bytes → Parsed (Unit {0})
unfolding skip_number skip_sign
skip_exponent [] = done tt []
skip_exponent (c ∷ s) =
    if c == b'e' || c == b'E' then skip_number invalid_exponent (skip_sign s) else done tt (c ∷ s)

-- The scan of `parse_number` to the end of the literal.
unfoldable pub scan_number : Bytes → Parsed (Unit {0})
unfolding skip_minus skip_integer skip_fraction skip_exponent
scan_number s =
    skip_integer (skip_minus s) and_then (λ _ r. skip_fraction r) and_then (λ _ r. skip_exponent r)

-- `sizeof numbuf`.
abbrev pub numbuf_size : ℕ
numbuf_size = 64

-- `strtod` is a parameter: the value of a literal that it reads to its end.
read_literal : {F : Type 0} → (Bytes → Option F) → Bytes → Bytes → Parsed F
read_literal strtod literal rest =
    if leb numbuf_size (length literal)
    then failed number_too_long rest
    else elim (strtod literal) [ none ↦ failed invalid_number rest | some n ↦ done n rest ]

unfoldable pub parse_number : {F : Type 0} → (Bytes → Option F) → Bytes → Parsed F
unfolding scan_number read_literal
parse_number strtod s =
    scan_number s and_then (λ _ rest. read_literal strtod (take (length s - length rest) s) rest)
