-- ===== src/Json/Strings/RoundTrip.antt =====
-- What the writer makes of a string is read back, src/json/json_write.c and json_parse.c.
use platform_service.Common.{
  ℕ, zero, suc, ◌/◌, ◌%◌, ◌≤◌, ◌<◌, ◌≡◌, refl, ap, ◌∙◌, ◌≢◌, some, [], ◌∷◌, ◌++◌, append_assoc,
  append-nil, arith, Bytes, codes, length, length-append,
}
use platform_service.Json.Scanner.{done}
use platform_service.Json.Strings.{
  escape, unicode_escape, simple_escape, hex_digit_value, parse_hex4, string_step, string_loop,
  parse_string,
}
use platform_service.Json.Writer.{hex_digit, hex4, write_byte, write_bytes}

hex_digit_value-hex_digit : (d : ℕ) → d < 16 → hex_digit_value (hex_digit d) ≡ some d
unfolding hex_digit_value hex_digit
hex_digit_value-hex_digit d h = ground arith

parse_hex4-hex4 : (c : ℕ) (rest : Bytes) → c < 32 → parse_hex4 (hex4 c ++ rest) ≡ some (c, rest)
unfolding parse_hex4 hex4
parse_hex4-hex4 c rest h = ground (
  arith,
  hex_digit_value-hex_digit (c / 4096),
  hex_digit_value-hex_digit ((c / 256) % 16),
  hex_digit_value-hex_digit ((c / 16) % 16),
  hex_digit_value-hex_digit (c % 16),
)

string_step_plain :
    (c : ℕ) (rest : Bytes)
    → 32 ≤ c
    → c ≢ b'"'
    → c ≢ b'\\'
    → string_step (c ∷ rest) ≡ done (some (c ∷ [])) rest
unfolding string_step
string_step_plain c rest h n m = ground arith

string_step_letter :
    (e b : ℕ) (rest : Bytes)
    → simple_escape e ≡ some b
    → string_step (b'\\' ∷ e ∷ rest) ≡ done (some (b ∷ [])) rest
unfolding string_step
string_step_letter e b rest h = rw (h, escape) refl

string_step-hex4 :
    (c : ℕ) (rest : Bytes)
    → c < 32
    → string_step (codes "\\u" ++ hex4 c ++ rest) ≡ done (some (c ∷ [])) rest
unfolding string_step simple_escape
string_step-hex4 c rest h = rw (parse_hex4-hex4 c rest h, escape, unicode_escape) (ground arith)

-- Each byte is written so that one round of the parser's loop reads it.
string_step-write_byte :
    (c : ℕ) (rest : Bytes) → string_step (write_byte c ++ rest) ≡ done (some (c ∷ [])) rest
unfolding write_byte simple_escape
string_step-write_byte c rest = ground (
  arith,
  string_step_letter b'"' b'"' rest refl,
  string_step_letter b'\\' b'\\' rest refl,
  string_step_letter b'b' 8 rest refl,
  string_step_letter b'f' 12 rest refl,
  string_step_letter b'n' 10 rest refl,
  string_step_letter b'r' 13 rest refl,
  string_step_letter b't' 9 rest refl,
  string_step-hex4 c rest,
  string_step_plain c rest,
)

string_loop-write_bytes :
    (fuel : ℕ) (out s rest : Bytes)
    → length s < fuel
    → string_loop fuel out (write_bytes s ++ b'"' ∷ rest) ≡ done (out ++ s) rest
unfolding string_loop write_bytes
string_loop-write_bytes zero out s rest h = absurd (omega arith)
string_loop-write_bytes (suc fuel) out [] rest h = rw append-nil refl
string_loop-write_bytes (suc fuel) out (c ∷ s) rest h =
    rw
      (
        append_assoc (write_byte c) (write_bytes s) (b'"' ∷ rest),
        string_step-write_byte c (write_bytes s ++ b'"' ∷ rest),
      )
      (string_loop-write_bytes fuel (out ++ c ∷ []) s rest (omega arith)
        ∙ ap (λ o. done o rest) (append_assoc out (c ∷ []) s))

length-write_byte : (c : ℕ) → 0 < length (write_byte c)
unfolding write_byte
length-write_byte c = ground arith

length-write_bytes : (s : Bytes) → length s ≤ length (write_bytes s)
unfolding write_bytes
length-write_bytes [] = omega arith
length-write_bytes (c ∷ s) =
    omega (
      arith,
      length-write_byte c,
      length-write_bytes s,
      length-append (write_byte c) (write_bytes s),
    )

-- A string of any bytes, a NUL or a control character among them, is written as a literal that
-- the parser reads back as the same bytes, and it stops right behind the closing quote whatever
-- follows there.
pub parse_string-write_bytes :
    (s rest : Bytes) → parse_string (write_bytes s ++ b'"' ∷ rest) ≡ done s rest
unfolding parse_string
parse_string-write_bytes s rest =
    string_loop-write_bytes (suc (length (write_bytes s ++ b'"' ∷ rest))) [] s rest
      (omega (arith, length-write_bytes s, length-append (write_bytes s) (b'"' ∷ rest)))
