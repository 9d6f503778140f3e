-- ===== src/Json/Strings.antt =====
-- JSON string literals, `parse_hex4`, `append_utf8` and `parse_string` of
-- src/json/json_parse.c. A byte appended to the output buffer is never refused.
pub mod RoundTrip
pub mod Progress
mod Tests
use platform_service.Common.{
  ℕ, zero, suc, ◌+◌, ◌-◌, ◌*◌, ◌/◌, ◌%◌, ◌^◌, ◌≤◌, ◌<◌, min, code, String, ◌≡◌, refl, sym, ap, ◌∙◌,
  subst, ◌≢◌, ◌↔◌, ◌⊎◌, inl, inr, Bool, true, false, not, ◌&&◌, ◌||◌, Option, none, some, List, [],
  ◌∷◌, ◌++◌, append_assoc, append-nil, arith, Bytes, codes, ltb, leb, ◌==◌, if◌then◌else◌, ltb→lt,
  lt→ltb, leb→le, ==_iff, tests, Bool-cases, Option-cases, length, get_elem?, set, length-append,
  length-set, get_elem?-set_self, get_elem?-set_ne, get_or, take, drop, replicate, take-append-drop,
  length-take, length-drop, length-replicate, length-map, equal, equal_iff,
}
use platform_service.Json.Scanner.{
  Parsed, done, failed, stuck, Reason, unterminated_string, control_character, unterminated_escape,
  invalid_unicode_escape, unpaired_surrogate, invalid_low_surrogate, unpaired_low_surrogate,
  invalid_escape_character,
}

unfoldable pub hex_digit_value : ℕ → Option ℕ
hex_digit_value c =
    if leb b'0' c && leb c b'9'
    then some (c - b'0')
    else if leb b'a' c && leb c b'f'
    then some (c - b'a' + 10)
    else if leb b'A' c && leb c b'F'
    then some (c - b'A' + 10)
    else none

-- The loop over `i`, with the digits still to come and `val` so far.
unfoldable pub hex_loop : ℕ → ℕ → Bytes → Option (ℕ × Bytes)
unfolding hex_digit_value
hex_loop zero val s = some (val, s)
hex_loop (suc i) val [] = none
hex_loop (suc i) val (c ∷ s) = elim (hex_digit_value c) [
  | none ↦ none
  | some d ↦ hex_loop i (val * 16 + d) s
]

-- The value and the bytes behind it.
unfoldable pub parse_hex4 : Bytes → Option (ℕ × Bytes)
unfolding hex_loop
parse_hex4 s = if ltb (length s) 4 then none else hex_loop 4 0 s

-- The bytes that `append_utf8` appends: `0xC0 | x` is `0xC0 + x` at the values that occur.
unfoldable pub utf8 : ℕ → Bytes
utf8 cp =
    if leb cp 0x7F
    then cp ∷ []
    else if leb cp 0x7FF
    then (0xC0 + cp / 64) ∷ (0x80 + cp % 64) ∷ []
    else if leb cp 0xFFFF
    then (0xE0 + cp / 4096) ∷ (0x80 + (cp / 64) % 64) ∷ (0x80 + cp % 64) ∷ []
    else (0xF0 + cp / 262144)
      ∷ (0x80 + (cp / 4096) % 64)
      ∷ (0x80 + (cp / 64) % 64)
      ∷ (0x80 + cp % 64)
      ∷ []

is_high_surrogate : ℕ → Bool
is_high_surrogate cp = leb 0xD800 cp && leb cp 0xDBFF

is_low_surrogate : ℕ → Bool
is_low_surrogate cp = leb 0xDC00 cp && leb cp 0xDFFF

-- The second half of a pair, behind its `\u`. A refused digit leaves the position where it was.
low_surrogate : ℕ → Bytes → Parsed (Option Bytes)
unfolding parse_hex4 is_low_surrogate utf8
low_surrogate high s = elim (parse_hex4 s) [
  | none ↦ failed invalid_low_surrogate s
  | some (low, r) ↦
      if is_low_surrogate low
      then done (some (utf8 (0x10000 + (high - 0xD800) * 1024 + (low - 0xDC00)))) r
      else failed invalid_low_surrogate r
]

surrogate_pair : ℕ → Bytes → Parsed (Option Bytes)
unfolding low_surrogate
surrogate_pair high [] = failed unpaired_surrogate []
surrogate_pair high (c ∷ []) = failed unpaired_surrogate (c ∷ [])
surrogate_pair high (c ∷ d ∷ s) =
    if c == b'\\' && d == b'u' then low_surrogate high s else failed unpaired_surrogate (c ∷ d ∷ s)

-- `case 'u'`, behind the letter.
unicode_escape : Bytes → Parsed (Option Bytes)
unfolding parse_hex4 is_high_surrogate is_low_surrogate surrogate_pair utf8
unicode_escape s = elim (parse_hex4 s) [
  | none ↦ failed invalid_unicode_escape s
  | some (cp, r) ↦
      if is_high_surrogate cp
      then surrogate_pair cp r
      else if is_low_surrogate cp
      then failed unpaired_low_surrogate r
      else done (some (utf8 cp)) r
]

-- The letters that stand for one byte.
simple_escape : ℕ → Option ℕ
simple_escape c =
    if c == b'"'
    then some b'"'
    else if c == b'\\'
    then some b'\\'
    else if c == b'/'
    then some b'/'
    else if c == b'b'
    then some 8
    else if c == b'f'
    then some 12
    else if c == b'n'
    then some 10
    else if c == b'r'
    then some 13
    else if c == b't'
    then some 9
    else none

-- Behind the backslash.
escape : Bytes → Parsed (Option Bytes)
unfolding simple_escape unicode_escape
escape [] = failed unterminated_escape []
escape (c ∷ s) = elim (simple_escape c) [
  | some b ↦ done (some (b ∷ [])) s
  | none ↦ if c == b'u' then unicode_escape s else failed invalid_escape_character s
]

-- One round of the loop: the bytes to append, or `none` behind the closing quote.
unfoldable pub string_step : Bytes → Parsed (Option Bytes)
unfolding escape
string_step [] = failed unterminated_string []
string_step (c ∷ s) =
    if c == b'"'
    then done none s
    else if ltb c 0x20
    then failed control_character (c ∷ s)
    else if c == b'\\'
    then escape s
    else done (some (c ∷ [])) s

-- What follows a round; `next` is the loop from there.
unfoldable pub string_round :
    (Bytes → Bytes → Parsed Bytes) → Bytes → Parsed (Option Bytes) → Parsed Bytes
string_round next out (done none r) = done out r
string_round next out (done (some b) r) = next (out ++ b) r
string_round next out (failed e r) = failed e r
string_round next out stuck = stuck

-- The loop with fuel and the output so far.
unfoldable pub string_loop : ℕ → Bytes → Bytes → Parsed Bytes
unfolding string_round string_step
string_loop zero out s = stuck
string_loop (suc fuel) out s = string_round (λ o r. string_loop fuel o r) out (string_step s)

-- Behind the opening quote.
unfoldable pub parse_string : Bytes → Parsed Bytes
unfolding string_loop
parse_string s = string_loop (suc (length s)) [] s
