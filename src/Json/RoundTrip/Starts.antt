-- ===== src/Json/RoundTrip/Starts.antt =====
-- How the text of a value begins, and what `dispatch` of the parser makes of its first byte.
use platform_service.Common.{
  ℕ, ◌<◌, ◌≡◌, refl, ap, ◌∙◌, ◌≢◌, true, false, ◌||◌, Option, some, [], ◌∷◌, ◌++◌, append_assoc,
  arith, Bytes, ◌==◌, length,
}
use platform_service.Json.Value.{Value, null, boolean, number, string, array, object}
use platform_service.Json.Scanner.{Parsed, done, is_space, skip_ws, is_digit, parse_number}
use platform_service.Json.Scanner.Numbers.{
  Literal, is_literal, literal_text, ends_number, literal_text-begins,
}
use platform_service.Json.Scanner.Numbers.Acceptance.{parse_number-literal_text}
use platform_service.Json.Strings.RoundTrip.{parse_string-write_bytes}
use platform_service.Json.Parser.{wrap, dispatch}
use platform_service.Json.Writer.{Doubles, IsLawful, write_bytes, write_string}
use platform_service.Json.Writer.Text.{number_text, value_text}

-- A text that begins a value: no white space, and nothing that closes an array.
unfoldable pub Begins : Bytes → Type 0
Begins s = (c : ℕ) × (r : Bytes) × (s ≡ c ∷ r) × (is_space c ≡ false) × (c ≢ b']')

pub skip_ws-Begins : (s : Bytes) → Begins s → skip_ws s ≡ s
unfolding skip_ws Begins
skip_ws-Begins s (c, r, e, n, _) = rw (e, n) refl

pub write_string-append : (s r : Bytes) → write_string s ++ r ≡ b'"' ∷ (write_bytes s ++ b'"' ∷ r)
unfolding write_string
write_string-append s r = ap (λ t. b'"' ∷ t) (append_assoc (write_bytes s) (b'"' ∷ []) r)

module _ {F : Type 0} (strtod : Bytes → Option F) (parse : Bytes → Parsed (Value F)) where
  dispatch_number :
      (s : Bytes) (c : ℕ) (t : Bytes)
      → s ≡ c ∷ t
      → (c == b'-' || is_digit c) ≡ true
      → dispatch strtod parse s ≡ wrap number (parse_number strtod s)
  unfolding dispatch is_digit
  dispatch_number s c t e h = rw e (ground arith)

  dispatch-literal_text :
      (l : Literal) (n : F) (r : Bytes)
      → is_literal l ≡ true
      → ends_number r ≡ true
      → length (literal_text l) < 32
      → strtod (literal_text l) ≡ some n
      → dispatch strtod parse (literal_text l ++ r) ≡ done (number n) r
  dispatch-literal_text l n r h g b e =
      let (c, t, et, d) = literal_text-begins l h in
      dispatch_number (literal_text l ++ r) c (t ++ r) (ap (λ z. z ++ r) et) d
      ∙ rw (parse_number-literal_text strtod l n r h g (omega arith) e) refl

  pub dispatch-write_string :
      (s r : Bytes) → dispatch strtod parse (write_string s ++ r) ≡ done (string s) r
  unfolding dispatch
  dispatch-write_string s r = rw (write_string-append s r, parse_string-write_bytes s r) refl

module _ {F : Type 0} {fp : Doubles F} (law : IsLawful fp) where
  -- The text of a finite double is read as that double.
  pub dispatch-format :
      (parse : Bytes → Parsed (Value F)) (n : F) (r : Bytes)
      → fp.is_finite n ≡ true
      → ends_number r ≡ true
      → dispatch fp.strtod parse (fp.format n ++ r) ≡ done (number n) r
  dispatch-format parse n r finite g =
      let (l, h, e) = law.grammar n finite in
      rw (← e) (
        dispatch-literal_text fp.strtod parse l n r h g (rw e (law.short n finite))
          (rw e (law.exact n finite)))

  format-Begins : (n : F) (r : Bytes) → fp.is_finite n ≡ true → Begins (fp.format n ++ r)
  unfolding Begins is_space is_digit
  format-Begins n r finite =
      let (l, h, e) = law.grammar n finite in
      let (c, t, et, d) = literal_text-begins l h in
      (c, t ++ r, rw (← e, et) refl, ground arith, ground arith)

  -- The text of a value is not taken for white space or for the end of an array.
  pub value_text-Begins :
      (v : Value F) (r : Bytes)
      → ((n : F) → v ≡ number n → fp.is_finite n ≡ true)
      → Begins (value_text fp v r)
  unfolding Begins value_text is_space number_text write_string
  value_text-Begins null r h = (_, _, refl, refl, omega arith)
  value_text-Begins (boolean true) r h = (_, _, refl, refl, omega arith)
  value_text-Begins (boolean false) r h = (_, _, refl, refl, omega arith)
  value_text-Begins (number n) r h = rw (h n refl) (format-Begins n r (h n refl))
  value_text-Begins (string s) r h = (_, _, refl, refl, omega arith)
  value_text-Begins (array vs) r h = (_, _, refl, refl, omega arith)
  value_text-Begins (object ms) r h = (_, _, refl, refl, omega arith)
