-- ===== src/Json/Writer.antt =====
-- The JSON writer, src/json/json_write.c: what it appends to a buffer that grants every request,
-- and `none` where the source returns false. `levels` is 33 - depth, as in the parser.
pub mod Text
pub mod Success
mod Tests
use platform_service.Common.{
  ℕ, zero, suc, ◌+◌, ◌-◌, ◌*◌, ◌/◌, ◌%◌, ◌^◌, ◌≤◌, ◌<◌, min, code, String, ◌≡◌, refl, sym, ap, ◌∙◌,
  subst, ◌≢◌, ◌↔◌, ◌⊎◌, inl, inr, Bool, true, false, not, ◌&&◌, ◌||◌, Option, none, some, List, [],
  ◌∷◌, ◌++◌, append_assoc, append-nil, arith, Bytes, codes, ltb, leb, ◌==◌, if◌then◌else◌, ltb→lt,
  lt→ltb, leb→le, ==_iff, tests, Bool-cases, Option-cases, length, get_elem?, set, length-append,
  length-set, get_elem?-set_self, get_elem?-set_ne, get_or, take, drop, replicate, take-append-drop,
  length-take, length-drop, length-replicate, length-map, equal, equal_iff,
}
use platform_service.Json.Value.{
  max_depth, c_str, Value, null, boolean, number, string, array, object, Items, no_items, item,
  Members, no_members, member,
}
use platform_service.Json.Scanner.Numbers.{Literal, is_literal, literal_text}

-- The functions of the C library on doubles that the service calls: `strtod` gives a value where
-- it reads the literal to its end, `format` is the text of `%.17g`.
pub record Doubles (F : Type 0) : Type 0 where
  pub strtod : Bytes → Option F
  pub is_finite : F → Bool
  pub format : F → Bytes

-- What ISO C and IEEE 754 say of them: the text of a finite double is a number of the JSON
-- grammar in fewer than 32 bytes, and 17 digits are enough to read the same double back.
pub record IsLawful {F : Type 0} (fp : Doubles F) : Type 0 where
  pub grammar :
      (n : F)
      → fp.is_finite n ≡ true
      → (l : Literal) × (is_literal l ≡ true) × (literal_text l ≡ fp.format n)
  pub exact : (n : F) → fp.is_finite n ≡ true → fp.strtod (fp.format n) ≡ some n
  pub short : (n : F) → fp.is_finite n ≡ true → length (fp.format n) < 32

-- A lower-case digit of `%04x`.
unfoldable pub hex_digit : ℕ → ℕ
hex_digit d = if ltb d 10 then b'0' + d else b'a' + (d - 10)

unfoldable pub hex4 : ℕ → Bytes
unfolding hex_digit
hex4 c =
    hex_digit (c / 4096)
    ∷ hex_digit ((c / 256) % 16)
    ∷ hex_digit ((c / 16) % 16)
    ∷ hex_digit (c % 16)
    ∷ []

-- The switch of `write_string`.
unfoldable pub write_byte : ℕ → Bytes
unfolding hex4
write_byte c =
    if c == b'"'
    then codes "\\\""
    else if c == b'\\'
    then codes "\\\\"
    else if c == 8
    then codes "\\b"
    else if c == 12
    then codes "\\f"
    else if c == 10
    then codes "\\n"
    else if c == 13
    then codes "\\r"
    else if c == 9
    then codes "\\t"
    else if ltb c 0x20
    then codes "\\u" ++ hex4 c
    else c ∷ []

unfoldable pub write_bytes : Bytes → Bytes
unfolding write_byte
write_bytes [] = []
write_bytes (c ∷ s) = write_byte c ++ write_bytes s

unfoldable pub write_string : Bytes → Bytes
unfolding write_bytes
write_string s = b'"' ∷ write_bytes s ++ b'"' ∷ []

-- `sizeof numbuf` of `write_number`.
abbrev pub text_size : ℕ
text_size = 32

-- The parts of a text, `none` if one of them fails.
infixr 65 ◌then_text◌
abbrev pub ◌then_text◌ : Option Bytes → Option Bytes → Option Bytes
some a then_text some b = some (a ++ b)
some a then_text none = none
none then_text b = none

module _ {F : Type 0} (fp : Doubles F) where
  unfoldable pub write_number : F → Option Bytes
  write_number n =
      if not (fp.is_finite n)
      then some (codes "null")
      else if leb text_size (length (fp.format n))
      then none
      else some (fp.format n)

  -- `separator` is empty in front of the first part and a comma in front of the others.
  unfoldable mutual
    unfolding write_number write_string c_str

    pub write_value : ℕ → Value F → Option Bytes
    write_value zero v = none
    write_value (suc levels) null = some (codes "null")
    write_value (suc levels) (boolean true) = some (codes "true")
    write_value (suc levels) (boolean false) = some (codes "false")
    write_value (suc levels) (number n) = write_number n
    write_value (suc levels) (string s) = some (write_string s)
    write_value (suc levels) (array vs) =
        some (codes "[") then_text write_items levels [] vs then_text some (codes "]")
    write_value (suc levels) (object ms) =
        some (codes "{") then_text write_members levels [] ms then_text some (codes "}")

    pub write_items : ℕ → Bytes → Items F → Option Bytes
    write_items levels separator no_items = some []
    write_items levels separator (item v vs) =
        some separator then_text write_value levels v then_text write_items levels (codes ",") vs

    pub write_members : ℕ → Bytes → Members F → Option Bytes
    write_members levels separator no_members = some []
    write_members levels separator (member k v ms) =
        some separator
        then_text some (write_string (c_str k) ++ codes ":")
        then_text write_value levels v
        then_text write_members levels (codes ",") ms

  -- `ps_json_write`.
  unfoldable pub write : Value F → Option Bytes
  unfolding write_value
  write v = write_value max_depth v
