-- ===== src/Json/Scanner/Numbers.antt =====
-- The grammar of JSON numbers, which `parse_number` of src/json/json_parse.c reads.
pub mod Acceptance
use platform_service.Common.{
  ℕ, zero, suc, ◌+◌, ◌-◌, ◌*◌, ◌/◌, ◌%◌, ◌^◌, ◌≤◌, ◌<◌, min, code, String, ◌≡◌, refl, sym, ap, ◌∙◌,
  subst, ◌≢◌, ◌↔◌, ◌⊎◌, inl, inr, Bool, true, false, not, ◌&&◌, ◌||◌, Option, none, some, List, [],
  ◌∷◌, ◌++◌, append_assoc, append-nil, arith, Bytes, codes, ltb, leb, ◌==◌, if◌then◌else◌, ltb→lt,
  lt→ltb, leb→le, ==_iff, tests, Bool-cases, Option-cases, length, get_elem?, set, length-append,
  length-set, get_elem?-set_self, get_elem?-set_ne, get_or, take, drop, replicate, take-append-drop,
  take-append, length-take, length-drop, length-replicate, length-map, equal, equal_iff,
}
use platform_service.Json.Scanner.{is_digit}

pub data Sign : Type 0 where
  unsigned : Sign
  plus : Sign
  minus : Sign

pub record Exponent : Type 0 where
  pub mark : ℕ
  pub sign : Sign
  pub digits : Bytes

-- The parts of a number by the grammar of RFC 8259.
pub record Literal : Type 0 where
  pub negative : Bool
  pub digits : Bytes
  pub fraction : Option Bytes
  pub exponent : Option Exponent

unfoldable all_digits : Bytes → Bool
all_digits [] = true
all_digits (c ∷ s) = is_digit c && all_digits s

some_digits : Bytes → Bool
unfolding all_digits
some_digits [] = false
some_digits (c ∷ s) = all_digits (c ∷ s)

-- A zero, or digits that do not begin with one.
whole_digits : Bytes → Bool
unfolding some_digits
whole_digits [] = false
whole_digits (c ∷ s) = if c == b'0' then length s == 0 else some_digits (c ∷ s)

fraction_digits : Option Bytes → Bool
fraction_digits none = true
fraction_digits (some s) = some_digits s

exponent_digits : Option Exponent → Bool
exponent_digits none = true
exponent_digits (some e) = (e.mark == b'e' || e.mark == b'E') && some_digits e.digits

unfoldable pub is_literal : Literal → Bool
unfolding whole_digits fraction_digits exponent_digits
is_literal l = whole_digits l.digits && fraction_digits l.fraction && exponent_digits l.exponent

sign_text : Sign → Bytes
sign_text unsigned = []
sign_text plus = codes "+"
sign_text minus = codes "-"

fraction_text : Option Bytes → Bytes
fraction_text none = []
fraction_text (some s) = b'.' ∷ s

exponent_text : Option Exponent → Bytes
unfolding sign_text
exponent_text none = []
exponent_text (some e) = e.mark ∷ sign_text e.sign ++ e.digits

minus_text : Bool → Bytes
minus_text true = codes "-"
minus_text false = []

-- The literal as text.
unfoldable pub literal_text : Literal → Bytes
unfolding fraction_text exponent_text minus_text
literal_text l =
    minus_text l.negative ++ (l.digits ++ (fraction_text l.fraction ++ exponent_text l.exponent))

-- The byte does not continue a number.
unfoldable pub unlike_number : ℕ → Bool
unlike_number c = not (is_digit c || c == b'.' || c == b'e' || c == b'E')

-- Nothing that continues a number follows.
unfoldable pub ends_number : Bytes → Bool
ends_number [] = true
ends_number (c ∷ s) = unlike_number c

no_digit : Bytes → Bool
no_digit [] = true
no_digit (c ∷ s) = not (is_digit c)

is_literal_parts :
    (l : Literal)
    → is_literal l ≡ true
    → (whole_digits l.digits ≡ true)
      × (fraction_digits l.fraction ≡ true)
      × (exponent_digits l.exponent ≡ true)
unfolding is_literal
is_literal_parts l h = (ground arith, ground arith, ground arith)

begins :
    (n : Bool) (ds t : Bytes)
    → whole_digits ds ≡ true
    → (c : ℕ) × (r : Bytes) × (minus_text n ++ (ds ++ t) ≡ c ∷ r)
      × ((c == b'-' || is_digit c) ≡ true)
unfolding minus_text whole_digits some_digits is_digit
begins true ds t h = (b'-', ds ++ t, refl, refl)
begins false [] t h = ground arith
begins false (d ∷ ds) t h = (d, ds ++ t, refl, ground arith)

pub literal_text-begins :
    (l : Literal)
    → is_literal l ≡ true
    → (c : ℕ) × (r : Bytes) × (literal_text l ≡ c ∷ r) × ((c == b'-' || is_digit c) ≡ true)
unfolding literal_text
literal_text-begins l h =
    begins l.negative l.digits (fraction_text l.fraction ++ exponent_text l.exponent)
      (is_literal_parts l h).0
