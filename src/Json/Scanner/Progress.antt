-- ===== src/Json/Scanner/Progress.antt =====
-- How far the parsers of src/json/json_parse.c move on, and that their loops have fuel.
use platform_service.Common.{
  ℕ, ◌-◌, ◌≤◌, ◌≡◌, inl, inr, Bool, true, false, ◌||◌, Option, some, [], ◌∷◌, arith, Bytes, leb,
  ◌==◌, if◌then◌else◌, Bool-cases, Option-cases, length,
}
use platform_service.Json.Scanner.{
  expect_literal, Parsed, done, failed, stuck, Reason, ◌and_then◌, skip_ws, is_digit, skip_digits,
  skip_number, skip_minus, skip_integer, skip_fraction, skip_sign, skip_exponent, scan_number,
  read_literal, parse_number, numbuf_size, invalid_number, invalid_fraction, invalid_exponent,
}

-- The parser has not run out of fuel, and a success leaves at most so many bytes.
unfoldable pub Leaves : {A : Type 0} → ℕ → Parsed A → Type 0
Leaves n (done a r) = length r ≤ n
Leaves n (failed e r) = Unit {0}
Leaves n stuck = ⊥

module _ {A B : Type 0} where
  pub Leaves-and_then :
      (n k : ℕ) (m : Parsed A) (f : A → Bytes → Parsed B)
      → Leaves n m
      → ((a : A) (r : Bytes) → length r ≤ n → Leaves k (f a r))
      → Leaves k (m and_then f)
  unfolding Leaves
  Leaves-and_then n k (done a r) f h step = step a r h
  Leaves-and_then n k (failed e r) f h step = tt
  Leaves-and_then n k stuck f h step = absurd h

pub Leaves-mono : {A : Type 0} (n k : ℕ) (m : Parsed A) → n ≤ k → Leaves n m → Leaves k m
unfolding Leaves
Leaves-mono n k (done a r) l h = omega arith
Leaves-mono n k (failed e r) l h = tt
Leaves-mono n k stuck l h = absurd h

pub length-skip_ws : (s : Bytes) → length (skip_ws s) ≤ length s
unfolding skip_ws
length-skip_ws [] = omega arith
length-skip_ws (c ∷ s) = ground (arith, length-skip_ws s)

length-skip_digits : (s : Bytes) → length (skip_digits s) ≤ length s
unfolding skip_digits
length-skip_digits [] = omega arith
length-skip_digits (c ∷ s) = ground (arith, length-skip_digits s)

skip_number-Leaves : (e : Reason) (s : Bytes) → Leaves (length s - 1) (skip_number e s)
unfolding skip_number Leaves
skip_number-Leaves e [] = tt
skip_number-Leaves e (c ∷ s) = elim (Bool-cases (is_digit c)) [
  | inl digit ↦ rw digit (omega (arith, length-skip_digits s))
  | inr other ↦ rw other tt
]

skip_integer-Leaves : (s : Bytes) → Leaves (length s - 1) (skip_integer s)
unfolding skip_integer Leaves
skip_integer-Leaves [] = tt
skip_integer-Leaves (c ∷ s) = elim (Bool-cases (c == b'0')) [
  | inl zero_digit ↦ rw zero_digit (omega arith)
  | inr other ↦ rw other (skip_number-Leaves invalid_number (c ∷ s))
]

skip_fraction-Leaves : (s : Bytes) → Leaves (length s) (skip_fraction s)
unfolding skip_fraction Leaves
skip_fraction-Leaves [] = omega arith
skip_fraction-Leaves (c ∷ s) = elim (Bool-cases (c == b'.')) [
  | inl point ↦
      rw point
        (Leaves-mono (length s - 1) _ _ (omega arith) (skip_number-Leaves invalid_fraction s))
  | inr other ↦ rw other (omega arith)
]

length-skip_sign : (s : Bytes) → length (skip_sign s) ≤ length s
unfolding skip_sign
length-skip_sign [] = omega arith
length-skip_sign (c ∷ s) = ground arith

length-skip_minus : (s : Bytes) → length (skip_minus s) ≤ length s
unfolding skip_minus
length-skip_minus [] = omega arith
length-skip_minus (c ∷ s) = ground arith

skip_exponent-Leaves : (s : Bytes) → Leaves (length s) (skip_exponent s)
unfolding skip_exponent Leaves
skip_exponent-Leaves [] = omega arith
skip_exponent-Leaves (c ∷ s) = elim (Bool-cases (c == b'e' || c == b'E')) [
  | inl mark ↦ rw mark (
      Leaves-mono (length (skip_sign s) - 1) _ _ (omega (arith, length-skip_sign s))
        (skip_number-Leaves invalid_exponent (skip_sign s)))
  | inr other ↦ rw other (omega arith)
]

scan_number-Leaves : (s : Bytes) → Leaves (length s - 1) (scan_number s)
unfolding scan_number
scan_number-Leaves s =
    let n = length s - 1 in
    Leaves-and_then n n (skip_integer (skip_minus s) and_then (λ _ r. skip_fraction r)) _
      (Leaves-and_then n n (skip_integer (skip_minus s)) _
        (Leaves-mono _ n _ (omega (arith, length-skip_minus s))
          (skip_integer-Leaves (skip_minus s)))
        (λ a r h. Leaves-mono _ n _ h (skip_fraction-Leaves r)))
      (λ a r h. Leaves-mono _ n _ h (skip_exponent-Leaves r))

read_literal-Leaves :
    {F : Type 0} (strtod : Bytes → Option F) (l r : Bytes) (n : ℕ)
    → length r ≤ n
    → Leaves n (read_literal strtod l r)
unfolding read_literal Leaves
read_literal-Leaves strtod l r n h = elim (Bool-cases (leb numbuf_size (length l))) [
  | inl long ↦ rw long tt
  | inr short ↦
      rw short
        (elim (Option-cases (strtod l)) [ inl refused ↦ rw refused tt | inr (x, read) ↦ rw read h ])
]

pub parse_number-Leaves :
    {F : Type 0} (strtod : Bytes → Option F) (s : Bytes)
    → Leaves (length s - 1) (parse_number strtod s)
unfolding parse_number
parse_number-Leaves strtod s =
    let n = length s - 1 in
    Leaves-and_then n n (scan_number s) _ (scan_number-Leaves s)
      (λ a r h. read_literal-Leaves strtod _ r n h)

pub if-Leaves :
    {A : Type 0} (n : ℕ) (b : Bool) (x y : Parsed A)
    → Leaves n x
    → Leaves n y
    → Leaves n (if b then x else y)
if-Leaves n true x y p q = p
if-Leaves n false x y p q = q

pub expect_literal-le : (l s r : Bytes) → expect_literal l s ≡ some r → length r ≤ length s
unfolding expect_literal
expect_literal-le [] s r h = ground arith
expect_literal-le (l ∷ ls) [] r h = ground arith
expect_literal-le (l ∷ ls) (c ∷ s) r h = ground (arith, expect_literal-le ls s r)
