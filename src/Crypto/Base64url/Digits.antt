-- ===== src/Crypto/Base64url/Digits.antt =====
-- The alphabet: characters and digits correspond.
use platform_service.Common.{
  ℕ, zero, suc, ◌<◌, ◌≡◌, refl, ap, subst, Bool, true, false, ◌&&◌, Option, none, some, arith, ltb,
  ◌==◌, ==_iff,
}
use platform_service.Crypto.Base64url.{encode_char, decode_char}

-- Whether the test holds of all numbers under `k`.
passes : (ℕ → Bool) → ℕ → Bool
passes test zero = true
passes test (suc k) = passes test k && test k

passes_lem : (test : ℕ → Bool) (k c : ℕ) → c < k → passes test k ≡ true → test c ≡ true
unfolding passes
passes_lem test zero c small h = absurd (omega arith)
passes_lem test (suc k) c small h = ground (arith, passes_lem test k c)

abbrev is_digit : ℕ → Option ℕ → Bool
is_digit k none = false
is_digit k (some j) = j == k

digits_table : passes (λ k. is_digit k (decode_char (encode_char k))) 64 ≡ true
unfolding passes decode_char encode_char
digits_table = refl

is_digit_lem : (k : ℕ) (o : Option ℕ) → is_digit k o ≡ true → o ≡ some k
is_digit_lem k none h = cc
is_digit_lem k (some j) h = ap some ((==_iff j k).0 h)

pub decode_char-encode_char : (k : ℕ) → k < 64 → decode_char (encode_char k) ≡ some k
decode_char-encode_char k h = is_digit_lem k _ (passes_lem _ 64 k h digits_table)

abbrev is_code : ℕ → Option ℕ → Bool
is_code c none = true
is_code c (some k) = ltb k 64 && encode_char k == c

chars_table : passes (λ c. is_code c (decode_char c)) 123 ≡ true
unfolding passes decode_char encode_char
chars_table = refl

decode_char-lt : (c k : ℕ) → decode_char c ≡ some k → c < 123
unfolding decode_char
decode_char-lt c k h = ground arith

is_code-some : (c k : ℕ) → is_code c (some k) ≡ true → (k < 64) × (encode_char k ≡ c)
is_code-some c k h = ground arith

pub encode_char-decode_char : (c k : ℕ) → decode_char c ≡ some k → (k < 64) × (encode_char k ≡ c)
encode_char-decode_char c k h =
    is_code-some c k
      (subst (λ o. is_code c o ≡ true) h (passes_lem _ 123 c (decode_char-lt c k h) chars_table))
