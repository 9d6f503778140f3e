-- ===== src/Crypto/Base64url/Alphabet.antt =====
-- The characters of an encoding, src/crypto/base64url.c.
use platform_service.Common.{
  ℕ, zero, suc, ◌≡◌, refl, Bool, true, false, not, ◌&&◌, [], ◌∷◌, arith, Bytes, ◌==◌, get_or,
}
use platform_service.Crypto.Base64url.Encoding.{encoded}
use platform_service.Crypto.Base64url.{encode_table, encode_char, chunk1, chunk2, chunk3}

-- The byte does not occur.
unfoldable pub lacks : ℕ → Bytes → Bool
lacks x [] = true
lacks x (c ∷ s) = not (c == x) && lacks x s

lacks-get_or :
    (x : ℕ) (xs : Bytes) (k : ℕ)
    → (0 == x) ≡ false
    → lacks x xs ≡ true
    → (get_or xs k 0 == x) ≡ false
unfolding lacks
lacks-get_or x [] k z h = z
lacks-get_or x (c ∷ xs) zero z h = ground arith
lacks-get_or x (c ∷ xs) (suc k) z h = lacks-get_or x xs k z (ground arith)

module _ (x : ℕ) (z : (0 == x) ≡ false) (h : lacks x encode_table ≡ true) where
  encode_char-lacks : (k : ℕ) → (encode_char k == x) ≡ false
  unfolding encode_char
  encode_char-lacks k = lacks-get_or x encode_table k z h

  lacks_char : (k : ℕ) (s : Bytes) → lacks x s ≡ true → lacks x (encode_char k ∷ s) ≡ true
  unfolding lacks
  lacks_char k s l = rw (encode_char-lacks k) l

  lacks_nil : lacks x [] ≡ true
  unfolding lacks
  lacks_nil = refl

  -- A byte that is not in the table is in no encoding.
  pub lacks-encoded : (bytes : Bytes) → lacks x (encoded bytes) ≡ true
  unfolding chunk1 chunk2 chunk3
  lacks-encoded [] = lacks_nil
  lacks-encoded (a ∷ []) = search (lacks_char, lacks_nil)
  lacks-encoded (a ∷ b ∷ []) = search (lacks_char, lacks_nil)
  lacks-encoded (a ∷ b ∷ c ∷ rest) = search (lacks_char, lacks-encoded rest)
