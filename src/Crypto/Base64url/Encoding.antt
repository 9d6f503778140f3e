-- ===== src/Crypto/Base64url/Encoding.antt =====
-- The encoding as functions on byte strings, and what one group of characters decodes to.
use platform_service.Common.{
  ℕ, ◌+◌, ◌*◌, ◌/◌, ◌%◌, ◌<◌, ◌≡◌, refl, Option, none, some, [], ◌∷◌, ◌++◌, arith, Bytes,
}
use platform_service.Crypto.Base64url.Digits.{decode_char-encode_char, encode_char-decode_char}
use platform_service.Crypto.Base64url.{
  encode_char, decode_char, chunk1, chunk2, chunk3, group2, group3, group4, ◌>>=◌,
}

abbrev pub AllBytes : Bytes → Type 0
AllBytes [] = Unit {0}
AllBytes (b ∷ bs) = (b < 256) × AllBytes bs

abbrev pub encoded : Bytes → Bytes
encoded [] = []
encoded (a ∷ []) = chunk1 a
encoded (a ∷ b ∷ []) = chunk2 a b
encoded (a ∷ b ∷ c ∷ rest) = chunk3 a b c ++ encoded rest

module _ (a b c : ℕ) (ha : a < 256) (hb : b < 256) (hc : c < 256) where
  pub group4-chunk3 :
      (let n = a * 65536 + b * 256 + c in
        group4
          (encode_char (n / 262144 % 64))
          (encode_char (n / 4096 % 64))
          (encode_char (n / 64 % 64))
          (encode_char (n % 64)))
      ≡ some (a ∷ b ∷ c ∷ [])
  unfolding group4
  group4-chunk3 =
      let n = a * 65536 + b * 256 + c in
      rw
        (
          decode_char-encode_char (n / 262144 % 64) (omega arith),
          decode_char-encode_char (n / 4096 % 64) (omega arith),
          decode_char-encode_char (n / 64 % 64) (omega arith),
          decode_char-encode_char (n % 64) (omega arith),
        )
        (ground arith)

module _ (a b : ℕ) (ha : a < 256) (hb : b < 256) where
  pub group3-chunk2 :
      (let n = a * 65536 + b * 256 in
        group3
          (encode_char (n / 262144 % 64))
          (encode_char (n / 4096 % 64))
          (encode_char (n / 64 % 64)))
      ≡ some (a ∷ b ∷ [])
  unfolding group3
  group3-chunk2 =
      let n = a * 65536 + b * 256 in
      rw
        (
          decode_char-encode_char (n / 262144 % 64) (omega arith),
          decode_char-encode_char (n / 4096 % 64) (omega arith),
          decode_char-encode_char (n / 64 % 64) (omega arith),
        )
        (ground arith)

pub group2-chunk1 :
    (a : ℕ)
    → a < 256
    → group2 (encode_char (a * 65536 / 262144 % 64)) (encode_char (a * 65536 / 4096 % 64))
      ≡ some (a ∷ [])
unfolding group2
group2-chunk1 a ha =
    rw
      (
        decode_char-encode_char (a * 65536 / 262144 % 64) (omega arith),
        decode_char-encode_char (a * 65536 / 4096 % 64) (omega arith),
      )
      (ground arith)

pub bind-some :
    {A B : Type 0} (m : Option A) (f : A → Option B) {b : B}
    → (m >>= f) ≡ some b
    → (a : A) × (m ≡ some a) × (f a ≡ some b)
bind-some none f h = cc
bind-some (some a) f h = (a, refl, h)

chunk3-digits :
    (c0 c1 c2 c3 : ℕ)
    → c0 < 64
    → c1 < 64
    → c2 < 64
    → c3 < 64
    → let n = c0 * 262144 + c1 * 4096 + c2 * 64 + c3 in
      chunk3 (n / 65536 % 256) (n / 256 % 256) (n % 256)
      ≡ encode_char c0 ∷ encode_char c1 ∷ encode_char c2 ∷ encode_char c3 ∷ []
unfolding chunk3
chunk3-digits c0 c1 c2 c3 h0 h1 h2 h3 = ground arith

chunk2-digits :
    (c0 c1 c2 : ℕ)
    → c0 < 64
    → c1 < 64
    → c2 < 64
    → c2 % 4 ≡ 0
    → let n = c0 * 262144 + c1 * 4096 + c2 * 64 in
      chunk2 (n / 65536 % 256) (n / 256 % 256)
      ≡ encode_char c0 ∷ encode_char c1 ∷ encode_char c2 ∷ []
unfolding chunk2
chunk2-digits c0 c1 c2 h0 h1 h2 pad = ground arith

chunk1-digits :
    (c0 c1 : ℕ)
    → c0 < 64
    → c1 < 64
    → c1 % 16 ≡ 0
    → chunk1 ((c0 * 4 + c1 / 16) % 256) ≡ encode_char c0 ∷ encode_char c1 ∷ []
unfolding chunk1
chunk1-digits c0 c1 h0 h1 pad = ground arith

-- A group that decodes is the encoding of what it decodes to.
pub group4-canonical :
    (t0 t1 t2 t3 : ℕ) (bs : Bytes)
    → group4 t0 t1 t2 t3 ≡ some bs
    → (a b c : ℕ) × (bs ≡ a ∷ b ∷ c ∷ [])
      × (chunk3 a b c ≡ t0 ∷ t1 ∷ t2 ∷ t3 ∷ [])
      × AllBytes (a ∷ b ∷ c ∷ [])
unfolding group4
group4-canonical t0 t1 t2 t3 bs h =
    let (c0, d0, h0) = bind-some (decode_char t0) _ h in
    let (c1, d1, h1) = bind-some (decode_char t1) _ h0 in
    let (c2, d2, h2) = bind-some (decode_char t2) _ h1 in
    let (c3, d3, h3) = bind-some (decode_char t3) _ h2 in
    let (l0, e0) = encode_char-decode_char t0 c0 d0 in
    let (l1, e1) = encode_char-decode_char t1 c1 d1 in
    let (l2, e2) = encode_char-decode_char t2 c2 d2 in
    let (l3, e3) = encode_char-decode_char t3 c3 d3 in
    let n = c0 * 262144 + c1 * 4096 + c2 * 64 + c3 in
    (
      n / 65536 % 256,
      n / 256 % 256,
      n % 256,
      ground arith,
      cc (chunk3-digits c0 c1 c2 c3 l0 l1 l2 l3),
      omega arith,
    )

pub group3-canonical :
    (t0 t1 t2 : ℕ) (bs : Bytes)
    → group3 t0 t1 t2 ≡ some bs
    → (a b : ℕ) × (bs ≡ a ∷ b ∷ []) × (chunk2 a b ≡ t0 ∷ t1 ∷ t2 ∷ []) × AllBytes (a ∷ b ∷ [])
unfolding group3
group3-canonical t0 t1 t2 bs h =
    let (c0, d0, h0) = bind-some (decode_char t0) _ h in
    let (c1, d1, h1) = bind-some (decode_char t1) _ h0 in
    let (c2, d2, h2) = bind-some (decode_char t2) _ h1 in
    let (l0, e0) = encode_char-decode_char t0 c0 d0 in
    let (l1, e1) = encode_char-decode_char t1 c1 d1 in
    let (l2, e2) = encode_char-decode_char t2 c2 d2 in
    let n = c0 * 262144 + c1 * 4096 + c2 * 64 in
    let pad : c2 % 4 ≡ 0 = ground arith in
    (
      n / 65536 % 256,
      n / 256 % 256,
      ground arith,
      cc (chunk2-digits c0 c1 c2 l0 l1 l2 pad),
      omega arith,
    )

pub group2-canonical :
    (t0 t1 : ℕ) (bs : Bytes)
    → group2 t0 t1 ≡ some bs
    → (a : ℕ) × (bs ≡ a ∷ []) × (chunk1 a ≡ t0 ∷ t1 ∷ []) × AllBytes (a ∷ [])
unfolding group2
group2-canonical t0 t1 bs h =
    let (c0, d0, h0) = bind-some (decode_char t0) _ h in
    let (c1, d1, h1) = bind-some (decode_char t1) _ h0 in
    let (l0, e0) = encode_char-decode_char t0 c0 d0 in
    let (l1, e1) = encode_char-decode_char t1 c1 d1 in
    let pad : c1 % 16 ≡ 0 = ground arith in
    ((c0 * 4 + c1 / 16) % 256, ground arith, cc (chunk1-digits c0 c1 l0 l1 pad), omega arith)
