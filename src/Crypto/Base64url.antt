-- ===== src/Crypto/Base64url.antt =====
-- base64url without padding, src/crypto/base64url.c. Bytes are numbers below 256. In `n`, `|` joins
-- bits that do not overlap, which is a sum; `>> k` divides by 2^k and `& 0x3F` takes a remainder.
pub mod Digits
pub mod Encoding
pub mod RoundTrip
pub mod Chained
pub mod Alphabet
mod Tests
use platform_service.Common.{
  ℕ, zero, suc, ◌+◌, ◌-◌, ◌*◌, ◌/◌, ◌%◌, ◌^◌, ◌≤◌, ◌<◌, min, code, String, ◌≡◌, refl, sym, ap, ◌∙◌,
  subst, ◌≢◌, ◌↔◌, ◌⊎◌, inl, inr, Bool, true, false, not, ◌&&◌, ◌||◌, Option, none, some, List, [],
  ◌∷◌, ◌++◌, append_assoc, append-nil, arith, Bytes, codes, ltb, leb, ◌==◌, if◌then◌else◌, ltb→lt,
  lt→ltb, leb→le, ==_iff, tests, Bool-cases, Option-cases, length, get_elem?, set, length-append,
  length-set, get_elem?-set_self, get_elem?-set_ne, get_or, take, drop, replicate, take-append-drop,
  length-take, length-drop, length-replicate, length-map, equal, equal_iff,
}
use platform_service.Platform.Buf.{Buf, append}

-- `ENCODE_TABLE`.
abbrev pub encode_table : Bytes
encode_table = codes "ABCDEFGHIJKLMNOPQRSTUVWXYZabcdefghijklmnopqrstuvwxyz0123456789-_"

-- `ENCODE_TABLE[k]`; the index is always below 64.
pub encode_char : ℕ → ℕ
encode_char k = get_or encode_table k 0

-- The four, three or two characters of a group of three, two or one bytes.
unfoldable pub chunk3 : ℕ → ℕ → ℕ → Bytes
chunk3 a b c =
    let n = a * 65536 + b * 256 + c in
    encode_char (n / 262144 % 64)
    ∷ encode_char (n / 4096 % 64)
    ∷ encode_char (n / 64 % 64)
    ∷ encode_char (n % 64)
    ∷ []

unfoldable pub chunk2 : ℕ → ℕ → Bytes
chunk2 a b =
    let n = a * 65536 + b * 256 in
    encode_char (n / 262144 % 64) ∷ encode_char (n / 4096 % 64) ∷ encode_char (n / 64 % 64) ∷ []

unfoldable pub chunk1 : ℕ → Bytes
chunk1 a = let n = a * 65536 in encode_char (n / 262144 % 64) ∷ encode_char (n / 4096 % 64) ∷ []

-- `ps_base64url_encode`: the loop takes three bytes at a time.
pub encode : (ℕ → Bool) → Bytes → Buf → Buf × Bool
encode alloc [] out = (out, true)
encode alloc (a ∷ []) out = append alloc out (chunk1 a)
encode alloc (a ∷ b ∷ []) out = append alloc out (chunk2 a b)
encode alloc (a ∷ b ∷ c ∷ rest) out =
    let (out', done) = append alloc out (chunk3 a b c) in
    let later = encode alloc rest out' in if done then later else (out', false)

-- `none` where the source returns -1.
pub decode_char : ℕ → Option ℕ
decode_char c =
    if leb b'A' c && leb c b'Z'
    then some (c - b'A')
    else if leb b'a' c && leb c b'z'
    then some (c - b'a' + 26)
    else if leb b'0' c && leb c b'9'
    then some (c - b'0' + 52)
    else if c == b'-'
    then some 62
    else if c == b'_'
    then some 63
    else none

infixl 5 ◌>>=◌
abbrev pub ◌>>=◌ : {A B : Type 0} → Option A → (A → Option B) → Option B
none >>= f = none
some a >>= f = f a

-- The bytes of a whole group, of a last group of two characters and of one of three.
pub group4 : ℕ → ℕ → ℕ → ℕ → Option Bytes
group4 t0 t1 t2 t3 = do
  c0 ← decode_char t0
  c1 ← decode_char t1
  c2 ← decode_char t2
  c3 ← decode_char t3
  let n = c0 * 262144 + c1 * 4096 + c2 * 64 + c3
  some ((n / 65536 % 256) ∷ (n / 256 % 256) ∷ (n % 256) ∷ [])

pub group2 : ℕ → ℕ → Option Bytes
group2 t0 t1 = do
  c0 ← decode_char t0
  c1 ← decode_char t1
  if c1 % 16 == 0 then some (((c0 * 4 + c1 / 16) % 256) ∷ []) else none

pub group3 : ℕ → ℕ → ℕ → Option Bytes
group3 t0 t1 t2 = do
  c0 ← decode_char t0
  c1 ← decode_char t1
  c2 ← decode_char t2
  let n = c0 * 262144 + c1 * 4096 + c2 * 64
  if c2 % 4 == 0 then some ((n / 65536 % 256) ∷ (n / 256 % 256) ∷ []) else none

put : (ℕ → Bool) → Buf → Option Bytes → Buf × Bool
put alloc out none = (out, false)
put alloc out (some bytes) = append alloc out bytes

-- The loop behind the test of the length, four characters at a time.
pub decode_groups : (ℕ → Bool) → Bytes → Buf → Buf × Bool
unfolding put
decode_groups alloc (t0 ∷ t1 ∷ t2 ∷ t3 ∷ rest) out =
    let (out', done) = put alloc out (group4 t0 t1 t2 t3) in
    let later = decode_groups alloc rest out' in if done then later else (out', false)
decode_groups alloc (t0 ∷ t1 ∷ t2 ∷ []) out = put alloc out (group3 t0 t1 t2)
decode_groups alloc (t0 ∷ t1 ∷ []) out = put alloc out (group2 t0 t1)
decode_groups alloc (_ ∷ []) out = (out, true)
decode_groups alloc [] out = (out, true)

pub decode : (ℕ → Bool) → Bytes → Buf → Buf × Bool
decode alloc text out = if length text % 4 == 1 then (out, false) else decode_groups alloc text out
