-- ===== src/Crypto/Base64url/Tests.antt =====
-- Runs of the encoder and the decoder, and instances of their theorems.
use platform_service.Common.{ℕ, ◌≡◌, refl, Bool, true, false, ◌++◌, arith, codes}
use platform_service.Platform.Buf.Contents.{init-IsValid}
use platform_service.Platform.Buf.{init, append, double_until, ensure_capacity, first_cap}
use platform_service.Crypto.Base64url.Encoding.{encoded}
use platform_service.Crypto.Base64url.RoundTrip.{decode-encoded}
use platform_service.Crypto.Base64url.{
  encode, decode, decode_groups, group2, group3, group4, decode_char, encode_char, chunk1, chunk2,
  chunk3,
}

abbrev met : ℕ → Bool
met _ = true

encode_runs : (encode met (codes "{\"a\":1}") init).0.content ≡ codes "eyJhIjoxfQ"
unfolding encode chunk1 chunk2 chunk3 encode_char append ensure_capacity double_until first_cap init
encode_runs = refl

decode_runs :
    ((decode met (codes "eyJhIjoxfQ") init).0.content ≡ codes "{\"a\":1}")
    × ((decode met (codes "eyJhIjoxfQ") init).1 ≡ true)
unfolding decode decode_groups group2 group3 group4 decode_char append ensure_capacity double_until
    first_cap init
decode_runs = (refl, refl)

-- Padding, a foreign character, a length of 4k + 1, and bits behind the last byte.
decode_refuses :
    ((decode met (codes "Zg==") init).1 ≡ false)
    × ((decode met (codes "Zm+v") init).1 ≡ false)
    × ((decode met (codes "Zm9vY") init).1 ≡ false)
    × ((decode met (codes "Zh") init).1 ≡ false)
unfolding decode decode_groups group2 group3 group4 decode_char append ensure_capacity double_until
    first_cap init
decode_refuses = (refl, refl, refl, refl)

decode-encoded_example :
    ((decode met (encoded (codes "abcd")) init).1 ≡ true)
    × ((decode met (encoded (codes "abcd")) init).0.content ≡ init.content ++ codes "abcd")
unfolding init
decode-encoded_example =
    decode-encoded met (codes "abcd") init (λ c. refl) (omega arith) init-IsValid (omega arith)
