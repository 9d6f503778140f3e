-- ===== src/Auth/Jwt/RoundTrip.antt =====
-- Tokens that `ps_jwt_encode` of src/auth/jwt.c makes are verified.
use platform_service.Common.{
  ℕ, ◌+◌, ◌*◌, ◌≤◌, ◌<◌, ◌≡◌, refl, ap, ◌∙◌, Bool, true, false, Option, none, some, [], ◌∷◌, ◌++◌,
  append_assoc, arith, Bytes, ◌==◌, length, equal, equal_iff,
}
use platform_service.Common.Int.{ℤ, ◌≤ℤ◌, ◌+ℤ◌, ◌-ℤ◌}
use platform_service.Platform.Buf.{Buf, init, append_char}
use platform_service.Platform.Buf.Contents.{append-met, init-IsValid}
use platform_service.Platform.Buf.Growth.{IsValid}
use platform_service.Crypto.Base64url.{chunk1, chunk2, chunk3}
use platform_service.Crypto.Base64url.Alphabet.{lacks, lacks-encoded}
use platform_service.Crypto.Base64url.Encoding.{AllBytes, encoded}
use platform_service.Crypto.Base64url.Chained.{Took, encode-met, decode-met}
use platform_service.Json.Scanner.{skip_ws}
use platform_service.Json.Parser.{parse}
use platform_service.Json.Writer.{IsLawful}
use platform_service.Api.Rbac.{Claims}
use platform_service.Auth.Claims.{Casts, claims_ok, claims_write, claims_parse}
use platform_service.Auth.Claims.RoundTrip.{IsIssuable, claims_parse-claims_write}
use platform_service.Auth.Jwt.{
  header_b64, hmac_len, dot, sign, encode_payload, encode, split_dot, prepend, jwt_ok, sig_matches,
  verify_payload, verify_signature, verify_segments, verify_rest, verify, of_claims,
}

split_dot-append : (a b : Bytes) → lacks dot a ≡ true → split_dot (a ++ dot ∷ b) ≡ some (a, b)
unfolding split_dot lacks prepend
split_dot-append [] b h = refl
split_dot-append (x ∷ a) b h = ground (arith, split_dot-append a b)

split_dot-none : (a : Bytes) → lacks dot a ≡ true → split_dot a ≡ none
unfolding split_dot lacks prepend
split_dot-none [] h = refl
split_dot-none (x ∷ a) h = ground (arith, split_dot-none a)

encoded_some : (b : ℕ) (p : Bytes) → (length (encoded (b ∷ p)) == 0) ≡ false
unfolding chunk1 chunk2 chunk3
encoded_some b [] = refl
encoded_some b (c ∷ []) = refl
encoded_some b (c ∷ d ∷ p) = ground arith

length-encoded-le : (p : Bytes) → length (encoded p) ≤ 2 * length p
unfolding chunk1 chunk2 chunk3
length-encoded-le [] = omega arith
length-encoded-le (a ∷ []) = omega arith
length-encoded-le (a ∷ b ∷ []) = omega arith
length-encoded-le (a ∷ b ∷ c ∷ p) = omega (arith, length-encoded-le p)

-- The token as text.
unfoldable pub token_of : Bytes → Bytes → Bytes
token_of p sig = header_b64 ++ dot ∷ (encoded p ++ dot ∷ encoded sig)

lacks-dot : (bytes : Bytes) → lacks dot (encoded bytes) ≡ true
unfolding lacks
lacks-dot bytes = lacks-encoded dot refl refl bytes

module _ {F : Type 0} (fp : Casts F) (alloc : ℕ → Bool) (hmac : Bytes → Bytes → Option Bytes)
    (issuer audience secret : Bytes) (now skew : ℤ) (met : (n : ℕ) → alloc n ≡ true) where
  verify_payload-encoded :
      (p : Bytes)
      → AllBytes p
      → length p < 9223372036854775808
      → verify_payload fp alloc hmac issuer audience secret now skew (encoded p)
        ≡ of_claims (claims_parse fp p issuer audience now skew)
  unfolding verify_payload init Took
  verify_payload-encoded p all small =
      let (b, done, holds, _, _) = decode-met alloc met p init all init-IsValid (omega arith) in
      rw (done, holds) refl

  verify_signature-encoded :
      (payload sig : Bytes)
      → AllBytes sig
      → length sig ≡ hmac_len
      → hmac secret (header_b64 ++ dot ∷ payload) ≡ some sig
      → verify_signature fp alloc hmac issuer audience secret now skew payload (encoded sig)
        ≡ verify_payload fp alloc hmac issuer audience secret now skew payload
  unfolding verify_signature init Took sig_matches
  verify_signature-encoded payload sig all len signed =
      let (b, done, holds, _, length_is) =
        decode-met alloc met sig init all init-IsValid (omega (arith, len)) in
      rw (done, length_is, len, holds, signed) (ground (arith, equal_iff sig sig))

  verify_segments-encoded :
      (b d : ℕ) (p s : Bytes)
      → verify_segments fp alloc hmac issuer audience secret now skew header_b64
          (encoded (b ∷ p))
          (encoded (d ∷ s))
        ≡ verify_signature fp alloc hmac issuer audience secret now skew
            (encoded (b ∷ p))
            (encoded (d ∷ s))
  unfolding verify_segments equal
  verify_segments-encoded b d p s = rw (encoded_some b p, encoded_some d s) refl

  verify_rest-encoded :
      (b d : ℕ) (p s : Bytes)
      → verify_rest fp alloc hmac issuer audience secret now skew header_b64
          (split_dot (encoded (b ∷ p) ++ dot ∷ encoded (d ∷ s)))
        ≡ verify_segments fp alloc hmac issuer audience secret now skew header_b64
            (encoded (b ∷ p))
            (encoded (d ∷ s))
  unfolding verify_rest
  verify_rest-encoded b d p s =
      rw (split_dot-append (encoded (b ∷ p)) (encoded (d ∷ s)) (lacks-dot (b ∷ p)))
        (rw (split_dot-none (encoded (d ∷ s)) (lacks-dot (d ∷ s)), verify_rest) refl)

  -- The payload of a token with the right signature decides.
  verify-token_of :
      (b d : ℕ) (p s : Bytes)
      → AllBytes (b ∷ p)
      → length (b ∷ p) < 9223372036854775808
      → AllBytes (d ∷ s)
      → length (d ∷ s) ≡ hmac_len
      → hmac secret (header_b64 ++ dot ∷ encoded (b ∷ p)) ≡ some (d ∷ s)
      → verify fp alloc hmac issuer audience secret now skew (token_of (b ∷ p) (d ∷ s))
        ≡ of_claims (claims_parse fp (b ∷ p) issuer audience now skew)
  unfolding verify token_of split_dot
  verify-token_of b d p s all small all_sig len signed =
      verify_rest-encoded b d p s
      ∙ verify_segments-encoded b d p s
      ∙ verify_signature-encoded (encoded (b ∷ p)) (d ∷ s) all_sig len signed
      ∙ verify_payload-encoded (b ∷ p) all small

  sign-met :
      (b : Buf) (sig : Bytes)
      → IsValid b
      → b.len + 1 + length (encoded sig) < 9223372036854775808
      → hmac secret b.content ≡ some sig
      → (b' : Buf) × (sign alloc hmac secret b ≡ (b', true))
        × (b'.content ≡ b.content ++ dot ∷ encoded sig)
  unfolding sign append_char Took
  sign-met b sig v small signed =
      let (b4, d4, h4, v4, l4) = append-met alloc b (dot ∷ []) met v (omega arith) in
      let (b5, d5, h5, v5, l5) = encode-met alloc met sig b4 v4 (omega arith) in
      (
        b5,
        rw (signed, sign) (rw (d4, d5) refl),
        rw (h5, h4) (append_assoc b.content (dot ∷ []) (encoded sig)),
      )

  -- What the encoder leaves in an empty buffer.
  encode_payload-token_of :
      (p sig : Bytes)
      → length (encoded p) < 2305843009213693952
      → length (encoded sig) < 2305843009213693952
      → hmac secret (header_b64 ++ dot ∷ encoded p) ≡ some sig
      → (b' : Buf) × (encode_payload alloc hmac secret (some p) init ≡ (b', true))
        × (b'.content ≡ token_of p sig)
  unfolding encode_payload token_of init Took append_char
  encode_payload-token_of p sig small small_sig signed =
      let (b1, d1, h1, v1, l1) = append-met alloc init header_b64 met init-IsValid (omega arith) in
      let (b2, d2, h2, v2, l2) = append-met alloc b1 (dot ∷ []) met v1 (omega arith) in
      let (b3, d3, h3, v3, l3) = encode-met alloc met p b2 v2 (omega arith) in
      let signed_text : b3.content ≡ header_b64 ++ dot ∷ encoded p = rw (h3, h2, h1) refl in
      let (b4, d4, h4) = sign-met b3 sig v3 (omega arith) (rw signed_text signed) in
      (
        b4,
        rw (d1, d2, d3) d4,
        rw (h4, signed_text) (append_assoc header_b64 (dot ∷ encoded p) (dot ∷ encoded sig)),
      )

  pub verified :
      (c : Claims) (t sig : Bytes)
      → claims_parse fp t issuer audience now skew ≡ claims_ok c
      → AllBytes t
      → length t < 1152921504606846976
      → AllBytes sig
      → length sig ≡ hmac_len
      → hmac secret (header_b64 ++ dot ∷ encoded t) ≡ some sig
      → verify fp alloc hmac issuer audience secret now skew (token_of t sig) ≡ jwt_ok c
  unfolding claims_parse of_claims parse skip_ws
  verified c [] sig parsed all small all_sig len signed = cc parsed
  verified c (b ∷ p) [] parsed all small all_sig len signed = absurd (omega (arith, len))
  verified c (b ∷ p) (d ∷ s) parsed all small all_sig len signed =
      verify-token_of b d p s all (omega arith) all_sig len signed ∙ ap of_claims parsed

  -- Where memory is granted and HMAC gives 32 bytes: a token that is encoded into an empty buffer
  -- for claims of the shape that the service issues is verified under the same secret, issuer and
  -- audience within its window, and gives the same claims. The claims' JSON is taken to be bytes,
  -- fewer than 2^60.
  pub verify-encode :
      (c : Claims)
      → IsLawful fp.doubles
      → IsIssuable fp c
      → now ≤ℤ c.exp +ℤ skew
      → c.nbf -ℤ skew ≤ℤ now
      → ((d : Bytes)
          → (sig : Bytes) × (hmac secret d ≡ some sig) × AllBytes sig × (length sig ≡ hmac_len))
      → ((t : Bytes)
          → claims_write fp c issuer audience ≡ some t
          → AllBytes t × (length t < 1152921504606846976))
      → (b : Buf) × (encode fp alloc hmac issuer audience secret c init ≡ (b, true))
        × (verify fp alloc hmac issuer audience secret now skew b.content ≡ jwt_ok c)
  unfolding encode
  verify-encode c law good late early mac bytes =
      let (t, written, parsed) =
        claims_parse-claims_write fp c issuer audience good now skew law late early in
      let (sig, signed, all_sig, len) = mac (header_b64 ++ dot ∷ encoded t) in
      let (all, small) = bytes t written in
      let (b, done, holds) =
        encode_payload-token_of t sig (omega (arith, length-encoded-le t))
          (omega (arith, length-encoded-le sig)) signed in
      (b, rw written done, rw holds (verified c t sig parsed all small all_sig len signed))
