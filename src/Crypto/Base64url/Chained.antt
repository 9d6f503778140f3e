-- ===== src/Crypto/Base64url/Chained.antt =====
-- The buffer behind the routines of src/crypto/base64url.c, for callers that chain them, where
-- `realloc` meets every request.
use platform_service.Common.{
  ℕ, ◌+◌, ◌<◌, ◌≡◌, refl, sym, ap, ◌∙◌, Bool, true, [], ◌∷◌, ◌++◌, append_assoc, append-nil, arith,
  Bytes, length, length-append,
}
use platform_service.Platform.Buf.Contents.{append-met}
use platform_service.Platform.Buf.Growth.{IsValid}
use platform_service.Platform.Buf.{Buf}
use platform_service.Crypto.Base64url.Encoding.{AllBytes, encoded}
use platform_service.Crypto.Base64url.{chunk1, chunk2, chunk3, encode, decode}
use platform_service.Crypto.Base64url.RoundTrip.{length-encoded, decode_groups-encoded}

-- A call succeeded, and the buffer has taken the bytes.
unfoldable pub Took : Buf → Bytes → Buf × Bool → Type 0
Took out bytes r =
    (b' : Buf) × (r ≡ (b', true))
    × (b'.content ≡ out.content ++ bytes)
    × IsValid b'
    × (b'.len ≡ out.len + length bytes)

module _ (alloc : ℕ → Bool) (met : (c : ℕ) → alloc c ≡ true) where
  pub encode-met :
      (bytes : Bytes) (out : Buf)
      → IsValid out
      → out.len + length (encoded bytes) < 9223372036854775808
      → Took out (encoded bytes) (encode alloc bytes out)
  unfolding encode chunk1 chunk2 chunk3 Took
  encode-met [] out v small = (out, refl, sym (append-nil out.content), v, omega arith)
  encode-met (a ∷ []) out v small = append-met alloc out (chunk1 a) met v small
  encode-met (a ∷ b ∷ []) out v small = append-met alloc out (chunk2 a b) met v small
  encode-met (a ∷ b ∷ c ∷ rest) out v small =
      let (b', done, holds, v', more) = append-met alloc out (chunk3 a b c) met v (omega arith) in
      let (b'', later, holds', v'', more') = encode-met rest b' v' (omega arith) in
      (
        b'',
        rw (done, later) refl,
        holds'
            ∙ ap (λ (t : Bytes). t ++ encoded rest) holds
            ∙ append_assoc out.content (chunk3 a b c) (encoded rest),
        v'',
        omega (arith, length-append (chunk3 a b c) (encoded rest)),
      )

  pub decode-met :
      (bytes : Bytes) (out : Buf)
      → AllBytes bytes
      → IsValid out
      → out.len + length bytes < 9223372036854775808
      → Took out bytes (decode alloc (encoded bytes) out)
  unfolding decode Took
  decode-met bytes out all v small =
      let (b', done, holds, v', more) = decode_groups-encoded alloc met bytes out all v small in
      (b', ground (arith, length-encoded bytes), holds, v', more)
