-- ===== src/Crypto/Base64url/RoundTrip.antt =====
-- Encoding and decoding are inverse to one another.
use platform_service.Common.{
  ℕ, ◌+◌, ◌%◌, ◌<◌, ◌≡◌, refl, sym, ap, ◌∙◌, ◌≢◌, inl, inr, Bool, true, Option, none, some, [], ◌∷◌,
  ◌++◌, append_assoc, append-nil, arith, Bytes, ◌==◌, Bool-cases, length,
}
use platform_service.Platform.Buf.Contents.{append-content, append-met}
use platform_service.Platform.Buf.Growth.{IsValid}
use platform_service.Platform.Buf.{Buf, append}
use platform_service.Crypto.Base64url.Encoding.{
  AllBytes, encoded, group4-chunk3, group3-chunk2, group2-chunk1, group4-canonical,
  group3-canonical, group2-canonical,
}
use platform_service.Crypto.Base64url.{
  chunk1, chunk2, chunk3, encode, group2, group3, group4, put, decode_groups, decode,
}

-- Whatever `realloc` does, an encoding that reports success has appended the encoded bytes.
pub encode-content :
    (alloc : ℕ → Bool) (bytes : Bytes) (out : Buf)
    → (encode alloc bytes out).1 ≡ true
    → (encode alloc bytes out).0.content ≡ out.content ++ encoded bytes
unfolding encode
encode-content alloc [] out h = sym (append-nil out.content)
encode-content alloc (a ∷ []) out h = append-content alloc out (chunk1 a) h
encode-content alloc (a ∷ b ∷ []) out h = append-content alloc out (chunk2 a b) h
encode-content alloc (a ∷ b ∷ c ∷ rest) out h =
    elim (Bool-cases (append alloc out (chunk3 a b c)).1) [
      | inl done ↦ rw done (
          encode-content alloc rest (append alloc out (chunk3 a b c)).0 (rw done at h)
          ∙ ap (λ (t : Bytes). t ++ encoded rest) (append-content alloc out (chunk3 a b c) done)
          ∙ append_assoc out.content (chunk3 a b c) (encoded rest))
      | inr failed ↦ cc (rw failed at h)
    ]

module _ (alloc : ℕ → Bool) (met : (c : ℕ) → alloc c ≡ true) where
  -- Where every request for memory is met, encoding to a valid buffer that stays below 2^63 bytes
  -- reports success.
  pub encode_total :
      (bytes : Bytes) (out : Buf)
      → IsValid out
      → out.len + length (encoded bytes) < 9223372036854775808
      → (encode alloc bytes out).1 ≡ true
  unfolding encode chunk3
  encode_total [] out v small = refl
  encode_total (a ∷ []) out v small =
      let (b', done, _, _, _) = append-met alloc out (chunk1 a) met v small in ap (λ r. r.1) done
  encode_total (a ∷ b ∷ []) out v small =
      let (b', done, _, _, _) = append-met alloc out (chunk2 a b) met v small in ap (λ r. r.1) done
  encode_total (a ∷ b ∷ c ∷ rest) out v small =
      let (b', done, _, v', more) = append-met alloc out (chunk3 a b c) met v (omega arith) in
      rw done (encode_total rest b' v' (omega arith))

  pub decode_groups-encoded :
      (bytes : Bytes) (out : Buf)
      → AllBytes bytes
      → IsValid out
      → out.len + length bytes < 9223372036854775808
      → (b' : Buf) × (decode_groups alloc (encoded bytes) out ≡ (b', true))
        × (b'.content ≡ out.content ++ bytes)
        × IsValid b'
        × (b'.len ≡ out.len + length bytes)
  unfolding decode_groups chunk1 chunk2 chunk3
  decode_groups-encoded [] out all v small =
      (out, refl, sym (append-nil out.content), v, omega arith)
  decode_groups-encoded (a ∷ []) out (ha, _) v small =
      let (b', done, holds, v', more) = append-met alloc out (a ∷ []) met v small in
      (b', rw (group2-chunk1 a ha) done, holds, v', more)
  decode_groups-encoded (a ∷ b ∷ []) out (ha, (hb, _)) v small =
      let (b', done, holds, v', more) = append-met alloc out (a ∷ b ∷ []) met v small in
      (b', rw (group3-chunk2 a b ha hb) done, holds, v', more)
  decode_groups-encoded (a ∷ b ∷ c ∷ rest) out (ha, (hb, (hc, all))) v small =
      let (b1, done, holds, v1, more) = append-met alloc out (a ∷ b ∷ c ∷ []) met v (omega arith) in
      let (b', later, all_of, v', further) = decode_groups-encoded rest b1 all v1 (omega arith) in
      (
        b',
        rw (group4-chunk3 a b c ha hb hc) (rw done later),
        all_of
            ∙ ap (λ (t : Bytes). t ++ rest) holds
            ∙ append_assoc out.content (a ∷ b ∷ c ∷ []) rest,
        v',
        omega arith,
      )

pub length-encoded : (bytes : Bytes) → length (encoded bytes) % 4 ≢ 1
unfolding chunk1 chunk2 chunk3
length-encoded [] h = omega arith
length-encoded (a ∷ []) h = omega arith
length-encoded (a ∷ b ∷ []) h = omega arith
length-encoded (a ∷ b ∷ c ∷ rest) h = length-encoded rest (omega arith)

-- Decoding the encoding of bytes succeeds and gives them back, if all requests for memory are met
-- and the buffer is valid and stays below 2^63 bytes.
pub decode-encoded :
    (alloc : ℕ → Bool) (bytes : Bytes) (out : Buf)
    → ((c : ℕ) → alloc c ≡ true)
    → AllBytes bytes
    → IsValid out
    → out.len + length bytes < 9223372036854775808
    → ((decode alloc (encoded bytes) out).1 ≡ true)
      × ((decode alloc (encoded bytes) out).0.content ≡ out.content ++ bytes)
unfolding decode
decode-encoded alloc bytes out met all v small =
    let (b', done, holds, _, _) = decode_groups-encoded alloc met bytes out all v small in
    ground (arith, length-encoded bytes)

put-content :
    (alloc : ℕ → Bool) (out : Buf) (o : Option Bytes)
    → (put alloc out o).1 ≡ true
    → (bs : Bytes) × (o ≡ some bs) × ((put alloc out o).0.content ≡ out.content ++ bs)
unfolding put
put-content alloc out none h = cc
put-content alloc out (some bs) h = (bs, refl, append-content alloc out bs h)

decode_groups_canonical :
    (alloc : ℕ → Bool) (text : Bytes) (out : Buf)
    → length text % 4 ≢ 1
    → (decode_groups alloc text out).1 ≡ true
    → (bs : Bytes) × ((decode_groups alloc text out).0.content ≡ out.content ++ bs)
      × (encoded bs ≡ text)
      × AllBytes bs
unfolding decode_groups
decode_groups_canonical alloc [] out l h = ([], sym (append-nil out.content), refl, tt)
decode_groups_canonical alloc (t0 ∷ []) out l h = absurd (l refl)
decode_groups_canonical alloc (t0 ∷ t1 ∷ []) out l h =
    let (bs, d, holds) = put-content alloc out (group2 t0 t1) h in
    let (a, e, text_is, all) = group2-canonical t0 t1 bs d in
    (a ∷ [], holds ∙ ap (λ (t : Bytes). out.content ++ t) e, text_is, all)
decode_groups_canonical alloc (t0 ∷ t1 ∷ t2 ∷ []) out l h =
    let (bs, d, holds) = put-content alloc out (group3 t0 t1 t2) h in
    let (a, b, e, text_is, all) = group3-canonical t0 t1 t2 bs d in
    (a ∷ b ∷ [], holds ∙ ap (λ (t : Bytes). out.content ++ t) e, text_is, all)
decode_groups_canonical alloc (t0 ∷ t1 ∷ t2 ∷ t3 ∷ rest) out l h =
    let first = put alloc out (group4 t0 t1 t2 t3) in
    elim (Bool-cases first.1) [
      | inl done ↦
          let (bs, d, holds) = put-content alloc out (group4 t0 t1 t2 t3) done in
          let (a, b, c, e, text_is, (ha, (hb, (hc, _)))) = group4-canonical t0 t1 t2 t3 bs d in
          let (more, later, rest_is, all) =
            decode_groups_canonical alloc rest first.0 (λ r. l (omega arith)) (rw done at h) in
          (
            a ∷ b ∷ c ∷ more,
            rw done (
                later
                ∙ ap (λ (t : Bytes). t ++ more) (holds ∙ ap (λ (t : Bytes). out.content ++ t) e)
                ∙ append_assoc out.content (a ∷ b ∷ c ∷ []) more),
            ap (λ (t : Bytes). t ++ encoded more) text_is
                ∙ ap (λ (t : Bytes). t0 ∷ t1 ∷ t2 ∷ t3 ∷ t) rest_is,
            (ha, (hb, (hc, all))),
          )
      | inr failed ↦ cc (rw failed at h)
    ]

-- Whatever `realloc` does, a text that decodes is the encoding of the bytes that it decodes to:
-- no byte string has two accepted spellings.
pub decode_canonical :
    (alloc : ℕ → Bool) (text : Bytes) (out : Buf)
    → (decode alloc text out).1 ≡ true
    → (bs : Bytes) × ((decode alloc text out).0.content ≡ out.content ++ bs)
      × (encoded bs ≡ text)
      × AllBytes bs
unfolding decode
decode_canonical alloc text out h = elim (Bool-cases (length text % 4 == 1)) [
  | inl odd ↦ cc (rw odd at h)
  | inr even ↦ rw even (decode_groups_canonical alloc text out (λ e. ground arith) (rw even at h))
]
