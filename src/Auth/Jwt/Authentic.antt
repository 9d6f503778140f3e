-- ===== src/Auth/Jwt/Authentic.antt =====
-- What a token must be for `ps_jwt_verify` of src/auth/jwt.c to look at its payload.
use platform_service.Common.{
  ℕ, ◌≡◌, refl, sym, ap, ◌∙◌, ◌≢◌, inl, inr, Bool, true, not, ◌||◌, Option, none, some, [], ◌∷◌,
  ◌++◌, arith, Bytes, ◌==◌, Bool-cases, Option-cases, length, equal, equal_iff,
}
use platform_service.Common.Int.{ℤ}
use platform_service.Platform.Buf.{init}
use platform_service.Crypto.Base64url
use platform_service.Auth.Claims.{Casts}
use platform_service.Auth.Jwt.{
  header_b64, hmac_len, dot, split_dot, prepend, VerifyResult, jwt_malformed, jwt_bad_alg,
  jwt_bad_signature, verify_payload, sig_matches, verify_signature, verify_segments, verify_rest,
  verify,
}

prepend_lem :
    (c : ℕ) (o : Option (Bytes × Bytes)) (a b : Bytes)
    → prepend c o ≡ some (a, b)
    → (a' : Bytes) × (o ≡ some (a', b)) × (a ≡ c ∷ a')
unfolding prepend
prepend_lem c none a b h = ground arith
prepend_lem c (some (a', b')) a b h = (a', ground arith, ground arith)

pub split_dot_lem : (s a b : Bytes) → split_dot s ≡ some (a, b) → s ≡ a ++ dot ∷ b
unfolding split_dot
split_dot_lem [] a b h = ground arith
split_dot_lem (c ∷ s) a b h = elim (Bool-cases (c == dot)) [
  | inl here ↦ ground arith
  | inr later ↦
      let (a', found, e) = prepend_lem c (split_dot s) a b (ground arith) in
      rw e (ap (λ t. c ∷ t) (split_dot_lem s a' b found))
]

sig_matches_lem : (sig : Bytes) (o : Option Bytes) → sig_matches sig o ≡ true → o ≡ some sig
unfolding sig_matches
sig_matches_lem sig none h = ground arith
sig_matches_lem sig (some expected) h = ap some (sym ((equal_iff sig expected).0 h))

module _ {F : Type 0} (fp : Casts F) (alloc : ℕ → Bool) (hmac : Bytes → Bytes → Option Bytes)
    (issuer audience secret : Bytes) (now skew : ℤ) where
  abbrev answer : Bytes → VerifyResult
  answer token = verify fp alloc hmac issuer audience secret now skew token

  -- The text of the signature decodes to the HMAC of the signed text.
  unfoldable pub Signs : Bytes → Bytes → Type 0
  Signs payload sig_text =
      ((Base64url.decode alloc sig_text init).1 ≡ true)
      × (hmac secret (header_b64 ++ dot ∷ payload)
          ≡ some (Base64url.decode alloc sig_text init).0.content)
      × ((Base64url.decode alloc sig_text init).0.len ≡ hmac_len)

  verify_signature_lem :
      (payload sig_text : Bytes)
      → verify_signature fp alloc hmac issuer audience secret now skew payload sig_text
        ≢ jwt_malformed
      → verify_signature fp alloc hmac issuer audience secret now skew payload sig_text
        ≢ jwt_bad_signature
      → Signs payload sig_text
        × (verify_signature fp alloc hmac issuer audience secret now skew payload sig_text
            ≡ verify_payload fp alloc hmac issuer audience secret now skew payload)
  unfolding verify_signature Signs
  verify_signature_lem payload sig_text m b =
      let decoded = Base64url.decode alloc sig_text init in
      elim (Bool-cases (not decoded.1 || not (decoded.0.len == hmac_len))) [
        | inl bad ↦ absurd (m (rw bad refl))
        | inr good ↦
            elim (Bool-cases
              (sig_matches decoded.0.content (hmac secret (header_b64 ++ dot ∷ payload)))) [
                | inl same ↦ (
                  (ground arith, sig_matches_lem decoded.0.content _ same, ground arith),
                  rw (good, same) refl,
                )
                | inr other ↦ absurd (b (rw (good, other) refl))
              ]
      ]

  verify_segments_lem :
      (header payload sig_text : Bytes)
      → verify_segments fp alloc hmac issuer audience secret now skew header payload sig_text
        ≢ jwt_malformed
      → verify_segments fp alloc hmac issuer audience secret now skew header payload sig_text
        ≢ jwt_bad_alg
      → (header ≡ header_b64)
        × (verify_segments fp alloc hmac issuer audience secret now skew header payload sig_text
            ≡ verify_signature fp alloc hmac issuer audience secret now skew payload sig_text)
  unfolding verify_segments
  verify_segments_lem header payload sig_text m a =
      elim (Bool-cases (length header == 0 || length payload == 0 || length sig_text == 0)) [
        | inl empty ↦ absurd (m (rw empty refl))
        | inr full ↦ elim (Bool-cases (equal header header_b64)) [
          | inl same ↦ ((equal_iff header header_b64).0 same, rw (full, same) refl)
          | inr other ↦ absurd (a (rw (full, other) refl))
        ]
      ]

  verify_rest_lem :
      (header : Bytes) (o : Option (Bytes × Bytes))
      → verify_rest fp alloc hmac issuer audience secret now skew header o ≢ jwt_malformed
      → (payload : Bytes) × (sig_text : Bytes) × (o ≡ some (payload, sig_text))
        × (verify_rest fp alloc hmac issuer audience secret now skew header o
            ≡ verify_segments fp alloc hmac issuer audience secret now skew header payload sig_text)
  unfolding verify_rest
  verify_rest_lem header none m = absurd (m refl)
  verify_rest_lem header (some (payload, rest)) m = elim (Option-cases (split_dot rest)) [
    | inl two ↦ (payload, rest, refl, rw (two, verify_rest) refl)
    | inr (p, more) ↦ absurd (m (rw (more, verify_rest) refl))
  ]

  -- A token is turned away as malformed, for its header or for its signature, unless it is the one
  -- header, a payload and a signature with dots between, and the signature decodes to the HMAC
  -- of all in front of it under the secret. Only then is the payload looked at, and what it holds
  -- decides: no other token's payload comes to the JSON parser.
  pub verify-authentic :
      (token : Bytes)
      → verify fp alloc hmac issuer audience secret now skew token ≢ jwt_malformed
      → verify fp alloc hmac issuer audience secret now skew token ≢ jwt_bad_alg
      → verify fp alloc hmac issuer audience secret now skew token ≢ jwt_bad_signature
      → (payload : Bytes) × (sig_text : Bytes) × (token
          ≡ header_b64 ++ dot ∷ (payload ++ dot ∷ sig_text))
        × Signs payload sig_text
        × (verify fp alloc hmac issuer audience secret now skew token
            ≡ verify_payload fp alloc hmac issuer audience secret now skew payload)
  unfolding verify
  verify-authentic token m a b = elim (Option-cases (split_dot token)) [
    | inl none_there ↦ absurd (m (rw (none_there, verify) refl))
    | inr ((header, rest), first) ↦
        let all : verify fp alloc hmac issuer audience secret now skew token
            ≡ verify_rest fp alloc hmac issuer audience secret now skew header (split_dot rest) =
          rw (first, verify) refl in
        let (payload, sig_text, second, to_segments) =
          verify_rest_lem header (split_dot rest) (λ e. m (all ∙ e)) in
        let so_far = all ∙ to_segments in
        let (h, to_signature) =
          verify_segments_lem header payload sig_text (λ e. m (so_far ∙ e)) (λ e. a (so_far ∙ e)) in
        let further = so_far ∙ to_signature in
        let (signs, to_payload) =
          verify_signature_lem payload sig_text (λ e. m (further ∙ e)) (λ e. b (further ∙ e)) in
        (
          payload,
          sig_text,
          split_dot_lem token header rest first
              ∙ rw (h, split_dot_lem rest payload sig_text second) refl,
          signs,
          further ∙ to_payload,
        )
  ]
