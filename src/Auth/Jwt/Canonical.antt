-- ===== src/Auth/Jwt/Canonical.antt =====
-- The one spelling of a token that `ps_jwt_verify` of src/auth/jwt.c accepts.
use platform_service.Common.{
  ℕ, ◌≡◌, refl, sym, ◌∙◌, inl, inr, Bool, true, Option, some, ◌∷◌, ◌++◌, arith, Bytes, Bool-cases,
}
use platform_service.Common.Int.{ℤ}
use platform_service.Platform.Buf.{init}
use platform_service.Crypto.Base64url
use platform_service.Crypto.Base64url.Encoding.{encoded}
use platform_service.Crypto.Base64url.RoundTrip.{decode_canonical}
use platform_service.Api.Rbac.{Claims}
use platform_service.Auth.Claims.{
  Casts, ClaimsResult, claims_ok, claims_malformed, claims_bad_issuer, claims_bad_audience,
  claims_expired, claims_not_yet_valid, claims_parse,
}
use platform_service.Auth.Jwt.{header_b64, dot, jwt_ok, of_claims, verify_payload, verify}
use platform_service.Auth.Jwt.Authentic.{Signs, verify-authentic}
use platform_service.Auth.Jwt.RoundTrip.{token_of}

of_claims-eq-ok : (r : ClaimsResult) (c : Claims) → of_claims r ≡ jwt_ok c → r ≡ claims_ok c
unfolding of_claims
of_claims-eq-ok (claims_ok d) c h = ground arith
of_claims-eq-ok claims_malformed c h = cc h
of_claims-eq-ok claims_bad_issuer c h = cc h
of_claims-eq-ok claims_bad_audience c h = cc h
of_claims-eq-ok claims_expired c h = cc h
of_claims-eq-ok claims_not_yet_valid c h = cc h

decoded_text :
    (alloc : ℕ → Bool) (text : Bytes)
    → (Base64url.decode alloc text init).1 ≡ true
    → encoded (Base64url.decode alloc text init).0.content ≡ text
unfolding init
decoded_text alloc text h =
    let (bs, content, e, _) = decode_canonical alloc text init h in rw content e

module _ {F : Type 0} (fp : Casts F) (alloc : ℕ → Bool) (hmac : Bytes → Bytes → Option Bytes)
    (issuer audience secret : Bytes) (now skew : ℤ) where
  verify_payload-eq-ok :
      (payload : Bytes) (c : Claims)
      → verify_payload fp alloc hmac issuer audience secret now skew payload ≡ jwt_ok c
      → (json : Bytes) × (payload ≡ encoded json)
        × (claims_parse fp json issuer audience now skew ≡ claims_ok c)
  unfolding verify_payload
  verify_payload-eq-ok payload c h =
      let decoded = Base64url.decode alloc payload init in
      elim (Bool-cases decoded.1) [
        | inl good ↦ (
          decoded.0.content,
          sym (decoded_text alloc payload good),
          of_claims-eq-ok _ c (rw good at h),
        )
        | inr bad ↦ cc (rw bad at h)
      ]

  -- A token that is accepted is, byte for byte, the one that the encoder makes of its JSON: the
  -- header, the JSON in base64url and the HMAC of both under the secret in base64url, and the JSON
  -- holds the claims. There is no second spelling of an accepted token.
  pub verify_canonical :
      (token : Bytes) (c : Claims)
      → verify fp alloc hmac issuer audience secret now skew token ≡ jwt_ok c
      → (json : Bytes) × (sig : Bytes) × (token ≡ token_of json sig)
        × (hmac secret (header_b64 ++ dot ∷ encoded json) ≡ some sig)
        × (claims_parse fp json issuer audience now skew ≡ claims_ok c)
  unfolding token_of Signs
  verify_canonical token c h =
      let (payload, sig_text, spelled, (decodes, signed, _), to_payload) =
        verify-authentic fp alloc hmac issuer audience secret now skew token (λ e. cc (sym h ∙ e))
          (λ e. cc (sym h ∙ e)) (λ e. cc (sym h ∙ e)) in
      let (json, e, parsed) = verify_payload-eq-ok payload c (sym to_payload ∙ h) in
      let sig = (Base64url.decode alloc sig_text init).0.content in
      (
        json,
        sig,
        spelled ∙ rw (e, decoded_text alloc sig_text decodes) refl,
        rw (← e) signed,
        parsed,
      )
