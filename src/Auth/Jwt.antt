-- ===== src/Auth/Jwt.antt =====
-- Signed tokens, src/auth/jwt.c and jwt.h. HMAC-SHA256, a wrapper of OpenSSL's, is the argument
-- `hmac`, with `none` where it fails; `ps_ct_equal` compares bytes. Tokens are built in the buffer
-- of Platform.Buf; the claims' JSON is written where memory is granted.
pub mod Authentic
pub mod RoundTrip
pub mod Canonical
mod Tests
use platform_service.Common.{
  ℕ, zero, suc, ◌+◌, ◌-◌, ◌*◌, ◌/◌, ◌%◌, ◌^◌, ◌≤◌, ◌<◌, min, code, String, ◌≡◌, refl, sym, ap, ◌∙◌,
  subst, ◌≢◌, ◌↔◌, ◌⊎◌, inl, inr, Bool, true, false, not, ◌&&◌, ◌||◌, Option, none, some, List, [],
  ◌∷◌, ◌++◌, append_assoc, append-nil, arith, Bytes, codes, ltb, leb, ◌==◌, if◌then◌else◌, ltb→lt,
  lt→ltb, leb→le, ==_iff, tests, Bool-cases, Option-cases, length, get_elem?, set, length-append,
  length-set, get_elem?-set_self, get_elem?-set_ne, get_or, take, drop, replicate, take-append-drop,
  take-append, length-take, length-drop, length-replicate, length-map, equal, equal_iff,
}
use platform_service.Common.Int.{ℤ}
use platform_service.Platform.Buf.{Buf, init, append, append_char}
use platform_service.Crypto.Base64url
use platform_service.Api.Rbac.{Claims}
use platform_service.Auth.Claims.{
  Casts, ClaimsResult, claims_ok, claims_malformed, claims_bad_issuer, claims_bad_audience,
  claims_expired, claims_not_yet_valid, claims_write, claims_parse,
}

-- `PS_JWT_HEADER_B64`.
abbrev pub header_b64 : Bytes
header_b64 = codes "eyJhbGciOiJIUzI1NiIsInR5cCI6IkpXVCJ9"

-- `PS_HMAC_SHA256_LEN`.
abbrev pub hmac_len : ℕ
hmac_len = 32

abbrev pub dot : ℕ
dot = b'.'

-- A chain of calls on a buffer with `&&`: the next runs only where the last returned true.
infixl 5 ◌and_also◌
abbrev pub ◌and_also◌ : Buf × Bool → (Buf → Buf × Bool) → Buf × Bool
r and_also f = if r.1 then f r.0 else (r.0, false)

-- The signature and what is appended of it.
unfoldable pub sign : (ℕ → Bool) → (Bytes → Bytes → Option Bytes) → Bytes → Buf → Buf × Bool
sign alloc hmac secret out = elim (hmac secret out.content) [
  | none ↦ (out, false)
  | some sig ↦ append_char alloc out dot and_also (λ b. Base64url.encode alloc sig b)
]

-- `ps_jwt_encode` behind the writing of the claims, whose result is the first argument.
unfoldable pub encode_payload :
    (ℕ → Bool) → (Bytes → Bytes → Option Bytes) → Bytes → Option Bytes → Buf → Buf × Bool
unfolding sign
encode_payload alloc hmac secret none out = (out, false)
encode_payload alloc hmac secret (some payload) out =
    append alloc out header_b64
    and_also (λ b. append_char alloc b dot)
    and_also (λ b. Base64url.encode alloc payload b)
    and_also (λ b. sign alloc hmac secret b)

prepend : ℕ → Option (Bytes × Bytes) → Option (Bytes × Bytes)
prepend c none = none
prepend c (some (a, b)) = some (c ∷ a, b)

-- `memchr` with a dot: the bytes in front of the first dot and those behind it.
unfoldable pub split_dot : Bytes → Option (Bytes × Bytes)
unfolding prepend
split_dot [] = none
split_dot (c ∷ s) = let later = prepend c (split_dot s) in if c == dot then some ([], s) else later

-- What `ps_jwt_verify` returns, with the claims that it writes on success.
pub data VerifyResult : Type 0 where
  jwt_ok : Claims → VerifyResult
  jwt_malformed jwt_bad_alg jwt_bad_signature jwt_bad_claims : VerifyResult
  jwt_expired jwt_not_yet_valid jwt_bad_issuer jwt_bad_audience : VerifyResult

-- The switch at the end.
unfoldable pub of_claims : ClaimsResult → VerifyResult
of_claims (claims_ok c) = jwt_ok c
of_claims claims_malformed = jwt_bad_claims
of_claims claims_bad_issuer = jwt_bad_issuer
of_claims claims_bad_audience = jwt_bad_audience
of_claims claims_expired = jwt_expired
of_claims claims_not_yet_valid = jwt_not_yet_valid

-- `hmac_ok && ps_ct_equal(...)`.
unfoldable pub sig_matches : Bytes → Option Bytes → Bool
sig_matches sig none = false
sig_matches sig (some expected) = equal sig expected

module _ {F : Type 0} (fp : Casts F) (alloc : ℕ → Bool) (hmac : Bytes → Bytes → Option Bytes)
    (issuer audience secret : Bytes) where
  -- `ps_jwt_encode`.
  unfoldable pub encode : Claims → Buf → Buf × Bool
  unfolding encode_payload
  encode c out = encode_payload alloc hmac secret (claims_write fp c issuer audience) out

  module _ (now skew : ℤ) where
    -- Behind the signature.
    unfoldable pub verify_payload : Bytes → VerifyResult
    unfolding of_claims
    verify_payload payload =
        let (json, decoded) = Base64url.decode alloc payload init in
        if decoded
        then of_claims (claims_parse fp json.content issuer audience now skew)
        else jwt_malformed

    -- Behind the header: the signature first, then the payload.
    unfoldable pub verify_signature : Bytes → Bytes → VerifyResult
    unfolding verify_payload sig_matches
    verify_signature payload sig_text =
        let (sig, decoded) = Base64url.decode alloc sig_text init in
        if not decoded || not (sig.len == hmac_len)
        then jwt_malformed
        else if sig_matches sig.content (hmac secret (header_b64 ++ dot ∷ payload))
        then verify_payload payload
        else jwt_bad_signature

    -- The three segments.
    unfoldable pub verify_segments : Bytes → Bytes → Bytes → VerifyResult
    unfolding verify_signature
    verify_segments header payload sig_text =
        if length header == 0 || length payload == 0 || length sig_text == 0
        then jwt_malformed
        else if not (equal header header_b64)
        then jwt_bad_alg
        else verify_signature payload sig_text

    unfoldable pub verify_rest : Bytes → Option (Bytes × Bytes) → VerifyResult
    unfolding verify_segments split_dot
    verify_rest header none = jwt_malformed
    verify_rest header (some (payload, rest)) = elim (split_dot rest) [
      | some _ ↦ jwt_malformed
      | none ↦ verify_segments header payload rest
    ]

    -- `ps_jwt_verify`.
    unfoldable pub verify : Bytes → VerifyResult
    unfolding verify_rest
    verify token = elim (split_dot token) [
      | none ↦ jwt_malformed
      | some (header, rest) ↦ verify_rest header (split_dot rest)
    ]
