-- ===== src/Auth/Jwt/Tests.antt =====
-- The theorems on tokens at a concrete token, with a constant in the place of HMAC.
use platform_service.Common.{
  ℕ, ◌<◌, ◌≡◌, refl, sym, ◌∙◌, subst, Bool, true, ◌&&◌, Option, some, [], ◌∷◌, ◌++◌, arith, Bytes,
  codes, ltb, length, replicate, equal,
}
use platform_service.Common.Int.{pos, ◌+ℤ◌, ◌-ℤ◌}
use platform_service.Json.Value.{set_member, object_set, array_append, c_str}
use platform_service.Json.Writer.{write}
use platform_service.Api.Routes.Decimal.{printed}
use platform_service.Platform.Buf.{Buf, init}
use platform_service.Crypto.Base64url.Encoding.{AllBytes, encoded}
use platform_service.Json.RoundTrip.Samples.{bits-IsLawful, bit_text}
use platform_service.Auth.Claims.{claims_ok, claims_write, claims_parse}
use platform_service.Auth.Claims.Samples.{
  to_bit, casts, claims, claims-IsIssuable, json, json_parsed,
}
use platform_service.Auth.Jwt.{header_b64, dot, encode, jwt_ok, verify, verify_payload}
use platform_service.Auth.Jwt.Authentic.{Signs, verify-authentic}
use platform_service.Auth.Jwt.RoundTrip.{token_of, verified, verify-encode}
use platform_service.Auth.Jwt.Canonical.{verify_canonical}

all_bytes : Bytes → Bool
all_bytes [] = true
all_bytes (b ∷ bs) = ltb b 256 && all_bytes bs

all_bytes-AllBytes : (bs : Bytes) → all_bytes bs ≡ true → AllBytes bs
unfolding all_bytes
all_bytes-AllBytes [] h = tt
all_bytes-AllBytes (b ∷ bs) h = (ground arith, all_bytes-AllBytes bs (ground arith))

abbrev grants : ℕ → Bool
grants n = true

abbrev signature : Bytes
signature = replicate 32 7

abbrev mac : Bytes → Bytes → Option Bytes
mac key text = some signature

abbrev key : Bytes
key = codes "secret"

signature-AllBytes : AllBytes signature
unfolding all_bytes
signature-AllBytes = all_bytes-AllBytes signature refl

json-AllBytes : AllBytes json
unfolding all_bytes
json-AllBytes = all_bytes-AllBytes json refl

answer_ok :
    verify casts grants mac
      (codes "iss")
      (codes "aud")
      key
      (pos 1)
      (pos 60)
      (token_of json signature)
    ≡ jwt_ok claims
answer_ok =
    verified casts grants mac (codes "iss") (codes "aud") key (pos 1) (pos 60) (λ n. refl) claims
      json signature json_parsed json-AllBytes (omega arith) signature-AllBytes refl refl

verify_canonical_example :
    (text : Bytes) × (sig : Bytes) × (token_of json signature ≡ token_of text sig)
    × (mac key (header_b64 ++ dot ∷ encoded text) ≡ some sig)
    × (claims_parse casts text (codes "iss") (codes "aud") (pos 1) (pos 60) ≡ claims_ok claims)
verify_canonical_example =
    verify_canonical casts grants mac (codes "iss") (codes "aud") key (pos 1) (pos 60)
      (token_of json signature) claims answer_ok

verify-authentic_example :
    (payload : Bytes) × (sig_text : Bytes) × (token_of json signature
      ≡ header_b64 ++ dot ∷ (payload ++ dot ∷ sig_text))
    × Signs casts grants mac (codes "iss") (codes "aud") key (pos 1) (pos 60) payload sig_text
    × (verify casts grants mac
          (codes "iss")
          (codes "aud")
          key
          (pos 1)
          (pos 60)
          (token_of json signature)
        ≡ verify_payload casts grants mac (codes "iss") (codes "aud") key (pos 1) (pos 60) payload)
verify-authentic_example =
    verify-authentic casts grants mac (codes "iss") (codes "aud") key (pos 1) (pos 60)
      (token_of json signature) (λ e. cc (sym answer_ok ∙ e)) (λ e. cc (sym answer_ok ∙ e))
      (λ e. cc (sym answer_ok ∙ e))

written_is_json : claims_write casts claims (codes "iss") (codes "aud") ≡ some json
unfolding claims_write write set_member equal bit_text to_bit array_append printed object_set c_str
written_is_json = refl

written-AllBytes :
    (t : Bytes)
    → claims_write casts claims (codes "iss") (codes "aud") ≡ some t
    → AllBytes t × (length t < 1152921504606846976)
written-AllBytes t h =
    let same : json ≡ t = cc (sym written_is_json ∙ h) in
    subst (λ (u : Bytes). AllBytes u × (length u < 1152921504606846976)) same
      (json-AllBytes, omega arith)

verify-encode_example :
    (b : Buf) × (encode casts grants mac (codes "iss") (codes "aud") key claims init ≡ (b, true))
    × (verify casts grants mac (codes "iss") (codes "aud") key (pos 1) (pos 60) b.content
        ≡ jwt_ok claims)
unfolding ◌+ℤ◌ ◌-ℤ◌
verify-encode_example =
    verify-encode casts grants mac (codes "iss") (codes "aud") key (pos 1) (pos 60) (λ n. refl)
      claims bits-IsLawful claims-IsIssuable (omega arith) (omega arith)
      (λ d. (signature, refl, signature-AllBytes, refl)) written-AllBytes
