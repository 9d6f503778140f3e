-- ===== src/Auth/Claims/Tests.antt =====
-- The theorems on claims at concrete claims.
use platform_service.Common.{◌<◌, ◌≡◌, Bool, true, some, arith, Bytes, codes, length}
use platform_service.Common.Int.{pos, ◌≤ℤ◌, ◌+ℤ◌, ◌-ℤ◌}
use platform_service.Json.Value.{Members}
use platform_service.Json.Parser.{parse}
use platform_service.Json.RoundTrip.Samples.{read_bit, bits-IsLawful}
use platform_service.Api.Routes.Int64.{IsInt64}
use platform_service.Auth.Claims.{
  Fields, hex_len, members_of, string_field, same_text, claims_ok, claims_write, claims_parse,
}
use platform_service.Auth.Claims.Validity.{claims_parse-valid}
use platform_service.Auth.Claims.RoundTrip.{claims_parse-claims_write}
use platform_service.Auth.Claims.Samples.{casts, claims, claims-IsIssuable, json, json_parsed}

claims_parse-claims_write_example :
    (t : Bytes) × (claims_write casts claims (codes "iss") (codes "aud") ≡ some t)
    × (claims_parse casts t (codes "iss") (codes "aud") (pos 1) (pos 60) ≡ claims_ok claims)
unfolding ◌+ℤ◌ ◌-ℤ◌
claims_parse-claims_write_example =
    claims_parse-claims_write casts claims (codes "iss") (codes "aud") claims-IsIssuable (pos 1)
      (pos 60) bits-IsLawful (omega arith) (omega arith)

claims_parse-valid_example :
    (f : Fields) × (ms : Members Bool) × (members_of (parse read_bit json) ≡ some ms)
    × (string_field ms (codes "iss") ≡ some f.issuer)
    × (string_field ms (codes "aud") ≡ some f.audience)
    × (same_text f.issuer (codes "iss") ≡ true)
    × (same_text f.audience (codes "aud") ≡ true)
    × (pos 1 ≤ℤ pos 1 +ℤ pos 60)
    × (pos 0 -ℤ pos 60 ≤ℤ pos 1)
    × IsInt64 (pos 42)
    × (3 < 4)
    × (length claims.jti ≡ hex_len)
    × (length claims.family_id ≡ hex_len)
claims_parse-valid_example =
    claims_parse-valid casts json (codes "iss") (codes "aud") (pos 1) (pos 60) claims json_parsed
