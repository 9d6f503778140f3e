-- ===== src/Auth/Claims/Samples.antt =====
-- Claims and their JSON for the examples on src/auth.
use platform_service.Common.{
  ◌≡◌, refl, Bool, true, false, not, ◌++◌, arith, Bytes, codes, ◌==◌, replicate, equal,
}
use platform_service.Common.Int.{◌+ℤ◌, ◌-ℤ◌, ℤ, pos, negsuc}
use platform_service.Json.Value.{
  get_string, c_str, object_set, set_member, array_append, object_get, find_member,
}
use platform_service.Json.Scanner.{skip_ws, is_space, is_digit, expect_literal, parse_number}
use platform_service.Json.Strings.{parse_string}
use platform_service.Json.Parser.{parse}
use platform_service.Json.RoundTrip.Samples.{read_bit, bits}
use platform_service.Api.Rbac.{Claims}
use platform_service.Api.Routes.{signed}
use platform_service.Http.Request.Lines.{decimal_from}
use platform_service.Auth.Claims.{Casts, claims_ok, claims_parse, role_bit}
use platform_service.Auth.Claims.RoundTrip.{IsIssuable}

-- The two numbers are 0 and 1.
unfoldable pub of_bit : Bool → ℤ
of_bit false = pos 0
of_bit true = pos 1

unfoldable pub to_bit : ℤ → Bool
to_bit (pos n) = not (n == 0)
to_bit (negsuc n) = false

abbrev pub casts : Casts Bool
casts = record { doubles = bits; to_int64 = of_bit; of_int64 = to_bit }

abbrev pub claims : Claims
claims = record {
  user_id = pos 42;
  roles = 3;
  iat = pos 0;
  nbf = pos 0;
  exp = pos 1;
  jti = replicate 32 b'a';
  family_id = replicate 32 b'f';
}

pub claims-IsIssuable : IsIssuable casts claims
unfolding of_bit to_bit c_str
claims-IsIssuable = record {
  user_id = omega arith;
  roles = omega arith;
  jti = refl;
  jti_len = refl;
  family = refl;
  family_len = refl;
  exp = refl;
  iat = refl;
  nbf = refl;
  exp_finite = refl;
  iat_finite = refl;
  nbf_finite = refl;
}

abbrev pub json : Bytes
json =
    codes "{\"iss\":\"iss\",\"sub\":\"42\",\"aud\":\"aud\",\"exp\":1,\"iat\":0,\"nbf\":0,"
    ++ codes "\"jti\":\"aaaaaaaaaaaaaaaaaaaaaaaaaaaaaaaa\","
    ++ codes "\"family_id\":\"ffffffffffffffffffffffffffffffff\",\"roles\":[\"USER\",\"ADMIN\"]}"

pub json_parsed :
    claims_parse casts json (codes "iss") (codes "aud") (pos 1) (pos 60) ≡ claims_ok claims
unfolding claims_parse parse skip_ws is_space parse_string is_digit parse_number object_set
    set_member array_append expect_literal equal c_str read_bit of_bit object_get find_member signed
    decimal_from role_bit get_string ◌+ℤ◌ ◌-ℤ◌
json_parsed = refl
