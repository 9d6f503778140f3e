-- ===== src/Http/Cors.antt =====
-- The CORS policy, src/http/cors.c and cors.h. A C string is the list of its bytes, without the NUL;
-- the texts of errors are left out.
pub mod Policies
mod Tests
use platform_service.Common.{
  ℕ, zero, suc, ◌+◌, ◌-◌, ◌*◌, ◌/◌, ◌%◌, ◌^◌, ◌≤◌, ◌<◌, min, code, String, ◌≡◌, refl, sym, ap, ◌∙◌,
  subst, ◌≢◌, ◌↔◌, ◌⊎◌, inl, inr, Bool, true, false, not, ◌&&◌, ◌||◌, Option, none, some, List, [],
  ◌∷◌, ◌++◌, append_assoc, append-nil, arith, Bytes, codes, ltb, leb, ◌==◌, if◌then◌else◌, ltb→lt,
  lt→ltb, leb→le, ==_iff, tests, Bool-cases, Option-cases, length, get_elem?, set, length-append,
  length-set, get_elem?-set_self, get_elem?-set_ne, get_or, take, drop, replicate, take-append-drop,
  length-take, length-drop, length-replicate, length-map, equal, equal_iff,
}
use platform_service.Http.Request.Lines.{is_nil, upto, beyond, trim_right}

-- `ps_cors_policy_t`; `count` is the number of the origins.
pub record CorsPolicy : Type 0 where
  pub origins : List Bytes
  pub allow_credentials : Bool

pub data CorsError : Type 0 where
  no_error_buffer wildcard_with_credentials too_many_origins out_of_fuel : CorsError

pub data CorsResult : Type 0 where
  ok : CorsPolicy → CorsResult
  err : CorsError → CorsResult

infixl 5 ◌>>=◌
abbrev pub ◌>>=◌ : CorsResult → (CorsPolicy → CorsResult) → CorsResult
ok p >>= f = f p
err e >>= f = err e

-- `PS_CORS_MAX_ORIGINS`.
abbrev pub max_origins : ℕ
max_origins = 16

abbrev is_separator : ℕ → Bool
is_separator c = c == b',' || c == b' ' || c == b'\t'

unfoldable pub skip_separators : Bytes → Bytes
skip_separators [] = []
skip_separators (c ∷ cs) = let rest = skip_separators cs in if is_separator c then rest else c ∷ cs

-- The tests of one origin, and the policy with it.
unfoldable pub add_origin : CorsPolicy → Bytes → CorsResult
add_origin policy value =
    if policy.allow_credentials && equal value (codes "*")
    then err wildcard_with_credentials
    else if leb max_origins (length policy.origins)
    then err too_many_origins
    else ok (record policy { origins = policy.origins ++ value ∷ [] })

-- The loop, one field of the list at a time.
unfoldable pub origins_from : ℕ → Bytes → CorsPolicy → CorsResult
origins_from zero text policy = err out_of_fuel
origins_from (suc fuel) text policy = elim (skip_separators text) [
  | [] ↦ ok policy
  | c ∷ cs ↦
      let value = trim_right (upto b',' (c ∷ cs)) in
      let rest = drop 1 (beyond b',' (c ∷ cs)) in
      (if is_nil value then ok policy else add_origin policy value) >>= origins_from fuel rest
]

-- `ps_cors_policy_init`; `reports` says that there is room for the text of an error.
unfoldable pub policy_init : Bool → Bytes → Bool → CorsResult
policy_init reports origins_csv allow_credentials =
    if not reports
    then err no_error_buffer
    else origins_from (suc (length origins_csv)) origins_csv
        (record { origins = []; allow_credentials = allow_credentials })

-- `ps_cors_enabled`; `none` is NULL.
unfoldable pub enabled : Option CorsPolicy → Bool
enabled none = false
enabled (some policy) = ltb 0 (length policy.origins)

unfoldable pub among : List Bytes → Bytes → Bool
among [] origin = false
among (o ∷ os) origin = equal o origin || among os origin

-- `ps_cors_origin_allowed`; `none` is NULL.
unfoldable pub origin_allowed : Option CorsPolicy → Option Bytes → Bool
origin_allowed none origin = false
origin_allowed (some policy) none = false
origin_allowed (some policy) (some origin) = among policy.origins origin
