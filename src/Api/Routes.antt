-- ===== src/Api/Routes.antt =====
-- The table of routes and their dispatch, src/api/routes.c and routes.h, with the bearer token of
-- `ps_auth_authenticate_bearer` in src/api/auth_api.c. What `ps_jwt_verify` makes of a token is an
-- argument, and a call of a handler stands for its result.
pub mod Int64
pub mod Decimal
pub mod Access
pub mod Coverage
mod Tests
use platform_service.Common.{
  ℕ, zero, suc, ◌+◌, ◌-◌, ◌*◌, ◌/◌, ◌%◌, ◌^◌, ◌≤◌, ◌<◌, min, code, String, ◌≡◌, refl, sym, ap, ◌∙◌,
  subst, ◌≢◌, ◌↔◌, ◌⊎◌, inl, inr, Bool, true, false, not, ◌&&◌, ◌||◌, Option, none, some, List, [],
  ◌∷◌, ◌++◌, append_assoc, append-nil, arith, Bytes, codes, ltb, leb, ◌==◌, if◌then◌else◌, ltb→lt,
  lt→ltb, leb→le, ==_iff, tests, Bool-cases, Option-cases, length, get_elem?, set, length-append,
  length-set, get_elem?-set_self, get_elem?-set_ne, get_or, take, drop, replicate, take-append-drop,
  length-take, length-drop, length-replicate, length-map, equal, equal_iff,
}
use platform_service.Common.Int.{ℤ, pos, negsuc, ◌==ℤ◌}
use platform_service.Http.Router.{Param, Route, Router, add, init, params_get}
use platform_service.Http.Request.Types.{Header, Request}
use platform_service.Http.Request.{header_lookup}
use platform_service.Http.Request.Lines.{decimal_from, is_nil}
use platform_service.Api.Rbac.{
  Claims, Policy, PolicyKind, public, authenticated, role, self_or_role, policy_for_route, check,
}

pub record Entry : Type 0 where
  pub method : Bytes
  pub pattern : Bytes
  pub route_id : ℕ

abbrev entry : String → String → ℕ → Entry
entry m p id = record { method = codes m; pattern = codes p; route_id = id }

unfoldable pub entries : List Entry
entries =
    entry "GET" "/healthz" 1
    ∷ entry "GET" "/readyz" 2
    ∷ entry "POST" "/v1/auth/register" 3
    ∷ entry "POST" "/v1/auth/verify" 4
    ∷ entry "POST" "/v1/auth/resend-verification" 5
    ∷ entry "POST" "/v1/auth/login" 6
    ∷ entry "POST" "/v1/auth/refresh" 7
    ∷ entry "POST" "/v1/auth/logout" 8
    ∷ entry "POST" "/v1/auth/password" 9
    ∷ entry "GET" "/v1/users/{userId}" 10
    ∷ entry "GET" "/v1/admin/users/count" 11
    ∷ entry "GET" "/v1/admin/users" 12
    ∷ []

-- One route after the other, up to the first that is refused.
unfoldable pub register_from : Bool → List Entry → Router → Router × Bool
register_from reports [] router = (router, true)
register_from reports (e ∷ es) router =
    let (router', added) = add reports router e.method e.pattern e.route_id in
    let rest = register_from reports es router' in if added then rest else (router', false)

-- `ps_routes_register`.
unfoldable pub register : Bool → Router × Bool
unfolding register_from entries
register reports = register_from reports entries init

-- What a C string shows of the bytes: those before the first NUL.
unfoldable pub c_string : Bytes → Bytes
c_string [] = []
c_string (c ∷ cs) = if c == 0 then [] else c ∷ c_string cs

-- `isspace` of the C locale.
abbrev pub is_space : ℕ → Bool
is_space c = c == b' ' || (leb 9 c && leb c 13)

abbrev pub int64_min_size : ℕ
int64_min_size = 9223372036854775808

-- The decimal digits that `strtoll` reads up to the terminator, with no other byte between.
magnitude : Bytes → Option ℕ
magnitude cs = if is_nil cs then none else decimal_from 0 cs

positive : Option ℕ → Option ℤ
positive none = none
positive (some v) = if ltb v int64_min_size then some (pos v) else none

negative : Option ℕ → Option ℤ
negative none = none
negative (some zero) = some (pos 0)
negative (some (suc v)) = if ltb v int64_min_size then some (negsuc v) else none

-- `strtoll` with the tests of `endptr` and `errno` behind it.
unfoldable pub signed : Bytes → Option ℤ
unfolding positive negative magnitude
signed [] = none
signed (c ∷ cs) =
    if is_space c
    then none
    else if c == b'-'
    then negative (magnitude cs)
    else if c == b'+'
    then positive (magnitude cs)
    else positive (magnitude (c ∷ cs))

-- `ps_parse_int64`; `none` where it returns false.
unfoldable pub parse_int64 : Bytes → Option ℤ
unfolding signed c_string
parse_int64 text = if length text == 0 || leb 32 (length text) then none else signed (c_string text)

unfoldable pub parse_path_user_id : Option Param → Option ℤ
unfolding parse_int64
parse_path_user_id none = none
parse_path_user_id (some p) = parse_int64 p.value

abbrev bearer_prefix : Bytes
bearer_prefix = codes "Bearer "

pub bearer_value : (Bytes → Option Claims) → Option Header → Option Claims
bearer_value verify none = none
bearer_value verify (some h) =
    if leb (length h.value) (length bearer_prefix)
      || not (equal (take (length bearer_prefix) h.value) bearer_prefix)
    then none
    else verify (drop (length bearer_prefix) h.value)

-- `ps_auth_authenticate_bearer`; `none` for each result but `PS_BEARER_OK`.
unfoldable pub authenticate_bearer : (Bytes → Option Claims) → Request → Option Claims
unfolding bearer_value
authenticate_bearer verify req =
    bearer_value verify (header_lookup req.headers (codes "Authorization"))

-- The call of a handler, with what it is passed of the claims and the target.
pub data Call : Type 0 where
  healthz readyz register_account verify_account resend_verification login refresh_session : Call
  logout password_change : Claims → Call
  get_user : Claims → ℤ → Call
  count_users list_users : Claims → Call

pub data Reply : Type 0 where
  refuses : ℕ → Bytes → Reply
  calls : Call → Reply
  fails : Reply

-- `memset(&claims, 0, sizeof claims)`.
abbrev pub no_claims : Claims
no_claims = record {
  user_id = pos 0;
  roles = 0;
  iat = pos 0;
  nbf = pos 0;
  exp = pos 0;
  jti = [];
  family_id = [];
}

abbrev pub unauthorized : Reply
unauthorized = refuses 401 (codes "UNAUTHORIZED")

abbrev pub bad_request : Reply
bad_request = refuses 400 (codes "BAD_REQUEST")

abbrev pub forbidden : Reply
forbidden = refuses 403 (codes "FORBIDDEN")

-- The switch on the route.
pub call_handler : ℕ → Claims → ℤ → Reply
call_handler id claims target =
    if id == 1
    then calls healthz
    else if id == 2
    then calls readyz
    else if id == 3
    then calls register_account
    else if id == 4
    then calls verify_account
    else if id == 5
    then calls resend_verification
    else if id == 6
    then calls login
    else if id == 7
    then calls refresh_session
    else if id == 8
    then calls (logout claims)
    else if id == 9
    then calls (password_change claims)
    else if id == 10
    then calls (get_user claims target)
    else if id == 11
    then calls (count_users claims)
    else if id == 12
    then calls (list_users claims)
    else fails

abbrev is_checked : PolicyKind → Bool
is_checked public = false
is_checked authenticated = false
is_checked role = true
is_checked self_or_role = true

pub with_target : ℕ → Policy → Claims → Option ℤ → Reply
unfolding call_handler
with_target id p claims none = bad_request
with_target id p claims (some target) =
    if is_checked p.kind && not (check p claims target)
    then forbidden
    else call_handler id claims target

-- The target is read for a route of the kind self-or-role only, and is 0 for any other.
pub target_of : PolicyKind → List Param → Option ℤ
target_of self_or_role params = parse_path_user_id (params_get params (codes "userId"))
target_of public params = some (pos 0)
target_of authenticated params = some (pos 0)
target_of role params = some (pos 0)

-- The claims of the request: those of its token, or for a public route none.
pub claims_of : PolicyKind → Option Claims → Option Claims
claims_of public bearer = some no_claims
claims_of authenticated bearer = bearer
claims_of role bearer = bearer
claims_of self_or_role bearer = bearer

pub with_claims : ℕ → Policy → List Param → Option Claims → Reply
unfolding with_target target_of
with_claims id p params none = unauthorized
with_claims id p params (some claims) = with_target id p claims (target_of p.kind params)

pub with_policy : ℕ → Option Policy → List Param → Option Claims → Reply
unfolding with_claims claims_of
with_policy id none params bearer = unauthorized
with_policy id (some p) params bearer = with_claims id p params (claims_of p.kind bearer)

-- `ps_routes_dispatch`.
unfoldable pub dispatch : (Bytes → Option Claims) → ℕ → Request → List Param → Reply
unfolding with_policy
dispatch verify id req params =
    with_policy id (policy_for_route id) params (authenticate_bearer verify req)
