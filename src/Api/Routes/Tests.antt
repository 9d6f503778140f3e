-- ===== src/Api/Routes/Tests.antt =====
-- Runs of the dispatcher, and instances of its theorems.
use platform_service.Common.{
  String, ◌≡◌, refl, true, Option, none, some, List, [], ◌∷◌, ◌++◌, arith, Bytes, codes, equal,
}
use platform_service.Common.Int.{pos, negsuc, ◌==ℤ◌}
use platform_service.Http.Router.{add, init, Param, match_path, router_match, matched, params_get}
use platform_service.Http.Request.Types.{Header, Request}
use platform_service.Http.Request.Lines.{ci_equal, decimal_from}
use platform_service.Http.Request.{header_lookup}
use platform_service.Api.Rbac.{
  Claims, Policy, policy_for_route, policies, first_policy, check, check_kind,
}
use platform_service.Api.Routes.{
  login, get_user, calls, register, dispatch, parse_int64, parse_path_user_id, authenticate_bearer,
  no_claims, unauthorized, bad_request, forbidden,
}
use platform_service.Api.Routes.Int64.{parse_int64_nul}
use platform_service.Api.Routes.Decimal.{printed, parse_int64-printed}
use platform_service.Api.Routes.Access.{Permitted, dispatch-Permitted, dispatch_admits, route_of}
use platform_service.Api.Routes.Coverage.{routed_is_governed}

abbrev user7 : Claims
user7 = record no_claims { user_id = pos 7; roles = 1 }

-- Every token is one of user 7.
abbrev verify : Bytes → Option Claims
verify _ = some user7

abbrev request : List Header → Request
request hs = record {
  method = codes "GET";
  path = codes "/";
  query = none;
  minor_version = 1;
  headers = hs;
  body = none;
}

abbrev signed_in : Request
signed_in = request ((record { name = codes "authorization"; value = codes "Bearer t" }) ∷ [])

abbrev user_id : String → List Param
user_id v = (record { name = codes "userId"; value = codes v }) ∷ []

dispatches :
    (dispatch verify 10 signed_in (user_id "7") ≡ calls (get_user user7 (pos 7)))
    × (dispatch verify 10 signed_in (user_id "8") ≡ forbidden)
    × (dispatch verify 10 signed_in (user_id "x") ≡ bad_request)
    × (dispatch verify 10 (request []) (user_id "x") ≡ unauthorized)
    × (dispatch verify 12 signed_in [] ≡ forbidden)
    × (dispatch verify 13 signed_in [] ≡ unauthorized)
    × (dispatch verify 6 (request []) [] ≡ calls login)
unfolding ◌==ℤ◌ dispatch policy_for_route policies first_policy check check_kind authenticate_bearer
    header_lookup ci_equal equal parse_path_user_id parse_int64 decimal_from params_get
dispatches = (refl, refl, refl, refl, refl, refl, refl)

reads_numbers :
    (parse_int64 (codes "-9223372036854775808") ≡ some (negsuc 9223372036854775807))
    × (parse_int64 (codes "9223372036854775808") ≡ none)
    × (parse_int64 (codes " 1") ≡ none)
    × (parse_int64 (codes "+") ≡ none)
    × (parse_int64 (codes "42" ++ 0 ∷ codes "x") ≡ some (pos 42))
unfolding parse_int64 decimal_from
reads_numbers = (refl, refl, refl, refl, refl)

dispatch-Permitted_example :
    Permitted
      (authenticate_bearer verify signed_in)
      (parse_path_user_id (params_get (user_id "7") (codes "userId")))
      (get_user user7 (pos 7))
dispatch-Permitted_example =
    dispatch-Permitted verify 10 signed_in (user_id "7") (get_user user7 (pos 7)) dispatches.0

dispatch_admits_example :
    dispatch verify (route_of (get_user user7 (pos 7))) signed_in (user_id "7")
    ≡ calls (get_user user7 (pos 7))
dispatch_admits_example =
    dispatch_admits verify signed_in (user_id "7") (get_user user7 (pos 7))
      dispatch-Permitted_example

finds_user :
    router_match (register true).0 (codes "GET") (codes "/v1/users/7") ≡ matched 10 (user_id "7")
unfolding register router_match match_path params_get equal add init
finds_user = refl

routed_is_governed_example :
    (p : Policy) × (policy_for_route 10 ≡ some p)
    × (p.method ≡ codes "GET")
    × (match_path p.path_pattern (codes "/v1/users/7") ≡ some (user_id "7"))
routed_is_governed_example =
    routed_is_governed (codes "GET") (codes "/v1/users/7") 10 (user_id "7") finds_user

parse_int64_nul_example : parse_int64 (codes "42" ++ 0 ∷ codes "x") ≡ parse_int64 (codes "42")
parse_int64_nul_example = parse_int64_nul (codes "42") (codes "x") (omega arith)

parse_int64-printed_example :
    parse_int64 (printed (negsuc 9223372036854775807)) ≡ some (negsuc 9223372036854775807)
parse_int64-printed_example = parse_int64-printed (negsuc 9223372036854775807) (omega arith)
