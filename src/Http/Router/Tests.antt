-- ===== src/Http/Router/Tests.antt =====
-- Runs of the router, and instances of its theorems.
use platform_service.Common.{ℕ, String, ◌≡◌, refl, some, [], ◌∷◌, codes, equal}
use platform_service.Http.Router.Segments.{cut, match_cut, match_path-match_cut}
use platform_service.Http.Router.Answers.{router_match-Answer, Answer}
use platform_service.Http.Router.{
  Param, Route, Router, matched, method_not_allowed, not_found, match_path, router_match,
  params_get,
}

abbrev route : String → String → ℕ → Route
route m p id = record { method = codes m; pattern = codes p; route_id = id }

abbrev table : Router
table =
    route "GET" "/v1/users/{userId}" 3
    ∷ route "GET" "/v1/admin/users/count" 5
    ∷ route "POST" "/v1/auth/login" 7
    ∷ []

abbrev user_id : Param
user_id = record { name = codes "userId"; value = codes "42" }

finds :
    (router_match table (codes "GET") (codes "/v1/users/42") ≡ matched 3 (user_id ∷ []))
    × (router_match table (codes "GET") (codes "/v1/auth/login") ≡ method_not_allowed)
    × (router_match table (codes "GET") (codes "/v1/users/") ≡ not_found)
    × (router_match table (codes "GET") (codes "/v1/users/42/x") ≡ not_found)
    × (params_get (user_id ∷ []) (codes "userId") ≡ some user_id)
unfolding router_match match_path params_get equal
finds = (refl, refl, refl, refl, refl)

router_match-Answer_example :
    Answer table
      (codes "GET")
      (codes "/v1/auth/login")
      (router_match table (codes "GET") (codes "/v1/auth/login"))
router_match-Answer_example = router_match-Answer table (codes "GET") (codes "/v1/auth/login")

match_path-match_cut_example :
    match_path (codes "/v1/users/{userId}") (codes "/v1/users/42")
    ≡ match_cut (cut (codes "/v1/users/{userId}")) (cut (codes "/v1/users/42")) []
match_path-match_cut_example =
    match_path-match_cut (codes "/v1/users/{userId}") (codes "/v1/users/42")
