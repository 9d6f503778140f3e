-- ===== src/Api/Routes/Coverage.antt =====
-- The table of routes and that of policies agree.
use platform_service.Common.{
  ℕ, ◌≡◌, refl, ap, ◌∙◌, subst, ◌≢◌, inl, inr, Bool, true, false, ◌&&◌, Option, none, some, List,
  [], ◌∷◌, ◌++◌, arith, Bytes, Option-cases, equal, equal_iff,
}
use platform_service.Common.Int.{ℤ}
use platform_service.Http.Router.{
  Param, Route, MatchResult, matched, match_path, router_match, add, init,
}
use platform_service.Http.Router.Answers.{Answer, hit, wrong_method, missing, router_match-Answer}
use platform_service.Api.Rbac.{Claims, Policy, policies, first_policy, policy_for_route}
use platform_service.Api.Routes.{
  Entry, entries, register_from, register, fails, call_handler, with_target, with_claims,
  with_policy, target_of, claims_of,
}

-- Whether a policy has the route's method and pattern.
fits : Option Policy → Route → Bool
fits none r = false
fits (some p) r = equal p.method r.method && equal p.path_pattern r.pattern

all_fit : List Route → Bool
all_fit [] = true
all_fit (r ∷ rs) = fits (policy_for_route r.route_id) r && all_fit rs

fits_lem :
    (o : Option Policy) (r : Route)
    → fits o r ≡ true
    → (p : Policy) × (o ≡ some p) × (p.method ≡ r.method) × (p.path_pattern ≡ r.pattern)
unfolding fits
fits_lem none r h = cc
fits_lem (some p) r h = (
  p,
  refl,
  (equal_iff p.method r.method).0 (ground arith),
  (equal_iff p.path_pattern r.pattern).0 (ground arith),
)

abbrev routes_of : List Entry → List Route
routes_of [] = []
routes_of (e ∷ es) =
    (record { method = e.method; pattern = e.pattern; route_id = e.route_id }) ∷ routes_of es

-- All routes are registered.
pub register_lem : register true ≡ (routes_of entries, true)
unfolding register register_from entries init add
register_lem = refl

entries_fit : all_fit (routes_of entries) ≡ true
unfolding all_fit fits entries policy_for_route first_policy policies equal
entries_fit = refl

member_fits :
    (before after : List Route) (r : Route)
    → all_fit (before ++ r ∷ after) ≡ true
    → fits (policy_for_route r.route_id) r ≡ true
unfolding all_fit
member_fits [] after r all = ground arith
member_fits (b ∷ before) after r all = ground (arith, member_fits before after r)

hit_fits :
    (method path : Bytes) (id : ℕ) (params : List Param) (res : MatchResult)
    → Answer (routes_of entries) method path res
    → res ≡ matched id params
    → (p : Policy) × (policy_for_route id ≡ some p)
      × (p.method ≡ method)
      × (match_path p.path_pattern path ≡ some params)
hit_fits method path id params res (hit before after r ps e nh sm sp) h =
    let all = subst (λ rs. all_fit rs ≡ true) e entries_fit in
    let (p, found, same_method, same_pattern) = fits_lem _ r (member_fits before after r all) in
    let same_id : r.route_id ≡ id = ground arith in
    let same_params : ps ≡ params = ground arith in
    (
      p,
      subst (λ i. policy_for_route i ≡ some p) same_id found,
      same_method ∙ sm,
      rw (same_pattern) (sp ∙ ap some same_params),
    )
hit_fits method path id params res (wrong_method s nh) h = cc
hit_fits method path id params res (missing n) h = cc

-- A request that the router finds a route for has a row in the table of policies, whose method is the
-- request's and whose pattern fits its path in the same way.
pub routed_is_governed :
    (method path : Bytes) (id : ℕ) (params : List Param)
    → router_match (register true).0 method path ≡ matched id params
    → (p : Policy) × (policy_for_route id ≡ some p)
      × (p.method ≡ method)
      × (match_path p.path_pattern path ≡ some params)
routed_is_governed method path id params h =
    hit_fits method path id params (router_match (routes_of entries) method path)
      (router_match-Answer (routes_of entries) method path) (rw register_lem at h)

handler_of_known :
    (id : ℕ) (claims : Claims) (target : ℤ) (p : Policy)
    → policy_for_route id ≡ some p
    → call_handler id claims target ≢ fails
unfolding policy_for_route first_policy policies call_handler
handler_of_known id claims target p found h = ground arith

with_target_lem :
    (id : ℕ) (p : Policy) (claims : Claims) (o : Option ℤ)
    → policy_for_route id ≡ some p
    → with_target id p claims o ≢ fails
unfolding with_target
with_target_lem id p claims none found h = cc
with_target_lem id p claims (some target) found h =
    ground (arith, handler_of_known id claims target p)

with_policy_lem :
    (id : ℕ) (o : Option Policy) (params : List Param) (b : Option Claims)
    → policy_for_route id ≡ o
    → with_policy id o params b ≢ fails
unfolding with_policy with_claims
with_policy_lem id none params b found h = cc
with_policy_lem id (some p) params b found h = elim (Option-cases (claims_of p.kind b)) [
  | inl absent ↦ cc (rw (absent, with_policy) at h)
  | inr (claims, given) ↦
      with_target_lem id p claims (target_of p.kind params) found (rw (given, with_policy) at h)
]
