-- ===== src/Http/Router/Answers.antt =====
-- The three answers of the router, and the bounds of its table.
use platform_service.Common.{
  ℕ, ◌≤◌, ◌<◌, ◌≡◌, refl, ap, ◌≢◌, ◌⊎◌, inl, inr, Bool, true, false, not, ◌||◌, none, some, List,
  [], ◌∷◌, ◌++◌, arith, Bytes, leb, ◌==◌, Bool-cases, Option-cases, length, length-append, equal,
  equal_iff,
}
use platform_service.Http.Router.{
  starts_with_slash, Param, Route, Router, MatchResult, matched, method_not_allowed, not_found,
  match_path, match_routes, router_match, add, max_routes, method_max, pattern_max,
}

-- A route that the path fits, and one that the method fits too.
abbrev FitsPath : Bytes → Route → Type 0
FitsPath path r = (params : List Param) × (match_path r.pattern path ≡ some params)

abbrev pub NoPath : Bytes → List Route → Type 0
NoPath path [] = Unit {0}
NoPath path (r ∷ rs) = (match_path r.pattern path ≡ none) × NoPath path rs

abbrev pub NoHit : Bytes → Bytes → List Route → Type 0
NoHit method path [] = Unit {0}
NoHit method path (r ∷ rs) =
    ((match_path r.pattern path ≡ none) ⊎ (r.method ≢ method)) × NoHit method path rs

abbrev pub SomePath : Bytes → List Route → Type 0
SomePath path [] = ⊥
SomePath path (r ∷ rs) = FitsPath path r ⊎ SomePath path rs

-- The first route that fits both, or what stands in its place.
pub data Answer (routes : List Route) (method path : Bytes) : MatchResult → Type 0 where
  hit :
      (before after : List Route) (r : Route) (params : List Param)
      → routes ≡ before ++ r ∷ after
      → NoHit method path before
      → r.method ≡ method
      → match_path r.pattern path ≡ some params
      → Answer routes method path (matched r.route_id params)
  wrong_method :
      SomePath path routes → NoHit method path routes → Answer routes method path method_not_allowed
  missing : NoPath path routes → Answer routes method path not_found

-- The same behind a route that the path fitted.
data Later (routes : List Route) (method path : Bytes) : MatchResult → Type 0 where
  later_hit :
      (before after : List Route) (r : Route) (params : List Param)
      → routes ≡ before ++ r ∷ after
      → NoHit method path before
      → r.method ≡ method
      → match_path r.pattern path ≡ some params
      → Later routes method path (matched r.route_id params)
  no_hit : NoHit method path routes → Later routes method path method_not_allowed

skip-Later :
    (r : Route) (rs : List Route) (method path : Bytes) {m : MatchResult}
    → ((match_path r.pattern path ≡ none) ⊎ (r.method ≢ method))
    → Later rs method path m
    → Later (r ∷ rs) method path m
skip-Later r rs method path miss (later_hit before after s params e nh sm sp) =
    later_hit (r ∷ before) after s params (ap (λ (t : List Route). r ∷ t) e) (miss, nh) sm sp
skip-Later r rs method path miss (no_hit nh) = no_hit (miss, nh)

skip :
    (r : Route) (rs : List Route) (method path : Bytes) {m : MatchResult}
    → match_path r.pattern path ≡ none
    → Answer rs method path m
    → Answer (r ∷ rs) method path m
skip r rs method path miss (hit before after s params e nh sm sp) =
    hit (r ∷ before) after s params (ap (λ (t : List Route). r ∷ t) e) (inl miss, nh) sm sp
skip r rs method path miss (wrong_method found nh) = wrong_method (inr found) (inl miss, nh)
skip r rs method path miss (missing np) = missing (miss, np)

settle :
    (r : Route) (rs : List Route) (method path : Bytes) {m : MatchResult}
    → FitsPath path r
    → r.method ≢ method
    → Later rs method path m
    → Answer (r ∷ rs) method path m
settle r rs method path fits ne (later_hit before after s params e nh sm sp) =
    hit (r ∷ before) after s params (ap (λ (t : List Route). r ∷ t) e) (inr ne, nh) sm sp
settle r rs method path fits ne (no_hit nh) = wrong_method (inl fits) (inr ne, nh)

differs : (a b : Bytes) → equal a b ≡ false → a ≢ b
differs a b h e = cc ((equal_iff a b).1 e)

match_routes-Later :
    (rs : List Route) (method path : Bytes)
    → Later rs method path (match_routes rs method path true)
unfolding match_routes
match_routes-Later [] method path = no_hit tt
match_routes-Later (r ∷ rs) method path = elim (Option-cases (match_path r.pattern path)) [
  | inl miss ↦
      rw (miss, match_routes)
        (skip-Later r rs method path (inl miss) (match_routes-Later rs method path))
  | inr (params, fits) ↦
      rw (fits, match_routes)
        (elim (Bool-cases (equal r.method method)) [
          | inl same ↦
              rw same (later_hit [] rs r params refl tt ((equal_iff r.method method).0 same) fits)
          | inr other ↦ rw other (
              skip-Later r rs method path (inr (differs r.method method other))
                (match_routes-Later rs method path))
        ])
]

match_routes-Answer :
    (rs : List Route) (method path : Bytes)
    → Answer rs method path (match_routes rs method path false)
unfolding match_routes
match_routes-Answer [] method path = missing tt
match_routes-Answer (r ∷ rs) method path = elim (Option-cases (match_path r.pattern path)) [
  | inl miss ↦
      rw (miss, match_routes) (skip r rs method path miss (match_routes-Answer rs method path))
  | inr (params, fits) ↦
      rw (fits, match_routes)
        (elim (Bool-cases (equal r.method method)) [
          | inl same ↦
              rw same (hit [] rs r params refl tt ((equal_iff r.method method).0 same) fits)
          | inr other ↦ rw other (
              settle r rs method path (params, fits) (differs r.method method other)
                (match_routes-Later rs method path))
        ])
]

-- The router answers with the first route that fits path and method; with "method not allowed" if the
-- path fits some route but none also has the method; and with "not found" if the path fits no route.
pub router_match-Answer :
    (router : Router) (method path : Bytes)
    → Answer router method path (router_match router method path)
unfolding router_match
router_match-Answer router method path = match_routes-Answer router method path

-- Each method and pattern fits its array, and neither is empty.
abbrev pub Bounded : List Route → Type 0
Bounded [] = Unit {0}
Bounded (r ∷ rs) =
    ((0 < length r.method)
      × (length r.method < method_max)
      × (0 < length r.pattern)
      × (length r.pattern < pattern_max))
    × Bounded rs

Bounded-append : (rs ss : List Route) → Bounded rs → Bounded ss → Bounded (rs ++ ss)
Bounded-append [] ss h k = k
Bounded-append (r ∷ rs) ss (h, hs) k = (h, Bounded-append rs ss hs k)

-- Registering a route keeps the bounds of the table and of its entries, whatever it is called with.
pub add-Bounded :
    (reports : Bool) (router : Router) (method pattern : Bytes) (id : ℕ)
    → length router ≤ max_routes
    → Bounded router
    → (length (add reports router method pattern id).0 ≤ max_routes)
      × Bounded (add reports router method pattern id).0
unfolding add
add-Bounded reports router method pattern id n b =
    let r : Route = record { method = method; pattern = pattern; route_id = id } in
    elim (Bool-cases (
      not reports
      || leb max_routes (length router)
      || length method == 0
      || leb method_max (length method)
      || length pattern == 0
      || leb pattern_max (length pattern)
      || not (starts_with_slash pattern))) [
        | inl bad ↦
            let run : add reports router method pattern id ≡ (router, false) = ground arith in
            rw run (n, b)
        | inr good ↦
            let run : add reports router method pattern id ≡ (router ++ r ∷ [], true) =
              ground arith in
            rw run (
              ground (arith, length-append router (r ∷ [])),
              Bounded-append router (r ∷ []) b (ground arith),
            )
      ]
