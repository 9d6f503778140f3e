-- ===== src/Api/Routes/Access.antt =====
-- Who reaches a handler.
use platform_service.Common.{
  ℕ, zero, suc, ◌<◌, ◌≡◌, refl, subst, ◌⊎◌, inl, inr, Bool, true, false, not, ◌||◌, Option, none,
  some, List, arith, Bytes, codes, if◌then◌else◌,
}
use platform_service.Common.Int.{ℤ, ◌==ℤ◌, ==ℤ→eq, ==ℤ_refl}
use platform_service.Http.Router.{Param, params_get}
use platform_service.Http.Request.Types.{Request}
use platform_service.Api.Rbac.{
  policy, Claims, self_or_role, policy_for_route, check, check_kind, has_role, role_admin, policies,
  first_policy,
}
use platform_service.Api.Routes.{
  Call, healthz, readyz, register_account, verify_account, resend_verification, login,
  refresh_session, logout, password_change, get_user, count_users, list_users, calls, forbidden,
  with_target, with_policy, dispatch, authenticate_bearer, parse_path_user_id,
}

-- The access matrix: what a handler's call takes, of the token's claims and of the target.
abbrev pub Permitted : Option Claims → Option ℤ → Call → Type 0
Permitted bearer target healthz = Unit {0}
Permitted bearer target readyz = Unit {0}
Permitted bearer target register_account = Unit {0}
Permitted bearer target verify_account = Unit {0}
Permitted bearer target resend_verification = Unit {0}
Permitted bearer target login = Unit {0}
Permitted bearer target refresh_session = Unit {0}
Permitted bearer target (logout c) = bearer ≡ some c
Permitted bearer target (password_change c) = bearer ≡ some c
Permitted bearer target (get_user c t) =
    (bearer ≡ some c) × (target ≡ some t) × ((c.user_id ≡ t) ⊎ (has_role c role_admin ≡ true))
Permitted bearer target (count_users c) = (bearer ≡ some c) × (has_role c role_admin ≡ true)
Permitted bearer target (list_users c) = (bearer ≡ some c) × (has_role c role_admin ≡ true)

calls_injective : (x y : Call) → calls x ≡ calls y → x ≡ y
calls_injective x y h = cc

guarded :
    (b : Bool) (x c : Call) → (if b then forbidden else calls x) ≡ calls c → (b ≡ false) × (x ≡ c)
guarded true x c h = cc
guarded false x c h = (refl, calls_injective x c h)

no_policy : (id : ℕ) → 12 < id → policy_for_route id ≡ none
unfolding policy_for_route first_policy policies
no_policy id h = ground arith

-- The route that a user may take for himself.
user_case :
    (cl : Claims) (o : Option ℤ) (c : Call)
    → with_target 10 (policy 10 "GET" "/v1/users/{userId}" self_or_role role_admin) cl o ≡ calls c
    → Permitted (some cl) o c
unfolding with_target check check_kind
user_case cl none c h = cc
user_case cl (some t) c h =
    let g = guarded (not (cl.user_id ==ℤ t || has_role cl role_admin)) (get_user cl t) c h in
    subst (Permitted (some cl) (some t)) g.1
      (refl, refl, either (cl.user_id ==ℤ t) (has_role cl role_admin) g.0 (==ℤ→eq cl.user_id t))
  where
    either : {P : Type 0} (a r : Bool) → not (a || r) ≡ false → (a ≡ true → P) → P ⊎ (r ≡ true)
    either true r h own = inl (own refl)
    either false true h own = inr refl
    either false false h own = cc

unguarded : (a : Bool) → not a ≡ false → a ≡ true
unguarded true h = refl
unguarded false h = cc

-- Route by route.
by_id :
    (id : ℕ) (params : List Param) (b : Option Claims) (c : Call)
    → with_policy id (policy_for_route id) params b ≡ calls c
    → Permitted b (parse_path_user_id (params_get params (codes "userId"))) c
unfolding with_policy policy_for_route first_policy policies check check_kind
by_id zero params b c h = cc
by_id (suc zero) params b c h = subst (Permitted b _) (calls_injective _ c h) tt
by_id (suc (suc zero)) params b c h = subst (Permitted b _) (calls_injective _ c h) tt
by_id (suc (suc (suc zero))) params b c h = subst (Permitted b _) (calls_injective _ c h) tt
by_id (suc (suc (suc (suc zero)))) params b c h = subst (Permitted b _) (calls_injective _ c h) tt
by_id (suc (suc (suc (suc (suc zero))))) params b c h =
    subst (Permitted b _) (calls_injective _ c h) tt
by_id (suc (suc (suc (suc (suc (suc zero)))))) params b c h =
    subst (Permitted b _) (calls_injective _ c h) tt
by_id (suc (suc (suc (suc (suc (suc (suc zero))))))) params b c h =
    subst (Permitted b _) (calls_injective _ c h) tt
by_id (suc (suc (suc (suc (suc (suc (suc (suc zero)))))))) params none c h = cc
by_id (suc (suc (suc (suc (suc (suc (suc (suc zero)))))))) params (some cl) c h =
    subst (Permitted (some cl) _) (calls_injective _ c h) refl
by_id (suc (suc (suc (suc (suc (suc (suc (suc (suc zero))))))))) params none c h = cc
by_id (suc (suc (suc (suc (suc (suc (suc (suc (suc zero))))))))) params (some cl) c h =
    subst (Permitted (some cl) _) (calls_injective _ c h) refl
by_id (suc (suc (suc (suc (suc (suc (suc (suc (suc (suc zero)))))))))) params none c h = cc
by_id (suc (suc (suc (suc (suc (suc (suc (suc (suc (suc zero)))))))))) params (some cl) c h =
    user_case cl (parse_path_user_id (params_get params (codes "userId"))) c h
by_id (suc (suc (suc (suc (suc (suc (suc (suc (suc (suc (suc zero))))))))))) params none c h = cc
by_id (suc (suc (suc (suc (suc (suc (suc (suc (suc (suc (suc zero))))))))))) params (some cl) c h =
    let g = guarded (not (has_role cl role_admin)) (count_users cl) c h in
    subst (Permitted (some cl) _) g.1 (refl, unguarded _ g.0)
by_id (suc (suc (suc (suc (suc (suc (suc (suc (suc (suc (suc (suc zero)))))))))))) params none c h =
    cc
by_id (suc (suc (suc (suc (suc (suc (suc (suc (suc (suc (suc (suc zero)))))))))))) params (some cl)
      c h =
    let g = guarded (not (has_role cl role_admin)) (list_users cl) c h in
    subst (Permitted (some cl) _) g.1 (refl, unguarded _ g.0)
by_id (suc (suc (suc (suc (suc (suc (suc (suc (suc (suc (suc (suc (suc id))))))))))))) params b c
      h =
    cc (
      rw
        (no_policy (suc (suc (suc (suc (suc (suc (suc (suc (suc (suc (suc (suc (suc id)))))))))))))
          (omega arith))
        at h)

-- No handler is called but for one whom the matrix permits it.
pub dispatch-Permitted :
    (verify : Bytes → Option Claims) (id : ℕ) (req : Request) (params : List Param) (c : Call)
    → dispatch verify id req params ≡ calls c
    → Permitted
        (authenticate_bearer verify req)
        (parse_path_user_id (params_get params (codes "userId")))
        c
unfolding dispatch
dispatch-Permitted verify id req params c h = by_id id params (authenticate_bearer verify req) c h

-- The route of a handler.
abbrev pub route_of : Call → ℕ
route_of healthz = 1
route_of readyz = 2
route_of register_account = 3
route_of verify_account = 4
route_of resend_verification = 5
route_of login = 6
route_of refresh_session = 7
route_of (logout _) = 8
route_of (password_change _) = 9
route_of (get_user _ _) = 10
route_of (count_users _) = 11
route_of (list_users _) = 12

or_true : (a : Bool) → (a || true) ≡ true
or_true true = refl
or_true false = refl

admit :
    (params : List Param) (b : Option Claims) (c : Call)
    → Permitted b (parse_path_user_id (params_get params (codes "userId"))) c
    → with_policy (route_of c) (policy_for_route (route_of c)) params b ≡ calls c
unfolding with_policy policy_for_route first_policy policies check check_kind
admit params b healthz ok = refl
admit params b readyz ok = refl
admit params b register_account ok = refl
admit params b verify_account ok = refl
admit params b resend_verification ok = refl
admit params b login ok = refl
admit params b refresh_session ok = refl
admit params b (logout c) given = rw given refl
admit params b (password_change c) given = rw given refl
admit params b (get_user c t) (given, read, inl own) = rw (given, read, own, ==ℤ_refl t) refl
admit params b (get_user c t) (given, read, inr admin) =
    rw (given, read, admin, or_true (c.user_id ==ℤ t)) refl
admit params b (count_users c) (given, admin) = rw (given, admin) refl
admit params b (list_users c) (given, admin) = rw (given, admin) refl

-- Whom the matrix permits a call, the dispatcher lets through to that handler.
pub dispatch_admits :
    (verify : Bytes → Option Claims) (req : Request) (params : List Param) (c : Call)
    → Permitted
        (authenticate_bearer verify req)
        (parse_path_user_id (params_get params (codes "userId")))
        c
    → dispatch verify (route_of c) req params ≡ calls c
unfolding dispatch
dispatch_admits verify req params c permitted =
    admit params (authenticate_bearer verify req) c permitted
