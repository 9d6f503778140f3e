-- ===== src/Api/Rbac.antt =====
-- The table of policies and its check, src/api/rbac.c and rbac.h, over the claims of
-- src/auth/claims.h.
use platform_service.Common.{
  ℕ, String, Bool, true, not, ◌||◌, Option, none, some, List, [], ◌∷◌, Bytes, codes, ◌==◌,
  if◌then◌else◌,
}
use platform_service.Common.Int.{ℤ, ◌==ℤ◌}
use Prim.Native.Nat.{bit_and}

-- `ps_jwt_claims_t`.
pub record Claims : Type 0 where
  pub user_id : ℤ
  pub roles : ℕ
  pub iat : ℤ
  pub nbf : ℤ
  pub exp : ℤ
  pub jti : Bytes
  pub family_id : Bytes

-- `PS_JWT_ROLE_ADMIN`.
abbrev pub role_admin : ℕ
role_admin = 2

-- `ps_policy_kind_t`.
pub data PolicyKind : Type 0 where
  public authenticated role self_or_role : PolicyKind

-- `ps_route_policy_t`.
pub record Policy : Type 0 where
  pub route_id : ℕ
  pub method : Bytes
  pub path_pattern : Bytes
  pub kind : PolicyKind
  pub required_role : ℕ

abbrev pub policy : ℕ → String → String → PolicyKind → ℕ → Policy
policy id m p k r = record {
  route_id = id;
  method = codes m;
  path_pattern = codes p;
  kind = k;
  required_role = r;
}

-- `PS_RBAC_POLICIES`.
unfoldable pub policies : List Policy
policies =
    policy 1 "GET" "/healthz" public 0
    ∷ policy 2 "GET" "/readyz" public 0
    ∷ policy 3 "POST" "/v1/auth/register" public 0
    ∷ policy 4 "POST" "/v1/auth/verify" public 0
    ∷ policy 5 "POST" "/v1/auth/resend-verification" public 0
    ∷ policy 6 "POST" "/v1/auth/login" public 0
    ∷ policy 7 "POST" "/v1/auth/refresh" public 0
    ∷ policy 8 "POST" "/v1/auth/logout" authenticated 0
    ∷ policy 9 "POST" "/v1/auth/password" authenticated 0
    ∷ policy 10 "GET" "/v1/users/{userId}" self_or_role role_admin
    ∷ policy 11 "GET" "/v1/admin/users/count" role role_admin
    ∷ policy 12 "GET" "/v1/admin/users" role role_admin
    ∷ []

unfoldable pub first_policy : List Policy → ℕ → Option Policy
first_policy [] id = none
first_policy (p ∷ ps) id = if p.route_id == id then some p else first_policy ps id

-- `ps_rbac_policy_for_route`; `none` is NULL.
unfoldable pub policy_for_route : ℕ → Option Policy
unfolding first_policy policies
policy_for_route id = first_policy policies id

abbrev pub has_role : Claims → ℕ → Bool
has_role c r = not (bit_and c.roles r == 0)

unfoldable pub check_kind : PolicyKind → ℕ → Claims → ℤ → Bool
check_kind public r c target = true
check_kind authenticated r c target = true
check_kind role r c target = has_role c r
check_kind self_or_role r c target = c.user_id ==ℤ target || has_role c r

-- `ps_rbac_check`.
unfoldable pub check : Policy → Claims → ℤ → Bool
unfolding check_kind
check p c target = check_kind p.kind p.required_role c target
