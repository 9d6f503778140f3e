-- ===== src/Auth/Claims.antt =====
-- The claims of a token and their JSON, src/auth/claims.c and claims.h; the record itself stands
-- in Api.Rbac. Memory is granted. `int` and `int64_t` are integers without bound: where `exp` and
-- the skew overflow, C leaves the sum undefined. `strtoll` skips white space and reads as in
-- Api.Routes.
pub mod Validity
pub mod RoundTrip
pub mod Samples
mod Tests
use platform_service.Common.{
  ℕ, zero, suc, ◌+◌, ◌-◌, ◌*◌, ◌/◌, ◌%◌, ◌^◌, ◌≤◌, ◌<◌, min, code, String, ◌≡◌, refl, sym, ap, ◌∙◌,
  subst, ◌≢◌, ◌↔◌, ◌⊎◌, inl, inr, Bool, true, false, not, ◌&&◌, ◌||◌, Option, none, some, List, [],
  ◌∷◌, ◌++◌, append_assoc, append-nil, arith, Bytes, codes, ltb, leb, ◌==◌, if◌then◌else◌, ltb→lt,
  lt→ltb, leb→le, ==_iff, tests, Bool-cases, Option-cases, length, get_elem?, set, length-append,
  length-set, get_elem?-set_self, get_elem?-set_ne, get_or, take, drop, replicate, take-append-drop,
  take-append, length-take, length-drop, length-replicate, length-map, equal, equal_iff,
}
use Prim.Native.Nat.{bit_and, bit_or}
use platform_service.Common.Int.{ℤ, pos, negsuc, ltℤ, ◌+ℤ◌, ◌-ℤ◌}
use platform_service.Json.Value.{
  c_str, Value, string, number, array, object, Items, no_items, item, Members, no_members,
  array_append, object_set, object_get, get_string, get_number, kind, Kind, string_kind,
  number_kind,
}
use platform_service.Json.Scanner.{Parsed, done, failed, stuck}
use platform_service.Json.Parser.{parse}
use platform_service.Json.Writer.{Doubles, write}
use platform_service.Api.Rbac.{Claims, role_admin}
use platform_service.Api.Routes.{is_space, signed}
use platform_service.Api.Routes.Decimal.{printed}

-- The conversions of C between `double` and `int64_t`.
pub record Casts (F : Type 0) : Type 0 where
  pub doubles : Doubles F
  pub to_int64 : F → ℤ
  pub of_int64 : ℤ → F

-- `PS_JWT_ROLE_USER`.
abbrev pub role_user : ℕ
role_user = 1

-- `ROLE_NAMES`.
abbrev pub role_names : List (ℕ × Bytes)
role_names = (role_user, codes "USER") ∷ (role_admin, codes "ADMIN") ∷ []

-- `PS_JWT_JTI_HEX_LEN` and `PS_JWT_FAMILY_ID_HEX_LEN`.
abbrev pub hex_len : ℕ
hex_len = 32

-- `strcmp` of two C strings.
unfoldable pub same_text : Bytes → Bytes → Bool
same_text a b = equal (c_str a) (c_str b)

-- The bit of the row that the inner loop finds.
unfoldable pub role_bit : List (ℕ × Bytes) → Bytes → Option ℕ
unfolding same_text
role_bit [] name = none
role_bit ((bit, known) ∷ rows) name = if same_text name known then some bit else role_bit rows name

module _ {F : Type 0} where
  -- The loop of `ps_claims_write` over the table.
  unfoldable pub role_items : List (ℕ × Bytes) → ℕ → Items F → Items F
  role_items [] roles vs = vs
  role_items ((bit, name) ∷ rows) roles vs =
      let rest = role_items rows roles vs in
      let more = role_items rows roles (array_append vs (string name)) in
      if bit_and roles bit == 0 then rest else more

  unfoldable pub set_str : Members F → Bytes → Bytes → Members F
  unfolding object_set c_str
  set_str ms key val = object_set ms key (string (c_str val))

module _ {F : Type 0} (fp : Casts F) where
  -- The object that `ps_claims_write` builds.
  unfoldable pub claims_members : Claims → Bytes → Bytes → Members F
  unfolding set_str role_items
  claims_members c issuer audience =
      let m1 = set_str no_members (codes "iss") issuer in
      let m2 = set_str m1 (codes "sub") (printed c.user_id) in
      let m3 = set_str m2 (codes "aud") audience in
      let m4 = object_set m3 (codes "exp") (number (fp.of_int64 c.exp)) in
      let m5 = object_set m4 (codes "iat") (number (fp.of_int64 c.iat)) in
      let m6 = object_set m5 (codes "nbf") (number (fp.of_int64 c.nbf)) in
      let m7 = set_str m6 (codes "jti") c.jti in
      let m8 = set_str m7 (codes "family_id") c.family_id in
      object_set m8 (codes "roles") (array (role_items role_names c.roles no_items))

  -- `ps_claims_write`: the bytes that are appended. `%lld` of an `int64_t` fits 32 bytes.
  unfoldable pub claims_write : Claims → Bytes → Bytes → Option Bytes
  unfolding claims_members
  claims_write c issuer audience = write fp.doubles (object (claims_members c issuer audience))

-- What `ps_claims_parse` returns, with the claims that it writes on success.
pub data ClaimsResult : Type 0 where
  claims_ok : Claims → ClaimsResult
  claims_malformed claims_bad_issuer claims_bad_audience : ClaimsResult
  claims_expired claims_not_yet_valid : ClaimsResult

infixl 5 ◌>>=◌
abbrev pub ◌>>=◌ : {A B : Type 0} → Option A → (A → Option B) → Option B
none >>= f = none
some a >>= f = f a

-- The bytes if the test holds of them.
unfoldable pub having : {A : Type 0} → (A → Bool) → A → Option A
having test a = if test a then some a else none

-- Behind the white space that `strtoll` skips.
unfoldable pub skip_spaces : Bytes → Bytes
skip_spaces [] = []
skip_spaces (c ∷ s) = if is_space c then skip_spaces s else c ∷ s

module _ {F : Type 0} where
  -- The string under a key, `none` where there is none or no string.
  unfoldable pub string_field : Members F → Bytes → Option Bytes
  unfolding object_get
  string_field ms key = get_string (object_get (some (object ms)) key)

  -- `parse_sub`.
  unfoldable pub parse_sub : Members F → Option ℤ
  unfolding string_field skip_spaces
  parse_sub ms = string_field ms (codes "sub") >>= (λ s. signed (skip_spaces (c_str s)))

  unfoldable pub number_of : Option (Value F) → Option F
  number_of (some (number n)) = some n
  number_of _ = none

  -- `parse_int64_field`.
  unfoldable pub int64_field : (F → ℤ) → Members F → Bytes → Option ℤ
  unfolding number_of
  int64_field to_int64 ms key =
      number_of (object_get (some (object ms)) key) >>= (λ n. some (to_int64 n))

  -- The loop of `parse_roles` over the items, with the roles so far.
  unfoldable pub roles_of : Items F → ℕ → Option ℕ
  unfolding role_bit
  roles_of no_items roles = some roles
  roles_of (item (string name) vs) roles =
      role_bit role_names name >>= (λ bit. roles_of vs (bit_or roles bit))
  roles_of (item _ vs) roles = none

  unfoldable pub items_of : Option (Value F) → Option (Items F)
  items_of (some (array vs)) = some vs
  items_of _ = none

  -- `parse_roles`.
  unfoldable pub parse_roles : Members F → Option ℕ
  unfolding items_of roles_of
  parse_roles ms =
      items_of (object_get (some (object ms)) (codes "roles")) >>= (λ vs. roles_of vs 0)

-- Issuer, audience and claims of an object in which nothing is missing or of a wrong shape.
pub record Fields : Type 0 where
  pub issuer : Bytes
  pub audience : Bytes
  pub claims : Claims

unfoldable pub read_fields : {F : Type 0} → (F → ℤ) → Members F → Option Fields
unfolding string_field parse_sub int64_field parse_roles having
read_fields to_int64 ms = do
  iss ← string_field ms (codes "iss")
  aud ← string_field ms (codes "aud")
  jti ← string_field ms (codes "jti") >>= having (λ s. length s == hex_len)
  family ← string_field ms (codes "family_id") >>= having (λ s. length s == hex_len)
  user_id ← parse_sub ms
  iat ← int64_field to_int64 ms (codes "iat")
  nbf ← int64_field to_int64 ms (codes "nbf")
  exp ← int64_field to_int64 ms (codes "exp")
  roles ← parse_roles ms
  some (record {
    issuer = iss;
    audience = aud;
    claims = record {
      user_id = user_id;
      roles = roles;
      iat = iat;
      nbf = nbf;
      exp = exp;
      jti = jti;
      family_id = family;
    };
  })

-- The tests behind the structural ones.
unfoldable pub check_fields : Bytes → Bytes → ℤ → ℤ → Option Fields → ClaimsResult
unfolding same_text
check_fields issuer audience now skew none = claims_malformed
check_fields issuer audience now skew (some f) =
    if not (same_text f.issuer issuer)
    then claims_bad_issuer
    else if not (same_text f.audience audience)
    then claims_bad_audience
    else if ltℤ (f.claims.exp +ℤ skew) now
    then claims_expired
    else if ltℤ now (f.claims.nbf -ℤ skew)
    then claims_not_yet_valid
    else claims_ok f.claims

unfoldable pub members_of : {F : Type 0} → Parsed (Value F) → Option (Members F)
members_of (done (object ms) r) = some ms
members_of _ = none

-- `ps_claims_parse`.
unfoldable pub claims_parse : {F : Type 0} → Casts F → Bytes → Bytes → Bytes → ℤ → ℤ → ClaimsResult
unfolding members_of read_fields check_fields
claims_parse fp json issuer audience now skew =
    check_fields issuer audience now skew
      (members_of (parse fp.doubles.strtod json) >>= (λ ms. read_fields fp.to_int64 ms))

-- `ps_claims_roles_from_names`.
unfoldable pub roles_from_names : List Bytes → ℕ → ℕ
unfolding role_bit
roles_from_names [] roles = roles
roles_from_names (name ∷ names) roles =
    roles_from_names names
      (elim (role_bit role_names name) [ none ↦ roles | some bit ↦ bit_or roles bit ])
