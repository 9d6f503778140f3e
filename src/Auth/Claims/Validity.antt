-- ===== src/Auth/Claims/Validity.antt =====
-- What claims that `ps_claims_parse` of src/auth/claims.c accepts are.
use platform_service.Common.{
  ℕ, zero, suc, ◌<◌, ◌≡◌, refl, subst, inl, inr, true, Option, none, some, arith, Bytes, codes,
  Option-cases, length,
}
use Prim.Native.Nat.{bit_or}
use platform_service.Common.Int.{ℤ, ◌≤ℤ◌, ◌+ℤ◌, ◌-ℤ◌}
use platform_service.Json.Value.{
  object_get, c_str, null, boolean, number, string, array, object, Items, no_items, item, Members,
}
use platform_service.Json.Parser.{parse}
use platform_service.Api.Rbac.{Claims}
use platform_service.Api.Routes.Int64.{IsInt64, signed-IsInt64}
use platform_service.Auth.Claims.{
  Casts, hex_len, role_names, role_bit, same_text, claims_ok, having, skip_spaces, string_field,
  parse_sub, roles_of, items_of, parse_roles, Fields, read_fields, check_fields, members_of,
  claims_parse, ◌>>=◌,
}

bit_or-lt_four : (a b : ℕ) → a < 4 → b < 4 → bit_or a b < 4
bit_or-lt_four zero zero g h = omega arith
bit_or-lt_four zero (suc zero) g h = omega arith
bit_or-lt_four zero (suc (suc zero)) g h = omega arith
bit_or-lt_four zero (suc (suc (suc zero))) g h = omega arith
bit_or-lt_four (suc zero) zero g h = omega arith
bit_or-lt_four (suc zero) (suc zero) g h = omega arith
bit_or-lt_four (suc zero) (suc (suc zero)) g h = omega arith
bit_or-lt_four (suc zero) (suc (suc (suc zero))) g h = omega arith
bit_or-lt_four (suc (suc zero)) zero g h = omega arith
bit_or-lt_four (suc (suc zero)) (suc zero) g h = omega arith
bit_or-lt_four (suc (suc zero)) (suc (suc zero)) g h = omega arith
bit_or-lt_four (suc (suc zero)) (suc (suc (suc zero))) g h = omega arith
bit_or-lt_four (suc (suc (suc zero))) zero g h = omega arith
bit_or-lt_four (suc (suc (suc zero))) (suc zero) g h = omega arith
bit_or-lt_four (suc (suc (suc zero))) (suc (suc zero)) g h = omega arith
bit_or-lt_four (suc (suc (suc zero))) (suc (suc (suc zero))) g h = omega arith
bit_or-lt_four (suc (suc (suc (suc a)))) b g h = absurd (omega arith)
bit_or-lt_four a (suc (suc (suc (suc b)))) g h = absurd (omega arith)

role_bit-lt_four : (name : Bytes) (bit : ℕ) → role_bit role_names name ≡ some bit → bit < 4
unfolding role_bit
role_bit-lt_four name bit h = ground arith

module _ {F : Type 0} where
  roles_of-lt_four : (vs : Items F) (acc r : ℕ) → acc < 4 → roles_of vs acc ≡ some r → r < 4
  unfolding roles_of
  roles_of-lt_four no_items acc r g h = ground arith
  roles_of-lt_four (item null vs) acc r g h = ground arith
  roles_of-lt_four (item (boolean b) vs) acc r g h = ground arith
  roles_of-lt_four (item (number n) vs) acc r g h = ground arith
  roles_of-lt_four (item (array ws) vs) acc r g h = ground arith
  roles_of-lt_four (item (object ms) vs) acc r g h = ground arith
  roles_of-lt_four (item (string name) vs) acc r g h =
      elim (Option-cases (role_bit role_names name)) [
        | inl unknown ↦ ground arith
        | inr (bit, known) ↦
            roles_of-lt_four vs (bit_or acc bit) r
              (bit_or-lt_four acc bit g (role_bit-lt_four name bit known)) (ground arith)
      ]

  parse_roles-lt_four : (ms : Members F) (r : ℕ) → parse_roles ms ≡ some r → r < 4
  unfolding parse_roles
  parse_roles-lt_four ms r h =
      elim (Option-cases (items_of (object_get (some (object ms)) (codes "roles")))) [
        | inl missing ↦ ground arith
        | inr (vs, found) ↦ roles_of-lt_four vs 0 r (omega arith) (ground arith)
      ]

  parse_sub-IsInt64 : (ms : Members F) (v : ℤ) → parse_sub ms ≡ some v → IsInt64 v
  unfolding parse_sub
  parse_sub-IsInt64 ms v h = elim (Option-cases (string_field ms (codes "sub"))) [
    | inl missing ↦ ground arith
    | inr (s, found) ↦ signed-IsInt64 (skip_spaces (c_str s)) v (ground arith)
  ]

  read_fields_lem :
      (to_int64 : F → ℤ) (ms : Members F) (f : Fields)
      → read_fields to_int64 ms ≡ some f
      → (string_field ms (codes "iss") ≡ some f.issuer)
        × (string_field ms (codes "aud") ≡ some f.audience)
        × (length f.claims.jti ≡ hex_len)
        × (length f.claims.family_id ≡ hex_len)
        × (parse_sub ms ≡ some f.claims.user_id)
        × (parse_roles ms ≡ some f.claims.roles)
  unfolding read_fields having
  read_fields_lem to_int64 ms f h =
      (ground arith, ground arith, ground arith, ground arith, ground arith, ground arith)

check_fields_lem :
    (issuer audience : Bytes) (now skew : ℤ) (o : Option Fields) (c : Claims)
    → check_fields issuer audience now skew o ≡ claims_ok c
    → (f : Fields) × (o ≡ some f)
      × (f.claims ≡ c)
      × (same_text f.issuer issuer ≡ true)
      × (same_text f.audience audience ≡ true)
      × (now ≤ℤ c.exp +ℤ skew)
      × (c.nbf -ℤ skew ≤ℤ now)
unfolding check_fields
check_fields_lem issuer audience now skew none c h = ground arith
check_fields_lem issuer audience now skew (some f) c h =
    let same : f.claims ≡ c = ground arith in
    (
      f,
      refl,
      same,
      ground arith,
      ground arith,
      subst (λ d. now ≤ℤ d.exp +ℤ skew) same (ground arith),
      subst (λ d. d.nbf -ℤ skew ≤ℤ now) same (ground arith),
    )

module _ {F : Type 0} where
  -- Claims are accepted only if the text is an object whose issuer and audience are the
  -- configured ones as C strings, the clock is within the window from nbf to exp with the skew
  -- allowed on both sides, the user is an int64_t, both identifiers have 32 bytes, and no role
  -- but the two of the table is set.
  pub claims_parse-valid :
      (fp : Casts F) (json issuer audience : Bytes) (now skew : ℤ) (c : Claims)
      → claims_parse fp json issuer audience now skew ≡ claims_ok c
      → (f : Fields) × (ms : Members F) × (members_of (parse fp.doubles.strtod json) ≡ some ms)
        × (string_field ms (codes "iss") ≡ some f.issuer)
        × (string_field ms (codes "aud") ≡ some f.audience)
        × (same_text f.issuer issuer ≡ true)
        × (same_text f.audience audience ≡ true)
        × (now ≤ℤ c.exp +ℤ skew)
        × (c.nbf -ℤ skew ≤ℤ now)
        × IsInt64 c.user_id
        × (c.roles < 4)
        × (length c.jti ≡ hex_len)
        × (length c.family_id ≡ hex_len)
  unfolding claims_parse
  claims_parse-valid fp json issuer audience now skew c h =
      let (f, found, same, iss, aud, late, early) =
        check_fields_lem issuer audience now skew
          (members_of (parse fp.doubles.strtod json) >>= (λ ms. read_fields fp.to_int64 ms)) c h in
      elim (Option-cases (members_of (parse fp.doubles.strtod json))) [
        | inl none_there ↦ ground arith
        | inr (ms, object_there) ↦
            let (i, a, j, k, u, r) = read_fields_lem fp.to_int64 ms f (ground arith) in
            (
              f,
              ms,
              object_there,
              i,
              a,
              iss,
              aud,
              late,
              early,
              subst (λ d. IsInt64 d.user_id) same (parse_sub-IsInt64 ms f.claims.user_id u),
              subst (λ d. d.roles < 4) same (parse_roles-lt_four ms f.claims.roles r),
              subst (λ d. length d.jti ≡ hex_len) same j,
              subst (λ d. length d.family_id ≡ hex_len) same k,
            )
      ]
