-- ===== src/Auth/Claims/RoundTrip.antt =====
-- Claims that `ps_claims_write` of src/auth/claims.c writes are parsed back.
use platform_service.Common.{
  ℕ, zero, suc, ◌≤◌, ◌<◌, ◌≡◌, refl, Bool, true, some, [], ◌∷◌, arith, Bytes, codes, length, equal,
  equal_iff,
}
use platform_service.Common.Int.{ℤ, ◌≤ℤ◌, ◌+ℤ◌, ◌-ℤ◌}
use platform_service.Json.Value.{
  c_str, string, number, array, object, no_items, Members, no_members, member, array_append,
  set_member, object_set, object_get, find_member, get_string, depth, items_depth, members_depth,
  max_depth,
}
use platform_service.Json.Value.Readable.{IsReadable, AllReadable, MembersReadable}
use platform_service.Json.Value.Setting.{c_str_idem}
use platform_service.Json.Writer.{IsLawful}
use platform_service.Json.Writer.Success.{write_total}
use platform_service.Json.RoundTrip.Values.{parse-write}
use platform_service.Api.Rbac.{Claims}
use platform_service.Api.Routes.{c_string, parse_int64, signed}
use platform_service.Api.Routes.Int64.{IsInt64}
use platform_service.Api.Routes.Decimal.{printed, parse_int64-printed}
use platform_service.Auth.Claims.{
  Casts, hex_len, role_names, same_text, role_bit, role_items, set_str, claims_members,
  claims_write, claims_ok, having, skip_spaces, string_field, parse_sub, number_of, int64_field,
  roles_of, items_of, parse_roles, read_fields, check_fields, members_of, claims_parse,
}

c_str-eq-c_string : (s : Bytes) → c_str s ≡ c_string s
unfolding c_str c_string
c_str-eq-c_string [] = refl
c_str-eq-c_string (c ∷ s) = ground (arith, c_str-eq-c_string s)

signed-printed : (v : ℤ) → IsInt64 v → signed (c_str (printed v)) ≡ some v
unfolding parse_int64
signed-printed v h = rw (c_str-eq-c_string (printed v)) (ground (arith, parse_int64-printed v h))

skip_spaces-signed : (s : Bytes) (v : ℤ) → signed s ≡ some v → skip_spaces s ≡ s
unfolding skip_spaces signed
skip_spaces-signed [] v h = refl
skip_spaces-signed (c ∷ s) v h = ground arith

-- The object as the writer gets it.
laid_out : {F : Type 0} → Casts F → Claims → Bytes → Bytes → Members F
laid_out fp c issuer audience = member (codes "iss") (string (c_str issuer)) (
    member (codes "sub") (string (c_str (printed c.user_id))) (
      member (codes "aud") (string (c_str audience)) (
        member (codes "exp") (number (fp.of_int64 c.exp)) (
          member (codes "iat") (number (fp.of_int64 c.iat)) (
            member (codes "nbf") (number (fp.of_int64 c.nbf)) (
              member (codes "jti") (string (c_str c.jti)) (
                member (codes "family_id") (string (c_str c.family_id)) (
                  member (codes "roles") (array (role_items role_names c.roles no_items))
                    no_members))))))))

claims_members_lem :
    {F : Type 0} (fp : Casts F) (c : Claims) (issuer audience : Bytes)
    → claims_members fp c issuer audience ≡ laid_out fp c issuer audience
unfolding claims_members laid_out set_member object_set c_str equal set_str
claims_members_lem fp c issuer audience = refl

roles_of-role_items :
    (F : Type 0) (r : ℕ) → r < 4 → roles_of {F = F} (role_items role_names r no_items) 0 ≡ some r
unfolding roles_of role_items role_bit same_text c_str equal array_append
roles_of-role_items F zero h = refl
roles_of-role_items F (suc zero) h = refl
roles_of-role_items F (suc (suc zero)) h = refl
roles_of-role_items F (suc (suc (suc zero))) h = refl
roles_of-role_items F (suc (suc (suc (suc r)))) h = absurd (omega arith)

role_items-AllReadable :
    {F : Type 0} (good : F → Bool) (r : ℕ)
    → r < 4
    → AllReadable good (role_items role_names r no_items)
      × (items_depth (role_items {F = F} role_names r no_items) ≤ 1)
unfolding role_items array_append IsReadable depth
role_items-AllReadable good zero h = (tt, omega arith)
role_items-AllReadable good (suc zero) h = ((tt, tt), omega arith)
role_items-AllReadable good (suc (suc zero)) h = ((tt, tt), omega arith)
role_items-AllReadable good (suc (suc (suc zero))) h = ((tt, (tt, tt)), omega arith)
role_items-AllReadable good (suc (suc (suc (suc r)))) h = absurd (omega arith)

-- Claims as the service issues them: identifiers of 32 bytes without a NUL, the roles of the
-- table, and times that a double carries exactly.
pub record IsIssuable {F : Type 0} (fp : Casts F) (c : Claims) : Type 0 where
  pub user_id : IsInt64 c.user_id
  pub roles : c.roles < 4
  pub jti : c_str c.jti ≡ c.jti
  pub jti_len : length c.jti ≡ hex_len
  pub family : c_str c.family_id ≡ c.family_id
  pub family_len : length c.family_id ≡ hex_len
  pub exp : fp.to_int64 (fp.of_int64 c.exp) ≡ c.exp
  pub iat : fp.to_int64 (fp.of_int64 c.iat) ≡ c.iat
  pub nbf : fp.to_int64 (fp.of_int64 c.nbf) ≡ c.nbf
  pub exp_finite : fp.doubles.is_finite (fp.of_int64 c.exp) ≡ true
  pub iat_finite : fp.doubles.is_finite (fp.of_int64 c.iat) ≡ true
  pub nbf_finite : fp.doubles.is_finite (fp.of_int64 c.nbf) ≡ true

module _ {F : Type 0} (fp : Casts F) (c : Claims) (issuer audience : Bytes)
    (good : IsIssuable fp c) where
  laid_out-read :
      read_fields fp.to_int64 (laid_out fp c issuer audience)
      ≡ some (record { issuer = c_str issuer; audience = c_str audience; claims = c })
  unfolding read_fields laid_out string_field object_get find_member c_str equal parse_sub
      int64_field parse_roles number_of items_of having get_string
  laid_out-read =
      let read = signed-printed c.user_id good.user_id in
      rw
        (
          good.jti,
          good.family,
          good.jti_len,
          good.family_len,
          good.exp,
          good.iat,
          good.nbf,
          c_str_idem (printed c.user_id),
          skip_spaces-signed (c_str (printed c.user_id)) c.user_id read,
          read,
          roles_of-role_items F c.roles good.roles,
        )
        refl

  laid_out-MembersReadable : MembersReadable fp.doubles.is_finite (laid_out fp c issuer audience)
  unfolding IsReadable laid_out find_member c_str equal
  laid_out-MembersReadable = (
    refl,
    refl,
    tt,
    (
      refl,
      refl,
      tt,
      (
        refl,
        refl,
        tt,
        (
          refl,
          refl,
          good.exp_finite,
          (
            refl,
            refl,
            good.iat_finite,
            (
              refl,
              refl,
              good.nbf_finite,
              (
                refl,
                refl,
                tt,
                (
                  refl,
                  refl,
                  tt,
                  (
                    refl,
                    refl,
                    (role_items-AllReadable fp.doubles.is_finite c.roles good.roles).0,
                    tt,
                  ),
                ),
              ),
            ),
          ),
        ),
      ),
    ),
  )

  members_depth-laid_out : members_depth (laid_out fp c issuer audience) ≤ 2
  unfolding depth laid_out
  members_depth-laid_out =
      ground (arith, (role_items-AllReadable fp.doubles.is_finite c.roles good.roles).1)

  check_fields-written :
      (now skew : ℤ)
      → now ≤ℤ c.exp +ℤ skew
      → c.nbf -ℤ skew ≤ℤ now
      → check_fields issuer audience now skew
          (some (record { issuer = c_str issuer; audience = c_str audience; claims = c }))
        ≡ claims_ok c
  unfolding check_fields same_text
  check_fields-written now skew late early =
      rw (c_str_idem issuer, c_str_idem audience)
        (ground (
          arith,
          equal_iff (c_str issuer) (c_str issuer),
          equal_iff (c_str audience) (c_str audience),
        ))

  -- Claims of the shape that the service issues are written without failure, and within their
  -- window what was written is parsed back as the same claims under the same issuer and audience.
  pub claims_parse-claims_write :
      (now skew : ℤ)
      → IsLawful fp.doubles
      → now ≤ℤ c.exp +ℤ skew
      → c.nbf -ℤ skew ≤ℤ now
      → (t : Bytes) × (claims_write fp c issuer audience ≡ some t)
        × (claims_parse fp t issuer audience now skew ≡ claims_ok c)
  unfolding claims_write claims_parse members_of depth IsReadable
  claims_parse-claims_write now skew law late early =
      let ms = laid_out fp c issuer audience in
      let (t, written) = write_total law (object ms) object_shallow in
      let parsed = parse-write law (object ms) t laid_out-MembersReadable written in
      (
        t,
        rw (claims_members_lem fp c issuer audience) written,
        rw (parsed, laid_out-read) (check_fields-written now skew late early),
      )
    where
      object_shallow : depth (object (laid_out fp c issuer audience)) ≤ max_depth
      object_shallow = omega (arith, members_depth-laid_out)
