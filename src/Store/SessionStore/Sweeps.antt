-- ===== src/Store/SessionStore/Sweeps.antt =====
-- The statements with which src/platform/maintenance.c removes sessions. `picks` says which of the
-- rows that meet the WHERE clause SQLite takes within the LIMIT; a loop over batches is one statement
-- after another.
use platform_service.Common.{
  ℕ, ◌+◌, ◌≤◌, Bool, false, ◌&&◌, ◌||◌, Option, none, some, List, [], ◌∷◌, arith, Bytes, ltb,
  if◌then◌else◌, equal,
}
use platform_service.Store.SessionStore.{FamilyRow, TokenRow, Db, changed}

unfoldable pub delete_where {ℓ} : {A : Type ℓ} → (A → Bool) → List A → List A
delete_where p [] = []
delete_where p (r ∷ rs) = if p r then delete_where p rs else r ∷ delete_where p rs

-- `absolute_exp < now`.
abbrev pub is_expired : ℕ → FamilyRow → Bool
is_expired now f = ltb f.absolute_exp now

-- Whether the family's id is that of a row that is tested.
unfoldable pub is_among : (FamilyRow → Bool) → List FamilyRow → Bytes → Bool
is_among p [] family_id = false
is_among p (f ∷ fs) family_id = (equal f.family_id family_id && p f) || is_among p fs family_id

-- `sweep_table` on `refresh_tokens`.
unfoldable pub sweep_tokens : Bool → (TokenRow → Bool) → Db → ℕ → Db
unfolding delete_where is_among
sweep_tokens runs picks db now =
    if runs
    then record db {
      tokens =
          delete_where (λ t. picks t && is_among (is_expired now) db.families t.family_id)
            db.tokens;
    }
    else db

-- 30 days in seconds.
abbrev pub revoked_for : ℕ
revoked_for = 2592000

-- `revoked_at IS NOT NULL AND revoked_at < ?2`.
unfoldable pub is_long_revoked : ℕ → Option ℕ → Bool
is_long_revoked now none = false
is_long_revoked now (some at) = ltb (at + revoked_for) now

unfoldable pub is_stale : ℕ → FamilyRow → Bool
unfolding is_long_revoked
is_stale now f = is_expired now f || is_long_revoked now f.revoked_at

-- `sweep_session_families`; the schema deletes the tokens of a family with it.
unfoldable pub sweep_families : Bool → (FamilyRow → Bool) → Db → ℕ → Db
unfolding delete_where is_among is_stale
sweep_families runs picks db now =
    let gone : FamilyRow → Bool = λ f. picks f && is_stale now f in
    if runs
    then record {
      families = delete_where gone db.families;
      tokens = delete_where (λ t. is_among gone db.families t.family_id) db.tokens;
    }
    else db

-- A DELETE leaves no more rows of a kind than there were.
pub changed-delete_where {ℓ} :
    {A : Type ℓ} (p q : A → Bool) (rs : List A) → changed p (delete_where q rs) ≤ changed p rs
unfolding changed delete_where
changed-delete_where p q [] = omega arith
changed-delete_where p q (r ∷ rs) = ground (arith, changed-delete_where p q rs)
