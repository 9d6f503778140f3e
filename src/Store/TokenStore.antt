-- ===== src/Store/TokenStore.antt =====
-- The tokens that verify an e-mail address, src/store/token_store.c and token_store.h, and their
-- table in src/store/schema/001_init.sql as a list of rows. `runs` says whether SQLite runs a
-- statement; the foreign key to the users is left out.
pub mod Outstanding
mod Tests
use platform_service.Common.{
  ℕ, zero, suc, ◌+◌, ◌-◌, ◌*◌, ◌/◌, ◌%◌, ◌^◌, ◌≤◌, ◌<◌, min, code, String, ◌≡◌, refl, sym, ap, ◌∙◌,
  subst, ◌≢◌, ◌↔◌, ◌⊎◌, inl, inr, Bool, true, false, not, ◌&&◌, ◌||◌, Option, none, some, List, [],
  ◌∷◌, ◌++◌, append_assoc, append-nil, arith, Bytes, codes, ltb, leb, ◌==◌, if◌then◌else◌, ltb→lt,
  lt→ltb, leb→le, ==_iff, tests, Bool-cases, Option-cases, length, get_elem?, set, length-append,
  length-set, get_elem?-set_self, get_elem?-set_ne, get_or, take, drop, replicate, take-append-drop,
  length-take, length-drop, length-replicate, length-map, equal, equal_iff,
}
use platform_service.Store.SessionStore.{is_null, or_zero, update_where, changed}

-- The table's row; `none` is NULL.
pub record VerificationRow : Type 0 where
  pub token_hash : Bytes
  pub user_id : ℕ
  pub expires_at : ℕ
  pub consumed_at : Option ℕ
  pub created_at : ℕ

-- `ps_verification_token_row_t`.
pub record VerificationToken : Type 0 where
  pub token_hash : Bytes
  pub user_id : ℕ
  pub expires_at : ℕ
  pub consumed_at : ℕ
  pub created_at : ℕ

unfoldable pub find_hash : Bytes → List VerificationRow → Option VerificationRow
find_hash key [] = none
find_hash key (r ∷ rs) = if equal r.token_hash key then some r else find_hash key rs

abbrev pub new_row : Bytes → ℕ → ℕ → ℕ → VerificationRow
new_row token_hash user_id expires_at now = record {
  token_hash = token_hash;
  user_id = user_id;
  expires_at = expires_at;
  consumed_at = none;
  created_at = now;
}

-- `ps_token_store_insert`; the hash is the primary key.
unfoldable pub insert :
    Bool → List VerificationRow → Bytes → ℕ → ℕ → ℕ → List VerificationRow × Bool
insert runs rows token_hash user_id expires_at now =
    if runs && is_null (find_hash token_hash rows)
    then (rows ++ new_row token_hash user_id expires_at now ∷ [], true)
    else (rows, false)

abbrev pub view : VerificationRow → VerificationToken
view r = record {
  token_hash = r.token_hash;
  user_id = r.user_id;
  expires_at = r.expires_at;
  consumed_at = or_zero r.consumed_at;
  created_at = r.created_at;
}

abbrev read_row : Option VerificationRow → Option VerificationToken
read_row none = none
read_row (some r) = some (view r)

-- `ps_token_store_get_by_hash`; `none` where it returns false.
unfoldable pub get_by_hash : Bool → List VerificationRow → Bytes → Option VerificationToken
get_by_hash runs rows token_hash = if runs then read_row (find_hash token_hash rows) else none

abbrev pub consume_row : ℕ → VerificationRow → VerificationRow
consume_row now r = record r { consumed_at = some now }

abbrev pub has_hash : Bytes → VerificationRow → Bool
has_hash token_hash r = equal r.token_hash token_hash

-- `ps_token_store_consume`, whether or not the token was consumed before.
unfoldable pub consume : Bool → List VerificationRow → Bytes → ℕ → List VerificationRow × Bool
consume runs rows token_hash now =
    if runs
    then (update_where (has_hash token_hash) (consume_row now) rows, true)
    else (rows, false)

abbrev pub is_outstanding : ℕ → VerificationRow → Bool
is_outstanding user_id r = r.user_id == user_id && is_null r.consumed_at

-- `ps_token_store_invalidate_all_for_user`.
unfoldable pub invalidate_all_for_user :
    Bool → List VerificationRow → ℕ → ℕ → List VerificationRow × Bool
invalidate_all_for_user runs rows user_id now =
    if runs
    then (update_where (is_outstanding user_id) (consume_row now) rows, true)
    else (rows, false)

abbrev pub is_created_since : ℕ → ℕ → VerificationRow → Bool
is_created_since user_id since r = r.user_id == user_id && leb since r.created_at

-- `ps_token_store_count_created_since`; `none` where it returns false.
unfoldable pub count_created_since : Bool → List VerificationRow → ℕ → ℕ → Option ℕ
count_created_since runs rows user_id since =
    if runs then some (changed (is_created_since user_id since) rows) else none
