-- ===== src/Store/SessionStore.antt =====
-- Session families and refresh tokens, src/store/session_store.c and session_store.h, over the two
-- tables of schema/001_init.sql. A statement is what its SQL text says of the rows. The argument
-- `runs` says whether SQLite prepares and executes it; the keys that the schema declares are checked
-- here, but for the reference to `users`, whose refusal counts as a statement that does not run.
-- Times are seconds since 1970, and are natural numbers.
pub mod Rows
pub mod Sweeps
pub mod Steps
pub mod Invariant
pub mod Spares
use platform_service.Common.{
  ℕ, zero, suc, ◌+◌, ◌-◌, ◌*◌, ◌/◌, ◌%◌, ◌^◌, ◌≤◌, ◌<◌, min, code, String, ◌≡◌, refl, sym, ap, ◌∙◌,
  subst, ◌≢◌, ◌↔◌, ◌⊎◌, inl, inr, Bool, true, false, not, ◌&&◌, ◌||◌, Option, none, some, List, [],
  ◌∷◌, ◌++◌, append_assoc, append-nil, arith, Bytes, codes, ltb, leb, ◌==◌, if◌then◌else◌, ltb→lt,
  lt→ltb, leb→le, ==_iff, tests, Bool-cases, Option-cases, length, get_elem?, set, length-append,
  length-set, get_elem?-set_self, get_elem?-set_ne, get_or, take, drop, replicate, take-append-drop,
  length-take, length-drop, length-replicate, length-map, equal, equal_iff,
}

-- A row of `session_families`; `none` is NULL.
pub record FamilyRow : Type 0 where
  pub family_id : Bytes
  pub user_id : ℕ
  pub created_at : ℕ
  pub absolute_exp : ℕ
  pub revoked_at : Option ℕ
  pub revoke_cause : Option Bytes

-- A row of `refresh_tokens`.
pub record TokenRow : Type 0 where
  pub token_hash : Bytes
  pub family_id : Bytes
  pub generation : ℕ
  pub idle_exp : ℕ
  pub consumed_at : Option ℕ
  pub issued_at : ℕ

pub record Db : Type 0 where
  pub families : List FamilyRow
  pub tokens : List TokenRow

-- `ps_session_family_row_t`: 0 and the empty text stand for NULL.
pub record Family : Type 0 where
  pub family_id : Bytes
  pub user_id : ℕ
  pub created_at : ℕ
  pub absolute_exp : ℕ
  pub revoked_at : ℕ
  pub revoke_cause : Bytes

-- `ps_refresh_token_row_t`.
pub record Token : Type 0 where
  pub token_hash : Bytes
  pub family_id : Bytes
  pub generation : ℕ
  pub idle_exp : ℕ
  pub consumed_at : ℕ
  pub issued_at : ℕ

abbrev pub is_null {ℓ} : {A : Type ℓ} → Option A → Bool
is_null none = true
is_null (some _) = false

abbrev pub or_zero : Option ℕ → ℕ
or_zero none = 0
or_zero (some n) = n

-- `snprintf` into `revoke_cause[32]`.
abbrev pub cause_text : Option Bytes → Bytes
cause_text none = []
cause_text (some s) = take 31 s

unfoldable pub find_family : Bytes → List FamilyRow → Option FamilyRow
find_family key [] = none
find_family key (r ∷ rs) = if equal r.family_id key then some r else find_family key rs

unfoldable pub find_token : Bytes → List TokenRow → Option TokenRow
find_token key [] = none
find_token key (r ∷ rs) = if equal r.token_hash key then some r else find_token key rs

abbrev pub family_view : FamilyRow → Family
family_view r = record {
  family_id = r.family_id;
  user_id = r.user_id;
  created_at = r.created_at;
  absolute_exp = r.absolute_exp;
  revoked_at = or_zero r.revoked_at;
  revoke_cause = cause_text r.revoke_cause;
}

abbrev pub token_view : TokenRow → Token
token_view r = record {
  token_hash = r.token_hash;
  family_id = r.family_id;
  generation = r.generation;
  idle_exp = r.idle_exp;
  consumed_at = or_zero r.consumed_at;
  issued_at = r.issued_at;
}

unfoldable pub read_family : Option FamilyRow → Option Family
read_family none = none
read_family (some r) = some (family_view r)

unfoldable pub read_token : Option TokenRow → Option Token
read_token none = none
read_token (some r) = some (token_view r)

-- The rows of an UPDATE: those that meet its WHERE clause are changed, and `changed` counts them.
unfoldable pub update_where {ℓ} : {A : Type ℓ} → (A → Bool) → (A → A) → List A → List A
update_where p f [] = []
update_where p f (r ∷ rs) = (if p r then f r else r) ∷ update_where p f rs

unfoldable pub changed {ℓ} : {A : Type ℓ} → (A → Bool) → List A → ℕ
changed p [] = 0
changed p (r ∷ rs) = (if p r then 1 else 0) + changed p rs

abbrev pub new_family : Bytes → ℕ → ℕ → ℕ → FamilyRow
new_family family_id user_id now absolute_exp = record {
  family_id = family_id;
  user_id = user_id;
  created_at = now;
  absolute_exp = absolute_exp;
  revoked_at = none;
  revoke_cause = none;
}

unfoldable pub create_family : Bool → Db → Bytes → ℕ → ℕ → ℕ → Db × Bool
create_family runs db family_id user_id now absolute_exp =
    if runs && is_null (find_family family_id db.families)
    then (
      record db { families = db.families ++ new_family family_id user_id now absolute_exp ∷ [] },
      true,
    )
    else (db, false)

unfoldable pub get_family : Bool → Db → Bytes → Option Family
unfolding read_family
get_family runs db family_id =
    if runs then read_family (find_family family_id db.families) else none

abbrev pub revoke_row : Bytes → ℕ → FamilyRow → FamilyRow
revoke_row cause now r = record r { revoked_at = some now; revoke_cause = some cause }

abbrev pub is_live_family : Bytes → FamilyRow → Bool
is_live_family family_id r = equal r.family_id family_id && is_null r.revoked_at

unfoldable pub revoke_family : Bool → Db → Bytes → Bytes → ℕ → Db × Bool
revoke_family runs db family_id cause now =
    if runs
    then (
      record db {
        families = update_where (is_live_family family_id) (revoke_row cause now) db.families;
      },
      true,
    )
    else (db, false)

abbrev pub new_token : Bytes → Bytes → ℕ → ℕ → ℕ → TokenRow
new_token token_hash family_id generation idle_exp now = record {
  token_hash = token_hash;
  family_id = family_id;
  generation = generation;
  idle_exp = idle_exp;
  consumed_at = none;
  issued_at = now;
}

unfoldable pub insert_token : Bool → Db → Bytes → Bytes → ℕ → ℕ → ℕ → Db × Bool
insert_token runs db token_hash family_id generation idle_exp now =
    if runs
      && is_null (find_token token_hash db.tokens)
      && not (is_null (find_family family_id db.families))
    then (
      record db {
        tokens = db.tokens ++ new_token token_hash family_id generation idle_exp now ∷ [];
      },
      true,
    )
    else (db, false)

unfoldable pub get_token : Bool → Db → Bytes → Option Token
unfolding read_token
get_token runs db token_hash = if runs then read_token (find_token token_hash db.tokens) else none

abbrev pub is_unconsumed : Bytes → TokenRow → Bool
is_unconsumed token_hash r = equal r.token_hash token_hash && is_null r.consumed_at

abbrev pub consume_row : ℕ → TokenRow → TokenRow
consume_row now r = record r { consumed_at = some now }

-- `none` where the source returns false, and `*out_claimed` otherwise.
unfoldable pub try_consume_token : Bool → Db → Bytes → ℕ → Db × Option Bool
try_consume_token runs db token_hash now =
    if runs
    then (
      record db { tokens = update_where (is_unconsumed token_hash) (consume_row now) db.tokens },
      some (ltb 0 (changed (is_unconsumed token_hash) db.tokens)),
    )
    else (db, none)

-- `except` is `none` for a NULL `except_family_id`.
abbrev pub is_excepted : Option Bytes → Bytes → Bool
is_excepted none family_id = false
is_excepted (some e) family_id = equal family_id e

abbrev pub is_revocable : ℕ → Option Bytes → FamilyRow → Bool
is_revocable user_id except r =
    r.user_id == user_id && is_null r.revoked_at && not (is_excepted except r.family_id)

-- `none` where the source returns false, and the number of revoked families otherwise.
unfoldable pub revoke_all_for_user : Bool → Db → ℕ → Option Bytes → Bytes → ℕ → Db × Option ℕ
revoke_all_for_user runs db user_id except cause now =
    if runs
    then (
      record db {
        families = update_where (is_revocable user_id except) (revoke_row cause now) db.families;
      },
      some (changed (is_revocable user_id except) db.families),
    )
    else (db, none)
