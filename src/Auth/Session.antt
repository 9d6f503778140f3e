-- ===== src/Auth/Session.antt =====
-- Opening and refreshing a session, src/auth/session.c and session.h, over the store of
-- Store/SessionStore. A `Run` says how the calls of one request end that the program does not decide:
-- which statements SQLite executes, what the random generator and SHA-256 return, and what other
-- connections commit between the read of the token and its claim.
pub mod Rotation
pub mod Transaction
pub mod Reuse
pub mod Revocation
pub mod Lifecycle
mod Tests
use platform_service.Common.{
  ℕ, zero, suc, ◌+◌, ◌-◌, ◌*◌, ◌/◌, ◌%◌, ◌^◌, ◌≤◌, ◌<◌, min, code, String, ◌≡◌, refl, sym, ap, ◌∙◌,
  subst, ◌≢◌, ◌↔◌, ◌⊎◌, inl, inr, Bool, true, false, not, ◌&&◌, ◌||◌, Option, none, some, List, [],
  ◌∷◌, ◌++◌, append_assoc, append-nil, arith, Bytes, codes, ltb, leb, ◌==◌, if◌then◌else◌, ltb→lt,
  lt→ltb, leb→le, ==_iff, tests, Bool-cases, Option-cases, length, get_elem?, set, length-append,
  length-set, get_elem?-set_self, get_elem?-set_ne, get_or, take, drop, replicate, take-append-drop,
  length-take, length-drop, length-replicate, length-map, equal, equal_iff,
}
use platform_service.Store.SessionStore.{
  Db, Family, Token, create_family, get_family, revoke_family, insert_token, get_token,
  try_consume_token,
}

pub record Run : Type 0 where
  pub reads_token : Bool
  pub reads_family : Bool
  pub revokes : Bool
  pub consumes : Bool
  pub creates : Bool
  pub inserts : Bool
  pub random_family : Option Bytes
  pub random : Option Bytes
  pub sha256 : Bytes → Option Bytes
  pub meanwhile : Db → Db

-- `ps_session_created_t`.
pub record Created : Type 0 where
  pub family_id : Bytes
  pub raw_refresh_token : Bytes
  pub refresh_idle_exp : ℕ

insert_first : Run → Db → Bytes → ℕ → ℕ → Bytes → Option Bytes → Db × Option Created
insert_first run db family_id idle_ttl now raw none = (db, none)
insert_first run db family_id idle_ttl now raw (some hash) =
    let (db', inserted) = insert_token run.inserts db hash family_id 1 (now + idle_ttl) now in
    if inserted
    then (
      db',
      some (record {
        family_id = family_id;
        raw_refresh_token = raw;
        refresh_idle_exp = now + idle_ttl;
      }),
    )
    else (db', none)

first_token : Run → Db → Bytes → ℕ → ℕ → Option Bytes → Db × Option Created
unfolding insert_first
first_token run db family_id idle_ttl now none = (db, none)
first_token run db family_id idle_ttl now (some raw) =
    insert_first run db family_id idle_ttl now raw (run.sha256 raw)

open_family : Run → Db → ℕ → ℕ → ℕ → ℕ → Option Bytes → Db × Option Created
unfolding first_token
open_family run db user_id absolute_ttl idle_ttl now none = (db, none)
open_family run db user_id absolute_ttl idle_ttl now (some family_id) =
    let (db', created) = create_family run.creates db family_id user_id now (now + absolute_ttl) in
    if created then first_token run db' family_id idle_ttl now run.random else (db', none)

-- `ps_session_create`; `none` where the source returns false.
unfoldable pub create : Run → Db → ℕ → ℕ → ℕ → ℕ → Db × Option Created
unfolding open_family
create run db user_id absolute_ttl idle_ttl now =
    open_family run db user_id absolute_ttl idle_ttl now run.random_family

-- `ps_session_refresh_result_t`.
pub data Outcome : Type 0 where
  refreshed invalid reuse_detected error : Outcome

-- `ps_session_refreshed_t`.
pub record Refreshed : Type 0 where
  pub user_id : ℕ
  pub family_id : Bytes
  pub raw_refresh_token : Bytes
  pub refresh_idle_exp : ℕ

pub record Refresh : Type 0 where
  pub db : Db
  pub out : Refreshed
  pub outcome : Outcome

-- `memset(out, 0, sizeof *out)`.
abbrev pub zeroed : Refreshed
zeroed = record {
  user_id = 0;
  family_id = replicate 16 0;
  raw_refresh_token = replicate 32 0;
  refresh_idle_exp = 0;
}

-- `out` with the owner of the token, as each result behind the look-up of the family has it.
abbrev pub owned : Token → Family → Refreshed
owned t f = record zeroed { user_id = f.user_id; family_id = t.family_id }

abbrev result : Db → Refreshed → Outcome → Refresh
result db out outcome = record { db = db; out = out; outcome = outcome }

abbrev pub reuse_cause : Bytes
reuse_cause = codes "REUSE_DETECTED"

reuse : Run → Db → ℕ → Token → Family → Refresh
reuse run db now t f =
    result (revoke_family run.revokes db t.family_id reuse_cause now).0 (owned t f) reuse_detected

issue_hashed : Run → Db → ℕ → ℕ → Token → Family → Bytes → Option Bytes → Refresh
issue_hashed run db idle_ttl now t f raw none = result db (owned t f) error
issue_hashed run db idle_ttl now t f raw (some hash) =
    let (db', inserted) =
      insert_token run.inserts db hash t.family_id (t.generation + 1) (now + idle_ttl) now in
    if inserted
    then result db'
        (record (owned t f) { raw_refresh_token = raw; refresh_idle_exp = now + idle_ttl })
        refreshed
    else result db' (owned t f) error

issue : Run → Db → ℕ → ℕ → Token → Family → Option Bytes → Refresh
unfolding issue_hashed
issue run db idle_ttl now t f none = result db (owned t f) error
issue run db idle_ttl now t f (some raw) = issue_hashed run db idle_ttl now t f raw (run.sha256 raw)

-- Behind a claim that succeeded.
claimed : Run → Db → ℕ → ℕ → Token → Family → Refresh
unfolding issue
claimed run db idle_ttl now t f =
    if not (f.revoked_at == 0) || ltb f.absolute_exp now || ltb t.idle_exp now
    then result db (owned t f) invalid
    else issue run db idle_ttl now t f run.random

claim : Run → ℕ → ℕ → Token → Family → Db × Option Bool → Refresh
unfolding claimed reuse
claim run idle_ttl now t f (db, none) = result db (owned t f) error
claim run idle_ttl now t f (db, some false) = reuse run db now t f
claim run idle_ttl now t f (db, some true) = claimed run db idle_ttl now t f

with_family : Run → Db → Bytes → ℕ → ℕ → Token → Option Family → Refresh
unfolding claim reuse
with_family run db hash idle_ttl now t none = result db zeroed error
with_family run db hash idle_ttl now t (some f) =
    if not (t.consumed_at == 0)
    then reuse run db now t f
    else claim run idle_ttl now t f (try_consume_token run.consumes (run.meanwhile db) hash now)

with_token : Run → Db → Bytes → ℕ → ℕ → Option Token → Refresh
unfolding with_family
with_token run db hash idle_ttl now none = result db zeroed invalid
with_token run db hash idle_ttl now (some t) =
    with_family run db hash idle_ttl now t (get_family run.reads_family db t.family_id)

-- `ps_session_refresh`.
unfoldable pub refresh : Run → Db → Bytes → ℕ → ℕ → Refresh
unfolding with_token
refresh run db hash idle_ttl now =
    with_token run db hash idle_ttl now (get_token run.reads_token db hash)
