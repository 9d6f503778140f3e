-- ===== src/Auth/Session/Transaction.antt =====
-- The transaction of a refresh, `ps_auth_handle_refresh` of src/api/auth_api.c from its BEGIN to its
-- COMMIT. What is rolled back, or fails to be committed, leaves the tables without the request's
-- statements.
use platform_service.Common.{
  ℕ, ◌≡◌, inl, inr, Bool, true, false, not, ◌||◌, Option, none, some, arith, Bytes, if◌then◌else◌,
  Bool-cases,
}
use platform_service.Store.SessionStore.{Db}
use platform_service.Auth.Session.{
  Run, Refresh, Outcome, refreshed, invalid, reuse_detected, error, refresh,
}

-- Whether BEGIN, the row of the audit log and COMMIT succeed.
pub record Ends : Type 0 where
  pub begins : Bool
  pub audits : Bool
  pub commits : Bool

abbrev is_error : Outcome → Bool
is_error refreshed = false
is_error invalid = false
is_error reuse_detected = false
is_error error = true

settle : Ends → Db → Refresh → Db × Option Outcome
settle ends before r =
    if is_error r.outcome || not ends.audits || not ends.commits
    then (before, none)
    else (r.db, some r.outcome)

-- The tables that are left, and the outcome on which the response depends: `none` is the response 500.
unfoldable pub refresh_request : Ends → Run → Db → Bytes → ℕ → ℕ → Db × Option Outcome
unfolding settle
refresh_request ends run db hash idle_ttl now =
    if not ends.begins
    then (db, none)
    else settle ends (run.meanwhile db) (refresh run db hash idle_ttl now)

-- A request is answered as refreshed only by a refresh that is committed.
pub refresh_request_committed :
    (ends : Ends) (run : Run) (db : Db) (hash : Bytes) (idle_ttl now : ℕ)
    → (refresh_request ends run db hash idle_ttl now).1 ≡ some refreshed
    → ((refresh run db hash idle_ttl now).outcome ≡ refreshed)
      × ((refresh_request ends run db hash idle_ttl now).0 ≡ (refresh run db hash idle_ttl now).db)
unfolding refresh_request
refresh_request_committed ends run db hash idle_ttl now h = elim (Bool-cases (not ends.begins)) [
  | inl closed ↦ cc (rw closed at h)
  | inr opened ↦
      let r = refresh run db hash idle_ttl now in
      elim (Bool-cases (is_error r.outcome || not ends.audits || not ends.commits)) [
        | inl lost ↦ absurd (ground arith)
        | inr kept ↦ (ground arith, ground arith)
      ]
]
