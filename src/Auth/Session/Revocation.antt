-- ===== src/Auth/Session/Revocation.antt =====
-- A second use of a token revokes its family, and no token of a revoked family is refreshed.
use platform_service.Common.{
  ℕ, ◌<◌, ◌≡◌, refl, ◌∙◌, ◌≢◌, inl, inr, true, false, none, some, arith, Bytes, Option-cases,
}
use platform_service.Store.SessionStore.Rows.{
  get_family-view, get_token-view, find_family-update_where, find_family-key, changed_of_consumed,
}
use platform_service.Store.SessionStore.Steps.{IsSpent, IsRevoked}
use platform_service.Store.SessionStore.Invariant.{IsSound, try_consume_token-IsSound}
use platform_service.Store.SessionStore.{
  family_view, token_view, FamilyRow, TokenRow, Db, find_family, find_token, get_family, get_token,
  try_consume_token, is_live_family, revoke_row, revoke_family,
}
use platform_service.Auth.Session.Rotation.{refresh-IsRotation}
use platform_service.Auth.Session.{
  Run, Refresh, refreshed, reuse_detected, owned, reuse_cause, refresh,
}

-- A family that is there is revoked behind `revoke_family`, whether or not it was before.
revoke_family-IsRevoked :
    (db : Db) (family_id cause : Bytes) (now : ℕ) (f : FamilyRow)
    → IsSound db
    → 0 < now
    → find_family family_id db.families ≡ some f
    → IsRevoked family_id (revoke_family true db family_id cause now).0
unfolding revoke_family
revoke_family-IsRevoked db family_id cause now f s pos found =
    let key = find_family-key family_id db.families f found in
    let after =
      find_family-update_where family_id (is_live_family family_id) (revoke_row cause now)
        db.families (λ r. refl) in
    elim (Option-cases f.revoked_at) [
      | inl null ↦ record {
        row = revoke_row cause now f;
        at = now;
        found = after ∙ rw found (ground arith);
        revoked = refl;
        nonzero = pos;
      }
      | inr (at, was) ↦ record {
        row = f;
        at = at;
        found = after ∙ rw found (ground arith);
        revoked = was;
        nonzero = ground (arith, s.timed family_id f found);
      }
    ]

-- A token is not refreshed if its family is revoked when the request reads it.
pub refresh_of_revoked :
    (run : Run) (db : Db) (hash : Bytes) (idle_ttl now : ℕ) (row : TokenRow)
    → find_token hash db.tokens ≡ some row
    → IsRevoked row.family_id db
    → (refresh run db hash idle_ttl now).outcome ≢ refreshed
refresh_of_revoked run db hash idle_ttl now row found dead h =
    let made = refresh-IsRotation run db hash idle_ttl now h in
    let t : made.token ≡ token_view row =
      get_token-view run.reads_token db hash row made.token found made.reads in
    let owner : find_family made.token.family_id db.families ≡ some dead.row = rw t dead.found in
    let f =
      get_family-view run.reads_family db made.token.family_id dead.row made.family owner
        made.owns in
    absurd (ground (arith, dead.revoked, dead.nonzero, made.live, f))

module _ (run : Run) (db : Db) (hash : Bytes) (idle_ttl now : ℕ) (row : TokenRow) (f : FamilyRow)
    (reads : run.reads_token ≡ true) (owns : run.reads_family ≡ true) (revokes : run.revokes ≡ true)
    (pos : 0 < now) (found : find_token hash db.tokens ≡ some row)
    (family : find_family row.family_id db.families ≡ some f) where
  abbrev reused : Db → Refresh
  reused db' = record {
    db = (revoke_family true db' row.family_id reuse_cause now).0;
    out = owned (token_view row) (family_view f);
    outcome = reuse_detected;
  }

  -- A token is presented that the tables, which are sound, record as consumed at a time above 0. Where
  -- both reads and the revocation run, at a time above 0, that is detected and the family, which is in
  -- the table, is revoked.
  pub refresh_reused :
      (at : ℕ)
      → row.consumed_at ≡ some at
      → 0 < at
      → IsSound db
      → ((refresh run db hash idle_ttl now).outcome ≡ reuse_detected)
        × IsRevoked row.family_id (refresh run db hash idle_ttl now).db
  unfolding refresh get_token get_family
  refresh_reused at used positive s =
      let run_is : refresh run db hash idle_ttl now ≡ reused db = ground arith in
      rw run_is (refl, revoke_family-IsRevoked db row.family_id reuse_cause now f s pos family)

  -- The token is read unconsumed, but another request claims it first: under the same conditions on
  -- the tables at the time of the claim, that is detected and the family is revoked.
  pub refresh_raced :
      (g : FamilyRow)
      → row.consumed_at ≡ none
      → run.consumes ≡ true
      → IsSound (run.meanwhile db)
      → IsSpent hash (run.meanwhile db)
      → find_family row.family_id (run.meanwhile db).families ≡ some g
      → ((refresh run db hash idle_ttl now).outcome ≡ reuse_detected)
        × IsRevoked row.family_id (refresh run db hash idle_ttl now).db
  unfolding refresh get_token get_family try_consume_token revoke_family
  refresh_raced g unused consumes s spent still =
      let mid = run.meanwhile db in
      let none_changed =
        changed_of_consumed hash mid.tokens spent.row spent.at s.keyed spent.found spent.consumed in
      let after = (try_consume_token true mid hash now).0 in
      let claims : try_consume_token true mid hash now ≡ (after, some false) = rw none_changed in
      let run_is : refresh run db hash idle_ttl now ≡ reused after = ground arith in
      let s' : IsSound after = try_consume_token-IsSound mid hash now s in
      rw run_is (refl, revoke_family-IsRevoked after row.family_id reuse_cause now g s' pos still)
