-- ===== src/Auth/Session/Lifecycle.antt =====
-- A live session can be refreshed, and each refresh hands on the next token of its family.
use platform_service.Common.{
  ℕ, ◌+◌, ◌≤◌, ◌≡◌, refl, ◌∙◌, inl, inr, true, none, some, List, [], ◌∷◌, ◌++◌, arith, Bytes,
  Option-cases, equal_iff,
}
use platform_service.Store.SessionStore.Rows.{
  find_family-concat, find_token-key, find_token-update_where, find_token-append, find_token-concat,
  changed_of_unconsumed,
}
use platform_service.Store.SessionStore.Steps.{IsSpent, Reach}
use platform_service.Store.SessionStore.Spares.{IsKept, AllSpare, Reach-IsKept}
use platform_service.Store.SessionStore.Spares.Kept.{Sole-concat, Sole-missing}
use platform_service.Store.SessionStore.{
  FamilyRow, TokenRow, Db, find_family, find_token, get_family, insert_token, create_family,
  get_token, try_consume_token, is_unconsumed, consume_row, update_where, new_token, new_family,
  token_view, family_view,
}
use platform_service.Auth.Session.{Run, Refresh, refreshed, owned, refresh, create, Created}

module _ (run : Run) (db : Db) (hash : Bytes) (idle_ttl now : ℕ) (row : TokenRow) (f : FamilyRow)
    (raw new_hash : Bytes) where
  -- Every call of the run succeeds, and no other connection commits in between.
  pub record IsSmooth : Type 0 where
    pub reads : run.reads_token ≡ true
    pub owns : run.reads_family ≡ true
    pub consumes : run.consumes ≡ true
    pub inserts : run.inserts ≡ true
    pub alone : run.meanwhile db ≡ db
    pub draws : run.random ≡ some raw
    pub hashes : run.sha256 raw ≡ some new_hash
    pub fresh : find_token new_hash db.tokens ≡ none

  -- The token is there and unconsumed, its family is live, and neither has expired.
  pub record IsLive : Type 0 where
    pub found : find_token hash db.tokens ≡ some row
    pub unconsumed : row.consumed_at ≡ none
    pub family : find_family row.family_id db.families ≡ some f
    pub unrevoked : f.revoked_at ≡ none
    pub absolute : now ≤ f.absolute_exp
    pub idle : now ≤ row.idle_exp

  abbrev claimed_rows : List TokenRow
  claimed_rows = update_where (is_unconsumed hash) (consume_row now) db.tokens

  abbrev pub successor : TokenRow
  successor = new_token new_hash row.family_id (row.generation + 1) (now + idle_ttl) now

  abbrev pub rotated : Refresh
  rotated = record {
    db = record db { tokens = claimed_rows ++ successor ∷ [] };
    out = record (owned (token_view row) (family_view f)) {
      raw_refresh_token = raw;
      refresh_idle_exp = now + idle_ttl;
    };
    outcome = refreshed;
  }

  refresh-rotated : IsSmooth → IsLive → refresh run db hash idle_ttl now ≡ rotated
  unfolding refresh get_token get_family try_consume_token insert_token
  refresh-rotated smooth live =
      let claim = changed_of_unconsumed hash db.tokens row live.found live.unconsumed in
      let fresh =
        find_token-update_where new_hash (is_unconsumed hash) (consume_row now) db.tokens
          (λ r. refl) in
      ground (
        arith, smooth.alone, claim, fresh, smooth.fresh, smooth.reads, smooth.owns, smooth.consumes,
        smooth.inserts, smooth.draws, smooth.hashes, live.found, live.unconsumed, live.family,
        live.unrevoked, live.absolute, live.idle,
      )

  -- A refresh of a live session with a smooth run succeeds. It hands out the new token, whose row has
  -- the next generation of the same family and is unconsumed, and the old token is consumed.
  pub refresh_live :
      IsSmooth
      → IsLive
      → let r = refresh run db hash idle_ttl now in
        (r.outcome ≡ refreshed)
        × (r.out.user_id ≡ f.user_id)
        × (r.out.raw_refresh_token ≡ raw)
        × (find_token new_hash r.db.tokens ≡ some successor)
        × IsSpent hash r.db
  refresh_live smooth live =
      let updated = λ (key : Bytes).
        find_token-update_where key (is_unconsumed hash) (consume_row now) db.tokens (λ r. refl) in
      let old : find_token hash claimed_rows ≡ some (consume_row now row) =
        updated hash
        ∙ rw live.found
            (ground (arith, find_token-key hash db.tokens row live.found, live.unconsumed)) in
      rw (refresh-rotated smooth live) (
        refl,
        refl,
        refl,
        find_token-concat new_hash claimed_rows successor (updated new_hash ∙ rw smooth.fresh refl)
            ((equal_iff new_hash new_hash).1 refl),
        record {
          row = consume_row now row;
          at = now;
          found = find_token-append hash claimed_rows (successor ∷ []) (consume_row now row) old;
          consumed = refl;
        },
      )

-- `create` succeeds only by a family and a first token that it has inserted.
create_run :
    (run : Run) (db db' : Db) (user_id absolute_ttl idle_ttl now : ℕ) (c : Created)
    → create run db user_id absolute_ttl idle_ttl now ≡ (db', some c)
    → (hash : Bytes) × (run.sha256 c.raw_refresh_token ≡ some hash)
      × (find_token hash db.tokens ≡ none)
      × (find_family c.family_id db.families ≡ none)
      × (db'.tokens ≡ db.tokens ++ new_token hash c.family_id 1 (now + idle_ttl) now ∷ [])
      × (db'.families ≡ db.families ++ new_family c.family_id user_id now (now + absolute_ttl) ∷ [])
unfolding create create_family insert_token
create_run run db db' user_id absolute_ttl idle_ttl now c h =
    elim (Option-cases run.random_family) [
      | inl none_drawn ↦ ground arith
      | inr (family_id, drawn) ↦ elim (Option-cases run.random) [
        | inl none_drawn ↦ ground arith
        | inr (raw, drawn') ↦ elim (Option-cases (run.sha256 raw)) [
          | inl unhashed ↦ ground arith
          | inr (hash, hashed) ↦
              (hash, ground arith, ground arith, ground arith, ground arith, ground arith)
        ]
      ]
    ]

-- Behind `create` the session is in the tables.
create-IsKept :
    (run : Run) (db db' : Db) (user_id absolute_ttl idle_ttl now : ℕ) (c : Created) (hash : Bytes)
    → create run db user_id absolute_ttl idle_ttl now ≡ (db', some c)
    → run.sha256 c.raw_refresh_token ≡ some hash
    → IsKept
        (new_token hash c.family_id 1 (now + idle_ttl) now)
        (new_family c.family_id user_id now (now + absolute_ttl))
        db'
create-IsKept run db db' user_id absolute_ttl idle_ttl now c hash made hashed =
    let (hash', hashed', no_token, no_family, tokens_are, families_are) =
      create_run run db db' user_id absolute_ttl idle_ttl now c made in
    let row = new_token hash c.family_id 1 (now + idle_ttl) now in
    let family = new_family c.family_id user_id now (now + absolute_ttl) in
    let same : hash' ≡ hash = cc in
    record {
      token = rw tokens_are (
          rw same (
            find_token-concat hash db.tokens row (rw same at no_token)
              ((equal_iff hash hash).1 refl)));
      family = rw families_are (
          find_family-concat c.family_id db.families family no_family
            ((equal_iff c.family_id c.family_id).1 refl));
      sole = rw families_are (
          Sole-concat family db.families family (Sole-missing family db.families no_family)
            (λ e. refl));
    }

-- A session is opened. Behind it any statements of any connections are committed, which do not revoke
-- its family, alone or with the user's others, nor consume its token, and whose sweeps run at no time
-- behind the family's end. Then the token that was handed out can be refreshed while neither time
-- limit has passed, by a run of the same SHA-256 whose calls all succeed, whose new token's hash is
-- not in use and with no commit of another connection between its read and its claim. The response is
-- for the session's user, the next token of the family is in the table, and the old one is consumed.
pub create_then_refresh :
    (run later : Run) (db db' mid : Db) (user_id absolute_ttl idle_ttl now : ℕ) (c : Created)
    (hash raw new_hash : Bytes) (idle_ttl' now' : ℕ)
    → create run db user_id absolute_ttl idle_ttl now ≡ (db', some c)
    → run.sha256 c.raw_refresh_token ≡ some hash
    → (between : Reach db' mid)
    → AllSpare
        (new_token hash c.family_id 1 (now + idle_ttl) now)
        (new_family c.family_id user_id now (now + absolute_ttl))
        between
    → now' ≤ now + absolute_ttl
    → now' ≤ now + idle_ttl
    → IsSmooth later mid hash idle_ttl' now'
        (new_token hash c.family_id 1 (now + idle_ttl) now)
        (new_family c.family_id user_id now (now + absolute_ttl))
        raw
        new_hash
    → let r = refresh later mid hash idle_ttl' now' in
      (r.outcome ≡ refreshed)
      × (r.out.user_id ≡ user_id)
      × (find_token new_hash r.db.tokens
          ≡ some (new_token new_hash c.family_id 2 (now' + idle_ttl') now'))
      × IsSpent hash r.db
create_then_refresh run later db db' mid user_id absolute_ttl idle_ttl now c hash raw new_hash
      idle_ttl' now' made hashed between spare absolute idle smooth =
    let row = new_token hash c.family_id 1 (now + idle_ttl) now in
    let family = new_family c.family_id user_id now (now + absolute_ttl) in
    let kept =
      Reach-IsKept row family refl refl between spare
        (create-IsKept run db db' user_id absolute_ttl idle_ttl now c hash made hashed) in
    let live : IsLive later mid hash idle_ttl' now' row family raw new_hash = record {
      found = kept.token;
      unconsumed = refl;
      family = kept.family;
      unrevoked = refl;
      absolute = absolute;
      idle = idle;
    } in
    let (done, owner, _, found, spent) =
      refresh_live later mid hash idle_ttl' now' row family raw new_hash smooth live in
    (done, owner, found, spent)
