-- ===== src/Auth/Session/Rotation.antt =====
-- What a refresh that succeeds has done: the steps of its run, and what follows for the tables.
use platform_service.Common.{
  ℕ, ◌+◌, ◌≤◌, ◌≡◌, refl, sym, ap, ◌∙◌, inl, inr, Bool, true, false, Option, none, some, arith,
  Bytes, ◌==◌, Bool-cases,
}
use platform_service.Store.SessionStore.{
  Db, Family, Token, get_family, insert_token, get_token, try_consume_token,
}
use platform_service.Auth.Session.{
  Run, Refresh, refreshed, owned, issue_hashed, issue, claimed, claim, with_family, with_token,
  refresh,
}

-- The calls of a run that ends in `refreshed`, and what they returned.
pub record IsRotation (run : Run) (db : Db) (hash : Bytes) (idle_ttl now : ℕ) (r : Refresh)
    : Type 0 where
  pub token : Token
  pub family : Family
  pub mid : Db
  pub raw : Bytes
  pub new_hash : Bytes
  pub reads : get_token run.reads_token db hash ≡ some token
  pub owns : get_family run.reads_family db token.family_id ≡ some family
  pub unconsumed : token.consumed_at ≡ 0
  pub claims : try_consume_token run.consumes (run.meanwhile db) hash now ≡ (mid, some true)
  pub live : family.revoked_at ≡ 0
  pub absolute : now ≤ family.absolute_exp
  pub idle : now ≤ token.idle_exp
  pub draws : run.random ≡ some raw
  pub hashes : run.sha256 raw ≡ some new_hash
  pub issues :
      insert_token run.inserts mid new_hash token.family_id
        (token.generation + 1)
        (now + idle_ttl)
        now
      ≡ (r.db, true)
  pub hands_out :
      r.out
      ≡ record (owned token family) { raw_refresh_token = raw; refresh_idle_exp = now + idle_ttl }

module _ (run : Run) (db : Db) (idle_ttl now : ℕ) (t : Token) (f : Family) where
  issue_hashed-refreshed :
      (raw : Bytes) (o : Option Bytes)
      → (issue_hashed run db idle_ttl now t f raw o).outcome ≡ refreshed
      → (hash : Bytes) × (o ≡ some hash)
        × (insert_token run.inserts db hash t.family_id (t.generation + 1) (now + idle_ttl) now
            ≡ ((issue_hashed run db idle_ttl now t f raw o).db, true))
        × ((issue_hashed run db idle_ttl now t f raw o).out
            ≡ record (owned t f) { raw_refresh_token = raw; refresh_idle_exp = now + idle_ttl })
  unfolding issue_hashed
  issue_hashed-refreshed raw none h = cc
  issue_hashed-refreshed raw (some hash) h =
      let (db', inserted) =
        insert_token run.inserts db hash t.family_id (t.generation + 1) (now + idle_ttl) now in
      elim (Bool-cases inserted) [
        | inl yes_ ↦ (hash, refl, ground arith, ground arith)
        | inr no_ ↦ cc (rw no_ at h)
      ]

  issue-refreshed :
      (o : Option Bytes)
      → (issue run db idle_ttl now t f o).outcome ≡ refreshed
      → (raw hash : Bytes) × (o ≡ some raw)
        × (run.sha256 raw ≡ some hash)
        × (insert_token run.inserts db hash t.family_id (t.generation + 1) (now + idle_ttl) now
            ≡ ((issue run db idle_ttl now t f o).db, true))
        × ((issue run db idle_ttl now t f o).out
            ≡ record (owned t f) { raw_refresh_token = raw; refresh_idle_exp = now + idle_ttl })
  unfolding issue
  issue-refreshed none h = cc
  issue-refreshed (some raw) h =
      let (hash, hashes, issues, hands) = issue_hashed-refreshed raw (run.sha256 raw) h in
      (raw, hash, refl, hashes, issues, hands)

  claimed-refreshed :
      (claimed run db idle_ttl now t f).outcome ≡ refreshed
      → (f.revoked_at ≡ 0)
        × (now ≤ f.absolute_exp)
        × (now ≤ t.idle_exp)
        × (claimed run db idle_ttl now t f ≡ issue run db idle_ttl now t f run.random)
  unfolding claimed
  claimed-refreshed h = ground arith

claim-refreshed :
    (run : Run) (idle_ttl now : ℕ) (t : Token) (f : Family) (c : Db × Option Bool)
    → (claim run idle_ttl now t f c).outcome ≡ refreshed
    → (c ≡ (c.0, some true)) × (claim run idle_ttl now t f c ≡ claimed run c.0 idle_ttl now t f)
unfolding claim
claim-refreshed run idle_ttl now t f (db, none) h = cc
claim-refreshed run idle_ttl now t f (db, some false) h = cc
claim-refreshed run idle_ttl now t f (db, some true) h = (refl, refl)

with_family-refreshed :
    (run : Run) (db : Db) (hash : Bytes) (idle_ttl now : ℕ) (t : Token) (o : Option Family)
    → (with_family run db hash idle_ttl now t o).outcome ≡ refreshed
    → (f : Family) × (o ≡ some f)
      × (t.consumed_at ≡ 0)
      × (with_family run db hash idle_ttl now t o
          ≡ claim run idle_ttl now t f (try_consume_token run.consumes (run.meanwhile db) hash now))
unfolding with_family
with_family-refreshed run db hash idle_ttl now t none h = cc
with_family-refreshed run db hash idle_ttl now t (some f) h =
    elim (Bool-cases (t.consumed_at == 0)) [
      | inl fresh ↦ (f, refl, ground arith, rw fresh)
      | inr used ↦ cc (rw used at h)
    ]

with_token-IsRotation :
    (run : Run) (db : Db) (hash : Bytes) (idle_ttl now : ℕ) (o : Option Token)
    → get_token run.reads_token db hash ≡ o
    → (with_token run db hash idle_ttl now o).outcome ≡ refreshed
    → IsRotation run db hash idle_ttl now (with_token run db hash idle_ttl now o)
unfolding with_token
with_token-IsRotation run db hash idle_ttl now none reads h = cc
with_token-IsRotation run db hash idle_ttl now (some t) reads h =
    let (f, owns, fresh, e1) =
      with_family-refreshed run db hash idle_ttl now t (get_family run.reads_family db t.family_id)
        h in
    let c = try_consume_token run.consumes (run.meanwhile db) hash now in
    let (claims, e2) =
      claim-refreshed run idle_ttl now t f c (ap (λ (r : Refresh). r.outcome) (sym e1) ∙ h) in
    let (live, absolute, idle, e3) =
      claimed-refreshed run c.0 idle_ttl now t f
        (ap (λ (r : Refresh). r.outcome) (sym (e1 ∙ e2)) ∙ h) in
    let whole = e1 ∙ e2 ∙ e3 in
    let (raw, new_hash, draws, hashes, issues, hands) =
      issue-refreshed run c.0 idle_ttl now t f run.random
        (ap (λ (r : Refresh). r.outcome) (sym whole) ∙ h) in
    record {
      token = t;
      family = f;
      mid = c.0;
      raw = raw;
      new_hash = new_hash;
      reads = reads;
      owns = owns;
      unconsumed = fresh;
      claims = claims;
      live = live;
      absolute = absolute;
      idle = idle;
      draws = draws;
      hashes = hashes;
      issues = issues ∙ ap (λ (r : Refresh). (r.db, true)) (sym whole);
      hands_out = ap (λ (r : Refresh). r.out) whole ∙ hands;
    }

-- A refresh that succeeds has made all these calls, with these results.
pub refresh-IsRotation :
    (run : Run) (db : Db) (hash : Bytes) (idle_ttl now : ℕ)
    → (refresh run db hash idle_ttl now).outcome ≡ refreshed
    → IsRotation run db hash idle_ttl now (refresh run db hash idle_ttl now)
unfolding refresh
refresh-IsRotation run db hash idle_ttl now h =
    with_token-IsRotation run db hash idle_ttl now (get_token run.reads_token db hash) refl h
