-- ===== src/Auth/Session/Reuse.antt =====
-- The requests with one refresh token, `ps_auth_handle_refresh` of src/api/auth_api.c over
-- src/auth/session.c.
use platform_service.Common.{
  ℕ, ◌+◌, ◌≡◌, refl, sym, ap, ◌∙◌, subst, ◌≢◌, inl, inr, Bool, true, false, Option, none, some,
  arith, Bytes, ltb, Option-cases,
}
use platform_service.Store.SessionStore.Rows.{find_token-update_where, changed_of_missing}
use platform_service.Store.SessionStore.Steps.{
  Reach, NeverReturns, IsUsed, Reach-IsUsed, insert_token-IsUsed, changed-consumed,
}
use platform_service.Store.SessionStore.{
  Db, find_token, try_consume_token, is_unconsumed, consume_row, update_where, changed,
}
use platform_service.Auth.Session.Rotation.{refresh-IsRotation}
use platform_service.Auth.Session.Transaction.{Ends, refresh_request, refresh_request_committed}
use platform_service.Auth.Session.{Run, refreshed, refresh}

-- A claim that succeeds leaves the token used, and its row in the table.
try_consume_token-IsUsed :
    (runs : Bool) (db mid : Db) (hash : Bytes) (now : ℕ)
    → try_consume_token runs db hash now ≡ (mid, some true)
    → IsUsed hash mid × (find_token hash mid.tokens ≢ none)
unfolding try_consume_token
try_consume_token-IsUsed false db mid hash now h = cc
try_consume_token-IsUsed true db mid hash now h =
    let tokens_are : update_where (is_unconsumed hash) (consume_row now) db.tokens ≡ mid.tokens =
      ap (λ (c : Db × Option Bool). c.0.tokens) h in
    let some_changed : ltb 0 (changed (is_unconsumed hash) db.tokens) ≡ true = ground arith in
    let finds =
      find_token-update_where hash (is_unconsumed hash) (consume_row now) db.tokens (λ r. refl) in
    (
      ap (changed (is_unconsumed hash)) (sym tokens_are) ∙ changed-consumed hash now db.tokens,
      λ gone. elim (Option-cases (find_token hash db.tokens)) [
        | inl missing ↦ absurd (ground (arith, changed_of_missing hash db.tokens missing))
        | inr (r, found) ↦ cc (rw (tokens_are, gone, found) at finds)
      ],
    )

-- The claim of a used token does not succeed.
try_consume_token_of_used :
    (runs : Bool) (db mid : Db) (hash : Bytes) (now : ℕ)
    → IsUsed hash db
    → try_consume_token runs db hash now ≢ (mid, some true)
unfolding try_consume_token
try_consume_token_of_used false db mid hash now used h = cc
try_consume_token_of_used true db mid hash now used h = ground (arith, used)

refresh_of_used :
    (run : Run) (db : Db) (hash : Bytes) (idle_ttl now : ℕ)
    → IsUsed hash (run.meanwhile db)
    → (refresh run db hash idle_ttl now).outcome ≢ refreshed
refresh_of_used run db hash idle_ttl now used h =
    let made = refresh-IsRotation run db hash idle_ttl now h in
    try_consume_token_of_used run.consumes (run.meanwhile db) made.mid hash now used made.claims

-- A refresh that succeeds leaves its token used.
refresh-IsUsed :
    (run : Run) (db : Db) (hash : Bytes) (idle_ttl now : ℕ)
    → (refresh run db hash idle_ttl now).outcome ≡ refreshed
    → IsUsed hash (refresh run db hash idle_ttl now).db
refresh-IsUsed run db hash idle_ttl now h =
    let made = refresh-IsRotation run db hash idle_ttl now h in
    let (used, there) =
      try_consume_token-IsUsed run.consumes (run.meanwhile db) made.mid hash now made.claims in
    subst (IsUsed hash) (ap (λ (c : Db × Bool). c.0) made.issues) (
      insert_token-IsUsed run.inserts made.mid hash made.new_hash made.token.family_id
        (made.token.generation + 1) (now + idle_ttl) now (λ none_there. absurd (there none_there))
        used)

-- Of the requests with one token, at most one is answered with new tokens. One is answered so, its
-- transaction committed. The tables that it leaves are changed by committed statements of any
-- connections, the sweeps of the maintenance included, which never insert the token's hash while no
-- row has it. A later request makes its claim on what they have led to, whatever it has read before,
-- perhaps ahead of the first claim. It is not answered so.
pub refresh_single_use :
    (ends ends' : Ends) (run later : Run) (db db' : Db) (hash : Bytes)
    (idle_ttl now idle_ttl' now' : ℕ)
    → (refresh_request ends run db hash idle_ttl now).1 ≡ some refreshed
    → (after : Reach (refresh_request ends run db hash idle_ttl now).0 (later.meanwhile db'))
    → NeverReturns hash after
    → (refresh_request ends' later db' hash idle_ttl' now').1 ≢ some refreshed
refresh_single_use ends ends' run later db db' hash idle_ttl now idle_ttl' now' h after never
      again =
    let (done, left) = refresh_request_committed ends run db hash idle_ttl now h in
    let (done', _) = refresh_request_committed ends' later db' hash idle_ttl' now' again in
    refresh_of_used later db' hash idle_ttl' now'
      (Reach-IsUsed hash after never
        (subst (IsUsed hash) (sym left) (refresh-IsUsed run db hash idle_ttl now done)))
      done'
