-- ===== src/Store/SessionStore/Steps.antt =====
-- The statements that change the two tables, of the session store and of the maintenance, as steps:
-- any number of connections interleave them. A step is a statement that is committed, alone or with
-- its transaction; what is rolled back is none.
use platform_service.Common.{
  ℕ, ◌+◌, ◌≤◌, ◌<◌, ◌≡◌, refl, subst, inl, inr, Bool, true, false, not, ◌&&◌, Option, none, some,
  List, [], ◌∷◌, ◌++◌, arith, Bytes, Bool-cases, equal, equal_iff,
}
use platform_service.Store.SessionStore.Sweeps.{
  sweep_tokens, sweep_families, changed-delete_where, is_among, is_expired, is_stale,
}
use platform_service.Store.SessionStore.{
  FamilyRow, TokenRow, Db, find_family, find_token, consume_row, new_token, is_null, changed,
  update_where, is_unconsumed, create_family, revoke_family, insert_token, try_consume_token,
  revoke_all_for_user,
}

pub data Step (db : Db) : Db → Type 0 where
  creates :
      (runs : Bool) (family_id : Bytes) (user_id now absolute_exp : ℕ)
      → Step db (create_family runs db family_id user_id now absolute_exp).0
  revokes :
      (runs : Bool) (family_id cause : Bytes) (now : ℕ)
      → 0 < now
      → Step db (revoke_family runs db family_id cause now).0
  inserts :
      (runs : Bool) (hash family_id : Bytes) (generation idle_exp now : ℕ)
      → Step db (insert_token runs db hash family_id generation idle_exp now).0
  consumes : (runs : Bool) (hash : Bytes) (now : ℕ) → Step db (try_consume_token runs db hash now).0
  revokes_all :
      (runs : Bool) (user_id : ℕ) (except : Option Bytes) (cause : Bytes) (now : ℕ)
      → 0 < now
      → Step db (revoke_all_for_user runs db user_id except cause now).0
  sweeps_tokens :
      (runs : Bool) (picks : TokenRow → Bool) (now : ℕ) → Step db (sweep_tokens runs picks db now)
  sweeps_families :
      (runs : Bool) (picks : FamilyRow → Bool) (now : ℕ)
      → Step db (sweep_families runs picks db now)

pub data Reach (db : Db) : Db → Type 0 where
  here : Reach db db
  next : {mid last : Db} → Reach db mid → Step mid last → Reach db last

-- The token with this hash is there, and consumed.
pub record IsSpent (hash : Bytes) (db : Db) : Type 0 where
  pub row : TokenRow
  pub at : ℕ
  pub found : find_token hash db.tokens ≡ some row
  pub consumed : row.consumed_at ≡ some at

-- The family with this id is there, and revoked at a time that a reader tells from NULL.
pub record IsRevoked (family_id : Bytes) (db : Db) : Type 0 where
  pub row : FamilyRow
  pub at : ℕ
  pub found : find_family family_id db.families ≡ some row
  pub revoked : row.revoked_at ≡ some at
  pub nonzero : 0 < at

-- No row with this hash is unconsumed.
abbrev pub IsUsed : Bytes → Db → Type 0
IsUsed hash db = changed (is_unconsumed hash) db.tokens ≡ 0

-- The statement does not insert a token with this hash where none is, that is, once its row has been
-- swept: the random generator does not draw the same token again.
unfoldable pub NoReturn : {db db' : Db} → Bytes → Step db db' → Type 0
NoReturn hash (creates runs f u now exp) = Unit {0}
NoReturn hash (revokes runs f cause now pos) = Unit {0}
NoReturn {db} hash (inserts runs h f g exp now) =
    find_token hash db.tokens ≡ none → equal h hash ≡ false
NoReturn hash (consumes runs h now) = Unit {0}
NoReturn hash (revokes_all runs u e cause now pos) = Unit {0}
NoReturn hash (sweeps_tokens runs picks now) = Unit {0}
NoReturn hash (sweeps_families runs picks now) = Unit {0}

unfoldable pub NeverReturns : {db db' : Db} → Bytes → Reach db db' → Type 0
unfolding NoReturn
NeverReturns hash here = Unit {0}
NeverReturns hash (next r s) = NeverReturns hash r × NoReturn hash s

changed-append :
    (p : TokenRow → Bool) (ts us : List TokenRow)
    → changed p (ts ++ us) ≡ changed p ts + changed p us
unfolding changed
changed-append p [] us = omega arith
changed-append p (t ∷ ts) us = omega (arith, changed-append p ts us)

changed-consume :
    (hash h : Bytes) (now : ℕ) (ts : List TokenRow)
    → changed (is_unconsumed hash) (update_where (is_unconsumed h) (consume_row now) ts)
      ≤ changed (is_unconsumed hash) ts
unfolding changed update_where
changed-consume hash h now [] = omega arith
changed-consume hash h now (t ∷ ts) = ground (arith, changed-consume hash h now ts)

pub insert_token-IsUsed :
    (runs : Bool) (db : Db) (hash h f : Bytes) (g exp now : ℕ)
    → (find_token hash db.tokens ≡ none → equal h hash ≡ false)
    → IsUsed hash db
    → IsUsed hash (insert_token runs db h f g exp now).0
unfolding insert_token changed
insert_token-IsUsed runs db hash h f g exp now other used =
    elim (Bool-cases
      (runs && is_null (find_token h db.tokens) && not (is_null (find_family f db.families)))) [
        | inr refused ↦ rw refused used
        | inl done ↦
            let free : find_token h db.tokens ≡ none = ground arith in
            let differs : equal h hash ≡ false = elim (Bool-cases (equal h hash)) [
              | inl same ↦
                  other
                    (subst (λ x. find_token x db.tokens ≡ none) ((equal_iff h hash).0 same) free)
              | inr e ↦ e
            ] in
            rw done (
              ground (
                arith,
                used,
                differs,
                changed-append (is_unconsumed hash) db.tokens (new_token h f g exp now ∷ []),
              ))
      ]

pub Step-IsUsed :
    (hash : Bytes) {db db' : Db} (s : Step db db')
    → NoReturn hash s
    → IsUsed hash db
    → IsUsed hash db'
unfolding create_family revoke_family try_consume_token revoke_all_for_user NoReturn sweep_tokens
    sweep_families
Step-IsUsed hash (creates true f u now exp) n s = ground (arith, s)
Step-IsUsed hash (creates false f u now exp) n s = s
Step-IsUsed hash (revokes true f cause now pos) n s = s
Step-IsUsed hash (revokes false f cause now pos) n s = s
Step-IsUsed hash {db} (inserts runs h f g exp now) n s =
    insert_token-IsUsed runs db hash h f g exp now n s
Step-IsUsed hash {db} (consumes true h now) n s =
    omega (arith, s, changed-consume hash h now db.tokens)
Step-IsUsed hash (consumes false h now) n s = s
Step-IsUsed hash (revokes_all true u e cause now pos) n s = s
Step-IsUsed hash (revokes_all false u e cause now pos) n s = s
Step-IsUsed hash {db} (sweeps_tokens true picks now) n s = omega (
  arith,
  s,
  changed-delete_where (is_unconsumed hash)
      (λ t. picks t && is_among (is_expired now) db.families t.family_id) db.tokens,
)
Step-IsUsed hash (sweeps_tokens false picks now) n s = s
Step-IsUsed hash {db} (sweeps_families true picks now) n s = omega (
  arith,
  s,
  changed-delete_where (is_unconsumed hash)
      (λ t. is_among (λ f. picks f && is_stale now f) db.families t.family_id) db.tokens,
)
Step-IsUsed hash (sweeps_families false picks now) n s = s

-- What is used stays used, whatever statements follow.
pub Reach-IsUsed :
    (hash : Bytes) {db db' : Db} (r : Reach db db')
    → NeverReturns hash r
    → IsUsed hash db
    → IsUsed hash db'
unfolding NeverReturns
Reach-IsUsed hash here n s = s
Reach-IsUsed hash (next r st) n s = Step-IsUsed hash st n.1 (Reach-IsUsed hash r n.0 s)

-- The claim of a token, if it changes a row, leaves it used.
pub changed-consumed :
    (hash : Bytes) (now : ℕ) (ts : List TokenRow)
    → changed (is_unconsumed hash) (update_where (is_unconsumed hash) (consume_row now) ts) ≡ 0
unfolding changed update_where
changed-consumed hash now [] = refl
changed-consumed hash now (t ∷ ts) = ground (arith, changed-consumed hash now ts)
