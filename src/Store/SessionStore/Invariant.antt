-- ===== src/Store/SessionStore/Invariant.antt =====
-- What holds of the two tables in every state that the statements lead to.
use platform_service.Common.{
  ℕ, ◌<◌, ◌≡◌, refl, ◌≢◌, inl, inr, Bool, true, false, not, ◌&&◌, none, some, List, [], ◌∷◌, ◌++◌,
  arith, Bytes, Bool-cases,
}
use platform_service.Store.SessionStore.Rows.{IsKeyed, IsKeyed-concat, IsKeyed-update_where}
use platform_service.Store.SessionStore.Sweeps.{delete_where, sweep_tokens, sweep_families}
use platform_service.Store.SessionStore.Steps.{
  Step, creates, revokes, inserts, consumes, revokes_all, sweeps_tokens, sweeps_families, Reach,
  here, next,
}
use platform_service.Store.SessionStore.{
  FamilyRow, TokenRow, Db, find_family, find_token, is_null, update_where, revoke_row, consume_row,
  is_unconsumed, is_live_family, is_revocable, create_family, revoke_family, insert_token,
  try_consume_token, revoke_all_for_user, new_token, new_family,
}

-- No two tokens have one hash, and no family is revoked at time 0, which would read as NULL.
pub record IsSound (db : Db) : Type 0 where
  pub keyed : IsKeyed db.tokens
  pub timed :
      (key : Bytes) (r : FamilyRow) → find_family key db.families ≡ some r → r.revoked_at ≢ some 0

abbrev pub empty : Db
empty = record { families = []; tokens = [] }

abbrev AllTimed : List FamilyRow → Type 0
AllTimed [] = Unit {0}
AllTimed (f ∷ fs) = (f.revoked_at ≢ some 0) × AllTimed fs

-- What holds of every row of the families and of the tokens together.
record IsIntact (db : Db) : Type 0 where
  pub keyed : IsKeyed db.tokens
  pub timed : AllTimed db.families

timed_found :
    (fs : List FamilyRow) (key : Bytes) (r : FamilyRow)
    → AllTimed fs
    → find_family key fs ≡ some r
    → r.revoked_at ≢ some 0
unfolding find_family
timed_found [] key r a h z = cc
timed_found (f ∷ fs) key r (first, rest) h z = ground (arith, first, timed_found fs key r rest, z)

IsIntact-IsSound : {db : Db} → IsIntact db → IsSound db
IsIntact-IsSound {db} i = record {
  keyed = i.keyed;
  timed = λ key r. timed_found db.families key r i.timed;
}

AllTimed-concat :
    (fs : List FamilyRow) (f : FamilyRow)
    → AllTimed fs
    → f.revoked_at ≢ some 0
    → AllTimed (fs ++ f ∷ [])
AllTimed-concat [] f a n = (n, tt)
AllTimed-concat (g ∷ fs) f (first, rest) n = (first, AllTimed-concat fs f rest n)

-- A revocation at a time above 0.
AllTimed-update_where :
    (p : FamilyRow → Bool) (cause : Bytes) (now : ℕ) (fs : List FamilyRow)
    → 0 < now
    → AllTimed fs
    → AllTimed (update_where p (revoke_row cause now) fs)
unfolding update_where
AllTimed-update_where p cause now [] pos a = tt
AllTimed-update_where p cause now (f ∷ fs) pos (first, rest) =
    (λ z. ground (arith, first), AllTimed-update_where p cause now fs pos rest)

AllTimed-delete_where :
    (p : FamilyRow → Bool) (fs : List FamilyRow) → AllTimed fs → AllTimed (delete_where p fs)
unfolding delete_where
AllTimed-delete_where p [] a = tt
AllTimed-delete_where p (f ∷ fs) (first, rest) = elim (Bool-cases (p f)) [
  | inl gone ↦ rw gone (AllTimed-delete_where p fs rest)
  | inr kept ↦ rw kept (first, AllTimed-delete_where p fs rest)
]

find_token-delete_where :
    (key : Bytes) (p : TokenRow → Bool) (ts : List TokenRow)
    → find_token key ts ≡ none
    → find_token key (delete_where p ts) ≡ none
unfolding find_token delete_where
find_token-delete_where key p [] h = refl
find_token-delete_where key p (t ∷ ts) h = ground (arith, find_token-delete_where key p ts)

IsKeyed-delete_where :
    (p : TokenRow → Bool) (ts : List TokenRow) → IsKeyed ts → IsKeyed (delete_where p ts)
unfolding delete_where
IsKeyed-delete_where p [] k = tt
IsKeyed-delete_where p (t ∷ ts) (first, k) = elim (Bool-cases (p t)) [
  | inl gone ↦ rw gone (IsKeyed-delete_where p ts k)
  | inr kept ↦
      rw kept (find_token-delete_where t.token_hash p ts first, IsKeyed-delete_where p ts k)
]

Step-IsIntact : {db db' : Db} → Step db db' → IsIntact db → IsIntact db'
unfolding create_family revoke_family insert_token try_consume_token revoke_all_for_user
    sweep_tokens sweep_families
Step-IsIntact {db} (creates runs f u now exp) s =
    elim (Bool-cases (runs && is_null (find_family f db.families))) [
      | inl done ↦ rw done (record {
        keyed = s.keyed;
        timed = AllTimed-concat db.families (new_family f u now exp) s.timed (λ z. cc);
      })
      | inr refused ↦ rw refused s
    ]
Step-IsIntact {db} (revokes true f cause now pos) s = record {
  keyed = s.keyed;
  timed = AllTimed-update_where (is_live_family f) cause now db.families pos s.timed;
}
Step-IsIntact (revokes false f cause now pos) s = s
Step-IsIntact {db} (inserts runs h f g exp now) s =
    elim (Bool-cases
      (runs && is_null (find_token h db.tokens) && not (is_null (find_family f db.families)))) [
        | inl done ↦ rw done (record {
          keyed = IsKeyed-concat db.tokens (new_token h f g exp now) s.keyed (ground arith);
          timed = s.timed;
        })
        | inr refused ↦ rw refused s
      ]
Step-IsIntact {db} (consumes true h now) s = record {
  keyed = IsKeyed-update_where (is_unconsumed h) (consume_row now) db.tokens (λ r. refl) s.keyed;
  timed = s.timed;
}
Step-IsIntact (consumes false h now) s = s
Step-IsIntact {db} (revokes_all true u e cause now pos) s = record {
  keyed = s.keyed;
  timed = AllTimed-update_where (is_revocable u e) cause now db.families pos s.timed;
}
Step-IsIntact (revokes_all false u e cause now pos) s = s
Step-IsIntact {db} (sweeps_tokens true picks now) s = record {
  keyed = IsKeyed-delete_where _ db.tokens s.keyed;
  timed = s.timed;
}
Step-IsIntact (sweeps_tokens false picks now) s = s
Step-IsIntact {db} (sweeps_families true picks now) s = record {
  keyed = IsKeyed-delete_where _ db.tokens s.keyed;
  timed = AllTimed-delete_where _ db.families s.timed;
}
Step-IsIntact (sweeps_families false picks now) s = s

Reach-IsIntact : {db db' : Db} → Reach db db' → IsIntact db → IsIntact db'
Reach-IsIntact here s = s
Reach-IsIntact (next r st) s = Step-IsIntact st (Reach-IsIntact r s)

-- The invariant holds in every state that any interleaving of statements leads to.
pub Reach-IsSound : {db : Db} → Reach empty db → IsSound db
Reach-IsSound r = IsIntact-IsSound (Reach-IsIntact r (record { keyed = tt; timed = tt }))

-- A claim keeps sound tables sound.
pub try_consume_token-IsSound :
    (db : Db) (hash : Bytes) (now : ℕ) → IsSound db → IsSound (try_consume_token true db hash now).0
unfolding try_consume_token
try_consume_token-IsSound db hash now s = record {
  keyed = IsKeyed-update_where (is_unconsumed hash) (consume_row now) db.tokens (λ r. refl) s.keyed;
  timed = s.timed;
}
