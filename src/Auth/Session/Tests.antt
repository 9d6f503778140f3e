-- ===== src/Auth/Session/Tests.antt =====
-- A session that is opened and refreshed, a second use of its token, and instances of the theorems.
use platform_service.Common.{
  ◌≡◌, refl, ◌≢◌, true, false, Option, none, some, [], ◌∷◌, arith, Bytes, codes, equal,
}
use platform_service.Store.SessionStore.Steps.{
  Step, Reach, here, next, IsSpent, IsRevoked, NeverReturns, NoReturn,
}
use platform_service.Store.SessionStore.Sweeps.{
  sweep_tokens, sweep_families, delete_where, is_among, is_stale,
}
use platform_service.Store.SessionStore.Spares.{AllSpare, Spares}
use platform_service.Store.SessionStore.Invariant.{IsSound, empty, Reach-IsSound}
use platform_service.Store.SessionStore.{
  FamilyRow, TokenRow, Db, find_family, find_token, create_family, insert_token, new_token,
  new_family, get_token, get_family, try_consume_token, update_where, changed,
}
use platform_service.Auth.Session.Transaction.{Ends, refresh_request}
use platform_service.Auth.Session.Reuse.{refresh_single_use}
use platform_service.Auth.Session.Revocation.{refresh_reused, refresh_raced, refresh_of_revoked}
use platform_service.Auth.Session.Lifecycle.{IsSmooth, create_then_refresh}
use platform_service.Auth.Session.{
  Run, refreshed, invalid, reuse_detected, refresh, create, Created,
}

-- A hash for the tests.
abbrev hashed : Bytes → Option Bytes
hashed b = some (0 ∷ b)

abbrev first : Run
first = record {
  reads_token = true;
  reads_family = true;
  revokes = true;
  consumes = true;
  creates = true;
  inserts = true;
  random_family = some (codes "F");
  random = some (codes "t1");
  sha256 = hashed;
  meanwhile = λ db. db;
}

abbrev second : Run
second = record first { random = some (codes "t2") }

abbrev third : Run
third = record first { random = some (codes "t3") }

abbrev family : FamilyRow
family = new_family (codes "F") 7 100 1100

abbrev hash1 : Bytes
hash1 = 0 ∷ codes "t1"

abbrev row1 : TokenRow
row1 = new_token hash1 (codes "F") 1 160 100

abbrev row2 : TokenRow
row2 = new_token (0 ∷ codes "t2") (codes "F") 2 180 120

abbrev opened : Db
opened = record { families = family ∷ []; tokens = row1 ∷ [] }

abbrev handle : Created
handle = record { family_id = codes "F"; raw_refresh_token = codes "t1"; refresh_idle_exp = 160 }

create-opened : create first empty 7 1000 60 100 ≡ (opened, some handle)
unfolding create create_family insert_token find_family find_token equal
create-opened = refl

abbrev used : Db
used = record opened { tokens = record row1 { consumed_at = some 120 } ∷ row2 ∷ [] }

refresh-opened : (refresh second opened hash1 60 120).outcome ≡ refreshed
unfolding refresh get_token get_family try_consume_token insert_token find_family find_token
    update_where changed equal
refresh-opened = refl

refresh-opened_db : (refresh second opened hash1 60 120).db ≡ used
unfolding refresh get_token get_family try_consume_token insert_token find_family find_token
    update_where changed equal
refresh-opened_db = refl

refresh_late : (refresh second opened hash1 60 161).outcome ≡ invalid
unfolding refresh get_token get_family try_consume_token find_family find_token update_where changed
    equal
refresh_late = refl

Reach-opened : Reach empty opened
unfolding create_family insert_token find_family find_token equal
Reach-opened =
    next (next here (Step.creates true (codes "F") 7 100 1100))
      (Step.inserts true hash1 (codes "F") 1 160 100)

opened-IsSound : IsSound opened
opened-IsSound = Reach-IsSound Reach-opened

used-IsSound : IsSound used
unfolding try_consume_token insert_token find_family find_token update_where changed equal
used-IsSound = Reach-IsSound (
    next (next Reach-opened (Step.consumes true hash1 120))
      (Step.inserts true (0 ∷ codes "t2") (codes "F") 2 180 120))

used-IsSpent : IsSpent hash1 used
unfolding find_token equal
used-IsSpent = record {
  row = record row1 { consumed_at = some 120 };
  at = 120;
  found = refl;
  consumed = refl;
}

abbrev committed : Ends
committed = record { begins = true; audits = true; commits = true }

opened_request : (refresh_request committed second opened hash1 60 120).1 ≡ some refreshed
unfolding refresh_request refresh get_token get_family try_consume_token insert_token find_family
    find_token update_where changed equal
opened_request = refl

-- What is rolled back leaves the token as it was.
rolled_back_request :
    refresh_request (record committed { audits = false }) second opened hash1 60 120
    ≡ (opened, none)
unfolding refresh_request refresh get_token get_family try_consume_token insert_token find_family
    find_token update_where changed equal
rolled_back_request = refl

-- Behind the first request the maintenance sweeps the session.
abbrev swept : Db
swept =
    sweep_families true (λ f. true)
      (sweep_tokens true (λ t. true) (refresh_request committed second opened hash1 60 120).0 1101)
      1101

swept_is : swept ≡ empty
unfolding refresh_request refresh get_token get_family try_consume_token insert_token find_family
    find_token update_where changed equal sweep_families sweep_tokens delete_where is_among is_stale
swept_is = refl

swept-Reach : Reach (refresh_request committed second opened hash1 60 120).0 swept
swept-Reach =
    next (next here (Step.sweeps_tokens true (λ t. true) 1101))
      (Step.sweeps_families true (λ f. true) 1101)

swept-NeverReturns : NeverReturns hash1 swept-Reach
unfolding NeverReturns NoReturn swept-Reach
swept-NeverReturns = ((tt, tt), tt)

-- The second request has read the token before the first one claims it.
refresh_single_use_example :
    (refresh_request committed (record third { meanwhile = λ _. swept }) opened hash1 60 120).1
    ≢ some refreshed
refresh_single_use_example =
    refresh_single_use committed committed second (record third { meanwhile = λ _. swept }) opened
      opened hash1 60 120 60 120 opened_request swept-Reach swept-NeverReturns

refresh_reused_example :
    ((refresh third used hash1 60 130).outcome ≡ reuse_detected)
    × IsRevoked (codes "F") (refresh third used hash1 60 130).db
refresh_reused_example =
    refresh_reused third used hash1 60 130 (record row1 { consumed_at = some 120 }) family refl refl
      refl (omega arith) (unfold find_token equal in refl) (unfold find_family equal in refl) 120
      refl (omega arith) used-IsSound

refresh_raced_example :
    ((refresh (record third { meanwhile = λ _. used }) opened hash1 60 130).outcome
      ≡ reuse_detected)
    × IsRevoked
        (codes "F")
        (refresh (record third { meanwhile = λ _. used }) opened hash1 60 130).db
refresh_raced_example =
    refresh_raced (record third { meanwhile = λ _. used }) opened hash1 60 130 row1 family refl refl
      refl (omega arith) (unfold find_token equal in refl) (unfold find_family equal in refl) family
      refl refl used-IsSound used-IsSpent (unfold find_family equal in refl)

abbrev dead : Db
dead = record used {
  families = record family { revoked_at = some 130; revoke_cause = some [] } ∷ [];
}

refresh_of_revoked_example : (refresh third dead (0 ∷ codes "t2") 60 131).outcome ≢ refreshed
unfolding find_token find_family equal
refresh_of_revoked_example =
    refresh_of_revoked third dead (0 ∷ codes "t2") 60 131 row2 refl (record {
      row = record family { revoked_at = some 130; revoke_cause = some [] };
      at = 130;
      found = refl;
      revoked = refl;
      nonzero = omega arith;
    })

-- Another session of the user is opened, and the maintenance runs.
abbrev joined : Db
joined = sweep_tokens true (λ t. true) (create_family true opened (codes "G") 7 110 1110).0 115

second-IsSmooth : IsSmooth second joined hash1 60 120 row1 family (codes "t2") (0 ∷ codes "t2")
unfolding find_token equal sweep_tokens delete_where is_among create_family find_family
second-IsSmooth = record {
  reads = refl;
  owns = refl;
  consumes = refl;
  inserts = refl;
  alone = refl;
  draws = refl;
  hashes = refl;
  fresh = refl;
}

joined-Reach : Reach opened joined
joined-Reach =
    next (next here (Step.creates true (codes "G") 7 110 1110))
      (Step.sweeps_tokens true (λ t. true) 115)

joined-AllSpare : AllSpare row1 family joined-Reach
unfolding AllSpare Spares joined-Reach
joined-AllSpare = ((tt, tt), omega arith)

create_then_refresh_example :
    ((refresh second joined hash1 60 120).outcome ≡ refreshed)
    × ((refresh second joined hash1 60 120).out.user_id ≡ 7)
    × (find_token (0 ∷ codes "t2") (refresh second joined hash1 60 120).db.tokens ≡ some row2)
    × IsSpent hash1 (refresh second joined hash1 60 120).db
create_then_refresh_example =
    create_then_refresh first second empty opened joined 7 1000 60 100 handle hash1 (codes "t2")
      (0 ∷ codes "t2") 60 120 create-opened refl joined-Reach joined-AllSpare (omega arith)
      (omega arith) second-IsSmooth
