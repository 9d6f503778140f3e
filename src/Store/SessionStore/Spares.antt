-- ===== src/Store/SessionStore/Spares.antt =====
-- What the statements leave of a session that they spare.
pub mod Kept
use platform_service.Common.{
  ℕ, ◌≤◌, ◌≡◌, refl, ap, ◌∙◌, inl, inr, Bool, true, false, not, ◌&&◌, none, some, List, [], ◌∷◌,
  ◌++◌, arith, Bytes, Bool-cases, equal, equal_iff,
}
use platform_service.Store.SessionStore.Rows.{
  find_token-append, find_family-append, find_token-update_where, find_family-update_where,
}
use platform_service.Store.SessionStore.Sweeps.{
  delete_where, is_among, is_expired, is_stale, sweep_tokens, sweep_families,
}
use platform_service.Store.SessionStore.Steps.{
  Step, creates, revokes, inserts, consumes, revokes_all, sweeps_tokens, sweeps_families, Reach,
  here, next,
}
use platform_service.Store.SessionStore.{
  FamilyRow, TokenRow, Db, find_family, find_token, is_null, update_where, revoke_row, consume_row,
  is_unconsumed, is_live_family, is_revocable, create_family, revoke_family, insert_token,
  try_consume_token, revoke_all_for_user, new_family,
}
use platform_service.Store.SessionStore.Spares.Kept.{
  Sole, Sole-concat, Sole-update_where, Sole-delete_where, is_among-Sole, find_token-delete_where,
  find_family-delete_where,
}

module _ (row : TokenRow) (f : FamilyRow) where
  -- The session's token, with its hash as the key, and its family are in the tables.
  pub record IsKept (db : Db) : Type 0 where
    pub token : find_token row.token_hash db.tokens ≡ some row
    pub family : find_family f.family_id db.families ≡ some f
    pub sole : Sole f db.families

  -- The statement does not revoke the family, alone or with the user's others, nor consume the token,
  -- and a sweep runs at no time behind the end of the family.
  unfoldable pub Spares : {db db' : Db} → Step db db' → Type 0
  Spares (creates runs family_id user_id now exp) = Unit {0}
  Spares (revokes runs family_id cause now pos) = equal f.family_id family_id ≡ false
  Spares (inserts runs hash family_id generation exp now) = Unit {0}
  Spares (consumes runs hash now) = equal row.token_hash hash ≡ false
  Spares (revokes_all runs user_id except cause now pos) = is_revocable user_id except f ≡ false
  Spares (sweeps_tokens runs picks now) = now ≤ f.absolute_exp
  Spares (sweeps_families runs picks now) = now ≤ f.absolute_exp

  unfoldable pub AllSpare : {db db' : Db} → Reach db db' → Type 0
  unfolding Spares
  AllSpare here = Unit {0}
  AllSpare (next r s) = AllSpare r × Spares s

  module _ (unrevoked : f.revoked_at ≡ none) (owns : row.family_id ≡ f.family_id) where
    is_stale_not :
        (picks : FamilyRow → Bool) (now : ℕ)
        → now ≤ f.absolute_exp
        → (picks f && is_stale now f) ≡ false
    unfolding is_stale
    is_stale_not picks now early = ground (arith, unrevoked)

    Step-IsKept : {db db' : Db} (s : Step db db') → Spares s → IsKept db → IsKept db'
    unfolding Spares create_family revoke_family insert_token try_consume_token revoke_all_for_user
        sweep_tokens sweep_families
    Step-IsKept {db} (creates runs f' u now exp) n k =
        elim (Bool-cases (runs && is_null (find_family f' db.families))) [
          | inr refused ↦ rw refused k
          | inl done ↦ rw done (record {
            token = k.token;
            family = find_family-append f.family_id db.families _ f k.family;
            sole =
                Sole-concat f db.families (new_family f' u now exp) k.sole
                  (λ e. absurd (ground (arith, k.family, (equal_iff f' f.family_id).0 e)));
          })
        ]
    Step-IsKept {db} (revokes true f' cause now pos) n k =
        let hit : is_live_family f' f ≡ false = ground (arith, n) in
        record {
          token = k.token;
          family =
              find_family-update_where f.family_id (is_live_family f') (revoke_row cause now)
                db.families (λ r. refl)
              ∙ rw (k.family, hit) refl;
          sole = Sole-update_where f (is_live_family f') cause now db.families hit k.sole;
        }
    Step-IsKept (revokes false f' cause now pos) n k = k
    Step-IsKept {db} (inserts runs h f' g exp now) n k =
        elim (Bool-cases (
          runs && is_null (find_token h db.tokens) && not (is_null (find_family f' db.families)))) [
            | inr refused ↦ rw refused k
            | inl done ↦ rw done (record {
              token = find_token-append row.token_hash db.tokens _ row k.token;
              family = k.family;
              sole = k.sole;
            })
          ]
    Step-IsKept {db} (consumes true h now) n k =
        let hit : is_unconsumed h row ≡ false = ground (arith, n) in
        record {
          token =
              find_token-update_where row.token_hash (is_unconsumed h) (consume_row now) db.tokens
                (λ r. refl)
              ∙ rw (k.token, hit) refl;
          family = k.family;
          sole = k.sole;
        }
    Step-IsKept (consumes false h now) n k = k
    Step-IsKept {db} (revokes_all true u e cause now pos) n k = record {
      token = k.token;
      family =
          find_family-update_where f.family_id (is_revocable u e) (revoke_row cause now) db.families
            (λ r. refl)
          ∙ rw (k.family, n) refl;
      sole = Sole-update_where f (is_revocable u e) cause now db.families n k.sole;
    }
    Step-IsKept (revokes_all false u e cause now pos) n k = k
    Step-IsKept {db} (sweeps_tokens true picks now) n k =
        let live : is_expired now f ≡ false = ground arith in
        let among = is_among-Sole f (is_expired now) db.families live k.sole in
        record {
          token =
              find_token-delete_where row.token_hash
                (λ t. picks t && is_among (is_expired now) db.families t.family_id) db.tokens row
                k.token (ground (arith, ap (is_among (is_expired now) db.families) owns ∙ among));
          family = k.family;
          sole = k.sole;
        }
    Step-IsKept (sweeps_tokens false picks now) n k = k
    Step-IsKept {db} (sweeps_families true picks now) n k =
        let gone : FamilyRow → Bool = λ r. picks r && is_stale now r in
        let live : gone f ≡ false = is_stale_not picks now n in
        let among = is_among-Sole f gone db.families live k.sole in
        record {
          token =
              find_token-delete_where row.token_hash (λ t. is_among gone db.families t.family_id)
                db.tokens row k.token (ap (is_among gone db.families) owns ∙ among);
          family = find_family-delete_where f.family_id gone db.families f k.family live;
          sole = Sole-delete_where f gone db.families k.sole;
        }
    Step-IsKept (sweeps_families false picks now) n k = k

    -- A session that all statements spare stays as it is.
    pub Reach-IsKept : {db db' : Db} (r : Reach db db') → AllSpare r → IsKept db → IsKept db'
    unfolding AllSpare
    Reach-IsKept here n k = k
    Reach-IsKept (next r s) n k = Step-IsKept s n.1 (Reach-IsKept r n.0 k)
