-- ===== src/Store/TokenStore/Outstanding.antt =====
-- What the statements do to the tokens that are outstanding, and to the throttle's count.
use platform_service.Common.{
  ℕ, ◌<◌, ◌≡◌, refl, ap, ◌∙◌, ◌≢◌, ◌⊎◌, inl, inr, Bool, true, false, ◌&&◌, none, some, List, [],
  ◌∷◌, ◌++◌, arith, Bytes, ◌==◌, ==_iff, Bool-cases, Option-cases, equal, equal_iff,
}
use platform_service.Store.SessionStore.{is_null, update_where, changed}
use platform_service.Store.TokenStore.{
  VerificationRow, find_hash, new_row, insert, view, get_by_hash, consume_row, has_hash, consume,
  is_outstanding, invalidate_all_for_user, is_created_since, count_created_since,
}

none_outstanding :
    (user_id now : ℕ) (rows : List VerificationRow)
    → changed
        (is_outstanding user_id)
        (update_where (is_outstanding user_id) (consume_row now) rows)
      ≡ 0
unfolding update_where changed
none_outstanding user_id now [] = refl
none_outstanding user_id now (r ∷ rs) = ground (arith, none_outstanding user_id now rs)

others_outstanding :
    (user_id other now : ℕ) (rows : List VerificationRow)
    → other ≢ user_id
    → changed (is_outstanding other) (update_where (is_outstanding user_id) (consume_row now) rows)
      ≡ changed (is_outstanding other) rows
unfolding update_where changed
others_outstanding user_id other now [] ne = refl
others_outstanding user_id other now (r ∷ rs) ne =
    ground (arith, others_outstanding user_id other now rs)

count_kept :
    (user_id other since now : ℕ) (rows : List VerificationRow)
    → changed
        (is_created_since other since)
        (update_where (is_outstanding user_id) (consume_row now) rows)
      ≡ changed (is_created_since other since) rows
unfolding update_where changed
count_kept user_id other since now [] = refl
count_kept user_id other since now (r ∷ rs) = ground (arith, count_kept user_id other since now rs)

-- Invalidating a user's tokens, where the statement runs, leaves none of them outstanding, leaves
-- those of any other user as many, and changes no user's count of tokens created since a time.
pub invalidate_all_lem :
    (rows : List VerificationRow) (user_id other since now : ℕ)
    → (changed (is_outstanding user_id) (invalidate_all_for_user true rows user_id now).0 ≡ 0)
      × ((other ≡ user_id)
          ⊎ (changed (is_outstanding other) (invalidate_all_for_user true rows user_id now).0
              ≡ changed (is_outstanding other) rows))
      × (count_created_since true (invalidate_all_for_user true rows user_id now).0 other since
          ≡ count_created_since true rows other since)
unfolding invalidate_all_for_user count_created_since
invalidate_all_lem rows user_id other since now = (
  none_outstanding user_id now rows,
  elim (Bool-cases (other == user_id)) [
    | inl same ↦ inl ((==_iff other user_id).0 same)
    | inr apart ↦ inr (others_outstanding user_id other now rows (λ e. ground arith))
  ],
  ap some (count_kept user_id other since now rows),
)

find_hash-concat :
    (rows : List VerificationRow) (r : VerificationRow)
    → find_hash r.token_hash rows ≡ none
    → find_hash r.token_hash (rows ++ r ∷ []) ≡ some r
unfolding find_hash
find_hash-concat [] r absent = ground (arith, equal_iff r.token_hash r.token_hash)
find_hash-concat (x ∷ xs) r absent = ground (arith, find_hash-concat xs r)

find_hash-consume :
    (key : Bytes) (now : ℕ) (rows : List VerificationRow) (r : VerificationRow)
    → find_hash key rows ≡ some r
    → find_hash key (update_where (has_hash key) (consume_row now) rows) ≡ some (consume_row now r)
unfolding find_hash update_where
find_hash-consume key now [] r found = cc
find_hash-consume key now (x ∷ xs) r found = ground (arith, find_hash-consume key now xs r)

find_hash-other :
    (other : Bytes) (later : ℕ) (rows : List VerificationRow) (r : VerificationRow)
    → equal r.token_hash other ≡ false
    → find_hash other (update_where (has_hash r.token_hash) (consume_row later) (rows ++ r ∷ []))
      ≡ find_hash other rows
unfolding find_hash update_where
find_hash-other other later [] r apart = ground (arith, apart, equal_iff r.token_hash r.token_hash)
find_hash-other other later (x ∷ xs) r apart =
    let rest = find_hash-other other later xs r apart in
    elim (Bool-cases (equal x.token_hash r.token_hash)) [
      | inl same ↦
          let differs : equal x.token_hash other ≡ false =
            ap (λ k. equal k other) ((equal_iff x.token_hash r.token_hash).0 same) ∙ apart in
          rw (same, differs, rest) refl
      | inr other_row ↦ rw (other_row, rest) refl
    ]

-- A token that was inserted is found, not consumed. Once it is consumed, at a time above 0, it is found
-- so: a reader sees that time, and not the 0 of a token that is not consumed. What is found of any
-- other token is as it was before both.
pub insert_then_consume :
    (rows : List VerificationRow) (runs : Bool) (token_hash other : Bytes)
    (user_id expires_at now later : ℕ)
    → (insert runs rows token_hash user_id expires_at now).1 ≡ true
    → 0 < later
    → equal token_hash other ≡ false
    → let row = new_row token_hash user_id expires_at now in
      let inserted = (insert runs rows token_hash user_id expires_at now).0 in
      let consumed = (consume true inserted token_hash later).0 in
      (get_by_hash true inserted token_hash ≡ some (view row))
      × ((view row).consumed_at ≡ 0)
      × (get_by_hash true consumed token_hash ≡ some (view (consume_row later row)))
      × (0 < (view (consume_row later row)).consumed_at)
      × (get_by_hash true consumed other ≡ get_by_hash true rows other)
unfolding insert get_by_hash consume
insert_then_consume rows runs token_hash other user_id expires_at now later h pos apart =
    elim (Bool-cases (runs && is_null (find_hash token_hash rows))) [
      | inr refused ↦ cc (rw refused at h)
      | inl done ↦
          let absent : find_hash token_hash rows ≡ none =
            elim (Option-cases (find_hash token_hash rows)) [
              | inl none_ ↦ none_
              | inr (r, there) ↦ ground arith
            ] in
          let row = new_row token_hash user_id expires_at now in
          let found = find_hash-concat rows row absent in
          rw
            (
              done,
              found,
              find_hash-consume token_hash later (rows ++ row ∷ []) row found,
              find_hash-other other later rows row apart,
            )
            (refl, refl, refl, pos, refl)
    ]
