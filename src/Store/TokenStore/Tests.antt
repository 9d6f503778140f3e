-- ===== src/Store/TokenStore/Tests.antt =====
-- Runs of the token store, and instances of its theorems.
use platform_service.Common.{
  ℕ, ◌<◌, ◌≡◌, refl, ◌⊎◌, arith, true, false, some, List, [], ◌∷◌, codes, equal,
}
use platform_service.Store.SessionStore.{changed}
use platform_service.Store.TokenStore.{
  VerificationRow, find_hash, new_row, insert, view, get_by_hash, consume_row, consume,
  is_outstanding, invalidate_all_for_user, count_created_since,
}
use platform_service.Store.TokenStore.Outstanding.{invalidate_all_lem, insert_then_consume}

abbrev rows : List VerificationRow
rows = new_row (codes "h1") 7 500 100 ∷ new_row (codes "h2") 8 500 110 ∷ []

inserts :
    ((insert true rows (codes "h3") 7 600 120).1 ≡ true)
    × ((insert true rows (codes "h1") 7 600 120).1 ≡ false)
    × (count_created_since true rows 7 90 ≡ some 1)
unfolding insert find_hash equal count_created_since changed
inserts = (refl, refl, refl)

abbrev eight : ℕ
eight = 8

invalidate_all_lem_example :
    (changed (is_outstanding 7) (invalidate_all_for_user true rows 7 120).0 ≡ 0)
    × ((eight ≡ 7)
        ⊎ (changed (is_outstanding 8) (invalidate_all_for_user true rows 7 120).0
            ≡ changed (is_outstanding 8) rows))
    × (count_created_since true (invalidate_all_for_user true rows 7 120).0 8 90
        ≡ count_created_since true rows 8 90)
invalidate_all_lem_example = invalidate_all_lem rows 7 8 90 120

distinct_hashes : equal (codes "h3") (codes "h1") ≡ false
unfolding equal
distinct_hashes = refl

insert_then_consume_example :
    let inserted = (insert true rows (codes "h3") 7 600 120).0 in
    let consumed = (consume true inserted (codes "h3") 130).0 in
    (get_by_hash true inserted (codes "h3") ≡ some (view (new_row (codes "h3") 7 600 120)))
    × ((view (new_row (codes "h3") 7 600 120)).consumed_at ≡ 0)
    × (get_by_hash true consumed (codes "h3")
        ≡ some (view (consume_row 130 (new_row (codes "h3") 7 600 120))))
    × (0 < (view (consume_row 130 (new_row (codes "h3") 7 600 120))).consumed_at)
    × (get_by_hash true consumed (codes "h1") ≡ get_by_hash true rows (codes "h1"))
insert_then_consume_example =
    insert_then_consume rows true (codes "h3") (codes "h1") 7 600 120 130 inserts.0 (omega arith)
      distinct_hashes
