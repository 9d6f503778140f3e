-- ===== src/Store/SessionStore/Spares/Kept.antt =====
-- What a DELETE spares, and a family that has one row.
use platform_service.Common.{
  ℕ, ◌≡◌, refl, ap, inl, inr, Bool, true, false, none, some, List, [], ◌∷◌, ◌++◌, arith, Bytes,
  Bool-cases, equal,
}
use platform_service.Store.SessionStore.Sweeps.{delete_where, is_among}
use platform_service.Store.SessionStore.{
  FamilyRow, TokenRow, find_family, find_token, update_where, revoke_row,
}

pub find_token-delete_where :
    (key : Bytes) (p : TokenRow → Bool) (ts : List TokenRow) (r : TokenRow)
    → find_token key ts ≡ some r
    → p r ≡ false
    → find_token key (delete_where p ts) ≡ some r
unfolding find_token delete_where
find_token-delete_where key p [] r h n = cc
find_token-delete_where key p (t ∷ ts) r h n = elim (Bool-cases (equal t.token_hash key)) [
  | inl same ↦ ground arith
  | inr other ↦ ground (arith, find_token-delete_where key p ts r)
]

pub find_family-delete_where :
    (key : Bytes) (p : FamilyRow → Bool) (fs : List FamilyRow) (r : FamilyRow)
    → find_family key fs ≡ some r
    → p r ≡ false
    → find_family key (delete_where p fs) ≡ some r
unfolding find_family delete_where
find_family-delete_where key p [] r h n = cc
find_family-delete_where key p (f ∷ fs) r h n = elim (Bool-cases (equal f.family_id key)) [
  | inl same ↦ ground arith
  | inr other ↦ ground (arith, find_family-delete_where key p fs r)
]

-- The only row with this family's id is this one.
abbrev pub Sole : FamilyRow → List FamilyRow → Type 0
Sole f [] = Unit {0}
Sole f (r ∷ rs) = (equal r.family_id f.family_id ≡ true → r ≡ f) × Sole f rs

pub Sole-missing :
    (f : FamilyRow) (fs : List FamilyRow) → find_family f.family_id fs ≡ none → Sole f fs
unfolding find_family
Sole-missing f [] h = tt
Sole-missing f (r ∷ rs) h = (λ e. absurd (ground arith), Sole-missing f rs (ground arith))

pub Sole-concat :
    (f : FamilyRow) (fs : List FamilyRow) (r : FamilyRow)
    → Sole f fs
    → (equal r.family_id f.family_id ≡ true → r ≡ f)
    → Sole f (fs ++ r ∷ [])
Sole-concat f [] r s h = (h, tt)
Sole-concat f (g ∷ fs) r (first, rest) h = (first, Sole-concat f fs r rest h)

pub Sole-update_where :
    (f : FamilyRow) (p : FamilyRow → Bool) (cause : Bytes) (now : ℕ) (fs : List FamilyRow)
    → p f ≡ false
    → Sole f fs
    → Sole f (update_where p (revoke_row cause now) fs)
unfolding update_where
Sole-update_where f p cause now [] n s = tt
Sole-update_where f p cause now (r ∷ rs) n (first, rest) = (
  elim (Bool-cases (p r)) [
    | inl hit ↦ rw hit (λ e. absurd (cc (ap p (first e), hit, n)))
    | inr miss ↦ rw miss first
  ],
  Sole-update_where f p cause now rs n rest,
)

pub Sole-delete_where :
    (f : FamilyRow) (p : FamilyRow → Bool) (fs : List FamilyRow)
    → Sole f fs
    → Sole f (delete_where p fs)
unfolding delete_where
Sole-delete_where f p [] s = tt
Sole-delete_where f p (r ∷ rs) (first, rest) = elim (Bool-cases (p r)) [
  | inl gone ↦ rw gone (Sole-delete_where f p rs rest)
  | inr kept ↦ rw kept (first, Sole-delete_where f p rs rest)
]

pub is_among-Sole :
    (f : FamilyRow) (p : FamilyRow → Bool) (fs : List FamilyRow)
    → p f ≡ false
    → Sole f fs
    → is_among p fs f.family_id ≡ false
unfolding is_among
is_among-Sole f p [] n s = refl
is_among-Sole f p (r ∷ rs) n (first, rest) =
    let later = is_among-Sole f p rs n rest in
    elim (Bool-cases (equal r.family_id f.family_id)) [
      | inl same ↦ rw (first same, n, later) (ground arith)
      | inr other ↦ rw (other, later) refl
    ]
