-- ===== src/Store/SessionStore/Rows.antt =====
-- How the statements change what a look-up by key finds.
use platform_service.Common.{
  ltb, ℕ, ◌≡◌, refl, ◌∙◌, subst, inl, inr, Bool, true, false, Option, none, some, List, [], ◌∷◌,
  ◌++◌, arith, Bytes, if◌then◌else◌, Bool-cases, equal, equal_iff,
}
use platform_service.Store.SessionStore.{
  token_view, family_view, Family, Token, Db, get_token, get_family, is_unconsumed, changed,
  FamilyRow, TokenRow, find_family, find_token, update_where,
}

pub find_token-append :
    (key : Bytes) (ts us : List TokenRow) (r : TokenRow)
    → find_token key ts ≡ some r
    → find_token key (ts ++ us) ≡ some r
unfolding find_token
find_token-append key [] us r h = cc
find_token-append key (t ∷ ts) us r h = ground (arith, find_token-append key ts us r)

pub find_family-append :
    (key : Bytes) (fs gs : List FamilyRow) (r : FamilyRow)
    → find_family key fs ≡ some r
    → find_family key (fs ++ gs) ≡ some r
unfolding find_family
find_family-append key [] gs r h = cc
find_family-append key (f ∷ fs) gs r h = ground (arith, find_family-append key fs gs r)

abbrev pub update_found {ℓ} : {A : Type ℓ} → (A → Bool) → (A → A) → Option A → Option A
update_found p f none = none
update_found p f (some r) = some (if p r then f r else r)

-- An UPDATE that leaves the key of each row alone changes what is found, and finds nothing else.
pub find_token-update_where :
    (key : Bytes) (p : TokenRow → Bool) (f : TokenRow → TokenRow) (ts : List TokenRow)
    → ((r : TokenRow) → (f r).token_hash ≡ r.token_hash)
    → find_token key (update_where p f ts) ≡ update_found p f (find_token key ts)
unfolding find_token update_where
find_token-update_where key p f [] keeps = refl
find_token-update_where key p f (t ∷ ts) keeps =
    ground (arith, keeps t, find_token-update_where key p f ts keeps)

pub find_family-update_where :
    (key : Bytes) (p : FamilyRow → Bool) (f : FamilyRow → FamilyRow) (fs : List FamilyRow)
    → ((r : FamilyRow) → (f r).family_id ≡ r.family_id)
    → find_family key (update_where p f fs) ≡ update_found p f (find_family key fs)
unfolding find_family update_where
find_family-update_where key p f [] keeps = refl
find_family-update_where key p f (r ∷ fs) keeps =
    ground (arith, keeps r, find_family-update_where key p f fs keeps)

pub find_family-key :
    (key : Bytes) (fs : List FamilyRow) (r : FamilyRow)
    → find_family key fs ≡ some r
    → equal r.family_id key ≡ true
unfolding find_family
find_family-key key [] r h = cc
find_family-key key (f ∷ fs) r h = ground (arith, find_family-key key fs r)

pub find_token-key :
    (key : Bytes) (ts : List TokenRow) (r : TokenRow)
    → find_token key ts ≡ some r
    → equal r.token_hash key ≡ true
unfolding find_token
find_token-key key [] r h = cc
find_token-key key (t ∷ ts) r h = ground (arith, find_token-key key ts r)

pub find_token-concat :
    (key : Bytes) (ts : List TokenRow) (r : TokenRow)
    → find_token key ts ≡ none
    → equal r.token_hash key ≡ true
    → find_token key (ts ++ r ∷ []) ≡ some r
unfolding find_token
find_token-concat key [] r h e = ground arith
find_token-concat key (t ∷ ts) r h e = ground (arith, find_token-concat key ts r)

-- The primary key of `refresh_tokens`: no two rows have one hash.
abbrev pub IsKeyed : List TokenRow → Type 0
IsKeyed [] = Unit {0}
IsKeyed (r ∷ rs) = (find_token r.token_hash rs ≡ none) × IsKeyed rs

find_token-none-concat :
    (key : Bytes) (ts : List TokenRow) (r : TokenRow)
    → find_token key ts ≡ none
    → equal r.token_hash key ≡ false
    → find_token key (ts ++ r ∷ []) ≡ none
unfolding find_token
find_token-none-concat key [] r h e = ground arith
find_token-none-concat key (t ∷ ts) r h e = ground (arith, find_token-none-concat key ts r)

equal_comm : (a b : Bytes) → equal a b ≡ equal b a
equal_comm a b = ground (arith, equal_iff a b, equal_iff b a)

pub IsKeyed-concat :
    (ts : List TokenRow) (r : TokenRow)
    → IsKeyed ts
    → find_token r.token_hash ts ≡ none
    → IsKeyed (ts ++ r ∷ [])
unfolding find_token
IsKeyed-concat [] r k h = (refl, tt)
IsKeyed-concat (t ∷ ts) r (first, k) h =
    let other : equal t.token_hash r.token_hash ≡ false = ground arith in
    (
      find_token-none-concat t.token_hash ts r first (equal_comm r.token_hash t.token_hash ∙ other),
      IsKeyed-concat ts r k (ground arith),
    )

pub IsKeyed-update_where :
    (p : TokenRow → Bool) (f : TokenRow → TokenRow) (ts : List TokenRow)
    → ((r : TokenRow) → (f r).token_hash ≡ r.token_hash)
    → IsKeyed ts
    → IsKeyed (update_where p f ts)
unfolding update_where
IsKeyed-update_where p f [] keeps k = tt
IsKeyed-update_where p f (t ∷ ts) keeps (first, k) = (
  rw (find_token-update_where (if p t then f t else t).token_hash p f ts keeps)
      (ground (arith, keeps t)),
  IsKeyed-update_where p f ts keeps k,
)

pub changed_of_missing :
    (key : Bytes) (ts : List TokenRow)
    → find_token key ts ≡ none
    → changed (is_unconsumed key) ts ≡ 0
unfolding find_token changed
changed_of_missing key [] h = refl
changed_of_missing key (t ∷ ts) h = ground (arith, changed_of_missing key ts)

-- The claim of a consumed token changes no row.
pub changed_of_consumed :
    (key : Bytes) (ts : List TokenRow) (r : TokenRow) (at : ℕ)
    → IsKeyed ts
    → find_token key ts ≡ some r
    → r.consumed_at ≡ some at
    → changed (is_unconsumed key) ts ≡ 0
unfolding find_token changed
changed_of_consumed key [] r at k h c = refl
changed_of_consumed key (t ∷ ts) r at (first, k) h c = elim (Bool-cases (equal t.token_hash key)) [
  | inl same ↦
      let missing : find_token key ts ≡ none =
        subst (λ x. find_token x ts ≡ none) ((equal_iff t.token_hash key).0 same) first in
      ground (arith, changed_of_missing key ts missing)
  | inr other ↦ ground (arith, changed_of_consumed key ts r at k)
]

pub get_token-view :
    (runs : Bool) (db : Db) (hash : Bytes) (row : TokenRow) (t : Token)
    → find_token hash db.tokens ≡ some row
    → get_token runs db hash ≡ some t
    → t ≡ token_view row
unfolding get_token
get_token-view runs db hash row t found h = ground arith

pub get_family-view :
    (runs : Bool) (db : Db) (family_id : Bytes) (row : FamilyRow) (f : Family)
    → find_family family_id db.families ≡ some row
    → get_family runs db family_id ≡ some f
    → f ≡ family_view row
unfolding get_family
get_family-view runs db family_id row f found h = ground arith

-- The claim of an unconsumed token changes a row.
pub changed_of_unconsumed :
    (key : Bytes) (ts : List TokenRow) (r : TokenRow)
    → find_token key ts ≡ some r
    → r.consumed_at ≡ none
    → ltb 0 (changed (is_unconsumed key) ts) ≡ true
unfolding find_token changed
changed_of_unconsumed key [] r h c = cc
changed_of_unconsumed key (t ∷ ts) r h c = ground (arith, changed_of_unconsumed key ts r)

pub find_family-concat :
    (key : Bytes) (fs : List FamilyRow) (r : FamilyRow)
    → find_family key fs ≡ none
    → equal r.family_id key ≡ true
    → find_family key (fs ++ r ∷ []) ≡ some r
unfolding find_family
find_family-concat key [] r h e = ground arith
find_family-concat key (f ∷ fs) r h e = ground (arith, find_family-concat key fs r)
