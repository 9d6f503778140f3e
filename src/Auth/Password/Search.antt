-- ===== src/Auth/Password/Search.antt =====
-- The binary search of the denylist, src/auth/password.c, against a search line by line.
use platform_service.Common.{
  ℕ, zero, suc, ◌+◌, ◌-◌, ◌/◌, ◌≤◌, ◌<◌, ◌≡◌, refl, sym, ◌∙◌, ◌⊎◌, inl, inr, true, false, List, [],
  ◌∷◌, arith, Bytes, ltb, leb, leb→le, tests, Bool-cases, length, get_or, equal, equal_iff,
}
use platform_service.Http.Cors.{among}
use platform_service.Auth.Password.{
  Sign, below, zero_sign, above, strcmp, is_above, search, denylist_contains, denylist_load,
  lines_from, sort,
}
use platform_service.Auth.Password.Order.{strcmp-same, strcmp-flip}
use platform_service.Auth.Password.Sorting.{IsOrdered, get_or-IsOrdered, sort-IsOrdered, among-sort}

among-get_or :
    (xs : List Bytes) (i : ℕ) (c : Bytes) → i < length xs → get_or xs i [] ≡ c → among xs c ≡ true
unfolding among
among-get_or [] i c inside e = absurd (omega arith)
among-get_or (x ∷ xs) zero c inside e = rw ((equal_iff x c).1 e) refl
among-get_or (x ∷ xs) (suc i) c inside e = elim (Bool-cases (equal x c)) [
  | inl here ↦ rw here refl
  | inr not_here ↦ rw not_here (among-get_or xs i c (omega arith) e)
]

among_at :
    (xs : List Bytes) (c : Bytes)
    → among xs c ≡ true
    → (i : ℕ) × (i < length xs) × (get_or xs i [] ≡ c)
unfolding among
among_at [] c h = absurd cc
among_at (x ∷ xs) c h = elim (Bool-cases (equal x c)) [
  | inl here ↦ (0, omega arith, (equal_iff x c).0 here)
  | inr not_here ↦ let (i, inside, e) = among_at xs c (rw not_here at h) in (suc i, omega arith, e)
]

Sign-cases : (s : Sign) → (s ≡ below) ⊎ ((s ≡ zero_sign) ⊎ (s ≡ above))
Sign-cases below = inl refl
Sign-cases zero_sign = inr (inl refl)
Sign-cases above = inr (inr refl)

-- What the search finds is there.
search_sound :
    (lines : List Bytes) (c : Bytes) (fuel lo hi : ℕ)
    → hi ≤ length lines
    → search lines c fuel lo hi ≡ true
    → among lines c ≡ true
unfolding search
search_sound lines c zero lo hi inside h = absurd cc
search_sound lines c (suc fuel) lo hi inside h =
    let mid = lo + (hi - lo) / 2 in
    elim (Bool-cases (ltb lo hi)) [
      | inr empty ↦ let stopped : false ≡ true = rw (empty, search) at h in absurd cc
      | inl room ↦ elim (Sign-cases (strcmp (get_or lines mid []) c)) [
        | inl less ↦ search_sound lines c fuel (mid + 1) hi inside (rw (room, less, search) at h)
        | inr (inl same) ↦ among-get_or lines mid c (omega (tests, room)) (strcmp-same _ c same)
        | inr (inr more) ↦
            search_sound lines c fuel lo mid (omega (tests, room)) (rw (room, more, search) at h)
      ]
    ]

-- A line within the range is found.
search_complete :
    (lines : List Bytes) (c : Bytes) (k fuel lo hi : ℕ)
    → IsOrdered lines
    → lo ≤ k
    → k < hi
    → hi ≤ length lines
    → get_or lines k [] ≡ c
    → hi ≤ fuel + lo
    → search lines c fuel lo hi ≡ true
unfolding search is_above
search_complete lines c k zero lo hi o from upto inside e enough = absurd (omega arith)
search_complete lines c k (suc fuel) lo hi o from upto inside e enough =
    let mid = lo + (hi - lo) / 2 in
    let room : ltb lo hi ≡ true = ground arith in
    elim (Sign-cases (strcmp (get_or lines mid []) c)) [
      | inl less ↦ elim (Bool-cases (leb k mid)) [
        | inl left ↦
            let rising = get_or-IsOrdered lines k mid o (leb→le _ _ left) (omega arith) in
            let not_above : is_above (strcmp c (get_or lines mid [])) ≡ false = rw e at rising in
            let is_up = (strcmp-flip (get_or lines mid []) c).0 less in absurd cc
        | inr right ↦
            rw (room, less, search)
              (search_complete lines c k fuel (mid + 1) hi o (ground arith) upto inside e
                (omega arith))
      ]
      | inr (inl same) ↦ rw (room, same, search) refl
      | inr (inr more) ↦ elim (Bool-cases (leb mid k)) [
        | inl right ↦
            let rising = get_or-IsOrdered lines mid k o (leb→le _ _ right) (omega arith) in
            let not_above : is_above (strcmp (get_or lines mid []) c) ≡ false = rw e at rising in
            let is_up : true ≡ false = rw more at not_above in absurd cc
        | inr left ↦
            rw (room, more, search)
              (search_complete lines c k fuel lo mid o from (ground arith) (omega arith) e
                (omega arith))
      ]
    ]

-- The search of a loaded denylist finds a text exactly if it is a line of the file.
pub denylist_contains-listed :
    (file candidate : Bytes)
    → denylist_contains (denylist_load file) candidate ≡ among (lines_from [] file) candidate
unfolding denylist_contains denylist_load
denylist_contains-listed file candidate =
    let lines = sort (lines_from [] file) in
    elim (Bool-cases (among lines candidate)) [
      | inl there ↦
          let (k, inside, e) = among_at lines candidate there in
          search_complete lines candidate k (length lines) 0 (length lines)
            (sort-IsOrdered (lines_from [] file)) (omega arith) inside (omega arith) e (omega arith)
          ∙ sym there
          ∙ among-sort (lines_from [] file) candidate
      | inr missing ↦ elim (Bool-cases (search lines candidate (length lines) 0 (length lines))) [
        | inl found ↦
            let there =
              search_sound lines candidate (length lines) 0 (length lines) (omega arith) found in
            absurd cc
        | inr lost ↦ lost ∙ sym missing ∙ among-sort (lines_from [] file) candidate
      ]
    ]
