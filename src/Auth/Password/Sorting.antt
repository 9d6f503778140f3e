-- ===== src/Auth/Password/Sorting.antt =====
-- The lines of the denylist of src/auth/password.c are put in order, and none is lost or added.
use platform_service.Common.{
  ℕ, zero, suc, ◌≤◌, ◌<◌, ◌≡◌, refl, ap, ◌∙◌, inl, inr, Bool, true, false, ◌||◌, List, [], ◌∷◌,
  arith, Bytes, Bool-cases, length, get_or, equal,
}
use platform_service.Http.Cors.{among}
use platform_service.Auth.Password.{strcmp, is_above, insert, sort}
use platform_service.Auth.Password.Order.{strcmp_refl, strcmp-flip, strcmp_trans}

unfoldable pub LeAll : Bytes → List Bytes → Type 0
LeAll x [] = Unit {0}
LeAll x (y ∷ ys) = (is_above (strcmp x y) ≡ false) × LeAll x ys

unfoldable pub IsOrdered : List Bytes → Type 0
unfolding LeAll
IsOrdered [] = Unit {0}
IsOrdered (x ∷ xs) = LeAll x xs × IsOrdered xs

LeAll-trans :
    (x y : Bytes) (ys : List Bytes) → is_above (strcmp x y) ≡ false → LeAll y ys → LeAll x ys
unfolding LeAll
LeAll-trans x y [] h all = tt
LeAll-trans x y (z ∷ zs) h all = (strcmp_trans x y z h all.0, LeAll-trans x y zs h all.1)

insert-LeAll :
    (z x : Bytes) (ys : List Bytes)
    → is_above (strcmp z x) ≡ false
    → LeAll z ys
    → LeAll z (insert x ys)
unfolding LeAll insert
insert-LeAll z x [] h all = (h, tt)
insert-LeAll z x (y ∷ ys) h all = elim (Bool-cases (is_above (strcmp x y))) [
  | inl up ↦ rw up (all.0, insert-LeAll z x ys h all.1)
  | inr stay ↦ rw stay (h, all)
]

-- Above one way is not above the other way.
above_flip : (x y : Bytes) → is_above (strcmp x y) ≡ true → is_above (strcmp y x) ≡ false
unfolding is_above
above_flip x y h = rw ((strcmp-flip y x).1 h) refl

insert-IsOrdered : (x : Bytes) (ys : List Bytes) → IsOrdered ys → IsOrdered (insert x ys)
unfolding IsOrdered insert
insert-IsOrdered x [] o = (tt, tt)
insert-IsOrdered x (y ∷ ys) o = elim (Bool-cases (is_above (strcmp x y))) [
  | inl up ↦ rw up (insert-LeAll y x ys (above_flip x y up) o.0, insert-IsOrdered x ys o.1)
  | inr stay ↦ rw stay ((stay, LeAll-trans x y ys stay o.0), o)
]

pub sort-IsOrdered : (xs : List Bytes) → IsOrdered (sort xs)
unfolding IsOrdered sort
sort-IsOrdered [] = tt
sort-IsOrdered (x ∷ xs) = insert-IsOrdered x (sort xs) (sort-IsOrdered xs)

among-insert :
    (x : Bytes) (ys : List Bytes) (c : Bytes) → among (insert x ys) c ≡ (equal x c || among ys c)
unfolding among insert
among-insert x [] c = refl
among-insert x (y ∷ ys) c = elim (Bool-cases (is_above (strcmp x y))) [
  | inl up ↦ rw (up, among-insert x ys c) (swapped (equal y c) (equal x c) (among ys c))
  | inr stay ↦ rw stay refl
]
  where
    swapped : (a b r : Bool) → (a || (b || r)) ≡ (b || (a || r))
    swapped true true r = refl
    swapped true false r = refl
    swapped false b r = refl

pub among-sort : (xs : List Bytes) (c : Bytes) → among (sort xs) c ≡ among xs c
unfolding among sort
among-sort [] c = refl
among-sort (x ∷ xs) c = among-insert x (sort xs) c ∙ ap (λ r. equal x c || r) (among-sort xs c)

LeAll-get :
    (x : Bytes) (ys : List Bytes) (i : ℕ)
    → LeAll x ys
    → i < length ys
    → is_above (strcmp x (get_or ys i [])) ≡ false
unfolding LeAll
LeAll-get x [] i all inside = absurd (omega arith)
LeAll-get x (y ∷ ys) zero all inside = all.0
LeAll-get x (y ∷ ys) (suc i) all inside = LeAll-get x ys i all.1 (omega arith)

-- Of two lines the one behind is not below the other.
pub get_or-IsOrdered :
    (xs : List Bytes) (i j : ℕ)
    → IsOrdered xs
    → i ≤ j
    → j < length xs
    → is_above (strcmp (get_or xs i []) (get_or xs j [])) ≡ false
unfolding IsOrdered is_above
get_or-IsOrdered [] i j o le inside = absurd (omega arith)
get_or-IsOrdered (x ∷ xs) zero zero o le inside = rw (strcmp_refl x) refl
get_or-IsOrdered (x ∷ xs) zero (suc j) o le inside = LeAll-get x xs j o.0 (omega arith)
get_or-IsOrdered (x ∷ xs) (suc i) zero o le inside = absurd (omega arith)
get_or-IsOrdered (x ∷ xs) (suc i) (suc j) o le inside =
    get_or-IsOrdered xs i j o.1 (omega arith) (omega arith)
