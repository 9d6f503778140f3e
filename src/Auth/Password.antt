-- ===== src/Auth/Password.antt =====
-- Passwords, src/auth/password.c and password.h: the stored form, the denylist and the policy. What
-- OpenSSL derives and draws is given. A file is the list of its bytes, a line the list of its bytes
-- up to a NUL; memory is granted but for the lower-case candidate.
pub mod Order
pub mod Sorting
pub mod Search
pub mod Policy
mod Tests
use platform_service.Common.{
  ℕ, zero, suc, ◌+◌, ◌-◌, ◌*◌, ◌/◌, ◌%◌, ◌^◌, ◌≤◌, ◌<◌, min, code, String, ◌≡◌, refl, sym, ap, ◌∙◌,
  subst, ◌≢◌, ◌↔◌, ◌⊎◌, inl, inr, Bool, true, false, not, ◌&&◌, ◌||◌, Option, none, some, List, [],
  ◌∷◌, ◌++◌, append_assoc, append-nil, arith, Bytes, codes, ltb, leb, ◌==◌, if◌then◌else◌, ltb→lt,
  lt→ltb, leb→le, ==_iff, tests, Bool-cases, Option-cases, length, get_elem?, set, length-append,
  length-set, get_elem?-set_self, get_elem?-set_ne, get_or, take, drop, replicate, take-append-drop,
  take-append, length-take, length-drop, length-replicate, length-map, equal, equal_iff,
}
use platform_service.Json.Value.{c_str}

-- `ps_password_hash_t`.
pub record PasswordHash : Type 0 where
  pub salt : Bytes
  pub hash : Bytes
  pub iterations : ℕ

-- `ps_password_hash`; `salt` is what `ps_rand_bytes` draws, `kdf` is `ps_kdf_derive` of the password,
-- the salt and the iterations. `none` is false.
unfoldable pub password_hash :
    (Bytes → Bytes → ℕ → Option Bytes) → Bytes → ℕ → Option Bytes → Option PasswordHash
password_hash kdf password iterations none = none
password_hash kdf password iterations (some salt) = elim (kdf password salt iterations) [
  | none ↦ none
  | some hash ↦ some (record { salt = salt; hash = hash; iterations = iterations })
]

-- `ps_password_verify`.
unfoldable pub password_verify : (Bytes → Bytes → ℕ → Option Bytes) → Bytes → PasswordHash → Bool
password_verify kdf password stored = elim (kdf password stored.salt stored.iterations) [
  | none ↦ false
  | some computed ↦ equal computed stored.hash
]

-- What `strcmp` says: below 0, 0, above 0.
pub data Sign : Type 0 where
  below zero_sign above : Sign

unfoldable pub strcmp : Bytes → Bytes → Sign
strcmp [] [] = zero_sign
strcmp [] (b ∷ ys) = below
strcmp (a ∷ xs) [] = above
strcmp (a ∷ xs) (b ∷ ys) =
    let rest = strcmp xs ys in if ltb a b then below else if ltb b a then above else rest

unfoldable pub is_above : Sign → Bool
is_above below = false
is_above zero_sign = false
is_above above = true

-- The text of a line that ends with '\n', without a '\r' at its end.
unfoldable pub cut_return : Bytes → Bytes
cut_return [] = []
cut_return (c ∷ []) = if c == b'\r' then [] else c ∷ []
cut_return (c ∷ d ∷ cs) = c ∷ cut_return (d ∷ cs)

-- A line is kept unless it is an empty C string.
unfoldable pub keep : Bytes → List Bytes → List Bytes
keep line lines = elim (c_str line) [ [] ↦ lines | c ∷ cs ↦ (c ∷ cs) ∷ lines ]

-- The loop over the bytes of the file, with the bytes of the line that has begun.
unfoldable pub lines_from : Bytes → Bytes → List Bytes
unfolding keep cut_return
lines_from line [] = keep line []
lines_from line (c ∷ cs) =
    let ended = lines_from [] cs in
    let longer = lines_from (line ++ c ∷ []) cs in
    if c == b'\n' then keep (cut_return line) ended else longer

-- `qsort` by `strcmp`: the sorted list is one only, since equal strings are the same list.
unfoldable pub insert : Bytes → List Bytes → List Bytes
unfolding is_above strcmp
insert x [] = x ∷ []
insert x (y ∷ ys) =
    let later = insert x ys in if is_above (strcmp x y) then y ∷ later else x ∷ y ∷ ys

unfoldable pub sort : List Bytes → List Bytes
unfolding insert
sort [] = []
sort (x ∷ xs) = insert x (sort xs)

-- `ps_password_denylist_load` of a file that was read.
unfoldable pub denylist_load : Bytes → List Bytes
unfolding lines_from sort
denylist_load file = sort (lines_from [] file)

-- The loop of `denylist_contains`.
unfoldable pub search : List Bytes → Bytes → ℕ → ℕ → ℕ → Bool
unfolding strcmp
search lines candidate zero lo hi = false
search lines candidate (suc fuel) lo hi =
    let mid = lo + (hi - lo) / 2 in
    elim (ltb lo hi) [
      | false ↦ false
      | true ↦ elim (strcmp (get_or lines mid []) candidate) [
        | zero_sign ↦ true
        | below ↦ search lines candidate fuel (mid + 1) hi
        | above ↦ search lines candidate fuel lo mid
      ]
    ]

-- The range is halved in each round, so that this fuel never runs out.
unfoldable pub denylist_contains : List Bytes → Bytes → Bool
unfolding search
denylist_contains lines candidate = search lines candidate (length lines) 0 (length lines)

-- `ps_password_policy_result_t`.
pub data PolicyResult : Type 0 where
  accepted too_short too_long breached out_of_memory : PolicyResult

-- `tolower` of the ASCII letters.
unfoldable pub lowered : Bytes → Bytes
lowered [] = []
lowered (c ∷ cs) = (if leb b'A' c && leb c b'Z' then c + 32 else c) ∷ lowered cs

-- Whether the length, as an `int`, is below the bound, and whether it is above.
unfoldable pub int_below : ℕ → ℕ → Bool
int_below n bound = let m = n % 2 ^ 32 in leb (2 ^ 31) m || ltb m bound

unfoldable pub int_above : ℕ → ℕ → Bool
int_above n bound = let m = n % 2 ^ 32 in ltb m (2 ^ 31) && ltb bound m

unfoldable pub listed : Bool → Bytes → Option (List Bytes) → PolicyResult
unfolding denylist_contains lowered
listed allocates password none = accepted
listed allocates password (some lines) =
    if not allocates
    then out_of_memory
    else if denylist_contains lines (c_str (lowered password))
    then breached
    else accepted

-- `ps_password_policy_check`, for bounds that are not negative; `none` is NULL and `allocates` says
-- whether `malloc` does.
unfoldable pub policy_check : Bool → Bytes → ℕ → ℕ → Option (List Bytes) → PolicyResult
unfolding int_below int_above listed
policy_check allocates password min_length max_length denylist =
    if int_below (length password) min_length
    then too_short
    else if int_above (length password) max_length
    then too_long
    else listed allocates password denylist
