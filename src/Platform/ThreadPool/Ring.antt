-- ===== src/Platform/ThreadPool/Ring.antt =====
-- The ring as a sequence: indices wrap around, and a slot behind the last job is free.
use platform_service.Common.{
  ℕ, zero, suc, ◌+◌, ◌-◌, ◌%◌, ◌≤◌, ◌<◌, ◌≡◌, refl, ap, ◌∙◌, subst, ◌≢◌, inl, inr, List, [], ◌∷◌,
  ◌++◌, arith, ltb, ltb→lt, Bool-cases, length, set, get_or,
}
use native.Mathlib.Nat.{mod-eq_of_lt, mod-eq-sub-mod, mod-lt}
use platform_service.Platform.ThreadPool.{Job, no_job}

-- The jobs in the ring from an index on, in the order of their turns.
abbrev pub queued : List Job → ℕ → ℕ → ℕ → List Job
queued ring capacity head zero = []
queued ring capacity head (suc n) =
    get_or ring head no_job ∷ queued ring capacity ((head + 1) % capacity) n

wrap_low : (x c : ℕ) → x < c → x % c ≡ x
wrap_low x c h = grind (arith, mod-eq_of_lt)

wrap_high : (x c : ℕ) → c ≤ x → x < c + c → x % c ≡ x - c
wrap_high x c h k = grind (arith, mod-eq_of_lt, mod-eq-sub-mod)

wrap_ne : (h n c : ℕ) → h < c → 0 < n → n < c → (h + n) % c ≢ h
wrap_ne h n c hc pos nc e = elim (Bool-cases (ltb (h + n) c)) [
  | inl low ↦ absurd (omega (arith, wrap_low (h + n) c (ltb→lt _ _ low)))
  | inr high ↦ absurd (ground (arith, wrap_high (h + n) c))
]

wrap_suc : (h n c : ℕ) → h < c → suc n < c → ((h + 1) % c + n) % c ≡ (h + suc n) % c
wrap_suc h n c hc nc = elim (Bool-cases (ltb (h + 1) c)) [
  | inl low ↦ rw (wrap_low (h + 1) c (ltb→lt _ _ low)) (ap (λ (x : ℕ). x % c) (omega arith))
  | inr high ↦ ground (arith, wrap_high (h + 1) c, wrap_low n c, wrap_high (h + suc n) c)
]

get_or-set_ne :
    (ring : List Job) (i j : ℕ) (v d : Job) → i ≢ j → get_or (set ring i v) j d ≡ get_or ring j d
get_or-set_ne [] i j v d ne = refl
get_or-set_ne (x ∷ xs) zero zero v d ne = absurd (ne refl)
get_or-set_ne (x ∷ xs) zero (suc j) v d ne = refl
get_or-set_ne (x ∷ xs) (suc i) zero v d ne = refl
get_or-set_ne (x ∷ xs) (suc i) (suc j) v d ne = get_or-set_ne xs i j v d (λ e. ne (ap suc e))

get_or-set_self :
    (ring : List Job) (i : ℕ) (v d : Job) → i < length ring → get_or (set ring i v) i d ≡ v
get_or-set_self [] i v d h = absurd (omega arith)
get_or-set_self (x ∷ xs) zero v d h = refl
get_or-set_self (x ∷ xs) (suc i) v d h = get_or-set_self xs i v d (omega arith)

-- A write behind the last of `n` jobs, where a slot is free, appends a job.
pub queued-set :
    (ring : List Job) (capacity head n : ℕ) (job : Job)
    → head < capacity
    → n < capacity
    → length ring ≡ capacity
    → queued (set ring ((head + n) % capacity) job) capacity head (suc n)
      ≡ queued ring capacity head n ++ job ∷ []
queued-set ring capacity head zero job hc nc len =
    let at : (head + 0) % capacity ≡ head =
      wrap_low (head + 0) capacity (omega arith) ∙ omega arith in
    ap (λ (x : Job). x ∷ []) (rw at (get_or-set_self ring head job no_job (omega arith)))
queued-set ring capacity head (suc n) job hc nc len =
    let h' = (head + 1) % capacity in
    let i = (head + suc n) % capacity in
    let first : get_or (set ring i job) head no_job ≡ get_or ring head no_job =
      get_or-set_ne ring i head job no_job (wrap_ne head (suc n) capacity hc (omega arith) nc) in
    let rest : queued (set ring i job) capacity h' (suc n) ≡ queued ring capacity h' n ++ job ∷ [] =
      subst
        (λ x. queued (set ring x job) capacity h' (suc n) ≡ queued ring capacity h' n ++ job ∷ [])
        (wrap_suc head n capacity hc nc)
        (queued-set ring capacity h' n job (mod-lt (head + 1) (omega arith)) (omega arith) len) in
    ap (λ (x : Job). x ∷ queued (set ring i job) capacity h' (suc n)) first
    ∙ ap (λ (t : List Job). get_or ring head no_job ∷ t) rest
