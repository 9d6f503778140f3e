-- ===== src/Http/Cors/Policies.antt =====
-- What the policy that is read from a list of origins lets through.
use platform_service.Common.{
  ℕ, zero, suc, ◌≤◌, ◌<◌, ◌≡◌, refl, ◌∙◌, subst, ◌≢◌, ◌⊎◌, inl, inr, Bool, true, false, ◌&&◌, ◌||◌,
  some, List, [], ◌∷◌, ◌++◌, arith, Bytes, codes, leb, if◌then◌else◌, Bool-cases, length,
  length-append, drop, length-drop, equal,
}
use platform_service.Http.Request.Lines.{is_nil, upto, beyond, trim_right}
use platform_service.Http.Cors.{
  CorsPolicy, CorsResult, ok, err, ◌>>=◌, out_of_fuel, max_origins, skip_separators, add_origin,
  origins_from, policy_init, among, origin_allowed,
}

-- A policy that the check of its origins lets pass.
pub record IsSafe (policy : CorsPolicy) : Type 0 where
  pub bounded : length policy.origins ≤ max_origins
  pub no_wildcard : (policy.allow_credentials && among policy.origins (codes "*")) ≡ false

among-append :
    (os : List Bytes) (o origin : Bytes)
    → among (os ++ o ∷ []) origin ≡ (among os origin || equal o origin)
unfolding among
among-append [] o origin = ground arith
among-append (p ∷ os) o origin = ground (arith, among-append os o origin)

add_origin-IsSafe :
    (policy policy' : CorsPolicy) (value : Bytes)
    → IsSafe policy
    → add_origin policy value ≡ ok policy'
    → IsSafe policy' × (policy'.allow_credentials ≡ policy.allow_credentials)
unfolding add_origin
add_origin-IsSafe policy policy' value s h =
    elim (Bool-cases (policy.allow_credentials && equal value (codes "*"))) [
      | inl wild ↦ cc (rw wild at h)
      | inr named ↦ elim (Bool-cases (leb max_origins (length policy.origins))) [
        | inl many ↦ cc (rw (named, many) at h)
        | inr room ↦
            let next = record policy { origins = policy.origins ++ value ∷ [] } in
            let made : next ≡ policy' = ground arith in
            subst (λ p. IsSafe p × (p.allow_credentials ≡ policy.allow_credentials)) made
              (
                record {
                  bounded = ground (arith, length-append policy.origins (value ∷ []));
                  no_wildcard =
                      ground (arith, among-append policy.origins value (codes "*"), s.no_wildcard);
                },
                refl,
              )
      ]
    ]

same_policy :
    (policy policy' : CorsPolicy)
    → IsSafe policy
    → ok policy ≡ ok policy'
    → IsSafe policy' × (policy'.allow_credentials ≡ policy.allow_credentials)
same_policy policy policy' s h =
    let made : policy ≡ policy' = cc in
    subst (λ p. IsSafe p × (p.allow_credentials ≡ policy.allow_credentials)) made (s, refl)

List-cases : (xs : Bytes) → (xs ≡ []) ⊎ ((c : ℕ) × (cs : Bytes) × (xs ≡ c ∷ cs))
List-cases [] = inl refl
List-cases (c ∷ cs) = inr (c, cs, refl)

step-IsSafe :
    (policy policy' : CorsPolicy) (value : Bytes)
    → IsSafe policy
    → (if is_nil value then ok policy else add_origin policy value) ≡ ok policy'
    → IsSafe policy' × (policy'.allow_credentials ≡ policy.allow_credentials)
step-IsSafe policy policy' [] s h = same_policy policy policy' s h
step-IsSafe policy policy' (c ∷ cs) s h = add_origin-IsSafe policy policy' (c ∷ cs) s h

origins_from-IsSafe :
    (fuel : ℕ) (text : Bytes) (policy policy' : CorsPolicy)
    → IsSafe policy
    → origins_from fuel text policy ≡ ok policy'
    → IsSafe policy' × (policy'.allow_credentials ≡ policy.allow_credentials)
unfolding origins_from
origins_from-IsSafe zero text policy policy' s h = cc
origins_from-IsSafe (suc fuel) text policy policy' s h = elim (List-cases (skip_separators text)) [
  | inl none_left ↦ same_policy policy policy' s (rw (none_left, origins_from) at h)
  | inr (c, cs, split) ↦
      let value = trim_right (upto b',' (c ∷ cs)) in
      let rest = drop 1 (beyond b',' (c ∷ cs)) in
      next (if is_nil value then ok policy else add_origin policy value) rest
        (λ p e. step-IsSafe policy p value s e)
        (λ p sp e. origins_from-IsSafe fuel rest p policy' sp e) (rw (split, origins_from) at h)
]
  where
    next :
        (r : CorsResult) (rest : Bytes)
        → ((p : CorsPolicy)
            → r ≡ ok p
            → IsSafe p × (p.allow_credentials ≡ policy.allow_credentials))
        → ((p : CorsPolicy)
            → IsSafe p
            → origins_from fuel rest p ≡ ok policy'
            → IsSafe policy' × (policy'.allow_credentials ≡ p.allow_credentials))
        → (r >>= origins_from fuel rest) ≡ ok policy'
        → IsSafe policy' × (policy'.allow_credentials ≡ policy.allow_credentials)
    next (err e) rest step later h2 = cc
    next (ok p) rest step later h2 =
        let made = step p refl in let end = later p made.0 h2 in (end.0, end.1 ∙ made.1)

-- A policy that was read has at most 16 origins, and its flag is the one asked for. With credentials it
-- never allows the origin "*".
pub policy_init-IsSafe :
    (reports allow_credentials : Bool) (csv : Bytes) (policy : CorsPolicy)
    → policy_init reports csv allow_credentials ≡ ok policy
    → (length policy.origins ≤ max_origins)
      × (policy.allow_credentials ≡ allow_credentials)
      × ((allow_credentials && origin_allowed (some policy) (some (codes "*"))) ≡ false)
unfolding policy_init origin_allowed among
policy_init-IsSafe false allow_credentials csv policy h = cc
policy_init-IsSafe true allow_credentials csv policy h =
    let start : CorsPolicy = record { origins = []; allow_credentials = allow_credentials } in
    let read =
      origins_from-IsSafe (suc (length csv)) csv start policy
        (record { bounded = omega arith; no_wildcard = ground arith }) h in
    (read.0.bounded, read.1, ground (arith, read.0.no_wildcard, read.1))

length-skip_separators : (xs : Bytes) → length (skip_separators xs) ≤ length xs
unfolding skip_separators
length-skip_separators [] = omega arith
length-skip_separators (c ∷ cs) = ground (arith, length-skip_separators cs)

length-beyond : (c : ℕ) (xs : Bytes) → length (beyond c xs) ≤ length xs
unfolding beyond
length-beyond c [] = omega arith
length-beyond c (x ∷ xs) = ground (arith, length-beyond c xs)

add_origin_lem : (policy : CorsPolicy) (value : Bytes) → add_origin policy value ≢ err out_of_fuel
unfolding add_origin
add_origin_lem policy value h = ground arith

origins_from_lem :
    (fuel : ℕ) (text : Bytes) (policy : CorsPolicy)
    → length text < fuel
    → origins_from fuel text policy ≢ err out_of_fuel
unfolding origins_from
origins_from_lem zero text policy enough h = absurd (omega arith)
origins_from_lem (suc fuel) text policy enough h = elim (List-cases (skip_separators text)) [
  | inl none_left ↦ cc (rw (none_left, origins_from) at h)
  | inr (c, cs, split) ↦
      let value = trim_right (upto b',' (c ∷ cs)) in
      let rest = drop 1 (beyond b',' (c ∷ cs)) in
      next (if is_nil value then ok policy else add_origin policy value) rest (given value)
        (λ p e. origins_from_lem fuel rest p (shorter c cs split) e) (rw (split, origins_from) at h)
]
  where
    given :
        (value : Bytes)
        → (if is_nil value then ok policy else add_origin policy value) ≢ err out_of_fuel
    given [] e = cc
    given (v ∷ vs) e = add_origin_lem policy (v ∷ vs) e

    shorter :
        (c : ℕ) (cs : Bytes)
        → skip_separators text ≡ c ∷ cs
        → length (drop 1 (beyond b',' (c ∷ cs))) < fuel
    shorter c cs split =
        let skipped : length (c ∷ cs) ≤ length text =
          subst (λ (t : Bytes). length t ≤ length text) split (length-skip_separators text) in
        omega (
          arith,
          enough,
          skipped,
          length-beyond b',' (c ∷ cs),
          length-drop 1 (beyond b',' (c ∷ cs)),
        )

    next :
        (r : CorsResult) (rest : Bytes)
        → r ≢ err out_of_fuel
        → ((p : CorsPolicy) → origins_from fuel rest p ≢ err out_of_fuel)
        → (r >>= origins_from fuel rest) ≢ err out_of_fuel
    next (err e) rest never later h2 = never h2
    next (ok p) rest never later h2 = later p h2

-- The loop always ends: its fuel, one more than the length of the list, is enough.
pub policy_init_ends :
    (reports allow_credentials : Bool) (csv : Bytes)
    → policy_init reports csv allow_credentials ≢ err out_of_fuel
unfolding policy_init
policy_init_ends false allow_credentials csv h = cc
policy_init_ends true allow_credentials csv h =
    origins_from_lem (suc (length csv)) csv
      (record { origins = []; allow_credentials = allow_credentials }) (omega arith) h
