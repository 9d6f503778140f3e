-- ===== src/Platform/Config/Origins.antt =====
-- What the validation of the configuration, src/platform/config.c, and the reading of the CORS
-- policy, src/http/cors.c, make of the same list of origins.
use platform_service.Common.{
  ℕ, zero, suc, ◌≤◌, ◌<◌, ◌≡◌, refl, sym, ap, ◌∙◌, ◌≢◌, ◌⊎◌, inl, inr, Bool, true, false, not, ◌&&◌,
  Option, [], ◌∷◌, arith, Bytes, codes, ◌==◌, if◌then◌else◌, Bool-cases, length, drop, equal,
}
use platform_service.Http.Request.Lines.{is_nil, upto, beyond, trim_right}
use platform_service.Http.Cors.{
  CorsPolicy, CorsResult, CorsError, ok, err, ◌>>=◌, wildcard_with_credentials, skip_separators,
  add_origin, origins_from, policy_init,
}
use platform_service.Platform.Config.{
  wildcard_from, contains_wildcard, refuse◌else◌, validate, config_load, text_at, bool_at,
}
use platform_service.Platform.Config.Values.{Config, ConfigResult}
use platform_service.Platform.Config.File.{ConfigFile}
use platform_service.Platform.Config.Secrets.{config_load-validated}

skip_separators_head :
    (text : Bytes) (c : ℕ) (cs : Bytes)
    → skip_separators text ≡ c ∷ cs
    → ((c == b',') ≡ false) × (length cs < length text)
unfolding skip_separators
skip_separators_head [] c cs h = cc
skip_separators_head (a ∷ xs) c cs h = ground (arith, skip_separators_head xs c cs)

beyond_shorter : (text : Bytes) → length (beyond b',' text) ≤ length text
unfolding beyond
beyond_shorter [] = omega arith
beyond_shorter (a ∷ xs) = ground (arith, beyond_shorter xs)

skip_beyond :
    (text : Bytes)
    → skip_separators (beyond b',' text) ≡ skip_separators (drop 1 (beyond b',' text))
unfolding beyond skip_separators
skip_beyond [] = refl
skip_beyond (a ∷ xs) = elim (Bool-cases (a == b',')) [
  | inl comma ↦ ground arith
  | inr other ↦ rw other (skip_beyond xs)
]

List-cases : (xs : Bytes) → (xs ≡ []) ⊎ ((c : ℕ) × (cs : Bytes) × (xs ≡ c ∷ cs))
List-cases [] = inl refl
List-cases (c ∷ cs) = inr (c, cs, refl)

>>=-err :
    (m : CorsResult) (f : CorsPolicy → CorsResult) (e : CorsError)
    → (m >>= f) ≡ err e
    → (m ≡ err e) ⊎ ((p : CorsPolicy) × (m ≡ ok p) × (f p ≡ err e))
>>=-err (ok p) f e h = inr (p, refl, h)
>>=-err (err d) f e h = inl h

abbrev one_origin : CorsPolicy → Bytes → CorsResult
one_origin policy value = if is_nil value then ok policy else add_origin policy value

one_origin_wild :
    (policy : CorsPolicy) (value : Bytes)
    → one_origin policy value ≡ err wildcard_with_credentials
    → (policy.allow_credentials ≡ true) × (equal value (codes "*") ≡ true)
unfolding add_origin
one_origin_wild policy value h = ground arith

one_origin_kept :
    (policy : CorsPolicy) (value : Bytes) (p : CorsPolicy)
    → one_origin policy value ≡ ok p
    → p.allow_credentials ≡ policy.allow_credentials
unfolding add_origin
one_origin_kept policy value p h = ground arith

-- The two loops agree on the origin that may not stand with credentials.
origins_wild :
    (fuel fuel' : ℕ) (left left' : Bytes) (policy : CorsPolicy)
    → skip_separators left' ≡ skip_separators left
    → length left' < fuel'
    → origins_from fuel left policy ≡ err wildcard_with_credentials
    → (policy.allow_credentials ≡ true) × (wildcard_from fuel' left' ≡ true)
unfolding origins_from wildcard_from beyond
origins_wild zero fuel' left left' policy same room h = cc
origins_wild (suc fuel) zero left left' policy same room h = absurd (omega arith)
origins_wild (suc fuel) (suc fuel') left left' policy same room h =
    elim (List-cases (skip_separators left)) [
      | inl e ↦
          let no : ok policy ≡ err wildcard_with_credentials = rw (e, origins_from) at h in
          absurd cc
      | inr (c, cs, e) ↦
          let value = trim_right (upto b',' (c ∷ cs)) in
          let rest = drop 1 (beyond b',' (c ∷ cs)) in
          let (plain, shorter) = skip_separators_head left' c cs (same ∙ e) in
          let behind : beyond b',' (c ∷ cs) ≡ beyond b',' cs = rw (plain, beyond) refl in
          let step : (one_origin policy value >>= origins_from fuel rest)
              ≡ err wildcard_with_credentials =
            rw (e, origins_from) at h in
          elim (>>=-err (one_origin policy value) (origins_from fuel rest) wildcard_with_credentials
            step) [
              | inl now ↦
                  let (allows, is_star) = one_origin_wild policy value now in
                  (allows, rw (same ∙ e, wildcard_from, is_star) refl)
              | inr (p, kept, later) ↦
                  let (allows, there) =
                    origins_wild fuel fuel' rest (beyond b',' (c ∷ cs)) p (skip_beyond (c ∷ cs))
                      (omega (arith, beyond_shorter cs, ap (λ (t : Bytes). length t) behind))
                      later in
                  (
                    sym (one_origin_kept policy value p kept) ∙ allows,
                    rw (same ∙ e, wildcard_from, there) (either (equal value (codes "*"))),
                  )
            ]
    ]
  where
    either : (b : Bool) → (if b then true else true) ≡ true
    either true = refl
    either false = refl

unguard : (b r : Bool) → (refuse b else r) ≡ true → r ≡ true
unfolding refuse◌else◌
unguard true r h = absurd cc
unguard false r h = h

validate_wild :
    (cfg : Config)
    → validate cfg ≡ true
    → bool_at cfg "cors.allow_credentials" ≡ true
    → contains_wildcard (text_at cfg "cors.allowed_origins") ≡ true
    → ⊥
unfolding validate
validate_wild cfg good allows there =
    let last : not (
          bool_at cfg "cors.allow_credentials"
          && contains_wildcard (text_at cfg "cors.allowed_origins"))
        ≡ true =
      unguard _ _ (
        unguard _ _ (
          unguard _ _ (
            unguard _ _
              (unguard _ _ (unguard _ _ (unguard _ _ (unguard _ _ (unguard _ _ good)))))))) in
    let no : false ≡ true = rw (allows, there) at last in absurd cc

-- A configuration that is accepted gives a list of origins that the CORS policy does not refuse for
-- a wildcard with credentials: the two readings of the list agree.
pub policy_init-config_load :
    (reports : Bool) (getenv : Bytes → Option Bytes) (file : ConfigFile) (cfg : Config)
    → config_load reports getenv file ≡ ConfigResult.ok cfg
    → policy_init true (text_at cfg "cors.allowed_origins") (bool_at cfg "cors.allow_credentials")
      ≢ err wildcard_with_credentials
unfolding policy_init contains_wildcard
policy_init-config_load reports getenv file cfg h refused =
    let origins = text_at cfg "cors.allowed_origins" in
    let (allows, there) =
      origins_wild (suc (length origins)) (suc (length origins)) origins origins
        (record { origins = []; allow_credentials = bool_at cfg "cors.allow_credentials" }) refl
        (omega arith) refused in
    validate_wild cfg (config_load-validated reports getenv file cfg h) allows there
