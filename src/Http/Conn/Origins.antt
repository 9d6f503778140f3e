-- ===== src/Http/Conn/Origins.antt =====
-- Which origins the responses of the connection loop, src/http/conn.c, let in.
use platform_service.Common.{
  ◌-◌, ◌≡◌, refl, inl, inr, Bool, true, Option, none, some, Bytes, codes, Bool-cases, take,
}
use platform_service.Http.Request.Types.{Header, Request}
use platform_service.Http.Request.{header_lookup}
use platform_service.Http.Cors.{CorsPolicy, enabled, origin_allowed}
use platform_service.Http.Response.{Response}
use platform_service.Http.Conn.{with_origin, apply_cors}
use platform_service.Http.Conn.Types.{Setup, origin_size}

-- What a response that names an origin rests on.
pub record LetsIn {F S : Type 0} (setup : Setup F S) (req : Request) (is_preflight : Bool)
    (resp : Response F) (named : Bytes) : Type 0 where
  pub policy : CorsPolicy
  pub header : Header
  pub configured : setup.cors ≡ some policy
  pub sent : header_lookup req.headers (codes "Origin") ≡ some header
  pub allowed : origin_allowed setup.cors (some header.value) ≡ true
  pub echoed : named ≡ take (origin_size - 1) header.value
  pub credentials : resp.cors_allow_credentials ≡ policy.allow_credentials

module _ {F S : Type 0} (setup : Setup F S) where
  with_origin-LetsIn :
      (req : Request) (is_preflight : Bool) (resp : Response F) (named : Bytes)
      (policy : Option CorsPolicy) (origin : Option Header)
      → setup.cors ≡ policy
      → header_lookup req.headers (codes "Origin") ≡ origin
      → resp.cors_origin ≡ none
      → (with_origin is_preflight policy origin resp).cors_origin ≡ some named
      → LetsIn setup req is_preflight (with_origin is_preflight policy origin resp) named
  unfolding with_origin
  with_origin-LetsIn req is_preflight resp named none origin e g fresh h = absurd cc
  with_origin-LetsIn req is_preflight resp named (some policy) none e g fresh h = absurd cc
  with_origin-LetsIn req is_preflight resp named (some policy) (some origin) e g fresh h =
      elim (Bool-cases (origin_allowed (some policy) (some origin.value))) [
        | inl allowed ↦
            let same : some (take (origin_size - 1) origin.value) ≡ some named = rw allowed at h in
            rw allowed (record {
              policy = policy;
              header = origin;
              configured = e;
              sent = g;
              allowed = rw e allowed;
              echoed = cc same;
              credentials = refl;
            })
        | inr refused ↦ let same : resp.cors_origin ≡ some named = rw refused at h in absurd cc
      ]

  -- A response names an origin only if the policy allows the request's, which it echoes in at most
  -- 255 bytes, and it allows credentials only as the policy does.
  pub apply_cors-LetsIn :
      (req : Request) (is_preflight : Bool) (resp : Response F) (named : Bytes)
      → resp.cors_origin ≡ none
      → (apply_cors setup req is_preflight resp).cors_origin ≡ some named
      → LetsIn setup req is_preflight (apply_cors setup req is_preflight resp) named
  unfolding apply_cors
  apply_cors-LetsIn req is_preflight resp named fresh h = elim (Bool-cases (enabled setup.cors)) [
    | inl on ↦ rw on (
        with_origin-LetsIn req is_preflight resp named setup.cors
          (header_lookup req.headers (codes "Origin")) refl refl fresh (rw on at h))
    | inr off ↦ let same : resp.cors_origin ≡ some named = rw off at h in absurd cc
  ]
