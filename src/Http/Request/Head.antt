-- ===== src/Http/Request/Head.antt =====
-- What a request line that is accepted gives.
use platform_service.Common.{
  ◌≤◌, ◌≡◌, refl, ◌⊎◌, inl, inr, ◌||◌, none, [], arith, Bytes, codes, Bool-cases, drop, equal,
}
use platform_service.Http.Request.Types.{malformed, Result, ok, err, ◌>>=◌, Request}
use platform_service.Http.Request.Lines.{
  is_nil, scan_token, beyond, version, request_target, line_of, request_line,
}

version-cases : (t : Bytes) → (version t ≡ ok 1) ⊎ (version t ≡ ok 0) ⊎ (version t ≡ err malformed)
unfolding version
version-cases t = elim (Bool-cases (equal t (codes "HTTP/1.1"))) [
  | inl one ↦ inl (rw one refl)
  | inr other ↦ elim (Bool-cases (equal t (codes "HTTP/1.0"))) [
    | inl zero_ ↦ inr (inl (rw (other, zero_) refl))
    | inr neither ↦ inr (inr (rw (other, neither) refl))
  ]
]

-- A request line is refused, or gives a request with no headers and no body yet, a path that is not
-- empty and a version 1.0 or 1.1.
pub record IsFresh (req : Request) : Type 0 where
  pub no_headers : req.headers ≡ []
  pub no_body : req.body ≡ none
  pub version_known : req.minor_version ≤ 1

request_target-IsFresh :
    (method text : Bytes) (req : Request) → request_target method text ≡ ok req → IsFresh req
unfolding request_target
request_target-IsFresh method text req h =
    let v = drop 1 (beyond b' ' text) in
    elim (version-cases v) [
      | inl one ↦ ground arith
      | inr (inl zero_) ↦ ground arith
      | inr (inr neither) ↦ ground arith
    ]

pub request_line-IsFresh : (line : Bytes) (req : Request) → request_line line ≡ ok req → IsFresh req
unfolding request_line
request_line-IsFresh line req h = line_of-IsFresh (scan_token b' ' line) req h
  where
    line_of-IsFresh :
        (s : Result (Bytes × Bytes)) (req : Request) → (s >>= line_of) ≡ ok req → IsFresh req
    line_of-IsFresh (err e) req h = cc
    line_of-IsFresh (ok (method, rest)) req h = elim (Bool-cases (is_nil method || is_nil rest)) [
      | inl bad ↦ cc (rw bad at h)
      | inr good ↦ request_target-IsFresh method (drop 1 rest) req (rw good at h)
    ]
