-- ===== src/Http/Request/Stability.antt =====
-- More bytes behind a text do not change what was decided of it.
use platform_service.Common.{
  ℕ, zero, suc, ◌+◌, ◌≤◌, min, ◌≡◌, refl, ap, ◌≢◌, inl, inr, true, false, Option, none, some, [],
  ◌∷◌, ◌++◌, arith, Bytes, ltb, leb, ◌==◌, Bool-cases, Option-cases, length, length-append, take,
  drop, length-take, length-drop,
}
use platform_service.Http.Request.Types.{Result, ok, err, Request, Limits, incomplete}
use platform_service.Http.Request.Lines.{crlf_from, find_crlf, blank_from, request_line}
use platform_service.Http.Request.Bounds.{crlf_from_bounds, blank_from_bounds}
use platform_service.Http.Request.{
  Framing, no_framing, parse_headers, body, framed, headers, after_line, with_line, parse,
}

take-prefix : (n : ℕ) (xs ys : Bytes) → n ≤ length xs → take n (xs ++ ys) ≡ take n xs
take-prefix zero xs ys h = refl
take-prefix (suc n) [] ys h = absurd (omega arith)
take-prefix (suc n) (x ∷ xs) ys h = ap (λ (t : Bytes). x ∷ t) (take-prefix n xs ys (omega arith))

pub drop-prefix : (n : ℕ) (xs ys : Bytes) → n ≤ length xs → drop n (xs ++ ys) ≡ drop n xs ++ ys
drop-prefix zero xs ys h = refl
drop-prefix (suc n) [] ys h = absurd (omega arith)
drop-prefix (suc n) (x ∷ xs) ys h = drop-prefix n xs ys (omega arith)

-- A longer part of a longer text begins with the part.
take_longer :
    (n m : ℕ) (xs ys : Bytes)
    → n ≤ m
    → n ≤ length xs
    → (zs : Bytes) × (take m (xs ++ ys) ≡ take n xs ++ zs)
take_longer zero m xs ys le inside = (take m (xs ++ ys), refl)
take_longer (suc n) zero xs ys le inside = absurd (omega arith)
take_longer (suc n) (suc m) [] ys le inside = absurd (omega arith)
take_longer (suc n) (suc m) (x ∷ xs) ys le inside =
    let (zs, e) = take_longer n m xs ys (omega arith) (omega arith) in
    (zs, ap (λ (t : Bytes). x ∷ t) e)

crlf_from-append :
    (xs ys : Bytes) (i k : ℕ) → crlf_from xs i ≡ some k → crlf_from (xs ++ ys) i ≡ some k
unfolding crlf_from
crlf_from-append [] ys i k h = cc
crlf_from-append (a ∷ []) ys i k h = cc
crlf_from-append (a ∷ b ∷ cs) ys i k h = ground (arith, crlf_from-append (b ∷ cs) ys (i + 1) k)

blank_from-append :
    (xs ys : Bytes) (i k : ℕ) → blank_from xs i ≡ some k → blank_from (xs ++ ys) i ≡ some k
unfolding blank_from
blank_from-append [] ys i k h = cc
blank_from-append (a ∷ []) ys i k h = cc
blank_from-append (a ∷ b ∷ []) ys i k h = cc
blank_from-append (a ∷ b ∷ c ∷ []) ys i k h = cc
blank_from-append (a ∷ b ∷ c ∷ d ∷ cs) ys i k h =
    ground (arith, blank_from-append (b ∷ c ∷ d ∷ cs) ys (i + 1) k)

body_stable :
    (limits : Limits) (left more : Bytes) (after : ℕ) (req : Request) (o : Option ℕ)
    → body limits left after req o ≢ incomplete
    → body limits (left ++ more) after req o ≡ body limits left after req o
unfolding body
body_stable limits left more after req none h = refl
body_stable limits left more after req (some n) h = elim (Bool-cases (n == 0)) [
  | inl zero_ ↦ rw zero_ refl
  | inr pos ↦ elim (Bool-cases (ltb limits.max_body_bytes n)) [
    | inl large ↦ rw (pos, large) refl
    | inr fits ↦ elim (Bool-cases (ltb (length left) n)) [
      | inl short ↦ absurd (h (rw (pos, fits, short) refl))
      | inr whole ↦
          let long : ltb (length (left ++ more)) n ≡ false =
            ground (arith, length-append left more) in
          rw (pos, fits, whole, long, take-prefix n left more (ground arith)) refl
    ]
  ]
]

framed_stable :
    (limits : Limits) (left more : Bytes) (after : ℕ) (req : Request) (r : Result Framing)
    → framed limits left after req r ≢ incomplete
    → framed limits (left ++ more) after req r ≡ framed limits left after req r
unfolding framed
framed_stable limits left more after req (err e) h = refl
framed_stable limits left more after req (ok st) h = elim (Bool-cases st.transfer_encoding) [
  | inl te ↦ elim (Option-cases st.content_length) [
    | inl no_length ↦ rw (te, no_length) refl
    | inr (n, both) ↦ rw (te, both) refl
  ]
  | inr plain ↦ elim (Option-cases st.content_length) [
    | inl no_length ↦
        rw (plain, no_length)
          (body_stable limits left more after _ none (rw (plain, no_length) at h))
    | inr (n, some_length) ↦
        rw (plain, some_length)
          (body_stable limits left more after _ (some n) (rw (plain, some_length) at h))
  ]
]

headers_stable :
    (limits : Limits) (text more : Bytes) (start end : ℕ) (req : Request)
    → end + 4 ≤ length text
    → headers limits text start req (some end) ≢ incomplete
    → headers limits (text ++ more) start req (some end) ≡ headers limits text start req (some end)
unfolding headers
headers_stable limits text more start end req inside h =
    rw (take-prefix (end + 2) text more (omega arith), drop-prefix (end + 4) text more inside)
      (framed_stable limits (drop (end + 4) text) more (end + 4) req
        (parse_headers (suc (length (drop start (take (end + 2) text)))) limits
          (drop start (take (end + 2) text)) no_framing)
        h)

after_line_stable :
    (limits : Limits) (text more : Bytes) (line_end : ℕ) (r : Result Request)
    → line_end + 2 ≤ length text
    → after_line limits text line_end r ≢ incomplete
    → after_line limits (text ++ more) line_end r ≡ after_line limits text line_end r
unfolding after_line
after_line_stable limits text more line_end (err e) inside h = refl
after_line_stable limits text more line_end (ok req) inside h =
    let start = line_end + 2 in
    let region = start + limits.max_header_bytes + 2 in
    let limit = min region (length text) in
    let longer = min region (length (text ++ more)) in
    elim (Option-cases (blank_from (drop line_end (take limit text)) line_end)) [
      | inl absent ↦ elim (Bool-cases (leb region (length text))) [
        | inl large ↦
            let same : longer ≡ limit = ground (arith, length-append text more) in
            let still : leb region (length (text ++ more)) ≡ true =
              ground (arith, length-append text more) in
            rw (same, take-prefix limit text more (omega arith), absent, headers, large, still) refl
        | inr short ↦ absurd (h (rw (absent, headers, short) refl))
      ]
      | inr (end, found) ↦
          let (zs, begins) =
            take_longer limit longer text more (omega (arith, length-append text more))
              (omega arith) in
          let at =
            drop-prefix line_end (take limit text) zs (omega (arith, length-take limit text)) in
          let again = blank_from-append (drop line_end (take limit text)) zs line_end end found in
          let bounds = blank_from_bounds (drop line_end (take limit text)) line_end end found in
          rw (begins, at, again, found)
            (headers_stable limits text more start end req
              (omega
                (arith, bounds, length-drop line_end (take limit text), length-take limit text))
              (rw (found, after_line) at h))
    ]

-- Once a text is decided, complete or refused, more bytes behind it change nothing: the same request
-- with the same length, or the same error.
pub parse_stable :
    (limits : Limits) (text more : Bytes)
    → parse limits text ≢ incomplete
    → parse limits (text ++ more) ≡ parse limits text
unfolding parse with_line find_crlf
parse_stable limits text more h =
    let limit = min limits.max_request_line_bytes (length text) in
    let longer = min limits.max_request_line_bytes (length (text ++ more)) in
    elim (Option-cases (find_crlf text limit 0)) [
      | inl absent ↦ elim (Bool-cases (leb limits.max_request_line_bytes (length text))) [
        | inl long ↦
            let same : longer ≡ limit = ground (arith, length-append text more) in
            let still : leb limits.max_request_line_bytes (length (text ++ more)) ≡ true =
              ground (arith, length-append text more) in
            rw (same, take-prefix limit text more (omega arith), absent, with_line, long, still)
              refl
        | inr short ↦ absurd (h (rw (absent, with_line, short) refl))
      ]
      | inr (line_end, found) ↦
          let (zs, begins) =
            take_longer limit longer text more (omega (arith, length-append text more))
              (omega arith) in
          let again = crlf_from-append (take limit text) zs 0 line_end found in
          let bounds = crlf_from_bounds (take limit text) 0 line_end found in
          let inside : line_end + 2 ≤ length text = omega (arith, bounds, length-take limit text) in
          rw (begins, again, found, take-prefix line_end text more (omega arith))
            (after_line_stable limits text more line_end (request_line (take line_end text)) inside
              (rw (found, parse) at h))
    ]
