-- ===== src/Http/Request/Bounds.antt =====
-- How much the parser ever asks for, and how much of the text it takes.
use platform_service.Http.Request.Head.{request_line-IsFresh}
use platform_service.Common.{
  ℕ, suc, ◌+◌, ◌≤◌, ◌<◌, min, ◌≡◌, refl, inl, inr, Option, none, some, [], ◌∷◌, arith, Bytes, ltb,
  leb, ◌==◌, Bool-cases, Option-cases, length, take, drop, length-take, length-drop,
}
use platform_service.Http.Request.Types.{
  Result, ok, err, Request, Limits, ParseResult, parsed, incomplete, failed,
}
use platform_service.Http.Request.Lines.{crlf_from, find_crlf, blank_from, request_line}
use platform_service.Http.Request.{
  Framing, no_framing, parse_headers, body, framed, headers, after_line, with_line, parse,
}

pub crlf_from_bounds :
    (xs : Bytes) (i k : ℕ) → crlf_from xs i ≡ some k → (i ≤ k) × (k + 2 ≤ i + length xs)
unfolding crlf_from
crlf_from_bounds [] i k h = cc
crlf_from_bounds (a ∷ []) i k h = cc
crlf_from_bounds (a ∷ b ∷ cs) i k h = ground (arith, crlf_from_bounds (b ∷ cs) (i + 1) k)

pub blank_from_bounds :
    (xs : Bytes) (i k : ℕ) → blank_from xs i ≡ some k → (i ≤ k) × (k + 4 ≤ i + length xs)
unfolding blank_from
blank_from_bounds [] i k h = cc
blank_from_bounds (a ∷ []) i k h = cc
blank_from_bounds (a ∷ b ∷ []) i k h = cc
blank_from_bounds (a ∷ b ∷ c ∷ []) i k h = cc
blank_from_bounds (a ∷ b ∷ c ∷ d ∷ cs) i k h =
    ground (arith, blank_from_bounds (b ∷ c ∷ d ∷ cs) (i + 1) k)

abbrev body_length : Option Bytes → ℕ
body_length none = 0
body_length (some b) = length b

-- What holds of a verdict: a complete request lies in the text and its body is within the limit; and
-- more bytes are only asked for below this bound on the text.
abbrev pub InBounds : Limits → Bytes → ℕ → ParseResult → Type 0
InBounds limits text most (parsed req n) =
    (n ≤ length text) × (n ≤ most) × (body_length req.body ≤ limits.max_body_bytes)
InBounds limits text most incomplete = length text < most
InBounds limits text most (failed e) = Unit {0}

body-InBounds :
    (limits : Limits) (text left : Bytes) (after most : ℕ) (req : Request) (o : Option ℕ)
    → length text ≡ after + length left
    → after + limits.max_body_bytes ≤ most
    → req.body ≡ none
    → InBounds limits text most (body limits left after req o)
unfolding body
body-InBounds limits text left after most req none e room nobody =
    (omega arith, omega arith, ground (arith, nobody))
body-InBounds limits text left after most req (some n) e room nobody = elim (Bool-cases (n == 0)) [
  | inl zero_ ↦ rw zero_ (omega arith, omega arith, ground (arith, nobody))
  | inr pos ↦ elim (Bool-cases (ltb limits.max_body_bytes n)) [
    | inl large ↦ rw (pos, large) tt
    | inr fits ↦ elim (Bool-cases (ltb (length left) n)) [
      | inl short ↦ rw (pos, fits, short) (ground arith)
      | inr whole ↦
          rw (pos, fits, whole) (ground arith, ground arith, ground (arith, length-take n left))
    ]
  ]
]

framed-InBounds :
    (limits : Limits) (text left : Bytes) (after most : ℕ) (req : Request) (r : Result Framing)
    → length text ≡ after + length left
    → after + limits.max_body_bytes ≤ most
    → req.body ≡ none
    → InBounds limits text most (framed limits left after req r)
unfolding framed
framed-InBounds limits text left after most req (err e) len room nobody = tt
framed-InBounds limits text left after most req (ok st) len room nobody =
    let inside =
      body-InBounds limits text left after most (record req { headers = st.headers })
        st.content_length len room nobody in
    elim (Bool-cases st.transfer_encoding) [
      | inl te ↦ elim (Option-cases st.content_length) [
        | inl no_length ↦ elim (Bool-cases st.chunked) [
          | inl chunked ↦ rw (te, no_length, chunked) tt
          | inr other ↦ rw (te, no_length, other) tt
        ]
        | inr (n, both) ↦ rw (te, both) tt
      ]
      | inr plain ↦ elim (Option-cases st.content_length) [
        | inl no_length ↦ rw (plain, no_length) (rw no_length at inside)
        | inr (n, some_length) ↦ rw (plain, some_length) (rw some_length at inside)
      ]
    ]

headers-InBounds :
    (limits : Limits) (text : Bytes) (start most : ℕ) (req : Request) (o : Option ℕ)
    → ((end : ℕ)
        → o ≡ some end
        → (end + 4 ≤ length text) × (end + 2 ≤ start + limits.max_header_bytes))
    → start + limits.max_header_bytes + 2 + limits.max_body_bytes ≤ most
    → req.body ≡ none
    → InBounds limits text most (headers limits text start req o)
unfolding headers
headers-InBounds limits text start most req none found room nobody =
    elim (Bool-cases (leb (start + limits.max_header_bytes + 2) (length text))) [
      | inl large ↦ rw large tt
      | inr short ↦ rw short (ground arith)
    ]
headers-InBounds limits text start most req (some end) found room nobody =
    let at = found end refl in
    framed-InBounds limits text (drop (end + 4) text) (end + 4) most req
      (parse_headers (suc (length (drop start (take (end + 2) text)))) limits
        (drop start (take (end + 2) text)) no_framing)
      (omega (arith, length-drop (end + 4) text)) (omega arith) nobody

after_line-InBounds :
    (limits : Limits) (text : Bytes) (line_end most : ℕ) (r : Result Request)
    → line_end + 2 ≤ length text
    → line_end + 2 + limits.max_header_bytes + 2 + limits.max_body_bytes ≤ most
    → ((req : Request) → r ≡ ok req → req.body ≡ none)
    → InBounds limits text most (after_line limits text line_end r)
unfolding after_line
after_line-InBounds limits text line_end most (err e) inside room nobody = tt
after_line-InBounds limits text line_end most (ok req) inside room nobody =
    let limit = min (line_end + 2 + limits.max_header_bytes + 2) (length text) in
    headers-InBounds limits text (line_end + 2) most req
      (blank_from (drop line_end (take limit text)) line_end)
      (λ end e. omega (
        arith,
        blank_from_bounds (drop line_end (take limit text)) line_end end e,
        length-drop line_end (take limit text),
        length-take limit text,
      ))
      room (nobody req refl)

-- A complete request lies in the text, and its body is within the limit. The parser asks for more
-- bytes only while the text is shorter than the limits together and two bytes.
pub parse-InBounds :
    (limits : Limits) (text : Bytes)
    → InBounds limits text
        (limits.max_request_line_bytes + limits.max_header_bytes + 2 + limits.max_body_bytes)
        (parse limits text)
unfolding parse with_line find_crlf
parse-InBounds limits text =
    let limit = min limits.max_request_line_bytes (length text) in
    elim (Option-cases (find_crlf text limit 0)) [
      | inl missing ↦ rw missing (missing_line limits text)
      | inr (line_end, found) ↦
          let at = crlf_from_bounds (take limit text) 0 line_end found in
          rw found (
            after_line-InBounds limits text line_end _ (request_line (take line_end text))
              (omega (arith, at, length-take limit text))
              (omega (arith, at, length-take limit text))
              (λ req e. (request_line-IsFresh (take line_end text) req e).no_body))
    ]
  where
    missing_line :
        (limits : Limits) (text : Bytes)
        → InBounds limits text
            (limits.max_request_line_bytes + limits.max_header_bytes + 2 + limits.max_body_bytes)
            (with_line limits text none)
    missing_line limits text = elim (Bool-cases (leb limits.max_request_line_bytes (length text))) [
      | inl long ↦ rw long tt
      | inr short ↦ rw short (ground arith)
    ]
