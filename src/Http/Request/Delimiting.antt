-- ===== src/Http/Request/Delimiting.antt =====
-- What delimits the body of a request, against request smuggling.
use platform_service.Http.Request.Head.{request_line-IsFresh}
use platform_service.Common.{
  ℕ, suc, ◌+◌, min, ◌≡◌, refl, ◌∙◌, inl, inr, false, Option, none, some, List, [], ◌∷◌, arith,
  Bytes, ltb, leb, ◌==◌, Bool-cases, Option-cases, length, take, drop, length-take,
}
use platform_service.Http.Request.Types.{
  Result, ok, err, Request, Limits, ParseResult, parsed, incomplete, failed,
}
use platform_service.Http.Request.Lines.{find_crlf, blank_from, request_line}
use platform_service.Http.Request.{
  Framing, no_framing, parse_headers, body, framed, headers, after_line, with_line, parse,
}
use platform_service.Http.Request.Noted.{mentions, lengths, listed, IsNoted, parse_headers-IsNoted}

-- How the Content-Length headers and the body of a complete request fit: no such header and no body,
-- or one, a number, and so many bytes of a body; a zero gives none.
abbrev pub Delimits : List (Option ℕ) → Option Bytes → Type 0
Delimits [] b = b ≡ none
Delimits (none ∷ _) b = ⊥
Delimits (some n ∷ _ ∷ _) b = ⊥
Delimits (some n ∷ []) none = n ≡ 0
Delimits (some n ∷ []) (some b) = length b ≡ n

abbrev pub IsDelimited : ParseResult → Type 0
IsDelimited (parsed req n) =
    (mentions "Transfer-Encoding" req.headers ≡ false) × Delimits (lengths req.headers) req.body
IsDelimited incomplete = Unit {0}
IsDelimited (failed e) = Unit {0}

body-IsDelimited :
    (limits : Limits) (left : Bytes) (after : ℕ) (req : Request) (o : Option ℕ)
    → mentions "Transfer-Encoding" req.headers ≡ false
    → lengths req.headers ≡ listed o
    → req.body ≡ none
    → IsDelimited (body limits left after req o)
unfolding body
body-IsDelimited limits left after req none coded sized nobody = (coded, rw (sized) nobody)
body-IsDelimited limits left after req (some n) coded sized nobody = elim (Bool-cases (n == 0)) [
  | inl zero_ ↦ rw (zero_, sized, nobody) (coded, ground arith)
  | inr pos ↦ elim (Bool-cases (ltb limits.max_body_bytes n)) [
    | inl large ↦ rw (pos, large) tt
    | inr fits ↦ elim (Bool-cases (ltb (length left) n)) [
      | inl short ↦ rw (pos, fits, short) tt
      | inr whole ↦ rw (pos, fits, whole, sized) (coded, ground (arith, length-take n left))
    ]
  ]
]

framed-IsDelimited :
    (limits : Limits) (left : Bytes) (after : ℕ) (req : Request) (r : Result Framing)
    → ((st : Framing) → r ≡ ok st → IsNoted st st.headers)
    → req.body ≡ none
    → IsDelimited (framed limits left after req r)
unfolding framed
framed-IsDelimited limits left after req (err e) noted nobody = tt
framed-IsDelimited limits left after req (ok st) noted nobody =
    elim (Bool-cases st.transfer_encoding) [
      | inl te ↦ elim (Option-cases st.content_length) [
        | inl no_length ↦ elim (Bool-cases st.chunked) [
          | inl chunked ↦ rw (te, no_length, chunked) tt
          | inr other ↦ rw (te, no_length, other) tt
        ]
        | inr (n, both) ↦ rw (te, both) tt
      ]
      | inr plain ↦
          let inside =
            body-IsDelimited limits left after (record req { headers = st.headers })
              st.content_length ((noted st refl).coded ∙ plain) (noted st refl).sized nobody in
          elim (Option-cases st.content_length) [
            | inl no_length ↦ rw (plain, no_length) (rw no_length at inside)
            | inr (n, some_length) ↦ rw (plain, some_length) (rw some_length at inside)
          ]
    ]

-- A complete request has no Transfer-Encoding header. Its Content-Length headers are none, and it has
-- no body; or one, whose value is a number, and the body has so many bytes, with none for a zero.
pub parse-IsDelimited : (limits : Limits) (text : Bytes) → IsDelimited (parse limits text)
unfolding parse with_line after_line headers mentions lengths
parse-IsDelimited limits text =
    behind (find_crlf text (min limits.max_request_line_bytes (length text)) 0)
  where
    framed_ :
        (req : Request) (start end : ℕ)
        → req.body ≡ none
        → IsDelimited (headers limits text start req (some end))
    framed_ req start end nobody =
        let block = drop start (take (end + 2) text) in
        framed-IsDelimited limits (drop (end + 4) text) (end + 4) req
          (parse_headers (suc (length block)) limits block no_framing)
          (λ st e.
            parse_headers-IsNoted (suc (length block)) limits block no_framing st
              (record { coded = refl; sized = refl }) e)
          nobody

    ended :
        (req : Request) (start : ℕ) (o : Option ℕ)
        → req.body ≡ none
        → IsDelimited (headers limits text start req o)
    ended req start (some end) nobody = framed_ req start end nobody
    ended req start none nobody =
        elim (Bool-cases (leb (start + limits.max_header_bytes + 2) (length text))) [
          | inl large ↦ rw large tt
          | inr short ↦ rw short tt
        ]

    lined :
        (line_end : ℕ) (r : Result Request)
        → ((req : Request) → r ≡ ok req → req.body ≡ none)
        → IsDelimited (after_line limits text line_end r)
    lined line_end (err e) nobody = tt
    lined line_end (ok req) nobody =
        ended req (line_end + 2)
          (blank_from
            (drop line_end
              (take (min (line_end + 2 + limits.max_header_bytes + 2) (length text)) text))
            line_end)
          (nobody req refl)

    behind : (o : Option ℕ) → IsDelimited (with_line limits text o)
    behind (some line_end) =
        lined line_end (request_line (take line_end text))
          (λ req e. (request_line-IsFresh (take line_end text) req e).no_body)
    behind none = elim (Bool-cases (leb limits.max_request_line_bytes (length text))) [
      | inl long ↦ rw long tt
      | inr short ↦ rw short tt
    ]
