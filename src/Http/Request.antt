-- ===== src/Http/Request.antt =====
-- The request parser, src/http/request.c and request.h. A view into the buffer is the bytes that it
-- shows, and a position is the list that is left from it. The texts of the errors are left out.
pub mod Types
pub mod Lines
pub mod Head
pub mod Bounds
pub mod Stability
pub mod Noted
pub mod Delimiting
mod Tests
use platform_service.Common.{
  ℕ, zero, suc, ◌+◌, ◌-◌, ◌*◌, ◌/◌, ◌%◌, ◌^◌, ◌≤◌, ◌<◌, min, code, String, ◌≡◌, refl, sym, ap, ◌∙◌,
  subst, ◌≢◌, ◌↔◌, ◌⊎◌, inl, inr, Bool, true, false, not, ◌&&◌, ◌||◌, Option, none, some, List, [],
  ◌∷◌, ◌++◌, append_assoc, append-nil, arith, Bytes, codes, ltb, leb, ◌==◌, if◌then◌else◌, ltb→lt,
  lt→ltb, leb→le, ==_iff, tests, Bool-cases, Option-cases, length, get_elem?, set, length-append,
  length-set, get_elem?-set_self, get_elem?-set_ne, get_or, take, drop, replicate, take-append-drop,
  length-take, length-drop, length-replicate, length-map, equal, equal_iff,
}
use platform_service.Http.Request.Types.{
  ParseError, malformed, line_too_long, too_many_headers, headers_too_large, body_too_large,
  chunked_unsupported, content_length_invalid, Result, ok, err, ◌>>=◌, Header, Request, Limits,
  ParseResult, parsed, incomplete, failed, max_headers,
}
use platform_service.Http.Request.Lines.{
  crlf_from, find_crlf, blank_from, ci_equal, parse_nonneg_decimal, request_line, header_line,
}

-- What the loop over the headers keeps: the headers, and what they say of the body's length.
pub record Framing : Type 0 where
  pub headers : List Header
  pub content_length : Option ℕ
  pub transfer_encoding : Bool
  pub chunked : Bool

abbrev pub no_framing : Framing
no_framing = record {
  headers = [];
  content_length = none;
  transfer_encoding = false;
  chunked = false;
}

abbrev pub names : Header → String → Bool
names h name = ci_equal h.name (codes name)

-- A Content-Length header, of which there may be one.
set_content_length : Framing → Option ℕ → Option ℕ → Result Framing
set_content_length st (some _) v = err content_length_invalid
set_content_length st none none = err content_length_invalid
set_content_length st none (some v) = ok (record st { content_length = some v })

-- The guard against request smuggling: each header is looked at as it is parsed.
unfoldable pub frame_header : Framing → Header → Result Framing
unfolding set_content_length
frame_header st h =
    if names h "Content-Length"
    then set_content_length st st.content_length (parse_nonneg_decimal h.value)
    else if names h "Transfer-Encoding"
    then ok (record st {
      transfer_encoding = true;
      chunked = st.chunked || ci_equal h.value (codes "chunked");
    })
    else ok st

unfoldable pub add_header : Limits → Framing → Header → Result Framing
add_header limits st h =
    if leb max_headers (length st.headers) || leb limits.max_header_count (length st.headers)
    then err too_many_headers
    else frame_header (record st { headers = st.headers ++ h ∷ [] }) h

-- The loop over the lines of the header block.
unfoldable pub parse_headers : ℕ → Limits → Bytes → Framing → Result Framing
parse_headers zero limits block st = err malformed
parse_headers (suc fuel) limits [] st = ok st
parse_headers (suc fuel) limits (c ∷ cs) st = elim (crlf_from (c ∷ cs) 0) [
  | none ↦ err malformed
  | some k ↦
      (header_line (take k (c ∷ cs)) >>= add_header limits st)
      >>= parse_headers fuel limits (drop (k + 2) (c ∷ cs))
]

abbrev is_none : Option ℕ → Bool
is_none none = true
is_none (some _) = false

-- The body, behind the headers; `left` is the text from there on.
pub body : Limits → Bytes → ℕ → Request → Option ℕ → ParseResult
body limits left after req none = parsed req after
body limits left after req (some n) =
    if n == 0
    then parsed req after
    else if ltb limits.max_body_bytes n
    then failed body_too_large
    else if ltb (length left) n
    then incomplete
    else parsed (record req { body = some (take n left) }) (after + n)

pub framed : Limits → Bytes → ℕ → Request → Result Framing → ParseResult
unfolding body
framed limits left after req (err e) = failed e
framed limits left after req (ok st) =
    if not (is_none st.content_length) && st.transfer_encoding
    then failed content_length_invalid
    else if st.transfer_encoding
    then (if not st.chunked then failed malformed else failed chunked_unsupported)
    else body limits left after (record req { headers = st.headers }) st.content_length

-- The headers, with the index of the "\r\n\r\n" that ends them.
pub headers : Limits → Bytes → ℕ → Request → Option ℕ → ParseResult
unfolding framed
headers limits text start req none =
    if leb (start + limits.max_header_bytes + 2) (length text)
    then failed headers_too_large
    else incomplete
headers limits text start req (some end) =
    let block = drop start (take (end + 2) text) in
    framed limits (drop (end + 4) text) (end + 4) req
      (parse_headers (suc (length block)) limits block no_framing)

-- Behind the request line, whose "\r\n" stands at `line_end`.
pub after_line : Limits → Bytes → ℕ → Result Request → ParseResult
unfolding headers
after_line limits text line_end (err e) = failed e
after_line limits text line_end (ok req) =
    let start = line_end + 2 in
    let limit = min (start + limits.max_header_bytes + 2) (length text) in
    headers limits text start req (blank_from (drop line_end (take limit text)) line_end)

pub with_line : Limits → Bytes → Option ℕ → ParseResult
unfolding after_line
with_line limits text none =
    if leb limits.max_request_line_bytes (length text) then failed line_too_long else incomplete
with_line limits text (some line_end) =
    after_line limits text line_end (request_line (take line_end text))

-- `ps_http_request_parse`.
unfoldable pub parse : Limits → Bytes → ParseResult
unfolding with_line
parse limits text =
    with_line limits text (find_crlf text (min limits.max_request_line_bytes (length text)) 0)

-- `ps_http_request_header`.
unfoldable pub header_lookup : List Header → Bytes → Option Header
header_lookup [] name = none
header_lookup (h ∷ hs) name = if ci_equal h.name name then some h else header_lookup hs name
