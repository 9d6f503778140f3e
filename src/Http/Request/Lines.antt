-- ===== src/Http/Request/Lines.antt =====
-- The parts of a line, src/http/request.c: characters, searches, the request line, a header line.
use platform_service.Common.{
  ℕ, ◌+◌, ◌-◌, ◌*◌, Bool, true, false, not, ◌&&◌, ◌||◌, Option, none, some, [], ◌∷◌, Bytes, codes,
  ltb, leb, ◌==◌, if◌then◌else◌, length, take, drop, equal,
}
use platform_service.Http.Request.Types.{malformed, Result, ok, err, ◌>>=◌, Header, Request}

abbrev within : ℕ → ℕ → ℕ → Bool
within lo hi c = leb lo c && leb c hi

abbrev one_of : Bytes → ℕ → Bool
one_of [] c = false
one_of (x ∷ xs) c = c == x || one_of xs c

unfoldable pub is_tchar : ℕ → Bool
is_tchar c =
    one_of (codes "!#$%&'*+-.^_`|~") c
    || within b'0' b'9' c
    || within b'A' b'Z' c
    || within b'a' b'z' c

abbrev pub is_sp_or_htab : ℕ → Bool
is_sp_or_htab c = c == b' ' || c == b'\t'

-- The index of the first "\r\n", from `i` on.
unfoldable pub crlf_from : Bytes → ℕ → Option ℕ
crlf_from [] i = none
crlf_from (a ∷ []) i = none
crlf_from (a ∷ b ∷ cs) i =
    let later = crlf_from (b ∷ cs) (i + 1) in if a == 13 && b == 10 then some i else later

-- `find_crlf`; `none` is -1.
unfoldable pub find_crlf : Bytes → ℕ → ℕ → Option ℕ
unfolding crlf_from
find_crlf text limit start = crlf_from (drop start (take limit text)) start

-- The index of the first "\r\n\r\n", from `i` on.
unfoldable pub blank_from : Bytes → ℕ → Option ℕ
blank_from (a ∷ b ∷ c ∷ d ∷ cs) i =
    let later = blank_from (b ∷ c ∷ d ∷ cs) (i + 1) in
    if a == 13 && b == 10 && c == 13 && d == 10 then some i else later
blank_from (a ∷ b ∷ c ∷ []) i = none
blank_from (a ∷ b ∷ []) i = none
blank_from (a ∷ []) i = none
blank_from [] i = none

-- `tolower` of the C locale.
abbrev pub lower : ℕ → ℕ
lower c = if within b'A' b'Z' c then c + 32 else c

unfoldable pub ci_equal : Bytes → Bytes → Bool
ci_equal [] [] = true
ci_equal (a ∷ xs) (b ∷ ys) = lower a == lower b && ci_equal xs ys
ci_equal _ _ = false

unfoldable pub decimal_from : ℕ → Bytes → Option ℕ
decimal_from val [] = some val
decimal_from val (c ∷ cs) =
    let rest = decimal_from (val * 10 + (c - b'0')) cs in if within b'0' b'9' c then rest else none

-- `parse_nonneg_decimal`: 18 digits fit a 64-bit `long`.
unfoldable pub parse_nonneg_decimal : Bytes → Option ℕ
unfolding decimal_from
parse_nonneg_decimal s = if length s == 0 || ltb 18 (length s) then none else decimal_from 0 s

-- A token up to the byte `stop` or the end of the line, and what stands from there on; an error if a
-- byte before is no token character.
unfoldable pub scan_token : ℕ → Bytes → Result (Bytes × Bytes)
scan_token stop [] = ok ([], [])
scan_token stop (c ∷ cs) =
    let rest = scan_token stop cs >>= (λ r. ok (c ∷ r.0, r.1)) in
    if c == stop then ok ([], c ∷ cs) else if not (is_tchar c) then err malformed else rest

-- The bytes up to `stop` or the end, and what stands from there on.
unfoldable pub upto : ℕ → Bytes → Bytes
upto stop [] = []
upto stop (c ∷ cs) = if c == stop then [] else c ∷ upto stop cs

unfoldable pub beyond : ℕ → Bytes → Bytes
beyond stop [] = []
beyond stop (c ∷ cs) = let later = beyond stop cs in if c == stop then c ∷ cs else later

abbrev pub is_nil : Bytes → Bool
is_nil [] = true
is_nil (_ ∷ _) = false

abbrev starts_with : ℕ → Bytes → Bool
starts_with b [] = false
starts_with b (c ∷ _) = c == b

unfoldable pub version : Bytes → Result ℕ
version text =
    if equal text (codes "HTTP/1.1")
    then ok 1
    else if equal text (codes "HTTP/1.0")
    then ok 0
    else err malformed

-- The query behind a '?', if there is one.
abbrev pub query_of : Bytes → Option Bytes
query_of [] = none
query_of (_ ∷ cs) = some cs

-- Behind the method and its space.
unfoldable pub request_target : Bytes → Bytes → Result Request
unfolding version
request_target method text =
    let target = upto b' ' text in
    let rest = beyond b' ' text in
    if is_nil target || is_nil rest
    then err malformed
    else if not (starts_with b'/' target)
    then err malformed
    else version (drop 1 rest) >>= (λ minor. ok (record {
      method = method;
      path = upto b'?' target;
      query = query_of (beyond b'?' target);
      minor_version = minor;
      headers = [];
      body = none;
    }))

unfoldable pub line_of : Bytes × Bytes → Result Request
unfolding request_target
line_of (method, rest) =
    if is_nil method || is_nil rest then err malformed else request_target method (drop 1 rest)

-- The request line, without its "\r\n".
unfoldable pub request_line : Bytes → Result Request
unfolding line_of
request_line line = scan_token b' ' line >>= line_of

unfoldable pub trim_left : Bytes → Bytes
trim_left [] = []
trim_left (c ∷ cs) = let rest = trim_left cs in if is_sp_or_htab c then rest else c ∷ cs

unfoldable pub trim_right : Bytes → Bytes
trim_right [] = []
trim_right (c ∷ cs) =
    let rest = trim_right cs in if is_nil rest && is_sp_or_htab c then [] else c ∷ rest

abbrev is_folded : Bytes → Bool
is_folded [] = false
is_folded (c ∷ _) = is_sp_or_htab c

-- A name, and what stands from the ':' on.
header_of : Bytes × Bytes → Result Header
header_of (name, rest) =
    if is_nil name || is_nil rest
    then err malformed
    else ok (record { name = name; value = trim_right (trim_left (drop 1 rest)) })

-- A header line, without its "\r\n".
unfoldable pub header_line : Bytes → Result Header
unfolding header_of
header_line line = if is_folded line then err malformed else (scan_token b':' line >>= header_of)
