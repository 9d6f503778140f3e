-- ===== src/Http/Request/Tests.antt =====
-- Runs of the request parser, and instances of its theorems.
use platform_service.Common.{◌≡◌, ◌++◌, refl, some, [], ◌∷◌, Bytes, codes, length, take, equal}
use platform_service.Http.Request.Types.{
  malformed, content_length_invalid, chunked_unsupported, Header, Limits, parsed, incomplete,
  failed,
}
use platform_service.Http.Request.Lines.{
  find_crlf, blank_from, ci_equal, is_tchar, parse_nonneg_decimal, scan_token, upto, beyond,
  request_line, trim_left, trim_right, header_line,
}
use platform_service.Http.Request.{parse, parse_headers, add_header, frame_header, header_lookup}
use platform_service.Http.Request.Stability.{parse_stable}
use platform_service.Http.Request.Bounds.{InBounds, parse-InBounds}
use platform_service.Http.Request.Delimiting.{IsDelimited, parse-IsDelimited}

abbrev small : Limits
small = record {
  max_request_line_bytes = 40;
  max_header_bytes = 80;
  max_header_count = 4;
  max_body_bytes = 8;
}

abbrev post : Bytes
post = codes "POST /a?b HTTP/1.1\r\nHost: x\r\nContent-Length: 2\r\n\r\nhi"

abbrev host : Header
host = record { name = codes "Host"; value = codes "x" }

abbrev two_bytes : Header
two_bytes = record { name = codes "Content-Length"; value = codes "2" }

runs :
    (parse small post
      ≡ parsed
          (record {
            method = codes "POST";
            path = codes "/a";
            query = some (codes "b");
            minor_version = 1;
            headers = host ∷ two_bytes ∷ [];
            body = some (codes "hi");
          })
          (length post))
    × (parse small (take 50 post) ≡ incomplete)
    × (parse small (codes "GET / HTTP/1.1\r\n Host: x\r\n\r\n") ≡ failed malformed)
    × (parse small (codes "GET / HTTP/1.1\r\nContent-Length: 2\r\nContent-Length: 2\r\n\r\nhi")
        ≡ failed content_length_invalid)
    × (parse small (codes "GET / HTTP/1.1\r\nTransfer-Encoding: chunked\r\n\r\n")
        ≡ failed chunked_unsupported)
unfolding parse find_crlf request_line scan_token is_tchar upto beyond equal blank_from
    parse_headers header_line add_header frame_header ci_equal parse_nonneg_decimal trim_right
    trim_left
runs = (refl, refl, refl, refl, refl)

parse-InBounds_example : InBounds small post 130 (parse small post)
parse-InBounds_example = parse-InBounds small post

parse-IsDelimited_example : IsDelimited (parse small post)
parse-IsDelimited_example = parse-IsDelimited small post

finds_header : header_lookup (host ∷ two_bytes ∷ []) (codes "content-length") ≡ some two_bytes
unfolding ci_equal header_lookup
finds_header = refl

parse_stable_example : parse small (post ++ codes "GET") ≡ parse small post
parse_stable_example = parse_stable small post (codes "GET") (λ e. cc (runs.0, e))
