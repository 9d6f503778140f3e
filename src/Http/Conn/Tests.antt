-- ===== src/Http/Conn/Tests.antt =====
-- Runs of the connection loop, and instances of its theorems.
use platform_service.Common.{
  ℕ, zero, suc, arith, length-replicate, replicate, ◌+◌, ◌≡◌, ◌++◌, refl, true, false, none, some,
  List, [], ◌∷◌, Bytes, codes, take, drop, equal,
}
use platform_service.Json.Writer.{Doubles}
use platform_service.Http.Request.Types.{Request}
use platform_service.Http.Router.{Router, router_match, match_path}
use platform_service.Http.Request.{header_lookup, parse, parse_headers}
use platform_service.Http.Request.Lines.{
  ci_equal, find_crlf, request_line, scan_token, is_tchar, upto, beyond, blank_from,
}
use platform_service.Http.Response.{response_write}
use platform_service.Api.Routes.Decimal.{printed}
use platform_service.Http.Cors.{CorsPolicy, enabled, origin_allowed, among}
use platform_service.Http.Conn.{conn_handle, plain, apply_cors, with_origin}
use platform_service.Http.Conn.Types.{
  ConnLimits, ReadOutcome, Setup, Served, received, zero_return, timed_out, part, closed_error,
}
use platform_service.Http.Conn.Origins.{LetsIn, apply_cors-LetsIn}
use platform_service.Http.Conn.Chunks.{arriving, joined, conn_handle-joined}
use platform_service.Http.Conn.Rounds.Ends.{AllArrive, most_bytes}
use platform_service.Http.Conn.Rounds.{IsOrderly, conn_handle-Orderly}

abbrev digits : Doubles ℕ
digits = record { strtod = λ s. none; is_finite = λ n. true; format = λ n. (48 + n) ∷ [] }

abbrev limits : ConnLimits
limits = record {
  read_timeout_s = 10;
  write_timeout_s = 10;
  keepalive_max_requests = 3;
  http_limits = record {
    max_request_line_bytes = 40;
    max_header_bytes = 80;
    max_header_count = 4;
    max_body_bytes = 8;
  };
}

abbrev routes : Router
routes = (record { method = codes "GET"; pattern = codes "/"; route_id = 1 }) ∷ []

abbrev two_origins : CorsPolicy
two_origins = record {
  origins = codes "https://a" ∷ codes "https://b" ∷ [];
  allow_credentials = true;
}

-- The application counts its calls.
abbrev setup : Setup ℕ ℕ
setup = record {
  doubles = digits;
  limits = limits;
  router = routes;
  dispatch = λ route_id req params calls.
      (calls + 1, record { status = 200; body = none; no_store = false });
  cors = some two_origins;
  falls_short = λ n. none;
}

abbrev get : Bytes
get = codes "GET / HTTP/1.1\r\n\r\n"

abbrev whole : List Bytes
whole = (get ++ get) ∷ []

abbrev cut : List Bytes
cut = take 5 get ∷ (drop 5 get ++ take 1 get) ∷ drop 1 get ∷ []

same_bytes : joined whole ≡ joined cut
unfolding joined
same_bytes = refl

conn_handle-joined_example :
    conn_handle setup true true 0 (arriving whole (zero_return ∷ []))
    ≡ conn_handle setup true true 0 (arriving cut (zero_return ∷ []))
conn_handle-joined_example =
    conn_handle-joined setup true true 0 whole cut (zero_return ∷ []) same_bytes

-- Two requests, a close, and as many outcomes more as the bound asks for.
abbrev outcomes : List ReadOutcome
outcomes = received (get ++ get) ∷ zero_return ∷ replicate 388 timed_out

replicate-AllArrive : (n : ℕ) → AllArrive (replicate n timed_out)
replicate-AllArrive zero = tt
replicate-AllArrive (suc n) = replicate-AllArrive n

conn_handle-Orderly_example :
    (served : Served ℕ) × (conn_handle setup true true 0 (outcomes ++ []) ≡ some served)
    × (conn_handle setup true true 0 (outcomes ++ received get ∷ []) ≡ some served)
    × IsOrderly 3 served
unfolding most_bytes
conn_handle-Orderly_example =
    conn_handle-Orderly setup 0 outcomes [] (received get ∷ [])
      (omega arith, replicate-AllArrive 388) (omega (arith, length-replicate 388 timed_out))

-- A response of which three bytes go out is recorded as that.
in_part :
    conn_handle (record setup { falls_short = λ n. some 3 }) true true 0 (received get ∷ [])
    ≡ some
        (record { app = 1; completed = 0; sent = part (codes "HTT") ∷ []; reason = closed_error })
unfolding conn_handle parse find_crlf request_line scan_token is_tchar upto beyond equal blank_from
    parse_headers router_match match_path response_write enabled header_lookup printed
in_part = refl

abbrev from_b : Request
from_b = record {
  method = codes "GET";
  path = codes "/";
  query = none;
  minor_version = 1;
  headers = (record { name = codes "Origin"; value = codes "https://b" }) ∷ [];
  body = none;
}

names_b :
    (apply_cors setup from_b true (plain 204 true false none)).cors_origin
    ≡ some (codes "https://b")
unfolding plain enabled apply_cors header_lookup ci_equal origin_allowed among equal with_origin
names_b = refl

apply_cors-LetsIn_example :
    LetsIn setup from_b true
      (apply_cors setup from_b true (plain 204 true false none))
      (codes "https://b")
unfolding plain
apply_cors-LetsIn_example =
    apply_cors-LetsIn setup from_b true (plain 204 true false none) (codes "https://b") refl names_b
