-- ===== src/Http/Conn.antt =====
-- The connection loop, src/http/conn.c and conn.h. What the operating system and OpenSSL answer is a
-- list of outcomes, one for each time that `read_more` waits and reads, and for each response how much
-- of it `SSL_write` took. The application behind the dispatch callback is a state that
-- the callback returns anew. A memory request of the buffers is granted.
pub mod Types
pub mod Rounds
pub mod Chunks
pub mod Origins
mod Tests
use platform_service.Common.{
  ℕ, zero, suc, ◌+◌, ◌-◌, Bool, true, false, not, ◌||◌, Option, none, some, List, [], ◌∷◌, ◌++◌,
  Bytes, codes, leb, ltb, ◌==◌, if◌then◌else◌, length, take, drop, equal,
}
use platform_service.Json.Value.{Value}
use platform_service.Json.Writer.{Doubles}
use platform_service.Http.Request.Types.{
  ParseError, malformed, line_too_long, too_many_headers, headers_too_large, body_too_large,
  chunked_unsupported, content_length_invalid, Header, Request, Limits, parsed, incomplete, failed,
}
use platform_service.Http.Request.Lines.{ci_equal}
use platform_service.Http.Request.{parse, header_lookup}
use platform_service.Http.Router.{
  Router, Param, MatchResult, matched, method_not_allowed, not_found, router_match,
}
use platform_service.Http.Cors.{CorsPolicy, enabled, origin_allowed}
use platform_service.Http.Response.{Response, response_write, write_error}
use platform_service.Http.Conn.Types.{
  CloseReason, ConnLimits, Fill, HandlerResult, More, Output, ReadOutcome, Round, Served, Serving,
  Setup, broken, closed, closed_by_peer, closed_connection_header, closed_error,
  closed_max_requests, closed_timeout, ended, filled, gone, next, origin_size, part, poll_failed,
  read_failed, ready, received, refusal, rejected, response, timed_out, zero_return,
}

-- `header_value_equals_ci`; `none` is NULL.
unfoldable pub header_value_equals_ci : Option Header → Bytes → Bool
header_value_equals_ci none token = false
header_value_equals_ci (some h) token = ci_equal h.value token

-- `connection_should_stay_alive`.
unfoldable pub stay_alive : Request → ℕ → ℕ → Bool
unfolding header_value_equals_ci
stay_alive req completed_after max_requests =
    let connection = header_lookup req.headers (codes "Connection") in
    if leb max_requests completed_after
    then false
    else if header_value_equals_ci connection (codes "close")
    then false
    else if req.minor_version == 0
    then header_value_equals_ci connection (codes "keep-alive")
    else true

-- `read_more`.
unfoldable pub read_more : ReadOutcome → Bytes → More
read_more timed_out buf = closed closed_timeout
read_more poll_failed buf = closed closed_error
read_more (received chunk) buf = filled (buf ++ chunk)
read_more zero_return buf = closed closed_by_peer
read_more broken buf = closed (if length buf == 0 then closed_by_peer else closed_error)
read_more read_failed buf = closed closed_error

-- `error_status_and_code`.
unfoldable pub error_status_and_code : ParseError → ℕ × Bytes
error_status_and_code body_too_large = (413, codes "PAYLOAD_TOO_LARGE")
error_status_and_code chunked_unsupported = (501, codes "NOT_IMPLEMENTED")
error_status_and_code malformed = (400, codes "BAD_REQUEST")
error_status_and_code line_too_long = (400, codes "BAD_REQUEST")
error_status_and_code too_many_headers = (400, codes "BAD_REQUEST")
error_status_and_code headers_too_large = (400, codes "BAD_REQUEST")
error_status_and_code content_length_invalid = (400, codes "BAD_REQUEST")

-- The inner loop. Behind a list of outcomes that ends, the peer is silent and `poll` runs into its time
-- limit.
unfoldable pub fill : Limits → List ReadOutcome → Bytes → Fill
unfolding read_more
fill limits [] buf = elim (parse limits buf) [
  | parsed req consumed ↦ ready req consumed buf []
  | failed kind ↦ rejected kind
  | incomplete ↦ gone closed_timeout
]
fill limits (r ∷ rs) buf = elim (parse limits buf) [
  | parsed req consumed ↦ ready req consumed buf (r ∷ rs)
  | failed kind ↦ rejected kind
  | incomplete ↦ elim (read_more r buf) [
    | filled buf' ↦ fill limits rs buf'
    | closed reason ↦ gone reason
  ]
]

-- The bytes behind the request are moved to the front.
unfoldable pub slide : ℕ → Bytes → Bytes
slide consumed buf = if leb (length buf) consumed then [] else drop consumed buf

module _ {F : Type 0} where
  -- The response before the fields of the CORS headers are set.
  unfoldable pub plain : ℕ → Bool → Bool → Option (Value F) → Response F
  plain status keep_alive no_store body = record {
    status = status;
    keep_alive = keep_alive;
    no_store = no_store;
    json_body = body;
    cors_origin = none;
    cors_allow_credentials = false;
    cors_allow_methods = none;
    cors_allow_headers = none;
  }

  unfoldable pub with_origin : Bool → Option CorsPolicy → Option Header → Response F → Response F
  with_origin is_preflight none origin resp = resp
  with_origin is_preflight (some policy) none resp = resp
  with_origin is_preflight (some policy) (some origin) resp =
      if not (origin_allowed (some policy) (some origin.value)) then resp else record resp {
        cors_origin = some (take (origin_size - 1) origin.value);
        cors_allow_credentials = policy.allow_credentials;
        cors_allow_methods =
            if is_preflight
            then some (codes "GET, POST, PUT, DELETE, OPTIONS")
            else resp.cors_allow_methods;
        cors_allow_headers =
            if is_preflight
            then some (codes "Content-Type, Authorization")
            else resp.cors_allow_headers;
      }

module _ {F S : Type 0} (setup : Setup F S) where
  -- `apply_cors`.
  unfoldable pub apply_cors : Request → Bool → Response F → Response F
  unfolding with_origin
  apply_cors req is_preflight resp =
      if not (enabled setup.cors)
      then resp
      else with_origin is_preflight setup.cors (header_lookup req.headers (codes "Origin")) resp

  unfoldable pub answer_options : Request → Bool → Option Bytes
  unfolding apply_cors plain
  answer_options req alive =
      if not (enabled setup.cors)
      then write_error setup.doubles 405 (codes "METHOD_NOT_ALLOWED")
          (codes "CORS is not configured") alive
      else response_write setup.doubles (apply_cors req true (plain 204 alive false none))

  unfoldable pub answer_route : Request → Bool → S → MatchResult → S × Option Bytes
  unfolding apply_cors plain
  answer_route req alive app not_found =
      (app, write_error setup.doubles 404 (codes "NOT_FOUND") (codes "no such route") alive)
  answer_route req alive app method_not_allowed = (
    app,
    write_error setup.doubles 405 (codes "METHOD_NOT_ALLOWED")
        (codes "path exists, method does not") alive,
  )
  answer_route req alive app (matched route_id params) =
      let (app', result) = setup.dispatch route_id req params app in
      (
        app',
        response_write setup.doubles
            (apply_cors req false (plain result.status alive result.no_store result.body)),
      )

  -- The response to a request, with `method_is` for the test of the method.
  unfoldable pub answer : Request → Bool → S → S × Option Bytes
  unfolding answer_options answer_route
  answer req alive app =
      if equal req.method (codes "OPTIONS")
      then (app, answer_options req alive)
      else answer_route req alive app (router_match setup.router req.method req.path)

  -- What follows `SSL_write` of the bytes `out`; `st` has the application's state behind the callback.
  unfoldable pub written : Serving S → ℕ → Bool → Bytes → Option ℕ → Round S
  unfolding slide
  written st consumed alive out (some sent) = ended (record {
    app = st.app;
    completed = st.completed;
    sent = st.sent ++ part (take sent out) ∷ [];
    reason = closed_error;
  })
  written st consumed alive out none =
      let sent = st.sent ++ response out ∷ [] in
      let max_requests = setup.limits.keepalive_max_requests in
      if not alive
      then ended (record {
        app = st.app;
        completed = st.completed + 1;
        sent = sent;
        reason =
            if leb max_requests (st.completed + 1)
            then closed_max_requests
            else closed_connection_header;
      })
      else next (record {
        app = st.app;
        completed = st.completed + 1;
        readbuf = slide consumed st.readbuf;
        reads = st.reads;
        sent = sent;
      })

  -- The response is written, if there is one.
  unfoldable pub deliver : Serving S → ℕ → Bool → Option Bytes → Round S
  unfolding written
  deliver st consumed alive none =
      ended
        (record { app = st.app; completed = st.completed; sent = st.sent; reason = closed_error })
  deliver st consumed alive (some out) =
      if length out == 0
      then ended
          (record { app = st.app; completed = st.completed; sent = st.sent; reason = closed_error })
      else written st consumed alive out (setup.falls_short st.completed)

  unfoldable pub answer_fill : Serving S → Fill → Round S
  unfolding error_status_and_code answer deliver stay_alive
  answer_fill st (gone reason) =
      ended (record { app = st.app; completed = st.completed; sent = st.sent; reason = reason })
  answer_fill st (rejected kind) =
      let (status, error_code) = error_status_and_code kind in
      ended (record {
        app = st.app;
        completed = st.completed;
        sent = st.sent ++ refusal status error_code ∷ [];
        reason = closed_error;
      })
  answer_fill st (ready req consumed readbuf reads) =
      let alive = stay_alive req (st.completed + 1) setup.limits.keepalive_max_requests in
      let (app, out) = answer req alive st.app in
      deliver (record st { app = app; readbuf = readbuf; reads = reads }) consumed alive out

  unfoldable pub round : Serving S → Round S
  unfolding fill answer_fill
  round st =
      if leb setup.limits.keepalive_max_requests st.completed
      then ended (record {
        app = st.app;
        completed = st.completed;
        sent = st.sent;
        reason = closed_max_requests;
      })
      else answer_fill st (fill setup.limits.http_limits st.reads st.readbuf)

  -- The outer loop; `none` is fuel run out.
  unfoldable pub serve : ℕ → Serving S → Option (Served S)
  unfolding round
  serve zero st = none
  serve (suc fuel) st = elim (round st) [ ended served ↦ some served | next st' ↦ serve fuel st' ]

  -- `ps_conn_handle`, given whether the timeouts are set and whether the handshake is made.
  unfoldable pub conn_handle : Bool → Bool → S → List ReadOutcome → Option (Served S)
  unfolding serve
  conn_handle timeouts_set accepted app reads =
      if not timeouts_set || not accepted
      then some (record { app = app; completed = 0; sent = []; reason = closed_error })
      else serve (suc setup.limits.keepalive_max_requests)
          (record { app = app; completed = 0; readbuf = []; reads = reads; sent = [] })
