-- ===== src/Http/Conn/Types.antt =====
-- The data of the connection loop, src/http/conn.c and conn.h.
use platform_service.Common.{ℕ, Bool, Option, List, Bytes}
use platform_service.Json.Value.{Value}
use platform_service.Json.Writer.{Doubles}
use platform_service.Http.Request.Types.{ParseError, Request, Limits}
use platform_service.Http.Router.{Router, Param}
use platform_service.Http.Cors.{CorsPolicy}

-- `ps_conn_close_reason_t`.
pub data CloseReason : Type 0 where
  closed_by_peer closed_max_requests closed_timeout : CloseReason
  closed_error closed_connection_header : CloseReason

-- What `poll` and `SSL_read` answer: `timed_out` and `poll_failed` of `poll`; the bytes that are
-- read; a close, `SSL_ERROR_ZERO_RETURN`; a broken connection, `SSL_ERROR_SYSCALL`; any other error.
pub data ReadOutcome : Type 0 where
  timed_out poll_failed : ReadOutcome
  received : Bytes → ReadOutcome
  zero_return broken read_failed : ReadOutcome

-- What `read_more` leaves: the buffer, or `*reason` where it returns false.
pub data More : Type 0 where
  filled : Bytes → More
  closed : CloseReason → More

-- What the loop that fills the buffer ends with: a request, the number of its bytes, the buffer and
-- the outcomes that are left; an error of the parser; or the end of the connection.
pub data Fill : Type 0 where
  ready : Request → ℕ → Bytes → List ReadOutcome → Fill
  rejected : ParseError → Fill
  gone : CloseReason → Fill

-- `ps_conn_limits_t`.
pub record ConnLimits : Type 0 where
  pub read_timeout_s : ℕ
  pub write_timeout_s : ℕ
  pub keepalive_max_requests : ℕ
  pub http_limits : Limits

-- `ps_handler_result_t`.
pub record HandlerResult (F : Type 0) : Type 0 where
  pub status : ℕ
  pub body : Option (Value F)
  pub no_store : Bool

-- What `ps_conn_handle` is given, and the answers of `SSL_write` to the response with a number: `none`
-- where it takes the response whole, and otherwise how many of its bytes went out all the same.
-- `dispatch` is a `ps_route_dispatch_fn` with the peer's address.
pub record Setup (F S : Type 0) : Type 0 where
  pub doubles : Doubles F
  pub limits : ConnLimits
  pub router : Router
  pub dispatch : ℕ → Request → List Param → S → S × HandlerResult F
  pub cors : Option CorsPolicy
  pub falls_short : ℕ → Option ℕ

-- What is sent: a response whole; the bytes that went out of one that was not taken whole; or the
-- response to an error of the parser by its status and code, since the parser's texts are left out,
-- for which `SSL_write` is called and its answer not looked at.
pub data Output : Type 0 where
  response part : Bytes → Output
  refusal : ℕ → Bytes → Output

-- What the loop keeps.
pub record Serving (S : Type 0) : Type 0 where
  pub app : S
  pub completed : ℕ
  pub readbuf : Bytes
  pub reads : List ReadOutcome
  pub sent : List Output

-- What `ps_conn_handle` leaves: the close reason it returns, `*requests_served`, and what it did.
pub record Served (S : Type 0) : Type 0 where
  pub app : S
  pub completed : ℕ
  pub sent : List Output
  pub reason : CloseReason

-- One round of the loop: the connection ends, or the loop goes on.
pub data Round (S : Type 0) : Type 0 where
  ended : Served S → Round S
  next : Serving S → Round S

-- Room in `origin_buf`, with its NUL.
abbrev pub origin_size : ℕ
origin_size = 256
