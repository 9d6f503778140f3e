-- ===== src/Http/Request/Types.antt =====
-- The data of the request parser, src/http/request.h.
use platform_service.Common.{ℕ, Option, List, Bytes}

-- `ps_http_parse_error_t` but for `PS_HTTP_ERR_NONE`, which stands for no error.
pub data ParseError : Type 0 where
  malformed line_too_long too_many_headers headers_too_large : ParseError
  body_too_large chunked_unsupported content_length_invalid : ParseError

-- A step of the parser that can fail.
pub data Result (A : Type 0) : Type 0 where
  ok : A → Result A
  err : ParseError → Result A

infixl 5 ◌>>=◌
abbrev pub ◌>>=◌ : {A B : Type 0} → Result A → (A → Result B) → Result B
ok a >>= f = f a
err e >>= f = err e

-- `ps_http_header_t`.
pub record Header : Type 0 where
  pub name : Bytes
  pub value : Bytes

-- `ps_http_request_t`; `none` is a NULL view.
pub record Request : Type 0 where
  pub method : Bytes
  pub path : Bytes
  pub query : Option Bytes
  pub minor_version : ℕ
  pub headers : List Header
  pub body : Option Bytes

-- `ps_http_limits_t`.
pub record Limits : Type 0 where
  pub max_request_line_bytes : ℕ
  pub max_header_bytes : ℕ
  pub max_header_count : ℕ
  pub max_body_bytes : ℕ

-- `ps_http_parse_result_t`, with `*out` and `*consumed` of a request that is complete.
pub data ParseResult : Type 0 where
  parsed : Request → ℕ → ParseResult
  incomplete : ParseResult
  failed : ParseError → ParseResult

abbrev pub max_headers : ℕ
max_headers = 64
