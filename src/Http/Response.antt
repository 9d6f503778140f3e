-- ===== src/Http/Response.antt =====
-- The response writer, src/http/response.c and response.h: the text that is appended to a buffer
-- that grants every request, and `none` where the source returns false. `%d` and `%zu` write
-- numbers in decimal.
use platform_service.Common.{
  ℕ, Bool, true, false, Option, none, some, [], ◌++◌, Bytes, codes, leb, ◌==◌, if◌then◌else◌,
  length,
}
use platform_service.Common.Int.{pos}
use platform_service.Json.Value.{c_str, Value, string, object, no_members, object_set}
use platform_service.Json.Writer.{Doubles, write}
use platform_service.Api.Routes.Decimal.{printed}

abbrev pub crlf : Bytes
crlf = codes "\r\n"

-- `reason_phrase`.
unfoldable pub reason_phrase : ℕ → Bytes
reason_phrase status =
    if status == 200
    then codes "OK"
    else if status == 202
    then codes "Accepted"
    else if status == 204
    then codes "No Content"
    else if status == 400
    then codes "Bad Request"
    else if status == 401
    then codes "Unauthorized"
    else if status == 403
    then codes "Forbidden"
    else if status == 404
    then codes "Not Found"
    else if status == 405
    then codes "Method Not Allowed"
    else if status == 409
    then codes "Conflict"
    else if status == 413
    then codes "Payload Too Large"
    else if status == 429
    then codes "Too Many Requests"
    else if status == 500
    then codes "Internal Server Error"
    else if status == 501
    then codes "Not Implemented"
    else if status == 503
    then codes "Service Unavailable"
    else codes "Unknown"

-- `ps_http_response_t`; `none` is NULL.
pub record Response (F : Type 0) : Type 0 where
  pub status : ℕ
  pub keep_alive : Bool
  pub no_store : Bool
  pub json_body : Option (Value F)
  pub cors_origin : Option Bytes
  pub cors_allow_credentials : Bool
  pub cors_allow_methods : Option Bytes
  pub cors_allow_headers : Option Bytes

-- A text that `snprintf` writes into an array of so many bytes, if it fits with its NUL.
unfoldable pub fitting : ℕ → Bytes → Option Bytes
fitting size text = if leb size (length text) then none else some text

infixl 5 ◌>>=◌
abbrev pub ◌>>=◌ : {A B : Type 0} → Option A → (A → Option B) → Option B
none >>= f = none
some a >>= f = f a

unfoldable pub status_line : ℕ → Option Bytes
unfolding fitting reason_phrase
status_line status =
    fitting 64
      (codes "HTTP/1.1 " ++ (printed (pos status) ++ (codes " " ++ (reason_phrase status ++ crlf))))

unfoldable pub length_line : ℕ → Option Bytes
unfolding fitting
length_line n = fitting 64 (codes "Content-Length: " ++ (printed (pos n) ++ crlf))

-- A header line whose value may be missing.
unfoldable pub optional_line : Bytes → Option Bytes → Bytes
optional_line name none = []
optional_line name (some value) = name ++ (value ++ crlf)

unfoldable pub connection_line : Bool → Bytes
connection_line true = codes "Connection: keep-alive\r\n"
connection_line false = codes "Connection: close\r\n"

module _ {F : Type 0} where
  unfoldable pub type_line : Option (Value F) → Bytes
  type_line none = []
  type_line (some v) = codes "Content-Type: application/json\r\n"

  -- The lines behind the origin.
  unfoldable pub cors_rest : Response F → Bytes
  unfolding optional_line
  cors_rest r =
      (if r.cors_allow_credentials then codes "Access-Control-Allow-Credentials: true\r\n" else [])
      ++ (optional_line (codes "Access-Control-Allow-Methods: ") r.cors_allow_methods
          ++ optional_line (codes "Access-Control-Allow-Headers: ") r.cors_allow_headers)

  unfoldable pub cors_lines : Response F → Option Bytes → Option Bytes
  unfolding cors_rest fitting
  cors_lines r none = some []
  cors_lines r (some origin) =
      fitting 320
        (codes "Access-Control-Allow-Origin: " ++ (origin ++ codes "\r\nVary: Origin\r\n"))
      >>= (λ line. some (line ++ cors_rest r))

module _ {F : Type 0} (fp : Doubles F) where
  unfoldable pub body_text : Option (Value F) → Option Bytes
  body_text none = some []
  body_text (some v) = write fp v

  -- `ps_http_response_write`.
  unfoldable pub response_write : Response F → Option Bytes
  unfolding body_text status_line length_line connection_line type_line cors_lines
  response_write r = do
    body ← body_text r.json_body
    first ← status_line r.status
    size ← length_line (length body)
    cors ← cors_lines r r.cors_origin
    some (
        first
        ++ (type_line r.json_body
            ++ (size
                ++ (connection_line r.keep_alive
                    ++ (codes "X-Content-Type-Options: nosniff\r\n"
                        ++ ((if r.no_store then codes "Cache-Control: no-store\r\n" else [])
                            ++ (cors ++ (crlf ++ body))))))))

  -- `ps_error_envelope`.
  unfoldable pub error_envelope : Bytes → Bytes → Value F
  unfolding object_set
  error_envelope error_code message =
      let inner = object_set no_members (codes "code") (string (c_str error_code)) in
      let both = object_set inner (codes "message") (string (c_str message)) in
      object (object_set no_members (codes "error") (object both))

  -- `ps_http_response_write_error`.
  unfoldable pub write_error : ℕ → Bytes → Bytes → Bool → Option Bytes
  unfolding response_write error_envelope
  write_error status error_code message keep_alive = response_write (record {
    status = status;
    keep_alive = keep_alive;
    no_store = true;
    json_body = some (error_envelope error_code message);
    cors_origin = none;
    cors_allow_credentials = false;
    cors_allow_methods = none;
    cors_allow_headers = none;
  })
