-- ===== src/Json/RoundTrip/Documents.antt =====
-- From a document that was parsed back to text and to the value again, src/json/json_parse.c and
-- json_write.c.
use platform_service.Common.{◌≡◌, true, some, [], Bytes}
use platform_service.Json.Value.{Value}
use platform_service.Json.Value.Readable.{numbers_pass, IsReadable-any}
use platform_service.Json.Scanner.{done}
use platform_service.Json.Parser.{parse}
use platform_service.Json.Parser.Outcome.{parse-IsReadable}
use platform_service.Json.Writer.{Doubles, IsLawful, write}
use platform_service.Json.Writer.Success.{write_total}
use platform_service.Json.RoundTrip.Values.{parse-write}

module _ {F : Type 0} {fp : Doubles F} (law : IsLawful fp) where
  -- Every value that the parser returns, its numbers finite, is written without failure, and the
  -- text is parsed as the same value, where the functions of the C library on doubles do what
  -- they document.
  pub parse-write-parse :
      (s : Bytes) (v : Value F)
      → parse fp.strtod s ≡ done v []
      → numbers_pass fp.is_finite v ≡ true
      → (t : Bytes) × (write fp v ≡ some t) × (parse fp.strtod t ≡ done v [])
  parse-write-parse s v h finite =
      let (readable, shallow) = parse-IsReadable fp.strtod s v h in
      let (t, written) = write_total law v shallow in
      (t, written, parse-write law v t (IsReadable-any fp.is_finite v readable finite) written)
