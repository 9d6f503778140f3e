-- ===== src/Json/RoundTrip/Tests.antt =====
-- The theorems on JSON at concrete documents.
use platform_service.Common.{
  ℕ, ◌≤◌, ◌≡◌, refl, ◌⊎◌, Bool, true, Option, some, [], Bytes, codes, length, equal,
}
use platform_service.Json.Value.{
  array_append, set_member, c_str, Value, null, number, string, array, object, no_items, item,
  Members, no_members, member, object_set, find_member, depth, max_depth,
}
use platform_service.Json.Value.Readable.{IsReadable, numbers_pass, any}
use platform_service.Json.Scanner.{
  done, failed, Reason, skip_ws, is_space, is_digit, expect_literal, parse_number,
}
use platform_service.Json.Scanner.Numbers.{plus, Literal}
use platform_service.Json.Strings.{parse_string}
use platform_service.Json.Parser.{parse}
use platform_service.Json.Parser.Progress.{parse_total}
use platform_service.Json.Parser.Outcome.{parse-IsReadable}
use platform_service.Json.Writer.{write}
use platform_service.Json.RoundTrip.Values.{parse-write}
use platform_service.Json.RoundTrip.Documents.{parse-write-parse}
use platform_service.Json.RoundTrip.Samples.{read_bit, bit_text, bits, bits-IsLawful}

-- -12.5e+3
abbrev literal : Literal
literal = record {
  negative = true;
  digits = codes "12";
  fraction = some (codes "5");
  exponent = some (record { mark = b'e'; sign = plus; digits = codes "3" });
}

abbrev text_length : Bytes → Option ℕ
text_length s = some (length s)

abbrev document : Value Bool
document = object (
    member (codes "k") (array (item (number true) (item null no_items)))
      (member (codes "t") (string (codes "x\ty")) no_members))

abbrev text : Bytes
text = codes "{\"k\":[1,null],\"t\":\"x\\ty\"}"

parse-write_example : parse read_bit text ≡ done document []
unfolding write bit_text IsReadable c_str find_member equal
parse-write_example =
    parse-write bits-IsLawful document text ((refl, refl, (refl, (tt, tt)), (refl, refl, tt, tt)))
      refl

parse-write-parse_example :
    (t : Bytes) × (write bits document ≡ some t) × (parse read_bit t ≡ done document [])
unfolding parse skip_ws is_space parse_string is_digit parse_number object_set set_member
    array_append expect_literal equal c_str numbers_pass read_bit
parse-write-parse_example = parse-write-parse bits-IsLawful text document refl refl

parse-IsReadable_example : IsReadable any document × (depth document ≤ max_depth)
unfolding parse skip_ws is_space parse_string is_digit parse_number object_set set_member
    array_append expect_literal equal c_str read_bit
parse-IsReadable_example = parse-IsReadable read_bit text document refl

parse_total_example :
    ((v : Value Bool) × (parse read_bit (codes "[1, ") ≡ done v []))
    ⊎ ((e : Reason) × (r : Bytes) × (parse read_bit (codes "[1, ") ≡ failed e r))
parse_total_example = parse_total read_bit (codes "[1, ")

abbrev members : Members Bool
members = member (codes "k") null (member (codes "t") (number true) no_members)
