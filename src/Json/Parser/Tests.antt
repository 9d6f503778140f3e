-- ===== src/Json/Parser/Tests.antt =====
-- Runs of the parser, with a `strtod` that reads one digit.
use platform_service.Common.{
  ℕ, ◌-◌, ◌≡◌, refl, Option, none, some, [], ◌∷◌, Bytes, codes, replicate, equal,
}
use platform_service.Json.Value.{
  c_str, set_member, object_set, number, string, object, no_members, member,
}
use platform_service.Json.Strings.{parse_string}
use platform_service.Json.Scanner.{
  skip_ws, is_space, is_digit, parse_number, done, failed, unexpected_character, trailing_data,
  depth_exceeded,
}
use platform_service.Json.Parser.{parse}

abbrev one_digit : Bytes → Option ℕ
one_digit (c ∷ []) = some (c - 48)
one_digit s = none

nested :
    parse one_digit (codes " {\"a\": [1, 2],\"b\":\"x\",\"a\":3 } ")
    ≡ done
        (object
          (member (codes "a") (number 3) (member (codes "b") (string (codes "x")) no_members)))
        []
unfolding parse skip_ws is_space parse_string is_digit parse_number object_set set_member equal
    c_str
nested = refl

trailing_comma : parse one_digit (codes "[1,]") ≡ failed unexpected_character (codes "]")
unfolding parse skip_ws is_space parse_string is_digit parse_number object_set set_member equal
    c_str
trailing_comma = refl

trailing : parse one_digit (codes "1 2") ≡ failed trailing_data (codes "2")
unfolding parse skip_ws is_space parse_string is_digit parse_number object_set set_member equal
    c_str
trailing = refl

too_deep : parse one_digit (replicate 33 b'[') ≡ failed depth_exceeded (codes "[")
unfolding parse skip_ws is_space parse_string is_digit parse_number object_set set_member equal
    c_str
too_deep = refl
