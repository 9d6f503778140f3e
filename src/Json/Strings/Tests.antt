-- ===== src/Json/Strings/Tests.antt =====
-- Runs of the string parser.
use platform_service.Common.{◌≡◌, refl, [], ◌∷◌, codes}
use platform_service.Json.Scanner.{done, failed, invalid_low_surrogate, control_character}
use platform_service.Json.Strings.{parse_string}

plain : parse_string (codes "ab\\n\\u0041\" :") ≡ done (codes "ab\nA") (codes " :")
unfolding parse_string
plain = refl

-- U+1F600 as a surrogate pair.
pair : parse_string (codes "\\ud83d\\uDE00\"") ≡ done (0xF0 ∷ 0x9F ∷ 0x98 ∷ 0x80 ∷ []) []
unfolding parse_string
pair = refl

lone : parse_string (codes "\\ud83d\\u0041\"") ≡ failed invalid_low_surrogate (codes "\"")
unfolding parse_string
lone = refl

raw_control : parse_string (codes "a\tb\"") ≡ failed control_character (codes "\tb\"")
unfolding parse_string
raw_control = refl
