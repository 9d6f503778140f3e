-- ===== src/Json/Writer/Tests.antt =====
-- Runs of the writer.
use platform_service.Common.{ℕ, ◌+◌, ◌≡◌, refl, true, none, some, [], ◌∷◌, codes}
use platform_service.Json.Value.{
  Value, null, number, string, array, object, no_items, item, no_members, member,
}
use platform_service.Json.Writer.{Doubles, write}

abbrev digits : Doubles ℕ
digits = record { strtod = λ s. none; is_finite = λ n. true; format = λ n. (48 + n) ∷ [] }

document : Value ℕ
document = object (
    member (codes "a") (array (item (number 1) (item null no_items)))
      (member (codes "b") (string (10 ∷ 1 ∷ [])) no_members))

written : write digits document ≡ some (codes "{\"a\":[1,null],\"b\":\"\\n\\u0001\"}")
unfolding write document
written = refl
