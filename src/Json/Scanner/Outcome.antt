-- ===== src/Json/Scanner/Outcome.antt =====
-- What holds of the values that the parsers of src/json/json_parse.c return.
use platform_service.Common.{Bool, true, false, Bytes, if◌then◌else◌}
use platform_service.Json.Scanner.{Parsed, done, failed, stuck, ◌and_then◌}

-- The value of a success is as described.
unfoldable pub Yields : {A : Type 0} → (A → Type 0) → Parsed A → Type 0
Yields P (done a r) = P a
Yields P (failed e r) = Unit {0}
Yields P stuck = Unit {0}

pub Yields-and_then :
    {A B : Type 0} (P : A → Type 0) (Q : B → Type 0) (m : Parsed A) (f : A → Bytes → Parsed B)
    → Yields P m
    → ((a : A) (r : Bytes) → P a → Yields Q (f a r))
    → Yields Q (m and_then f)
unfolding Yields
Yields-and_then P Q (done a r) f h step = step a r h
Yields-and_then P Q (failed e r) f h step = tt
Yields-and_then P Q stuck f h step = tt

pub Yields-any : {A : Type 0} (m : Parsed A) → Yields (λ a. Unit {0}) m
unfolding Yields
Yields-any (done a r) = tt
Yields-any (failed e r) = tt
Yields-any stuck = tt

pub if-Yields :
    {A : Type 0} (P : A → Type 0) (b : Bool) (x y : Parsed A)
    → Yields P x
    → Yields P y
    → Yields P (if b then x else y)
if-Yields P true x y p q = p
if-Yields P false x y p q = q
