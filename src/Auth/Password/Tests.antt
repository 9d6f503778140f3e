-- ===== src/Auth/Password/Tests.antt =====
-- Runs of the password checks, and instances of their theorems.
use platform_service.Common.{
  ℕ, ◌≡◌, refl, true, false, Option, some, [], ◌∷◌, ◌++◌, arith, Bytes, codes, equal,
}
use platform_service.Json.Value.{c_str}
use platform_service.Auth.Password.{
  password_hash, PasswordHash, password_verify, denylist_load, accepted, too_short, breached,
  policy_check, denylist_contains, search, strcmp, sort, insert, lines_from, keep, cut_return,
  lowered, listed, int_below, int_above, is_above,
}
use platform_service.Auth.Password.Policy.{verdict, policy_check-verdict}

abbrev file : Bytes
file = codes "zebra\r\npassword\n\nabc123\nqwerty"

sorted_lines :
    denylist_load file ≡ codes "abc123" ∷ codes "password" ∷ codes "qwerty" ∷ codes "zebra" ∷ []
unfolding denylist_load sort insert lines_from keep cut_return strcmp is_above c_str
sorted_lines = refl

checks :
    (policy_check true (codes "PassWord") 8 64 (some (denylist_load file)) ≡ breached)
    × (policy_check true (codes "zebra") 8 64 (some (denylist_load file)) ≡ too_short)
    × (policy_check true (codes "zebra zebra") 8 64 (some (denylist_load file)) ≡ accepted)
    × (policy_check true (codes "Zebra") 1 64 (some (denylist_load file)) ≡ breached)
unfolding policy_check listed int_below int_above denylist_contains search lowered denylist_load
    sort insert lines_from keep cut_return strcmp is_above c_str
checks = (refl, refl, refl, refl)

policy_check-verdict_example :
    policy_check true (codes "PassWord") 8 64 (some (denylist_load file))
    ≡ verdict (codes "PassWord") 8 64 file
policy_check-verdict_example = policy_check-verdict (codes "PassWord") 8 64 file (omega arith)

-- A derivation that shows its arguments.
abbrev derive : Bytes → Bytes → ℕ → Option Bytes
derive password salt iterations = some (password ++ salt ++ iterations ∷ [])

abbrev salted : PasswordHash
salted = record { salt = 1 ∷ []; hash = codes "secret" ++ 1 ∷ 5 ∷ []; iterations = 5 }

verifies :
    (password_hash derive (codes "secret") 5 (some (1 ∷ [])) ≡ some salted)
    × (password_verify derive (codes "secret") salted ≡ true)
    × (password_verify derive (codes "Secret") salted ≡ false)
unfolding password_hash password_verify equal
verifies = (refl, refl, refl)
