-- ===== src/Auth/Validate.antt =====
-- The checks of user names and e-mail addresses, src/auth/validate.c and validate.h. A C string is
-- the list of its bytes, without the NUL; `size` is the room for the normalized text and the NUL.
pub mod Usernames
pub mod Emails
mod Tests
use platform_service.Common.{
  ℕ, zero, suc, ◌+◌, ◌-◌, ◌*◌, ◌/◌, ◌%◌, ◌^◌, ◌≤◌, ◌<◌, min, code, String, ◌≡◌, refl, sym, ap, ◌∙◌,
  subst, ◌≢◌, ◌↔◌, ◌⊎◌, inl, inr, Bool, true, false, not, ◌&&◌, ◌||◌, Option, none, some, List, [],
  ◌∷◌, ◌++◌, append_assoc, append-nil, arith, Bytes, codes, ltb, leb, ◌==◌, if◌then◌else◌, ltb→lt,
  lt→ltb, leb→le, ==_iff, tests, Bool-cases, Option-cases, length, get_elem?, set, length-append,
  length-set, get_elem?-set_self, get_elem?-set_ne, get_or, take, drop, replicate, take-append-drop,
  length-take, length-drop, length-replicate, length-map, equal, equal_iff,
}
use platform_service.Http.Request.Lines.{lower, is_nil, upto, beyond, trim_left, trim_right}

-- `ps_username_validate_result_t`.
pub data UsernameVerdict : Type 0 where
  valid too_short too_long bad_charset starts_non_alphanumeric reserved : UsernameVerdict

-- `ps_email_validate_result_t`.
pub data EmailVerdict : Type 0 where
  valid too_long malformed : EmailVerdict

-- `RESERVED_USERNAMES`.
unfoldable pub reserved_usernames : List Bytes
reserved_usernames =
    codes "admin"
    ∷ codes "administrator"
    ∷ codes "root"
    ∷ codes "system"
    ∷ codes "support"
    ∷ codes "security"
    ∷ codes "null"
    ∷ codes "undefined"
    ∷ codes "moderator"
    ∷ codes "staff"
    ∷ codes "owner"
    ∷ codes "superuser"
    ∷ codes "sysadmin"
    ∷ codes "webmaster"
    ∷ codes "postmaster"
    ∷ codes "api"
    ∷ codes "test"
    ∷ []

abbrev pub is_alnum_ascii : ℕ → Bool
is_alnum_ascii c = (leb b'a' c && leb c b'z') || (leb b'0' c && leb c b'9')

abbrev pub is_username_char : ℕ → Bool
is_username_char c =
    (leb b'a' c && leb c b'z') || (leb b'0' c && leb c b'9') || c == b'_' || c == b'-'

unfoldable pub lowered : Bytes → Bytes
lowered [] = []
lowered (c ∷ cs) = lower c ∷ lowered cs

-- What is written to `out`, whatever the verdict.
abbrev pub normalized : Bytes → ℕ → Bytes
normalized raw size = lowered (take (size - 1) raw)

unfoldable pub all_chars : Bytes → Bool
all_chars [] = true
all_chars (c ∷ cs) = is_username_char c && all_chars cs

abbrev pub starts_alnum : Bytes → Bool
starts_alnum [] = false
starts_alnum (c ∷ _) = is_alnum_ascii c

unfoldable pub listed : Bytes → List Bytes → Bool
listed out [] = false
listed out (r ∷ rs) = equal out r || listed out rs

unfoldable pub username_verdict : Bytes → Bytes → Bool → UsernameVerdict
username_verdict raw out check_reserved =
    if ltb (length raw) 3
    then UsernameVerdict.too_short
    else if ltb 32 (length raw)
    then UsernameVerdict.too_long
    else if not (all_chars out)
    then bad_charset
    else if not (starts_alnum out)
    then starts_non_alphanumeric
    else if check_reserved && listed out reserved_usernames
    then reserved
    else UsernameVerdict.valid

-- `ps_username_validate`: what `out` holds, and the verdict.
unfoldable pub username_validate : Bytes → ℕ → Bool → Bytes × UsernameVerdict
username_validate raw size check_reserved =
    (normalized raw size, username_verdict raw (normalized raw size) check_reserved)

-- `strchr` as a test.
unfoldable pub has : ℕ → Bytes → Bool
has c [] = false
has c (x ∷ xs) = x == c || has c xs

-- The text before the first '@', and what stands from there on.
unfoldable pub parts_verdict : Bytes → Bytes → EmailVerdict
parts_verdict before [] = malformed
parts_verdict before (_ ∷ domain) =
    if has b'@' domain
    then malformed
    else if is_nil before || is_nil domain || not (has b'.' domain)
    then malformed
    else EmailVerdict.valid

unfoldable pub email_verdict : Bytes → Bytes → EmailVerdict
email_verdict trimmed out =
    if ltb 254 (length trimmed)
    then EmailVerdict.too_long
    else parts_verdict (upto b'@' out) (beyond b'@' out)

-- `ps_email_validate`: what `out` holds, and the verdict.
unfoldable pub email_validate : Bytes → ℕ → Bytes × EmailVerdict
email_validate raw size =
    let trimmed = trim_right (trim_left raw) in
    (normalized trimmed size, email_verdict trimmed (normalized trimmed size))
