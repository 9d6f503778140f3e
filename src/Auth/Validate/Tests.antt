-- ===== src/Auth/Validate/Tests.antt =====
-- Runs of the checks, and instances of their theorems.
use platform_service.Common.{◌≤◌, ◌≡◌, refl, ◌↔◌, true, false, arith, codes, length, equal}
use platform_service.Http.Request.Lines.{upto, beyond, trim_left, trim_right}
use platform_service.Auth.Validate.{
  UsernameVerdict, EmailVerdict, bad_charset, starts_non_alphanumeric, reserved, reserved_usernames,
  lowered, listed, all_chars, has, malformed, username_validate, email_validate, username_verdict,
  parts_verdict, email_verdict,
}
use platform_service.Auth.Validate.Usernames.{IsUsername, username_validate_iff}
use platform_service.Auth.Validate.Emails.{IsAddress, email_validate_iff}

names :
    (username_validate (codes "Bob_7") 33 true ≡ (codes "bob_7", UsernameVerdict.valid))
    × (username_validate (codes "Root") 33 true ≡ (codes "root", reserved))
    × (username_validate (codes "Root") 33 false ≡ (codes "root", UsernameVerdict.valid))
    × (username_validate (codes "_bob") 33 true ≡ (codes "_bob", starts_non_alphanumeric))
    × (username_validate (codes "a b") 33 true ≡ (codes "a b", bad_charset))
unfolding username_validate username_verdict lowered all_chars listed reserved_usernames equal
names = (refl, refl, refl, refl, refl)

addresses :
    (email_validate (codes " A@x.org\t") 255 ≡ (codes "a@x.org", EmailVerdict.valid))
    × (email_validate (codes "a@b@x.org") 255 ≡ (codes "a@b@x.org", malformed))
    × (email_validate (codes "a@org") 255 ≡ (codes "a@org", malformed))
unfolding email_validate email_verdict parts_verdict has lowered trim_left trim_right upto beyond
addresses = (refl, refl, refl)

username_validate_iff_example :
    ((username_validate (codes "Bob_7") 33 true).1 ≡ UsernameVerdict.valid)
    ↔ IsUsername true (lowered (codes "Bob_7"))
username_validate_iff_example = username_validate_iff (codes "Bob_7") 33 true (omega arith)

email_validate_iff_example : ((email_validate (codes " A@x.org\t") 255).1 ≡ EmailVerdict.valid) ↔ (
    (length (trim_right (trim_left (codes " A@x.org\t"))) ≤ 254)
    × IsAddress (lowered (trim_right (trim_left (codes " A@x.org\t")))))
email_validate_iff_example = email_validate_iff (codes " A@x.org\t") 255 (omega arith)
