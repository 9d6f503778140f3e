-- ===== src/Auth/Password/Policy.antt =====
-- What the password policy of src/auth/password.c accepts.
use platform_service.Common.{
  ℕ, ◌%◌, ◌^◌, ◌<◌, ◌≡◌, refl, true, false, some, [], arith, Bytes, ltb, leb, if◌then◌else◌, length,
}
use platform_service.Json.Value.{c_str}
use platform_service.Http.Cors.{among}
use platform_service.Auth.Password.{
  denylist_load, lines_from, PolicyResult, accepted, too_short, too_long, breached, lowered,
  int_below, int_above, listed, policy_check,
}
use platform_service.Auth.Password.Search.{denylist_contains-listed}

-- The answer by the plain reading: the length within the bounds, and the lower-case form, as a C
-- string, none of the file's lines.
unfoldable pub verdict : Bytes → ℕ → ℕ → Bytes → PolicyResult
verdict password min_length max_length file =
    if ltb (length password) min_length
    then too_short
    else if ltb max_length (length password)
    then too_long
    else if among (lines_from [] file) (c_str (lowered password))
    then breached
    else accepted

-- For passwords below 2^31 bytes, where memory is granted, the policy with a loaded denylist is its
-- plain reading: the bounds on the length first, then whether the lower-case form is a line of the
-- file. The binary search of the sorted lines decides the last.
pub policy_check-verdict :
    (password : Bytes) (min_length max_length : ℕ) (file : Bytes)
    → length password < 2 ^ 31
    → policy_check true password min_length max_length (some (denylist_load file))
      ≡ verdict password min_length max_length file
unfolding policy_check verdict listed int_below int_above
policy_check-verdict password min_length max_length file small =
    let small_rest : length password % 2 ^ 32 ≡ length password = omega arith in
    let not_negative : leb (2 ^ 31) (length password) ≡ false = ground arith in
    let positive : ltb (length password) (2 ^ 31) ≡ true = ground arith in
    rw
      (small_rest, not_negative, positive, denylist_contains-listed file (c_str (lowered password)))
      refl
