-- ===== src/Api/Routes/Int64.antt =====
-- What an identifier in a path is read as.
use platform_service.Common.{
  ℕ, zero, suc, ◌<◌, ◌≡◌, refl, subst, inl, inr, Option, none, some, [], ◌∷◌, ◌++◌, arith, Bytes,
  ltb, ltb→lt, Bool-cases, length, length-append,
}
use platform_service.Common.Int.{ℤ, pos, negsuc}
use platform_service.Api.Routes.{
  c_string, parse_int64, signed, magnitude, positive, negative, int64_min_size,
}

-- `int64_t`.
abbrev pub IsInt64 : ℤ → Type 0
IsInt64 (pos v) = v < 9223372036854775808
IsInt64 (negsuc v) = v < 9223372036854775808

positive-IsInt64 : (o : Option ℕ) (v : ℤ) → positive o ≡ some v → IsInt64 v
unfolding positive
positive-IsInt64 none v h = cc
positive-IsInt64 (some n) v h = elim (Bool-cases (ltb n int64_min_size)) [
  | inl small ↦
      subst (λ (o : Option ℤ). elim o [ none ↦ Unit {0} | some w ↦ IsInt64 w ]) (rw small at h)
        (ltb→lt n int64_min_size small)
  | inr large ↦ cc (rw large at h)
]

c_string_nul : (xs more : Bytes) → c_string (xs ++ 0 ∷ more) ≡ c_string xs
unfolding c_string
c_string_nul [] more = refl
c_string_nul (c ∷ cs) more = ground (arith, c_string_nul cs more)

negative-IsInt64 : (o : Option ℕ) (v : ℤ) → negative o ≡ some v → IsInt64 v
unfolding negative
negative-IsInt64 none v h = cc
negative-IsInt64 (some zero) v h = ground arith
negative-IsInt64 (some (suc n)) v h = elim (Bool-cases (ltb n int64_min_size)) [
  | inl small ↦ ground (arith)
  | inr large ↦ cc (rw large at h)
]

pub signed-IsInt64 : (xs : Bytes) (v : ℤ) → signed xs ≡ some v → IsInt64 v
unfolding signed
signed-IsInt64 [] v h = cc
signed-IsInt64 (c ∷ cs) v h = ground (
  arith,
  positive-IsInt64 (magnitude cs) v,
  positive-IsInt64 (magnitude (c ∷ cs)) v,
  negative-IsInt64 (magnitude cs) v,
)

-- A number that is accepted lies in the range of `int64_t`.
pub parse_int64-IsInt64 : (text : Bytes) (v : ℤ) → parse_int64 text ≡ some v → IsInt64 v
unfolding parse_int64
parse_int64-IsInt64 text v h = ground (arith, signed-IsInt64 (c_string text) v)

-- A NUL byte ends the text: what stands behind it is not looked at, if the text is short.
pub parse_int64_nul :
    (text more : Bytes)
    → length (text ++ 0 ∷ more) < 32
    → parse_int64 (text ++ 0 ∷ more) ≡ parse_int64 text
unfolding parse_int64 c_string signed
parse_int64_nul [] more short = ground arith
parse_int64_nul (c ∷ cs) more short =
    ground (arith, c_string_nul (c ∷ cs) more, length-append (c ∷ cs) (0 ∷ more))
