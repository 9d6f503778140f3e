-- ===== src/Platform/Buf/Growth.antt =====
-- Buffers keep their invariant: the loop of `ensure_capacity` ends, with room for what is appended.
use platform_service.Common.{
  ℕ, zero, suc, ◌+◌, ◌-◌, ◌*◌, ◌%◌, ◌^◌, ◌≤◌, ◌<◌, ◌≡◌, refl, ap, ◌⊎◌, inl, inr, Bool, false, none,
  some, arith, ltb, leb, ltb→lt, Bool-cases, length,
}
use platform_service.Platform.Buf.{Buf, size_mod, double_until, first_cap, ensure_capacity}
use native.Mathlib.Nat.{pow-suc}

pub record IsValid (b : Buf) : Type 0 where
  pub counted : b.len ≡ length b.content
  pub within : b.len ≤ b.cap
  pub cap_fits : b.cap < size_mod

-- With `cap` above 0 and `cap * 2 ^ fuel` above a need of at most 2^63, the loop ends by its test.
double_until_total :
    (fuel need cap : ℕ)
    → 0 < cap
    → cap < size_mod
    → need ≤ 9223372036854775808
    → need < cap * 2 ^ fuel
    → (c : ℕ) × (double_until (suc fuel) need cap ≡ some c) × (need ≤ c) × (c < size_mod)
unfolding double_until
double_until_total zero need cap pos fits small enough = (cap, ground arith, omega arith, fits)
double_until_total (suc fuel) need cap pos fits small enough = elim (Bool-cases (ltb cap need)) [
  | inl low ↦ rw low (
      double_until_total fuel need ((cap * 2) % size_mod) (omega (arith, ltb→lt cap need low))
        (omega arith) small
        (let doubled : (cap * 2) % size_mod ≡ cap * 2 = omega (arith, ltb→lt cap need low) in
          rw doubled (omega (arith, ap (λ (t : ℕ). cap * t) (pow-suc 2 fuel)))))
  | inr high ↦ rw high (cap, refl, ground arith, fits)
]

-- What `ensure_capacity` gives: a refusal, which `realloc` made, or room for all.
pub ensure_capacity-cases :
    (alloc : ℕ → Bool) (b : Buf) (n : ℕ)
    → IsValid b
    → b.len + n < 9223372036854775808
    → ((ensure_capacity alloc b n ≡ none) × ((c : ℕ) × (alloc c ≡ false)))
      ⊎ ((c : ℕ) × (ensure_capacity alloc b n ≡ some (record b { cap = c }))
          × (b.len + n ≤ c)
          × (c < size_mod))
unfolding ensure_capacity first_cap
ensure_capacity-cases alloc b n v small =
    elim (Bool-cases (leb n ((b.cap + size_mod - b.len) % size_mod))) [
      | inl room ↦ inr (b.cap, ground arith, ground (arith, v.within, v.cap_fits), v.cap_fits)
      | inr tight ↦
          let (c, found, above, fits) =
            double_until_total 63 ((b.len + n) % size_mod) (first_cap b.cap) (ground arith)
              (ground (arith, v.cap_fits)) (omega arith) (ground arith) in
          elim (Bool-cases (alloc c)) [
            | inl met ↦ inr (c, ground (arith), ground arith, fits)
            | inr refused ↦ inl (ground arith, (c, refused))
          ]
    ]
