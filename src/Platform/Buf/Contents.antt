-- ===== src/Platform/Buf/Contents.antt =====
-- What a buffer holds: an append either adds all of its bytes or changes nothing.
use platform_service.Common.{
  ap, ◌<◌, ℕ, ◌+◌, ◌%◌, ◌<◌, ◌≡◌, refl, sym, ap, ◌⊎◌, inl, inr, Bool, true, false, [], ◌∷◌, ◌++◌,
  append-nil, arith, Bytes, length, length-append,
}
use platform_service.Platform.Buf.Growth.{IsValid, ensure_capacity-cases}
use platform_service.Platform.Buf.{Buf, size_mod, init, ensure_capacity, append}

-- The cases of an append to a valid buffer that stays below 2^63 bytes: it is refused and changes
-- nothing, since `realloc` refused a request, or it succeeds, adds the bytes and leaves it valid.
pub append-cases :
    (alloc : ℕ → Bool) (b : Buf) (bytes : Bytes)
    → IsValid b
    → b.len + length bytes < 9223372036854775808
    → ((append alloc b bytes ≡ (b, false)) × ((c : ℕ) × (alloc c ≡ false)))
      ⊎ ((b' : Buf) × (append alloc b bytes ≡ (b', true))
          × (b'.content ≡ b.content ++ bytes)
          × IsValid b')
unfolding append
append-cases alloc b [] v small = inr (b, refl, sym (append-nil b.content), v)
append-cases alloc b (x ∷ xs) v small =
    elim (ensure_capacity-cases alloc b (length (x ∷ xs)) v small) [
      | inl (refused, why) ↦ inl (ground arith, why)
      | inr (c, met, room, fits) ↦ inr (
        record {
          content = b.content ++ x ∷ xs;
          len = (b.len + length (x ∷ xs)) % size_mod;
          cap = c;
        },
        ground arith,
        refl,
        record {
          counted = omega (arith, length-append {0} b.content (x ∷ xs), v.counted);
          within = omega arith;
          cap_fits = fits;
        },
      )
    ]

-- Where `realloc` meets every request, an append to a valid buffer that stays below 2^63 bytes
-- succeeds.
pub append_total :
    (alloc : ℕ → Bool) (b : Buf) (bytes : Bytes)
    → IsValid b
    → b.len + length bytes < 9223372036854775808
    → ((c : ℕ) → alloc c ≡ true)
    → (append alloc b bytes).1 ≡ true
append_total alloc b bytes v small met = elim (append-cases alloc b bytes v small) [
  | inl (_, (c, refused)) ↦ cc (met c)
  | inr (b', done, _, _) ↦ ap (λ r. r.1) done
]

pub init-IsValid : IsValid init
unfolding init
init-IsValid = omega arith

-- Whatever its state, a buffer that reports success has taken all the bytes.
pub append-content :
    (alloc : ℕ → Bool) (b : Buf) (bytes : Bytes)
    → (append alloc b bytes).1 ≡ true
    → (append alloc b bytes).0.content ≡ b.content ++ bytes
unfolding append ensure_capacity
append-content alloc b [] h = sym (append-nil b.content)
append-content alloc b (x ∷ xs) h = ground arith

-- Where `realloc` meets every request: the buffer behind an append, for callers that chain them.
pub append-met :
    (alloc : ℕ → Bool) (b : Buf) (bytes : Bytes)
    → ((c : ℕ) → alloc c ≡ true)
    → IsValid b
    → b.len + length bytes < 9223372036854775808
    → (b' : Buf) × (append alloc b bytes ≡ (b', true))
      × (b'.content ≡ b.content ++ bytes)
      × IsValid b'
      × (b'.len ≡ b.len + length bytes)
append-met alloc b bytes met v small = elim (append-cases alloc b bytes v small) [
  | inl (_, (c, refused)) ↦ cc (met c)
  | inr (b', done, holds, v') ↦ (
    b',
    done,
    holds,
    v',
    omega (arith, v'.counted, v.counted, ap length holds, length-append {0} b.content bytes),
  )
]
