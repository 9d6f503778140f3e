-- ===== src/Platform/Buf.antt =====
-- The growable byte buffer, src/platform/buf.c and buf.h. `content` holds the `len` bytes in use.
-- `realloc` is the argument `alloc`, which says whether a request of so many bytes is met.
-- `size_t` is 64 bits wide and wraps.
pub mod Growth
pub mod Contents
mod Tests
use platform_service.Common.{
  ℕ, zero, suc, ◌+◌, ◌-◌, ◌*◌, ◌%◌, Bool, true, false, List, [], ◌∷◌, ◌++◌, Option, none, some, ltb,
  leb, ◌==◌, if◌then◌else◌, length, Bytes,
}

pub record Buf : Type 0 where
  pub content : Bytes
  pub len : ℕ
  pub cap : ℕ

abbrev pub size_mod : ℕ
size_mod = 18446744073709551616

unfoldable pub init : Buf
init = record { content = []; len = 0; cap = 0 }

-- `while (cap < need) cap *= 2`; `none` means that the fuel ran out.
unfoldable pub double_until : ℕ → ℕ → ℕ → Option ℕ
double_until zero need cap = none
double_until (suc fuel) need cap =
    let rest = double_until fuel need ((cap * 2) % size_mod) in
    if ltb cap need then rest else some cap

abbrev pub growth_fuel : ℕ
growth_fuel = 64

unfoldable pub first_cap : ℕ → ℕ
first_cap cap = if cap == 0 then 256 else cap

grown : (ℕ → Bool) → Buf → Option ℕ → Option Buf
grown alloc b none = none
grown alloc b (some cap) = if alloc cap then some (record b { cap = cap }) else none

-- `none` where the source returns false.
unfoldable pub ensure_capacity : (ℕ → Bool) → Buf → ℕ → Option Buf
unfolding grown
ensure_capacity alloc b additional =
    if leb additional ((b.cap + size_mod - b.len) % size_mod)
    then some b
    else grown alloc b
        (double_until growth_fuel ((b.len + additional) % size_mod) (first_cap b.cap))

write : Buf → Bytes → Buf
write b bytes = record b { content = b.content ++ bytes; len = (b.len + length bytes) % size_mod }

written : Buf → Bytes → Option Buf → Buf × Bool
unfolding write
written b bytes none = (b, false)
written b bytes (some b') = (write b' bytes, true)

-- The buffer behind the call, and its result.
unfoldable pub append : (ℕ → Bool) → Buf → Bytes → Buf × Bool
unfolding written
append alloc b bytes =
    if length bytes == 0
    then (b, true)
    else written b bytes (ensure_capacity alloc b (length bytes))

unfoldable pub append_char : (ℕ → Bool) → Buf → ℕ → Buf × Bool
append_char alloc b c = append alloc b (c ∷ [])

pub free : Buf → Buf
free b = record { content = []; len = 0; cap = 0 }
