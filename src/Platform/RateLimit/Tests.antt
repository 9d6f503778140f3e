-- ===== src/Platform/RateLimit/Tests.antt =====
-- Runs of the limiter with whole numbers for `double`, and instances of its theorems.
use platform_service.Common.{
  ℕ, ◌+◌, ◌-◌, ◌*◌, ◌/◌, ◌<◌, String, ◌≡◌, refl, true, false, [], ◌∷◌, arith, codes, ltb, length,
  equal,
}
use platform_service.Platform.RateLimit.{
  Double, Slot, Shard, blank, key_equal, consume, create, allow_in,
}
use platform_service.Platform.RateLimit.Shards.{in_use, Timed, IsValid}
use platform_service.Platform.RateLimit.Limiter.{AllValid, cap_of, Ask, run, run-AllValid}
use platform_service.Platform.RateLimit.Unlimited.{refusals, refusals_lem}

-- Whole numbers, which a refill of a whole token needs no fraction of.
abbrev whole : Double ℕ
whole = record {
  of_int = λ n. n;
  add = λ a b. a + b;
  sub = λ a b. a - b;
  mul = λ a b. a * b;
  div = λ a b. a / b;
  less = ltb;
}

abbrev slot : String → ℕ → Slot ℕ
slot k n = record { key = codes k; occupied = true; tokens = n; last_refill = 1; last_used = 1 }

-- One entry of at most one, in the second slot.
abbrev at_bound : Shard ℕ
at_bound = record { slots = blank whole ∷ slot "a" 0 ∷ []; cap = 1; occupied = 1 }

-- The bucket is found and empty; a minute later it has a token.
limits :
    ((allow_in whole at_bound 1 (codes "a") 1 2).1 ≡ false)
    × ((allow_in whole at_bound 1 (codes "a") 1 60000000001).1 ≡ true)
unfolding allow_in key_equal equal consume
limits = (refl, refl)

at_bound-IsValid : IsValid at_bound
unfolding in_use Timed
at_bound-IsValid = record {
  sized = refl;
  room = omega arith;
  counted = refl;
  bounded = omega arith;
  timed = (omega arith, (omega arith, tt));
}

exact : (n : ℕ) → 0 < n → ltb n 1 ≡ false
exact n h = ground arith

refusals_lem_example : refusals whole at_bound 0 (codes "b") 1 (5 ∷ 5 ∷ 5 ∷ []) ≡ 0
refusals_lem_example =
    refusals_lem whole exact at_bound 0 (codes "b") 1 (5 ∷ 5 ∷ 5 ∷ [])
      (record { valid = at_bound-IsValid; at_bound = refl; start_free = refl }) (omega arith)
      (omega arith, (omega arith, (omega arith, tt)))

abbrev ask : Ask
ask = record { key = codes "login:7"; per_minute = 3; now = 9 }

run-AllValid_example :
    AllValid whole (cap_of whole 32) (run whole (create whole 32) (ask ∷ []))
    × (length (run whole (create whole 32) (ask ∷ [])) ≡ 16)
run-AllValid_example = run-AllValid whole 32 (ask ∷ []) (omega arith, tt)
