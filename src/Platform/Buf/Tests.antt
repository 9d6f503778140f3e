-- ===== src/Platform/Buf/Tests.antt =====
-- Runs of the buffer, and instances of its theorems.
use platform_service.Common.{ℕ, ◌≡◌, refl, Bool, true, false, codes, ltb}
use platform_service.Platform.Buf.{init, append, double_until, ensure_capacity, first_cap}

abbrev met : ℕ → Bool
met _ = true

append-init :
    append met init (codes "ab") ≡ (record { content = codes "ab"; len = 2; cap = 256 }, true)
unfolding append init ensure_capacity double_until first_cap
append-init = refl

append_refused : append (λ c. ltb c 256) init (codes "ab") ≡ (init, false)
unfolding append init ensure_capacity double_until first_cap
append_refused = refl
