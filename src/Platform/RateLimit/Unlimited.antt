-- ===== src/Platform/RateLimit/Unlimited.antt =====
-- Buckets that are new, and what becomes of a key whose bucket cannot be found again.
use platform_service.Common.{
  ℕ, zero, suc, ◌+◌, ◌%◌, ◌<◌, ◌≡◌, refl, ap, subst, ◌≢◌, inl, inr, Bool, true, false, ◌||◌, List,
  [], ◌∷◌, arith, Bytes, ltb, if◌then◌else◌, Bool-cases, length, set, length-set, get_or,
}
use native.Mathlib.Nat.{mod-eq_of_lt, mod-lt}
use platform_service.Platform.RateLimit.{
  Double, Slot, Shard, int64_max, Probe, found, vacant, full, blank, key_equal, consume, spend,
  probe_from, victim_from, put_new, evict, answer, allow_in,
}
use platform_service.Platform.RateLimit.Shards.{in_use, IsValid, get_or-set_ne, victim_from-IsInUse}
use platform_service.Platform.RateLimit.Upkeep.{evict-IsValid}

-- Times before the end of `int64_t`.
abbrev pub Early : List ℕ → Type 0
Early [] = Unit {0}
Early (t ∷ ts) = (t < int64_max) × Early ts

module _ {F : Type 0} (fl : Double F) where
  -- Whether a slot holds the key.
  unfoldable pub held : List (Slot F) → Bytes → Bool
  held [] key = false
  held (e ∷ es) key = key_equal fl e key || held es key

  -- A shard at its bound, in which the slot that a hash leads to is free.
  pub record IsShut (shard : Shard F) (h : ℕ) : Type 0 where
    pub valid : IsValid shard
    pub at_bound : shard.occupied ≡ shard.cap
    pub start_free : (get_or shard.slots (h % length shard.slots) (blank fl)).occupied ≡ false

  -- How many requests for the key are refused, of those at the given times.
  pub refusals : Shard F → ℕ → Bytes → ℕ → List ℕ → ℕ
  refusals shard h key per_minute [] = 0
  refusals shard h key per_minute (now ∷ times) =
      let (shard', allowed) = allow_in fl shard h key per_minute now in
      let rest = refusals shard' h key per_minute times in if allowed then rest else rest + 1

module _ {F : Type 0} (fl : Double F)
    (exact : (n : ℕ) → 0 < n → fl.less (fl.of_int n) (fl.of_int 1) ≡ false) where
  put_new_allows :
      (shard : Shard F) (idx : ℕ) (key : Bytes) (per_minute now : ℕ)
      → 0 < per_minute
      → (put_new fl shard idx key per_minute now).1 ≡ true
  unfolding put_new consume spend
  put_new_allows shard idx key per_minute now pos =
      let same : ltb now now ≡ false = ground arith in rw (same, exact per_minute pos) refl

  evict_allows :
      (shard : Shard F) (key : Bytes) (per_minute now : ℕ)
      → 0 < per_minute
      → (evict fl shard key per_minute now).1 ≡ true
  unfolding evict
  evict_allows shard key per_minute now pos = put_new_allows shard _ key per_minute now pos

  not_held :
      (es : List (Slot F)) (key : Bytes) (k : ℕ)
      → k < length es
      → held fl es key ≡ false
      → key_equal fl (get_or es k (blank fl)) key ≡ false
  unfolding held
  not_held [] key k inside h = absurd (omega arith)
  not_held (e ∷ es) key zero inside h = ground arith
  not_held (e ∷ es) key (suc k) inside h = not_held es key k (omega arith) (ground arith)

  probe_of_new :
      (es : List (Slot F)) (key : Bytes) (start left probe k : ℕ)
      → 0 < length es
      → held fl es key ≡ false
      → probe_from fl es key start left probe ≢ found k
  unfolding probe_from
  probe_of_new es key start zero probe k some_ new = λ h. cc
  probe_of_new es key start (suc left) probe k some_ new =
      let idx = (start + probe) % length es in
      let other = not_held es key idx (mod-lt (start + probe) some_) new in
      elim (Bool-cases (get_or es idx (blank fl)).occupied) [
        | inl busy ↦ rw (other, busy) (probe_of_new es key start left (probe + 1) k some_ new)
        | inr free ↦ rw (other, free) (λ h. cc)
      ]

  answer_allows :
      (shard : Shard F) (key : Bytes) (per_minute now : ℕ) (p : Probe)
      → 0 < per_minute
      → ((k : ℕ) → p ≢ found k)
      → (answer fl shard key per_minute now p).1 ≡ true
  unfolding answer
  answer_allows shard key per_minute now (found k) pos new = absurd (new k refl)
  answer_allows shard key per_minute now (vacant k) pos new =
      elim (Bool-cases (ltb shard.occupied shard.cap)) [
        | inl below ↦ rw below (
            put_new_allows (record shard { occupied = shard.occupied + 1 }) k key per_minute now
              pos)
        | inr above ↦ rw above (evict_allows shard key per_minute now pos)
      ]
  answer_allows shard key per_minute now full pos new = evict_allows shard key per_minute now pos

  -- The first request for a key that no slot holds is allowed, under a budget that is not zero.
  pub new_key_allowed :
      (shard : Shard F) (h : ℕ) (key : Bytes) (per_minute now : ℕ)
      → IsValid shard
      → held fl shard.slots key ≡ false
      → 0 < per_minute
      → (allow_in fl shard h key per_minute now).1 ≡ true
  unfolding allow_in
  new_key_allowed shard h key per_minute now v new pos =
      answer_allows shard key per_minute now _ pos (λ k.
        probe_of_new shard.slots key (h % length shard.slots) (length shard.slots) 0 k
          (omega (arith, v.sized, v.room)) new)

  probe_free :
      (es : List (Slot F)) (key : Bytes) (start left : ℕ)
      → 0 < left
      → start < length es
      → (get_or es start (blank fl)).occupied ≡ false
      → probe_from fl es key start left 0 ≡ vacant start
  unfolding probe_from key_equal
  probe_free es key start zero some_ inside free = absurd (omega arith)
  probe_free es key start (suc left) some_ inside free =
      let idx : (start + 0) % length es ≡ start = grind (arith, mod-eq_of_lt) in rw (idx, free) refl

  set_keeps_free :
      (es : List (Slot F)) (i j : ℕ) (e : Slot F)
      → (get_or es i (blank fl)).occupied ≡ true
      → (get_or es (j % length es) (blank fl)).occupied ≡ false
      → (get_or (set es i e) (j % length (set es i e)) (blank fl)).occupied ≡ false
  set_keeps_free es i j e busy free =
      let apart : i ≢ j % length es = λ p. cc (ap (λ k. (get_or es k (blank fl)).occupied) p) in
      rw (length-set es i e, get_or-set_ne es i (j % length es) e (blank fl) apart) free

  -- Another slot in use is given to the key, so that its own start stays free.
  allow_in-IsShut :
      (shard : Shard F) (h : ℕ) (key : Bytes) (per_minute now : ℕ)
      → IsShut fl shard h
      → 0 < per_minute
      → now < int64_max
      → ((allow_in fl shard h key per_minute now).1 ≡ true)
        × IsShut fl (allow_in fl shard h key per_minute now).0 h
  unfolding allow_in answer
  allow_in-IsShut shard h key per_minute now s pos small =
      let n = length shard.slots in
      let some_ : 0 < n = omega (arith, s.valid.sized, s.valid.room) in
      let busy : 0 < in_use shard.slots =
        omega (arith, s.valid.counted, s.at_bound, s.valid.room) in
      let u = victim_from-IsInUse fl shard.slots 0 0 busy s.valid.timed in
      let free = probe_free shard.slots key (h % n) n some_ (mod-lt h some_) s.start_free in
      let shut : ltb shard.occupied shard.cap ≡ false = ground (arith, s.at_bound) in
      rw (free, shut)
        (
          evict_allows shard key per_minute now pos,
          record {
            valid = evict-IsValid fl shard key per_minute now s.valid busy small;
            at_bound = s.at_bound;
            start_free =
                set_keeps_free shard.slots (victim_from fl shard.slots 0 0 int64_max) h _
                  (subst (λ j. (get_or shard.slots j (blank fl)).occupied ≡ true)
                    (omega (arith, u.at)) u.busy)
                  s.start_free;
          },
        )

  -- In a shard at its bound, a key whose first slot is free is never refused, however many requests
  -- come and at whatever times: each finds no bucket, and evicts one to begin with a full one.
  pub refusals_lem :
      (shard : Shard F) (h : ℕ) (key : Bytes) (per_minute : ℕ) (times : List ℕ)
      → IsShut fl shard h
      → 0 < per_minute
      → Early times
      → refusals fl shard h key per_minute times ≡ 0
  unfolding refusals
  refusals_lem shard h key per_minute [] s pos early = refl
  refusals_lem shard h key per_minute (now ∷ times) s pos early =
      let step = allow_in-IsShut shard h key per_minute now s pos early.0 in
      rw step.0 (
        refusals_lem (allow_in fl shard h key per_minute now).0 h key per_minute times step.1 pos
          early.1)
