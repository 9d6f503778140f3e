-- ===== src/Platform/RateLimit/Upkeep.antt =====
-- A call keeps what a shard keeps.
use native.Mathlib.Nat.{mod-lt}
use platform_service.Common.{
  ℕ, zero, suc, ◌+◌, ◌-◌, ◌%◌, ◌<◌, ◌≡◌, refl, ◌∙◌, subst, inl, inr, true, false, List, arith,
  Bytes, ltb, ltb→lt, Bool-cases, length, set, length-set, get_or,
}
use platform_service.Platform.RateLimit.{
  Double, Slot, Shard, int64_max, Probe, found, vacant, full, blank, key_equal, consume, spend,
  refilled, probe_from, victim_from, put_new, evict, use_slot, answer, allow_in,
}
use platform_service.Platform.RateLimit.Shards.{
  in_use, IsValid, in_use-set, Timed-set, victim_from-IsInUse, in_use-some, Probed,
  probe_from-Probed,
}

module _ {F : Type 0} (fl : Double F) where
  -- A bucket is used: it keeps its key and stays in use.
  pub record IsUse (e e' : Slot F) (now : ℕ) : Type 0 where
    pub same_use : e'.occupied ≡ e.occupied
    pub same_key : e'.key ≡ e.key
    pub at_now : e'.last_used ≡ now

  spend-IsUse : (e : Slot F) → IsUse e (spend fl e).0 e.last_used
  unfolding spend
  spend-IsUse e = elim (Bool-cases (fl.less e.tokens (fl.of_int 1))) [
    | inl empty ↦ rw empty (record { same_use = refl; same_key = refl; at_now = refl })
    | inr some_ ↦ rw some_ (record { same_use = refl; same_key = refl; at_now = refl })
  ]

  pub consume-IsUse :
      (e : Slot F) (per_minute now : ℕ) → IsUse e (consume fl e per_minute now).0 now
  unfolding consume
  consume-IsUse e per_minute now = elim (Bool-cases (ltb e.last_refill now)) [
    | inl later ↦
        let s = spend-IsUse (record e {
          tokens = refilled fl e per_minute (now - e.last_refill);
          last_refill = now;
          last_used = now;
        }) in
        rw later (record { same_use = s.same_use; same_key = s.same_key; at_now = s.at_now })
    | inr at ↦
        let s = spend-IsUse (record e { last_used = now }) in
        rw at (record { same_use = s.same_use; same_key = s.same_key; at_now = s.at_now })
  ]

  -- A slot that was in use is used, by its own key or by a new one.
  pub put-IsValid :
      (shard : Shard F) (idx now : ℕ) (e : Slot F)
      → IsValid shard
      → idx < length shard.slots
      → (get_or shard.slots idx (blank fl)).occupied ≡ true
      → e.occupied ≡ true
      → e.last_used ≡ now
      → now < int64_max
      → IsValid (record shard { slots = set shard.slots idx e })
  put-IsValid shard idx now e v inside busy used at small = record {
    sized = length-set shard.slots idx e ∙ v.sized;
    room = v.room;
    counted = ground (arith, in_use-set shard.slots idx e (blank fl) inside, v.counted);
    bounded = v.bounded;
    timed = Timed-set shard.slots idx e v.timed (omega arith);
  }

  -- A free slot is taken, where the shard is below its bound.
  pub fill-IsValid :
      (shard : Shard F) (idx now : ℕ) (e : Slot F)
      → IsValid shard
      → idx < length shard.slots
      → (get_or shard.slots idx (blank fl)).occupied ≡ false
      → e.occupied ≡ true
      → e.last_used ≡ now
      → now < int64_max
      → shard.occupied < shard.cap
      → IsValid (record shard { slots = set shard.slots idx e; occupied = shard.occupied + 1 })
  fill-IsValid shard idx now e v inside free used at small below = record {
    sized = length-set shard.slots idx e ∙ v.sized;
    room = v.room;
    counted = ground (arith, in_use-set shard.slots idx e (blank fl) inside, v.counted);
    bounded = omega arith;
    timed = Timed-set shard.slots idx e v.timed (omega arith);
  }

  pub evict-IsValid :
      (shard : Shard F) (key : Bytes) (per_minute now : ℕ)
      → IsValid shard
      → 0 < in_use shard.slots
      → now < int64_max
      → IsValid (evict fl shard key per_minute now).0
  unfolding evict put_new
  evict-IsValid shard key per_minute now v some_ small =
      let idx = victim_from fl shard.slots 0 0 int64_max in
      let u = victim_from-IsInUse fl shard.slots 0 0 some_ v.timed in
      let used =
        consume-IsUse
          (record (get_or shard.slots idx (blank fl)) {
            key = key;
            occupied = true;
            tokens = fl.of_int per_minute;
            last_refill = now;
          })
          per_minute now in
      put-IsValid shard idx now _ v (omega (arith, u.at, u.inside))
        (subst (λ j. (get_or shard.slots j (blank fl)).occupied ≡ true) (omega (arith, u.at))
          u.busy)
        used.same_use used.at_now small

  probe_full :
      (es : List (Slot F)) (key : Bytes) (start left probe : ℕ)
      → 0 < length es
      → 0 < left
      → probe_from fl es key start left probe ≡ full
      → 0 < in_use es
  unfolding probe_from
  probe_full es key start zero probe some_ pos h = absurd (omega arith)
  probe_full es key start (suc left) probe some_ pos h =
      let idx = (start + probe) % length es in
      in_use-some fl es idx (mod-lt (start + probe) some_) (ground arith)

  -- Whatever the probe tells, the shard keeps its number of slots, its count and its bound.
  answer-IsValid :
      (shard : Shard F) (key : Bytes) (per_minute now : ℕ) (p : Probe)
      → IsValid shard
      → now < int64_max
      → Probed fl shard.slots key p
      → (p ≡ full → 0 < in_use shard.slots)
      → IsValid (answer fl shard key per_minute now p).0
  unfolding answer Probed use_slot put_new
  answer-IsValid shard key per_minute now (found idx) v small at some_ =
      let used = consume-IsUse (get_or shard.slots idx (blank fl)) per_minute now in
      let busy : (get_or shard.slots idx (blank fl)).occupied ≡ true =
        unfold key_equal in ground (arith, at.1) in
      put-IsValid shard idx now _ v at.0 busy (used.same_use ∙ busy) used.at_now small
  answer-IsValid shard key per_minute now (vacant idx) v small at some_ =
      elim (Bool-cases (ltb shard.occupied shard.cap)) [
        | inl below ↦
            let used =
              consume-IsUse
                (record (get_or shard.slots idx (blank fl)) {
                  key = key;
                  occupied = true;
                  tokens = fl.of_int per_minute;
                  last_refill = now;
                })
                per_minute now in
            rw below (
              fill-IsValid shard idx now _ v at.0 at.1 used.same_use used.at_now small
                (ltb→lt _ _ below))
        | inr above ↦ rw above (
            evict-IsValid shard key per_minute now v (ground (arith, v.room, v.bounded, v.counted))
              small)
      ]
  answer-IsValid shard key per_minute now full v small at some_ =
      evict-IsValid shard key per_minute now v (some_ refl) small

  -- A call keeps the shard's number of slots, its count of slots in use and its bound.
  pub allow_in-IsValid :
      (shard : Shard F) (h : ℕ) (key : Bytes) (per_minute now : ℕ)
      → IsValid shard
      → now < int64_max
      → IsValid (allow_in fl shard h key per_minute now).0
  unfolding allow_in
  allow_in-IsValid shard h key per_minute now v small =
      let start = h % length shard.slots in
      let some_ : 0 < length shard.slots = omega (arith, v.sized, v.room) in
      answer-IsValid shard key per_minute now
        (probe_from fl shard.slots key start (length shard.slots) 0) v small
        (probe_from-Probed fl shard.slots key start (length shard.slots) 0 some_)
        (λ e. probe_full shard.slots key start (length shard.slots) 0 some_ some_ e)
