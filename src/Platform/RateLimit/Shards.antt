-- ===== src/Platform/RateLimit/Shards.antt =====
-- What a shard keeps: its number of slots, the count of those in use, and its bound.
use native.Mathlib.Nat.{mod-lt}
use platform_service.Common.{
  ℕ, zero, suc, ◌+◌, ◌*◌, ◌%◌, ◌≤◌, ◌<◌, ◌≡◌, refl, ap, ◌∙◌, ◌≢◌, ◌⊎◌, inl, inr, Bool, true, false,
  ◌&&◌, List, [], ◌∷◌, arith, Bytes, ltb, Bool-cases, length, set, get_or,
}
use platform_service.Platform.RateLimit.{
  Double, Slot, Shard, int64_max, Probe, found, vacant, full, blank, key_equal, probe_from,
  victim_from,
}

abbrev bit : Bool → ℕ
bit true = 1
bit false = 0

module _ {F : Type 0} where
  -- How many slots are in use.
  unfoldable pub in_use : List (Slot F) → ℕ
  in_use [] = 0
  in_use (e ∷ es) = bit e.occupied + in_use es

  -- No slot in use was used at the end of time.
  unfoldable pub Timed : List (Slot F) → Type 0
  Timed [] = Unit {0}
  Timed (e ∷ es) = (e.last_used < int64_max) × Timed es

  pub record IsValid (shard : Shard F) : Type 0 where
    pub sized : length shard.slots ≡ shard.cap * 2
    pub room : 0 < shard.cap
    pub counted : in_use shard.slots ≡ shard.occupied
    pub bounded : shard.occupied ≤ shard.cap
    pub timed : Timed shard.slots

  pub get_or-set_ne :
      (es : List (Slot F)) (i j : ℕ) (e d : Slot F)
      → i ≢ j
      → get_or (set es i e) j d ≡ get_or es j d
  get_or-set_ne [] i j e d ne = refl
  get_or-set_ne (x ∷ xs) zero zero e d ne = absurd (ne refl)
  get_or-set_ne (x ∷ xs) zero (suc j) e d ne = refl
  get_or-set_ne (x ∷ xs) (suc i) zero e d ne = refl
  get_or-set_ne (x ∷ xs) (suc i) (suc j) e d ne = get_or-set_ne xs i j e d (λ p. ne (ap suc p))

  pub in_use-set :
      (es : List (Slot F)) (i : ℕ) (e d : Slot F)
      → i < length es
      → in_use (set es i e) + bit (get_or es i d).occupied ≡ in_use es + bit e.occupied
  unfolding in_use
  in_use-set [] i e d h = absurd (omega arith)
  in_use-set (x ∷ xs) zero e d h = omega arith
  in_use-set (x ∷ xs) (suc i) e d h = omega (arith, in_use-set xs i e d (omega arith))

  pub Timed-set :
      (es : List (Slot F)) (i : ℕ) (e : Slot F)
      → Timed es
      → e.last_used < int64_max
      → Timed (set es i e)
  unfolding Timed
  Timed-set [] i e t h = tt
  Timed-set (x ∷ xs) zero e t h = (h, t.1)
  Timed-set (x ∷ xs) (suc i) e t h = (t.0, Timed-set xs i e t.1 h)

module _ {F : Type 0} (fl : Double F) where
  -- A slot in use at an index from `i` on.
  pub record IsInUse (es : List (Slot F)) (i r : ℕ) : Type 0 where
    pub offset : ℕ
    pub at : r ≡ i + offset
    pub inside : offset < length es
    pub busy : (get_or es offset (blank fl)).occupied ≡ true

  IsInUse-behind :
      (e : Slot F) (es : List (Slot F)) (i r : ℕ) → IsInUse es (i + 1) r → IsInUse (e ∷ es) i r
  IsInUse-behind e es i r u = record {
    offset = suc u.offset;
    at = omega (arith, u.at);
    inside = omega (arith, u.inside);
    busy = u.busy;
  }

  victim_cases :
      (es : List (Slot F)) (i victim oldest : ℕ)
      → (victim_from fl es i victim oldest ≡ victim)
        ⊎ IsInUse es i (victim_from fl es i victim oldest)
  unfolding victim_from
  victim_cases [] i victim oldest = inl refl
  victim_cases (e ∷ es) i victim oldest = elim (Bool-cases (e.occupied && ltb e.last_used oldest)) [
    | inl older ↦ elim (victim_cases es (i + 1) i e.last_used) [
      | inl stays ↦ inr (record {
        offset = 0;
        at = rw older (stays ∙ omega arith);
        inside = omega arith;
        busy = ground arith;
      })
      | inr later ↦ inr (IsInUse-behind e es i _ (rw older later))
    ]
    | inr younger ↦ elim (victim_cases es (i + 1) victim oldest) [
      | inl stays ↦ inl (rw younger stays)
      | inr later ↦ inr (IsInUse-behind e es i _ (rw younger later))
    ]
  ]

  pub victim_from-IsInUse :
      (es : List (Slot F)) (i victim : ℕ)
      → 0 < in_use es
      → Timed es
      → IsInUse es i (victim_from fl es i victim int64_max)
  unfolding victim_from in_use Timed
  victim_from-IsInUse [] i victim some_ t = absurd (omega arith)
  victim_from-IsInUse (e ∷ es) i victim some_ t = elim (Bool-cases e.occupied) [
    | inl busy ↦
        let older : (e.occupied && ltb e.last_used int64_max) ≡ true = ground (arith, t.0) in
        elim (victim_cases es (i + 1) i e.last_used) [
          | inl stays ↦ record {
            offset = 0;
            at = rw older (stays ∙ omega arith);
            inside = omega arith;
            busy = busy;
          }
          | inr later ↦ IsInUse-behind e es i _ (rw older later)
        ]
    | inr free ↦
        let younger : (e.occupied && ltb e.last_used int64_max) ≡ false = ground arith in
        IsInUse-behind e es i _
          (rw younger (victim_from-IsInUse es (i + 1) victim (ground arith) t.1))
  ]

  pub in_use-some :
      (es : List (Slot F)) (k : ℕ)
      → k < length es
      → (get_or es k (blank fl)).occupied ≡ true
      → 0 < in_use es
  unfolding in_use
  in_use-some [] k inside busy = absurd (omega arith)
  in_use-some (e ∷ es) zero inside busy = ground arith
  in_use-some (e ∷ es) (suc k) inside busy = omega (arith, in_use-some es k (omega arith) busy)

  -- What a probe tells of the slot that it ends at.
  unfoldable pub Probed : List (Slot F) → Bytes → Probe → Type 0
  Probed es key (found idx) =
      (idx < length es) × (key_equal fl (get_or es idx (blank fl)) key ≡ true)
  Probed es key (vacant idx) = (idx < length es) × ((get_or es idx (blank fl)).occupied ≡ false)
  Probed es key full = Unit {0}

  pub probe_from-Probed :
      (es : List (Slot F)) (key : Bytes) (start left probe : ℕ)
      → 0 < length es
      → Probed es key (probe_from fl es key start left probe)
  unfolding probe_from Probed
  probe_from-Probed es key start zero probe some_ = tt
  probe_from-Probed es key start (suc left) probe some_ =
      let idx = (start + probe) % length es in
      let inside : idx < length es = mod-lt (start + probe) some_ in
      elim (Bool-cases (key_equal fl (get_or es idx (blank fl)) key)) [
        | inl same ↦ rw same (inside, same)
        | inr other ↦ elim (Bool-cases (get_or es idx (blank fl)).occupied) [
          | inl busy ↦ rw (other, busy) (probe_from-Probed es key start left (probe + 1) some_)
          | inr free ↦ rw (other, free) (inside, free)
        ]
      ]
