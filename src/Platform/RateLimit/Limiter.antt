-- ===== src/Platform/RateLimit/Limiter.antt =====
-- The shards together: the bound on the entries holds from the start, whatever calls come.
use platform_service.Common.{
  ℕ, zero, suc, ◌-◌, ◌*◌, ◌/◌, ◌%◌, ◌<◌, ◌≡◌, refl, ◌∙◌, inl, inr, List, [], ◌∷◌, arith, Bytes, ltb,
  ◌==◌, Bool-cases, length, set, length-set, get_or, take, replicate, length-replicate,
}
use platform_service.Platform.RateLimit.{
  Double, Shard, int64_max, shard_count, key_max, Probe, found, vacant, full, blank, max_one,
  new_shard, create, hash_key, no_shard, evict, put_new, use_slot, answer, allow_in, allow_at,
}
use platform_service.Platform.RateLimit.Shards.{in_use, Timed, IsValid}
use platform_service.Platform.RateLimit.Upkeep.{allow_in-IsValid}

-- A call: its key, its budget and its time.
pub record Ask : Type 0 where
  pub key : Bytes
  pub per_minute : ℕ
  pub now : ℕ

abbrev pub AllEarly : List Ask → Type 0
AllEarly [] = Unit {0}
AllEarly (r ∷ rs) = (r.now < int64_max) × AllEarly rs

module _ {F : Type 0} (fl : Double F) where
  -- Each shard is valid and has this bound.
  pub AllValid : ℕ → List (Shard F) → Type 0
  AllValid cap [] = Unit {0}
  AllValid cap (s ∷ ss) = (IsValid s × (s.cap ≡ cap)) × AllValid cap ss

  AllValid-get :
      (cap : ℕ) (ss : List (Shard F)) (i : ℕ)
      → i < length ss
      → AllValid cap ss
      → IsValid (get_or ss i (no_shard fl)) × ((get_or ss i (no_shard fl)).cap ≡ cap)
  unfolding AllValid
  AllValid-get cap [] i inside all = absurd (omega arith)
  AllValid-get cap (s ∷ ss) zero inside all = all.0
  AllValid-get cap (s ∷ ss) (suc i) inside all = AllValid-get cap ss i (omega arith) all.1

  AllValid-set :
      (cap : ℕ) (ss : List (Shard F)) (i : ℕ) (s : Shard F)
      → AllValid cap ss
      → IsValid s × (s.cap ≡ cap)
      → AllValid cap (set ss i s)
  unfolding AllValid
  AllValid-set cap [] i s all one = tt
  AllValid-set cap (x ∷ ss) zero s all one = (one, all.1)
  AllValid-set cap (x ∷ ss) (suc i) s all one = (all.0, AllValid-set cap ss i s all.1 one)

  in_use-blank : (n : ℕ) → in_use (replicate n (blank fl)) ≡ 0
  unfolding in_use
  in_use-blank zero = refl
  in_use-blank (suc n) = omega (arith, in_use-blank n)

  Timed-blank : (n : ℕ) → Timed (replicate n (blank fl))
  unfolding Timed
  Timed-blank zero = tt
  Timed-blank (suc n) = (omega arith, Timed-blank n)

  new_shard-IsValid :
      (cap : ℕ) → 0 < cap → IsValid (new_shard fl cap) × ((new_shard fl cap).cap ≡ cap)
  unfolding new_shard
  new_shard-IsValid cap pos = (
    record {
      sized = length-replicate (cap * 2) (blank fl);
      room = pos;
      counted = in_use-blank (cap * 2);
      bounded = omega arith;
      timed = Timed-blank (cap * 2);
    },
    refl,
  )

  AllValid-replicate :
      (cap n : ℕ) (s : Shard F) → IsValid s × (s.cap ≡ cap) → AllValid cap (replicate n s)
  unfolding AllValid
  AllValid-replicate cap zero s one = tt
  AllValid-replicate cap (suc n) s one = (one, AllValid-replicate cap n s one)

  abbrev pub cap_of : ℕ → ℕ
  cap_of max_entries = max_one fl (max_one fl max_entries / shard_count)

  create-AllValid : (max_entries : ℕ) → AllValid (cap_of max_entries) (create fl max_entries)
  unfolding create
  create-AllValid max_entries =
      AllValid-replicate (cap_of max_entries) shard_count (new_shard fl (cap_of max_entries))
        (new_shard-IsValid (cap_of max_entries) (ground arith))

  answer_cap :
      (shard : Shard F) (key : Bytes) (per_minute now : ℕ) (p : Probe)
      → (answer fl shard key per_minute now p).0.cap ≡ shard.cap
  unfolding answer evict put_new use_slot
  answer_cap shard key per_minute now (found k) = refl
  answer_cap shard key per_minute now (vacant k) =
      elim (Bool-cases (ltb shard.occupied shard.cap)) [
        | inl below ↦ rw below refl
        | inr above ↦ rw above refl
      ]
  answer_cap shard key per_minute now full = refl

  unfoldable pub run : List (Shard F) → List Ask → List (Shard F)
  run shards [] = shards
  run shards (r ∷ rs) = run (allow_at fl shards r.key r.per_minute r.now).0 rs

  allow_at-AllValid :
      (cap : ℕ) (shards : List (Shard F)) (r : Ask)
      → AllValid cap shards
      → length shards ≡ 16
      → r.now < int64_max
      → AllValid cap (allow_at fl shards r.key r.per_minute r.now).0
        × (length (allow_at fl shards r.key r.per_minute r.now).0 ≡ 16)
  unfolding allow_at
  allow_at-AllValid cap shards r all sixteen small = elim (Bool-cases (r.per_minute == 0)) [
    | inl none_ ↦ rw none_ (all, sixteen)
    | inr some_ ↦
        let bounded = take (key_max - 1) r.key in
        let h = hash_key bounded in
        let i = h % shard_count in
        let inside : i < length shards = omega (arith, sixteen) in
        let one = AllValid-get cap shards i inside all in
        let shard = get_or shards i (no_shard fl) in
        let kept = allow_in-IsValid fl shard h bounded r.per_minute r.now one.0 small in
        let same : (allow_in fl shard h bounded r.per_minute r.now).0.cap ≡ cap =
          unfold allow_in in answer_cap shard bounded r.per_minute r.now _ ∙ one.1 in
        rw some_ (AllValid-set cap shards i _ all (kept, same), length-set shards i _ ∙ sixteen)
  ]

  -- Behind any calls on a limiter that was made for `max_entries` entries, there are 16 shards, and each
  -- is valid with the bound that `ps_ratelimiter_create` gave it: the table never grows.
  pub run-AllValid :
      (max_entries : ℕ) (rs : List Ask)
      → AllEarly rs
      → AllValid (cap_of max_entries) (run (create fl max_entries) rs)
        × (length (run (create fl max_entries) rs) ≡ 16)
  unfolding run
  run-AllValid max_entries rs early =
      onward (create fl max_entries) rs (create-AllValid max_entries)
        (unfold create in length-replicate 16 (new_shard fl (cap_of max_entries))) early
    where
      onward :
          (shards : List (Shard F)) (rs : List Ask)
          → AllValid (cap_of max_entries) shards
          → length shards ≡ 16
          → AllEarly rs
          → AllValid (cap_of max_entries) (run shards rs) × (length (run shards rs) ≡ 16)
      onward shards [] all sixteen early = (all, sixteen)
      onward shards (r ∷ rs) all sixteen early =
          let step = allow_at-AllValid (cap_of max_entries) shards r all sixteen early.0 in
          onward (allow_at fl shards r.key r.per_minute r.now).0 rs step.0 step.1 early.1
