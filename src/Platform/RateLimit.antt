-- ===== src/Platform/RateLimit.antt =====
-- The rate limiter, src/platform/ratelimit.c. Arithmetic on `double` is a parameter; times are
-- nanoseconds of a monotonic clock and `per_minute` is a budget, where 0 stands for a negative one
-- too. The mutexes are left out: a call is one critical section.
pub mod Shards
pub mod Upkeep
pub mod Limiter
pub mod Unlimited
mod Tests
use platform_service.Common.{
  ℕ, zero, suc, ◌+◌, ◌-◌, ◌*◌, ◌/◌, ◌%◌, ◌^◌, ◌≤◌, ◌<◌, min, code, String, ◌≡◌, refl, sym, ap, ◌∙◌,
  subst, ◌≢◌, ◌↔◌, ◌⊎◌, inl, inr, Bool, true, false, not, ◌&&◌, ◌||◌, Option, none, some, List, [],
  ◌∷◌, ◌++◌, append_assoc, append-nil, arith, Bytes, codes, ltb, leb, ◌==◌, if◌then◌else◌, ltb→lt,
  lt→ltb, leb→le, ==_iff, tests, Bool-cases, Option-cases, length, get_elem?, set, length-append,
  length-set, get_elem?-set_self, get_elem?-set_ne, get_or, take, drop, replicate, take-append-drop,
  length-take, length-drop, length-replicate, length-map, equal, equal_iff,
}
use Prim.Native.Nat.{bit_xor}

-- The operations on `double` that the limiter uses.
pub record Double (F : Type 0) : Type 0 where
  pub of_int : ℕ → F
  pub add : F → F → F
  pub sub : F → F → F
  pub mul : F → F → F
  pub div : F → F → F
  pub less : F → F → Bool

-- `rl_entry_t`.
pub record Slot (F : Type 0) : Type 0 where
  pub key : Bytes
  pub occupied : Bool
  pub tokens : F
  pub last_refill : ℕ
  pub last_used : ℕ

-- `rl_shard_t`; `slot_count` is the length of the slots.
pub record Shard (F : Type 0) : Type 0 where
  pub slots : List (Slot F)
  pub cap : ℕ
  pub occupied : ℕ

abbrev pub shard_count : ℕ
shard_count = 16

abbrev pub int64_max : ℕ
int64_max = 9223372036854775807

-- `PS_RATELIMIT_KEY_MAX`.
abbrev pub key_max : ℕ
key_max = 64

-- FNV-1a, 64 bits.
pub hash_from : ℕ → Bytes → ℕ
hash_from h [] = h
hash_from h (c ∷ cs) = hash_from (bit_xor h c * 1099511628211 % 2 ^ 64) cs

pub hash_key : Bytes → ℕ
unfolding hash_from
hash_key key = hash_from 14695981039346656037 key

pub data Probe : Type 0 where
  found : ℕ → Probe
  vacant : ℕ → Probe
  full : Probe

module _ {F : Type 0} (fl : Double F) where
  -- A slot that `calloc` gives.
  abbrev pub blank : Slot F
  blank = record {
    key = [];
    occupied = false;
    tokens = fl.of_int 0;
    last_refill = 0;
    last_used = 0;
  }

  abbrev pub max_one : ℕ → ℕ
  max_one n = if n == 0 then 1 else n

  new_shard : ℕ → Shard F
  new_shard cap = record { slots = replicate (cap * 2) blank; cap = cap; occupied = 0 }

  -- `ps_ratelimiter_create`, where memory is granted.
  pub create : ℕ → List (Shard F)
  unfolding new_shard
  create max_entries =
      replicate shard_count (new_shard (max_one (max_one max_entries / shard_count)))

  unfoldable pub key_equal : Slot F → Bytes → Bool
  key_equal e key = e.occupied && equal e.key key

  -- The tokens after a time, at most `per_minute` of them.
  refilled : Slot F → ℕ → ℕ → F
  refilled e per_minute elapsed =
      let tokens =
        fl.add e.tokens
          (fl.mul (fl.div (fl.of_int elapsed) (fl.of_int 60000000000)) (fl.of_int per_minute)) in
      if fl.less (fl.of_int per_minute) tokens then fl.of_int per_minute else tokens

  abbrev refill : Slot F → ℕ → ℕ → Slot F
  refill e per_minute now =
      if ltb e.last_refill now
      then record e {
        tokens = refilled e per_minute (now - e.last_refill);
        last_refill = now;
        last_used = now;
      }
      else record e { last_used = now }

  spend : Slot F → Slot F × Bool
  spend e =
      if fl.less e.tokens (fl.of_int 1)
      then (e, false)
      else (record e { tokens = fl.sub e.tokens (fl.of_int 1) }, true)

  unfoldable pub consume : Slot F → ℕ → ℕ → Slot F × Bool
  unfolding spend refilled
  consume e per_minute now = spend (refill e per_minute now)

  -- The slots from `start` on, around the end, up to the key or a slot that is free.
  unfoldable pub probe_from : List (Slot F) → Bytes → ℕ → ℕ → ℕ → Probe
  probe_from slots key start zero probe = full
  probe_from slots key start (suc left) probe =
      let idx = (start + probe) % length slots in
      let e = get_or slots idx blank in
      let rest = probe_from slots key start left (probe + 1) in
      if key_equal e key then found idx else if not e.occupied then vacant idx else rest

  -- The slot that was used longest ago, or `victim` if none was used before `oldest`.
  unfoldable pub victim_from : List (Slot F) → ℕ → ℕ → ℕ → ℕ
  victim_from [] i victim oldest = victim
  victim_from (e ∷ es) i victim oldest =
      let older = e.occupied && ltb e.last_used oldest in
      victim_from es (i + 1) (if older then i else victim) (if older then e.last_used else oldest)

  -- A bucket for the key in this slot, with its first token taken.
  unfoldable pub put_new : Shard F → ℕ → Bytes → ℕ → ℕ → Shard F × Bool
  put_new shard idx key per_minute now =
      let (e, allowed) =
        consume
          (record (get_or shard.slots idx blank) {
            key = key;
            occupied = true;
            tokens = fl.of_int per_minute;
            last_refill = now;
          })
          per_minute now in
      (record shard { slots = set shard.slots idx e }, allowed)

  unfoldable pub evict : Shard F → Bytes → ℕ → ℕ → Shard F × Bool
  unfolding put_new
  evict shard key per_minute now =
      put_new shard (victim_from shard.slots 0 0 int64_max) key per_minute now

  unfoldable pub use_slot : Shard F → ℕ → ℕ → ℕ → Shard F × Bool
  use_slot shard idx per_minute now =
      let (e, allowed) = consume (get_or shard.slots idx blank) per_minute now in
      (record shard { slots = set shard.slots idx e }, allowed)

  unfoldable pub answer : Shard F → Bytes → ℕ → ℕ → Probe → Shard F × Bool
  unfolding evict put_new use_slot
  answer shard key per_minute now (found idx) = use_slot shard idx per_minute now
  answer shard key per_minute now (vacant idx) =
      if ltb shard.occupied shard.cap
      then put_new (record shard { occupied = shard.occupied + 1 }) idx key per_minute now
      else evict shard key per_minute now
  answer shard key per_minute now full = evict shard key per_minute now

  -- The critical section, for a key with the hash `h`.
  unfoldable pub allow_in : Shard F → ℕ → Bytes → ℕ → ℕ → Shard F × Bool
  unfolding answer probe_from
  allow_in shard h key per_minute now =
      answer shard key per_minute now
        (probe_from shard.slots key (h % length shard.slots) (length shard.slots) 0)

  abbrev no_shard : Shard F
  no_shard = record { slots = []; cap = 0; occupied = 0 }

  -- `ps_ratelimiter_allow_at`; the key is a C string.
  unfoldable pub allow_at : List (Shard F) → Bytes → ℕ → ℕ → List (Shard F) × Bool
  unfolding allow_in
  allow_at shards key per_minute now =
      let bounded = take (key_max - 1) key in
      let h = hash_key bounded in
      let (shard, allowed) =
        allow_in (get_or shards (h % shard_count) no_shard) h bounded per_minute now in
      if per_minute == 0 then (shards, false) else (set shards (h % shard_count) shard, allowed)
