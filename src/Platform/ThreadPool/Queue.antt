-- ===== src/Platform/ThreadPool/Queue.antt =====
-- The pool is a bounded queue: what each operation does to the sequence of waiting jobs.
use platform_service.Common.{
  ℕ, zero, suc, ◌+◌, ◌-◌, ◌%◌, ◌≤◌, ◌<◌, ◌≡◌, refl, sym, ap, ◌∙◌, subst, ◌⊎◌, inl, inr, Bool, true,
  false, ◌||◌, some, List, [], ◌∷◌, ◌++◌, arith, ◌==◌, if◌then◌else◌, ==_iff, Bool-cases, length,
  set, length-set, get_or, replicate, length-replicate,
}
use native.Mathlib.Nat.{mod-lt}
use platform_service.Platform.ThreadPool.Ring.{queued, queued-set}
use platform_service.Platform.ThreadPool.{
  resolve_workers, Job, Pool, no_job, create, waits, exits, runs, take_job, submit, shutdown,
  queue_length,
}

abbrev pub queue : Pool → List Job
queue p = queued p.ring p.capacity p.head p.count

pub record IsValid (p : Pool) : Type 0 where
  pub room : 0 < p.capacity
  pub ring_size : length p.ring ≡ p.capacity
  pub head_in : p.head < p.capacity
  pub count_in : p.count ≤ p.capacity

length-queued : (ring : List Job) (c h n : ℕ) → length (queued ring c h n) ≡ n
length-queued ring c h zero = refl
length-queued ring c h (suc n) = ap suc (length-queued ring c ((h + 1) % c) n)

-- The reported length is that of the sequence.
pub queue_length_lem : (p : Pool) → queue_length p ≡ length (queue p)
unfolding queue_length
queue_length_lem p = sym (length-queued p.ring p.capacity p.head p.count)

abbrev new_pool : ℕ → List ℕ → ℕ → ℕ → Pool
new_pool cpus threads n_workers capacity = record {
  ring = replicate capacity no_job;
  capacity = capacity;
  head = 0;
  count = 0;
  workers = threads;
  n_workers = resolve_workers cpus n_workers;
  shutting_down = false;
}

-- A new pool is valid, empty and open, and has at least one worker.
pub create-IsValid :
    (cpus : ℕ) (allocates : Bool) (threads : List ℕ) (n_workers capacity : ℕ) (p : Pool)
    → create cpus allocates threads n_workers capacity ≡ some p
    → IsValid p × (queue p ≡ []) × (p.shutting_down ≡ false) × (0 < p.n_workers)
unfolding create resolve_workers
create-IsValid cpus allocates threads n_workers capacity p h =
    let made : new_pool cpus threads n_workers capacity ≡ p = ground arith in
    subst (λ q. IsValid q × (queue q ≡ []) × (q.shutting_down ≡ false) × (0 < q.n_workers)) made
      (
        record {
          room = ground arith;
          ring_size = length-replicate capacity no_job;
          head_in = ground arith;
          count_in = omega arith;
        },
        refl,
        refl,
        ground arith,
      )

-- `submit` to a valid pool, on every branch: a closed or a full pool refuses and is unchanged; any other appends the
-- job behind those that wait, and stays valid.
pub submit_lem :
    (p : Pool) (job : Job)
    → IsValid p
    → ((submit p job ≡ (p, false)) × ((p.shutting_down ≡ true) ⊎ (length (queue p) ≡ p.capacity)))
      ⊎ (((submit p job).1 ≡ true)
          × (p.shutting_down ≡ false)
          × (length (queue p) < p.capacity)
          × (queue (submit p job).0 ≡ queue p ++ job ∷ [])
          × ((submit p job).0.shutting_down ≡ false)
          × IsValid (submit p job).0)
unfolding submit
submit_lem p job v =
    let waiting = length-queued p.ring p.capacity p.head p.count in
    elim (Bool-cases (p.shutting_down || p.count == p.capacity)) [
      | inl refused ↦ inl (rw refused refl, ground (arith, waiting))
      | inr open_ ↦
          let i = (p.head + p.count) % p.capacity in
          let next : p.count + 1 ≡ suc p.count = omega arith in
          let free : p.count < p.capacity = ground (arith, v.count_in) in
          let run : submit p job
              ≡ (record p { ring = set p.ring i job; count = p.count + 1 }, true) =
            rw open_ refl in
          inr (
            rw run (
              refl,
              ground arith,
              omega arith,
              rw next (queued-set p.ring p.capacity p.head p.count job v.head_in free v.ring_size),
              ground arith,
              record {
                room = v.room;
                ring_size = length-set p.ring i job ∙ v.ring_size;
                head_in = v.head_in;
                count_in = omega arith;
              },
            ))
    ]

-- `take_job` of a valid pool, on every branch: it runs the first job that waits and leaves the others, or else waits in
-- an open pool and exits from a closed one.
pub take_job_lem :
    (p : Pool)
    → IsValid p
    → ((take_job p ≡ waits) × (queue p ≡ []) × (p.shutting_down ≡ false))
      ⊎ ((take_job p ≡ exits) × (queue p ≡ []) × (p.shutting_down ≡ true))
      ⊎ ((job : Job) × (p' : Pool) × (take_job p ≡ runs job p')
          × (queue p ≡ job ∷ queue p')
          × (p'.shutting_down ≡ p.shutting_down)
          × IsValid p')
unfolding take_job
take_job_lem p v = elim (Bool-cases (p.count == 0)) [
  | inl idle ↦
      let none_wait : queue p ≡ [] =
        ap (queued p.ring p.capacity p.head) ((==_iff p.count 0).0 idle) in
      elim (Bool-cases p.shutting_down) [
        | inl closed ↦ inr (inl (ground arith, none_wait, closed))
        | inr open_ ↦ inl (ground arith, none_wait, open_)
      ]
  | inr busy ↦
      let next : p.count ≡ suc (p.count - 1) = ground arith in
      inr (
        inr (
          get_or p.ring p.head no_job,
          record p { head = (p.head + 1) % p.capacity; count = p.count - 1 },
          ground arith,
          ap (queued p.ring p.capacity p.head) next,
          refl,
          record {
            room = v.room;
            ring_size = v.ring_size;
            head_in = mod-lt (p.head + 1) v.room;
            count_in = omega (arith, v.count_in);
          },
        ))
]

-- `shutdown` closes the pool; it keeps the jobs that wait if it drains, and else forgets them.
pub shutdown_lem :
    (p : Pool) (drain : Bool)
    → IsValid p
    → (queue (shutdown p drain) ≡ (if drain then queue p else []))
      × ((shutdown p drain).shutting_down ≡ true)
      × IsValid (shutdown p drain)
unfolding shutdown
shutdown_lem p true v = (refl, refl, ground (arith, v.room, v.ring_size, v.head_in, v.count_in))
shutdown_lem p false v = (refl, refl, ground (arith, v.room, v.ring_size))
