-- ===== src/Platform/ThreadPool.antt =====
-- The worker pool, src/platform/threadpool.c and threadpool.h. Each function is what one critical
-- section under the pool's lock does; `take_job` is that of `worker_main`, behind which the job runs. The
-- calls of pthread and of the allocator are arguments that say whether they succeed. A negative size
-- acts as 0 does.
pub mod Ring
pub mod Queue
pub mod Interleaving
mod Tests
use platform_service.Common.{
  ℕ, zero, suc, ◌+◌, ◌-◌, ◌*◌, ◌/◌, ◌%◌, ◌^◌, ◌≤◌, ◌<◌, min, code, String, ◌≡◌, refl, sym, ap, ◌∙◌,
  subst, ◌≢◌, ◌↔◌, ◌⊎◌, inl, inr, Bool, true, false, not, ◌&&◌, ◌||◌, Option, none, some, List, [],
  ◌∷◌, ◌++◌, append_assoc, append-nil, arith, Bytes, codes, ltb, leb, ◌==◌, if◌then◌else◌, ltb→lt,
  lt→ltb, leb→le, ==_iff, tests, Bool-cases, Option-cases, length, get_elem?, set, length-append,
  length-set, get_elem?-set_self, get_elem?-set_ne, get_or, take, drop, replicate, take-append-drop,
  length-take, length-drop, length-replicate, length-map, equal, equal_iff,
}

-- `ps_job_t`: the addresses of a function and of its argument.
pub record Job : Type 0 where
  pub fn : ℕ
  pub arg : ℕ

-- `struct ps_threadpool`; `workers` holds the threads that are not yet joined.
pub record Pool : Type 0 where
  pub ring : List Job
  pub capacity : ℕ
  pub head : ℕ
  pub count : ℕ
  pub workers : List ℕ
  pub n_workers : ℕ
  pub shutting_down : Bool

-- What `calloc` fills the ring with.
abbrev pub no_job : Job
no_job = record { fn = 0; arg = 0 }

-- The number of workers: one for each processor, and at least one, if none is asked for.
pub resolve_workers : ℕ → ℕ → ℕ
resolve_workers cpus n = if ltb n 1 then (if ltb cpus 1 then 1 else cpus) else n

-- `threads` are those that `pthread_create` has made before it failed, or all. `none` where the
-- source returns NULL, having joined and freed what it made.
unfoldable pub create : ℕ → Bool → List ℕ → ℕ → ℕ → Option Pool
unfolding resolve_workers
create cpus allocates threads n_workers queue_capacity =
    if ltb queue_capacity 1
    then none
    else if not allocates
    then none
    else if ltb (length threads) (resolve_workers cpus n_workers)
    then none
    else some (record {
      ring = replicate queue_capacity no_job;
      capacity = queue_capacity;
      head = 0;
      count = 0;
      workers = threads;
      n_workers = resolve_workers cpus n_workers;
      shutting_down = false;
    })

pub data Taken : Type 0 where
  waits : Taken
  exits : Taken
  runs : Job → Pool → Taken

-- One round of a worker: it waits, it ends, or it takes the job that it then runs.
unfoldable pub take_job : Pool → Taken
take_job p =
    if p.count == 0 && not p.shutting_down
    then waits
    else if p.count == 0 && p.shutting_down
    then exits
    else runs (get_or p.ring p.head no_job)
        (record p { head = (p.head + 1) % p.capacity; count = p.count - 1 })

unfoldable pub submit : Pool → Job → Pool × Bool
submit p job = if p.shutting_down || p.count == p.capacity then (p, false) else (
  record p { ring = set p.ring ((p.head + p.count) % p.capacity) job; count = p.count + 1 },
  true,
)

unfoldable pub shutdown : Pool → Bool → Pool
shutdown p drain =
    let q = record p { shutting_down = true } in
    if drain then q else record q { count = 0; head = 0 }

pub queue_length : Pool → ℕ
queue_length p = p.count

-- `pthread_timedjoin_np` of the workers in turn: `joined` says which calls return 0. The workers from
-- the first that fails on are kept.
join_from : List ℕ → List Bool → List ℕ × Bool
join_from [] joined = ([], true)
join_from (w ∷ ws) [] = (w ∷ ws, false)
join_from (w ∷ ws) (false ∷ joined) = (w ∷ ws, false)
join_from (w ∷ ws) (true ∷ joined) = join_from ws joined

-- `true`: every worker is joined and the pool is freed. `false`: the pool that is left.
unfoldable pub destroy_timed : Pool → List Bool → Pool × Bool
unfolding join_from
destroy_timed p joined =
    let (left, all) = join_from p.workers joined in
    if all then (p, true) else (record p { workers = left; n_workers = length left }, false)
