-- ===== src/Platform/ThreadPool/Tests.antt =====
-- Runs of the pool, and instances of its theorems.
use platform_service.Common.{ℕ, ◌≡◌, refl, true, false, some, [], ◌∷◌, arith, replicate}
use platform_service.Platform.ThreadPool.Queue.{queue, IsValid}
use platform_service.Platform.ThreadPool.Interleaving.{
  System, Step, Reach, here, next, IsAccounted, start, start-IsAccounted, Reach-IsAccounted,
  exit_after_drain,
}
use platform_service.Platform.ThreadPool.{
  Job, Pool, runs, create, take_job, submit, shutdown, destroy_timed, no_job,
}

abbrev job : ℕ → Job
job n = record { fn = 1; arg = n }

abbrev fresh : Pool
fresh = record {
  ring = replicate 2 no_job;
  capacity = 2;
  head = 0;
  count = 0;
  workers = 5 ∷ 6 ∷ [];
  n_workers = 2;
  shutting_down = false;
}

created : create 4 true (5 ∷ 6 ∷ []) 2 2 ≡ some fresh
unfolding create
created = refl

abbrev one : Pool
one = record fresh { ring = job 1 ∷ no_job ∷ []; count = 1 }

-- The ring wraps around: three jobs go through two slots in their order, and a third waiting one is
-- refused.
abbrev wrapped : Pool
wrapped = record fresh { ring = job 3 ∷ job 2 ∷ []; head = 1; count = 2 }

wraps :
    ((submit (submit one (job 2)).0 (job 3)).1 ≡ false)
    × (take_job (submit one (job 2)).0
        ≡ runs (job 1) (record fresh { ring = job 1 ∷ job 2 ∷ []; head = 1; count = 1 }))
    × (submit (record fresh { ring = job 1 ∷ job 2 ∷ []; head = 1; count = 1 }) (job 3)
        ≡ (wrapped, true))
    × (queue wrapped ≡ job 2 ∷ job 3 ∷ [])
unfolding submit take_job
wraps = (refl, refl, refl, refl)

-- A second attempt to join sees only the workers that are left.
joins :
    destroy_timed fresh (true ∷ false ∷ [])
    ≡ (record fresh { workers = 6 ∷ []; n_workers = 1 }, false)
unfolding destroy_timed
joins = refl

fresh-IsValid : IsValid fresh
fresh-IsValid = omega arith

abbrev accepted_one : System
accepted_one = record (start fresh) { pool = one; accepted = job 1 ∷ [] }

abbrev taken_one : Pool
taken_one = record one { head = 1; count = 0 }

abbrev ended : System
ended = record {
  pool = record taken_one { shutting_down = true };
  accepted = job 1 ∷ [];
  taken = job 1 ∷ [];
  forgotten = [];
}

Reach-ended : Reach (start fresh) ended
unfolding submit take_job shutdown start
Reach-ended =
    next (next (next here (Step.accepts (job 1) refl)) (Step.takes (job 1) taken_one refl))
      Step.drains

Reach-IsAccounted_example : IsAccounted ended
Reach-IsAccounted_example =
    Reach-IsAccounted Reach-ended (start-IsAccounted fresh fresh-IsValid refl)

exit_after_drain_example :
    (ended.taken ≡ ended.accepted) × ((j : Job) → submit ended.pool j ≡ (ended.pool, false))
exit_after_drain_example =
    exit_after_drain fresh ended fresh-IsValid refl Reach-ended refl (unfold take_job in refl)
