-- ===== src/Platform/ThreadPool/Interleaving.antt =====
-- Any number of submitters and workers, whose critical sections the lock puts in some order. The
-- history keeps what the pool accepted, what workers took, and what a shutdown without draining forgot.
use platform_service.Common.{
  ◌≡◌, refl, sym, ap, ◌∙◌, subst, ◌⊎◌, inl, inr, true, false, List, [], ◌∷◌, ◌++◌, append_assoc,
  append-nil, arith,
}
use platform_service.Platform.ThreadPool.Queue.{
  queue, IsValid, submit_lem, take_job_lem, shutdown_lem,
}
use platform_service.Platform.ThreadPool.{Job, Pool, exits, runs, take_job, submit, shutdown}

pub record System : Type 0 where
  pub pool : Pool
  pub accepted : List Job
  pub taken : List Job
  pub forgotten : List Job

pub data Step (s : System) : System → Type 0 where
  accepts :
      (job : Job)
      → (submit s.pool job).1 ≡ true
      → Step s (record s { pool = (submit s.pool job).0; accepted = s.accepted ++ job ∷ [] })
  refuses :
      (job : Job)
      → (submit s.pool job).1 ≡ false
      → Step s (record s { pool = (submit s.pool job).0 })
  takes :
      (job : Job) (p : Pool)
      → take_job s.pool ≡ runs job p
      → Step s (record s { pool = p; taken = s.taken ++ job ∷ [] })
  drains : Step s (record s { pool = shutdown s.pool true })
  drops :
      Step s (record s { pool = shutdown s.pool false; forgotten = s.forgotten ++ queue s.pool })

pub data Reach (s : System) : System → Type 0 where
  here : Reach s s
  next : {t u : System} → Reach s t → Step t u → Reach s u

-- Every accepted job has been taken, is forgotten or waits, once and in this order; and once jobs are
-- forgotten the pool is closed and none waits.
pub record IsAccounted (s : System) : Type 0 where
  pub valid : IsValid s.pool
  pub in_order : s.accepted ≡ s.taken ++ (s.forgotten ++ queue s.pool)
  pub closed_after_drop : (s.forgotten ≡ []) ⊎ ((queue s.pool ≡ []) × (s.pool.shutting_down ≡ true))

unfoldable pub start : Pool → System
start p = record { pool = p; accepted = []; taken = []; forgotten = [] }

pub start-IsAccounted : (p : Pool) → IsValid p → queue p ≡ [] → IsAccounted (start p)
unfolding start
start-IsAccounted p v empty = record {
  valid = v;
  in_order = sym empty;
  closed_after_drop = inl refl;
}

Step-accepts :
    {s : System} (job : Job)
    → IsAccounted s
    → (submit s.pool job).1 ≡ true
    → IsAccounted (record s { pool = (submit s.pool job).0; accepted = s.accepted ++ job ∷ [] })
Step-accepts {s} job a h = elim (submit_lem s.pool job a.valid) [
  | inl (refused, _) ↦ cc
  | inr (_, open_, _, queued, still_open, valid) ↦ record {
    valid = valid;
    in_order = rw queued (ap (λ (t : List Job). t ++ job ∷ []) a.in_order ∙ simp append_assoc);
    closed_after_drop = ground (arith, a.closed_after_drop);
  }
]

Step-takes :
    {s : System} (job : Job) (p : Pool)
    → IsAccounted s
    → take_job s.pool ≡ runs job p
    → IsAccounted (record s { pool = p; taken = s.taken ++ job ∷ [] })
Step-takes {s} job p a h = elim (take_job_lem s.pool a.valid) [
  | inl (waits_, _, _) ↦ cc
  | inr (inl (exits_, _, _)) ↦ cc
  | inr (inr (job', p', taken, queued, shut, valid)) ↦
      let same_job : job' ≡ job = cc in
      let same_pool : p' ≡ p = cc in
      let first : queue s.pool ≡ job ∷ queue p = cc in
      let none_dropped : s.forgotten ≡ [] = ground (arith, a.closed_after_drop) in
      record {
        valid = subst IsValid same_pool valid;
        in_order = a.in_order ∙ rw (none_dropped, first) (simp append_assoc);
        closed_after_drop = inl none_dropped;
      }
]

pub Step-IsAccounted : {s t : System} → Step s t → IsAccounted s → IsAccounted t
Step-IsAccounted (accepts job h) a = Step-accepts job a h
Step-IsAccounted {s} (refuses job h) a = elim (submit_lem s.pool job a.valid) [
  | inl (refused, _) ↦
      rw refused
        (record { valid = a.valid; in_order = a.in_order; closed_after_drop = a.closed_after_drop })
  | inr (accepted, _, _, _, _, _) ↦ cc
]
Step-IsAccounted (takes job p h) a = Step-takes job p a h
Step-IsAccounted {s} drains a =
    let (queued, shut, valid) = shutdown_lem s.pool true a.valid in
    record {
      valid = valid;
      in_order = rw queued a.in_order;
      closed_after_drop = ground (arith, a.closed_after_drop);
    }
Step-IsAccounted {s} drops a =
    let (queued, shut, valid) = shutdown_lem s.pool false a.valid in
    record {
      valid = valid;
      in_order = a.in_order ∙ rw queued (simp append-nil);
      closed_after_drop = inr (queued, shut);
    }

-- However submitters, workers and shutdowns interleave, no job is lost, invented, repeated or
-- overtaken.
pub Reach-IsAccounted : {s t : System} → Reach s t → IsAccounted s → IsAccounted t
Reach-IsAccounted here a = a
Reach-IsAccounted (next r st) a = Step-IsAccounted st (Reach-IsAccounted r a)

-- When a worker exits a pool that began valid and empty and was never told to drop jobs, all accepted jobs have been taken, in the
-- order in which they were accepted, and no later submit is accepted.
pub exit_after_drain :
    (p : Pool) (s : System)
    → IsValid p
    → queue p ≡ []
    → Reach (start p) s
    → s.forgotten ≡ []
    → take_job s.pool ≡ exits
    → (s.taken ≡ s.accepted) × ((job : Job) → submit s.pool job ≡ (s.pool, false))
unfolding start
exit_after_drain p s v empty r kept exit =
    let a = Reach-IsAccounted r (start-IsAccounted p v empty) in
    elim (take_job_lem s.pool a.valid) [
      | inl (waits_, _, _) ↦ cc
      | inr (inl (_, idle, closed)) ↦ (
        sym (a.in_order ∙ rw (kept, idle) (append-nil s.taken)),
        λ job. refuses_closed s.pool job closed,
      )
      | inr (inr (job', p', taken, _, _, _)) ↦ cc
    ]
  where
    refuses_closed : (q : Pool) (job : Job) → q.shutting_down ≡ true → submit q job ≡ (q, false)
    refuses_closed q job closed = unfold submit in ground arith
