-- ===== src/Workflow/Queue.antt =====
-- internal/workflow/queue.go: the queue of jobs, the retries with their delays, the jobs that have failed for
-- good, and the scheduler. A `*Job` is its value, for a job stands in one queue at a time; a time is its
-- nanoseconds, none the zero time; a method is one step.
pub mod Sound
use dbx_database_extreme.Base.{
  ℕ, suc, ◌+◌, Bool, true, false, not, ◌&&◌, Option, none, some, Bytes, List, [], ◌∷◌, ◌++◌, ℤ,
  ◌+ℤ◌, drop, length, ltb, leb, ltb_ℤ, leb_ℤ, pos, pos_part, if◌then◌else◌,
}

abbrev pub Time : Type 0
Time = Option ℤ

pub record Job : Type 0 where
  pub id : Bytes
  pub payload : Bytes
  pub max_retries : ℤ
  pub retries : ℤ
  pub created_at : Time
  pub run_at : Time
  pub last_error : Bytes

pub record JobQueue : Type 0 where
  pub jobs : List Job
  pub max_size : ℤ

unfoldable pub new_job_queue : ℤ → JobQueue
new_job_queue max_size = record { jobs = []; max_size = max_size }

-- The limit of a queue, which is none unless it is positive, is reached.
unfoldable pub is_full : ℤ → List Job → Bool
is_full max_size jobs = ltb_ℤ (pos 0) max_size && leb_ℤ max_size (pos (length jobs))

-- true: the job was added.
unfoldable pub enqueue : JobQueue → Job → Bool × JobQueue
unfolding is_full
enqueue q job =
    if is_full q.max_size q.jobs then (false, q) else (true, record q { jobs = q.jobs ++ job ∷ [] })

-- now.After(t)
unfoldable pub is_after : ℤ → Time → Bool
is_after now none = true
is_after now (some t) = ltb_ℤ t now

unfoldable pub is_zero : Time → Bool
is_zero none = true
is_zero (some t) = false

unfoldable pub is_ready : ℤ → Job → Bool
unfolding is_after is_zero
is_ready now j = if is_zero j.run_at then true else is_after now j.run_at

-- The loop of `Dequeue`: the job that it takes, and those that it leaves.
unfoldable pub take_ready : ℤ → List Job → Option Job × List Job
unfolding is_ready
take_ready now [] = (none, [])
take_ready now (j ∷ jobs) =
    let rest = take_ready now jobs in
    if is_ready now j then (some j, jobs) else (rest.0, j ∷ rest.1)

unfoldable pub dequeue : JobQueue → ℤ → Option Job × JobQueue
unfolding take_ready
dequeue q now = let taken = take_ready now q.jobs in (taken.0, record q { jobs = taken.1 })

-- The `Len` of a queue.
unfoldable pub queue_len : JobQueue → ℕ
queue_len q = length q.jobs

-- `now` is the reading of the clock and `delay` what `backoff.Next` returns.
unfoldable pub retry_job : List Job → Job → Bytes → ℤ → ℤ → List Job
retry_job jobs job err now delay =
    jobs
    ++ record job { retries = job.retries +ℤ pos 1; last_error = err; run_at = some (now +ℤ delay) }
      ∷ []

-- The jobs of a retry queue that are ready, and those that remain.
unfoldable pub ready : List Job → ℤ → List Job × List Job
unfolding is_after
ready [] now = ([], [])
ready (j ∷ jobs) now =
    let (out, remaining) = ready jobs now in
    if is_after now j.run_at then (j ∷ out, remaining) else (out, j ∷ remaining)

pub record DeadLetterQueue : Type 0 where
  pub jobs : List Job
  pub max_size : ℤ

unfoldable pub new_dlq : ℤ → DeadLetterQueue
new_dlq max_size = record { jobs = []; max_size = max_size }

-- `Enqueue` of a DeadLetterQueue: a queue that is full drops its oldest job.
unfoldable pub bury : DeadLetterQueue → Job → DeadLetterQueue
unfolding is_full
bury d job =
    let kept = if is_full d.max_size d.jobs then drop 1 d.jobs else d.jobs in
    record d { jobs = kept ++ job ∷ [] }

unfoldable pub schedule : JobQueue → Job → Time → Bool × JobQueue
unfolding enqueue
schedule q job run_at = enqueue q (record job { run_at = run_at })
