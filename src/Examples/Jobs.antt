-- ===== src/Examples/Jobs.antt =====
-- A queue with a job that is delayed and one that is not, and jobs that failed for good.
use dbx_database_extreme.Base.{◌≡◌, refl, Bytes, none, some, List, [], ◌∷◌, arith, codes, pos}
use dbx_database_extreme.Workflow.Queue.{
  Job, Time, JobQueue, new_dlq, dequeue, take_ready, is_ready, is_after, is_zero,
}
use dbx_database_extreme.Workflow.Queue.Sound.{
  IsDequeued, dequeue-IsDequeued, bury_all, latest, bury_all-latest,
}

abbrev job_at : Bytes → Time → Job
job_at id run_at = record {
  id = id;
  payload = [];
  max_retries = pos 3;
  retries = pos 0;
  created_at = some (pos 0);
  run_at = run_at;
  last_error = [];
}

abbrev waiting : JobQueue
waiting = record {
  jobs = job_at (codes "late") (some (pos 90)) ∷ job_at (codes "now") none ∷ [];
  max_size = pos 8;
}

dequeue-IsDequeued_example :
    IsDequeued (pos 50) waiting.jobs (dequeue waiting (pos 50)).0 (dequeue waiting (pos 50)).1.jobs
dequeue-IsDequeued_example = dequeue-IsDequeued waiting (pos 50)

dequeue_takes : (dequeue waiting (pos 50)).0 ≡ some (job_at (codes "now") none)
unfolding dequeue take_ready is_ready is_after is_zero
dequeue_takes = refl

abbrev failed : List Job
failed = job_at (codes "a") none ∷ job_at (codes "b") none ∷ job_at (codes "c") none ∷ []

bury_all-latest_example : (bury_all (new_dlq (pos 2)) failed).jobs ≡ latest 2 failed
bury_all-latest_example = bury_all-latest 2 failed (omega arith)
