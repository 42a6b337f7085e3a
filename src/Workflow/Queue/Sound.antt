-- ===== src/Workflow/Queue/Sound.antt =====
-- Which job a queue hands out, and which jobs the dead letter queue keeps.
use dbx_database_extreme.Base.{
  ℕ, zero, suc, ◌+◌, ◌-◌, ◌<◌, ◌≤◌, ◌≡◌, refl, sym, ap, ◌∙◌, inl, inr, true, false, Option, none,
  some, List, [], ◌∷◌, ◌++◌, arith, leb, leb→le, All, ℤ, pos, drop, length, length-append,
  length-drop, Bool-cases,
}
use mathlib.Core.List.{append-nil, append_assoc}
use dbx_database_extreme.Workflow.Queue.{
  Job, JobQueue, DeadLetterQueue, is_ready, take_ready, dequeue, is_full, new_dlq, bury,
}

-- The jobs of the queue around the one that is taken.
abbrev pub IsTaken : ℤ → List Job → List Job → Job → Type 0
IsTaken now jobs left j =
    (earlier : List Job) × (later : List Job) × (jobs ≡ earlier ++ j ∷ later)
    × (left ≡ earlier ++ later)
    × All (λ i. is_ready now i ≡ false) earlier
    × (is_ready now j ≡ true)

abbrev pub IsDequeued : ℤ → List Job → Option Job → List Job → Type 0
IsDequeued now jobs none left = (left ≡ jobs) × All (λ i. is_ready now i ≡ false) jobs
IsDequeued now jobs (some j) left = IsTaken now jobs left j

behind-IsDequeued :
    (now : ℤ) (i : Job) (jobs : List Job) (found : Option Job) (left : List Job)
    → is_ready now i ≡ false
    → IsDequeued now jobs found left
    → IsDequeued now (i ∷ jobs) found (i ∷ left)
behind-IsDequeued now i jobs none left w (same, waiting) = (ap (λ js. i ∷ js) same, (w, waiting))
behind-IsDequeued now i jobs (some j) left w (earlier, later, all, rest, waiting, here) =
    (i ∷ earlier, later, ap (λ js. i ∷ js) all, ap (λ js. i ∷ js) rest, (w, waiting), here)

take_ready-IsDequeued :
    (now : ℤ) (jobs : List Job)
    → IsDequeued now jobs (take_ready now jobs).0 (take_ready now jobs).1
unfolding take_ready
take_ready-IsDequeued now [] = (refl, tt)
take_ready-IsDequeued now (j ∷ jobs) = elim (Bool-cases (is_ready now j)) [
  | inl e ↦ rw e ([], jobs, refl, refl, tt, e)
  | inr e ↦ rw e (
      behind-IsDequeued now j jobs (take_ready now jobs).0 (take_ready now jobs).1 e
        (take_ready-IsDequeued now jobs))
]

-- Dequeue takes the first job that is ready and leaves the others in their order; it takes none exactly
-- when no job is ready.
pub dequeue-IsDequeued :
    (q : JobQueue) (now : ℤ) → IsDequeued now q.jobs (dequeue q now).0 (dequeue q now).1.jobs
unfolding dequeue
dequeue-IsDequeued q now = take_ready-IsDequeued now q.jobs

-- The jobs buried one after the other.
abbrev pub bury_all : DeadLetterQueue → List Job → DeadLetterQueue
bury_all d [] = d
bury_all d (j ∷ jobs) = bury_all (bury d j) jobs

-- The last `limit` jobs.
abbrev pub latest : ℕ → List Job → List Job
latest limit jobs = drop (length jobs - limit) jobs

drop-append_short : (n : ℕ) (xs ys : List Job) → n ≤ length xs → drop n (xs ++ ys) ≡ drop n xs ++ ys
drop-append_short zero xs ys h = refl
drop-append_short (suc n) [] ys h = absurd (omega arith)
drop-append_short (suc n) (x ∷ xs) ys h = drop-append_short n xs ys (omega arith)

drop_nil : (k : ℕ) → ◌≡◌ {A = List Job} [] (drop k [])
drop_nil zero = refl
drop_nil (suc k) = refl

not_full : (a b : ℕ) → leb a b ≡ false → b < a
not_full a b h = ground arith

drop_one-drop : (k : ℕ) (xs : List Job) → drop 1 (drop k xs) ≡ drop (suc k) xs
drop_one-drop zero xs = refl
drop_one-drop (suc k) [] = refl
drop_one-drop (suc k) (x ∷ xs) = drop_one-drop k xs

abbrev keeping : ℕ → List Job → DeadLetterQueue
keeping limit jobs = record { jobs = jobs; max_size = pos limit }

is_full_at :
    (limit : ℕ) (jobs : List Job) → 0 < limit → is_full (pos limit) jobs ≡ leb limit (length jobs)
unfolding is_full
is_full_at limit jobs h = ground arith

bury-latest :
    (limit : ℕ) (past : List Job) (j : Job)
    → 0 < limit
    → bury (keeping limit (latest limit past)) j ≡ keeping limit (latest limit (past ++ j ∷ []))
unfolding bury
bury-latest limit past j h =
    let n = length past in
    let over = n - limit in
    let held : length (latest limit past) ≡ n - over = length-drop over past in
    let more : length (past ++ j ∷ []) ≡ n + 1 = length-append past (j ∷ []) in
    rw (is_full_at limit (latest limit past) h)
      (elim (Bool-cases (leb limit (length (latest limit past)))) [
        | inl e ↦
            let full = leb→le limit (length (latest limit past)) e in
            rw e (
              ap (keeping limit) (
                ap (λ xs. xs ++ j ∷ []) (drop_one-drop over past)
                ∙ sym (drop-append_short (suc over) past (j ∷ []) (omega (arith, full, held)))
                ∙ ap (λ k. drop k (past ++ j ∷ [])) {x = suc over}
                    (omega (arith, full, held, more))))
        | inr e ↦
            let room = not_full limit (length (latest limit past)) e in
            rw e (
              ap (keeping limit) (
                sym (drop-append_short over past (j ∷ []) (omega (arith, room, held)))
                ∙ ap (λ k. drop k (past ++ j ∷ [])) {x = over} (omega (arith, room, held, more))))
      ])

bury_all_from :
    (limit : ℕ) (past jobs : List Job)
    → 0 < limit
    → (bury_all (keeping limit (latest limit past)) jobs).jobs ≡ latest limit (past ++ jobs)
bury_all_from limit past [] h = ap (latest limit) (sym (append-nil past))
bury_all_from limit past (j ∷ jobs) h =
    ap (λ d. (bury_all d jobs).jobs) (bury-latest limit past j h)
    ∙ bury_all_from limit (past ++ j ∷ []) jobs h
    ∙ ap (latest limit) (append_assoc past (j ∷ []) jobs)

-- A dead letter queue with a positive limit holds the last jobs that were buried in it, as many as the limit
-- allows, in their order.
pub bury_all-latest :
    (limit : ℕ) (jobs : List Job)
    → 0 < limit
    → (bury_all (new_dlq (pos limit)) jobs).jobs ≡ latest limit jobs
unfolding new_dlq
bury_all-latest limit jobs h =
    ap (λ xs. (bury_all (keeping limit xs) jobs).jobs) (drop_nil (0 - limit))
    ∙ bury_all_from limit [] jobs h
