-- ===== src/Lfthpool/Endings.antt =====
-- A worker of a pool of src/threads/lfthpool.c that runs alone, and a pool that is shut down: runs,
-- and the theorems at them. Thread 0 is the worker.
use libthreads.Prelude.{
  false, ℕ, All, All-append, ◌+◌, ◌≡◌, ◌≤◌, refl, All-replicate, List, [], ◌∷◌, ◌++◌, none, arith,
  if◌then◌else◌, length, replicate, true, total,
}
use libthreads.Thpool.Pool.{occurrences, Task}
use libthreads.Lfthpool.Step.{
  Lfthpool, Request, add_task, add_task_try, wait, shutdown, destroy, code, thread_step, done, idle,
  Choice, System, begin, lfthpool_step, step, run, initial,
}
use libthreads.Lfthpool.Invariant.{run-Inv}
use libthreads.Lfthpool.Safety.{initial-Inv}
use libthreads.Lfthpool.Step
use libthreads.Lfthpool.Memory.{holding, lfthpool_frees_tasks}
use libthreads.Lfthpool.Remaining.{TakesNone, may_take, lfthpool_shutdown_leaves}
use libthreads.Lfthpool.Progress.{rounds, IsReady, Drained, lfthpool_worker_drains}
use libthreads.Lfthpool.Once.{has_in_hand, lfthpool_executed_once}
use libthreads.Lfthpool.Nearer.{is_adding, is_calm}
use libthreads.Lfthpool.Fair.{IsOpen, lfthpool_queue_empties}
use libthreads.Lfthpool.Ending.{lfthpool_worker_returns}
use libthreads.Threads
use libthreads.Lfthpool.Tests.{job, two_places, fresh, fresh-IsNew, by, filled}

-- Two tasks are queued when the worker sees the shutdown flag, and thread 1 is about to free the
-- pool.
abbrev joined : List Choice
joined = filled ++ by 1 destroy ∷ by 0 wait ∷ replicate 4 (by 1 destroy)

lfthpool_frees_tasks_example :
    let t = step two_places 2 (run two_places 2 (initial 1 fresh) joined) (by 1 destroy) in
    t.mem.allocated
    ≡ t.mem.released
      + (if t.mem.freed then 0 else length t.mem.task_queue)
      + total holding 2 t.thread
unfolding run Threads.run Threads.step step thread_step lfthpool_step begin
lfthpool_frees_tasks_example =
    lfthpool_frees_tasks two_places 2 1 fresh fresh-IsNew joined (by 1 destroy) refl

-- The pool is freed, and two blocks with it.
joined_frees :
    let t = step two_places 2 (run two_places 2 (initial 1 fresh) joined) (by 1 destroy) in
    (t.mem.freed ≡ true) × (t.mem.allocated ≡ 2) × (t.mem.released ≡ 2)
unfolding run Threads.run Threads.step step thread_step lfthpool_step begin
joined_frees = (refl, refl, refl)

-- With two tasks queued and the worker at its start, thread 1 begins a shutdown.
abbrev pub flagged : List Choice
flagged = filled ++ by 0 wait ∷ by 1 shutdown ∷ []

lfthpool_shutdown_leaves_example :
    let s = run two_places 2 (initial 1 fresh) flagged in
    let t = run two_places 2 s (replicate 9 (by 0 wait)) in
    (t.mem.shutdown ≡ 1) × (length t.mem.started ≤ length s.mem.started + total may_take 2 s.thread)
unfolding run Threads.run Threads.step step thread_step lfthpool_step begin
lfthpool_shutdown_leaves_example =
    lfthpool_shutdown_leaves two_places 2 (run two_places 2 (initial 1 fresh) flagged)
      (replicate 9 (by 0 wait)) refl (All-replicate TakesNone 9 (by 0 wait) (ground arith))

pub gives : (q : List Task) → (two_places.dequeue q).1 ≡ none → q ≡ []
gives q e = ground arith

filled-IsReady : IsReady two_places 0 (run two_places 2 (initial 1 fresh) filled)
unfolding run Threads.run Threads.step thread_step lfthpool_step begin
filled-IsReady = record { place = refl; up = ground arith; open_ = refl }

two_executed :
    let s = run two_places 2 (initial 1 fresh) filled in
    Drained two_places s (run two_places 2 s (rounds (length s.mem.task_queue) (by 0 wait)))
two_executed =
    lfthpool_worker_drains two_places 2 (by 0 wait) (omega arith) gives
      (run two_places 2 (initial 1 fresh) filled)
      (run-Inv two_places 2 (initial 1 fresh) filled
        (initial-Inv two_places 2 1 fresh (omega arith) fresh-IsNew))
      filled-IsReady

-- The worker is past its test of the flag, and still takes a task before it returns.
late_worker :
    (run two_places 2
        (run two_places 2 (initial 1 fresh) flagged)
        (replicate 3 (by 0 wait) ++ replicate 2 (by 1 shutdown) ++ replicate 3 (by 0 wait))).thread
      0
    ≡ Step.returned
unfolding run Threads.run Threads.step step thread_step lfthpool_step begin
late_worker =
    lfthpool_worker_returns two_places 2 0 (omega arith)
      (run two_places 2 (initial 1 fresh) flagged)
      (replicate 3 (by 0 wait) ++ replicate 2 (by 1 shutdown) ++ replicate 3 (by 0 wait)) refl
      (omega arith) (omega arith)

-- The worker has taken the first of two tasks.
lfthpool_executed_once_example :
    let s = run two_places 2 (initial 1 fresh) (filled ++ replicate 3 (by 0 wait)) in
    occurrences (job 1) s.mem.added
    ≡ occurrences (job 1) s.mem.executed
      + total (has_in_hand (job 1)) 2 s.thread
      + occurrences (job 1) s.mem.task_queue
lfthpool_executed_once_example =
    lfthpool_executed_once two_places 2 1 fresh (omega arith) fresh-IsNew
      (filled ++ replicate 3 (by 0 wait)) (job 1)

pub filled-IsOpen : IsOpen two_places (run two_places 2 (initial 1 fresh) filled)
unfolding run Threads.run Threads.step thread_step lfthpool_step begin
filled-IsOpen = record { up = ground arith; open_ = refl; places = places }
  where
    places : (j : ℕ) → is_adding ((run two_places 2 (initial 1 fresh) filled).thread j) ≡ false
    places j = ground arith

pub waits_calm : (k i : ℕ) → All (λ c. is_calm c.request ≡ true) (replicate k (by i wait))
waits_calm k i = All-replicate (λ c. is_calm c.request ≡ true) k (by i wait) refl

-- Thread 1 begins to wait while the worker empties the queue.
abbrev pub beside : List Choice
beside = replicate 7 (by 0 wait) ++ replicate 2 (by 1 wait) ++ replicate 8 (by 0 wait)

pub beside_calm : All (λ c. is_calm c.request ≡ true) beside
beside_calm =
    All-append (λ c. is_calm c.request ≡ true) (replicate 7 (by 0 wait))
      (replicate 2 (by 1 wait) ++ replicate 8 (by 0 wait)) (waits_calm 7 0)
      (All-append (λ c. is_calm c.request ≡ true) (replicate 2 (by 1 wait))
        (replicate 8 (by 0 wait)) (waits_calm 2 1) (waits_calm 8 0))

beside_empties :
    (run two_places 2 (run two_places 2 (initial 1 fresh) filled) beside).mem.task_queue ≡ []
unfolding run Threads.run Threads.step thread_step lfthpool_step begin
beside_empties =
    lfthpool_queue_empties two_places gives 2 0 (omega arith)
      (run two_places 2 (initial 1 fresh) filled) beside filled-IsOpen (ground arith) beside_calm
      (ground arith)
