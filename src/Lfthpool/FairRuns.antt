-- ===== src/Lfthpool/FairRuns.antt =====
-- Fair schedules of a pool of src/threads/lfthpool.c with one worker, thread 0.
use libthreads.Prelude.{
  All-append, All-replicate, ℕ, zero, suc, ◌<◌, ◌≤◌, ◌≡◌, refl, true, false, each_once, List, [],
  ◌∷◌, ◌++◌, arith, length, replicate,
}
use libthreads.Threads
use libthreads.Lfthpool.Step.{
  wait, shutdown, returned, Choice, thread_step, begin, lfthpool_step, run, initial,
}
use libthreads.Lfthpool.Invariant.{run-Inv}
use libthreads.Lfthpool.Safety.{initial-Inv}
use libthreads.Lfthpool.Ending.{turns}
use libthreads.Lfthpool.Nearer.{is_calm}
use libthreads.Lfthpool.Finish.{lfthpool_tasks_get_done}
use libthreads.Lfthpool.OneClose.{one_close-each_once}
use libthreads.Lfthpool.Closing.{KeepsOpen, to_join, lfthpool_shutdown_gets_done}
use libthreads.Lfthpool.Tests.{two_places, fresh, fresh-IsNew, by, filled}
use libthreads.Lfthpool.Endings.{gives, filled-IsOpen, beside, beside_calm, waits_calm, flagged}

-- Two steps of each thread.
abbrev twice : List Choice
twice = replicate 2 (by 1 wait) ++ replicate 2 (by 0 wait)

twice_fair : (j : ℕ) → j < 2 → 2 ≤ turns j twice
twice_fair zero lt = omega arith
twice_fair (suc zero) lt = omega arith
twice_fair (suc (suc j)) lt = absurd (omega arith)

lfthpool_tasks_get_done_example :
    let t =
      run two_places 2
        (run two_places 2 (run two_places 2 (initial 1 fresh) filled) beside)
        twice in
    (t.mem.task_queue ≡ []) × (t.mem.finished ≡ length t.mem.added)
unfolding run Threads.run Threads.step thread_step lfthpool_step begin
lfthpool_tasks_get_done_example =
    lfthpool_tasks_get_done two_places gives 2 0 (run two_places 2 (initial 1 fresh) filled) beside
      twice (omega arith)
      (run-Inv two_places 2 (initial 1 fresh) filled
        (initial-Inv two_places 2 1 fresh (omega arith) fresh-IsNew))
      filled-IsOpen (ground arith) beside_calm
      (All-append (λ c. is_calm c.request ≡ true) (replicate 2 (by 1 wait))
        (replicate 2 (by 0 wait)) (waits_calm 2 1) (waits_calm 2 0))
      (ground arith) twice_fair

-- The worker makes six steps after the shutdown has begun.
six_fair : (x : ℕ) → x < 1 → 6 ≤ turns x (replicate 6 (by 0 wait))
six_fair zero lt = omega arith
six_fair (suc x) lt = absurd (omega arith)

lfthpool_shutdown_gets_done_example :
    let s =
      run two_places 2 (run two_places 2 (initial 1 fresh) flagged) (replicate 6 (by 0 wait)) in
    let t = run two_places 2 s (replicate 7 (by 1 wait)) in
    (t.thread 0 ≡ returned) × (to_join 1 (t.thread 1) ≡ 0)
unfolding run Threads.run Threads.step thread_step lfthpool_step begin
lfthpool_shutdown_gets_done_example =
    lfthpool_shutdown_gets_done two_places 2 1 fresh (omega arith) fresh-IsNew flagged
      (replicate 6 (by 0 wait)) refl six_fair (replicate 7 (by 1 wait))
      (All-replicate KeepsOpen 7 (by 1 wait) (ground arith, ground arith)) 1 (omega arith)
      (omega arith) refl 0 (omega arith)

-- Threads 1 and 2 shut the pool down at the same time, and both join the worker.
abbrev both_close : List Choice
both_close = replicate 2 (by 1 shutdown) ++ replicate 2 (by 2 shutdown)

joined_by_both :
    let t = run two_places 3 (initial 1 fresh) both_close in
    (t.mem.joins ≡ 0 ∷ 0 ∷ []) × (each_once t.mem.joins ≡ false)
unfolding run Threads.run Threads.step thread_step lfthpool_step begin
joined_by_both = (refl, refl)

-- Thread 1 alone shuts the pool down.
abbrev one_closes : List Choice
one_closes = by 1 shutdown ∷ by 1 wait ∷ replicate 6 (by 0 wait) ++ replicate 4 (by 1 wait)

one_closes_joins : each_once (run two_places 2 (initial 1 fresh) one_closes).mem.joins ≡ true
one_closes_joins =
    one_close-each_once two_places 2 1 fresh one_closes fresh-IsNew refl (omega arith)
