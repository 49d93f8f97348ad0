-- ===== src/Thpool/Endings.antt =====
-- Schedules of a pool of one worker: those that end with `thpool_destroy` or with all threads
-- asleep, and runs of `thpool_add_task_try` among other threads.
use libthreads.Fifo.{Moves}
use libthreads.Prelude.{
  total, ◌+◌, All-replicate, replicate, ℕ, zero, suc, ◌<◌, ◌≡◌, refl, ◌⊎◌, inl, inr, length, true,
  false, List, ◌++◌, some, arith, pos, minus_one, eagain, elem,
}
use libthreads.Threads
use libthreads.Thpool.Pool.{occurrences, enqueue, dequeue, thpool_pause}
use libthreads.Thpool.Ring.{contents}
use libthreads.Thpool.Worker
use libthreads.Thpool.Worker.{WorkerPc, worker_step}
use libthreads.Thpool.Client.{
  add_task, add_task_try, pause, shutdown, destroy, wait, tried, code, done, wait_blocked, idle,
  shutdown_joining, client_step,
}
use libthreads.Thpool.System.{worker, client, Choice, thread_step, step, run, initial}
use libthreads.Thpool.System.Destroy.{destroy_frees_last}
use libthreads.Thpool.System.Refinement.{HasRoom, pool_refines_queue}
use libthreads.Thpool.System.LostWakeup.{IsParked, IsStuck, parked-IsStuck}
use libthreads.Thpool.System.Rest.{rests_when_done}
use libthreads.Thpool.System.Invariant.{run-Inv}
use libthreads.Thpool.System.Safety.{initial-Inv}
use libthreads.Thpool.System.Paused.{is_past, IsPatient, IsPaused, IsJoining, paused_shutdown_hangs}
use libthreads.Thpool.System.Once.{executing_now, executed_once}
use libthreads.Thpool.System.Waiting.{IsWoken, wait_ends_by_signal}
use libthreads.Thpool.System.Completion.{is_over, shutdown_ends}
use libthreads.Thpool.Schedules.{
  own_handle, job, fresh, fresh-IsNew, quiet, by, work, call, two_added, broadcasting,
}

-- Thread 1 destroys the pool, and the worker returns on the way.
abbrev destroyed : List Choice
destroyed = call 3 1 destroy ++ work 4 ++ call 5 1 destroy

destroy_frees_last_example :
    let t = run 2 (initial 1 fresh) destroyed in
    (t.thread 0 ≡ worker Worker.returned) × (step 2 t (by 0 wait) ≡ t)
unfolding run Threads.run Threads.step thread_step worker_step client_step
destroy_frees_last_example =
    destroy_frees_last 2 1 fresh destroyed refl own_handle refl refl (by 0 wait) (omega arith)

pool_refines_queue_example :
    let s = run 2 (initial 1 fresh) two_added in
    Moves (HasRoom 2) (contents s.mem.pool) (contents (step 2 s (by 1 (add_task (job 3)))).mem.pool)
pool_refines_queue_example =
    pool_refines_queue 2 1 2 fresh (omega arith) fresh-IsNew two_added (by 1 (add_task (job 3)))

-- With the queue full, a call with `max_try` 1 makes two attempts.
two_tries :
    (run 2 (initial 1 fresh) (two_added ++ call 10 1 (add_task_try (job 3) (pos 1)))).thread 1
    ≡ client (idle (tried (job 3) minus_one (some eagain)))
unfolding run Threads.run Threads.step thread_step client_step enqueue
two_tries = refl

-- The worker executes both tasks and sleeps.
abbrev slept : List Choice
slept = two_added ++ work 20

slept-IsStuck : IsStuck 2 (run 2 (initial 1 fresh) slept)
unfolding run Threads.run Threads.step thread_step worker_step client_step enqueue dequeue
slept-IsStuck = parked-IsStuck 2 (run 2 (initial 1 fresh) slept) parked
  where
    parked :
        (k : ℕ) → k < 2 → let s = run 2 (initial 1 fresh) slept in IsParked s.mem k (s.thread k)
    parked zero lt = inl (refl, refl)
    parked (suc zero) lt = inr (inr (inr (code (add_task (job 2)) (pos 0), refl)))
    parked (suc (suc k)) lt = absurd (omega arith)

rests_when_done_example :
    let s = run 2 (initial 1 fresh) slept in
    (s.mem.pool.queue_count ≡ 0)
    × (s.mem.pool.running_count ≡ 0)
    × (s.mem.finished ≡ length s.mem.added)
unfolding run Threads.run Threads.step thread_step worker_step client_step enqueue dequeue
rests_when_done_example =
    rests_when_done 2 1 2 fresh (omega arith) (omega arith) (omega arith) fresh-IsNew slept
      slept-IsStuck (λ e. ground arith)

-- Threads 1 and 2 wait for a task; the worker executes it and signals once, and thread 2 returns.
abbrev both_waited : List Choice
both_waited =
    call 3 1 (add_task (job 1)) ++ call 5 1 wait ++ call 5 2 wait ++ work 12 ++ call 5 2 wait

-- Thread 1 sleeps on, although the task is executed.
second_waiter :
    let s = run 3 (initial 1 fresh) both_waited in
    (s.mem.finished ≡ 1)
    × (s.thread 2 ≡ client (idle (done wait)))
    × (s.thread 1 ≡ client wait_blocked)
    × IsStuck 3 s
unfolding run Threads.run Threads.step thread_step worker_step client_step enqueue dequeue
second_waiter = (refl, refl, refl, parked-IsStuck 3 (run 3 (initial 1 fresh) both_waited) parked)
  where
    parked :
        (k : ℕ)
        → k < 3
        → let s = run 3 (initial 1 fresh) both_waited in IsParked s.mem k (s.thread k)
    parked zero lt = inl (refl, refl)
    parked (suc zero) lt = inr (inl (refl, refl))
    parked (suc (suc zero)) lt = inr (inr (inr (done wait, refl)))
    parked (suc (suc (suc k))) lt = absurd (omega arith)

-- Thread 1 broadcasts; then the worker returns and thread 1 joins it.
abbrev joining : List Choice
joining = call 1 1 shutdown ++ work 5 ++ call 2 1 shutdown

joining-IsStuck :
    IsStuck 2 (run 2 (step 2 (run 2 (initial 1 fresh) broadcasting) (by 1 shutdown)) joining)
unfolding run Threads.run step Threads.step thread_step worker_step client_step
joining-IsStuck =
    parked-IsStuck 2 (run 2 (step 2 (run 2 (initial 1 fresh) broadcasting) (by 1 shutdown)) joining)
      parked
  where
    parked :
        (k : ℕ)
        → k < 2
        → let s = run 2 (step 2 (run 2 (initial 1 fresh) broadcasting) (by 1 shutdown)) joining in
          IsParked s.mem k (s.thread k)
    parked zero lt = inr (inr (inl refl))
    parked (suc zero) lt = inr (inr (inr (done shutdown, refl)))
    parked (suc (suc k)) lt = absurd (omega arith)

joining_ends :
    is_over
      ((run 2 (step 2 (run 2 (initial 1 fresh) broadcasting) (by 1 shutdown)) joining).thread 1)
    ≡ true
unfolding run Threads.run step Threads.step thread_step worker_step client_step
joining_ends =
    shutdown_ends 2 1 2 fresh (omega arith) (omega arith) (omega arith) fresh-IsNew own_handle
      broadcasting (by 1 shutdown) (omega arith) refl joining joining-IsStuck 1 (omega arith)

-- Thread 1 adds two tasks, pauses the pool and shuts it down; the worker has begun its loop.
abbrev paused : List Choice
paused = two_added ++ call 1 1 pause ++ call 5 1 shutdown ++ work 4

-- Four steps later the worker and the pool are where they were: the shutdown waits for ever.
paused_for_ever :
    let s = run 2 (initial 1 fresh) paused in
    ((run 2 s (work 4)).mem ≡ s.mem)
    × ((run 2 s (work 4)).thread 0 ≡ s.thread 0)
    × (step 2 s (by 1 shutdown) ≡ s)
unfolding run Threads.run step Threads.step thread_step worker_step client_step enqueue thpool_pause
paused_for_ever = (refl, refl, refl)

-- The same pool before the worker has made a step.
abbrev held : List Choice
held = two_added ++ call 1 1 pause ++ call 5 1 shutdown

held-places : (j : ℕ) → is_past ((run 2 (initial 1 fresh) held).thread j) ≡ false
unfolding run Threads.run Threads.step thread_step worker_step client_step enqueue thpool_pause
held-places zero = refl
held-places (suc zero) = refl
held-places (suc (suc j)) = ground arith

held-IsPaused : IsPaused (run 2 (initial 1 fresh) held)
unfolding run Threads.run Threads.step thread_step worker_step client_step enqueue thpool_pause
held-IsPaused = record { held = ground arith; queued = ground arith; places = held-places }

held-IsJoining : IsJoining 1 false 0 (run 2 (initial 1 fresh) held)
unfolding run Threads.run Threads.step thread_step worker_step client_step enqueue thpool_pause
held-IsJoining = record { place = refl; more = ground arith; running = refl }

-- Thread 1 calls `thpool_shutdown` still after the worker's next steps.
paused_shutdown_hangs_example :
    let s = run 2 (initial 1 fresh) held in
    let t = run 2 s (replicate 5 (by 0 wait)) in
    (t.thread 1 ≡ client (shutdown_joining false 0))
    × (t.mem.started ≡ s.mem.started)
    × (t.mem.exited ≡ s.mem.exited)
paused_shutdown_hangs_example =
    paused_shutdown_hangs 2 1 false 0 (run 2 (initial 1 fresh) held) (replicate 5 (by 0 wait))
      (run-Inv 2 (initial 1 fresh) held (initial-Inv 2 1 2 fresh (omega arith) fresh-IsNew))
      held-IsPaused held-IsJoining
      (All-replicate (λ c. IsPatient c.request) 5 (by 0 wait) (ground arith, ground arith))

-- Threads 1 and 2 wait for a task, which the worker has executed.
abbrev both_wait : List Choice
both_wait = call 3 1 (add_task (job 1)) ++ call 5 1 wait ++ call 5 2 wait ++ work 9

wait_ends_by_signal_example :
    let s = run 3 (initial 1 fresh) both_wait in
    (elem 1 (step 3 s (by 0 wait)).mem.notify_empty ≡ true)
    ⊎ IsWoken 0 1 quiet s.mem (s.thread 0) (step 3 s (by 0 wait)).mem
unfolding run Threads.run Threads.step thread_step worker_step client_step enqueue dequeue
wait_ends_by_signal_example =
    wait_ends_by_signal 3 (run 3 (initial 1 fresh) both_wait) (by 0 wait) 1
      (run-Inv 3 (initial 1 fresh) both_wait (initial-Inv 3 1 2 fresh (omega arith) fresh-IsNew))
      refl

-- The worker is executing the first of two tasks.
executed_once_example :
    let s = run 2 (initial 1 fresh) (two_added ++ work 5) in
    occurrences (job 1) s.mem.added
    ≡ occurrences (job 1) s.mem.executed
      + total (executing_now (job 1)) 2 s.thread
      + occurrences (job 1) (contents s.mem.pool)
executed_once_example =
    executed_once 2 1 2 fresh (omega arith) fresh-IsNew (two_added ++ work 5) (job 1)
