-- ===== src/Thpool/Schedules.antt =====
-- Schedules of a pool of one worker, thread 0, with callers: runs of `Thpool.System`, and its
-- theorems at them.
use libthreads.Prelude.{
  get_or, ℕ, zero, suc, ◌+◌, ◌<◌, ◌≡◌, refl, ◌≢◌, inl, true, false, List, [], ◌∷◌, ◌++◌, arith,
  length, replicate, total,
}
use libthreads.Threads
use libthreads.Thpool.Pool.{Task, no_task, Pool, enqueue, dequeue, head_task}
use libthreads.Thpool.Ring.{IsValid, contents, queued}
use libthreads.Thpool.Create.{IsNew}
use libthreads.Thpool.Worker.{Luck, WorkerPc, worker_step}
use libthreads.Thpool.Worker
use libthreads.Thpool.Client.{
  Request, add_task, wait, worker_try_once, shutdown, wait_blocked, client_step,
}
use libthreads.Thpool.System.{worker, client, Choice, System, thread_step, step, run, initial}
use libthreads.Thpool.System.Views.{busy, in_flight}
use libthreads.Thpool.System.Invariant.{run-Inv}
use libthreads.Thpool.System.Safety.{
  initial-Inv, mutual_exclusion, tasks_in_order, running_counts, wait_returns_idle,
  worker_returns_empty,
}
use libthreads.Thpool.System.Progress.{rounds, Drained, worker_drains}
use libthreads.Thpool.System.LostWakeup.{IsParked, LastTask, IsStuck, wait_not_woken}
use libthreads.Thpool.System.Shutdown.{IsSettled, shutdown_wakes_all}
use libthreads.Thpool.System.Join.{shutdown_joins}
use libthreads.Thpool.System.Calls.{AddTask, TryOnce, add_task_alone, worker_try_once_alone}
use libthreads.Fifo.{offer, poll}

abbrev pub job : ℕ → Task
job k = record { function = 1000; arg = k }

abbrev pub fresh : Pool
fresh = record {
  shutdown = 0;
  hold = 0;
  running_count = 0;
  threads = 0 ∷ [];
  thread_count = 1;
  task_queue = no_task ∷ no_task ∷ [];
  queue_size = 2;
  queue_count = 0;
  head = 0;
  tail = 0;
}

pub fresh-IsNew : IsNew 1 2 fresh
fresh-IsNew = omega arith

pub own_handle : (x : ℕ) → x < 1 → get_or fresh.threads x 0 ≡ x
own_handle zero lt = refl
own_handle (suc x) lt = absurd (omega arith)

abbrev pub quiet : Luck
quiet = record { waker = 0; spurious = false }

-- Thread `i` makes a step, and calls `r` if it is idle.
abbrev pub by : ℕ → Request → Choice
by i r = record { i = i; request = r; luck = quiet }

-- The worker makes `k` steps, thread `i` makes `k` of a call of `r`.
abbrev pub work : ℕ → List Choice
work k = replicate k (by 0 wait)

abbrev pub call : ℕ → ℕ → Request → List Choice
call k i r = replicate k (by i r)

after : ℕ → List Choice → System
unfolding run Threads.run Threads.step thread_step worker_step client_step enqueue dequeue head_task
after n cs = run n (initial 1 fresh) cs

-- Thread 1 adds two tasks.
abbrev pub two_added : List Choice
two_added = call 3 1 (add_task (job 1)) ++ call 3 1 (add_task (job 2))

two_added_log :
    ((after 2 two_added).mem.added ≡ job 1 ∷ job 2 ∷ [])
    × (contents (after 2 two_added).mem.pool ≡ job 1 ∷ job 2 ∷ [])
unfolding after queued
two_added_log = (refl, refl)

-- Then the worker locks the mutex.
one_holder : ◌≡◌ {A = ℕ} 0 0
unfolding after
one_holder =
    mutual_exclusion 2 1 2 fresh (omega arith) fresh-IsNew (two_added ++ work 2) 0 0 refl refl

-- The worker has taken the first task and has not executed it.
tasks_in_order_example :
    let s = run 2 (initial 1 fresh) (two_added ++ work 5) in
    (s.mem.added ≡ s.mem.started ++ contents s.mem.pool) × IsValid s.mem.pool
tasks_in_order_example = tasks_in_order 2 1 2 fresh (omega arith) fresh-IsNew (two_added ++ work 5)

five_steps_counts :
    let s = run 2 (initial 1 fresh) (two_added ++ work 5) in
    (s.mem.pool.running_count ≡ total busy 2 s.thread)
    × (length s.mem.started ≡ s.mem.finished + total in_flight 2 s.thread)
five_steps_counts = running_counts 2 1 2 fresh (omega arith) fresh-IsNew (two_added ++ work 5)

-- Both tasks are executed, and thread 1 waits for that.
abbrev waited : List Choice
waited = two_added ++ work 14 ++ call 3 1 wait

wait_returns_idle_example :
    let t = step 2 (run 2 (initial 1 fresh) waited) (by 1 wait) in
    (t.mem.pool.queue_count ≡ 0)
    × (t.mem.pool.running_count ≡ 0)
    × (t.mem.finished ≡ length t.mem.added)
unfolding after step
wait_returns_idle_example =
    wait_returns_idle 2 1 2 fresh (omega arith) fresh-IsNew waited (by 1 wait) (λ e. cc e) refl

waited_executed : (step 2 (after 2 waited) (by 1 wait)).mem.finished ≡ 2
unfolding after step
waited_executed = refl

-- Thread 1 sets the flag, and the worker finds the queue empty.
abbrev stopping : List Choice
stopping = call 1 1 shutdown ++ work 3

worker_returns_empty_example :
    let t = step 2 (run 2 (initial 1 fresh) stopping) (by 0 wait) in
    (t.mem.pool.queue_count ≡ 0) × (t.mem.pool.shutdown ≡ 1)
unfolding after step
worker_returns_empty_example =
    worker_returns_empty 2 1 2 fresh (omega arith) fresh-IsNew stopping (by 0 wait) (λ e. cc e) refl

worker_empties :
    let s = run 2 (initial 1 fresh) two_added in
    Drained s (run 2 s (rounds s.mem.pool.queue_count (by 0 wait)))
unfolding after
worker_empties =
    worker_drains 2 (by 0 wait) (omega arith) (run 2 (initial 1 fresh) two_added)
      (run-Inv 2 (initial 1 fresh) two_added (initial-Inv 2 1 2 fresh (omega arith) fresh-IsNew))
      (record { place = refl; free = refl; open_ = refl })

-- Thread 2 adds a task and takes it itself, while thread 1 waits.
abbrev overtaken : List Choice
overtaken =
    call 3 2 (add_task (job 1))
    ++ call 5 2 worker_try_once
    ++ work 5
    ++ call 5 1 wait
    ++ call 1 2 worker_try_once

overtaken-LastTask : LastTask 3 2 1 (run 3 (initial 1 fresh) overtaken)
unfolding after
overtaken-LastTask = record {
  last = refl;
  alone = refl;
  empty = refl;
  blocked = refl;
  unwoken = refl;
  parked = parked;
}
  where
    parked :
        (k : ℕ)
        → k < 3
        → k ≢ 2
        → k ≢ 1
        → let s = run 3 (initial 1 fresh) overtaken in IsParked s.mem k (s.thread k)
    parked zero lt a b = inl (refl, refl)
    parked (suc zero) lt a b = absurd (b refl)
    parked (suc (suc zero)) lt a b = absurd (a refl)
    parked (suc (suc (suc k))) lt a b = absurd (omega arith)

wait_not_woken_example :
    let t = step 3 (run 3 (initial 1 fresh) overtaken) (by 2 worker_try_once) in
    (t.mem.pool.queue_count ≡ 0)
    × (t.mem.pool.running_count ≡ 0)
    × (t.mem.finished ≡ length t.mem.added)
    × (t.thread 1 ≡ client wait_blocked)
    × IsStuck 3 t
wait_not_woken_example =
    wait_not_woken 3 (run 3 (initial 1 fresh) overtaken) (by 2 worker_try_once) 1
      (run-Inv 3 (initial 1 fresh) overtaken (initial-Inv 3 1 2 fresh (omega arith) fresh-IsNew))
      (omega arith) overtaken-LastTask

-- The worker sleeps; thread 1 is about to broadcast; then the worker runs.
abbrev pub broadcasting : List Choice
broadcasting = work 5 ++ call 2 1 shutdown

shutdown_wakes_all_example :
    IsSettled (run 2 (step 2 (run 2 (initial 1 fresh) broadcasting) (by 1 shutdown)) (work 4))
unfolding after
shutdown_wakes_all_example =
    shutdown_wakes_all 2 (run 2 (initial 1 fresh) broadcasting) (by 1 shutdown) (work 4)
      (run-Inv 2 (initial 1 fresh) broadcasting (initial-Inv 2 1 2 fresh (omega arith) fresh-IsNew))
      (omega arith) refl

-- The worker returns, and thread 1 joins it.
abbrev pub joined : List Choice
joined = broadcasting ++ call 1 1 shutdown ++ work 5 ++ call 3 1 shutdown

worker_is_back : (run 2 (initial 1 fresh) joined).thread 0 ≡ worker Worker.returned
unfolding after
worker_is_back = shutdown_joins 2 1 fresh joined 1 refl refl 0 (omega arith)

-- Thread 1 has added a task, is idle, and the mutex is free.
abbrev one_added : List Choice
one_added = call 3 1 (add_task (job 1))

add_task_alone_example :
    let s = run 2 (initial 1 fresh) one_added in
    AddTask 2 (by 1 (add_task (job 2))) s (job 2) (true, job 1 ∷ job 2 ∷ [])
unfolding after offer queued
add_task_alone_example =
    let v = tasks_in_order 2 1 2 fresh (omega arith) fresh-IsNew one_added in
    add_task_alone 2 (by 1 (add_task (job 2))) (omega arith) (run 2 (initial 1 fresh) one_added)
      refl refl (job 2) refl v.1

worker_try_once_alone_example :
    let s = run 2 (initial 1 fresh) two_added in
    TryOnce 2 (by 1 worker_try_once) s (poll (contents s.mem.pool))
unfolding after
worker_try_once_alone_example =
    let v = tasks_in_order 2 1 2 fresh (omega arith) fresh-IsNew two_added in
    worker_try_once_alone 2 (by 1 worker_try_once) (omega arith) (run 2 (initial 1 fresh) two_added)
      refl refl refl v.1
