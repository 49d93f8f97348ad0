-- ===== src/Lfthpool/Tests.antt =====
-- A queue of two places for src/threads/lfthpool.c, runs of one worker with it, and the theorems at
-- them. Thread 0 is the worker.
use libthreads.Prelude.{
  inr, pos, ◌⊎◌, false, Errno, eagain, einval, ℕ, ◌+◌, ◌*◌, ◌^◌, ◌≡◌, ◌≢◌, ◌<◌, ◌≤◌, refl, List, [],
  ◌∷◌, ◌++◌, Option, none, some, arith, ◌==◌, if◌then◌else◌, length, replicate, true, total,
}
use libthreads.Thpool.Pool.{Task}
use libthreads.Lfthpool.Queue.{Qerr, qerr_ok, qerr_full, qerr_other, RingQueue}
use libthreads.Thpool.Create.{sizeof_thread}
use libthreads.Lfthpool.Create.{
  Answers, null, undefined, returned, lfthpool_create_sched, IsNew, lfthpool_create-outcomes,
}
use libthreads.Lfthpool.Step.{
  Lfthpool, Request, add_task, wait, shutdown, destroy, thread_step, done, idle, Choice, System,
  begin, lfthpool_step, step, run, initial,
}
use libthreads.Lfthpool.Invariant.{busy, in_flight, run-Inv}
use libthreads.Lfthpool.Safety.{initial-Inv, lfthpool_tasks_in_order, lfthpool_counts}
use libthreads.Lfthpool.Step
use libthreads.Lfthpool.Shutdown.{lfthpool_shutdown_joins}
use libthreads.Lfthpool.Refinement.{ServesStep, lfthpool_refines_queue}
use libthreads.Lfthpool.EarlyWait.{lfthpool_wait_early}

abbrev put_last : List Task → Task → List Task × Qerr
put_last q t = if length q == 2 then (q, qerr_full) else (q ++ t ∷ [], qerr_ok)

abbrev take_first : List Task → List Task × Option Task
take_first [] = ([], none)
take_first (t ∷ q) = (q, some t)

pub put_last-ok :
    (q : List Task) (t : Task) → (put_last q t).1 ≡ qerr_ok → (put_last q t).0 ≡ q ++ t ∷ []
put_last-ok q t e = ground arith

pub put_last-refused :
    (q : List Task) (t : Task) → (put_last q t).1 ≢ qerr_ok → (put_last q t).0 ≡ q
put_last-refused q t e = ground arith

pub take_first-some :
    (q : List Task) (t : Task) → (take_first q).1 ≡ some t → q ≡ t ∷ (take_first q).0
take_first-some q t e = ground arith

pub take_first-none : (q : List Task) → (take_first q).1 ≡ none → (take_first q).0 ≡ q
take_first-none q e = ground arith

abbrev pub two_places : RingQueue (List Task)
two_places = record {
  enqueue = put_last;
  dequeue = take_first;
  len_relaxed = length;
  contents = λ q. q;
  enqueue-ok = put_last-ok;
  enqueue-refused = put_last-refused;
  dequeue-some = take_first-some;
  dequeue-none = take_first-none;
  len-contents = λ q. refl;
}

-- A pool of one worker.
abbrev pub fresh : Lfthpool (List Task)
fresh = record {
  shutdown = 0;
  hold = 0;
  running_count = 0;
  threads = some 0 ∷ [];
  thread_count = 1;
  task_queue = [];
  queue_size = 2;
  sleep_func = none;
  exited = [];
  freed = false;
  added = [];
  started = [];
  executed = [];
  finished = 0;
  allocated = 0;
  released = 0;
  joins = [];
}

pub fresh-IsNew : IsNew two_places 1 fresh
fresh-IsNew = record {
  empty = refl;
  idle = (refl, refl, refl);
  handles = (refl, refl);
  kept = (refl, refl);
  logs = (refl, refl, refl, refl);
  blocks = (refl, refl);
}

-- All calls succeed but the creation of the second thread.
abbrev answers : Answers (List Task)
answers = record {
  malloc = λ k. true;
  errno = eagain;
  size_to_power_of_2 = λ k. k;
  mpmc_ring_queue_new = λ k. some [];
  pthread_create = λ k. if k == 1 then some eagain else none;
  leaves = λ k. false;
}

made_empty : (k : ℕ) (q : List Task) → answers.mpmc_ring_queue_new k ≡ some q → q ≡ []
made_empty k q e = ground arith

lfthpool_create-outcomes_example :
    let created = lfthpool_create_sched answers 1 2 none in
    ((◌≡◌ {A = ℕ} 1 0) ⊎ (2 < 2) → created ≡ null einval)
    × ((e : Errno)
        → created ≡ null e
        → ((◌≡◌ {A = ℕ} 1 0) ⊎ (2 < 2))
          ⊎ ((e ≡ eagain)
              × ((true ≡ false) ⊎ ((k : ℕ) × (k < 1) × (answers.pthread_create k ≢ none)))))
    × (0 < 1
        → 1 < 2
        → true ≡ true
        → (true ≡ false) ⊎ (answers.mpmc_ring_queue_new 2 ≡ none) ⊎ (2 ^ 64 ≤ sizeof_thread * 1)
        → created ≡ undefined)
    × ((m : Lfthpool (List Task)) → created ≡ returned m → IsNew two_places 1 m)
lfthpool_create-outcomes_example = lfthpool_create-outcomes answers two_places 1 2 none made_empty

abbrev pub job : ℕ → Task
job k = record { function = 1000; arg = k }

abbrev pub by : ℕ → Request → Choice
by i r = record { i = i; request = r; luck = record { malloc = true } }

-- Thread 1 adds two tasks, and the worker takes the first.
abbrev one_taken : List Choice
one_taken =
    replicate 2 (by 1 (add_task (job 1)))
    ++ replicate 2 (by 1 (add_task (job 2)))
    ++ replicate 3 (by 0 wait)

after : List Choice → System (List Task)
unfolding run step lfthpool_step begin
after cs = run two_places 2 (initial 1 fresh) cs

one_taken_log :
    ((after one_taken).mem.added ≡ job 1 ∷ job 2 ∷ [])
    × ((after one_taken).mem.started ≡ job 1 ∷ [])
    × ((after one_taken).mem.task_queue ≡ job 2 ∷ [])
unfolding after
one_taken_log = (refl, refl, refl)

lfthpool_tasks_in_order_example :
    let s = run two_places 2 (initial 1 fresh) one_taken in
    s.mem.added ≡ s.mem.started ++ s.mem.task_queue
lfthpool_tasks_in_order_example =
    lfthpool_tasks_in_order two_places 2 1 fresh (omega arith) fresh-IsNew one_taken

one_taken_counts :
    let s = run two_places 2 (initial 1 fresh) one_taken in
    (s.mem.running_count ≡ total busy 2 s.thread)
    × (length s.mem.started ≡ s.mem.finished + total in_flight 2 s.thread)
one_taken_counts = lfthpool_counts two_places 2 1 fresh (omega arith) fresh-IsNew one_taken

-- Thread 1 adds a task, the worker takes it, and thread 1 waits.
abbrev in_hand : List Choice
in_hand = replicate 2 (by 1 (add_task (job 1))) ++ replicate 3 (by 0 wait)

lfthpool_wait_early_example :
    let t =
      run two_places 2 (run two_places 2 (initial 1 fresh) in_hand) (replicate 4 (by 1 wait)) in
    (t.thread 1 ≡ idle done) × (t.mem.finished < length t.mem.added)
unfolding after
lfthpool_wait_early_example =
    lfthpool_wait_early two_places 2 (by 1 wait) (omega arith)
      (run two_places 2 (initial 1 fresh) in_hand) 0
      (run-Inv two_places 2 (initial 1 fresh) in_hand
        (initial-Inv two_places 2 1 fresh (omega arith) fresh-IsNew))
      refl refl refl refl (omega arith) refl

-- The worker sees the shutdown flag while thread 1 waits for it in `lfthpool_destroy`.
abbrev destroyed : List Choice
destroyed = by 1 destroy ∷ by 0 wait ∷ replicate 5 (by 1 destroy)

lfthpool_shutdown_joins_example :
    let t = run two_places 2 (initial 1 fresh) destroyed in
    (t.thread 0 ≡ Step.returned) × (step two_places 2 t (by 0 wait) ≡ t)
unfolding after
lfthpool_shutdown_joins_example =
    lfthpool_shutdown_joins two_places 2 1 fresh fresh-IsNew destroyed refl 1 (inr refl) (by 0 wait)
      (omega arith)

put_codes : (q : List Task) (t : Task) → (two_places.enqueue q t).1 ≢ qerr_other (pos 0)
put_codes q t = ground arith

lfthpool_refines_queue_example :
    let s = run two_places 2 (initial 1 fresh) one_taken in
    let u = step two_places 2 s (by 0 wait) in
    (u ≡ s) ⊎ ServesStep two_places s.mem (s.thread 0) u.mem (u.thread 0)
lfthpool_refines_queue_example =
    lfthpool_refines_queue two_places put_codes 2 (run two_places 2 (initial 1 fresh) one_taken)
      (by 0 wait) (omega arith)

-- With two tasks queued there is no room for a third.
abbrev pub filled : List Choice
filled = replicate 2 (by 1 (add_task (job 1))) ++ replicate 2 (by 1 (add_task (job 2)))
