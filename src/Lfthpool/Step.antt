-- ===== src/Lfthpool/Step.antt =====
-- src/threads/lfthpool.c: the worker loop and the calls of a pool, one shared access a step, and
-- the threads that make them, in any interleaving. The atomics are taken as sequentially
-- consistent.
use libthreads.Prelude.{
  true, false, ℕ, suc, ◌+◌, ◌-◌, Bool, List, [], ◌∷◌, ◌++◌, Option, none, some, ◌==◌, ltb,
  if◌then◌else◌, elem, length, get_or, set, ℤ, pos, is_neg, pred_ℤ, minus_one, Errno, eagain,
}
use libthreads.Threads
use libthreads.Thpool.Pool.{Task, size_max, size}
use libthreads.Lfthpool.Queue.{RingQueue, qerr_ok, qerr_full, qerr_other}

-- `struct lfthpool`, with what `pthread_join` sees of the workers. A handle is the number of its
-- thread, and `none` is the handle 0.
pub record Lfthpool (Q : Type 0) : Type 0 where
  pub shutdown : ℕ
  pub hold : ℕ
  pub running_count : ℕ
  pub threads : List (Option ℕ)
  pub thread_count : ℕ
  pub task_queue : Q
  pub queue_size : ℕ
  pub sleep_func : Option ℕ  -- a function of the caller, or `sched_usleep`
  pub exited : List ℕ
  pub freed : Bool  -- whether `lfthpool_destroy` has freed the pool
  -- Kept for the statements only: no step reads them. All tasks that were added, all that were
  -- taken from the queue, and those whose function has returned, with their number; how many blocks
  -- of memory the calls have allocated for tasks, and how many were freed.
  pub added : List Task
  pub started : List Task
  pub executed : List Task
  pub finished : ℕ
  pub allocated : ℕ
  pub released : ℕ
  -- The threads that `pthread_join` was called for. To join a thread twice, or to join one that
  -- another thread joins, is undefined: `each_once joins` says that this has not happened.
  pub joins : List ℕ

pub data Request : Type 0 where
  add_task : Task → Request
  add_task_try : Task → ℤ → Request
  pause resume active_tasks total_tasks workers_count wait worker_try_once shutdown : Request
  destroy : Request

-- What a call returns: a code with what it stores in `errno`, or a count, or nothing.
pub data Reply : Type 0 where
  nothing_yet done shut_down destroyed : Reply
  code : ℤ → Option Errno → Reply
  count : ℕ → Reply

-- Where a thread stands, with the locals that are live there.
pub data Pc : Type 0 where
  -- `_lfthpool_worker`
  checking_shutdown checking_hold sleeping dequeuing napping : Pc
  counting executing : Task → Pc
  uncounting returned : Pc
  -- a client
  idle : Reply → Pc
  adding : Task → Pc
  trying : Task → ℤ → Pc
  try_sleeping : Task → ℤ → Pc
  total_counted : ℕ → Pc
  wait_active wait_len wait_recheck wait_sleeping : Pc
  once_dequeuing : Pc
  once_counting once_executing : Task → Pc
  once_uncounting : Pc
  -- `lfthpool_shutdown`, with whether `lfthpool_destroy` calls it and the loop's index: before the
  -- test of a handle, in `pthread_join` with the handle, and before the handle is cleared
  joining : Bool → ℕ → Pc
  join_waiting : Bool → ℕ → ℕ → Pc
  join_clearing : Bool → ℕ → Pc
  freeing : Pc  -- the rest of `lfthpool_destroy`

-- Whether `malloc` gives memory.
pub record Luck : Type 0 where
  pub malloc : Bool

module _ {Q : Type 0} where
  abbrev pub count_up : Lfthpool Q → Lfthpool Q
  count_up m = record m { running_count = size (m.running_count + 1) }

  abbrev pub count_down : Lfthpool Q → Lfthpool Q
  count_down m = record m { running_count = size (m.running_count + size_max - 1) }

  -- The function of a task is called with its argument, and returns.
  abbrev pub execute : Task → Lfthpool Q → Lfthpool Q
  execute t m = record m { executed = m.executed ++ t ∷ []; finished = suc m.finished }

  -- `malloc` and `free` of one task.
  abbrev pub allocate : Lfthpool Q → Lfthpool Q
  allocate m = record m { allocated = suc m.allocated }

  abbrev pub release : Lfthpool Q → Lfthpool Q
  release m = record m { released = suc m.released }

  -- The first step of a call.
  unfoldable pub begin : Request → Luck → Lfthpool Q → Lfthpool Q × Pc
  begin (add_task t) l m =
      if l.malloc then (allocate m, adding t) else (m, idle (code minus_one none))
  begin (add_task_try t max_try) l m =
      if l.malloc then (allocate m, trying t max_try) else (m, idle (code minus_one none))
  begin pause l m = (record m { hold = 1 }, idle done)
  begin resume l m = (record m { hold = 0 }, idle done)
  begin active_tasks l m = (m, idle (count m.running_count))
  begin total_tasks l m = (m, total_counted m.running_count)
  begin workers_count l m = (m, idle (count m.thread_count))
  begin wait l m = (m, wait_active)
  begin worker_try_once l m = (m, once_dequeuing)
  begin shutdown l m = (record m { shutdown = 1 }, joining false 0)
  begin destroy l m = (record m { shutdown = 1 }, joining true 0)

module _ {Q : Type 0} (queue : RingQueue Q) where
  -- The memory after an attempt to add a task.
  abbrev pub put : Task → Lfthpool Q → Lfthpool Q
  put t m = record m { task_queue = (queue.enqueue m.task_queue t).0; added = m.added ++ t ∷ [] }

  abbrev pub not_put : Task → Lfthpool Q → Lfthpool Q
  not_put t m = record m { task_queue = (queue.enqueue m.task_queue t).0 }

  -- And after one to take a task.
  abbrev pub taken : Task → Lfthpool Q → Lfthpool Q
  taken t m = record m {
    task_queue = (queue.dequeue m.task_queue).0;
    started = m.started ++ t ∷ [];
  }

  abbrev pub not_taken : Lfthpool Q → Lfthpool Q
  not_taken m = record m { task_queue = (queue.dequeue m.task_queue).0 }

  -- A step of thread `i`, which calls `r` when it is idle; `none` if it is blocked, or has
  -- returned.
  unfoldable pub lfthpool_step : ℕ → Request → Luck → Lfthpool Q → Pc → Option (Lfthpool Q × Pc)
  unfolding begin
  lfthpool_step i r l m checking_shutdown =
      if m.shutdown == 1
      then some (record m { exited = i ∷ m.exited }, returned)
      else some (m, checking_hold)
  lfthpool_step i r l m checking_hold =
      if m.hold == 0 then some (m, dequeuing) else some (m, sleeping)
  lfthpool_step i r l m sleeping = some (m, checking_shutdown)
  lfthpool_step i r l m dequeuing = elim ((queue.dequeue m.task_queue).1) [
    | none ↦ some (not_taken m, napping)
    | some t ↦ some (taken t m, counting t)
  ]
  lfthpool_step i r l m napping = some (m, checking_shutdown)
  lfthpool_step i r l m (counting t) = some (count_up m, executing t)
  lfthpool_step i r l m (executing t) = some (execute t m, uncounting)
  lfthpool_step i r l m uncounting = some (release (count_down m), checking_shutdown)
  lfthpool_step i r l m returned = none
  lfthpool_step i r l m (idle _) = some (begin r l m)
  lfthpool_step i r l m (adding t) = elim ((queue.enqueue m.task_queue t).1) [
    | qerr_ok ↦ some (put t m, idle (code (pos 0) none))
    | _ ↦ some (release (not_put t m), idle (code minus_one (some eagain)))
  ]
  lfthpool_step i r l m (trying t max_try) = elim ((queue.enqueue m.task_queue t).1) [
    | qerr_ok ↦ some (put t m, idle (code (pos 0) none))
    | qerr_full ↦
        if is_neg max_try
        then some (release (not_put t m), idle (code minus_one (some eagain)))
        else some (not_put t m, try_sleeping t max_try)
    | qerr_other e ↦ some (release (not_put t m), idle (code e none))
  ]
  lfthpool_step i r l m (try_sleeping t max_try) = some (m, trying t (pred_ℤ max_try))
  lfthpool_step i r l m (total_counted k) =
      some (m, idle (count (size (k + queue.len_relaxed m.task_queue))))
  lfthpool_step i r l m wait_active =
      if m.running_count == 0 then some (m, wait_len) else some (m, wait_sleeping)
  lfthpool_step i r l m wait_len =
      if queue.len_relaxed m.task_queue == 0
      then some (m, wait_recheck)
      else some (m, wait_sleeping)
  lfthpool_step i r l m wait_recheck =
      if m.running_count == 0 then some (m, idle done) else some (m, wait_sleeping)
  lfthpool_step i r l m wait_sleeping = some (m, wait_active)
  lfthpool_step i r l m once_dequeuing = elim ((queue.dequeue m.task_queue).1) [
    | none ↦ some (not_taken m, idle (code minus_one (some eagain)))
    | some t ↦ some (taken t m, once_counting t)
  ]
  lfthpool_step i r l m (once_counting t) = some (count_up m, once_executing t)
  lfthpool_step i r l m (once_executing t) = some (release (execute t m), once_uncounting)
  lfthpool_step i r l m once_uncounting = some (count_down m, idle (code (pos 0) none))
  lfthpool_step i r l m (joining d k) =
      if ltb k m.thread_count
      then elim (get_or m.threads k none) [
        | none ↦ some (m, joining d (suc k))
        | some w ↦ some (record m { joins = w ∷ m.joins }, join_waiting d k w)
      ]
      else if d
      then some (m, freeing)
      else some (m, idle shut_down)
  -- `pthread_join` returns when the thread has. A thread that is joined twice, since two callers
  -- have read its handle before either cleared it, is in `joins` twice: what the code does after
  -- that is undefined, and the steps that follow here say nothing of it.
  lfthpool_step i r l m (join_waiting d k w) =
      if elem w m.exited then some (m, join_clearing d k) else none
  lfthpool_step i r l m (join_clearing d k) =
      some (record m { threads = set m.threads k none }, joining d (suc k))
  -- `mpmc_ring_queue_delete(pool->task_queue, free)` frees the tasks that are left.
  lfthpool_step i r l m freeing = some (
    record m { freed = true; released = m.released + length (queue.contents m.task_queue) },
    idle destroyed,
  )

-- Thread `i` makes the step; if it is idle, it calls `request`.
pub record Choice : Type 0 where
  pub i : ℕ
  pub request : Request
  pub luck : Luck

abbrev pub System : Type 0 → Type 0
System Q = Threads.System (Lfthpool Q) Pc

abbrev pub chosen : Choice → ℕ
chosen c = c.i

module _ {Q : Type 0} (queue : RingQueue Q) where
  unfoldable pub thread_step : Choice → Lfthpool Q → Pc → Option (Lfthpool Q × Pc)
  thread_step c m p = lfthpool_step queue c.i c.request c.luck m p

  unfoldable pub step : ℕ → System Q → Choice → System Q
  unfolding Threads.step thread_step
  step = Threads.step chosen thread_step

  unfoldable pub run : ℕ → System Q → List Choice → System Q
  unfolding Threads.run
  run = Threads.run chosen thread_step

-- A pool of which no call has been made: its workers, the first `workers` threads, have just
-- started.
abbrev pub initial : {Q : Type 0} → ℕ → Lfthpool Q → System Q
initial workers pool = record {
  mem = pool;
  thread = λ i. if ltb i workers then checking_shutdown else idle nothing_yet;
}
