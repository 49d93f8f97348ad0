-- ===== src/Thpool/Worker.antt =====
-- src/threads/thpool.c: `_thpool_worker`, a shared access at a time. Accesses to what the mutex
-- protects are grouped into one step.
use libthreads.Prelude.{ℕ, Bool, ◌∷◌, Option, none, some, ◌==◌, if◌then◌else◌, elem, remove_all}
use libthreads.Thpool.Pool.{Task, head_task, start_running, stop_running, thpool_active_tasks}
use libthreads.Thpool.Shared.{
  Shared, lock_by, unlock, signal_notify_empty, wait_notify, take_task, execute,
}

-- What a step leaves open: which waiter a signal wakes, and whether a wait ends with no signal, as
-- POSIX allows.
pub record Luck : Type 0 where
  pub waker : ℕ
  pub spurious : Bool

-- Where a worker stands.
pub data WorkerPc : Type 0 where
  locking : WorkerPc  -- before `pthread_mutex_lock`
  testing : WorkerPc  -- at `while(pool->queue_count == 0)`
  found_empty : WorkerPc  -- before the signal of `notify_empty`
  checking_shutdown : WorkerPc
  before_wait : WorkerPc  -- before `pthread_cond_wait`
  waiting : WorkerPc  -- in it
  woken : WorkerPc  -- in it, before it has the mutex again
  checking_hold : WorkerPc
  sleeping : WorkerPc  -- `sleep(1)`
  counting : WorkerPc  -- before `running_count` goes up
  taking : WorkerPc  -- before the task is taken
  executing : Task → WorkerPc
  uncounting : WorkerPc  -- before `running_count` goes down
  returned : WorkerPc

-- A step of worker `i`; `none` if it is blocked, or has returned.
unfoldable pub worker_step : ℕ → Luck → Shared → WorkerPc → Option (Shared × WorkerPc)
unfolding thpool_active_tasks
worker_step i l m locking = elim (lock_by i m) [ none ↦ none | some m' ↦ some (m', testing) ]
worker_step i l m testing =
    if m.pool.queue_count == 0 then some (m, found_empty) else some (m, checking_hold)
worker_step i l m found_empty = some (
  (if thpool_active_tasks m.pool == 0 then signal_notify_empty l.waker m else m),
  checking_shutdown,
)
worker_step i l m checking_shutdown =
    if m.pool.shutdown == 1
    then some (record m { owner = none; exited = i ∷ m.exited }, returned)
    else some (m, before_wait)
worker_step i l m before_wait = some (wait_notify i m, waiting)
worker_step i l m waiting =
    if elem i m.notify
    then if l.spurious then some (record m { notify = remove_all i m.notify }, woken) else none
    else some (m, woken)
worker_step i l m woken = elim (lock_by i m) [ none ↦ none | some m' ↦ some (m', testing) ]
worker_step i l m checking_hold =
    if m.pool.hold == 0 then some (m, counting) else some (unlock m, sleeping)
worker_step i l m sleeping = some (m, locking)
worker_step i l m counting = some (record m { pool = start_running m.pool }, taking)
worker_step i l m taking = some (unlock (take_task m), executing (head_task m.pool))
worker_step i l m (executing t) = some (execute t m, uncounting)
worker_step i l m uncounting = some (record m { pool = stop_running m.pool }, locking)
worker_step i l m returned = none
