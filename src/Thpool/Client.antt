-- ===== src/Thpool/Client.antt =====
-- src/threads/thpool.c: the calls that other threads make of a pool, a shared access at a time.
use libthreads.Prelude.{
  ℕ, suc, Bool, true, false, Errno, eagain, is_neg, pred_ℤ, ◌&&◌, [], Option, none, some, ◌==◌,
  if◌then◌else◌, ltb, elem, get_or, remove_all, ℤ, pos, minus_one,
}
use libthreads.Thpool.Pool.{
  Task, is_full, head_task, start_running, stop_running, thpool_pause, thpool_active_tasks,
  thpool_total_tasks, thpool_workers_count,
}
use libthreads.Thpool.Shared.{
  Shared, lock_by, unlock, signal_notify, wait_notify_empty, put_task, take_task, execute,
  call_join,
}
use libthreads.Thpool.Worker.{Luck}

-- The calls, and what each returns.
pub data Request : Type 0 where
  add_task : Task → Request
  add_task_try : Task → ℤ → Request
  pause resume active_tasks total_tasks workers_count wait worker_try_once shutdown : Request
  destroy : Request

pub data Reply : Type 0 where
  nothing_yet : Reply
  code : Request → ℤ → Reply
  count : Request → ℕ → Reply
  done : Request → Reply
  -- `thpool_add_task_try`: the task, the value returned, and what it stores in `errno`
  tried : Task → ℤ → Option Errno → Reply

-- Where a client stands.
pub data ClientPc : Type 0 where
  idle : Reply → ClientPc  -- between two calls, with the last call's reply
  add_lock add_locked : Task → ClientPc
  adding adding_lock adding_locked adding_yield : Task → ℤ → ClientPc  -- with `max_try`
  resume_lock resume_locked : ClientPc
  total_lock total_locked : ClientPc
  workers_lock workers_locked : ClientPc
  wait_lock wait_locked : ClientPc
  wait_counted : ℕ → ClientPc  -- with the `queue_count` that it read
  wait_before : ClientPc  -- before `pthread_cond_wait`
  wait_blocked : ClientPc  -- in it
  wait_woken : ClientPc  -- in it, before it has the mutex again
  try_lock try_locked : ClientPc
  try_counting try_taking : ClientPc
  try_executing : Task → ClientPc
  try_uncounting : ClientPc
  -- `thpool_shutdown`, with whether `thpool_destroy` calls it
  shutdown_lock shutdown_locked : Bool → ClientPc
  -- before the test of the loop, and in `pthread_join`, with the index of the thread to join
  shutdown_join shutdown_joining : Bool → ℕ → ClientPc
  freeing : ClientPc  -- the rest of `thpool_destroy`

-- The first step of a call.
unfoldable pub begin : Shared → Request → Shared × ClientPc
unfolding thpool_pause thpool_active_tasks
begin m (add_task t) = (m, add_lock t)
begin m (add_task_try t max_try) = (m, adding t max_try)
begin m pause = (record m { pool = thpool_pause m.pool }, idle (done pause))
begin m resume = (record m { pool = record m.pool { hold = 0 } }, resume_lock)
begin m active_tasks = (m, idle (count active_tasks (thpool_active_tasks m.pool)))
begin m total_tasks = (m, total_lock)
begin m workers_count = (m, workers_lock)
begin m wait = (m, wait_lock)
begin m worker_try_once = (m, try_lock)
begin m shutdown = (record m { pool = record m.pool { shutdown = 1 } }, shutdown_lock false)
begin m destroy = (record m { pool = record m.pool { shutdown = 1 } }, shutdown_lock true)

-- To lock the mutex and go on, or to stay blocked.
abbrev pub locked : ℕ → Shared → ClientPc → Option (Shared × ClientPc)
locked i m p = elim (lock_by i m) [ none ↦ none | some m' ↦ some (m', p) ]

-- A step of client `i`, which calls `r` when it is idle; `none` if it is blocked.
unfoldable pub client_step : ℕ → Request → Luck → Shared → ClientPc → Option (Shared × ClientPc)
unfolding begin thpool_active_tasks thpool_total_tasks thpool_workers_count
client_step i r l m (idle _) = some (begin m r)
client_step i r l m (add_lock t) = locked i m (add_locked t)
client_step i r l m (add_locked t) =
    if is_full m.pool
    then some (unlock m, idle (code (add_task t) minus_one))
    else some (unlock (signal_notify l.waker (put_task t m)), idle (code (add_task t) (pos 0)))
client_step i r l m (adding t max_try) =
    if is_neg max_try
    then some (m, idle (tried t minus_one (some eagain)))
    else some (m, adding_lock t max_try)
client_step i r l m (adding_lock t max_try) = locked i m (adding_locked t max_try)
client_step i r l m (adding_locked t max_try) =
    if is_full m.pool
    then some (unlock m, adding_yield t max_try)
    else some (unlock (signal_notify l.waker (put_task t m)), idle (tried t (pos 0) none))
client_step i r l m (adding_yield t max_try) = some (m, adding t (pred_ℤ max_try))
client_step i r l m resume_lock = locked i m resume_locked
client_step i r l m resume_locked = some (unlock (signal_notify l.waker m), idle (done resume))
client_step i r l m total_lock = locked i m total_locked
client_step i r l m total_locked =
    some (unlock m, idle (count total_tasks (thpool_total_tasks m.pool)))
client_step i r l m workers_lock = locked i m workers_locked
client_step i r l m workers_locked =
    some (unlock m, idle (count workers_count (thpool_workers_count m.pool)))
client_step i r l m wait_lock = locked i m wait_locked
client_step i r l m wait_locked = some (m, wait_counted m.pool.queue_count)
client_step i r l m (wait_counted q) =
    if q == 0 && thpool_active_tasks m.pool == 0
    then some (unlock m, idle (done wait))
    else some (m, wait_before)
client_step i r l m wait_before = some (wait_notify_empty i m, wait_blocked)
client_step i r l m wait_blocked =
    if elem i m.notify_empty
    then if l.spurious
      then some (record m { notify_empty = remove_all i m.notify_empty }, wait_woken)
      else none
    else some (m, wait_woken)
-- It locks the mutex to leave `pthread_cond_wait`, unlocks it and begins again.
client_step i r l m wait_woken = elim (lock_by i m) [
  | none ↦ none
  | some m' ↦ some (unlock m', wait_lock)
]
client_step i r l m try_lock = locked i m try_locked
client_step i r l m try_locked =
    if m.pool.queue_count == 0
    then some (unlock m, idle (code worker_try_once minus_one))
    else some (m, try_counting)
client_step i r l m try_counting = some (record m { pool = start_running m.pool }, try_taking)
client_step i r l m try_taking = some (unlock (take_task m), try_executing (head_task m.pool))
client_step i r l m (try_executing t) = some (execute t m, try_uncounting)
client_step i r l m try_uncounting =
    some (record m { pool = stop_running m.pool }, idle (code worker_try_once (pos 0)))
client_step i r l m (shutdown_lock d) = locked i m (shutdown_locked d)
client_step i r l m (shutdown_locked d) =
    some (unlock (record m { notify = [] }), shutdown_join d 0)
client_step i r l m (shutdown_join d k) =
    if ltb k m.pool.thread_count
    then some (call_join (get_or m.pool.threads k 0) m, shutdown_joining d k)
    else if d
    then some (m, freeing)
    else some (m, idle (done shutdown))
-- `pthread_join` returns when the thread has. A thread that is joined twice is in `joins` twice:
-- what the code does after that is undefined, and the steps that follow here say nothing of it.
client_step i r l m (shutdown_joining d k) =
    if elem (get_or m.pool.threads k 0) m.exited then some (m, shutdown_join d (suc k)) else none
client_step i r l m freeing = some (record m { freed = true }, idle (done destroy))
