-- ===== src/Thpool/Shared.antt =====
-- src/threads/thpool.c: what the threads of a pool share, `struct thpool` with its mutex `lock` and
-- its condition variables, and the uses that the code makes of them.
-- A condition variable is the list of the threads that wait on it; a thread that is not on the list
-- any more has been woken, and has to lock the mutex again.
use libthreads.Prelude.{
  Bool, ℕ, suc, ◌%◌, List, [], ◌∷◌, ◌++◌, Option, none, some, length, remove_at,
}
use libthreads.Thpool.Pool.{Task, Pool, enqueue, dequeue, head_task}

pub record Shared : Type 0 where
  pub pool : Pool
  pub owner : Option ℕ  -- the thread that holds `lock`
  pub notify : List ℕ  -- the threads that wait on `notify`
  pub notify_empty : List ℕ  -- the threads that wait on `notify_empty`
  pub exited : List ℕ  -- the workers that have returned, as `pthread_join` sees them
  pub freed : Bool  -- whether `thpool_destroy` has freed the pool
  -- Kept for the statements only: no step reads them. All tasks that were added, all that were
  -- taken from the queue, and those whose function has returned, with their number.
  pub added : List Task
  pub started : List Task
  pub executed : List Task
  pub finished : ℕ
  -- The threads that `pthread_join` was called for. To join a thread twice, or to join one that
  -- another thread joins, is undefined: `each_once joins` says that this has not happened.
  pub joins : List ℕ

-- `pthread_mutex_lock` by thread `i`; `none` while the mutex is held.
abbrev pub lock_by : ℕ → Shared → Option Shared
lock_by i m = elim (m.owner) [ none ↦ some (record m { owner = some i }) | some _ ↦ none ]

abbrev pub unlock : Shared → Shared
unlock m = record m { owner = none }

-- `pthread_cond_signal` wakes one waiting thread, if there is any: `k` says which.
abbrev pub wake_one : ℕ → List ℕ → List ℕ
wake_one k l = remove_at (k % length l) l

abbrev pub signal_notify : ℕ → Shared → Shared
signal_notify k m = record m { notify = wake_one k m.notify }

abbrev pub signal_notify_empty : ℕ → Shared → Shared
signal_notify_empty k m = record m { notify_empty = wake_one k m.notify_empty }

-- `pthread_cond_wait` releases the mutex and waits, in one step.
abbrev pub wait_notify : ℕ → Shared → Shared
wait_notify i m = record m { owner = none; notify = i ∷ m.notify }

abbrev pub wait_notify_empty : ℕ → Shared → Shared
wait_notify_empty i m = record m { owner = none; notify_empty = i ∷ m.notify_empty }

-- A task enters the queue, or leaves it.
abbrev pub put_task : Task → Shared → Shared
put_task t m = record m { pool = enqueue m.pool t; added = m.added ++ t ∷ [] }

abbrev pub take_task : Shared → Shared
take_task m = record m { pool = dequeue m.pool; started = m.started ++ head_task m.pool ∷ [] }

-- `pthread_join` is called for thread `w`.
abbrev pub call_join : ℕ → Shared → Shared
call_join w m = record m { joins = w ∷ m.joins }

-- The function of a task is called with its argument, and returns.
abbrev pub execute : Task → Shared → Shared
execute t m = record m { executed = m.executed ++ t ∷ []; finished = suc m.finished }
