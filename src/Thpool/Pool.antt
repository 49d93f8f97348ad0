-- ===== src/Thpool/Pool.antt =====
-- src/threads/thpool.c: `struct task`, `struct thpool`, and the accesses to them.
-- Pointers and thread handles are numbers, and `size_t` arithmetic is taken modulo 2 ^ 64. The
-- mutexes and condition variables of the struct are part of `Thpool.Shared`.
use libthreads.Prelude.{
  ◌++◌, ◌≡◌, arith, ℕ, zero, suc, ◌+◌, ◌-◌, ◌%◌, ◌^◌, Bool, ◌&&◌, List, [], ◌∷◌, Option, none, some,
  ◌==◌, if◌then◌else◌, get_or, set, ℤ, pos, negsuc, minus_one, Errno, eagain,
}

abbrev pub size_max : ℕ
size_max = 2 ^ 64

-- A sum or a difference as a `size_t`.
abbrev pub size : ℕ → ℕ
size n = n % size_max

pub record Task : Type 0 where
  pub function : ℕ
  pub arg : ℕ

abbrev pub same_task : Task → Task → Bool
same_task t u = t.function == u.function && t.arg == u.arg

-- How often a task is in a list.
abbrev pub occurrences : Task → List Task → ℕ
occurrences t [] = 0
occurrences t (u ∷ l) = (if same_task t u then 1 else 0) + occurrences t l

pub occurrences-append :
    (t : Task) (l k : List Task) → occurrences t (l ++ k) ≡ occurrences t l + occurrences t k
occurrences-append t [] k = omega arith
occurrences-append t (u ∷ l) k = omega (arith, occurrences-append t l k)

-- What a slot of the array holds that was never written, or a read past the end: no operation
-- depends on it.
abbrev pub no_task : Task
no_task = record { function = 0; arg = 0 }

pub record Pool : Type 0 where
  pub shutdown : ℕ
  pub hold : ℕ
  pub running_count : ℕ
  pub threads : List ℕ
  pub thread_count : ℕ
  pub task_queue : List Task
  pub queue_size : ℕ
  pub queue_count : ℕ
  pub head : ℕ
  pub tail : ℕ

-- The test of `thpool_add_task`.
abbrev pub is_full : Pool → Bool
is_full pool = pool.queue_count == pool.queue_size

-- Adds a task to the end of the queue.
unfoldable pub enqueue : Pool → Task → Pool
enqueue pool task = record pool {
  task_queue = set pool.task_queue pool.tail task;
  tail = size (pool.tail + 1) % pool.queue_size;
  queue_count = size (pool.queue_count + 1);
}

-- The task at the head of the queue.
unfoldable pub head_task : Pool → Task
head_task pool = get_or pool.task_queue pool.head no_task

-- Removes the task at the head of the queue.
unfoldable pub dequeue : Pool → Pool
dequeue pool = record pool {
  head = size (pool.head + 1) % pool.queue_size;
  queue_count = size (pool.queue_count + size_max - 1);
}

-- `__atomic_add_fetch(&pool->running_count, 1, …)`
abbrev pub start_running : Pool → Pool
start_running pool = record pool { running_count = size (pool.running_count + 1) }

-- `__atomic_sub_fetch(&pool->running_count, 1, …)`
abbrev pub stop_running : Pool → Pool
stop_running pool = record pool { running_count = size (pool.running_count + size_max - 1) }

unfoldable pub thpool_pause : Pool → Pool
thpool_pause pool = record pool { hold = 1 }

unfoldable pub thpool_active_tasks : Pool → ℕ
thpool_active_tasks pool = pool.running_count

unfoldable pub thpool_total_tasks : Pool → ℕ
thpool_total_tasks pool = size (pool.running_count + pool.queue_count)

unfoldable pub thpool_workers_count : Pool → ℕ
thpool_workers_count pool = pool.thread_count

-- The calls that an operation makes besides its own work: `sched_yield`, `usleep`,
-- `pthread_cond_signal(&(pool->notify))`.
pub data Effect : Type 0 where
  yields : Effect
  sleeps : ℕ → Effect
  signals : Effect

-- A call's return value, what it stores in `errno`, the calls that it made, and the pool that it
-- left.
pub record Outcome : Type 0 where
  pub ret : ℤ
  pub errno : Option Errno
  pub effects : List Effect
  pub after : Pool

unfoldable pub thpool_add_task : Pool → Task → Outcome
thpool_add_task pool task =
    if is_full pool
    then record { ret = minus_one; errno = none; effects = yields ∷ []; after = pool }
    else record { ret = pos 0; errno = none; effects = signals ∷ []; after = enqueue pool task }

-- The loop of `thpool_add_task_try` while `max_try` is not negative. `others k` is what the other
-- threads do to the pool while the caller sleeps after the attempt at `max_try = k`.
unfoldable pub try_from : (ℕ → Pool → Pool) → Task → ℕ → ℕ → Pool → Outcome
try_from others task usec zero pool =
    if is_full pool
    then record {
      ret = minus_one;
      errno = some eagain;
      effects = yields ∷ sleeps usec ∷ [];
      after = others 0 pool;
    }
    else record { ret = pos 0; errno = none; effects = signals ∷ []; after = enqueue pool task }
try_from others task usec (suc k) pool =
    let rest = try_from others task usec k (others (suc k) pool) in
    if is_full pool
    then record rest { effects = yields ∷ sleeps usec ∷ rest.effects }
    else record { ret = pos 0; errno = none; effects = signals ∷ []; after = enqueue pool task }

unfoldable pub thpool_add_task_try : (ℕ → Pool → Pool) → Pool → Task → ℕ → ℤ → Outcome
unfolding try_from
thpool_add_task_try others pool task usec (pos max_try) = try_from others task usec max_try pool
thpool_add_task_try others pool task usec (negsuc _) = record {
  ret = minus_one;
  errno = some eagain;
  effects = [];
  after = pool;
}
