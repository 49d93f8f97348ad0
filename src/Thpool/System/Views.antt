-- ===== src/Thpool/System/Views.antt =====
-- What the place where a thread stands says of the mutex, of `running_count` and of the queue.
use libthreads.Prelude.{
  ℕ, ◌+◌, ◌≤◌, ◌<◌, ◌≡◌, ◌≢◌, ◌⊎◌, Bool, true, false, ◌++◌, none, some, length,
}
use libthreads.Thpool.Pool.{Pool, size_max}
use libthreads.Thpool.Ring.{IsValid, contents}
use libthreads.Thpool.Shared.{Shared}
use libthreads.Thpool.Worker.{
  WorkerPc, testing, found_empty, checking_shutdown, before_wait, checking_hold, counting, taking,
  executing, uncounting,
}
use libthreads.Thpool.Client.{
  ClientPc, add_locked, resume_locked, total_locked, workers_locked, wait_locked, wait_counted,
  wait_before, try_locked, try_counting, try_taking, try_executing, try_uncounting, shutdown_lock,
  shutdown_locked, adding_locked,
}
use libthreads.Thpool.System.{Thread, worker, client}

-- Between `pthread_mutex_lock` and the next unlock or wait.
abbrev pub worker_holds : WorkerPc → Bool
worker_holds testing = true
worker_holds found_empty = true
worker_holds checking_shutdown = true
worker_holds before_wait = true
worker_holds checking_hold = true
worker_holds counting = true
worker_holds taking = true
worker_holds _ = false

abbrev pub client_holds : ClientPc → Bool
client_holds (add_locked _) = true
client_holds resume_locked = true
client_holds total_locked = true
client_holds workers_locked = true
client_holds wait_locked = true
client_holds (wait_counted _) = true
client_holds wait_before = true
client_holds try_locked = true
client_holds try_counting = true
client_holds try_taking = true
client_holds (shutdown_locked _) = true
client_holds (adding_locked _ _) = true
client_holds _ = false

abbrev pub holds : Thread → Bool
holds (worker p) = worker_holds p
holds (client p) = client_holds p

-- Counted in `running_count`.
abbrev pub busy : Thread → ℕ
busy (worker taking) = 1
busy (worker (executing _)) = 1
busy (worker uncounting) = 1
busy (client try_taking) = 1
busy (client (try_executing _)) = 1
busy (client try_uncounting) = 1
busy _ = 0

-- Has taken a task, and has not executed it.
abbrev pub in_flight : Thread → ℕ
in_flight (worker (executing _)) = 1
in_flight (client (try_executing _)) = 1
in_flight _ = 0

-- What a thread has found out about the queue under the mutex, or has done to the shutdown flag.
abbrev pub Knows : Pool → Thread → Type 0
Knows p (worker checking_hold) = p.queue_count ≢ 0
Knows p (worker counting) = p.queue_count ≢ 0
Knows p (worker taking) = p.queue_count ≢ 0
Knows p (worker found_empty) = p.queue_count ≡ 0
Knows p (worker checking_shutdown) = p.queue_count ≡ 0
Knows p (worker before_wait) = p.queue_count ≡ 0
Knows p (client try_counting) = p.queue_count ≢ 0
Knows p (client try_taking) = p.queue_count ≢ 0
Knows p (client (wait_counted q)) = q ≡ p.queue_count
Knows p (client (shutdown_lock _)) = p.shutdown ≡ 1
Knows p (client (shutdown_locked _)) = p.shutdown ≡ 1
Knows p _ = Unit {0}

-- What a step of thread `i` from `p` starts from.
pub record Before (i : ℕ) (m : Shared) (p : Thread) : Type 0 where
  pub valid : IsValid m.pool
  pub logged : m.added ≡ m.started ++ contents m.pool
  pub holder : holds p ≡ true → m.owner ≡ some i
  pub knows : Knows m.pool p
  pub counted : busy p ≤ m.pool.running_count
  pub few : m.pool.running_count + 1 < size_max

-- And what it leads to. While another thread holds the mutex, neither the mutex nor the length of
-- the queue changes; the shutdown flag is never cleared.
pub record After (i : ℕ) (m : Shared) (p : Thread) (m' : Shared) (p' : Thread) : Type 0 where
  pub valid : IsValid m'.pool
  pub logged : m'.added ≡ m'.started ++ contents m'.pool
  pub holder : holds p' ≡ true → m'.owner ≡ some i
  pub knows : Knows m'.pool p'
  pub counted : m'.pool.running_count + busy p ≡ m.pool.running_count + busy p'
  pub ended :
      length m'.started + m.finished + in_flight p ≡ length m.started + m'.finished + in_flight p'
  pub kept_owner : (m'.owner ≡ m.owner) ⊎ (m.owner ≡ none) ⊎ (m.owner ≡ some i)
  pub kept_flag : m.pool.shutdown ≡ 1 → m'.pool.shutdown ≡ 1
  pub kept_count : (m'.pool.queue_count ≡ m.pool.queue_count) ⊎ (m.owner ≡ some i)
