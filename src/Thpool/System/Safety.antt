-- ===== src/Thpool/System/Safety.antt =====
-- What holds after every schedule of the threads of a new pool.
use libthreads.Prelude.{
  ℕ, ◌+◌, ◌≤◌, ◌<◌, ◌≡◌, ◌∙◌, ap, ◌≢◌, true, List, ◌++◌, some, arith, length, total, total-eq-zero,
  total_mono, append-nil,
}
use libthreads.Thpool.Pool.{Pool, size_max}
use libthreads.Thpool.Ring.{IsValid, contents, contents-nil}
use libthreads.Thpool.Create.{IsNew}
use libthreads.Thpool.Shared.{Shared}
use libthreads.Thpool.Worker.{Luck, WorkerPc, locking, returned, worker_step}
use libthreads.Thpool.Client.{Request, pause, wait, ClientPc, idle, done, try_lock, client_step}
use libthreads.Thpool.System.{
  Thread, worker, client, Choice, System, thread_step, step, step_to, run, initial,
}
use libthreads.Thpool.System.Views.{holds, busy, in_flight, Knows}
use libthreads.Thpool.System.Invariant.{Inv, run-Inv, step-Inv}

pub initial-Inv :
    (n workers size : ℕ) (p : Pool)
    → n + 1 < size_max
    → IsNew workers size p
    → Inv n (initial workers p)
initial-Inv n workers size p small new = record {
  small = small;
  valid = new.valid;
  logged = rw (contents-nil p new.empty);
  holder = λ j h. ground arith;
  knows = λ j. ground arith;
  counted =
      omega (arith, new.idle, total-eq-zero busy n (initial workers p).thread (λ j. ground arith));
  ended = omega (arith, total-eq-zero in_flight n (initial workers p).thread (λ j. ground arith));
}

-- What `thpool_wait` and a worker know when they return.
wait_return :
    (i : ℕ) (r : Request) (l : Luck) (m : Shared) (p : ClientPc) {m' : Shared}
    → Knows m.pool (client p)
    → p ≢ idle (done wait)
    → client_step i r l m p ≡ some (m', idle (done wait))
    → (m'.pool.queue_count ≡ 0) × (m'.pool.running_count ≡ 0)
unfolding client_step
wait_return i r l m try_lock k ne e = ground arith
wait_return i pause l m (idle _) k ne e = ground arith
wait_return i _ l m (idle _) k ne e = ground arith
wait_return i r l m p k ne e = ground arith

worker_return :
    (i : ℕ) (l : Luck) (m : Shared) (p : WorkerPc) {m' : Shared}
    → Knows m.pool (worker p)
    → worker_step i l m p ≡ some (m', returned)
    → (m'.pool.queue_count ≡ 0) × (m'.pool.shutdown ≡ 1)
unfolding worker_step
worker_return i l m locking k e = ground arith
worker_return i l m p k e = ground arith

thread_wait_return :
    (c : Choice) (m : Shared) (p : Thread) {m' : Shared}
    → Knows m.pool p
    → p ≢ client (idle (done wait))
    → thread_step c m p ≡ some (m', client (idle (done wait)))
    → (m'.pool.queue_count ≡ 0) × (m'.pool.running_count ≡ 0)
unfolding thread_step
thread_wait_return c m (worker p) {m'} k ne e = ground arith
thread_wait_return c m (client p) {m'} k ne e =
    wait_return c.i c.request c.luck m p {m' = m'} k (λ q. ne (ap client q)) (ground arith)

thread_worker_return :
    (c : Choice) (m : Shared) (p : Thread) {m' : Shared}
    → Knows m.pool p
    → thread_step c m p ≡ some (m', worker returned)
    → (m'.pool.queue_count ≡ 0) × (m'.pool.shutdown ≡ 1)
unfolding thread_step
thread_worker_return c m (worker p) {m'} k e =
    worker_return c.i c.luck m p {m' = m'} k (ground arith)
thread_worker_return c m (client p) {m'} k e = ground arith

in_flight-le : (p : Thread) → in_flight p ≤ busy p
in_flight-le p = ground arith

-- With nothing queued and nothing running, every task that was added has been executed.
pub all_finished :
    {n : ℕ} {s : System}
    → Inv n s
    → s.mem.pool.queue_count ≡ 0
    → s.mem.pool.running_count ≡ 0
    → s.mem.finished ≡ length s.mem.added
all_finished {n} {s} v q r = omega (
  arith,
  v.ended,
  v.counted,
  total_mono in_flight busy in_flight-le n s.thread,
  ap length (
      v.logged
      ∙ ap (λ l. s.mem.started ++ l) (contents-nil s.mem.pool q)
      ∙ append-nil s.mem.started),
)

module _ (n workers size : ℕ) (p : Pool) (small : n + 1 < size_max) (new : IsNew workers size p)
    (cs : List Choice) where
  abbrev reached : System
  reached = run n (initial workers p) cs

  reached-Inv : Inv n reached
  reached-Inv = run-Inv n (initial workers p) cs (initial-Inv n workers size p small new)

  -- After any schedule of `n` threads, `n + 1 < 2 ^ 64`, on a new pool: at most one thread is
  -- between the lock and the unlock of the mutex.
  pub mutual_exclusion :
      (i j : ℕ) → holds (reached.thread i) ≡ true → holds (reached.thread j) ≡ true → i ≡ j
  mutual_exclusion i j hi hj = ground (arith, reached-Inv.holder i hi, reached-Inv.holder j hj)

  -- After any schedule of `n` threads, `n + 1 < 2 ^ 64`, on a new pool: the tasks that were added
  -- are those that were taken from the queue, followed by those in the queue, in the order in which
  -- they were added: no task is lost, repeated or overtaken. The queue is valid.
  pub tasks_in_order :
      (reached.mem.added ≡ reached.mem.started ++ contents reached.mem.pool)
      × IsValid reached.mem.pool
  tasks_in_order = (reached-Inv.logged, reached-Inv.valid)

  -- After any schedule of `n` threads, `n + 1 < 2 ^ 64`, on a new pool: `running_count` is the
  -- number of threads that are between its increment and its decrement, and the tasks that were
  -- taken from the queue are those whose function has returned and those that a thread has still in
  -- its hands.
  pub running_counts :
      (reached.mem.pool.running_count ≡ total busy n reached.thread)
      × (length reached.mem.started ≡ reached.mem.finished + total in_flight n reached.thread)
  running_counts = (reached-Inv.counted, reached-Inv.ended)

  -- After any schedule of `n` threads, `n + 1 < 2 ^ 64`, on a new pool: when a step of a thread
  -- returns from `thpool_wait`, the queue is empty, no task is counted as running, and as many
  -- tasks have been executed as were ever added.
  pub wait_returns_idle :
      (c : Choice)
      → reached.thread c.i ≢ client (idle (done wait))
      → (step n reached c).thread c.i ≡ client (idle (done wait))
      → let t = step n reached c in
        (t.mem.pool.queue_count ≡ 0)
        × (t.mem.pool.running_count ≡ 0)
        × (t.mem.finished ≡ length t.mem.added)
  wait_returns_idle c ne e =
      let (q, r) =
        step_to (λ m. (m.pool.queue_count ≡ 0) × (m.pool.running_count ≡ 0)) n reached c _ ne
          (λ m. thread_wait_return c reached.mem (reached.thread c.i) (reached-Inv.knows c.i) ne)
          e in
      (q, r, all_finished (step-Inv n reached c reached-Inv) q r)

  -- After any schedule of `n` threads, `n + 1 < 2 ^ 64`, on a new pool: when a step of a worker
  -- returns from its thread function, the pool is shut down, and the queue is empty then.
  pub worker_returns_empty :
      (c : Choice)
      → reached.thread c.i ≢ worker returned
      → (step n reached c).thread c.i ≡ worker returned
      → let t = step n reached c in (t.mem.pool.queue_count ≡ 0) × (t.mem.pool.shutdown ≡ 1)
  worker_returns_empty c ne =
      step_to (λ m. (m.pool.queue_count ≡ 0) × (m.pool.shutdown ≡ 1)) n reached c _ ne
        λ m. thread_worker_return c reached.mem (reached.thread c.i) (reached-Inv.knows c.i)
