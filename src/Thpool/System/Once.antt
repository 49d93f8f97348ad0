-- ===== src/Thpool/System/Once.antt =====
-- src/threads/thpool.c: every task is executed once.
use libthreads.Prelude.{
  ℕ, ◌+◌, ◌≡◌, ◌<◌, ap, List, [], ◌∷◌, if◌then◌else◌, some, arith, total, total-update,
  total-eq-zero,
}
use libthreads.Thpool.Pool.{
  Task, Pool, same_task, occurrences, occurrences-append, head_task, size_max,
}
use libthreads.Thpool.Ring.{contents}
use libthreads.Thpool.Create.{IsNew}
use libthreads.Thpool.Shared.{Shared}
use libthreads.Thpool.Worker.{Luck, WorkerPc, taking, executing, worker_step}
use libthreads.Thpool.Client.{Request, ClientPc, try_taking, try_executing, client_step}
use libthreads.Thpool.System.{
  Thread, worker, client, Choice, System, thread_step, thread_step_cases, step, step_cases, run,
  run_keeps, initial,
}
use libthreads.Thpool.System.Safety.{tasks_in_order}

-- The thread is in a call of the function of this task.
abbrev pub executing_now : Task → Thread → ℕ
executing_now t (worker (executing u)) = if same_task t u then 1 else 0
executing_now t (client (try_executing u)) = if same_task t u then 1 else 0
executing_now t _ = 0

-- What a step does to the number of executions of `t`.
abbrev Balance : Task → Shared → Thread → Shared → Thread → Type 0
Balance t m p m' p' =
    occurrences t m'.started + occurrences t m.executed + executing_now t p
    ≡ occurrences t m.started + occurrences t m'.executed + executing_now t p'

worker_step-Balance :
    (t : Task) (i : ℕ) (l : Luck) (m : Shared) (p : WorkerPc) {m' : Shared} {p' : WorkerPc}
    → worker_step i l m p ≡ some (m', p')
    → Balance t m (worker p) m' (worker p')
unfolding worker_step
worker_step-Balance t i l m taking e =
    ground (arith, occurrences-append t m.started (head_task m.pool ∷ []))
worker_step-Balance t i l m (executing u) e =
    ground (arith, occurrences-append t m.executed (u ∷ []))
worker_step-Balance t i l m p e = ground arith

client_step-Balance :
    (t : Task) (i : ℕ) (r : Request) (l : Luck) (m : Shared) (p : ClientPc) {m' : Shared}
    {p' : ClientPc}
    → client_step i r l m p ≡ some (m', p')
    → Balance t m (client p) m' (client p')
unfolding client_step
client_step-Balance t i r l m try_taking e =
    ground (arith, occurrences-append t m.started (head_task m.pool ∷ []))
client_step-Balance t i r l m (try_executing u) e =
    ground (arith, occurrences-append t m.executed (u ∷ []))
client_step-Balance t i r l m p e = ground arith

thread_step-Balance :
    (t : Task) (c : Choice) (m : Shared) (p : Thread) {m' : Shared} {p' : Thread}
    → thread_step c m p ≡ some (m', p')
    → Balance t m p m' p'
thread_step-Balance t c m p e =
    thread_step_cases (Balance t m) c m
      (λ w w' m' moved. worker_step-Balance t c.i c.luck m w moved)
      (λ k k' m' moved. client_step-Balance t c.i c.request c.luck m k moved) p e

-- A task that was taken has been executed, or is being executed.
abbrev Executes : Task → ℕ → System → Type 0
Executes t n s =
    occurrences t s.mem.started ≡ occurrences t s.mem.executed + total (executing_now t) n s.thread

step-Executes :
    (t : Task) (n : ℕ) (s : System) (c : Choice) → Executes t n s → Executes t n (step n s c)
step-Executes t n s c v = step_cases (Executes t n) n s c v λ m p lt moved. omega (
  arith,
  v,
  thread_step-Balance t c s.mem (s.thread c.i) {p' = p} moved,
  total-update (executing_now t) n s.thread c.i p lt,
)

initial-Executes : (t : Task) (n workers : ℕ) (p : Pool) → Executes t n (initial workers p)
initial-Executes t n workers p =
    omega (arith, total-eq-zero (executing_now t) n (initial workers p).thread (λ j. ground arith))

module _ (n workers size : ℕ) (p : Pool) (small : n + 1 < size_max)
    (new : IsNew workers size p) where
  -- After any schedule of `n` threads, `n + 1 < 2 ^ 64`, on a new pool: a task has been added as
  -- often as its function was called with its argument and has returned, plus the number of threads
  -- that are in such a call, plus the number of its places in the queue.
  pub executed_once :
      (cs : List Choice) (t : Task)
      → let s = run n (initial workers p) cs in
        occurrences t s.mem.added
        ≡ occurrences t s.mem.executed
          + total (executing_now t) n s.thread
          + occurrences t (contents s.mem.pool)
  executed_once cs t =
      let s = run n (initial workers p) cs in
      omega (
        arith,
        ap (occurrences t) (tasks_in_order n workers size p small new cs).0,
        occurrences-append t s.mem.started (contents s.mem.pool),
        run_keeps (Executes t n) n (step-Executes t n) (initial workers p) cs
            (initial-Executes t n workers p),
      )
