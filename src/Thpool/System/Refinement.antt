-- ===== src/Thpool/System/Refinement.antt =====
-- The pool against the bounded queue: what each step does to the queued tasks.
use mathlib.Core.Path.{subst}
use libthreads.Fifo.{Moves, stays, offers, polls}
use libthreads.Prelude.{
  ℕ, ◌+◌, ◌<◌, ◌≡◌, ◌≢◌, refl, ◌∙◌, inl, inr, List, some, arith, length, Bool-cases,
}
use libthreads.Thpool.Pool.{Task, Pool, size_max, is_full, enqueue, dequeue, head_task}
use libthreads.Thpool.Ring.{IsValid, contents, length-contents, contents-enqueue, contents-dequeue}
use libthreads.Thpool.Create.{IsNew}
use libthreads.Thpool.Shared.{Shared}
use libthreads.Thpool.Worker.{Luck, WorkerPc, locking, taking, worker_step}
use libthreads.Thpool.Client.{
  Request, pause, ClientPc, idle, add_locked, adding_locked, try_lock, try_taking, client_step,
}
use libthreads.Thpool.System.{
  Thread, worker, client, Choice, System, thread_step, thread_step_cases, run_keeps, step,
  step_cases, run_keeps, run, initial,
}
use libthreads.Thpool.System.Views.{Knows}
use libthreads.Thpool.System.Invariant.{Inv, step-Inv, run-Inv}
use libthreads.Thpool.System.Safety.{initial-Inv}

abbrev pub HasRoom : ℕ → List Task → Type 0
HasRoom size q = length q < size

-- A step from `m` to `m'`, for the queue, and the capacity that it keeps.
abbrev Stepped : Shared → Shared → Type 0
Stepped m m' =
    Moves (HasRoom m.pool.queue_size) (contents m.pool) (contents m'.pool)
    × (m'.pool.queue_size ≡ m.pool.queue_size)

worker_step-Stepped :
    (i : ℕ) (l : Luck) (m : Shared) (p : WorkerPc) {m' : Shared} {p' : WorkerPc}
    → IsValid m.pool
    → Knows m.pool (worker p)
    → worker_step i l m p ≡ some (m', p')
    → Stepped m m'
unfolding worker_step dequeue
worker_step-Stepped i l m taking v k e =
    (polls (head_task m.pool) (ground (arith, contents-dequeue v)), ground arith)
worker_step-Stepped i l m locking v k e = (stays (ground arith), ground arith)
worker_step-Stepped i l m p v k e = (stays (ground arith), ground arith)

-- The steps that add a task, where there is room.
put_task-Stepped :
    (m m' : Shared) (t : Task)
    → IsValid m.pool
    → m.pool.queue_count ≢ m.pool.queue_size
    → m'.pool ≡ enqueue m.pool t
    → Stepped m m'
unfolding enqueue
put_task-Stepped m m' t v room e = (
  offers t (omega (arith, length-contents m.pool, v.count_in, room))
      (ground (arith, contents-enqueue v t room)),
  ground arith,
)

client_step-Stepped :
    (i : ℕ) (r : Request) (l : Luck) (m : Shared) (p : ClientPc) {m' : Shared} {p' : ClientPc}
    → IsValid m.pool
    → Knows m.pool (client p)
    → client_step i r l m p ≡ some (m', p')
    → Stepped m m'
unfolding client_step dequeue
client_step-Stepped i r l m (add_locked t) {m' = m'} v k e = elim (Bool-cases (is_full m.pool)) [
  | inl full ↦ (stays (ground arith), ground arith)
  | inr room ↦ put_task-Stepped m m' t v (ground arith) (ground arith)
]
client_step-Stepped i r l m (adding_locked t x) {m' = m'} v k e =
    elim (Bool-cases (is_full m.pool)) [
      | inl full ↦ (stays (ground arith), ground arith)
      | inr room ↦ put_task-Stepped m m' t v (ground arith) (ground arith)
    ]
client_step-Stepped i r l m try_taking v k e =
    (polls (head_task m.pool) (ground (arith, contents-dequeue v)), ground arith)
client_step-Stepped i r l m try_lock v k e = (stays (ground arith), ground arith)
client_step-Stepped i pause l m (idle _) v k e = (stays (ground arith), ground arith)
client_step-Stepped i _ l m (idle _) v k e = (stays (ground arith), ground arith)
client_step-Stepped i r l m p v k e = (stays (ground arith), ground arith)

thread_step-Stepped :
    (c : Choice) (m : Shared) (p : Thread) {m' : Shared} {p' : Thread}
    → IsValid m.pool
    → Knows m.pool p
    → thread_step c m p ≡ some (m', p')
    → Stepped m m'
thread_step-Stepped c m p v k e =
    thread_step_cases (λ q m' q'. IsValid m.pool → Knows m.pool q → Stepped m m') c m
      (λ w w' m' moved v k. worker_step-Stepped c.i c.luck m w v k moved)
      (λ x x' m' moved v k. client_step-Stepped c.i c.request c.luck m x v k moved) p e v k

step-Stepped : (n : ℕ) (s : System) (c : Choice) → Inv n s → Stepped s.mem (step n s c).mem
step-Stepped n s c v =
    step_cases (λ t. Stepped s.mem t.mem) n s c (stays refl, refl)
      λ m p lt moved. thread_step-Stepped c s.mem (s.thread c.i) v.valid (v.knows c.i) moved

run-size :
    (n : ℕ) (s : System) (cs : List Choice)
    → Inv n s
    → (run n s cs).mem.pool.queue_size ≡ s.mem.pool.queue_size
run-size n s cs v =
    (run_keeps (λ t. Inv n t × (t.mem.pool.queue_size ≡ s.mem.pool.queue_size)) n
      (λ t c (w, same). (step-Inv n t c w, (step-Stepped n t c w).1 ∙ same)) s cs (v, refl)).1

-- After any schedule of `n` threads, `n + 1 < 2 ^ 64`, on a new pool, each further step of any
-- thread leaves the queued tasks as they are, or adds one at the end while fewer than `queue_size`
-- are queued, or takes the oldest: the pool implements the bounded queue, with the capacity that it
-- was created with.
pub pool_refines_queue :
    (n workers size : ℕ) (p : Pool)
    → n + 1 < size_max
    → IsNew workers size p
    → (cs : List Choice) (c : Choice)
    → let s = run n (initial workers p) cs in
      Moves (HasRoom size) (contents s.mem.pool) (contents (step n s c).mem.pool)
pool_refines_queue n workers size p small new cs c =
    let start = initial-Inv n workers size p small new in
    let s = run n (initial workers p) cs in
    subst (λ k. Moves (HasRoom k) (contents s.mem.pool) (contents (step n s c).mem.pool))
      (run-size n (initial workers p) cs start ∙ new.sizes.1)
      (step-Stepped n s c (run-Inv n (initial workers p) cs start)).0
