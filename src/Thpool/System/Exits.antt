-- ===== src/Thpool/System/Exits.antt =====
-- `thpool_shutdown`: what each step does to the workers that have returned and to what the threads
-- that join them have seen.
use libthreads.Prelude.{
  ℕ, zero, suc, ◌≤◌, ◌<◌, ◌≡◌, refl, ◌≢◌, ◌⊎◌, Bool, true, ◌&&◌, List, ◌∷◌, some, arith, elem,
  get_or,
}
use native.Mathlib.Decide.{ℕ_discrete}
use libthreads.Thpool.Pool.{enqueue, dequeue}
use libthreads.Thpool.Shared.{Shared}
use libthreads.Thpool.Worker.{Luck, WorkerPc, locking, returned, worker_step}
use libthreads.Thpool.Client.{
  Request, pause, shutdown, done, ClientPc, idle, shutdown_join, shutdown_joining, freeing,
  try_lock, client_step,
}
use libthreads.Thpool.System.{Thread, worker, client, Choice, thread_step, thread_step_cases}

-- Whether the first `k` handles are of threads that have returned.
pub all_exited : List ℕ → List ℕ → ℕ → Bool
all_exited threads exited zero = true
all_exited threads exited (suc k) = elem (get_or threads k 0) exited && all_exited threads exited k

pub all_exited-elem :
    (threads exited : List ℕ) (k x : ℕ)
    → all_exited threads exited k ≡ true
    → x < k
    → elem (get_or threads x 0) exited ≡ true
unfolding all_exited
all_exited-elem threads exited zero x h lt = absurd (omega arith)
all_exited-elem threads exited (suc k) x h lt = elim (ℕ_discrete x k) [
  | yes same ↦ rw same (ground arith)
  | no other ↦ all_exited-elem threads exited k x (ground arith) (omega arith)
]

pub all_exited-cons :
    (threads exited : List ℕ) (i k : ℕ)
    → all_exited threads exited k ≡ true
    → all_exited threads (i ∷ exited) k ≡ true
unfolding all_exited
all_exited-cons threads exited i zero h = refl
all_exited-cons threads exited i (suc k) h = ground (arith, all_exited-cons threads exited i k)

-- What a thread in `thpool_shutdown` has seen.
abbrev pub Joined : Shared → Thread → Type 0
Joined m (client (shutdown_join _ k)) =
    (k ≤ m.pool.thread_count) × (all_exited m.pool.threads m.exited k ≡ true)
Joined m (client (shutdown_joining _ k)) =
    (k < m.pool.thread_count) × (all_exited m.pool.threads m.exited k ≡ true)
Joined m (client (idle (done shutdown))) =
    all_exited m.pool.threads m.exited m.pool.thread_count ≡ true
Joined m (client freeing) = all_exited m.pool.threads m.exited m.pool.thread_count ≡ true
Joined m _ = Unit {0}

pub record Keeps (i : ℕ) (m : Shared) (p : Thread) (m' : Shared) (p' : Thread) : Type 0 where
  pub same_threads : m'.pool.threads ≡ m.pool.threads
  pub same_count : m'.pool.thread_count ≡ m.pool.thread_count
  pub exits : (m'.exited ≡ m.exited) ⊎ ((m'.exited ≡ i ∷ m.exited) × (p' ≡ worker returned))
  pub exits_self : p' ≡ worker returned → m'.exited ≡ i ∷ m.exited
  pub runs : p ≢ worker returned
  pub joined : Joined m' p'
  pub frees :
      m'.freed ≡ true
      → (m.freed ≡ true) ⊎ (all_exited m'.pool.threads m'.exited m'.pool.thread_count ≡ true)

worker_step-Keeps :
    (i : ℕ) (l : Luck) (m : Shared) (p : WorkerPc) {m' : Shared} {p' : WorkerPc}
    → worker_step i l m p ≡ some (m', p')
    → Keeps i m (worker p) m' (worker p')
unfolding worker_step dequeue
worker_step-Keeps i l m locking e = ground arith
worker_step-Keeps i l m p e = ground arith

client_step-Keeps :
    (i : ℕ) (r : Request) (l : Luck) (m : Shared) (p : ClientPc) {m' : Shared} {p' : ClientPc}
    → Joined m (client p)
    → client_step i r l m p ≡ some (m', p')
    → Keeps i m (client p) m' (client p')
unfolding client_step dequeue enqueue all_exited
client_step-Keeps i r l m try_lock k e = ground arith
client_step-Keeps i r l m (shutdown_join d x) k e = ground arith
client_step-Keeps i r l m (shutdown_joining d x) k e = ground arith
client_step-Keeps i pause l m (idle _) k e = ground arith
client_step-Keeps i _ l m (idle _) k e = ground arith
client_step-Keeps i r l m p k e = ground arith

pub thread_step-Keeps :
    (c : Choice) (m : Shared) (p : Thread) {m' : Shared} {p' : Thread}
    → Joined m p
    → thread_step c m p ≡ some (m', p')
    → Keeps c.i m p m' p'
thread_step-Keeps c m p b e =
    thread_step_cases (λ q m' q'. Joined m q → Keeps c.i m q m' q') c m
      (λ w w' m' moved b. worker_step-Keeps c.i c.luck m w moved)
      (λ k k' m' moved b. client_step-Keeps c.i c.request c.luck m k b moved) p e b

pub Joined-kept :
    (m m' : Shared) (i : ℕ) (q : Thread)
    → m'.pool.threads ≡ m.pool.threads
    → m'.pool.thread_count ≡ m.pool.thread_count
    → (m'.exited ≡ m.exited) ⊎ (m'.exited ≡ i ∷ m.exited)
    → Joined m q
    → Joined m' q
Joined-kept m m' i (client freeing) t n e j =
    ground (arith, all_exited-cons m.pool.threads m.exited i m.pool.thread_count)
Joined-kept m m' i (client (shutdown_join _ k)) t n e j =
    ground (arith, all_exited-cons m.pool.threads m.exited i k)
Joined-kept m m' i (client (shutdown_joining _ k)) t n e j =
    ground (arith, all_exited-cons m.pool.threads m.exited i k)
Joined-kept m m' i (client (idle (done shutdown))) t n e j =
    ground (arith, all_exited-cons m.pool.threads m.exited i m.pool.thread_count)
Joined-kept m m' i q t n e j = ground arith
