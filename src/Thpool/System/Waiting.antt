-- ===== src/Thpool/System/Waiting.antt =====
-- src/threads/thpool.c: who wakes a thread in `thpool_wait`.
use libthreads.Prelude.{ℕ, suc, ◌≡◌, ◌⊎◌, inl, true, some, arith, elem, length}
use libthreads.Waiters.{elem-length, length-wake_one_some, elem-remove_all_ne}
use libthreads.Thpool.Shared.{Shared}
use libthreads.Thpool.Worker.{Luck, WorkerPc, found_empty, worker_step}
use libthreads.Thpool.Client.{Request, pause, ClientPc, idle, wait_blocked, client_step}
use libthreads.Thpool.System.{
  Thread, worker, client, Choice, System, thread_step, thread_step_cases, step, step_cases,
}
use libthreads.Thpool.System.Views.{Knows}
use libthreads.Thpool.System.Invariant.{Inv}

-- Why thread `j` is on the list of `notify_empty` no more after a step of thread `i` from `p`: a
-- worker has found the pool idle, and has taken this one thread off the list, or the wait of `j`
-- has ended with no signal.
abbrev pub IsWoken : ℕ → ℕ → Luck → Shared → Thread → Shared → Type 0
IsWoken i j l m p m' =
    ((p ≡ worker found_empty)
      × (m.pool.queue_count ≡ 0)
      × (m.pool.running_count ≡ 0)
      × (suc (length m'.notify_empty) ≡ length m.notify_empty))
    ⊎ ((i ≡ j) × (p ≡ client wait_blocked) × (l.spurious ≡ true))

worker_step-IsWoken :
    (i j : ℕ) (l : Luck) (m : Shared) (p : WorkerPc) {m' : Shared} {p' : WorkerPc}
    → Knows m.pool (worker p)
    → elem j m.notify_empty ≡ true
    → worker_step i l m p ≡ some (m', p')
    → (elem j m'.notify_empty ≡ true) ⊎ IsWoken i j l m (worker p) m'
unfolding worker_step
worker_step-IsWoken i j l m found_empty k there e =
    ground (arith, elem-length j m.notify_empty, length-wake_one_some l.waker m.notify_empty)
worker_step-IsWoken i j l m p k there e = ground arith

client_step-IsWoken :
    (i j : ℕ) (r : Request) (l : Luck) (m : Shared) (p : ClientPc) {m' : Shared} {p' : ClientPc}
    → elem j m.notify_empty ≡ true
    → client_step i r l m p ≡ some (m', p')
    → (elem j m'.notify_empty ≡ true) ⊎ IsWoken i j l m (client p) m'
unfolding client_step
client_step-IsWoken i j r l m wait_blocked there e =
    ground (arith, elem-remove_all_ne i j m.notify_empty)
client_step-IsWoken i j pause l m (idle _) there e = ground arith
client_step-IsWoken i j _ l m (idle _) there e = ground arith
client_step-IsWoken i j r l m p there e = ground arith

thread_step-IsWoken :
    (c : Choice) (m : Shared) (p : Thread) (j : ℕ) {m' : Shared} {p' : Thread}
    → Knows m.pool p
    → elem j m.notify_empty ≡ true
    → thread_step c m p ≡ some (m', p')
    → (elem j m'.notify_empty ≡ true) ⊎ IsWoken c.i j c.luck m p m'
thread_step-IsWoken c m p j k there e =
    thread_step_cases
      (λ q m' q'. Knows m.pool q → (elem j m'.notify_empty ≡ true) ⊎ IsWoken c.i j c.luck m q m') c
      m (λ w w' m' moved k. worker_step-IsWoken c.i j c.luck m w {p' = w'} k there moved)
      (λ q q' m' moved k. client_step-IsWoken c.i j c.request c.luck m q {p' = q'} there moved) p e
      k

-- In a pool that satisfies the invariant, a thread that is blocked in `thpool_wait` stays blocked
-- at each step of any thread but two: a step in which a worker has found the queue empty and no
-- task running, which takes exactly one thread off the list, and a step of its own in which the
-- wait ends with no signal.
pub wait_ends_by_signal :
    (n : ℕ) (s : System) (c : Choice) (j : ℕ)
    → Inv n s
    → elem j s.mem.notify_empty ≡ true
    → (elem j (step n s c).mem.notify_empty ≡ true)
      ⊎ IsWoken c.i j c.luck s.mem (s.thread c.i) (step n s c).mem
wait_ends_by_signal n s c j v there =
    step_cases
      (λ t. (elem j t.mem.notify_empty ≡ true) ⊎ IsWoken c.i j c.luck s.mem (s.thread c.i) t.mem) n
      s c (inl there)
      λ m p lt moved.
        thread_step-IsWoken c s.mem (s.thread c.i) j {p' = p} (v.knows c.i) there moved
