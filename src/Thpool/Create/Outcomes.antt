-- ===== src/Thpool/Create/Outcomes.antt =====
-- `thpool_create` of src/threads/thpool.c: what it returns, and what its error paths come to.
use mathlib.Core.Path.{subst}
use native.Mathlib.Decide.{ℕ_discrete}
use libthreads.Prelude.{
  ℕ, zero, suc, ◌+◌, ◌*◌, ◌/◌, ◌≤◌, ◌<◌, ◌≡◌, refl, ◌≢◌, ◌⊎◌, inl, inr, true, false, List, none,
  arith, length, set, replicate, length-replicate, length-set, Bool-cases, Option-cases, Errno,
  einval,
}
use libthreads.Thpool.Pool.{no_task, Pool, size_max, size}
use libthreads.Thpool.Ring.{IsValid}
use libthreads.Thpool.Create.{
  sizeof_task, sizeof_thread, Answers, returned, null, undefined, spawn, new_pool, spawn_workers,
  thpool_create, IsNew,
}

length-spawn :
    (os : Answers) (left i : ℕ) (threads : List ℕ)
    → length (spawn os left i threads).0 ≡ length threads
unfolding spawn
length-spawn os zero i threads = refl
length-spawn os (suc left) i threads = ground (
  arith,
  length-spawn os left (i + 1) (set threads i (os.handle i)),
  length-set threads i (os.handle i),
)

spawn_fewer :
    (os : Answers) (left i : ℕ) (threads : List ℕ)
    → (spawn os left i threads).2 ≡ false
    → (spawn os left i threads).1 < left + i
unfolding spawn
spawn_fewer os zero i threads h = cc
spawn_fewer os (suc left) i threads h =
    ground (arith, spawn_fewer os left (i + 1) (set threads i (os.handle i)))

spawn_stops :
    (os : Answers) (left i k : ℕ) (threads : List ℕ)
    → i ≤ k
    → k < left + i
    → os.pthread_create k ≢ none
    → (spawn os left i threads).2 ≡ false
unfolding spawn
spawn_stops os zero i k threads low high fails = absurd (omega arith)
spawn_stops os (suc left) i k threads low high fails = elim (Option-cases (os.pthread_create i)) [
  | inr (e, stops) ↦ rw (stops, spawn)
  | inl starts ↦
      rw (starts, spawn)
        (spawn_stops os left (i + 1) k (set threads i (os.handle i)) (later starts) (omega arith)
          fails)
]
  where
    later : os.pthread_create i ≡ none → i + 1 ≤ k
    later starts = elim (ℕ_discrete i k) [
      | yes same ↦ absurd (fails (rw (← same) starts))
      | no other ↦ omega arith
    ]

-- The array of handles, before any is written.
abbrev handles : ℕ → List ℕ
handles workers = replicate (size (sizeof_thread * workers) / sizeof_thread) 0

new_pool-IsNew :
    (workers queue_size : ℕ) (threads : List ℕ)
    → 0 < queue_size
    → sizeof_task * queue_size < size_max
    → workers ≤ length threads
    → IsNew workers queue_size (new_pool workers queue_size threads)
unfolding new_pool
new_pool-IsNew workers queue_size threads more small stored = record {
  valid = record {
    stored =
        omega (arith, length-replicate {0} (size (sizeof_task * queue_size) / sizeof_task) no_task);
    sized = omega arith;
    head_in = more;
    count_in = omega arith;
    tail_at = omega arith;
  };
  empty = refl;
  idle = refl;
  open_flags = (refl, refl);
  sizes = (refl, refl);
  handles = stored;
}

-- The threads are created, or one is not, and then the pool is destroyed.
spawn_workers_cases :
    (os : Answers) (workers queue_size : ℕ)
    → (spawn_workers os workers queue_size
          ≡ returned (new_pool workers queue_size (spawn os workers 0 (handles workers)).0))
        × ((spawn os workers 0 (handles workers)).2 ≡ true)
      ⊎ (spawn_workers os workers queue_size ≡ undefined)
        × ((spawn os workers 0 (handles workers)).2 ≡ false)
unfolding spawn_workers
spawn_workers_cases os workers queue_size =
    elim (Bool-cases (spawn os workers 0 (handles workers)).2) [
      | inl all ↦ inl (rw all, all)
      | inr short ↦
          inr (rw short (ground (arith, spawn_fewer os workers 0 (handles workers) short)), short)
    ]

thpool_create-returned :
    (os : Answers) (workers queue_size : ℕ) {p : Pool}
    → thpool_create os workers queue_size ≡ returned p
    → (0 < queue_size) × (new_pool workers queue_size (spawn os workers 0 (handles workers)).0 ≡ p)
unfolding thpool_create
thpool_create-returned os workers queue_size e =
    ground (arith, spawn_workers_cases os workers queue_size)

-- If its arrays fit the address space, what `thpool_create` returns is a new pool of the sizes
-- asked for.
pub thpool_create-IsNew :
    (os : Answers) (workers queue_size : ℕ) {p : Pool}
    → sizeof_thread * workers < size_max
    → sizeof_task * queue_size < size_max
    → thpool_create os workers queue_size ≡ returned p
    → IsNew workers queue_size p
thpool_create-IsNew os workers queue_size small small' e =
    let (more, same) = thpool_create-returned os workers queue_size e in
    subst (IsNew workers queue_size) same (
      new_pool-IsNew workers queue_size _ more small' (
        omega (
          arith,
          length-spawn os workers 0 (handles workers),
          length-replicate {A = ℕ} (size (sizeof_thread * workers) / sizeof_thread) 0,
        )))

-- A call after the first allocation fails.
abbrev pub Fails : Answers → ℕ → Type 0
Fails os workers =
    (os.malloc 1 ≡ false)
    ⊎ (os.malloc 2 ≡ false)
    ⊎ (os.mutex_init ≢ none)
    ⊎ (os.notify_init ≢ none)
    ⊎ (os.notify_empty_init ≢ none)
    ⊎ ((k : ℕ) × (k < workers) × (os.pthread_create k ≢ none))

Fails-undefined :
    (os : Answers) (workers queue_size : ℕ)
    → 0 < workers
    → 0 < queue_size
    → os.malloc 0 ≡ true
    → Fails os workers
    → thpool_create os workers queue_size ≡ undefined
unfolding thpool_create
Fails-undefined os workers queue_size w q ok (inr (inr (inr (inr (inr (k, lt, fails)))))) = ground (
  arith,
  spawn_workers_cases os workers queue_size,
  spawn_stops os workers 0 k (handles workers) (omega arith) (omega arith) fails,
)
Fails-undefined os workers queue_size w q ok (inl h) = ground arith
Fails-undefined os workers queue_size w q ok (inr (inl h)) = ground arith
Fails-undefined os workers queue_size w q ok (inr (inr (inl h))) = ground arith
Fails-undefined os workers queue_size w q ok (inr (inr (inr (inl h)))) = ground arith
Fails-undefined os workers queue_size w q ok (inr (inr (inr (inr (inl h))))) = ground arith

-- After the first allocation no failure is reported: NULL is returned only for a size of 0, with
-- EINVAL, or if that allocation fails, with the value of `errno`; where any later call fails, the
-- code goes on to use what it did not initialise.
pub thpool_create-failure :
    (os : Answers) (workers queue_size : ℕ)
    → let created = thpool_create os workers queue_size in
      ((e : Errno)
        → created ≡ null e
        → (((workers ≡ 0) ⊎ (queue_size ≡ 0)) × (e ≡ einval))
          ⊎ ((os.malloc 0 ≡ false) × (e ≡ os.errno)))
      × (0 < workers → 0 < queue_size → os.malloc 0 ≡ true → Fails os workers → created ≡ undefined)
unfolding thpool_create
thpool_create-failure os workers queue_size = (
  (λ e h. ground (arith, spawn_workers_cases os workers queue_size)),
  Fails-undefined os workers queue_size,
)

new_pool-short :
    (workers queue_size : ℕ) (threads : List ℕ)
    → 0 < queue_size
    → size_max ≤ sizeof_task * queue_size
    → let p = new_pool workers queue_size threads in
      (length p.task_queue < p.queue_size) × ¬ IsValid p
unfolding new_pool
new_pool-short workers queue_size threads more large = (few, λ v. omega (arith, v.stored, few))
  where
    few : length (new_pool workers queue_size threads).task_queue < queue_size
    few =
        omega (arith, length-replicate {0} (size (sizeof_task * queue_size) / sizeof_task) no_task)

-- If the size of the task array does not fit the address space, a pool that is returned has an
-- array of fewer slots than its `queue_size`, and is not valid.
pub thpool_create-overflow :
    (os : Answers) (workers queue_size : ℕ) {p : Pool}
    → size_max ≤ sizeof_task * queue_size
    → thpool_create os workers queue_size ≡ returned p
    → (length p.task_queue < p.queue_size) × ¬ IsValid p
thpool_create-overflow os workers queue_size large e =
    let (more, same) = thpool_create-returned os workers queue_size e in
    subst (λ p. (length p.task_queue < p.queue_size) × ¬ IsValid p) same
      (new_pool-short workers queue_size _ more large)
