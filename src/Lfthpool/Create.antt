-- ===== src/Lfthpool/Create.antt =====
-- src/threads/lfthpool.c: `lfthpool_create_sched`, and the part of `lfthpool_destroy` that its
-- error paths reach. Sizes are those of a 64-bit machine.
use mathlib.Core.Path.{subst}
use libthreads.Prelude.{
  ℕ, zero, suc, ◌+◌, ◌≡◌, refl, ◌≢◌, ◌<◌, ◌≤◌, ◌*◌, ◌/◌, ◌^◌, lt→ltb, ◌⊎◌, inl, inr, arith, Bool,
  true, false, ◌||◌, [], Option, none, some, ltb, if◌then◌else◌, tabulate, Bool-cases, Option-cases,
  Errno, einval,
}
use libthreads.Lfthpool.Queue.{RingQueue}
use libthreads.Thpool.Pool.{size}
use libthreads.Thpool.Create.{sizeof_thread}
use libthreads.Lfthpool.Step.{Lfthpool}

-- What the calls of one `lfthpool_create_sched` answer. `malloc k` is whether the `k`-th allocation
-- succeeds, `errno` what the variable holds when the code reads it; `none` is NULL for a queue, and
-- the answer 0 of `pthread_create`. A `pthread_create` that fails leaves anything in the handle:
-- `leaves k` is whether that is not 0.
pub record Answers (Q : Type 0) : Type 0 where
  pub malloc : ℕ → Bool
  pub errno : Errno
  pub size_to_power_of_2 : ℕ → ℕ
  pub mpmc_ring_queue_new : ℕ → Option Q
  pub pthread_create : ℕ → Option Errno
  pub leaves : ℕ → Bool

-- How many handles the array has room for: the product is taken in a `size_t`.
abbrev pub slots : ℕ → ℕ
slots workers = size (sizeof_thread * workers) / sizeof_thread

-- `undefined` is the use of memory or of a handle that was never initialised, or the write of a
-- handle past the end of the array.
pub data Created (Q : Type 0) : Type 0 where
  returned : Lfthpool Q → Created Q
  null : Errno → Created Q
  undefined : Created Q

module _ {Q : Type 0} (os : Answers Q) where
  -- The loop over `pthread_create`, `left` threads from number `i` on: the number of the one that
  -- fails, or `none`.
  unfoldable pub spawn : ℕ → ℕ → Option ℕ
  spawn zero i = none
  spawn (suc left) i =
      let rest = spawn left (i + 1) in elim (os.pthread_create i) [ none ↦ rest | some _ ↦ some i ]

  unfoldable pub new_pool : ℕ → Q → ℕ → Option ℕ → Lfthpool Q
  new_pool workers queue queue_size sleep_func = record {
    shutdown = 0;
    hold = 0;
    running_count = 0;
    threads = tabulate workers some;
    thread_count = workers;
    task_queue = queue;
    queue_size = os.size_to_power_of_2 queue_size;
    sleep_func = sleep_func;
    exited = [];
    freed = false;
    added = [];
    started = [];
    executed = [];
    finished = 0;
    allocated = 0;
    released = 0;
    joins = [];
  }

  -- Where `pthread_create` fails, `lfthpool_destroy` joins the threads whose handles are not 0.
  unfoldable pub lfthpool_create_sched : ℕ → ℕ → Option ℕ → Created Q
  unfolding spawn new_pool
  lfthpool_create_sched workers queue_size sleep_func =
      if ltb workers 1 || ltb queue_size 2
      then null einval
      else if os.malloc 0
      then if os.malloc 1
        then elim (os.mpmc_ring_queue_new (os.size_to_power_of_2 queue_size)) [
          | none ↦ undefined
          | some queue ↦ if ltb (slots workers) workers then undefined else elim (spawn workers 0) [
            | none ↦ returned (new_pool workers queue queue_size sleep_func)
            | some k ↦ if os.leaves k then undefined else null os.errno
          ]
        ]
        else undefined
      else null os.errno

  -- With no function to sleep the pool uses `sched_usleep`.
  unfoldable pub lfthpool_create : ℕ → ℕ → Created Q
  unfolding lfthpool_create_sched
  lfthpool_create workers queue_size = lfthpool_create_sched workers queue_size none

-- What the threads of a pool start from.
pub record IsNew {Q : Type 0} (queue : RingQueue Q) (workers : ℕ) (m : Lfthpool Q) : Type 0 where
  pub empty : queue.contents m.task_queue ≡ []
  pub idle : (m.running_count ≡ 0) × (m.shutdown ≡ 0) × (m.hold ≡ 0)
  pub handles : (m.thread_count ≡ workers) × (m.threads ≡ tabulate workers some)
  pub kept : (m.freed ≡ false) × (m.exited ≡ [])
  pub logs : (m.added ≡ []) × (m.started ≡ []) × (m.executed ≡ []) × (m.finished ≡ 0)
  pub blocks : (m.allocated ≡ 0) × (m.released ≡ 0)

wraps_short : (workers : ℕ) → 2 ^ 64 ≤ sizeof_thread * workers → ltb (slots workers) workers ≡ true
wraps_short workers h = lt→ltb (omega arith)

module _ {Q : Type 0} (os : Answers Q) where
  spawn-some :
      (left i : ℕ) {k : ℕ}
      → spawn os left i ≡ some k
      → (os.pthread_create k ≢ none) × (k < i + left)
  unfolding spawn
  spawn-some zero i e = ground arith
  spawn-some (suc left) i {k} e = elim (Option-cases (os.pthread_create i)) [
    | inl made ↦
        let (failed, lt) = spawn-some left (i + 1) {k = k} (ground arith) in (failed, omega arith)
    | inr (e', refused) ↦ ground arith
  ]

  module _ (workers queue_size : ℕ) (sleep_func : Option ℕ) where
    abbrev created : Created Q
    created = lfthpool_create_sched os workers queue_size sleep_func

    -- Why NULL is returned for sizes that are not too small.
    null_reason :
        (e : Errno)
        → (ltb workers 1 || ltb queue_size 2) ≡ false
        → created ≡ null e
        → (e ≡ os.errno)
          × ((os.malloc 0 ≡ false) ⊎ ((k : ℕ) × (k < workers) × (os.pthread_create k ≢ none)))
    unfolding lfthpool_create_sched
    null_reason e good h = elim (Bool-cases (os.malloc 0)) [
      | inr gone ↦ (ground arith, inl gone)
      | inl there ↦ elim (Option-cases (spawn os workers 0)) [
        | inl all_made ↦ ground arith
        | inr (k, at) ↦
            let (refused, lt) = spawn-some workers 0 at in
            (ground arith, inr (k, omega arith, refused))
      ]
    ]

    made :
        (m : Lfthpool Q)
        → created ≡ returned m
        → (q : Q) × (os.mpmc_ring_queue_new (os.size_to_power_of_2 queue_size) ≡ some q)
          × (new_pool os workers q queue_size sleep_func ≡ m)
    unfolding lfthpool_create_sched
    made m h = elim (Option-cases (os.mpmc_ring_queue_new (os.size_to_power_of_2 queue_size))) [
      | inl gone ↦ ground arith
      | inr (q, there) ↦ (q, there, ground arith)
    ]

    null_reasons :
        (e : Errno)
        → created ≡ null e
        → ((workers ≡ 0) ⊎ (queue_size < 2))
          ⊎ ((e ≡ os.errno)
              × ((os.malloc 0 ≡ false) ⊎ ((k : ℕ) × (k < workers) × (os.pthread_create k ≢ none))))
    null_reasons e h = elim (Bool-cases (ltb workers 1 || ltb queue_size 2)) [
      | inl bad ↦ inl (ground arith)
      | inr good ↦ inr (null_reason e good h)
    ]

    created-IsNew :
        (queue : RingQueue Q)
        → ((k : ℕ) (q : Q) → os.mpmc_ring_queue_new k ≡ some q → queue.contents q ≡ [])
        → (m : Lfthpool Q) → created ≡ returned m
        → IsNew queue workers m
    unfolding new_pool
    created-IsNew queue empty m h =
        let (q, there, same) = made m h in
        subst (IsNew queue workers) same (record {
          empty = empty (os.size_to_power_of_2 queue_size) q there;
          idle = (refl, refl, refl);
          handles = (refl, refl);
          kept = (refl, refl);
          logs = (refl, refl, refl, refl);
          blocks = (refl, refl);
        })

  broken :
      (workers queue_size : ℕ) (sleep_func : Option ℕ)
      → 0 < workers
      → 1 < queue_size
      → os.malloc 0 ≡ true
      → (os.malloc 1 ≡ false)
        ⊎ (os.mpmc_ring_queue_new (os.size_to_power_of_2 queue_size) ≡ none)
        ⊎ (2 ^ 64 ≤ sizeof_thread * workers)
      → lfthpool_create_sched os workers queue_size sleep_func ≡ undefined
  unfolding lfthpool_create_sched
  broken workers queue_size sleep_func more more' ok (inl gone) = ground arith
  broken workers queue_size sleep_func more more' ok (inr (inl gone)) = ground arith
  broken workers queue_size sleep_func more more' ok (inr (inr wraps)) =
      elim (Option-cases (os.mpmc_ring_queue_new (os.size_to_power_of_2 queue_size))) [
        | inl gone ↦ ground arith
        | inr (q, there) ↦ ground (arith, wraps_short workers wraps)
      ]

  -- `lfthpool_create_sched` returns NULL with EINVAL if `workers` is 0 or `queue_size` below
  -- 2; else NULL only where the first allocation or a `pthread_create` fails, with the value of
  -- `errno`; where the array or the queue cannot be allocated, or the size of the array of handles
  -- does not fit a `size_t`, it goes on to use what it did not initialise, or writes past the
  -- array. A pool that is returned is new, if a queue that is made is empty.
  pub lfthpool_create-outcomes :
      (queue : RingQueue Q) (workers queue_size : ℕ) (sleep_func : Option ℕ)
      → ((k : ℕ) (q : Q) → os.mpmc_ring_queue_new k ≡ some q → queue.contents q ≡ [])
      → let created = lfthpool_create_sched os workers queue_size sleep_func in
        ((workers ≡ 0) ⊎ (queue_size < 2) → created ≡ null einval)
        × ((e : Errno)
            → created ≡ null e
            → ((workers ≡ 0) ⊎ (queue_size < 2))
              ⊎ ((e ≡ os.errno)
                  × ((os.malloc 0 ≡ false)
                      ⊎ ((k : ℕ) × (k < workers) × (os.pthread_create k ≢ none)))))
        × (0 < workers
            → 1 < queue_size
            → os.malloc 0 ≡ true
            → (os.malloc 1 ≡ false)
              ⊎ (os.mpmc_ring_queue_new (os.size_to_power_of_2 queue_size) ≡ none)
              ⊎ (2 ^ 64 ≤ sizeof_thread * workers)
            → created ≡ undefined)
        × ((m : Lfthpool Q) → created ≡ returned m → IsNew queue workers m)
  unfolding lfthpool_create_sched
  lfthpool_create-outcomes queue workers queue_size sleep_func empty = (
    (λ bad. ground arith),
    null_reasons workers queue_size sleep_func,
    broken workers queue_size sleep_func,
    created-IsNew workers queue_size sleep_func queue empty,
  )
