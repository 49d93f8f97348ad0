-- ===== src/Thpool/Create.antt =====
-- src/threads/thpool.c: `thpool_create`, and the part of `thpool_destroy` that its error paths
-- reach. Sizes are those of a 64-bit machine.
pub mod Outcomes
use mathlib.Core.Path.{subst}
use native.Mathlib.Decide.{ℕ_discrete}
use libthreads.Prelude.{
  ℕ, zero, suc, ◌+◌, ◌*◌, ◌/◌, ◌≤◌, ◌<◌, ◌≡◌, refl, ◌≢◌, ◌⊎◌, inl, inr, Bool, true, false, ◌&&◌,
  ◌||◌, List, Option, none, some, arith, ltb, if◌then◌else◌, length, set, replicate,
  length-replicate, length-set, Bool-cases, Option-cases, Errno, einval, enomem,
}
use libthreads.Thpool.Pool.{no_task, Pool, size_max, size}
use libthreads.Thpool.Ring.{IsValid}

abbrev pub sizeof_task : ℕ
sizeof_task = 16

abbrev pub sizeof_thread : ℕ
sizeof_thread = 8

-- What the system calls of one `thpool_create` answer. `malloc k` is whether the `k`-th allocation
-- succeeds, `errno` what the variable holds when the code reads it; `none` is the answer 0.
pub record Answers : Type 0 where
  pub malloc : ℕ → Bool
  pub errno : Errno
  pub mutex_init : Option Errno
  pub notify_init : Option Errno
  pub notify_empty_init : Option Errno
  pub pthread_create : ℕ → Option Errno
  pub handle : ℕ → ℕ

-- `undefined` is a call on what was never initialised: a mutex, a condition variable, or the handle
-- of a thread that was not created.
pub data Created : Type 0 where
  returned : Pool → Created
  null : Errno → Created
  undefined : Created

-- The loop over `pthread_create`: `left` threads from number `i` on. It gives the handles, the
-- number of threads that were created, and whether all were.
unfoldable pub spawn : Answers → ℕ → ℕ → List ℕ → List ℕ × ℕ × Bool
spawn os zero i threads = (threads, i, true)
spawn os (suc left) i threads =
    let rest = spawn os left (i + 1) (set threads i (os.handle i)) in
    elim (os.pthread_create i) [ none ↦ rest | some _ ↦ (threads, i, false) ]

-- `thpool_destroy` on the error paths: it locks the mutex, broadcasts, joins `workers` threads, of
-- which `spawned` exist, and destroys both condition variables; then NULL is returned with `e`.
unfoldable pub destroy_partial : Bool → Bool → Bool → ℕ → ℕ → Errno → Created
destroy_partial lock_ready notify_ready notify_empty_ready workers spawned e =
    if lock_ready
      && notify_ready
      && notify_empty_ready
      && (if ltb spawned workers then false else true)
    then null e
    else undefined

unfoldable pub new_pool : ℕ → ℕ → List ℕ → Pool
new_pool workers queue_size threads = record {
  shutdown = 0;
  hold = 0;
  running_count = 0;
  threads = threads;
  thread_count = workers;
  task_queue = replicate (size (sizeof_task * queue_size) / sizeof_task) no_task;
  queue_size = queue_size;
  queue_count = 0;
  head = 0;
  tail = 0;
}

unfoldable pub spawn_workers : Answers → ℕ → ℕ → Created
unfolding spawn new_pool destroy_partial
spawn_workers os workers queue_size =
    let (threads, spawned, all_created) =
      spawn os workers 0 (replicate (size (sizeof_thread * workers) / sizeof_thread) 0) in
    if all_created
    then returned (new_pool workers queue_size threads)
    else destroy_partial true true true workers spawned os.errno

unfoldable pub init_locks : Answers → ℕ → ℕ → Created
unfolding spawn_workers destroy_partial
init_locks os workers queue_size = elim (os.mutex_init) [
  | some e ↦ destroy_partial false false false workers 0 e
  | none ↦ elim (os.notify_init) [
    | some e ↦ destroy_partial true false false workers 0 e
    | none ↦ elim (os.notify_empty_init) [
      | some e ↦ destroy_partial true true false workers 0 e
      | none ↦ spawn_workers os workers queue_size
    ]
  ]
]

unfoldable pub thpool_create : Answers → ℕ → ℕ → Created
unfolding init_locks destroy_partial
thpool_create os workers queue_size =
    if ltb workers 1 || ltb queue_size 1
    then null einval
    else if os.malloc 0
    then if os.malloc 1 && os.malloc 2
      then init_locks os workers queue_size
      else destroy_partial false false false workers 0 enomem
    else null os.errno

-- What a new pool is: valid, empty, with no call of it made.
pub record IsNew (workers queue_size : ℕ) (p : Pool) : Type 0 where
  pub valid : IsValid p
  pub empty : p.queue_count ≡ 0
  pub idle : p.running_count ≡ 0
  pub open_flags : (p.shutdown ≡ 0) × (p.hold ≡ 0)
  pub sizes : (p.thread_count ≡ workers) × (p.queue_size ≡ queue_size)
  pub handles : workers ≤ length p.threads
