-- ===== src/Thpool/System/Weight.antt =====
-- src/threads/thpool.c: how much a pool that is not paused has still to do, in steps. Each step in
-- which no call is begun and no wait ends by itself makes it less.
use libthreads.Prelude.{
  ℕ, zero, suc, ◌+◌, ◌-◌, ◌*◌, ◌≤◌, ◌<◌, ◌≡◌, ◌≢◌, refl, ap, false, List, [], some, arith, length,
  ℤ, pos, negsuc,
}
use libthreads.Waiters.{length-wake_one_some}
use libthreads.Thpool.Pool.{enqueue, dequeue, size, size_max, is_full}
use libthreads.Thpool.Ring.{IsValid}
use libthreads.Thpool.Shared.{Shared, wake_one}
use libthreads.Thpool.Worker
use libthreads.Thpool.Worker.{Luck, WorkerPc, worker_step}
use libthreads.Thpool.Client
use libthreads.Thpool.Client.{Request, Reply, ClientPc, client_step}
use libthreads.Thpool.System.{Thread, worker, client, Choice, thread_step, thread_step_cases}
use libthreads.Thpool.System.Views.{Knows}

-- How often `thpool_add_task_try` tries, and at least once where it has begun to.
abbrev tries : ℤ → ℕ
tries (pos k) = suc k
tries (negsuc k) = 0

abbrev tries_now : ℤ → ℕ
tries_now (pos k) = suc k
tries_now (negsuc k) = 1

-- A worker's steps until it waits again, with the wake-up of one thread in `thpool_wait` among
-- them.
abbrev worker_weight : WorkerPc → ℕ
worker_weight Worker.returned = 0
worker_weight Worker.before_wait = 1
worker_weight Worker.checking_shutdown = 2
worker_weight Worker.found_empty = 9
worker_weight Worker.taking = 1
worker_weight Worker.counting = 2
worker_weight Worker.checking_hold = 3
worker_weight Worker.testing = 10
worker_weight Worker.locking = 11
worker_weight Worker.woken = 11
worker_weight Worker.waiting = 12
worker_weight Worker.uncounting = 12
worker_weight Worker.sleeping = 12
worker_weight (Worker.executing _) = 13

-- A client's steps until its call returns or it is blocked, in a pool of `count` workers and with
-- at most `n` threads to wake.
abbrev client_weight : ℕ → ℕ → ClientPc → ℕ
client_weight n count (Client.idle _) = 0
client_weight n count (Client.add_lock _) = 27
client_weight n count (Client.add_locked _) = 26
client_weight n count (Client.adding _ k) = 4 * tries k + 30
client_weight n count (Client.adding_lock _ k) = 4 * tries_now k + 29
client_weight n count (Client.adding_locked _ k) = 4 * tries_now k + 28
client_weight n count (Client.adding_yield _ k) = 4 * tries_now k + 27
client_weight n count Client.resume_lock = 14
client_weight n count Client.resume_locked = 13
client_weight n count Client.total_lock = 2
client_weight n count Client.total_locked = 1
client_weight n count Client.workers_lock = 2
client_weight n count Client.workers_locked = 1
client_weight n count Client.wait_before = 1
client_weight n count (Client.wait_counted _) = 2
client_weight n count Client.wait_locked = 3
client_weight n count Client.wait_lock = 4
client_weight n count Client.wait_woken = 5
client_weight n count Client.wait_blocked = 6
client_weight n count Client.try_lock = 6
client_weight n count Client.try_locked = 5
client_weight n count Client.try_counting = 4
client_weight n count Client.try_taking = 3
client_weight n count (Client.try_executing _) = 2
client_weight n count Client.try_uncounting = 1
client_weight n count (Client.shutdown_lock _) = 12 * n + 2 * count + 4
client_weight n count (Client.shutdown_locked _) = 12 * n + 2 * count + 3
client_weight n count (Client.shutdown_join _ k) = 2 * (count - k) + 2
client_weight n count (Client.shutdown_joining _ k) = 2 * (count - suc k) + 3
client_weight n count Client.freeing = 1

abbrev pub weight : ℕ → ℕ → Thread → ℕ
weight n count (worker p) = worker_weight p
weight n count (client p) = client_weight n count p

-- What is to be done for a queued task, and what the threads save that wait on the lists.
abbrev pub tasks : Shared → ℕ
tasks m = 13 * m.pool.queue_count

abbrev pub asleep : Shared → ℕ
asleep m = 12 * length m.notify + 6 * length m.notify_empty

length-signal : (k : ℕ) (l : List ℕ) → length l ≤ suc (length (wake_one k l))
length-signal k [] = omega arith
length-signal k l = ground (arith, length-wake_one_some k l)

one_more :
    (m : Shared)
    → IsValid m.pool
    → is_full m.pool ≡ false
    → size (m.pool.queue_count + 1) ≡ m.pool.queue_count + 1
one_more m v room = ground (arith, v.count_in, v.sized)

one_less :
    (m : Shared)
    → IsValid m.pool
    → m.pool.queue_count ≢ 0
    → suc (size (m.pool.queue_count + size_max - 1)) ≡ m.pool.queue_count
one_less m v more = omega (arith, v.count_in, v.sized)

pub record Before (n count : ℕ) (m : Shared) (p : Thread) : Type 0 where
  pub valid : IsValid m.pool
  pub knows : Knows m.pool p
  pub open_ : m.pool.hold ≡ 0
  pub same_count : m.pool.thread_count ≡ count
  pub few : length m.notify ≤ n

pub record After (n count : ℕ) (m : Shared) (p : Thread) (m' : Shared) (p' : Thread) : Type 0 where
  pub open_ : m'.pool.hold ≡ 0
  pub same_count : m'.pool.thread_count ≡ count
  pub lighter : tasks m' + weight n count p' + asleep m < tasks m + weight n count p + asleep m'

worker_step-After :
    (n count i : ℕ) (l : Luck) (m : Shared) (p : WorkerPc) {m' : Shared} {p' : WorkerPc}
    → l.spurious ≡ false
    → Before n count m (worker p)
    → worker_step i l m p ≡ some (m', p')
    → After n count m (worker p) m' (worker p')
unfolding worker_step dequeue
worker_step-After n count i l m Worker.found_empty calm b e =
    ground (arith, length-signal l.waker m.notify_empty)
worker_step-After n count i l m Worker.taking calm b e = ground (arith, one_less m b.valid)
worker_step-After n count i l m p calm b e = ground arith

client_step-After :
    (n count i : ℕ) (r : Request) (l : Luck) (m : Shared) (p : ClientPc) {m' : Shared}
    {p' : ClientPc}
    → l.spurious ≡ false
    → ((x : Reply) → p ≢ Client.idle x)
    → Before n count m (client p)
    → client_step i r l m p ≡ some (m', p')
    → After n count m (client p) m' (client p')
unfolding client_step dequeue enqueue
client_step-After n count i r l m (Client.idle x) calm called b e = absurd (called x refl)
client_step-After n count i r l m (Client.add_locked t) calm called b e =
    ground (arith, one_more m b.valid, length-signal l.waker m.notify)
client_step-After n count i r l m (Client.adding t (pos k)) calm called b e = ground arith
client_step-After n count i r l m (Client.adding t (negsuc k)) calm called b e = ground arith
client_step-After n count i r l m (Client.adding_locked t (pos k)) calm called b e =
    ground (arith, one_more m b.valid, length-signal l.waker m.notify)
client_step-After n count i r l m (Client.adding_locked t (negsuc k)) calm called b e =
    ground (arith, one_more m b.valid, length-signal l.waker m.notify)
client_step-After n count i r l m (Client.adding_yield t (pos zero)) calm called b e = ground arith
client_step-After n count i r l m (Client.adding_yield t (pos (suc k))) calm called b e =
    ground arith
client_step-After n count i r l m (Client.adding_yield t (negsuc k)) calm called b e = ground arith
client_step-After n count i r l m Client.resume_locked calm called b e =
    ground (arith, length-signal l.waker m.notify)
client_step-After n count i r l m Client.try_taking calm called b e =
    ground (arith, one_less m b.valid)
client_step-After n count i r l m p calm called b e = ground arith

pub thread_step-After :
    (n count : ℕ) (c : Choice) (m : Shared) (p : Thread) {m' : Shared} {p' : Thread}
    → c.luck.spurious ≡ false
    → ((x : Reply) → p ≢ client (Client.idle x))
    → Before n count m p
    → thread_step c m p ≡ some (m', p')
    → After n count m p m' p'
thread_step-After n count c m p calm called b e =
    thread_step_cases
      (λ q m' q'.
        ((x : Reply) → q ≢ client (Client.idle x)) → Before n count m q → After n count m q m' q')
      c m (λ w w' m' moved called b. worker_step-After n count c.i c.luck m w calm b moved)
      (λ k k' m' moved called b.
        client_step-After n count c.i c.request c.luck m k calm (λ x at. called x (ap client at)) b
          moved)
      p e called b
