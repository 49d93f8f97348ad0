-- ===== src/Lfthpool/Nearer.antt =====
-- src/threads/lfthpool.c: what a step does to the queue and to the way of a worker to its next
-- task, while no thread adds a task, pauses the pool or shuts it down. schedule.
use libthreads.Prelude.{
  ℕ, suc, ◌+◌, ◌*◌, ◌<◌, ◌≤◌, ◌≡◌, ◌≢◌, ap, ◌∙◌, true, false, Bool, [], none, some, arith, length,
  Option-cases, inl, inr,
}
use libthreads.Thpool.Pool.{Task}
use libthreads.Lfthpool.Queue.{RingQueue}
use libthreads.Lfthpool.Step.{
  Lfthpool, Request, resume, active_tasks, total_tasks, workers_count, wait, worker_try_once, Luck,
  Pc, checking_shutdown, checking_hold, sleeping, dequeuing, napping, counting, executing,
  uncounting, adding, trying, try_sleeping, once_dequeuing, idle, lfthpool_step,
}

-- How many steps a worker makes at most before it has tried to take a task; 0 for a place that is
-- no worker's.
abbrev pub ahead : Pc → ℕ
ahead dequeuing = 1
ahead checking_hold = 2
ahead checking_shutdown = 3
ahead sleeping = 4
ahead napping = 4
ahead uncounting = 4
ahead (executing _) = 5
ahead (counting _) = 6
ahead _ = 0

-- The thread is in a call that adds a task.
abbrev pub is_adding : Pc → Bool
is_adding (adding _) = true
is_adding (trying _ _) = true
is_adding (try_sleeping _ _) = true
is_adding _ = false

-- A call that adds no task, and neither pauses the pool nor shuts it down.
abbrev pub is_calm : Request → Bool
is_calm resume = true
is_calm active_tasks = true
is_calm total_tasks = true
is_calm workers_count = true
is_calm wait = true
is_calm worker_try_once = true
is_calm _ = false

module _ {Q : Type 0} (queue : RingQueue Q) where
  abbrev pub queued : Lfthpool Q → ℕ
  queued m = length (queue.contents m.task_queue)

  pub record Before (m : Lfthpool Q) (p : Pc) : Type 0 where
    pub up : m.shutdown ≢ 1
    pub open_ : m.hold ≡ 0
    pub place : is_adding p ≡ false

  pub record After (m : Lfthpool Q) (p : Pc) (m' : Lfthpool Q) (p' : Pc) : Type 0 where
    pub up : m'.shutdown ≢ 1
    pub open_ : m'.hold ≡ 0
    pub place : is_adding p' ≡ false
    pub fewer : queued m' ≤ queued m
    pub closer :
        ahead p ≢ 0
        → queued m' ≢ 0
        → (ahead p' ≢ 0) × (6 * queued m' + ahead p' < 6 * queued m + ahead p)

  module _ (gives : (q : Q) → (queue.dequeue q).1 ≡ none → queue.contents q ≡ []) where
    left_empty :
        (q : Q) → (queue.dequeue q).1 ≡ none → length (queue.contents (queue.dequeue q).0) ≡ 0
    left_empty q e = ap length (queue.dequeue-none q e ∙ gives q e)

    one_less :
        (q : Q) (t : Task)
        → (queue.dequeue q).1 ≡ some t
        → length (queue.contents q) ≡ suc (length (queue.contents (queue.dequeue q).0))
    one_less q t e = ap length (queue.dequeue-some q t e)

    pub lfthpool_step-After :
        (i : ℕ) (r : Request) (l : Luck) (m : Lfthpool Q) (p : Pc) {m' : Lfthpool Q} {p' : Pc}
        → is_calm r ≡ true
        → Before m p
        → lfthpool_step queue i r l m p ≡ some (m', p')
        → After m p m' p'
    unfolding lfthpool_step
    lfthpool_step-After i r l m dequeuing calm b e =
        elim (Option-cases (queue.dequeue m.task_queue).1) [
          | inl nothing ↦ ground (arith, left_empty m.task_queue nothing)
          | inr (t, took) ↦ ground (arith, one_less m.task_queue t took)
        ]
    lfthpool_step-After i r l m once_dequeuing calm b e =
        elim (Option-cases (queue.dequeue m.task_queue).1) [
          | inl nothing ↦ ground (arith, left_empty m.task_queue nothing)
          | inr (t, took) ↦ ground (arith, one_less m.task_queue t took)
        ]
    lfthpool_step-After i r l m (idle _) calm b e = ground arith
    lfthpool_step-After i r l m p calm b e = ground arith

    -- A worker that has not returned is never blocked.
    pub ahead-moves :
        (i : ℕ) (r : Request) (l : Luck) (m : Lfthpool Q) (p : Pc)
        → lfthpool_step queue i r l m p ≡ none
        → ahead p ≡ 0
    unfolding lfthpool_step
    ahead-moves i r l m p e = ground arith
