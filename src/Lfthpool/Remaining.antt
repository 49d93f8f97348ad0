-- ===== src/Lfthpool/Remaining.antt =====
-- src/threads/lfthpool.c: the tasks that are still taken after a shutdown.
use libthreads.Prelude.{
  All, ℕ, ◌+◌, ◌≤◌, ◌≡◌, ◌≢◌, List, [], ◌∷◌, some, arith, length, length-append, total,
  total-update, Option-cases, inl, inr,
}
use libthreads.Threads.{step_cases, run_keeps_all}
use libthreads.Lfthpool.Queue.{RingQueue}
use libthreads.Lfthpool.Step.{
  chosen, thread_step, Lfthpool, Request, worker_try_once, Luck, Pc, checking_hold, dequeuing,
  once_dequeuing, Choice, System, lfthpool_step, step, run,
}

-- About to take a task: a worker that has passed the test of the shutdown flag, or a thread in
-- `lfthpool_worker_try_once`.
abbrev pub may_take : Pc → ℕ
may_take checking_hold = 1
may_take dequeuing = 1
may_take once_dequeuing = 1
may_take _ = 0

-- A call that takes no task.
abbrev pub TakesNone : Choice → Type 0
TakesNone c = c.request ≢ worker_try_once

module _ {Q : Type 0} (queue : RingQueue Q) where
  record Change (m : Lfthpool Q) (p : Pc) (m' : Lfthpool Q) (p' : Pc) : Type 0 where
    flag : m'.shutdown ≡ 1
    fewer : length m'.started + may_take p' ≤ length m.started + may_take p

  lfthpool_step-Change :
      (i : ℕ) (r : Request) (l : Luck) (m : Lfthpool Q) (p : Pc) {m' : Lfthpool Q} {p' : Pc}
      → r ≢ worker_try_once
      → m.shutdown ≡ 1
      → lfthpool_step queue i r l m p ≡ some (m', p')
      → Change m p m' p'
  unfolding lfthpool_step
  lfthpool_step-Change i r l m dequeuing quiet down e =
      elim (Option-cases (queue.dequeue m.task_queue).1) [
        | inl nothing ↦ ground arith
        | inr (t, took) ↦ ground (arith, length-append m.started (t ∷ []))
      ]
  lfthpool_step-Change i r l m once_dequeuing quiet down e =
      elim (Option-cases (queue.dequeue m.task_queue).1) [
        | inl nothing ↦ ground arith
        | inr (t, took) ↦ ground (arith, length-append m.started (t ∷ []))
      ]
  lfthpool_step-Change i r l m p quiet down e = ground arith

  module _ (n : ℕ) (s : System Q) where
    record Bounded (t : System Q) : Type 0 where
      flag : t.mem.shutdown ≡ 1
      fewer :
          length t.mem.started + total may_take n t.thread
          ≤ length s.mem.started + total may_take n s.thread

    step-Bounded :
        (t : System Q) (c : Choice) → TakesNone c → Bounded t → Bounded (step queue n t c)
    unfolding step thread_step
    step-Bounded t c quiet b = step_cases chosen (thread_step queue) Bounded n t c b λ m p lt moved.
        let change =
          lfthpool_step-Change c.i c.request c.luck t.mem (t.thread c.i) quiet b.flag moved in
        record {
          flag = change.flag;
          fewer = omega (arith, b.fewer, change.fewer, total-update may_take n t.thread c.i p lt);
        }

    -- Once the shutdown flag is set, it stays set, and whatever the threads do but call
    -- `lfthpool_worker_try_once`, no more tasks are taken than there were threads about to take
    -- one, workers past their test of the flag among them.
    pub lfthpool_shutdown_leaves :
        (cs : List Choice)
        → s.mem.shutdown ≡ 1
        → All TakesNone cs
        → let t = run queue n s cs in
          (t.mem.shutdown ≡ 1)
          × (length t.mem.started ≤ length s.mem.started + total may_take n s.thread)
    unfolding run step
    lfthpool_shutdown_leaves cs down quiet =
        let b =
          run_keeps_all chosen (thread_step queue) Bounded TakesNone n step-Bounded s cs quiet
            (record { flag = down; fewer = omega arith }) in
        (b.flag, omega (arith, b.fewer))
