-- ===== src/Lfthpool/Once.antt =====
-- src/threads/lfthpool.c: every task is executed once.
use libthreads.Prelude.{
  ℕ, ◌+◌, ◌≡◌, ◌<◌, ap, List, [], ◌∷◌, if◌then◌else◌, some, arith, total, total-update,
  total-eq-zero, Option-cases, inl, inr,
}
use libthreads.Threads.{step_cases, run_keeps}
use libthreads.Thpool.Pool.{Task, same_task, occurrences, occurrences-append, size_max}
use libthreads.Lfthpool.Queue.{RingQueue}
use libthreads.Lfthpool.Create.{IsNew}
use libthreads.Lfthpool.Step.{
  chosen, thread_step, Lfthpool, Request, Luck, Pc, dequeuing, counting, executing, once_dequeuing,
  once_counting, once_executing, Choice, System, lfthpool_step, step, run, initial,
}
use libthreads.Lfthpool.Safety.{lfthpool_tasks_in_order}

-- The thread has taken this task, and its function has not returned.
abbrev pub has_in_hand : Task → Pc → ℕ
has_in_hand t (counting u) = if same_task t u then 1 else 0
has_in_hand t (executing u) = if same_task t u then 1 else 0
has_in_hand t (once_counting u) = if same_task t u then 1 else 0
has_in_hand t (once_executing u) = if same_task t u then 1 else 0
has_in_hand t _ = 0

module _ {Q : Type 0} (queue : RingQueue Q) where
  -- What a step does to the number of executions of `t`.
  abbrev Balance : Task → Lfthpool Q → Pc → Lfthpool Q → Pc → Type 0
  Balance t m p m' p' =
      occurrences t m'.started + occurrences t m.executed + has_in_hand t p
      ≡ occurrences t m.started + occurrences t m'.executed + has_in_hand t p'

  lfthpool_step-Balance :
      (t : Task) (i : ℕ) (r : Request) (l : Luck) (m : Lfthpool Q) (p : Pc) {m' : Lfthpool Q}
      {p' : Pc}
      → lfthpool_step queue i r l m p ≡ some (m', p')
      → Balance t m p m' p'
  unfolding lfthpool_step
  lfthpool_step-Balance t i r l m dequeuing e = elim (Option-cases (queue.dequeue m.task_queue).1) [
    | inl nothing ↦ ground arith
    | inr (u, took) ↦ ground (arith, occurrences-append t m.started (u ∷ []))
  ]
  lfthpool_step-Balance t i r l m once_dequeuing e =
      elim (Option-cases (queue.dequeue m.task_queue).1) [
        | inl nothing ↦ ground arith
        | inr (u, took) ↦ ground (arith, occurrences-append t m.started (u ∷ []))
      ]
  lfthpool_step-Balance t i r l m (executing u) e =
      ground (arith, occurrences-append t m.executed (u ∷ []))
  lfthpool_step-Balance t i r l m (once_executing u) e =
      ground (arith, occurrences-append t m.executed (u ∷ []))
  lfthpool_step-Balance t i r l m p e = ground arith

  -- A task that was taken has been executed, or is in the hands of a thread.
  abbrev Executes : Task → ℕ → System Q → Type 0
  Executes t n s =
      occurrences t s.mem.started ≡ occurrences t s.mem.executed + total (has_in_hand t) n s.thread

  step-Executes :
      (t : Task) (n : ℕ) (s : System Q) (c : Choice)
      → Executes t n s
      → Executes t n (step queue n s c)
  unfolding step thread_step
  step-Executes t n s c v =
      step_cases chosen (thread_step queue) (Executes t n) n s c v λ m p lt moved. omega (
        arith,
        v,
        lfthpool_step-Balance t c.i c.request c.luck s.mem (s.thread c.i) {p' = p} moved,
        total-update (has_in_hand t) n s.thread c.i p lt,
      )

  module _ (n workers : ℕ) (pool : Lfthpool Q) (small : n + 1 < size_max)
      (new : IsNew queue workers pool) where
    initial-Executes : (t : Task) → Executes t n (initial workers pool)
    initial-Executes t =
        rw (new.logs.1, new.logs.2)
          (omega (
            arith,
            total-eq-zero (has_in_hand t) n (initial workers pool).thread (λ j. ground arith),
          ))

    run-Executes :
        (t : Task) (cs : List Choice) → Executes t n (run queue n (initial workers pool) cs)
    unfolding run step
    run-Executes t cs =
        run_keeps chosen (thread_step queue) (Executes t n) n (step-Executes t n)
          (initial workers pool) cs (initial-Executes t)

    -- Over any queue that is first in, first out, after any schedule of `n` threads, `n + 1 < 2 ^
    -- 64`, on a new pool: a task has been added as often as its function was called with its
    -- argument and has returned, plus the number of threads that have taken it and not executed it
    -- yet, plus the number of its places in the queue.
    pub lfthpool_executed_once :
        (cs : List Choice) (t : Task)
        → let s = run queue n (initial workers pool) cs in
          occurrences t s.mem.added
          ≡ occurrences t s.mem.executed
            + total (has_in_hand t) n s.thread
            + occurrences t (queue.contents s.mem.task_queue)
    lfthpool_executed_once cs t =
        let s = run queue n (initial workers pool) cs in
        omega (
          arith,
          ap (occurrences t) (lfthpool_tasks_in_order queue n workers pool small new cs),
          occurrences-append t s.mem.started (queue.contents s.mem.task_queue),
          run-Executes t cs,
        )
