-- ===== src/Lfthpool/Memory.antt =====
-- src/threads/lfthpool.c: the memory of the tasks, which `lfthpool_add_task` allocates and the
-- thread that executes a task frees.
use libthreads.Prelude.{
  ℕ, suc, ◌+◌, ◌≡◌, ap, ◌∙◌, false, List, [], ◌∷◌, some, arith, if◌then◌else◌, length,
  length-append, total, total-update, total-eq-zero, Option-cases, inl, inr,
}
use libthreads.Thpool.Pool.{Task}
use libthreads.Threads.{step_cases, run_keeps}
use libthreads.Lfthpool.Queue.{RingQueue, qerr_ok}
use libthreads.Lfthpool.Create.{IsNew}
use libthreads.Lfthpool.Step.{
  chosen, thread_step, Lfthpool, Request, Luck, Pc, dequeuing, counting, executing, uncounting,
  adding, trying, try_sleeping, once_dequeuing, once_counting, once_executing, Choice, System,
  lfthpool_step, step, run, initial,
}

-- The thread has a task in its hands that it allocated, or took, and has not freed.
abbrev pub holding : Pc → ℕ
holding (adding _) = 1
holding (trying _ _) = 1
holding (try_sleeping _ _) = 1
holding (counting _) = 1
holding (executing _) = 1
holding uncounting = 1
holding (once_counting _) = 1
holding (once_executing _) = 1
holding _ = 0

module _ {Q : Type 0} (queue : RingQueue Q) where
  -- The blocks that the queue holds, until `lfthpool_destroy` has freed it.
  abbrev pub in_queue : Lfthpool Q → ℕ
  in_queue m = if m.freed then 0 else length (queue.contents m.task_queue)

  record Change (m : Lfthpool Q) (p : Pc) (m' : Lfthpool Q) (p' : Pc) : Type 0 where
    still : m'.freed ≡ false → m.freed ≡ false
    balance :
        m.freed ≡ false
        → m'.allocated + (m.released + in_queue m + holding p)
          ≡ m.allocated + (m'.released + in_queue m' + holding p')

  length-dequeue :
      (q : Q) (t : Task)
      → (queue.dequeue q).1 ≡ some t
      → length (queue.contents q) ≡ suc (length (queue.contents (queue.dequeue q).0))
  length-dequeue q t took = ap length (queue.dequeue-some q t took)

  length-enqueue :
      (q : Q) (t : Task)
      → (queue.enqueue q t).1 ≡ qerr_ok
      → length (queue.contents (queue.enqueue q t).0) ≡ suc (length (queue.contents q))
  length-enqueue q t ok =
      ap length (queue.enqueue-ok q t ok) ∙ omega (arith, length-append (queue.contents q) (t ∷ []))

  lfthpool_step-Change :
      (i : ℕ) (r : Request) (l : Luck) (m : Lfthpool Q) (p : Pc) {m' : Lfthpool Q} {p' : Pc}
      → lfthpool_step queue i r l m p ≡ some (m', p')
      → Change m p m' p'
  unfolding lfthpool_step
  lfthpool_step-Change i r l m dequeuing e = elim (Option-cases (queue.dequeue m.task_queue).1) [
    | inl nothing ↦ ground (arith, queue.dequeue-none m.task_queue nothing)
    | inr (t, took) ↦ ground (arith, length-dequeue m.task_queue t took)
  ]
  lfthpool_step-Change i r l m once_dequeuing e =
      elim (Option-cases (queue.dequeue m.task_queue).1) [
        | inl nothing ↦ ground (arith, queue.dequeue-none m.task_queue nothing)
        | inr (t, took) ↦ ground (arith, length-dequeue m.task_queue t took)
      ]
  lfthpool_step-Change i r l m (adding t) e =
      ground (arith, length-enqueue m.task_queue t, queue.enqueue-refused m.task_queue t)
  lfthpool_step-Change i r l m (trying t k) e =
      ground (arith, length-enqueue m.task_queue t, queue.enqueue-refused m.task_queue t)
  lfthpool_step-Change i r l m p e = ground arith

  -- Of a pool that is not freed, every block is in the queue or in a thread's hands.
  abbrev Accounts : ℕ → System Q → Type 0
  Accounts n s =
      s.mem.freed ≡ false
      → s.mem.allocated ≡ s.mem.released + in_queue s.mem + total holding n s.thread

  step-Accounts :
      (n : ℕ) (s : System Q) (c : Choice)
      → s.mem.freed ≡ false
      → Accounts n s
      → let t = step queue n s c in
        t.mem.allocated ≡ t.mem.released + in_queue t.mem + total holding n t.thread
  unfolding step thread_step
  step-Accounts n s c there v =
      step_cases chosen (thread_step queue)
        (λ t. t.mem.allocated ≡ t.mem.released + in_queue t.mem + total holding n t.thread) n s c
        (v there)
        λ m p lt moved.
          let change = lfthpool_step-Change c.i c.request c.luck s.mem (s.thread c.i) moved in
          omega (arith, v there, change.balance there, total-update holding n s.thread c.i p lt)

  step-still :
      (n : ℕ) (s : System Q) (c : Choice)
      → (step queue n s c).mem.freed ≡ false
      → s.mem.freed ≡ false
  unfolding step thread_step
  step-still n s c =
      step_cases chosen (thread_step queue) (λ t. t.mem.freed ≡ false → s.mem.freed ≡ false) n s c
        (λ e. e)
        λ m p lt moved.
          (lfthpool_step-Change c.i c.request c.luck s.mem (s.thread c.i) {p' = p} moved).still

  run-Accounts :
      (n : ℕ) (s : System Q) (cs : List Choice) → Accounts n s → Accounts n (run queue n s cs)
  unfolding run step
  run-Accounts n =
      run_keeps chosen (thread_step queue) (Accounts n) n
        λ s c v gone. step-Accounts n s c (step-still n s c gone) v

  module _ (n workers : ℕ) (pool : Lfthpool Q) (new : IsNew queue workers pool) where
    initial-Accounts : Accounts n (initial workers pool)
    initial-Accounts there =
        rw (there, new.empty)
          (omega (
            arith,
            new.blocks,
            total-eq-zero holding n (initial workers pool).thread (λ j. ground arith),
          ))

    -- Over any queue that is first in, first out, after any schedule of `n` threads on a new pool
    -- that no thread has destroyed, and one step more, in which one may: the blocks that were
    -- allocated for tasks are those that were freed, those in the queue, and one for each thread
    -- that has a task in its hands. The step in which `lfthpool_destroy` frees the pool frees those
    -- in the queue: none is left but what threads have in their hands.
    pub lfthpool_frees_tasks :
        (cs : List Choice) (c : Choice)
        → (run queue n (initial workers pool) cs).mem.freed ≡ false
        → let t = step queue n (run queue n (initial workers pool) cs) c in
          t.mem.allocated
          ≡ t.mem.released
            + (if t.mem.freed then 0 else length (queue.contents t.mem.task_queue))
            + total holding n t.thread
    lfthpool_frees_tasks cs c there =
        step-Accounts n (run queue n (initial workers pool) cs) c there
          (run-Accounts n (initial workers pool) cs initial-Accounts)
