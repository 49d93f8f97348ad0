-- ===== src/Lfthpool/Invariant.antt =====
-- The invariant of a pool of src/threads/lfthpool.c with its threads: every step keeps it.
use libthreads.Prelude.{
  ℕ, ◌+◌, ◌≤◌, ◌<◌, ◌≡◌, List, [], ◌∷◌, ◌++◌, some, arith, length, update, total, total-update,
  total-le, total-le-of, append_assoc, length-append, ap, Option-cases, inl, inr,
}
use libthreads.Thpool.Pool.{Task, size_max}
use libthreads.Lfthpool.Queue.{RingQueue, qerr_ok}
use libthreads.Threads.{step_cases, run_keeps}
use libthreads.Lfthpool.Step.{
  chosen, thread_step, Lfthpool, Request, Luck, Pc, dequeuing, counting, executing, uncounting,
  adding, trying, once_dequeuing, once_counting, once_executing, once_uncounting, Choice, System,
  lfthpool_step, step, run,
}

-- Counted in `running_count`.
abbrev pub busy : Pc → ℕ
busy (executing _) = 1
busy uncounting = 1
busy (once_executing _) = 1
busy once_uncounting = 1
busy _ = 0

-- Has taken a task, and has not executed it.
abbrev pub in_flight : Pc → ℕ
in_flight (counting _) = 1
in_flight (executing _) = 1
in_flight (once_counting _) = 1
in_flight (once_executing _) = 1
in_flight _ = 0

pub busy-le : (p : Pc) → busy p ≤ 1
busy-le p = ground arith

module _ {Q : Type 0} (queue : RingQueue Q) where
  pub record Inv (n : ℕ) (s : System Q) : Type 0 where
    pub small : n + 1 < size_max
    pub logged : s.mem.added ≡ s.mem.started ++ queue.contents s.mem.task_queue
    pub counted : s.mem.running_count ≡ total busy n s.thread
    pub ended : length s.mem.started ≡ s.mem.finished + total in_flight n s.thread

  record Before (m : Lfthpool Q) (p : Pc) : Type 0 where
    logged : m.added ≡ m.started ++ queue.contents m.task_queue
    counted : busy p ≤ m.running_count
    few : m.running_count + 1 < size_max

  record After (m : Lfthpool Q) (p : Pc) (m' : Lfthpool Q) (p' : Pc) : Type 0 where
    logged : m'.added ≡ m'.started ++ queue.contents m'.task_queue
    counted : m'.running_count + busy p ≡ m.running_count + busy p'
    ended :
        length m'.started + m.finished + in_flight p ≡ length m.started + m'.finished + in_flight p'

  logged-take :
      (m : Lfthpool Q) (t : Task)
      → m.added ≡ m.started ++ queue.contents m.task_queue
      → (queue.dequeue m.task_queue).1 ≡ some t
      → m.added ≡ (m.started ++ t ∷ []) ++ queue.contents (queue.dequeue m.task_queue).0
  logged-take m t e took =
      rw (append_assoc, e) (ap (λ l. m.started ++ l) (queue.dequeue-some m.task_queue t took))

  logged-put :
      (m : Lfthpool Q) (t : Task)
      → m.added ≡ m.started ++ queue.contents m.task_queue
      → (queue.enqueue m.task_queue t).1 ≡ qerr_ok
      → m.added ++ t ∷ [] ≡ m.started ++ queue.contents (queue.enqueue m.task_queue t).0
  logged-put m t e ok = rw (e, queue.enqueue-ok m.task_queue t ok, append_assoc)

  lfthpool_step-After :
      (i : ℕ) (r : Request) (l : Luck) (m : Lfthpool Q) (p : Pc) {m' : Lfthpool Q} {p' : Pc}
      → Before m p
      → lfthpool_step queue i r l m p ≡ some (m', p')
      → After m p m' p'
  unfolding lfthpool_step
  lfthpool_step-After i r l m dequeuing b e = elim (Option-cases (queue.dequeue m.task_queue).1) [
    | inl nothing ↦ ground (arith, queue.dequeue-none m.task_queue nothing)
    | inr (t, took) ↦
        ground (arith, logged-take m t b.logged took, length-append m.started (t ∷ []))
  ]
  lfthpool_step-After i r l m once_dequeuing b e =
      elim (Option-cases (queue.dequeue m.task_queue).1) [
        | inl nothing ↦ ground (arith, queue.dequeue-none m.task_queue nothing)
        | inr (t, took) ↦
            ground (arith, logged-take m t b.logged took, length-append m.started (t ∷ []))
      ]
  lfthpool_step-After i r l m (adding t) b e =
      ground (arith, logged-put m t b.logged, queue.enqueue-refused m.task_queue t)
  lfthpool_step-After i r l m (trying t k) b e =
      ground (arith, logged-put m t b.logged, queue.enqueue-refused m.task_queue t)
  lfthpool_step-After i r l m p b e = ground arith

  Inv-Before : {n : ℕ} {s : System Q} → Inv n s → (i : ℕ) → i < n → Before s.mem (s.thread i)
  Inv-Before {n} {s} v i lt = record {
    logged = v.logged;
    counted = omega (arith, v.counted, total-le-of busy n s.thread i lt);
    few = omega (arith, v.counted, v.small, total-le busy busy-le n s.thread);
  }

  After-Inv :
      {n : ℕ} {s : System Q} {m : Lfthpool Q} {p : Pc}
      → Inv n s
      → (i : ℕ) → i < n
      → After s.mem (s.thread i) m p
      → Inv n (record { mem = m; thread = update s.thread i p })
  After-Inv {n} {s} {m} {p} v i lt a = record {
    small = v.small;
    logged = a.logged;
    counted = omega (arith, a.counted, v.counted, total-update busy n s.thread i p lt);
    ended = omega (arith, a.ended, v.ended, total-update in_flight n s.thread i p lt);
  }

  step-Inv : (n : ℕ) (s : System Q) (c : Choice) → Inv n s → Inv n (step queue n s c)
  unfolding step
  step-Inv n s c v = step_cases chosen (thread_step queue) (Inv n) n s c v λ m p lt moved.
      After-Inv v c.i lt
        (lfthpool_step-After c.i c.request c.luck s.mem (s.thread c.i) (Inv-Before v c.i lt) moved)

  pub run-Inv : (n : ℕ) (s : System Q) (cs : List Choice) → Inv n s → Inv n (run queue n s cs)
  unfolding run step
  run-Inv n = run_keeps chosen (thread_step queue) (Inv n) n (step-Inv n)
