-- ===== src/Lfthpool/Kinds.antt =====
-- src/threads/lfthpool.c: a worker remains one, and when it has returned `pthread_join` sees it.
use libthreads.Prelude.{ℕ, ◌<◌, ◌≤◌, ◌≡◌, true, List, some, arith, elem, update_each}
use libthreads.Threads.{step_cases, run_keeps}
use libthreads.Lfthpool.Queue.{RingQueue}
use libthreads.Lfthpool.Ending.{left}
use libthreads.Lfthpool.Step.{
  chosen, thread_step, Lfthpool, Request, Luck, Pc, returned, Choice, System, lfthpool_step, step,
  run, initial,
}

module _ {Q : Type 0} (queue : RingQueue Q) where
  -- A worker remains one, and is seen by `pthread_join` when it has returned.
  worker_kept :
      (i : ℕ) (r : Request) (l : Luck) (m : Lfthpool Q) (p : Pc) {m' : Lfthpool Q} {p' : Pc}
      → lfthpool_step queue i r l m p ≡ some (m', p')
      → left p ≤ 6
      → left p' ≤ 6
  unfolding lfthpool_step
  worker_kept i r l m p e few = ground arith

  seen_after :
      (i : ℕ) (r : Request) (l : Luck) (m : Lfthpool Q) (p : Pc) {m' : Lfthpool Q} {p' : Pc}
      → lfthpool_step queue i r l m p ≡ some (m', p')
      → p' ≡ returned
      → elem i m'.exited ≡ true
  unfolding lfthpool_step
  seen_after i r l m p e back = ground arith

  pub exited_kept :
      (i : ℕ) (r : Request) (l : Luck) (m : Lfthpool Q) (p : Pc) {m' : Lfthpool Q} {p' : Pc} (x : ℕ)
      → lfthpool_step queue i r l m p ≡ some (m', p')
      → elem x m.exited ≡ true
      → elem x m'.exited ≡ true
  unfolding lfthpool_step
  exited_kept i r l m p x e there = ground arith

  -- The workers are the first `workers` threads, and those that have returned are seen.
  pub record Kinds (workers : ℕ) (s : System Q) : Type 0 where
    pub working : (x : ℕ) → x < workers → left (s.thread x) ≤ 6
    pub seen : (x : ℕ) → s.thread x ≡ returned → elem x s.mem.exited ≡ true

  step-Kinds :
      (workers n : ℕ) (s : System Q) (c : Choice)
      → Kinds workers s
      → Kinds workers (step queue n s c)
  unfolding step thread_step
  step-Kinds workers n s c v =
      step_cases chosen (thread_step queue) (Kinds workers) n s c v λ m p lt moved. record {
        working =
            update_each (λ x q. x < workers → left q ≤ 6) s.thread c.i p
              (λ below.
                worker_kept c.i c.request c.luck s.mem (s.thread c.i) {m' = m} moved
                  (v.working c.i below))
              (λ x other. v.working x);
        seen =
            update_each (λ x q. q ≡ returned → elem x m.exited ≡ true) s.thread c.i p
              (seen_after c.i c.request c.luck s.mem (s.thread c.i) moved)
              (λ x other back.
                exited_kept c.i c.request c.luck s.mem (s.thread c.i) {p' = p} x moved
                  (v.seen x back));
      }

  pub run-Kinds :
      (workers n : ℕ) (s : System Q) (cs : List Choice)
      → Kinds workers s
      → Kinds workers (run queue n s cs)
  unfolding run step
  run-Kinds workers n =
      run_keeps chosen (thread_step queue) (Kinds workers) n (step-Kinds workers n)

  pub initial-Kinds : (workers : ℕ) (pool : Lfthpool Q) → Kinds workers (initial workers pool)
  initial-Kinds workers pool = record {
    working = λ x lt. ground arith;
    seen = λ x back. ground arith;
  }
