-- ===== src/Thpool/System/Progress.antt =====
-- A worker that runs alone empties the queue.
use libthreads.Prelude.{
  ◌==◌, ℕ, zero, suc, ◌+◌, ◌-◌, ◌<◌, ◌≡◌, refl, sym, ◌∙◌, ap, ◌≢◌, false, List, [], ◌∷◌, ◌++◌, none,
  some, arith, replicate, total-le, append-nil,
}
use libthreads.Threads
use libthreads.Thpool.Pool.{size_max, size, head_task, dequeue, start_running, stop_running}
use libthreads.Thpool.Ring.{contents, contents-nil}
use libthreads.Thpool.Shared.{Shared}
use libthreads.Thpool.Worker.{
  locking, testing, checking_hold, counting, taking, uncounting, worker_step,
}
use libthreads.Thpool.System.{worker, Choice, System, step, run}
use libthreads.Thpool.System.Alone.{At, At-step-worker}
use libthreads.Thpool.System.Views.{busy}
use libthreads.Thpool.System.Invariant.{Inv, busy-le, run-Inv}

module _ (n : ℕ) (c : Choice) (here : c.i < n) where
  -- One round of the loop of `_thpool_worker`, with a task in the queue.
  abbrev round : Shared → Shared
  round m = record m {
    owner = none;
    pool = stop_running (dequeue (start_running m.pool));
    started = m.started ++ head_task m.pool ∷ [];
    executed = m.executed ++ head_task m.pool ∷ [];
    finished = suc m.finished;
  }

  worker_round :
      {s : System} {m : Shared}
      → At c s m (worker locking)
      → m.owner ≡ none
      → m.pool.hold ≡ 0
      → m.pool.queue_count ≢ 0
      → At c (run n s (replicate 7 c)) (round m) (worker locking)
  unfolding run Threads.run step worker_step head_task
  worker_round {s} {m} at free held more =
      let m' : Shared = record m { owner = some c.i } in
      let locked = At-step-worker n c here {m' = m'} {p = locking} {p' = testing} at (rw free) in
      let tested =
        At-step-worker n c here {m' = m'} {p = testing} {p' = checking_hold} locked
          (rw more_tasks) in
      let checked =
        At-step-worker n c here {m' = m'} {p = checking_hold} {p' = counting} tested (rw held) in
      let counted = At-step-worker n c here {p = counting} {p' = taking} checked refl in
      let taken = At-step-worker n c here {p = taking} counted refl in
      let executed = At-step-worker n c here {p' = uncounting} taken refl in
      At-step-worker n c here executed refl
    where
      more_tasks : (m.pool.queue_count == 0) ≡ false
      more_tasks = ground arith

-- Seven steps of the thread for each of `k` tasks.
abbrev pub rounds : ℕ → Choice → List Choice
rounds zero c = []
rounds (suc k) c = c ∷ c ∷ c ∷ c ∷ c ∷ c ∷ c ∷ rounds k c

-- The state from which a worker runs alone: at the head of its loop, with the mutex free and the
-- pool not paused.
pub record IsReady (i : ℕ) (s : System) : Type 0 where
  pub place : s.thread i ≡ worker locking
  pub free : s.mem.owner ≡ none
  pub open_ : s.mem.pool.hold ≡ 0

pub record Drained (s t : System) : Type 0 where
  pub emptied : contents t.mem.pool ≡ []
  pub kept : t.mem.added ≡ s.mem.added
  pub all_started : t.mem.started ≡ s.mem.added
  pub executed : t.mem.finished ≡ s.mem.finished + s.mem.pool.queue_count
  pub quiet : t.mem.pool.running_count ≡ s.mem.pool.running_count

module _ (n : ℕ) (c : Choice) (here : c.i < n) where
  abbrev after_round : System → System
  after_round s = run n s (replicate 7 c)

  -- What one round changes.
  record Round (s t : System) : Type 0 where
    ready : IsReady c.i t
    inv : Inv n t
    kept : t.mem.added ≡ s.mem.added
    count : suc t.mem.pool.queue_count ≡ s.mem.pool.queue_count
    executed : t.mem.finished ≡ suc s.mem.finished
    quiet : t.mem.pool.running_count ≡ s.mem.pool.running_count

  one_taken :
      (s : System)
      → Inv n s
      → s.mem.pool.queue_count ≢ 0
      → suc (size (s.mem.pool.queue_count + size_max - 1)) ≡ s.mem.pool.queue_count
  one_taken s v more = omega (arith, v.valid.count_in, v.valid.sized)

  back_again :
      (s : System)
      → Inv n s
      → size (size (s.mem.pool.running_count + 1) + size_max - 1) ≡ s.mem.pool.running_count
  back_again s v = omega (arith, v.counted, v.small, total-le busy busy-le n s.thread)

  round_lem :
      (s : System) → Inv n s → IsReady c.i s → s.mem.pool.queue_count ≢ 0 → Round s (after_round s)
  unfolding dequeue
  round_lem s v r more = record {
    ready = record {
      place = at.place;
      free = ap (λ m. m.owner) at.memory;
      open_ = ap (λ m. m.pool.hold) at.memory ∙ r.open_;
    };
    inv = run-Inv n s (replicate 7 c) v;
    kept = ap (λ m. m.added) at.memory;
    count = ap (λ m. suc m.pool.queue_count) at.memory ∙ one_taken s v more;
    executed = ap (λ m. m.finished) at.memory;
    quiet = ap (λ m. m.pool.running_count) at.memory ∙ back_again s v;
  }
    where
      at : At c (after_round s) (round n c here s.mem) (worker locking)
      at =
          worker_round n c here {s = s} {m = s.mem} (record { memory = refl; place = r.place })
            r.free r.open_ more

  Drained-none : (s : System) → Inv n s → s.mem.pool.queue_count ≡ 0 → Drained s s
  Drained-none s v e = record {
    emptied = contents-nil s.mem.pool e;
    kept = refl;
    all_started = sym (
        v.logged
        ∙ ap (λ l. s.mem.started ++ l) (contents-nil s.mem.pool e)
        ∙ append-nil s.mem.started);
    executed = omega arith;
    quiet = refl;
  }

  Drained-more : {s t u : System} → Round s t → Drained t u → Drained s u
  Drained-more r d = record {
    emptied = d.emptied;
    kept = d.kept ∙ r.kept;
    all_started = d.all_started ∙ r.kept;
    executed = omega (arith, d.executed, r.executed, r.count);
    quiet = d.quiet ∙ r.quiet;
  }

  drained :
      (k : ℕ) (s : System)
      → Inv n s
      → IsReady c.i s
      → s.mem.pool.queue_count ≡ k
      → Drained s (run n s (rounds k c))
  unfolding run Threads.run
  drained zero s v r e = Drained-none s v e
  drained (suc k) s v r e =
      let once = round_lem s v r (omega arith) in
      Drained-more once (drained k (after_round s) once.inv once.ready (omega (arith, once.count)))

  -- If a pool satisfies the invariant and is not paused, and one of its workers is at the head of
  -- its loop with the mutex free, then that worker, running alone, empties the queue in seven steps
  -- for each queued task: no task is added, all that were added have been started, in that order,
  -- as many more are finished as were queued, and `running_count` is what it was.
  pub worker_drains :
      (s : System) → Inv n s → IsReady c.i s → Drained s (run n s (rounds s.mem.pool.queue_count c))
  worker_drains s v r = drained s.mem.pool.queue_count s v r refl
