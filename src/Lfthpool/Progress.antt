-- ===== src/Lfthpool/Progress.antt =====
-- src/threads/lfthpool.c: a worker that runs alone empties the queue, and one that sees the
-- shutdown flag returns.
use libthreads.Prelude.{
  ℕ, zero, suc, ◌+◌, ◌-◌, ◌<◌, ◌≡◌, ◌≢◌, refl, sym, ap, ◌∙◌, ◌==◌, false, List, [], ◌∷◌, ◌++◌, none,
  some, arith, replicate, length, total-le, append-nil, Option-cases, inl, inr,
}
use libthreads.Threads
use libthreads.Thpool.Pool.{Task, size_max, size}
use libthreads.Lfthpool.Queue.{RingQueue}
use libthreads.Lfthpool.Step.{
  chosen, thread_step, Lfthpool, Pc, checking_shutdown, checking_hold, dequeuing, counting,
  executing, uncounting, Choice, System, taken, count_up, count_down, release, execute,
  lfthpool_step, step, run,
}
use libthreads.Lfthpool.Invariant.{busy, busy-le, Inv, run-Inv}

-- Six steps of the thread for each of `k` tasks.
abbrev pub rounds : ℕ → Choice → List Choice
rounds zero c = []
rounds (suc k) c = c ∷ c ∷ c ∷ c ∷ c ∷ c ∷ rounds k c

module _ {Q : Type 0} (queue : RingQueue Q) where
  -- The state from which a worker runs alone: at the head of its loop, with the pool neither paused
  -- nor shut down.
  pub record IsReady (i : ℕ) (s : System Q) : Type 0 where
    pub place : s.thread i ≡ checking_shutdown
    pub up : s.mem.shutdown ≢ 1
    pub open_ : s.mem.hold ≡ 0

  pub record Drained (s t : System Q) : Type 0 where
    pub emptied : queue.contents t.mem.task_queue ≡ []
    pub kept : t.mem.added ≡ s.mem.added
    pub all_started : t.mem.started ≡ s.mem.added
    pub executed : t.mem.finished ≡ s.mem.finished + length (queue.contents s.mem.task_queue)
    pub quiet : t.mem.running_count ≡ s.mem.running_count

  module _ (n : ℕ) (c : Choice) (here : c.i < n) where
    abbrev At : System Q → Lfthpool Q → Pc → Type 0
    At = Threads.At chosen (thread_step queue) c

    At-step :
        {s : System Q} {m m' : Lfthpool Q} {p p' : Pc}
        → At s m p
        → lfthpool_step queue c.i c.request c.luck m p ≡ some (m', p')
        → At (step queue n s c) m' p'
    unfolding step thread_step
    At-step at moved = Threads.At-step chosen (thread_step queue) n c here at moved

    -- One round of the loop of `_lfthpool_worker` that takes the task `t`.
    abbrev round : Task → Lfthpool Q → Lfthpool Q
    round t m = release (count_down (execute t (count_up (taken queue t m))))

    worker_round :
        {s : System Q} {m : Lfthpool Q} (t : Task)
        → At s m checking_shutdown
        → m.shutdown ≢ 1
        → m.hold ≡ 0
        → (queue.dequeue m.task_queue).1 ≡ some t
        → At (run queue n s (replicate 6 c)) (round t m) checking_shutdown
    unfolding run Threads.run step lfthpool_step
    worker_round {s} {m} t at up open_ took =
        let still_up : (m.shutdown == 1) ≡ false = ground arith in
        let seen = At-step {m = m} {m' = m} {p' = checking_hold} at (rw still_up) in
        let held = At-step {m = m} {m' = m} {p' = dequeuing} seen (rw open_) in
        let got =
          At-step {m = m} {m' = taken queue t m} {p' = counting t} held
            (rw (lfthpool_step, took)) in
        let counted = At-step {p = counting t} {p' = executing t} got refl in
        let executed = At-step {p' = uncounting} counted refl in At-step executed refl

    module _ (gives : (q : Q) → (queue.dequeue q).1 ≡ none → queue.contents q ≡ []) where
      -- What one round changes.
      record Round (s t : System Q) : Type 0 where
        ready : IsReady c.i t
        inv : Inv queue n t
        kept : t.mem.added ≡ s.mem.added
        count :
            suc (length (queue.contents t.mem.task_queue))
            ≡ length (queue.contents s.mem.task_queue)
        executed : t.mem.finished ≡ suc s.mem.finished
        quiet : t.mem.running_count ≡ s.mem.running_count

      back_again :
          (s : System Q)
          → Inv queue n s
          → size (size (s.mem.running_count + 1) + size_max - 1) ≡ s.mem.running_count
      back_again s v = omega (arith, v.counted, v.small, total-le busy busy-le n s.thread)

      found : (q : Q) → length (queue.contents q) ≢ 0 → (t : Task) × ((queue.dequeue q).1 ≡ some t)
      found q more = elim (Option-cases (queue.dequeue q).1) [
        | inl nothing ↦ absurd (more (ap length (gives q nothing)))
        | inr took ↦ took
      ]

      round_lem :
          (s : System Q)
          → Inv queue n s
          → IsReady c.i s
          → length (queue.contents s.mem.task_queue) ≢ 0
          → Round s (run queue n s (replicate 6 c))
      round_lem s v r more =
          let (t, took) = found s.mem.task_queue more in
          let at =
            worker_round {s = s} {m = s.mem} t (record { memory = refl; place = r.place }) r.up
              r.open_ took in
          record {
            ready = record {
              place = at.place;
              up = λ e. r.up (sym (ap (λ m. m.shutdown) at.memory) ∙ e);
              open_ = ap (λ m. m.hold) at.memory ∙ r.open_;
            };
            inv = run-Inv queue n s (replicate 6 c) v;
            kept = ap (λ m. m.added) at.memory;
            count =
                ap (λ m. suc (length (queue.contents m.task_queue))) at.memory
                ∙ sym (ap length (queue.dequeue-some s.mem.task_queue t took));
            executed = ap (λ m. m.finished) at.memory;
            quiet = ap (λ m. m.running_count) at.memory ∙ back_again s v;
          }

      Drained-none :
          (s : System Q)
          → Inv queue n s
          → length (queue.contents s.mem.task_queue) ≡ 0
          → Drained s s
      Drained-none s v e =
          let empty : queue.contents s.mem.task_queue ≡ [] = ground arith in
          record {
            emptied = empty;
            kept = refl;
            all_started =
                sym (v.logged ∙ ap (λ l. s.mem.started ++ l) empty ∙ append-nil s.mem.started);
            executed = omega arith;
            quiet = refl;
          }

      Drained-more : {s t u : System Q} → Round s t → Drained t u → Drained s u
      Drained-more r d = record {
        emptied = d.emptied;
        kept = d.kept ∙ r.kept;
        all_started = d.all_started ∙ r.kept;
        executed = omega (arith, d.executed, r.executed, r.count);
        quiet = d.quiet ∙ r.quiet;
      }

      drained :
          (k : ℕ) (s : System Q)
          → Inv queue n s
          → IsReady c.i s
          → length (queue.contents s.mem.task_queue) ≡ k
          → Drained s (run queue n s (rounds k c))
      unfolding run Threads.run step
      drained zero s v r e = Drained-none s v e
      drained (suc k) s v r e =
          let once = round_lem s v r (omega arith) in
          Drained-more once (
            drained k (run queue n s (replicate 6 c)) once.inv once.ready
              (omega (arith, once.count)))

      -- Over a first-in first-out queue whose `dequeue` gives nothing only where it is empty: if a
      -- pool satisfies the invariant and is neither paused nor shut down, and one of its workers is
      -- at the head of its loop, then that worker, running alone, empties the queue in six steps
      -- for each queued task: no task is added, all that were added have been started, in that
      -- order, as many more are finished as were queued, and `running_count` is what it was.
      pub lfthpool_worker_drains :
          (s : System Q)
          → Inv queue n s
          → IsReady c.i s
          → Drained s (run queue n s (rounds (length (queue.contents s.mem.task_queue)) c))
      lfthpool_worker_drains s v r = drained (length (queue.contents s.mem.task_queue)) s v r refl
