-- ===== src/Lfthpool/EarlyWait.antt =====
-- src/threads/lfthpool.c: a call of `lfthpool_wait` that runs alone. It reads `running_count`, the
-- length of the queue, and `running_count` again.
use mathlib.Core.Path.{subst}
use libthreads.Prelude.{
  ℕ, ◌<◌, ◌≡◌, refl, sym, ap, ◌∙◌, [], arith, length, replicate, total-le-of, append-nil, ◌++◌,
}
use libthreads.Lfthpool.Queue.{RingQueue}
use libthreads.Threads.{At, At-step}
use libthreads.Lfthpool.Step.{
  chosen, thread_step, wait, Reply, done, idle, wait_active, wait_len, wait_recheck, Choice, System,
  begin, lfthpool_step, run,
}
use libthreads.Lfthpool.Invariant.{in_flight, Inv}

module _ {Q : Type 0} (queue : RingQueue Q) (n : ℕ) (c : Choice) (here : c.i < n) where
  wait_alone :
      (s : System Q) {r : Reply}
      → c.request ≡ wait
      → s.thread c.i ≡ idle r
      → s.mem.running_count ≡ 0
      → queue.contents s.mem.task_queue ≡ []
      → At chosen (thread_step queue) c (run queue n s (replicate 4 c)) s.mem (idle done)
  unfolding run thread_step lfthpool_step begin
  wait_alone s {r} asks idles none_counted nothing =
      let begun =
        At-step chosen (thread_step queue) n c {s = s} {m = s.mem} {m' = s.mem} {p = idle r}
          {p' = wait_active} here (record { memory = refl; place = idles }) (rw asks) in
      let counted =
        At-step chosen (thread_step queue) n c {m' = s.mem} {p = wait_active} {p' = wait_len} here
          begun (rw none_counted) in
      let measured =
        At-step chosen (thread_step queue) n c {m' = s.mem} {p = wait_len} {p' = wait_recheck} here
          counted (rw (queue.len-contents s.mem.task_queue, nothing)) in
      At-step chosen (thread_step queue) n c {m' = s.mem} {p = wait_recheck} {p' = idle done} here
        measured (rw none_counted)

  -- In a pool that satisfies the invariant, if the queue is empty and `running_count` is 0 while
  -- thread `w` has a task in its hands, which it has taken and not counted yet, then a thread that
  -- calls `lfthpool_wait` returns from it after four steps, although fewer tasks have been executed
  -- than were added.
  pub lfthpool_wait_early :
      (s : System Q) (w : ℕ) {r : Reply}
      → Inv queue n s
      → c.request ≡ wait
      → s.thread c.i ≡ idle r
      → s.mem.running_count ≡ 0
      → queue.contents s.mem.task_queue ≡ []
      → w < n
      → in_flight (s.thread w) ≡ 1
      → let t = run queue n s (replicate 4 c) in
        (t.thread c.i ≡ idle done) × (t.mem.finished < length t.mem.added)
  lfthpool_wait_early s w v asks idles none_counted nothing lt has =
      let at = wait_alone s asks idles none_counted nothing in
      (at.place, subst (λ m. m.finished < length m.added) (sym at.memory) left)
    where
      all_taken : length s.mem.added ≡ length s.mem.started
      all_taken =
          ap length (v.logged ∙ ap (λ l. s.mem.started ++ l) nothing ∙ append-nil s.mem.started)

      left : s.mem.finished < length s.mem.added
      left = omega (arith, all_taken, v.ended, has, total-le-of in_flight n s.thread w lt)
