-- ===== src/Thpool/System/Finish.antt =====
-- src/threads/thpool.c: tasks and shutdowns come to an end in any fair schedule.
use mathlib.Core.Path.{subst}
use libthreads.Prelude.{
  All, ℕ, ◌+◌, ◌≤◌, ◌<◌, ◌≡◌, ◌≢◌, refl, sym, ap, ◌∙◌, inl, inr, Bool, true, false, List, [], ◌∷◌,
  ◌++◌, some, arith, length, each_once, get_or, Bool-cases,
}
use libthreads.Threads.{run-append}
use libthreads.Thpool.Pool.{Pool, size_max, enqueue, dequeue}
use libthreads.Thpool.Create.{IsNew}
use libthreads.Thpool.Shared.{Shared}
use libthreads.Thpool.Worker.{worker_step}
use libthreads.Thpool.Client.{shutdown_locked, client_step}
use libthreads.Thpool.System.{
  Thread, worker, client, Choice, chosen, System, thread_step, step, step_cases, run, initial,
}
use libthreads.Thpool.System.LostWakeup.{IsStuck}
use libthreads.Thpool.System.Awake.{Live, step-Live, run-Live}
use libthreads.Thpool.System.Blocked.{initial-Blocked, step-Blocked, run-Blocked, Blocked}
use libthreads.Thpool.System.Rest.{initial-Live, rests_when_done}
use libthreads.Thpool.System.Completion.{is_over, shutdown_ends}
use libthreads.Thpool.System.Settle.{
  is_idle, calmly, go_on, go_on_all, go_rounds, IsRound, work_left, Ready,
}
use libthreads.Thpool.System.Rounds.{rounds-IsStuck, go_rounds-run}

-- Only a call that is begun sets the shutdown flag.
thread_step-flag :
    (c : Choice) (m : Shared) (p : Thread) {m' : Shared} {p' : Thread}
    → is_idle p ≡ false
    → thread_step c m p ≡ some (m', p')
    → m'.pool.shutdown ≡ m.pool.shutdown
unfolding thread_step worker_step client_step enqueue dequeue
thread_step-flag c m (worker p) busy e = ground arith
thread_step-flag c m (client p) busy e = ground arith

go_on-flag :
    (n : ℕ) (s : System) (c : Choice) → (go_on n s c).mem.pool.shutdown ≡ s.mem.pool.shutdown
unfolding go_on
go_on-flag n s c = elim (Bool-cases (is_idle (s.thread c.i))) [
  | inl between ↦ rw between refl
  | inr busy ↦ rw busy (
      step_cases (λ t. t.mem.pool.shutdown ≡ s.mem.pool.shutdown) n s (calmly c) refl
        λ m p lt moved. thread_step-flag (calmly c) s.mem (s.thread c.i) {p' = p} busy moved)
]

go_on_all-flag :
    (n : ℕ) (s : System) (cs : List Choice)
    → (go_on_all n s cs).mem.pool.shutdown ≡ s.mem.pool.shutdown
unfolding go_on_all
go_on_all-flag n s [] = refl
go_on_all-flag n s (c ∷ cs) = go_on_all-flag n (go_on n s c) cs ∙ go_on-flag n s c

go_rounds-flag :
    (n : ℕ) (s : System) (rs : List (List Choice))
    → (go_rounds n s rs).mem.pool.shutdown ≡ s.mem.pool.shutdown
unfolding go_rounds
go_rounds-flag n s [] = refl
go_rounds-flag n s (r ∷ rs) = go_rounds-flag n (go_on_all n s r) rs ∙ go_on_all-flag n s r

Live-Ready :
    {n : ℕ} {s : System}
    → Live n s
    → Blocked n s
    → s.mem.pool.hold ≡ 0
    → Ready n s.mem.pool.thread_count s
Live-Ready v b open_ = record {
  inv = v.inv;
  sleepers = v.sleepers;
  blocked = b;
  open_ = open_;
  same_count = refl;
}

module _ (n workers size : ℕ) (p : Pool) (small : n + 1 < size_max) (some_thread : 0 < n)
    (some_worker : 0 < workers) (new : IsNew workers size p) (cs : List Choice) where
  abbrev reached : System
  reached = run n (initial workers p) cs

  reached-Live : Live n reached
  reached-Live =
      run-Live n (initial workers p) cs some_thread
        (initial-Live n workers size p small some_worker new)

  reached-Blocked : Blocked n reached
  reached-Blocked = run-Blocked n (initial workers p) cs (initial-Blocked n workers p)

  -- After any schedule of `n` threads, `n + 1 < 2 ^ 64`, on a new pool with at least one worker, if
  -- the pool is neither paused nor shut down: let the threads go on for more rounds than
  -- `work_left`, in each of which every thread is chosen at least once, in any order, begins no
  -- call, and ends no wait that nobody has signalled. Then the queue is empty, no task is counted
  -- as running, and as many tasks have been executed as were ever added.
  pub tasks_get_done :
      (rs : List (List Choice))
      → reached.mem.pool.hold ≡ 0
      → reached.mem.pool.shutdown ≢ 1
      → All (IsRound n) rs
      → work_left n reached < length rs
      → let t = go_rounds n reached rs in
        (t.mem.pool.queue_count ≡ 0)
        × (t.mem.pool.running_count ≡ 0)
        × (t.mem.finished ≡ length t.mem.added)
  unfolding run
  tasks_get_done rs open_ up fair enough =
      let stuck =
        rounds-IsStuck n reached rs (Live-Ready reached-Live reached-Blocked open_) fair enough in
      let (ds, same) = go_rounds-run n reached rs in
      let whole : go_rounds n reached rs ≡ run n (initial workers p) (cs ++ ds) =
        same ∙ sym (run-append chosen thread_step n (initial workers p) cs ds) in
      subst
        (λ t.
          (t.mem.pool.queue_count ≡ 0)
          × (t.mem.pool.running_count ≡ 0)
          × (t.mem.finished ≡ length t.mem.added))
        (sym whole)
        (rests_when_done n workers size p small some_thread some_worker new (cs ++ ds)
          (subst (IsStuck n) whole stuck)
          (λ down.
            up (sym (go_rounds-flag n reached rs) ∙ ap (λ t. t.mem.pool.shutdown) whole ∙ down)))

  module _ (few : workers ≤ n) (own : (x : ℕ) → x < workers → get_or p.threads x 0 ≡ x) (c : Choice)
      (lt : c.i < n) {d : Bool} (at : reached.thread c.i ≡ client (shutdown_locked d))
      (later : List Choice) where
    abbrev going : System
    going = run n (step n reached c) later

    going-Live : Live n going
    going-Live =
        run-Live n (step n reached c) later some_thread
          (step-Live n reached c some_thread reached-Live)

    going-Blocked : Blocked n going
    going-Blocked =
        run-Blocked n (step n reached c) later (step-Blocked n reached c reached-Blocked)

    -- After any schedule of `n` threads, `n + 1 < 2 ^ 64`, on a new pool with at least one worker,
    -- whose handles are those of its workers: let a thread make the broadcast of `thpool_shutdown`,
    -- and then any schedule follow. If the pool is not paused, let the threads go on for more
    -- rounds than `work_left`, in each of which every thread is chosen at least once, in any order,
    -- begins no call, and ends no wait that nobody has signalled. If `pthread_join` was called at
    -- most once for each thread, then every worker has returned, and so has every call of
    -- `thpool_shutdown` and `thpool_destroy`.
    pub shutdown_gets_done :
        (rs : List (List Choice))
        → going.mem.pool.hold ≡ 0
        → All (IsRound n) rs
        → work_left n going < length rs
        → each_once (go_rounds n going rs).mem.joins ≡ true
        → (j : ℕ) → j < n
        → is_over ((go_rounds n going rs).thread j) ≡ true
    unfolding run
    shutdown_gets_done rs open_ fair enough once j below =
        let stuck =
          rounds-IsStuck n going rs (Live-Ready going-Live going-Blocked open_) fair enough in
        let (ds, same) = go_rounds-run n going rs in
        let whole : go_rounds n going rs ≡ run n (step n reached c) (later ++ ds) =
          same ∙ sym (run-append chosen thread_step n (step n reached c) later ds) in
        subst (λ t. is_over (t.thread j) ≡ true) (sym whole)
          (shutdown_ends n workers size p small some_worker few new own cs c lt at (later ++ ds)
            (subst (IsStuck n) whole stuck) j below)
