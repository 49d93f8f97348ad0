-- ===== src/Thpool/System/Rest.antt =====
-- src/threads/thpool.c: what holds when no thread can move.
use native.Mathlib.Decide.{ℕ_discrete}
use libthreads.Prelude.{
  ℕ, ◌+◌, ◌<◌, ◌≡◌, refl, ◌≢◌, inl, inr, sym, ap, ◌∙◌, true, false, none, some, arith, length,
  update_self, List, Option-cases, total-eq-zero_below,
}
use libthreads.Threads.{step-moved}
use libthreads.Thpool.Pool.{Pool, size_max}
use libthreads.Thpool.Create.{IsNew}
use libthreads.Thpool.Shared.{Shared}
use libthreads.Thpool.Worker.{worker_step}
use libthreads.Thpool.Client.{Reply, pause, idle, client_step}
use libthreads.Thpool.System.{
  Thread, worker, client, Choice, chosen, System, thread_step, step, run, initial,
}
use libthreads.Thpool.System.Views.{holds, busy}
use libthreads.Thpool.System.Invariant.{Inv}
use libthreads.Thpool.System.Safety.{initial-Inv, all_finished}
use libthreads.Thpool.System.LostWakeup.{IsStuck}
use libthreads.Thpool.System.Sleepers.{initial-Sleepers}
use libthreads.Thpool.System.Awake.{is_awake, Live, run-Live}

-- A thread that is in a call leaves its place when it makes a step.
thread_step-away :
    (c : Choice) (m : Shared) (p : Thread) {m' : Shared} {p' : Thread}
    → ((r : Reply) → p ≢ client (idle r))
    → thread_step c m p ≡ some (m', p')
    → p' ≢ p
unfolding thread_step worker_step client_step
thread_step-away c m (worker p) called e = ground arith
thread_step-away c m (client (idle r)) called e = absurd (called r refl)
thread_step-away c m (client p) called e = ground arith

-- It is not blocked if it holds the mutex, if it has a task in its hands, or if it is a worker that
-- is awake and the mutex is free.
holds-moves : (c : Choice) (m : Shared) (p : Thread) → holds p ≡ true → thread_step c m p ≢ none
unfolding thread_step worker_step client_step
holds-moves c m (worker p) h = ground arith
holds-moves c m (client p) h = ground arith

busy-moves : (c : Choice) (m : Shared) (p : Thread) → thread_step c m p ≡ none → busy p ≡ 0
unfolding thread_step worker_step client_step
busy-moves c m (worker p) h = ground arith
busy-moves c m (client p) h = ground arith

awake-moves :
    (c : Choice) (m : Shared) (p : Thread)
    → is_awake c.i m p ≡ true
    → m.owner ≡ none
    → thread_step c m p ≢ none
unfolding thread_step worker_step
awake-moves c m (worker p) h free = ground arith
awake-moves c m (client p) h free = ground arith

-- A choice of thread `j` with no luck.
abbrev pub plainly : ℕ → Choice
plainly j = record { i = j; request = pause; luck = record { waker = 0; spurious = false } }

module _ {n : ℕ} {s : System} (stuck : IsStuck n s) where
  pub stuck-blocked :
      (j : ℕ)
      → j < n
      → ((r : Reply) → s.thread j ≢ client (idle r))
      → thread_step (plainly j) s.mem (s.thread j) ≡ none
  unfolding step
  stuck-blocked j lt called = elim (Option-cases (thread_step (plainly j) s.mem (s.thread j))) [
    | inl blocked ↦ blocked
    | inr ((m, p), moved) ↦ absurd (
        thread_step-away (plainly j) s.mem (s.thread j) {m' = m} {p' = p} called moved (
          sym (update_self s.thread j p)
          ∙ ap (λ t. t.thread j)
              (sym (step-moved chosen thread_step n (plainly j) s lt refl moved)
                ∙ stuck (plainly j) refl called)))
  ]

  pub free : Live n s → s.mem.owner ≡ none
  free v = elim (Option-cases (s.mem.owner)) [
    | inl nobody ↦ nobody
    | inr (j, held) ↦
        let (lt, in_it) = v.sleepers.holding j held in
        absurd (
          holds-moves (plainly j) s.mem (s.thread j) in_it
            (stuck-blocked j lt (λ r e. cc (in_it, ap holds e))))
  ]

  none_queued : Live n s → s.mem.pool.shutdown ≢ 1 → s.mem.pool.queue_count ≡ 0
  none_queued v up = elim (v.watched) [
    | inl empty ↦ empty
    | inr (inl down) ↦ absurd (up down)
    | inr (inr (w, lt, awake)) ↦ absurd (
        awake-moves (plainly w) s.mem (s.thread w) awake (free v)
          (stuck-blocked w lt (λ r e. cc (awake, ap (is_awake w s.mem) e))))
  ]

  busy_none : (j : ℕ) → j < n → busy (s.thread j) ≡ 0
  busy_none j lt = elim (ℕ_discrete (busy (s.thread j)) 0) [
    | yes none_has ↦ none_has
    | no has ↦
        busy-moves (plainly j) s.mem (s.thread j) (stuck-blocked j lt (λ r e. has (ap busy e)))
  ]

  none_running : Inv n s → s.mem.pool.running_count ≡ 0
  none_running v = v.counted ∙ total-eq-zero_below busy n s.thread busy_none

pub initial-Live :
    (n workers size : ℕ) (p : Pool)
    → n + 1 < size_max
    → 0 < workers
    → IsNew workers size p
    → Live n (initial workers p)
initial-Live n workers size p small some_worker new = record {
  inv = initial-Inv n workers size p small new;
  sleepers = initial-Sleepers n workers p;
  first = ground arith;
  watched = inl new.empty;
}

-- After any schedule of `n` threads, `n + 1 < 2 ^ 64`, on a new pool with at least one worker: if
-- no thread can make a step until a call is begun or a wait ends with no signal, and the pool is
-- not shut down, then the queue is empty, no task is counted as running, and as many tasks have
-- been executed as were ever added. No schedule leaves a task behind with the workers asleep,
-- paused or not.
pub rests_when_done :
    (n workers size : ℕ) (p : Pool)
    → n + 1 < size_max
    → 0 < n
    → 0 < workers
    → IsNew workers size p
    → (cs : List Choice) → IsStuck n (run n (initial workers p) cs)
    → (run n (initial workers p) cs).mem.pool.shutdown ≢ 1
    → let s = run n (initial workers p) cs in
      (s.mem.pool.queue_count ≡ 0)
      × (s.mem.pool.running_count ≡ 0)
      × (s.mem.finished ≡ length s.mem.added)
rests_when_done n workers size p small some_thread some_worker new cs stuck up =
    let v =
      run-Live n (initial workers p) cs some_thread
        (initial-Live n workers size p small some_worker new) in
    let empty = none_queued stuck v up in
    let quiet = none_running stuck v.inv in (empty, quiet, all_finished v.inv empty quiet)
