-- ===== src/Thpool/System/LostWakeup.antt =====
-- `thpool_worker_try_once` does not signal `notify_empty`: a thread in `thpool_wait` may sleep on
-- although the pool has become idle.
use mathlib.Core.Path.{subst}
use libthreads.Prelude.{
  ℕ, ◌<◌, ◌≡◌, refl, sym, ◌∙◌, ap, ◌≢◌, ◌⊎◌, inl, inr, true, false, none, arith, length, elem,
  update, update_self, update_ne, lt→ltb, pos,
}
use native.Mathlib.Decide.{ℕ_discrete}
use libthreads.Threads
use libthreads.Threads.{blocked_step}
use libthreads.Thpool.Shared.{Shared}
use libthreads.Thpool.Worker.{waiting, returned, worker_step}
use libthreads.Thpool.Client.{
  Reply, code, worker_try_once, idle, wait_blocked, try_uncounting, client_step,
}
use libthreads.Thpool.System.{Thread, worker, client, Choice, chosen, System, thread_step, step}
use libthreads.Thpool.System.Invariant.{Inv, step-Inv}
use libthreads.Thpool.System.Safety.{all_finished}

-- A worker that waits for a task or has returned, a thread that is blocked in `thpool_wait`, or one
-- between two calls.
abbrev pub IsParked : Shared → ℕ → Thread → Type 0
IsParked m k p =
    ((p ≡ worker waiting) × (elem k m.notify ≡ true))
    ⊎ ((p ≡ client wait_blocked) × (elem k m.notify_empty ≡ true))
    ⊎ (p ≡ worker returned)
    ⊎ ((r : Reply) × (p ≡ client (idle r)))

-- Thread `i` ends the last task in `thpool_worker_try_once` while `j` is blocked in `thpool_wait`
-- and all others are parked.
pub record LastTask (n i j : ℕ) (s : System) : Type 0 where
  pub last : s.thread i ≡ client try_uncounting
  pub alone : s.mem.pool.running_count ≡ 1
  pub empty : s.mem.pool.queue_count ≡ 0
  pub blocked : s.thread j ≡ client wait_blocked
  pub unwoken : elem j s.mem.notify_empty ≡ true
  pub parked : (k : ℕ) → k < n → k ≢ i → k ≢ j → IsParked s.mem k (s.thread k)

-- No thread makes a step, unless it begins a call or its wait ends with no signal.
abbrev pub IsStuck : ℕ → System → Type 0
IsStuck n s =
    (c : Choice)
    → c.luck.spurious ≡ false
    → ((r : Reply) → s.thread c.i ≢ client (idle r))
    → step n s c ≡ s

wait_none :
    (c : Choice) (m : Shared)
    → c.luck.spurious ≡ false
    → elem c.i m.notify_empty ≡ true
    → thread_step c m (client wait_blocked) ≡ none
unfolding thread_step client_step
wait_none c m quiet there = ground arith

worker_none :
    (c : Choice) (m : Shared)
    → c.luck.spurious ≡ false
    → elem c.i m.notify ≡ true
    → thread_step c m (worker waiting) ≡ none
unfolding thread_step worker_step
worker_none c m quiet there = ground arith

returned_none : (c : Choice) (m : Shared) → thread_step c m (worker returned) ≡ none
unfolding thread_step worker_step
returned_none c m = refl

parked_none :
    (c : Choice) (m : Shared) (p : Thread)
    → c.luck.spurious ≡ false
    → ((r : Reply) → p ≢ client (idle r))
    → IsParked m c.i p
    → thread_step c m p ≡ none
parked_none c m p quiet calls_not (inl (at, there)) = rw at (worker_none c m quiet there)
parked_none c m p quiet calls_not (inr (inl (at, there))) = rw at (wait_none c m quiet there)
parked_none c m p quiet calls_not (inr (inr (inl at))) = rw at (returned_none c m)
parked_none c m p quiet calls_not (inr (inr (inr (r, at)))) = absurd (calls_not r at)

-- When all threads are parked no thread makes a step.
pub parked-IsStuck :
    (n : ℕ) (s : System) → ((k : ℕ) → k < n → IsParked s.mem k (s.thread k)) → IsStuck n s
unfolding step
parked-IsStuck n s parked c quiet calls_not =
    blocked_step chosen thread_step n s c
      λ lt. parked_none c s.mem (s.thread c.i) quiet calls_not (parked c.i lt)

module _ (n : ℕ) (s : System) (c : Choice) (j : ℕ) (v : Inv n s) (here : c.i < n)
    (l : LastTask n c.i j s) where
  abbrev ended : System
  ended = record {
    mem = record s.mem { pool = record s.mem.pool { running_count = 0 } };
    thread = update s.thread c.i (client (idle (code worker_try_once (pos 0))));
  }

  step-ended : step n s c ≡ ended
  unfolding step Threads.step thread_step client_step
  step-ended = rw (lt→ltb here, l.last, l.alone)

  still_blocked : ended.thread j ≡ client wait_blocked
  still_blocked = elim (ℕ_discrete c.i j) [
    | yes same ↦ absurd (cc (l.last, l.blocked, ap s.thread same))
    | no other ↦
        update_ne s.thread c.i j (client (idle (code worker_try_once (pos 0)))) other ∙ l.blocked
  ]

  ended-IsStuck : IsStuck n ended
  ended-IsStuck = parked-IsStuck n ended λ k lt. elim (ℕ_discrete c.i k) [
    | yes same ↦ inr (
        inr (
          inr (
            code worker_try_once (pos 0),
            subst (λ x. ended.thread x ≡ client (idle (code worker_try_once (pos 0)))) same
                (update_self s.thread c.i (client (idle (code worker_try_once (pos 0))))),
          )))
    | no other ↦
        subst (IsParked ended.mem k)
          (sym (update_ne s.thread c.i k (client (idle (code worker_try_once (pos 0)))) other))
          (elim (ℕ_discrete j k) [
            | yes here ↦
                subst (λ x. IsParked s.mem x (s.thread x)) here (inr (inl (l.blocked, l.unwoken)))
            | no elsewhere ↦ l.parked k lt (λ e. other (sym e)) (λ e. elsewhere (sym e))
          ])
  ]

  ended-finished : ended.mem.finished ≡ length ended.mem.added
  ended-finished = all_finished (subst (Inv n) step-ended (step-Inv n s c v)) l.empty refl

-- If the last task of a pool is executed by `thpool_worker_try_once` while a thread is blocked in
-- `thpool_wait`, each worker waits for tasks or has returned and each other thread is between calls
-- or blocked in `thpool_wait`, then after the call the pool is idle, every task that was added is
-- finished, and yet the thread is still blocked in `thpool_wait`, and no thread can make a step
-- until another call is begun or a wait ends with no signal.
pub wait_not_woken :
    (n : ℕ) (s : System) (c : Choice) (j : ℕ)
    → Inv n s
    → c.i < n
    → LastTask n c.i j s
    → let t = step n s c in
      (t.mem.pool.queue_count ≡ 0)
      × (t.mem.pool.running_count ≡ 0)
      × (t.mem.finished ≡ length t.mem.added)
      × (t.thread j ≡ client wait_blocked)
      × IsStuck n t
wait_not_woken n s c j v here l =
    subst
      (λ t.
        (t.mem.pool.queue_count ≡ 0)
        × (t.mem.pool.running_count ≡ 0)
        × (t.mem.finished ≡ length t.mem.added)
        × (t.thread j ≡ client wait_blocked)
        × IsStuck n t)
      (sym (step-ended n s c j v here l))
      (
        l.empty,
        refl,
        ended-finished n s c j v here l,
        still_blocked n s c j v here l,
        ended-IsStuck n s c j v here l,
      )
