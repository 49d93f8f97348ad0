-- ===== src/Thpool/System/Invariant.antt =====
-- The invariant of a pool with its threads: every step keeps it, so it holds after any schedule.
use libthreads.Prelude.{
  ℕ, ◌+◌, ◌≤◌, ◌<◌, ◌≡◌, ◌≢◌, inl, inr, true, List, ◌++◌, some, arith, length, ◌==◌, Bool-cases,
  update, total, total-update, total-le, total-le-of,
}
use libthreads.Thpool.Pool.{Pool, size_max}
use libthreads.Thpool.Ring.{IsValid, contents}
use libthreads.Thpool.Shared.{Shared}
use libthreads.Thpool.System.{
  Thread, Choice, System, thread_step, thread_step_cases, step, step_cases, run, run_keeps,
}
use libthreads.Thpool.System.Views.{holds, busy, in_flight, Knows, Before, After}
use libthreads.Thpool.System.Steps.{worker_step-After, client_step-After}

pub record Inv (n : ℕ) (s : System) : Type 0 where
  pub small : n + 1 < size_max
  pub valid : IsValid s.mem.pool
  pub logged : s.mem.added ≡ s.mem.started ++ contents s.mem.pool
  pub holder : (j : ℕ) → holds (s.thread j) ≡ true → s.mem.owner ≡ some j
  pub knows : (j : ℕ) → Knows s.mem.pool (s.thread j)
  pub counted : s.mem.pool.running_count ≡ total busy n s.thread
  pub ended : length s.mem.started ≡ s.mem.finished + total in_flight n s.thread

thread_step-After :
    (c : Choice) (m : Shared) (p : Thread) {m' : Shared} {p' : Thread}
    → Before c.i m p
    → thread_step c m p ≡ some (m', p')
    → After c.i m p m' p'
thread_step-After c m p b e =
    thread_step_cases (λ q m' q'. Before c.i m q → After c.i m q m' q') c m
      (λ w w' m' moved b. worker_step-After c.i c.luck m w b moved)
      (λ k k' m' moved b. client_step-After c.i c.request c.luck m k b moved) p e b

pub busy-le : (p : Thread) → busy p ≤ 1
busy-le p = ground arith

Inv-Before : {n : ℕ} {s : System} → Inv n s → (i : ℕ) → i < n → Before i s.mem (s.thread i)
Inv-Before {n} {s} v i lt = record {
  valid = v.valid;
  logged = v.logged;
  holder = v.holder i;
  knows = v.knows i;
  counted = omega (arith, v.counted, total-le-of busy n s.thread i lt);
  few = omega (arith, v.counted, v.small, total-le busy busy-le n s.thread);
}

-- What a thread knows of the queue depends on its length alone, and only under the mutex; the flag
-- stays set.
Knows-kept :
    (q q' : Pool) (p : Thread)
    → (holds p ≡ true → q'.queue_count ≡ q.queue_count)
    → (q.shutdown ≡ 1 → q'.shutdown ≡ 1)
    → Knows q p
    → Knows q' p
Knows-kept q q' p same flag k = ground arith

module _ {n : ℕ} {s : System} (v : Inv n s) (i : ℕ) (lt : i < n) {m : Shared} {p : Thread}
    (a : After i s.mem (s.thread i) m p) where
  others_keep :
      (j : ℕ)
      → i ≢ j
      → s.mem.owner ≡ some j
      → (m.owner ≡ some j) × (m.pool.queue_count ≡ s.mem.pool.queue_count)
  others_keep j ne e = ground (arith, a.kept_owner, a.kept_count)

  holder_after : (j : ℕ) → holds (update s.thread i p j) ≡ true → m.owner ≡ some j
  holder_after j h = elim (Bool-cases (i == j)) [
    | inl same ↦ ground (arith, a.holder)
    | inr other ↦ ground (arith, others_keep j, v.holder j)
  ]

  Knows-after : (j : ℕ) → Knows m.pool (update s.thread i p j)
  Knows-after j = elim (Bool-cases (i == j)) [
    | inl same ↦ rw same a.knows
    | inr other ↦ rw other (
        Knows-kept s.mem.pool m.pool (s.thread j)
          (λ h. (others_keep j (ground arith) (v.holder j h)).1) a.kept_flag (v.knows j))
  ]

  After-Inv : Inv n (record { mem = m; thread = update s.thread i p })
  After-Inv = record {
    small = v.small;
    valid = a.valid;
    logged = a.logged;
    holder = holder_after;
    knows = Knows-after;
    counted = omega (arith, a.counted, v.counted, total-update busy n s.thread i p lt);
    ended = omega (arith, a.ended, v.ended, total-update in_flight n s.thread i p lt);
  }

-- What a step leads to.
pub moved-After :
    {n : ℕ} {s : System} (v : Inv n s) (c : Choice)
    → c.i < n
    → {m : Shared} {p : Thread} → thread_step c s.mem (s.thread c.i) ≡ some (m, p)
    → After c.i s.mem (s.thread c.i) m p
moved-After {n} {s} v c lt moved =
    thread_step-After c s.mem (s.thread c.i) (Inv-Before v c.i lt) moved

pub step-Inv : (n : ℕ) (s : System) (c : Choice) → Inv n s → Inv n (step n s c)
step-Inv n s c v =
    step_cases (Inv n) n s c v λ m p lt moved. After-Inv v c.i lt (moved-After v c lt moved)

pub run-Inv : (n : ℕ) (s : System) (cs : List Choice) → Inv n s → Inv n (run n s cs)
run-Inv n = run_keeps (Inv n) n (step-Inv n)
