-- ===== src/Thpool/System/Awake.antt =====
-- src/threads/thpool.c: while tasks are queued, a worker is awake.
use mathlib.Core.Path.{subst}
use mathlib.Core.Bool.{not}
use libthreads.Prelude.{
  ℕ, ◌<◌, ◌≡◌, ◌≢◌, ◌⊎◌, sym, ap, ◌∙◌, inl, inr, Bool, true, false, some, arith, elem, length,
  Bool-cases, update, update_self, update_ne, List,
}
use native.Mathlib.Decide.{ℕ_discrete}
use libthreads.Waiters.{elem-length, woken_one, elem-woken_one, woken_one-wake_one}
use libthreads.Thpool.Shared.{Shared, wake_one}
use libthreads.Thpool.Worker.{Luck, WorkerPc, waiting, returned, worker_step}
use libthreads.Thpool.Client.{Request, pause, ClientPc, idle, client_step}
use libthreads.Thpool.System.{
  Thread, worker, client, Choice, System, thread_step, thread_step_cases, run_keeps, step,
  step_cases, run,
}
use libthreads.Thpool.System.Views.{Knows}
use libthreads.Thpool.System.Invariant.{Inv, moved-After, step-Inv}
use libthreads.Thpool.System.Sleepers.{Sleepers, Others-kept, step-Sleepers}

-- A worker that has not returned, and does not wait on `notify` with nobody having woken it.
abbrev pub is_awake : ℕ → Shared → Thread → Bool
is_awake i m (worker waiting) = not (elem i m.notify)
is_awake i m (worker returned) = false
is_awake i m (worker _) = true
is_awake i m (client _) = false

abbrev pub is_worker : Thread → Bool
is_worker (worker _) = true
is_worker (client _) = false

-- What a step of a thread does to its being awake, and to the others if a task is added.
record Move (i waker : ℕ) (m : Shared) (p : Thread) (m' : Shared) (p' : Thread) : Type 0 where
  kind : is_worker p' ≡ is_worker p
  own :
      is_awake i m p ≡ true
      → (is_awake i m' p' ≡ true) ⊎ (m'.pool.queue_count ≡ 0) ⊎ (m'.pool.shutdown ≡ 1)
  grown :
      m.pool.queue_count ≡ 0
      → (m'.pool.queue_count ≡ 0) ⊎ ((p ≢ worker waiting) × (m'.notify ≡ wake_one waker m.notify))

worker_step-Move :
    (i : ℕ) (l : Luck) (m : Shared) (p : WorkerPc) {m' : Shared} {p' : WorkerPc}
    → Knows m.pool (worker p)
    → worker_step i l m p ≡ some (m', p')
    → Move i l.waker m (worker p) m' (worker p')
unfolding worker_step
worker_step-Move i l m p k e = ground arith

client_step-Move :
    (i : ℕ) (r : Request) (l : Luck) (m : Shared) (p : ClientPc) {m' : Shared} {p' : ClientPc}
    → Knows m.pool (client p)
    → client_step i r l m p ≡ some (m', p')
    → Move i l.waker m (client p) m' (client p')
unfolding client_step
client_step-Move i pause l m (idle _) k e = ground arith
client_step-Move i _ l m (idle _) k e = ground arith
client_step-Move i r l m p k e = ground arith

thread_step-Move :
    (c : Choice) (m : Shared) (p : Thread) {m' : Shared} {p' : Thread}
    → Knows m.pool p
    → thread_step c m p ≡ some (m', p')
    → Move c.i c.luck.waker m p m' p'
thread_step-Move c m p k e =
    thread_step_cases (λ q m' q'. Knows m.pool q → Move c.i c.luck.waker m q m' q') c m
      (λ w w' m' moved k. worker_step-Move c.i c.luck m w k moved)
      (λ a a' m' moved k. client_step-Move c.i c.request c.luck m a k moved) p e k

-- No task waits for nobody: with tasks in the queue of a pool that is not shut down, a worker is
-- awake.
abbrev pub IsWatched : ℕ → System → Type 0
IsWatched n s =
    (s.mem.pool.queue_count ≡ 0)
    ⊎ (s.mem.pool.shutdown ≡ 1)
    ⊎ ((w : ℕ) × (w < n) × (is_awake w s.mem (s.thread w) ≡ true))

asleep_cases :
    (m : Shared) (p : Thread)
    → is_worker p ≡ true
    → is_awake 0 m p ≡ false
    → (p ≡ worker returned) ⊎ ((p ≡ worker waiting) × (0 < length m.notify))
asleep_cases m (worker waiting) w a = ground (arith, elem-length 0 m.notify)
asleep_cases m (worker p) w a = ground arith
asleep_cases m (client p) w a = ground arith

module _ {n : ℕ} {s : System} (v : Inv n s) (c : Choice) {m : Shared} {p : Thread}
    (moved : thread_step c s.mem (s.thread c.i) ≡ some (m, p)) where
  moved-Move : Move c.i c.luck.waker s.mem (s.thread c.i) m p
  moved-Move = thread_step-Move c s.mem (s.thread c.i) (v.knows c.i) moved

  kind_after : (x : ℕ) → is_worker (s.thread x) ≡ true → is_worker (update s.thread c.i p x) ≡ true
  kind_after x before = elim (ℕ_discrete c.i x) [
    | yes same ↦
        subst (λ k. is_worker (update s.thread c.i p k) ≡ true) same
          (ap is_worker (update_self s.thread c.i p)
            ∙ moved-Move.kind
            ∙ subst (λ k. is_worker (s.thread k) ≡ true) (sym same) before)
    | no other ↦ rw (update_ne s.thread c.i x p other) before
  ]

pub step-kind :
    (n : ℕ) (s : System) (c : Choice) (x : ℕ)
    → Inv n s
    → is_worker (s.thread x) ≡ true
    → is_worker ((step n s c).thread x) ≡ true
step-kind n s c x v before =
    step_cases (λ t. is_worker (t.thread x) ≡ true) n s c before
      λ m p lt moved. kind_after v c moved x before

-- A worker remains one.
pub run-kind :
    (n : ℕ) (s : System) (cs : List Choice) (x : ℕ)
    → Inv n s
    → is_worker (s.thread x) ≡ true
    → is_worker ((run n s cs).thread x) ≡ true
run-kind n s cs x v before =
    (run_keeps (λ t. Inv n t × (is_worker (t.thread x) ≡ true)) n
      (λ t c (w, at). (step-Inv n t c w, step-kind n t c x w at)) s cs (v, before)).1

module _ {n : ℕ} {s : System} (some_thread : 0 < n) (v : Inv n s) (sl : Sleepers n s)
    (first : is_worker (s.thread 0) ≡ true) (c : Choice) (lt : c.i < n) {m : Shared} {p : Thread}
    (moved : thread_step c s.mem (s.thread c.i) ≡ some (m, p)) where
  abbrev after : System
  after = record { mem = m; thread = update s.thread c.i p }

  local : Move c.i c.luck.waker s.mem (s.thread c.i) m p
  local = moved-Move v c moved

  awake_other :
      (w : ℕ) → w ≢ c.i → is_awake w s.mem (s.thread w) ≡ true → is_awake w m (s.thread w) ≡ true
  awake_other w other a = ground (arith, (Others-kept v sl c lt moved w other).listed)

  awake_after : (w : ℕ) → w < n → is_awake w s.mem (s.thread w) ≡ true → IsWatched n after
  awake_after w below a = elim (ℕ_discrete c.i w) [
    | yes same ↦ elim (local.own (subst (λ k. is_awake k s.mem (s.thread k) ≡ true) (sym same) a)) [
      | inl awake ↦ inr (inr (c.i, lt, ap (is_awake c.i m) (update_self s.thread c.i p) ∙ awake))
      | inr (inl none_queued) ↦ inl none_queued
      | inr (inr down) ↦ inr (inl down)
    ]
    | no other ↦ inr (
        inr (
          w,
          below,
          ap (is_awake w m) (update_ne s.thread c.i w p other)
              ∙ awake_other w (λ e. other (sym e)) a,
        ))
  ]

  -- A task has been added while no task was queued: thread 0 is awake, or another has been woken.
  woken_after :
      s.thread c.i ≢ worker waiting
      → m.notify ≡ wake_one c.luck.waker s.mem.notify
      → IsWatched n after
  woken_after away woke = elim (Bool-cases (is_awake 0 s.mem (s.thread 0))) [
    | inl awake ↦ awake_after 0 some_thread awake
    | inr asleep ↦ elim (asleep_cases s.mem (s.thread 0) first asleep) [
      | inl gone ↦ inr (inl ((moved-After v c lt moved).kept_flag (sl.ended 0 gone)))
      | inr (_, there) ↦
          let x = woken_one c.luck.waker s.mem.notify in
          let (below, at) = sl.listed x (elem-woken_one c.luck.waker s.mem.notify there) in
          inr (
            inr (
              x,
              below,
              ap (is_awake x m) (update_ne s.thread c.i x p (λ e. away (ap s.thread e ∙ at)) ∙ at)
                  ∙ ap not (
                      ap (elem x) woke
                      ∙ woken_one-wake_one c.luck.waker s.mem.notify sl.distinct there),
            ))
    ]
  ]

  IsWatched-after : IsWatched n s → IsWatched n after
  IsWatched-after (inl none_queued) = elim (local.grown none_queued) [
    | inl still ↦ inl still
    | inr (away, woke) ↦ woken_after away woke
  ]
  IsWatched-after (inr (inl down)) = inr (inl ((moved-After v c lt moved).kept_flag down))
  IsWatched-after (inr (inr (w, below, a))) = awake_after w below a

-- What holds of a pool with a worker after any schedule.
pub record Live (n : ℕ) (s : System) : Type 0 where
  pub inv : Inv n s
  pub sleepers : Sleepers n s
  pub first : is_worker (s.thread 0) ≡ true
  pub watched : IsWatched n s

pub step-Live : (n : ℕ) (s : System) (c : Choice) → 0 < n → Live n s → Live n (step n s c)
step-Live n s c some_thread v = record {
  inv = step-Inv n s c v.inv;
  sleepers = step-Sleepers n s c v.inv v.sleepers;
  first = step-kind n s c 0 v.inv v.first;
  watched =
      step_cases (IsWatched n) n s c v.watched
        λ m p lt moved. IsWatched-after some_thread v.inv v.sleepers v.first c lt moved v.watched;
}

pub run-Live : (n : ℕ) (s : System) (cs : List Choice) → 0 < n → Live n s → Live n (run n s cs)
run-Live n s cs some_thread = run_keeps (Live n) n (λ t c. step-Live n t c some_thread) s cs
