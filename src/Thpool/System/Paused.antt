-- ===== src/Thpool/System/Paused.antt =====
-- src/threads/thpool.c: a pool that is paused with tasks in its queue.
use mathlib.Core.Path.{subst}
use libthreads.Prelude.{
  All, ℕ, ◌<◌, ◌≡◌, refl, ◌≢◌, ap, ◌∙◌, Bool, true, false, List, none, some, arith, elem, get_or,
  update, update_self, update_ne,
}
use native.Mathlib.Decide.{ℕ_discrete}
use libthreads.Thpool.Pool.{enqueue, dequeue, thpool_pause}
use libthreads.Thpool.Ring.{IsValid}
use libthreads.Thpool.Shared.{Shared}
use libthreads.Thpool.Worker.{Luck, WorkerPc, counting, taking, returned, worker_step}
use libthreads.Thpool.Client.{
  Request, pause, resume, worker_try_once, ClientPc, idle, try_lock, try_locked, try_counting,
  try_taking, shutdown_joining, client_step,
}
use libthreads.Thpool.System.{
  Thread, worker, client, Choice, System, thread_step, thread_step_cases, step, step_cases, run,
  run_keeps_all,
}
use libthreads.Thpool.System.Views.{Knows}
use libthreads.Thpool.System.Invariant.{Inv, step-Inv}

-- About to take a task, whether or not the pool is paused, or back from the thread function.
abbrev pub is_past : Thread → Bool
is_past (worker counting) = true
is_past (worker taking) = true
is_past (worker returned) = true
is_past (client try_lock) = true
is_past (client try_locked) = true
is_past (client try_counting) = true
is_past (client try_taking) = true
is_past _ = false

-- A call that does not make a paused pool go on.
abbrev pub IsPatient : Request → Type 0
IsPatient r = (r ≢ resume) × (r ≢ worker_try_once)

record Before (m : Shared) (p : Thread) : Type 0 where
  valid : IsValid m.pool
  knows : Knows m.pool p
  held : m.pool.hold ≢ 0
  queued : m.pool.queue_count ≢ 0
  place : is_past p ≡ false

record After (m : Shared) (p : Thread) (m' : Shared) (p' : Thread) : Type 0 where
  held : m'.pool.hold ≢ 0
  queued : m'.pool.queue_count ≢ 0
  place : is_past p' ≡ false
  same_started : m'.started ≡ m.started
  same_exited : m'.exited ≡ m.exited
  same_threads : m'.pool.threads ≡ m.pool.threads
  same_count : m'.pool.thread_count ≡ m.pool.thread_count

worker_step-After :
    (i : ℕ) (l : Luck) (m : Shared) (p : WorkerPc) {m' : Shared} {p' : WorkerPc}
    → Before m (worker p)
    → worker_step i l m p ≡ some (m', p')
    → After m (worker p) m' (worker p')
unfolding worker_step dequeue
worker_step-After i l m p b e = ground arith

client_step-After :
    (i : ℕ) (r : Request) (l : Luck) (m : Shared) (p : ClientPc) {m' : Shared} {p' : ClientPc}
    → IsPatient r
    → Before m (client p)
    → client_step i r l m p ≡ some (m', p')
    → After m (client p) m' (client p')
unfolding client_step dequeue enqueue thpool_pause
client_step-After i pause l m (idle _) quiet b e = ground arith
client_step-After i _ l m (idle _) quiet b e = ground arith
client_step-After i r l m p quiet b e = ground arith

thread_step-After :
    (c : Choice) (m : Shared) (p : Thread) {m' : Shared} {p' : Thread}
    → IsPatient c.request
    → Before m p
    → thread_step c m p ≡ some (m', p')
    → After m p m' p'
thread_step-After c m p quiet b e =
    thread_step_cases (λ q m' q'. Before m q → After m q m' q') c m
      (λ w w' m' moved b. worker_step-After c.i c.luck m w b moved)
      (λ k k' m' moved b. client_step-After c.i c.request c.luck m k quiet b moved) p e b

-- A thread that joins a worker that has not returned is blocked.
joining_none :
    (c : Choice) (m : Shared) (d : Bool) (k : ℕ)
    → k < m.pool.thread_count
    → elem (get_or m.pool.threads k 0) m.exited ≡ false
    → thread_step c m (client (shutdown_joining d k)) ≡ none
unfolding thread_step client_step
joining_none c m d k lt running = ground arith

-- The pool is paused, tasks are queued, and no thread is about to take one or has returned.
pub record IsPaused (s : System) : Type 0 where
  pub held : s.mem.pool.hold ≢ 0
  pub queued : s.mem.pool.queue_count ≢ 0
  pub places : (j : ℕ) → is_past (s.thread j) ≡ false

-- Thread `j` is in `thpool_shutdown`, joining a worker that has not returned.
pub record IsJoining (j : ℕ) (d : Bool) (k : ℕ) (s : System) : Type 0 where
  pub place : s.thread j ≡ client (shutdown_joining d k)
  pub more : k < s.mem.pool.thread_count
  pub running : elem (get_or s.mem.pool.threads k 0) s.mem.exited ≡ false

module _ (n : ℕ) (j : ℕ) (d : Bool) (k : ℕ) where
  -- What every step of a patient thread keeps.
  record Stays (s t : System) : Type 0 where
    inv : Inv n t
    paused : IsPaused t
    joining : IsJoining j d k t
    same_started : t.mem.started ≡ s.mem.started
    same_exited : t.mem.exited ≡ s.mem.exited

  module _ {s t : System} (v : Stays s t) (c : Choice) (quiet : IsPatient c.request) {m : Shared}
      {p : Thread} (moved : thread_step c t.mem (t.thread c.i) ≡ some (m, p)) where
    local : After t.mem (t.thread c.i) m p
    local =
        thread_step-After c t.mem (t.thread c.i) quiet
          (record {
            valid = v.inv.valid;
            knows = v.inv.knows c.i;
            held = v.paused.held;
            queued = v.paused.queued;
            place = v.paused.places c.i;
          })
          moved

    abbrev after : System
    after = record { mem = m; thread = update t.thread c.i p }

    places_after : (x : ℕ) → is_past (update t.thread c.i p x) ≡ false
    places_after x = elim (ℕ_discrete c.i x) [
      | yes same ↦
          subst (λ y. is_past (update t.thread c.i p y) ≡ false) same
            (ap is_past (update_self t.thread c.i p) ∙ local.place)
      | no other ↦ rw (update_ne t.thread c.i x p other) (v.paused.places x)
    ]

    other_thread : c.i ≢ j
    other_thread e = cc (
      moved,
      joining_none c t.mem d k v.joining.more v.joining.running,
      ap (thread_step c t.mem) (ap t.thread e ∙ v.joining.place),
    )

    after-IsJoining : IsJoining j d k after
    after-IsJoining = record {
      place = update_ne t.thread c.i j p other_thread ∙ v.joining.place;
      more = rw local.same_count v.joining.more;
      running = rw (local.same_threads, local.same_exited) v.joining.running;
    }

  step-Stays : (s t : System) (c : Choice) → IsPatient c.request → Stays s t → Stays s (step n t c)
  step-Stays s t c quiet v = record {
    inv = step-Inv n t c v.inv;
    paused = step_cases IsPaused n t c v.paused λ m p lt moved. record {
      held = (local v c quiet moved).held;
      queued = (local v c quiet moved).queued;
      places = places_after v c quiet moved;
    };
    joining =
        step_cases (IsJoining j d k) n t c v.joining
          λ m p lt moved. after-IsJoining v c quiet moved;
    same_started =
        step_cases (λ u. u.mem.started ≡ s.mem.started) n t c v.same_started
          λ m p lt moved. (local v c quiet moved).same_started ∙ v.same_started;
    same_exited =
        step_cases (λ u. u.mem.exited ≡ s.mem.exited) n t c v.same_exited
          λ m p lt moved. (local v c quiet moved).same_exited ∙ v.same_exited;
  }

  -- If a pool satisfies the invariant and is paused with tasks in its queue, no thread is about to
  -- take a task and no worker has returned, and a thread in `thpool_shutdown` or `thpool_destroy`
  -- is joining a worker, then it stays there whatever the threads do, as long as nobody calls
  -- `thpool_resume` or `thpool_worker_try_once`: no task is taken, and no worker returns.
  pub paused_shutdown_hangs :
      (s : System) (cs : List Choice)
      → Inv n s
      → IsPaused s
      → IsJoining j d k s
      → All (λ c. IsPatient c.request) cs
      → let t = run n s cs in
        (t.thread j ≡ client (shutdown_joining d k))
        × (t.mem.started ≡ s.mem.started)
        × (t.mem.exited ≡ s.mem.exited)
  paused_shutdown_hangs s cs inv paused joining quiet =
      let v =
        run_keeps_all (Stays s) (λ c. IsPatient c.request) n (step-Stays s) s cs quiet
          (record {
            inv = inv;
            paused = paused;
            joining = joining;
            same_started = refl;
            same_exited = refl;
          }) in
      (v.joining.place, v.same_started, v.same_exited)
