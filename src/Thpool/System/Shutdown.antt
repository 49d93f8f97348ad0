-- ===== src/Thpool/System/Shutdown.antt =====
-- `thpool_shutdown`: after its broadcast no worker sleeps, and it returns when all have returned.
use mathlib.Core.Path.{subst}
use libthreads.Prelude.{
  Bool, ℕ, ◌<◌, ◌≡◌, refl, sym, ◌∙◌, ap, ◌≢◌, List, [], none, some, arith, update, update_self,
  update_ne, lt→ltb,
}
use native.Mathlib.Decide.{ℕ_discrete}
use libthreads.Threads
use libthreads.Thpool.Pool.{enqueue, dequeue}
use libthreads.Thpool.Shared.{Shared}
use libthreads.Thpool.Worker.{Luck, WorkerPc, locking, before_wait, worker_step}
use libthreads.Thpool.Client.{
  Request, pause, ClientPc, idle, shutdown_locked, shutdown_join, try_lock, client_step,
}
use libthreads.Thpool.System.{
  Thread, worker, client, Choice, System, thread_step, thread_step_cases, run_keeps, step,
  step_cases, run,
}
use libthreads.Thpool.System.Views.{holds, Knows}
use libthreads.Thpool.System.Invariant.{Inv}

-- What a step keeps once the flag is set and nobody waits for a task.
record Calm (m : Shared) (p : Thread) : Type 0 where
  flag : m.pool.shutdown ≡ 1
  nobody : m.notify ≡ []
  awake : p ≢ worker before_wait

worker_step-Calm :
    (i : ℕ) (l : Luck) (m : Shared) (p : WorkerPc) {m' : Shared} {p' : WorkerPc}
    → Calm m (worker p)
    → worker_step i l m p ≡ some (m', p')
    → Calm m' (worker p')
unfolding worker_step dequeue
worker_step-Calm i l m locking k e = ground arith
worker_step-Calm i l m p k e = ground arith

client_step-Calm :
    (i : ℕ) (r : Request) (l : Luck) (m : Shared) (p : ClientPc) {m' : Shared} {p' : ClientPc}
    → Calm m (client p)
    → client_step i r l m p ≡ some (m', p')
    → Calm m' (client p')
unfolding client_step dequeue enqueue
client_step-Calm i r l m try_lock k e = ground arith
client_step-Calm i pause l m (idle _) k e = ground arith
client_step-Calm i _ l m (idle _) k e = ground arith
client_step-Calm i r l m p k e = ground arith

thread_step-Calm :
    (c : Choice) (m : Shared) (p : Thread) {m' : Shared} {p' : Thread}
    → Calm m p
    → thread_step c m p ≡ some (m', p')
    → Calm m' p'
thread_step-Calm c m p b e =
    thread_step_cases (λ q m' q'. Calm m q → Calm m' q') c m
      (λ w w' m' moved b. worker_step-Calm c.i c.luck m w b moved)
      (λ k k' m' moved b. client_step-Calm c.i c.request c.luck m k b moved) p e b

-- The shutdown flag is set, no worker waits for a task, and none is about to.
pub record IsSettled (s : System) : Type 0 where
  pub flag : s.mem.pool.shutdown ≡ 1
  pub nobody_waits : s.mem.notify ≡ []
  pub nobody_will : (j : ℕ) → s.thread j ≢ worker before_wait

step-IsSettled : (n : ℕ) (s : System) (c : Choice) → IsSettled s → IsSettled (step n s c)
step-IsSettled n s c q = step_cases IsSettled n s c q λ m p lt moved.
    let calm =
      thread_step-Calm c s.mem (s.thread c.i)
        (record { flag = q.flag; nobody = q.nobody_waits; awake = q.nobody_will c.i }) moved in
    record {
      flag = calm.flag;
      nobody_waits = calm.nobody;
      nobody_will = λ j. elim (ℕ_discrete c.i j) [
        | yes same ↦
            subst (λ k. update s.thread c.i p k ≢ worker before_wait) same
              (λ e. calm.awake (sym (update_self s.thread c.i p) ∙ e))
        | no other ↦ λ e. q.nobody_will j (sym (update_ne s.thread c.i j p other) ∙ e)
      ];
    }

run-IsSettled : (n : ℕ) (s : System) (cs : List Choice) → IsSettled s → IsSettled (run n s cs)
run-IsSettled n = run_keeps IsSettled n (step-IsSettled n)

module _ (n : ℕ) (s : System) (c : Choice) (v : Inv n s) (lt : c.i < n) {d : Bool}
    (at : s.thread c.i ≡ client (shutdown_locked d)) where
  abbrev woken_all : System
  woken_all = record {
    mem = record s.mem { owner = none; notify = [] };
    thread = update s.thread c.i (client (shutdown_join d 0));
  }

  broadcast : step n s c ≡ woken_all
  unfolding step Threads.step thread_step client_step
  broadcast = rw (lt→ltb lt, at)

  -- The thread that broadcasts holds the mutex, so no other is about to wait.
  none_before_wait : (j : ℕ) → c.i ≢ j → s.thread j ≢ worker before_wait
  none_before_wait j other e =
      other (ground (arith, v.holder c.i (ap holds at), v.holder j (ap holds e)))

  broadcast-IsSettled : IsSettled woken_all
  broadcast-IsSettled = record {
    flag = subst (Knows s.mem.pool) at (v.knows c.i);
    nobody_waits = refl;
    nobody_will = λ j. elim (ℕ_discrete c.i j) [
      | yes same ↦
          subst (λ k. update s.thread c.i (client (shutdown_join d 0)) k ≢ worker before_wait) same
            (λ e. cc (update_self s.thread c.i (client (shutdown_join d 0)), e))
      | no other ↦ λ e.
          none_before_wait j other
            (sym (update_ne s.thread c.i j (client (shutdown_join d 0)) other) ∙ e)
    ];
  }

-- From the step in which `thpool_shutdown` broadcasts on, whatever the threads do, the flag is set
-- and no worker waits for a task, or is about to.
pub shutdown_wakes_all :
    (n : ℕ) (s : System) (c : Choice) (later : List Choice)
    → Inv n s
    → c.i < n
    → {d : Bool} → s.thread c.i ≡ client (shutdown_locked d)
    → IsSettled (run n (step n s c) later)
shutdown_wakes_all n s c later v lt at =
    run-IsSettled n (step n s c) later
      (subst IsSettled (sym (broadcast n s c v lt at)) (broadcast-IsSettled n s c v lt at))
