-- ===== src/Thpool/System/Blocked.antt =====
-- The threads on the list of `notify_empty`.
use libthreads.Prelude.{ℕ, ◌<◌, ◌≡◌, ◌≢◌, true, List, some, arith, elem, update_each}
use libthreads.Waiters.{
  IsDistinct, elem-wake_one, wake_one-IsDistinct, elem-remove_all, elem-remove_all_self,
  remove_all-IsDistinct,
}
use libthreads.Thpool.Pool.{Pool}
use libthreads.Thpool.Shared.{Shared}
use libthreads.Thpool.Worker.{Luck, WorkerPc, found_empty, worker_step}
use libthreads.Thpool.Client.{Request, pause, ClientPc, idle, wait_blocked, client_step}
use libthreads.Thpool.System.{
  Thread, worker, client, Choice, System, thread_step, thread_step_cases, step, step_cases, run,
  run_keeps, initial,
}

record Before (i : ℕ) (m : Shared) (p : Thread) : Type 0 where
  distinct : IsDistinct m.notify_empty
  listed : elem i m.notify_empty ≡ true → p ≡ client wait_blocked

record After (i : ℕ) (m : Shared) (p : Thread) (m' : Shared) (p' : Thread) : Type 0 where
  distinct : IsDistinct m'.notify_empty
  listed : elem i m'.notify_empty ≡ true → p' ≡ client wait_blocked
  others : (j : ℕ) → j ≢ i → elem j m'.notify_empty ≡ true → elem j m.notify_empty ≡ true

worker_step-After :
    (i : ℕ) (l : Luck) (m : Shared) (p : WorkerPc) {m' : Shared} {p' : WorkerPc}
    → Before i m (worker p)
    → worker_step i l m p ≡ some (m', p')
    → After i m (worker p) m' (worker p')
unfolding worker_step
worker_step-After i l m found_empty b e = record {
  distinct = ground (arith, wake_one-IsDistinct l.waker m.notify_empty);
  listed = ground (arith, elem-wake_one l.waker i m.notify_empty);
  others = λ j other h. ground (arith, elem-wake_one l.waker j m.notify_empty);
}
worker_step-After i l m p b e = ground arith

client_step-After :
    (i : ℕ) (r : Request) (l : Luck) (m : Shared) (p : ClientPc) {m' : Shared} {p' : ClientPc}
    → Before i m (client p)
    → client_step i r l m p ≡ some (m', p')
    → After i m (client p) m' (client p')
unfolding client_step
client_step-After i r l m wait_blocked b e = record {
  distinct = ground (arith, remove_all-IsDistinct i m.notify_empty);
  listed = ground (arith, elem-remove_all_self i m.notify_empty);
  others = λ j other h. ground (arith, elem-remove_all i j m.notify_empty);
}
client_step-After i pause l m (idle _) b e = ground arith
client_step-After i _ l m (idle _) b e = ground arith
client_step-After i r l m p b e = ground arith

thread_step-After :
    (c : Choice) (m : Shared) (p : Thread) {m' : Shared} {p' : Thread}
    → Before c.i m p
    → thread_step c m p ≡ some (m', p')
    → After c.i m p m' p'
thread_step-After c m p b e =
    thread_step_cases (λ q m' q'. Before c.i m q → After c.i m q m' q') c m
      (λ w w' m' moved b. worker_step-After c.i c.luck m w b moved)
      (λ k k' m' moved b. client_step-After c.i c.request c.luck m k b moved) p e b

pub record Blocked (n : ℕ) (s : System) : Type 0 where
  pub distinct : IsDistinct s.mem.notify_empty
  pub listed :
      (j : ℕ) → elem j s.mem.notify_empty ≡ true → (j < n) × (s.thread j ≡ client wait_blocked)

pub step-Blocked : (n : ℕ) (s : System) (c : Choice) → Blocked n s → Blocked n (step n s c)
step-Blocked n s c v = step_cases (Blocked n) n s c v λ m p lt moved.
    let local =
      thread_step-After c s.mem (s.thread c.i)
        (record { distinct = v.distinct; listed = λ h. (v.listed c.i h).1 }) moved in
    record {
      distinct = local.distinct;
      listed =
          update_each (λ j q. elem j m.notify_empty ≡ true → (j < n) × (q ≡ client wait_blocked))
            s.thread c.i p (λ h. (lt, local.listed h))
            (λ j other h. v.listed j (local.others j other h));
    }

pub initial-Blocked : (n workers : ℕ) (p : Pool) → Blocked n (initial workers p)
initial-Blocked n workers p = record { distinct = tt; listed = λ j h. ground arith }

pub run-Blocked : (n : ℕ) (s : System) (cs : List Choice) → Blocked n s → Blocked n (run n s cs)
run-Blocked n = run_keeps (Blocked n) n (step-Blocked n)
