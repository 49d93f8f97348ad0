-- ===== src/Thpool/System/Sleepers.antt =====
-- The threads on the list of `notify`, those that have returned, and the one that holds the mutex.
use libthreads.Prelude.{ℕ, ◌<◌, ◌≡◌, ◌≢◌, true, some, arith, elem, update, update_each}
use libthreads.Waiters.{
  IsDistinct, elem-wake_one, wake_one-IsDistinct, elem-remove_all, elem-remove_all_self,
  remove_all-IsDistinct,
}
use libthreads.Thpool.Pool.{Pool}
use libthreads.Thpool.Shared.{Shared}
use libthreads.Thpool.Worker.{Luck, WorkerPc, waiting, returned, worker_step}
use libthreads.Thpool.Client.{
  Request, pause, ClientPc, idle, add_locked, adding_locked, resume_locked, client_step,
}
use libthreads.Thpool.System.{
  Thread, worker, client, Choice, System, thread_step, thread_step_cases, step, step_cases, initial,
}
use libthreads.Thpool.System.Views.{holds}
use libthreads.Thpool.System.Invariant.{Inv, moved-After}

record Before (i : ℕ) (m : Shared) (p : Thread) : Type 0 where
  distinct : IsDistinct m.notify
  listed : elem i m.notify ≡ true → p ≡ worker waiting
  holding : m.owner ≡ some i → holds p ≡ true

record After (i : ℕ) (m : Shared) (p : Thread) (m' : Shared) (p' : Thread) : Type 0 where
  distinct : IsDistinct m'.notify
  listed : elem i m'.notify ≡ true → p' ≡ worker waiting
  ended : p' ≡ worker returned → m'.pool.shutdown ≡ 1
  holding : m'.owner ≡ some i → holds p' ≡ true

worker_step-After :
    (i : ℕ) (l : Luck) (m : Shared) (p : WorkerPc) {m' : Shared} {p' : WorkerPc}
    → Before i m (worker p)
    → worker_step i l m p ≡ some (m', p')
    → After i m (worker p) m' (worker p')
unfolding worker_step
worker_step-After i l m waiting b e =
    ground (arith, remove_all-IsDistinct i m.notify, elem-remove_all_self i m.notify)
worker_step-After i l m p b e = ground arith

client_step-After :
    (i : ℕ) (r : Request) (l : Luck) (m : Shared) (p : ClientPc) {m' : Shared} {p' : ClientPc}
    → Before i m (client p)
    → client_step i r l m p ≡ some (m', p')
    → After i m (client p) m' (client p')
unfolding client_step
client_step-After i r l m (add_locked t) b e =
    ground (arith, wake_one-IsDistinct l.waker m.notify, elem-wake_one l.waker i m.notify)
client_step-After i r l m (adding_locked t k) b e =
    ground (arith, wake_one-IsDistinct l.waker m.notify, elem-wake_one l.waker i m.notify)
client_step-After i r l m resume_locked b e =
    ground (arith, wake_one-IsDistinct l.waker m.notify, elem-wake_one l.waker i m.notify)
client_step-After i pause l m (idle _) b e = ground arith
client_step-After i _ l m (idle _) b e = ground arith
client_step-After i r l m p b e = ground arith

-- What a step does to the other threads: it adds none to the list, and hands none the mutex.
pub record Others (i j : ℕ) (m m' : Shared) : Type 0 where
  pub listed : elem j m'.notify ≡ true → elem j m.notify ≡ true
  pub holding : m'.owner ≡ some j → m.owner ≡ some j

worker_step-Others :
    (i : ℕ) (l : Luck) (m : Shared) (p : WorkerPc) {m' : Shared} {p' : WorkerPc} (j : ℕ)
    → j ≢ i
    → worker_step i l m p ≡ some (m', p')
    → Others i j m m'
unfolding worker_step
worker_step-Others i l m waiting j other e = ground (arith, elem-remove_all i j m.notify)
worker_step-Others i l m p j other e = ground arith

client_step-Others :
    (i : ℕ) (r : Request) (l : Luck) (m : Shared) (p : ClientPc) {m' : Shared} {p' : ClientPc}
    (j : ℕ)
    → j ≢ i
    → client_step i r l m p ≡ some (m', p')
    → Others i j m m'
unfolding client_step
client_step-Others i r l m (add_locked t) j other e =
    ground (arith, elem-wake_one l.waker j m.notify)
client_step-Others i r l m (adding_locked t k) j other e =
    ground (arith, elem-wake_one l.waker j m.notify)
client_step-Others i r l m resume_locked j other e =
    ground (arith, elem-wake_one l.waker j m.notify)
client_step-Others i pause l m (idle _) j other e = ground arith
client_step-Others i _ l m (idle _) j other e = ground arith
client_step-Others i r l m p j other e = ground arith

thread_step-After :
    (c : Choice) (m : Shared) (p : Thread) {m' : Shared} {p' : Thread}
    → Before c.i m p
    → thread_step c m p ≡ some (m', p')
    → After c.i m p m' p'
thread_step-After c m p b e =
    thread_step_cases (λ q m' q'. Before c.i m q → After c.i m q m' q') c m
      (λ w w' m' moved b. worker_step-After c.i c.luck m w b moved)
      (λ k k' m' moved b. client_step-After c.i c.request c.luck m k b moved) p e b

thread_step-Others :
    (c : Choice) (m : Shared) (p : Thread) {m' : Shared} {p' : Thread} (j : ℕ)
    → j ≢ c.i
    → thread_step c m p ≡ some (m', p')
    → Others c.i j m m'
thread_step-Others c m p j other =
    thread_step_cases (λ q m' q'. Others c.i j m m') c m
      (λ w w' m' moved. worker_step-Others c.i c.luck m w {p' = w'} j other moved)
      (λ k k' m' moved. client_step-Others c.i c.request c.luck m k {p' = k'} j other moved) p

pub record Sleepers (n : ℕ) (s : System) : Type 0 where
  pub distinct : IsDistinct s.mem.notify
  pub listed : (j : ℕ) → elem j s.mem.notify ≡ true → (j < n) × (s.thread j ≡ worker waiting)
  pub ended : (j : ℕ) → s.thread j ≡ worker returned → s.mem.pool.shutdown ≡ 1
  pub holding : (j : ℕ) → s.mem.owner ≡ some j → (j < n) × (holds (s.thread j) ≡ true)

module _ {n : ℕ} {s : System} (w : Inv n s) (v : Sleepers n s) (c : Choice) (lt : c.i < n)
    {m : Shared} {p : Thread} (moved : thread_step c s.mem (s.thread c.i) ≡ some (m, p)) where
  local : After c.i s.mem (s.thread c.i) m p
  local =
      thread_step-After c s.mem (s.thread c.i)
        (record {
          distinct = v.distinct;
          listed = λ h. (v.listed c.i h).1;
          holding = λ h. (v.holding c.i h).1;
        })
        moved

  pub Others-kept : (j : ℕ) → j ≢ c.i → Others c.i j s.mem m
  Others-kept j other = thread_step-Others c s.mem (s.thread c.i) {p' = p} j other moved

  -- What holds of the thread that has moved and of those that have not holds of all.
  each :
      (P : ℕ → Thread → Type 0)
      → P c.i p
      → ((j : ℕ) → j ≢ c.i → P j (s.thread j))
      → (j : ℕ) → P j (update s.thread c.i p j)
  each P = update_each P s.thread c.i p

  after-Sleepers : Sleepers n (record { mem = m; thread = update s.thread c.i p })
  after-Sleepers = record {
    distinct = local.distinct;
    listed =
        each (λ j q. elem j m.notify ≡ true → (j < n) × (q ≡ worker waiting))
          (λ h. (lt, local.listed h)) (λ j other h. v.listed j ((Others-kept j other).listed h));
    ended =
        each (λ j q. q ≡ worker returned → m.pool.shutdown ≡ 1) local.ended
          (λ j other h. (moved-After w c lt moved).kept_flag (v.ended j h));
    holding =
        each (λ j q. m.owner ≡ some j → (j < n) × (holds q ≡ true)) (λ h. (lt, local.holding h))
          (λ j other h. v.holding j ((Others-kept j other).holding h));
  }

pub step-Sleepers :
    (n : ℕ) (s : System) (c : Choice) → Inv n s → Sleepers n s → Sleepers n (step n s c)
step-Sleepers n s c w v =
    step_cases (Sleepers n) n s c v λ m p lt moved. after-Sleepers w v c lt moved

pub initial-Sleepers : (n workers : ℕ) (p : Pool) → Sleepers n (initial workers p)
initial-Sleepers n workers p = record {
  distinct = tt;
  listed = λ j h. ground arith;
  ended = λ j h. ground arith;
  holding = λ j h. ground arith;
}
