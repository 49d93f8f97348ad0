-- ===== src/Thpool/System.antt =====
-- src/threads/thpool.c: a pool with its workers and the threads that call it, in any interleaving.
pub mod Views
pub mod Steps
pub mod Invariant
pub mod Safety
pub mod Alone
pub mod Calls
pub mod Progress
pub mod LostWakeup
pub mod Shutdown
pub mod Exits
pub mod Join
pub mod OneClose
pub mod Destroy
pub mod Refinement
pub mod Sleepers
pub mod Awake
pub mod Rest
pub mod Completion
pub mod Paused
pub mod Waiting
pub mod Once
pub mod Blocked
pub mod Weight
pub mod Settle
pub mod Rounds
pub mod Finish
use mathlib.Core.Path.{subst₂}
use libthreads.Prelude.{
  All, ℕ, ◌<◌, Bool, List, [], ◌∷◌, Option, none, some, ◌==◌, ◌≡◌, ◌≢◌, ◌∙◌, ap, sym, update_self,
  inl, inr, true, false, arith, if◌then◌else◌, ltb, Bool-cases, Option-cases, update,
}
use libthreads.Threads
use libthreads.Thpool.Pool.{Pool}
use libthreads.Thpool.Shared.{Shared}
use libthreads.Thpool.Worker.{Luck, WorkerPc, locking, worker_step}
use libthreads.Thpool.Client.{Request, nothing_yet, ClientPc, idle, client_step}

pub data Thread : Type 0 where
  worker : WorkerPc → Thread
  client : ClientPc → Thread

-- Thread `i` makes the step; an idle client calls `request`.
pub record Choice : Type 0 where
  pub i : ℕ
  pub request : Request
  pub luck : Luck

unfoldable pub thread_step : Choice → Shared → Thread → Option (Shared × Thread)
thread_step c m (worker p) = elim (worker_step c.i c.luck m p) [
  | none ↦ none
  | some (m', p') ↦ some (m', worker p')
]
thread_step c m (client p) = elim (client_step c.i c.request c.luck m p) [
  | none ↦ none
  | some (m', p') ↦ some (m', client p')
]

abbrev pub chosen : Choice → ℕ
chosen c = c.i

abbrev pub System : Type 0
System = Threads.System Shared Thread

unfoldable pub step : ℕ → System → Choice → System
step = Threads.step chosen thread_step

unfoldable pub run : ℕ → System → List Choice → System
run = Threads.run chosen thread_step

-- What holds of every step of a worker and of a client holds of every step of a thread.
pub thread_step_cases {ℓ} :
    (P : Thread → Shared → Thread → Type ℓ) (c : Choice) (m : Shared)
    → ((w w' : WorkerPc) (m' : Shared)
        → worker_step c.i c.luck m w ≡ some (m', w')
        → P (worker w) m' (worker w'))
    → ((k k' : ClientPc) (m' : Shared)
        → client_step c.i c.request c.luck m k ≡ some (m', k')
        → P (client k) m' (client k'))
    → (p : Thread) {m' : Shared} {p' : Thread} → thread_step c m p ≡ some (m', p')
    → P p m' p'
unfolding thread_step
thread_step_cases P c m by_worker by_client (worker w) e =
    elim (Option-cases (worker_step c.i c.luck m w)) [
      | inl blocked ↦ ground arith
      | inr ((m₁, w₁), moved) ↦
          subst₂ (P (worker w)) {x = m₁} {u = worker w₁} (ground arith) (ground arith)
            (by_worker w w₁ m₁ moved)
    ]
thread_step_cases P c m by_worker by_client (client k) e =
    elim (Option-cases (client_step c.i c.request c.luck m k)) [
      | inl blocked ↦ ground arith
      | inr ((m₁, k₁), moved) ↦
          subst₂ (P (client k)) {x = m₁} {u = client k₁} (ground arith) (ground arith)
            (by_client k k₁ m₁ moved)
    ]

-- What holds of any threads, at those of a pool.
pub step_cases {ℓ} :
    (P : System → Type ℓ) (n : ℕ) (s : System) (c : Choice)
    → P s
    → ((m : Shared) (p : Thread)
        → c.i < n
        → thread_step c s.mem (s.thread c.i) ≡ some (m, p)
        → P (record { mem = m; thread = update s.thread c.i p }))
    → P (step n s c)
unfolding step
step_cases = Threads.step_cases chosen thread_step

pub run_keeps {ℓ} :
    (I : System → Type ℓ) (n : ℕ)
    → ((s : System) (c : Choice) → I s → I (step n s c))
    → (s : System) (cs : List Choice) → I s
    → I (run n s cs)
unfolding step run
run_keeps = Threads.run_keeps chosen thread_step

pub run_keeps_all {ℓ κ} :
    (I : System → Type ℓ) (Ok : Choice → Type κ) (n : ℕ)
    → ((s : System) (c : Choice) → Ok c → I s → I (step n s c))
    → (s : System) (cs : List Choice) → All Ok cs
    → I s
    → I (run n s cs)
unfolding step run
run_keeps_all = Threads.run_keeps_all chosen thread_step

-- A thread that stands at `q` after its step, and did not before, has moved there.
pub step_to {ℓ} :
    (P : Shared → Type ℓ) (n : ℕ) (s : System) (c : Choice) (q : Thread)
    → s.thread c.i ≢ q
    → ((m : Shared) → thread_step c s.mem (s.thread c.i) ≡ some (m, q) → P m)
    → (step n s c).thread c.i ≡ q
    → P (step n s c).mem
step_to P n s c q away move =
    step_cases (λ t. t.thread c.i ≡ q → P t.mem) n s c (λ e. absurd (away e))
      λ m p lt moved e.
        move m (moved ∙ ap (λ x. some (m, x)) (sym (update_self s.thread c.i p) ∙ e))

-- A pool on which no call was made: its workers, the first `workers` threads, have just started.
abbrev pub initial : ℕ → Pool → System
initial workers p = record {
  mem = record {
    pool = p;
    owner = none;
    notify = [];
    notify_empty = [];
    exited = [];
    freed = false;
    added = [];
    started = [];
    executed = [];
    finished = 0;
    joins = [];
  };
  thread = λ i. if ltb i workers then worker locking else client (idle nothing_yet);
}
