-- ===== src/Lfthpool/Queue.antt =====
-- The queue that src/threads/lfthpool.c takes from another library, <concurrent/mpmc_ring_queue.h>:
-- the calls that it makes, and what it relies on.
use libthreads.Prelude.{ℕ, ◌≡◌, ◌≢◌, List, [], ◌∷◌, ◌++◌, Option, none, some, ℤ, length}
use libthreads.Thpool.Pool.{Task}

-- `qerr_t`: `QERR_OK`, `QERR_FULL`, or another of its values.
pub data Qerr : Type 0 where
  qerr_ok qerr_full : Qerr
  qerr_other : ℤ → Qerr

-- A queue holds tasks, first in first out. Each call is one atomic step.
pub record RingQueue (Q : Type 0) : Type 0 where
  pub enqueue : Q → Task → Q × Qerr
  pub dequeue : Q → Q × Option Task
  pub len_relaxed : Q → ℕ
  pub contents : Q → List Task
  pub enqueue-ok :
      (q : Q) (t : Task)
      → (enqueue q t).1 ≡ qerr_ok
      → contents (enqueue q t).0 ≡ contents q ++ t ∷ []
  pub enqueue-refused :
      (q : Q) (t : Task) → (enqueue q t).1 ≢ qerr_ok → contents (enqueue q t).0 ≡ contents q
  pub dequeue-some :
      (q : Q) (t : Task) → (dequeue q).1 ≡ some t → contents q ≡ t ∷ contents (dequeue q).0
  pub dequeue-none : (q : Q) → (dequeue q).1 ≡ none → contents (dequeue q).0 ≡ contents q
  pub len-contents : (q : Q) → len_relaxed q ≡ length (contents q)
