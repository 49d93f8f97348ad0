-- ===== src/Lfthpool/AddTry.antt =====
-- src/threads/lfthpool.c: `lfthpool_add_task_try` on a queue that stays full.
use libthreads.Prelude.{
  ℕ, zero, suc, ◌<◌, ◌≡◌, List, [], ◌∷◌, some, ℤ, pos, negsuc, minus_one, eagain,
}
use libthreads.Thpool.Pool.{Task}
use libthreads.Lfthpool.Queue.{RingQueue, qerr_full}
use libthreads.Lfthpool.Step.{Lfthpool, code, idle, Choice, System}

-- The steps of a number of attempts that fail, and of the sleeps after all but the last.
abbrev pub attempts : Choice → ℕ → List Choice
attempts c zero = c ∷ []
attempts c (suc k) = c ∷ c ∷ attempts c k

-- The number of attempts after the first.
abbrev pub retries : ℤ → ℕ
retries (pos k) = suc k
retries (negsuc _) = 0

module _ {Q : Type 0} (queue : RingQueue Q) (n : ℕ) (c : Choice) (here : c.i < n) (t : Task)
    (tasks : List Task)
    (full : (q : Q) → queue.contents q ≡ tasks → (queue.enqueue q t).1 ≡ qerr_full) where
  -- What an attempt on the full queue changes: nothing but the queue's own representation.
  record GaveUp (m : Lfthpool Q) (u : System Q) : Type 0 where
    place : u.thread c.i ≡ idle (code minus_one (some eagain))
    same_tasks : queue.contents u.mem.task_queue ≡ tasks
    same_log : u.mem.added ≡ m.added
