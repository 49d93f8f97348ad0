-- ===== src/Lfthpool/Refinement.antt =====
-- The pool of src/threads/lfthpool.c against a queue: what each step does to the queued tasks, and
-- what becomes of the task that it adds or takes.
use libthreads.Prelude.{
  ℕ, ◌<◌, ◌≡◌, ◌≢◌, refl, ◌⊎◌, inl, inr, List, [], ◌∷◌, ◌++◌, Option, none, some, arith,
  Option-cases, ℤ, pos, update_self,
}
use libthreads.Thpool.Pool.{Task}
use libthreads.Lfthpool.Queue.{RingQueue, Qerr, qerr_ok, qerr_full, qerr_other}
use libthreads.Threads.{step_either}
use libthreads.Lfthpool.Step.{
  chosen, thread_step, Lfthpool, Request, Luck, Pc, dequeuing, counting, executing, adding, trying,
  once_dequeuing, once_counting, once_executing, idle, code, Choice, System, lfthpool_step, step,
}

-- The task that a thread is to add, and the one that it has taken and is to execute.
abbrev pub offered : Pc → Option Task
offered (adding t) = some t
offered (trying t _) = some t
offered _ = none

abbrev pub in_hand : Pc → Option Task
in_hand (counting t) = some t
in_hand (executing t) = some t
in_hand (once_counting t) = some t
in_hand (once_executing t) = some t
in_hand _ = none

-- `return 0` of a call that adds a task.
abbrev pub success : Pc
success = idle (code (pos 0) none)

-- A step from `p` to `p'` over the queued tasks `q`, which leaves `q'`, with the tasks executed
-- before it and after it: a call that adds a task returns 0 exactly if the task stands last in the
-- queue; the oldest task leaves the queue into the hands of the thread, and leaves these only into
-- the log of the tasks executed.
pub data Serves (p : Pc) (q done : List Task) (p' : Pc) (q' done' : List Task) : Type 0 where
  offers :
      (t : Task)
      → offered p ≡ some t
      → p' ≡ success
      → q' ≡ q ++ t ∷ []
      → done' ≡ done
      → Serves p q done p' q' done'
  refuses :
      (t : Task)
      → offered p ≡ some t
      → p' ≢ success
      → q' ≡ q
      → done' ≡ done
      → Serves p q done p' q' done'
  polls :
      (t : Task)
      → in_hand p ≡ none
      → in_hand p' ≡ some t
      → q ≡ t ∷ q'
      → done' ≡ done
      → Serves p q done p' q' done'
  executes :
      (t : Task)
      → in_hand p ≡ some t
      → in_hand p' ≡ none
      → q' ≡ q
      → done' ≡ done ++ t ∷ []
      → Serves p q done p' q' done'
  other :
      offered p ≡ none
      → in_hand p' ≡ in_hand p
      → q' ≡ q
      → done' ≡ done
      → Serves p q done p' q' done'

module _ {Q : Type 0} (queue : RingQueue Q) where
  abbrev pub ServesStep : Lfthpool Q → Pc → Lfthpool Q → Pc → Type 0
  ServesStep m p m' p' =
      Serves p (queue.contents m.task_queue) m.executed p' (queue.contents m'.task_queue)
        m'.executed

  module _ (i : ℕ) (r : Request) (l : Luck) (m : Lfthpool Q)
      (other_codes : (t : Task) → (queue.enqueue m.task_queue t).1 ≢ qerr_other (pos 0)) where
    adding-Serves :
        (t : Task) (answer : Qerr)
        → (queue.enqueue m.task_queue t).1 ≡ answer
        → {m' : Lfthpool Q} {p' : Pc} → lfthpool_step queue i r l m (adding t) ≡ some (m', p')
        → ServesStep m (adding t) m' p'
    unfolding lfthpool_step
    adding-Serves t qerr_ok ok e =
        offers t refl (ground arith) (ground (arith, queue.enqueue-ok m.task_queue t))
          (ground arith)
    adding-Serves t qerr_full refused e =
        refuses t refl (ground arith)
          (ground (arith, queue.enqueue-refused m.task_queue t (λ ok. cc))) (ground arith)
    adding-Serves t (qerr_other x) refused e =
        refuses t refl (ground arith)
          (ground (arith, queue.enqueue-refused m.task_queue t (λ ok. cc))) (ground arith)

    trying-Serves :
        (t : Task) (k : ℤ) (answer : Qerr)
        → (queue.enqueue m.task_queue t).1 ≡ answer
        → {m' : Lfthpool Q} {p' : Pc} → lfthpool_step queue i r l m (trying t k) ≡ some (m', p')
        → ServesStep m (trying t k) m' p'
    unfolding lfthpool_step
    trying-Serves t k qerr_ok ok e =
        offers t refl (ground arith) (ground (arith, queue.enqueue-ok m.task_queue t))
          (ground arith)
    trying-Serves t k qerr_full refused e =
        refuses t refl (ground arith)
          (ground (arith, queue.enqueue-refused m.task_queue t (λ ok. cc))) (ground arith)
    trying-Serves t k (qerr_other x) refused e =
        refuses t refl (ground (arith, other_codes t))
          (ground (arith, queue.enqueue-refused m.task_queue t (λ ok. cc))) (ground arith)

    lfthpool_step-Serves :
        (p : Pc) {m' : Lfthpool Q} {p' : Pc}
        → lfthpool_step queue i r l m p ≡ some (m', p')
        → ServesStep m p m' p'
    unfolding lfthpool_step
    lfthpool_step-Serves dequeuing e = elim (Option-cases (queue.dequeue m.task_queue).1) [
      | inl nothing ↦
          other refl (ground arith) (ground (arith, queue.dequeue-none m.task_queue)) (ground arith)
      | inr (t, took) ↦
          polls t refl (ground arith) (ground (arith, queue.dequeue-some m.task_queue t))
            (ground arith)
    ]
    lfthpool_step-Serves once_dequeuing e = elim (Option-cases (queue.dequeue m.task_queue).1) [
      | inl nothing ↦
          other refl (ground arith) (ground (arith, queue.dequeue-none m.task_queue)) (ground arith)
      | inr (t, took) ↦
          polls t refl (ground arith) (ground (arith, queue.dequeue-some m.task_queue t))
            (ground arith)
    ]
    lfthpool_step-Serves (adding t) e = adding-Serves t (queue.enqueue m.task_queue t).1 refl e
    lfthpool_step-Serves (trying t k) e = trying-Serves t k (queue.enqueue m.task_queue t).1 refl e
    lfthpool_step-Serves (executing t) e =
        executes t refl (ground arith) (ground arith) (ground arith)
    lfthpool_step-Serves (once_executing t) e =
        executes t refl (ground arith) (ground arith) (ground arith)
    lfthpool_step-Serves p e = other (ground arith) (ground arith) (ground arith) (ground arith)

  -- Over any queue that is first in, first out, and whose other error codes are not the value 0,
  -- which is that of QERR_OK: in any state of the pool, a thread that is chosen is blocked or has
  -- returned, and nothing changes; or it adds its task at the end of the queue and its call returns
  -- 0; or the queue refuses the task, and the call does not return 0 in this step; or it takes the
  -- oldest task into its hands; or it executes the task that it has in its hands; or it changes
  -- neither the queue, nor what it has in its hands, nor which tasks have been executed.
  pub lfthpool_refines_queue :
      ((q : Q) (t : Task) → (queue.enqueue q t).1 ≢ qerr_other (pos 0))
      → (n : ℕ) (s : System Q) (c : Choice) → c.i < n
      → let u = step queue n s c in (u ≡ s) ⊎ ServesStep s.mem (s.thread c.i) u.mem (u.thread c.i)
  unfolding step thread_step
  lfthpool_refines_queue codes n s c lt =
      step_either chosen (thread_step queue)
        (λ u. (u ≡ s) ⊎ ServesStep s.mem (s.thread c.i) u.mem (u.thread c.i)) n s c lt
        (λ blocked. inl refl)
        λ m p moved. inr (
          rw (update_self s.thread c.i p) (
            lfthpool_step-Serves c.i c.request c.luck s.mem (codes s.mem.task_queue) (s.thread c.i)
              {m' = m} {p' = p} moved))
