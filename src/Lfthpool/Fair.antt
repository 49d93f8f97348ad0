-- ===== src/Lfthpool/Fair.antt =====
-- src/threads/lfthpool.c: one worker that is chosen often enough empties the queue, in any
-- schedule.
use native.Mathlib.Decide.{ℕ_discrete}
use mathlib.Core.Path.{subst}
use libthreads.Prelude.{
  All, ℕ, ◌+◌, ◌-◌, ◌*◌, ◌<◌, ◌≤◌, ◌≡◌, ◌≢◌, ◌⊎◌, true, false, List, [], ◌∷◌, none, some, arith,
  length, update, update_each, update_self, update_ne, inl, inr,
}
use libthreads.Threads
use libthreads.Threads.{step_cases, step_either}
use libthreads.Lfthpool.Queue.{RingQueue}
use libthreads.Lfthpool.Ending.{turns}
use libthreads.Lfthpool.Step.{chosen, thread_step, Lfthpool, Pc, Choice, System, step, run}
use libthreads.Lfthpool.Nearer.{
  ahead, is_adding, is_calm, queued, After, lfthpool_step-After, ahead-moves,
}

module _ {Q : Type 0} (queue : RingQueue Q) where
  -- The pool is neither paused nor shut down, and no thread is in a call that adds a task.
  pub record IsOpen (s : System Q) : Type 0 where
    pub up : s.mem.shutdown ≢ 1
    pub open_ : s.mem.hold ≡ 0
    pub places : (j : ℕ) → is_adding (s.thread j) ≡ false

  module _ (gives : (q : Q) → (queue.dequeue q).1 ≡ none → queue.contents q ≡ []) where
    -- The queue is empty, or worker `w` has at most `k` steps to make until it is.
    record Nears (w k : ℕ) (s : System Q) : Type 0 where
      still_open : IsOpen s
      near :
          (queued queue s.mem ≡ 0)
          ⊎ ((ahead (s.thread w) ≢ 0) × (6 * queued queue s.mem + ahead (s.thread w) ≤ k))

    module _ (s : System Q) (c : Choice) (calm : is_calm c.request ≡ true) (v : IsOpen s)
        {m : Lfthpool Q} {p : Pc}
        (moved : thread_step queue c s.mem (s.thread c.i) ≡ some (m, p)) where
      pub local : After queue s.mem (s.thread c.i) m p
      unfolding thread_step
      local =
          lfthpool_step-After queue gives c.i c.request c.luck s.mem (s.thread c.i) calm
            (record { up = v.up; open_ = v.open_; place = v.places c.i }) moved

      pub IsOpen-after : IsOpen (record { mem = m; thread = update s.thread c.i p })
      IsOpen-after = record {
        up = local.up;
        open_ = local.open_;
        places =
            update_each (λ j q. is_adding q ≡ false) s.thread c.i p local.place
              (λ j other. v.places j);
      }

    pub step-IsOpen :
        (n : ℕ) (s : System Q) (c : Choice)
        → is_calm c.request ≡ true
        → IsOpen s
        → IsOpen (step queue n s c)
    unfolding step thread_step
    step-IsOpen n s c calm v =
        step_cases chosen (thread_step queue) IsOpen n s c v
          λ m p lt moved. IsOpen-after s c calm v moved

    module _ (n w k : ℕ) (s : System Q) (c : Choice) (calm : is_calm c.request ≡ true)
        (v : Nears w k s) where
      module _ {m : Lfthpool Q} {p : Pc}
          (moved : thread_step queue c s.mem (s.thread c.i) ≡ some (m, p)) where
        closer_near :
            (queued queue s.mem ≡ 0)
              ⊎ ((ahead (s.thread c.i) ≢ 0) × (6 * queued queue s.mem + ahead (s.thread c.i) ≤ k))
            → (queued queue m ≡ 0) ⊎ ((ahead p ≢ 0) × (6 * queued queue m + ahead p ≤ k - 1))
        closer_near near = elim (ℕ_discrete (queued queue m) 0) [
          | yes none_left ↦ inl none_left
          | no some_left ↦ elim near [
            | inl empty ↦ inl (omega (arith, (local s c calm v.still_open moved).fewer, empty))
            | inr (works, few) ↦
                let (still, less) = (local s c calm v.still_open moved).closer works some_left in
                inr (still, omega (arith, less, few))
          ]
        ]

      other_step : c.i ≢ w → Nears w k (step queue n s c)
      unfolding step
      other_step other = step_cases chosen (thread_step queue) (Nears w k) n s c v λ m p lt moved.
          record {
            still_open = IsOpen-after s c calm v.still_open moved;
            near =
                rw (update_ne s.thread c.i w p other)
                  (ground (arith, v.near, (local s c calm v.still_open {p = p} moved).fewer));
          }

    own_step :
        (n k : ℕ) (s : System Q) (c : Choice)
        → is_calm c.request ≡ true
        → c.i < n
        → Nears c.i k s
        → Nears c.i (k - 1) (step queue n s c)
    unfolding step thread_step
    own_step n k s c calm lt v =
        step_either chosen (thread_step queue) (Nears c.i (k - 1)) n s c lt
          (λ blocked. record {
            still_open = v.still_open;
            near = ground (
              arith,
              v.near,
              ahead-moves queue gives c.i c.request c.luck s.mem (s.thread c.i) blocked,
            );
          })
          λ m p moved. record {
            still_open = IsOpen-after s c calm v.still_open moved;
            near = rw (update_self s.thread c.i p) (closer_near n c.i k s c calm v moved v.near);
          }

    module _ (n w : ℕ) (here : w < n) where
      nears :
          (k : ℕ) (s : System Q) (cs : List Choice)
          → Nears w k s
          → All (λ c. is_calm c.request ≡ true) cs
          → k ≤ turns w cs
          → queued queue (run queue n s cs).mem ≡ 0
      unfolding run Threads.run step
      nears k s [] v calm enough = ground (arith, v.near)
      nears k s (c ∷ cs) v calm enough = elim (ℕ_discrete c.i w) [
        | yes own ↦
            nears (k - 1) (step queue n s c) cs
              (subst (λ x. Nears x (k - 1) (step queue n s c)) own
                (own_step n k s c calm.0 (rw own here) (rw own v)))
              calm.1 (ground arith)
        | no other ↦
            nears k (step queue n s c) cs (other_step n w k s c calm.0 v other) calm.1
              (ground arith)
      ]

      -- Over a first-in first-out queue whose `dequeue` gives nothing only where it is empty, in a
      -- pool that is neither paused nor shut down, with no thread in a call that adds a task: after
      -- any schedule in which no thread calls `lfthpool_add_task`, `lfthpool_add_task_try`,
      -- `lfthpool_pause`, `lfthpool_shutdown` or `lfthpool_destroy`, and in which one worker that
      -- has not returned is chosen six times for each queued task and as often as `ahead` says for
      -- its place, the queue is empty, whatever the other threads do in between.
      pub lfthpool_queue_empties :
          (s : System Q) (cs : List Choice)
          → IsOpen s
          → ahead (s.thread w) ≢ 0
          → All (λ c. is_calm c.request ≡ true) cs
          → 6 * length (queue.contents s.mem.task_queue) + ahead (s.thread w) ≤ turns w cs
          → queue.contents (run queue n s cs).mem.task_queue ≡ []
      lfthpool_queue_empties s cs open_ works calm enough = ground (
        arith,
        nears (6 * queued queue s.mem + ahead (s.thread w)) s cs
            (record { still_open = open_; near = inr (works, omega arith) }) calm enough,
      )
