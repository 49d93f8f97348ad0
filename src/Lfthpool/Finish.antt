-- ===== src/Lfthpool/Finish.antt =====
-- src/threads/lfthpool.c: the tasks of an open pool are all executed, in any fair schedule.
use mathlib.Core.Path.{subst}
use native.Mathlib.Decide.{ℕ_discrete}
use libthreads.Prelude.{
  All, ℕ, ◌+◌, ◌-◌, ◌*◌, ◌<◌, ◌≤◌, ◌≡◌, ◌≢◌, ap, ◌∙◌, true, List, [], ◌∷◌, ◌++◌, none, some, arith,
  length, update_self, update_ne, Option-cases, inl, inr, total-eq-zero_below, append-nil,
}
use libthreads.Threads
use libthreads.Threads.{step_cases, step_either, run_keeps_all}
use libthreads.Lfthpool.Queue.{RingQueue}
use libthreads.Lfthpool.Ending.{turns}
use libthreads.Lfthpool.Invariant.{in_flight, Inv, run-Inv}
use libthreads.Lfthpool.Step.{
  chosen, thread_step, Lfthpool, Request, Luck, Pc, dequeuing, counting, executing, once_dequeuing,
  once_counting, once_executing, Choice, System, lfthpool_step, step, run,
}
use libthreads.Lfthpool.Nearer.{ahead, is_calm, queued}
use libthreads.Lfthpool.Fair.{IsOpen, local, step-IsOpen, lfthpool_queue_empties}

-- A thread's steps until it has executed the task that it has in its hands.
abbrev pub in_hand : Pc → ℕ
in_hand (counting _) = 2
in_hand (executing _) = 1
in_hand (once_counting _) = 2
in_hand (once_executing _) = 1
in_hand _ = 0

in_hand-le : (p : Pc) → in_hand p ≤ 2
in_hand-le p = ground arith

in_flight-none : (p : Pc) → in_hand p ≡ 0 → in_flight p ≡ 0
in_flight-none p e = ground arith

module _ {Q : Type 0} (queue : RingQueue Q) where
  taken_none : (m : Lfthpool Q) → queued queue m ≡ 0 → (queue.dequeue m.task_queue).1 ≡ none
  taken_none m empty = elim (Option-cases (queue.dequeue m.task_queue).1) [
    | inl nothing ↦ nothing
    | inr (t, took) ↦ absurd (ground (arith, queue.dequeue-some m.task_queue t took))
  ]

  less_in_hand :
      (i : ℕ) (r : Request) (l : Luck) (m : Lfthpool Q) (p : Pc) {m' : Lfthpool Q} {p' : Pc}
      → queued queue m ≡ 0
      → lfthpool_step queue i r l m p ≡ some (m', p')
      → in_hand p' ≤ in_hand p - 1
  unfolding lfthpool_step
  less_in_hand i r l m dequeuing empty e = ground (arith, taken_none m empty)
  less_in_hand i r l m once_dequeuing empty e = ground (arith, taken_none m empty)
  less_in_hand i r l m p empty e = ground arith

  in_hand-moves :
      (i : ℕ) (r : Request) (l : Luck) (m : Lfthpool Q) (p : Pc)
      → lfthpool_step queue i r l m p ≡ none
      → in_hand p ≡ 0
  unfolding lfthpool_step
  in_hand-moves i r l m p e = ground arith

  module _ (gives : (q : Q) → (queue.dequeue q).1 ≡ none → queue.contents q ≡ []) where
    -- The queue is empty, and thread `j` has at most `k` steps to make for a task in its hands.
    record Ends (j k : ℕ) (s : System Q) : Type 0 where
      still_open : IsOpen queue s
      empty : queued queue s.mem ≡ 0
      few : in_hand (s.thread j) ≤ k

    module _ (n : ℕ) (s : System Q) (c : Choice) (calm : is_calm c.request ≡ true) where
      empty_after :
          IsOpen queue s → queued queue s.mem ≡ 0 → queued queue (step queue n s c).mem ≡ 0
      unfolding step
      empty_after v empty =
          step_cases chosen (thread_step queue) (λ t. queued queue t.mem ≡ 0) n s c empty
            λ m p lt moved. omega (arith, (local queue gives s c calm v {p = p} moved).fewer, empty)

      other_step : (j k : ℕ) → c.i ≢ j → Ends j k s → Ends j k (step queue n s c)
      unfolding step
      other_step j k other v = record {
        still_open = step-IsOpen queue gives n s c calm v.still_open;
        empty = empty_after v.still_open v.empty;
        few =
            step_cases chosen (thread_step queue) (λ t. in_hand (t.thread j) ≤ k) n s c v.few
              λ m p lt moved. rw (update_ne s.thread c.i j p other) v.few;
      }

      own_step : (k : ℕ) → c.i < n → Ends c.i k s → Ends c.i (k - 1) (step queue n s c)
      unfolding step thread_step
      own_step k lt v = record {
        still_open = step-IsOpen queue gives n s c calm v.still_open;
        empty = empty_after v.still_open v.empty;
        few =
            step_either chosen (thread_step queue) (λ t. in_hand (t.thread c.i) ≤ k - 1) n s c lt
              (λ blocked.
                omega (arith, in_hand-moves c.i c.request c.luck s.mem (s.thread c.i) blocked))
              λ m p moved. rw (update_self s.thread c.i p) (
                omega (
                  arith,
                  v.few,
                  less_in_hand c.i c.request c.luck s.mem (s.thread c.i) {p' = p} v.empty moved,
                ));
      }

    module _ (n : ℕ) where
      hands_empty :
          (j k : ℕ) (s : System Q) (cs : List Choice)
          → j < n
          → Ends j k s
          → All (λ c. is_calm c.request ≡ true) cs
          → k ≤ turns j cs
          → in_hand ((run queue n s cs).thread j) ≡ 0
      unfolding run Threads.run step
      hands_empty j k s [] below v calm enough = omega (arith, v.few)
      hands_empty j k s (c ∷ cs) below v calm enough = elim (ℕ_discrete c.i j) [
        | yes own ↦
            hands_empty j (k - 1) (step queue n s c) cs below
              (subst (λ x. Ends x (k - 1) (step queue n s c)) own
                (own_step n s c calm.0 k (rw own below) (rw own v)))
              calm.1 (ground arith)
        | no other ↦
            hands_empty j k (step queue n s c) cs below (other_step n s c calm.0 j k other v) calm.1
              (ground arith)
      ]

      run-IsOpen :
          (s : System Q) (cs : List Choice)
          → IsOpen queue s
          → All (λ c. is_calm c.request ≡ true) cs
          → IsOpen queue (run queue n s cs)
      unfolding run step
      run-IsOpen s cs v calm =
          run_keeps_all chosen (thread_step queue) (IsOpen queue) (λ c. is_calm c.request ≡ true) n
            (λ t c quiet w. step-IsOpen queue gives n t c quiet w) s cs calm v

      all_executed :
          (s : System Q)
          → Inv queue n s
          → queue.contents s.mem.task_queue ≡ []
          → ((j : ℕ) → j < n → in_hand (s.thread j) ≡ 0)
          → s.mem.finished ≡ length s.mem.added
      all_executed s v empty free = omega (
        arith,
        v.ended,
        total-eq-zero_below in_flight n s.thread (λ j lt. in_flight-none (s.thread j) (free j lt)),
        ap length (v.logged ∙ ap (λ l. s.mem.started ++ l) empty ∙ append-nil s.mem.started),
      )

      run-empty_after :
          (s : System Q) (cs : List Choice)
          → IsOpen queue s
          → queued queue s.mem ≡ 0
          → All (λ c. is_calm c.request ≡ true) cs
          → queued queue (run queue n s cs).mem ≡ 0
      unfolding run step
      run-empty_after s cs v empty calm =
          (run_keeps_all chosen (thread_step queue) (λ t. IsOpen queue t × (queued queue t.mem ≡ 0))
            (λ c. is_calm c.request ≡ true) n
            (λ t c quiet (w, none_in).
              (step-IsOpen queue gives n t c quiet w, empty_after n t c quiet w none_in))
            s cs calm (v, empty)).1

      -- Over a first-in first-out queue whose `dequeue` gives nothing only where it is empty, in a
      -- pool that satisfies the invariant and is neither paused nor shut down, with no thread in a
      -- call that adds a task: let a schedule run in which one worker that has not returned is
      -- chosen six times for each queued task and as often as `ahead` says for its place, and after
      -- it one in which every thread is chosen twice, in which no thread calls `lfthpool_add_task`,
      -- `lfthpool_add_task_try`, `lfthpool_pause`, `lfthpool_shutdown` or `lfthpool_destroy`. Then
      -- the queue is empty, and as many tasks have been executed as were ever added.
      pub lfthpool_tasks_get_done :
          (w : ℕ) (s : System Q) (cs ds : List Choice)
          → w < n
          → Inv queue n s
          → IsOpen queue s
          → ahead (s.thread w) ≢ 0
          → All (λ c. is_calm c.request ≡ true) cs
          → All (λ c. is_calm c.request ≡ true) ds
          → 6 * length (queue.contents s.mem.task_queue) + ahead (s.thread w) ≤ turns w cs
          → ((j : ℕ) → j < n → 2 ≤ turns j ds)
          → let t = run queue n (run queue n s cs) ds in
            (queue.contents t.mem.task_queue ≡ []) × (t.mem.finished ≡ length t.mem.added)
      lfthpool_tasks_get_done w s cs ds below v open_ works calm calm' enough fair =
          let u = run queue n s cs in
          let open' = run-IsOpen s cs open_ calm in
          let emptied =
            ap length (lfthpool_queue_empties queue gives n w below s cs open_ works calm enough) in
          let empty : queue.contents (run queue n u ds).mem.task_queue ≡ [] =
            ground (arith, run-empty_after u ds open' emptied calm') in
          (
            empty,
            all_executed (run queue n u ds) (run-Inv queue n u ds (run-Inv queue n s cs v)) empty
                (λ j lt.
                  hands_empty j 2 u ds lt
                    (record { still_open = open'; empty = emptied; few = in_hand-le (u.thread j) })
                    calm' (fair j lt)),
          )
