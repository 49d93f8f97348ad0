-- ===== src/Lfthpool/Closing.antt =====
-- src/threads/lfthpool.c: a shutdown comes to an end, in any fair schedule.
use mathlib.Core.Path.{subst}
use native.Mathlib.Decide.{ℕ_discrete}
use libthreads.Prelude.{
  All, ℕ, ◌+◌, ◌-◌, ◌<◌, ◌≤◌, ◌≡◌, ◌≢◌, ap, true, List, [], ◌∷◌, none, some, arith, elem, suc, ◌*◌,
  each_once, update_self, update_ne,
}
use libthreads.Threads
use libthreads.Threads.{step_cases, step_either, run_keeps}
use libthreads.Lfthpool.Queue.{RingQueue}
use libthreads.Lfthpool.Create.{IsNew}
use libthreads.Lfthpool.Ending.{left, flag_kept, turns, lfthpool_worker_returns}
use libthreads.Lfthpool.Kinds.{exited_kept, Kinds, run-Kinds, initial-Kinds}
use libthreads.Lfthpool.Join.{AllExited, Handle, Joined}
use libthreads.Lfthpool.Shutdown.{JoinInv, step-JoinInv, run-JoinInv, initial-JoinInv}
use libthreads.Lfthpool.Step.{
  chosen, thread_step, Lfthpool, Request, shutdown, destroy, Luck, Pc, returned, joining,
  join_waiting, join_clearing, freeing, idle, Choice, System, lfthpool_step, step, run, initial,
}

-- A thread's steps until `lfthpool_shutdown` or `lfthpool_destroy` has returned, once all workers
-- have, in a pool of `count` workers.
abbrev pub to_join : ℕ → Pc → ℕ
to_join count (joining _ k) = 3 * (count - k) + 2
to_join count (join_waiting _ k _) = 3 * (count - suc k) + 4
to_join count (join_clearing _ k) = 3 * (count - suc k) + 3
to_join count freeing = 1
to_join count _ = 0

-- A call that does not shut the pool down.
abbrev pub KeepsOpen : Choice → Type 0
KeepsOpen c = (c.request ≢ shutdown) × (c.request ≢ destroy)

module _ {Q : Type 0} (queue : RingQueue Q) where
  less_to_join :
      (i : ℕ) (r : Request) (l : Luck) (m : Lfthpool Q) (p : Pc) {m' : Lfthpool Q} {p' : Pc}
      → (r ≢ shutdown) × (r ≢ destroy)
      → lfthpool_step queue i r l m p ≡ some (m', p')
      → to_join m.thread_count p' ≤ to_join m.thread_count p - 1
  unfolding lfthpool_step
  less_to_join i r l m (idle x) keeps e = ground arith
  less_to_join i r l m p keeps e = ground arith

  -- A thread that joins workers that have returned is not blocked.
  to_join-moves :
      (i : ℕ) (r : Request) (l : Luck) (m : Lfthpool Q) (p : Pc)
      → ((x : ℕ) → x < m.thread_count → Handle m x)
      → AllExited m.thread_count m
      → Joined m p
      → lfthpool_step queue i r l m p ≡ none
      → to_join m.thread_count p ≡ 0
  unfolding lfthpool_step
  to_join-moves i r l m (joining d k) handles exited j e = ground (arith, handles k)
  to_join-moves i r l m (join_waiting d k w) handles exited j e =
      absurd (ground (arith, exited k j.0, j.2))
  to_join-moves i r l m p handles exited j e = ground arith

  -- All workers have returned, and thread `j` has at most `k` steps to make in its shutdown.
  record Closes (workers j k : ℕ) (s : System Q) : Type 0 where
    joins : JoinInv queue workers s
    exited : AllExited workers s.mem
    few : to_join workers (s.thread j) ≤ k

  module _ (workers n : ℕ) (s : System Q) (c : Choice) (keeps : KeepsOpen c) where
    step-AllExited : AllExited workers s.mem → AllExited workers (step queue n s c).mem
    unfolding step thread_step
    step-AllExited v x below =
        step_cases chosen (thread_step queue) (λ t. elem x t.mem.exited ≡ true) n s c (v x below)
          λ m p lt moved.
            exited_kept queue c.i c.request c.luck s.mem (s.thread c.i) {p' = p} x moved (v x below)

    other_step : (j k : ℕ) → c.i ≢ j → Closes workers j k s → Closes workers j k (step queue n s c)
    unfolding step
    other_step j k other v = record {
      joins = step-JoinInv queue n s c v.joins;
      exited = step-AllExited v.exited;
      few =
          step_cases chosen (thread_step queue) (λ t. to_join workers (t.thread j) ≤ k) n s c v.few
            λ m p lt moved. rw (update_ne s.thread c.i j p other) v.few;
    }

    own_step :
        (k : ℕ) → c.i < n → Closes workers c.i k s → Closes workers c.i (k - 1) (step queue n s c)
    unfolding step thread_step
    own_step k lt v = record {
      joins = step-JoinInv queue n s c v.joins;
      exited = step-AllExited v.exited;
      few =
          step_either chosen (thread_step queue) (λ t. to_join workers (t.thread c.i) ≤ k - 1) n s c
            lt
            (λ blocked. omega (
              arith,
              v.joins.count,
              subst (λ w. to_join w (s.thread c.i) ≡ 0) v.joins.count
                  (to_join-moves c.i c.request c.luck s.mem (s.thread c.i)
                    (λ x below. v.joins.handle x (omega (arith, v.joins.count)))
                    (λ x below. v.exited x (omega (arith, v.joins.count))) (v.joins.joined c.i)
                    blocked),
            ))
            λ m p moved. rw (update_self s.thread c.i p) (
              omega (
                arith,
                v.few,
                subst (λ w. to_join w p ≤ to_join w (s.thread c.i) - 1) v.joins.count
                    (less_to_join c.i c.request c.luck s.mem (s.thread c.i) {m' = m} keeps moved),
              ));
    }

  closes :
      (workers n j k : ℕ) (s : System Q) (cs : List Choice)
      → j < n
      → Closes workers j k s
      → All KeepsOpen cs
      → k ≤ turns j cs
      → to_join workers ((run queue n s cs).thread j) ≡ 0
  unfolding run Threads.run step
  closes workers n j k s [] below v keeps enough = omega (arith, v.few)
  closes workers n j k s (c ∷ cs) below v keeps enough = elim (ℕ_discrete c.i j) [
    | yes own ↦
        closes workers n j (k - 1) (step queue n s c) cs below
          (subst (λ x. Closes workers x (k - 1) (step queue n s c)) own
            (own_step workers n s c keeps.0 k (rw own below) (rw own v)))
          keeps.1 (ground arith)
    | no other ↦
        closes workers n j k (step queue n s c) cs below
          (other_step workers n s c keeps.0 j k other v) keeps.1 (ground arith)
  ]

  to_join-le : (workers : ℕ) (p : Pc) → to_join workers p ≤ 3 * workers + 4
  to_join-le workers p = ground arith

  run-flag :
      (n : ℕ) (s : System Q) (cs : List Choice)
      → s.mem.shutdown ≡ 1
      → (run queue n s cs).mem.shutdown ≡ 1
  unfolding run step thread_step
  run-flag n =
      run_keeps chosen (thread_step queue) (λ t. t.mem.shutdown ≡ 1) n
        λ s c down.
          step_cases chosen (thread_step queue) (λ t. t.mem.shutdown ≡ 1) n s c down
            λ m p lt moved.
              flag_kept queue c.i c.request c.luck s.mem (s.thread c.i) {p' = p} down moved

  module _ (n workers : ℕ) (pool : Lfthpool Q) (few : workers ≤ n) (new : IsNew queue workers pool)
      (cs ds : List Choice) (down : (run queue n (initial workers pool) cs).mem.shutdown ≡ 1)
      (fair : (x : ℕ) → x < workers → 6 ≤ turns x ds) where
    abbrev reached : System Q
    reached = run queue n (initial workers pool) cs

    abbrev later : System Q
    later = run queue n reached ds

    reached-Kinds : Kinds queue workers reached
    reached-Kinds =
        run-Kinds queue workers n (initial workers pool) cs (initial-Kinds queue workers pool)

    back_later : (x : ℕ) → x < workers → later.thread x ≡ returned
    back_later x lt =
        let light = reached-Kinds.working x lt in
        lfthpool_worker_returns queue n x (omega arith) reached ds down light
          (omega (arith, light, fair x lt))

    back_after :
        (es : List Choice) (x : ℕ) → x < workers → (run queue n later es).thread x ≡ returned
    back_after es x lt =
        let light : left (later.thread x) ≡ 0 = ap left (back_later x lt) in
        lfthpool_worker_returns queue n x (omega arith) later es (run-flag n reached ds down)
          (omega (arith, light)) (omega (arith, light))

    later-Closes : (j : ℕ) → Closes workers j (3 * workers + 4) later
    later-Closes j = record {
      joins =
          run-JoinInv queue n reached ds (
            run-JoinInv queue n (initial workers pool) cs (initial-JoinInv queue workers pool new));
      exited =
          λ x lt. (run-Kinds queue workers n reached ds reached-Kinds).seen x (back_later x lt);
      few = to_join-le workers (later.thread j);
    }

    -- After any schedule of `n` threads on a new pool whose workers are among them, if the shutdown
    -- flag is set: let a schedule run in which every worker is chosen six times, and after it one
    -- in which thread `j` is chosen three times for each worker and four times more, and in which
    -- no thread calls `lfthpool_shutdown` or `lfthpool_destroy`. If `pthread_join` was called at
    -- most once for each thread, then every worker has returned, and thread `j` is in no call of
    -- these two.
    pub lfthpool_shutdown_gets_done :
        (es : List Choice)
        → All KeepsOpen es
        → (j : ℕ) → j < n
        → 3 * workers + 4 ≤ turns j es
        → each_once (run queue n later es).mem.joins ≡ true
        → (x : ℕ) → x < workers
        → let t = run queue n later es in
          (t.thread x ≡ returned) × (to_join workers (t.thread j) ≡ 0)
    lfthpool_shutdown_gets_done es keeps j below enough once x lt = (
      back_after es x lt,
      closes workers n j (3 * workers + 4) later es below (later-Closes j) keeps enough,
    )
