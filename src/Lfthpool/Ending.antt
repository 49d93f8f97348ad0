-- ===== src/Lfthpool/Ending.antt =====
-- src/threads/lfthpool.c: the workers after a shutdown, in any schedule.
use native.Mathlib.Decide.{ℕ_discrete}
use mathlib.Core.Path.{subst}
use libthreads.Prelude.{
  ℕ, ◌-◌, ◌<◌, ◌≤◌, ◌≡◌, ◌≢◌, List, [], ◌∷◌, some, none, arith, update_self, update_ne,
}
use libthreads.Threads.{step_cases, step_either}
use libthreads.Threads
use libthreads.Lfthpool.Queue.{RingQueue}
use libthreads.Lfthpool.Step.{
  chosen, thread_step, Lfthpool, Request, Luck, Pc, checking_shutdown, checking_hold, sleeping,
  dequeuing, napping, counting, executing, uncounting, returned, Choice, System, lfthpool_step,
  step, run,
}

-- How many steps a worker makes at most before it has returned, once the shutdown flag is set; 7
-- for a place that is no worker's.
abbrev pub left : Pc → ℕ
left returned = 0
left checking_shutdown = 1
left sleeping = 2
left napping = 2
left uncounting = 2
left (executing _) = 3
left (counting _) = 4
left dequeuing = 5
left checking_hold = 6
left _ = 7

-- How often thread `w` is chosen.
abbrev pub turns : ℕ → List Choice → ℕ
turns = Threads.turns chosen

left-none : (p : Pc) → left p ≡ 0 → p ≡ returned
left-none p e = ground arith

module _ {Q : Type 0} (queue : RingQueue Q) where
  -- The flag stays set.
  pub flag_kept :
      (i : ℕ) (r : Request) (l : Luck) (m : Lfthpool Q) (p : Pc) {m' : Lfthpool Q} {p' : Pc}
      → m.shutdown ≡ 1
      → lfthpool_step queue i r l m p ≡ some (m', p')
      → m'.shutdown ≡ 1
  unfolding lfthpool_step
  flag_kept i r l m p down e = ground arith

  fewer_left :
      (i : ℕ) (r : Request) (l : Luck) (m : Lfthpool Q) (p : Pc) {m' : Lfthpool Q} {p' : Pc}
      → m.shutdown ≡ 1
      → left p ≤ 6
      → lfthpool_step queue i r l m p ≡ some (m', p')
      → left p' < left p
  unfolding lfthpool_step
  fewer_left i r l m p down few e = ground arith

  -- A worker that has not returned is never blocked.
  never_blocked :
      (i : ℕ) (r : Request) (l : Luck) (m : Lfthpool Q) (p : Pc)
      → left p ≤ 6
      → lfthpool_step queue i r l m p ≡ none
      → left p ≡ 0
  unfolding lfthpool_step
  never_blocked i r l m p few e = ground arith

  -- The flag is set, and worker `w` has at most `k` steps left.
  record Ends (w k : ℕ) (s : System Q) : Type 0 where
    flag : s.mem.shutdown ≡ 1
    few : left (s.thread w) ≤ k

  module _ (n w k : ℕ) (small : k ≤ 6) (s : System Q) (c : Choice) where
    other_step : c.i ≢ w → Ends w k s → Ends w k (step queue n s c)
    unfolding step thread_step
    other_step other v = step_cases chosen (thread_step queue) (Ends w k) n s c v λ m p lt moved.
        record {
          flag = flag_kept c.i c.request c.luck s.mem (s.thread c.i) {p' = p} v.flag moved;
          few = rw (update_ne s.thread c.i w p other) v.few;
        }

    own_step : c.i < n → Ends c.i k s → Ends c.i (k - 1) (step queue n s c)
    unfolding step thread_step
    own_step lt v =
        step_either chosen (thread_step queue) (Ends c.i (k - 1)) n s c lt
          (λ blocked. record {
            flag = v.flag;
            few = omega (
              arith,
              never_blocked c.i c.request c.luck s.mem (s.thread c.i) (omega (arith, v.few))
                  blocked,
            );
          })
          λ m p moved. record {
            flag = flag_kept c.i c.request c.luck s.mem (s.thread c.i) {p' = p} v.flag moved;
            few = rw (update_self s.thread c.i p) (
                omega (
                  arith,
                  v.few,
                  fewer_left c.i c.request c.luck s.mem (s.thread c.i) {p' = p} v.flag
                      (omega (arith, v.few)) moved,
                ));
          }

  module _ (n w : ℕ) (here : w < n) where
    ends :
        (k : ℕ) (s : System Q) (cs : List Choice)
        → k ≤ 6
        → Ends w k s
        → k ≤ turns w cs
        → (run queue n s cs).thread w ≡ returned
    unfolding run Threads.run step
    ends k s [] small v enough = left-none (s.thread w) (omega (arith, v.few))
    ends k s (c ∷ cs) small v enough = elim (ℕ_discrete c.i w) [
      | yes own ↦
          ends (k - 1) (step queue n s c) cs (omega arith)
            (subst (λ x. Ends x (k - 1) (step queue n s c)) own
              (own_step n w k small s c (rw own here) (rw own v)))
            (ground arith)
      | no other ↦
          ends k (step queue n s c) cs small (other_step n w k small s c other v) (ground arith)
    ]

    -- Once the shutdown flag is set, a worker that has not returned, at any place of its loop, has
    -- returned after any schedule in which it is chosen as often as `left` says for that place, six
    -- times at most, whatever the other threads do.
    pub lfthpool_worker_returns :
        (s : System Q) (cs : List Choice)
        → s.mem.shutdown ≡ 1
        → left (s.thread w) ≤ 6
        → left (s.thread w) ≤ turns w cs
        → (run queue n s cs).thread w ≡ returned
    lfthpool_worker_returns s cs down few enough =
        ends (left (s.thread w)) s cs few (record { flag = down; few = omega arith }) enough
