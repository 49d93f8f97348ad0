-- ===== src/Lusem/Refinement.antt =====
-- The lightweight semaphore against a counter: what each step does to the units that it has.
use libthreads.Prelude.{
  ℕ, zero, suc, ◌+◌, ◌^◌, ◌<◌, ◌≡◌, inl, inr, List, none, some, arith, ℤ, pos_part, lt→ltb,
  Option-cases, update_self, total,
}
use libthreads.Threads
use libthreads.Lusem.State.{Lusem, new_lusem}
use libthreads.Lusem.Step.{
  Request, got_it, only_try, waits, Luck, Pc, idle, testing, sem_waiting, posting, Choice, System,
  lusem_step, thread_step, step, run, initial_system,
}
use libthreads.Lusem.Views.{pending, amount, lusem_step-signals}
use libthreads.Lusem.Invariant.{Fits, step-Inv, run-Inv, initial-Inv, step-signals}

-- The units that can be had: in `m_count`, in `sem`, and on their way there.
abbrev pub units : ℕ → System → ℕ
units n s = pos_part s.mem.m_count + s.mem.sem + total pending n s.thread

-- Whether a step from one place to another is the end of a wait that has succeeded.
abbrev pub gets : Pc → Pc → ℕ
gets (idle _) q = 0
gets p (idle got_it) = 1
gets p q = 0

lusem_step-acquired :
    (r : Request) (l : Luck) (m : Lusem) (p : Pc) {m' : Lusem} {p' : Pc}
    → lusem_step r l m p ≡ some (m', p')
    → m'.acquired ≡ m.acquired + gets p p'
unfolding lusem_step
lusem_step-acquired r l m (testing only_try old) e = ground arith
lusem_step-acquired r l m (testing (waits t) old) e = ground arith
lusem_step-acquired r l m (sem_waiting zero) e = ground arith
lusem_step-acquired r l m (sem_waiting (suc t)) e = ground arith
lusem_step-acquired r l m (posting zero) e = ground arith
lusem_step-acquired r l m (posting (suc k)) e = ground arith
lusem_step-acquired r l m p e = ground arith

gets_self : (p : Pc) → gets p p ≡ 0
gets_self p = ground arith

-- Only a thread that waits for a unit is blocked.
blocked-amount :
    (r : Request) (l : Luck) (m : Lusem) (p : Pc) → lusem_step r l m p ≡ none → amount p ≡ 0
unfolding lusem_step
blocked-amount r l m p e = ground arith

step-counts :
    (n : ℕ) (s : System) (c : Choice)
    → c.i < n
    → let t = step n s c in
      (t.mem.acquired ≡ s.mem.acquired + gets (s.thread c.i) (t.thread c.i))
      × (t.mem.signalled ≡ s.mem.signalled + amount (s.thread c.i))
unfolding step Threads.step thread_step
step-counts n s c lt = elim (Option-cases (lusem_step c.request c.luck s.mem (s.thread c.i))) [
  | inl blocked ↦
      rw (lt→ltb lt, blocked)
        (
          omega (arith, gets_self (s.thread c.i)),
          omega (arith, blocked-amount c.request c.luck s.mem (s.thread c.i) blocked),
        )
  | inr ((m, p), moved) ↦
      rw (lt→ltb lt, moved, update_self s.thread c.i p)
        (
          lusem_step-acquired c.request c.luck s.mem (s.thread c.i) moved,
          lusem_step-signals c.request c.luck s.mem (s.thread c.i) moved,
        )
]

-- After any schedule of `n` threads on a semaphore with the initial count `init`, where `n + init <
-- 2 ^ 63`, as long as no more is signalled than `m_count` can hold: a step of one of the threads
-- takes one from the units that can be had exactly if it ends a wait with success, adds what it
-- signals, and otherwise leaves their number. So the semaphore implements a counter that is never
-- below 0.
pub lusem_refines_counter :
    (n init : ℕ) (max_spins : ℤ) (cs : List Choice) (c : Choice)
    → n + init < 2 ^ 63
    → Fits init (step n (run n (initial_system (new_lusem init max_spins)) cs) c).mem
    → c.i < n
    → let s = run n (initial_system (new_lusem init max_spins)) cs in
      let t = step n s c in
      units n t + gets (s.thread c.i) (t.thread c.i) ≡ units n s + amount (s.thread c.i)
lusem_refines_counter n init max_spins cs c few fits lt =
    let start = initial_system (new_lusem init max_spins) in
    let s = run n start cs in
    let before =
      run-Inv start cs (initial-Inv n init max_spins few) (omega (arith, step-signals n s c)) in
    let after = step-Inv s c before fits in
    let (got, given) = step-counts n s c lt in
    omega (arith, before.account, after.account, got, given)
