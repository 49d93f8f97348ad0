-- ===== src/Psem/Safety.antt =====
-- What holds of a semaphore of include/threads/psem.h after every schedule.
use libthreads.Prelude.{ℕ, ◌+◌, ◌≤◌, ◌≡◌, List, true, arith, refl, length, total}
use libthreads.Psem.Step.{Choice, System, run, initial}
use libthreads.Waiters.{length-le-total}
use libthreads.Psem.Invariant.{holds, inside, run-Inv}

module _ (n : ℕ) (cs : List Choice) where
  abbrev reached : System
  reached = run n initial cs

  listed-le-inside : length reached.mem.notify ≤ total inside n reached.thread
  listed-le-inside =
      let v = run-Inv n cs in
      length-le-total inside n reached.thread reached.mem.notify v.distinct
        λ j h. let (lt, at) = v.listed j h in (lt, rw at refl)

  -- After any schedule of `n` threads on a new semaphore: calls of `psem_wait` have returned 0 at
  -- most as often as signals and broadcasts have woken a thread that waited then, and waits have
  -- ended with no signal. A signal is not kept for a later wait.
  pub psem_wait-needs-signal : reached.mem.waited ≤ reached.mem.woken_up + reached.mem.spurious
  psem_wait-needs-signal = omega (arith, (run-Inv n cs).balance, listed-le-inside)

  -- After any schedule of `n` threads on a new semaphore: at most one thread is between the lock
  -- and the unlock of the mutex.
  pub psem_exclusion :
      (i j : ℕ) → holds (reached.thread i) ≡ true → holds (reached.thread j) ≡ true → i ≡ j
  psem_exclusion i j hi hj = ground (arith, (run-Inv n cs).holder i hi, (run-Inv n cs).holder j hj)
