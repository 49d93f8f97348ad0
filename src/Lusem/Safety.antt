-- ===== src/Lusem/Safety.antt =====
-- What holds of a lightweight semaphore after every schedule.
use libthreads.Prelude.{
  ℕ, ◌+◌, ◌*◌, ◌^◌, ◌<◌, ◌≡◌, ◌⊎◌, List, arith, ℤ, pos_part, neg_part, total, total-le-of,
}
use libthreads.Lusem.State.{new_lusem}
use libthreads.Lusem.Step.{Choice, System, run, initial_system}
use libthreads.Lusem.Views.{waiter, pending}
use libthreads.Lusem.Invariant.{Inv, Fits, run-Inv, initial-Inv}

one_part : (z : ℤ) → (pos_part z ≡ 0) ⊎ (neg_part z ≡ 0)
one_part z = ground arith

module _ (n init : ℕ) (max_spins : ℤ) (cs : List Choice) where
  abbrev reached : System
  reached = run n (initial_system (new_lusem init max_spins)) cs

  module _ (few : n + init < 2 ^ 63) (fits : Fits init reached.mem) where
    reached-Inv : Inv n init reached
    reached-Inv =
        run-Inv (initial_system (new_lusem init max_spins)) cs (initial-Inv n init max_spins few)
          fits

    -- After any schedule of `n` threads on a semaphore with the initial count `init`, where `n +
    -- init < 2 ^ 63`, as long as no more is signalled than `m_count` can hold: the waits that were
    -- successful, the positive part of `m_count`, the value of `sem` and what is still to be posted
    -- add up to what was signalled and twice the initial count.
    pub units_account :
        reached.mem.acquired
          + pos_part reached.mem.m_count
          + reached.mem.sem
          + total pending n reached.thread
        ≡ 2 * init + reached.mem.signalled
    units_account = reached-Inv.account

    -- After any schedule of `n` threads on a semaphore with the initial count `init`, where `n +
    -- init < 2 ^ 63`, as long as no more is signalled than `m_count` can hold: if a thread waits
    -- for a unit of `sem`, none is there and none is still to be posted, then every unit has been
    -- acquired, and `m_count` is below 0 by the number of threads that wait and the initial count:
    -- no thread sleeps beside a free unit.
    pub no_lost_wakeup :
        (i : ℕ)
        → i < n
        → waiter (reached.thread i) ≡ 1
        → reached.mem.sem ≡ 0
        → total pending n reached.thread ≡ 0
        → (reached.mem.acquired ≡ 2 * init + reached.mem.signalled)
          × (neg_part reached.mem.m_count ≡ total waiter n reached.thread + init)
    no_lost_wakeup i lt w none_there none_coming = omega (
      arith,
      reached-Inv.account,
      reached-Inv.balance,
      one_part reached.mem.m_count,
      total-le-of waiter n reached.thread i lt,
    )
