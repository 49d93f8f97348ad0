-- ===== src/Lusem/State.antt =====
-- include/threads/lusem.h: `struct lusem`. The semaphore `sem` below it is a POSIX one, of which
-- the code uses `sem_init`, `sem_wait`, `sem_trywait`, `sem_timedwait` and `sem_post`: it is its
-- value.
use libthreads.Prelude.{ℕ, ◌-◌, ◌^◌, ℤ, pos, Option, none, some, ltb, if◌then◌else◌}

-- The value past which `sem_post` fails.
abbrev pub sem_value_max : ℕ
sem_value_max = 2 ^ 31 - 1

pub record Lusem : Type 0 where
  pub m_count : ℤ
  pub sem : ℕ
  pub max_spins : ℤ
  -- Kept for the statements only: no step reads them. The initial count, the waits that were
  -- successful, and the units that were signalled.
  pub initial : ℕ
  pub acquired : ℕ
  pub signalled : ℕ

-- What a `lusem_init` that is successful leaves.
unfoldable pub new_lusem : ℕ → ℤ → Lusem
new_lusem initial_count max_spins = record {
  m_count = pos initial_count;
  sem = initial_count;
  max_spins = max_spins;
  initial = initial_count;
  acquired = 0;
  signalled = 0;
}

-- `none` is the value -1: `sem_init` refuses a value that a semaphore cannot hold, with EINVAL.
unfoldable pub lusem_init : ℕ → ℤ → Option Lusem
lusem_init initial_count max_spins =
    if ltb sem_value_max initial_count then none else some (new_lusem initial_count max_spins)
