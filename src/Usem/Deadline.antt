-- ===== src/Usem/Deadline.antt =====
-- include/threads/usem.h: `usem_timed_wait`, which turns a timeout into the absolute time that
-- `sem_timedwait` takes, and calls it again while it is interrupted.
use native.Mathlib.Decide.{dec_lt}
use libthreads.Prelude.{
  ℕ, ◌+◌, ◌-◌, ◌*◌, ◌/◌, ◌%◌, ◌^◌, ◌<◌, ◌≡◌, List, Option, none, some, arith, ltb, if◌then◌else◌,
  ◌>>=◌, ℤ, Errno,
}
use libthreads.Usem.Retry.{Answer, retry}

-- `struct timespec`
pub record Timespec : Type 0 where
  pub tv_sec : ℕ
  pub tv_nsec : ℕ

abbrev pub usecs_in_1_sec : ℕ
usecs_in_1_sec = 1000000

abbrev pub nsecs_in_1_sec : ℕ
nsecs_in_1_sec = 1000000000

-- A sum of type `long` or `time_t`; past 2 ^ 63 - 1 it is undefined in C.
abbrev pub long : ℕ → Option ℕ
long n = if ltb n (2 ^ 63) then some n else none

-- Carries a full second over from `tv_nsec`.
abbrev pub carry : Timespec → Option Timespec
carry ts = if ltb ts.tv_nsec nsecs_in_1_sec then some ts else do
  sec ← long (ts.tv_sec + 1)
  some (record { tv_sec = sec; tv_nsec = ts.tv_nsec - nsecs_in_1_sec })

unfoldable pub deadline : Timespec → ℕ → Option Timespec
deadline now timeout_usecs = do
  sec ← long (now.tv_sec + timeout_usecs / usecs_in_1_sec)
  nsec ← long (now.tv_nsec + timeout_usecs % usecs_in_1_sec * 1000)
  carry (record { tv_sec = sec; tv_nsec = nsec })

-- The absolute time that is handed to `sem_timedwait`, with the result of the loop over its
-- answers.
unfoldable pub usem_timed_wait :
    Timespec → ℕ → List Answer → Option (Timespec × Option (ℤ × Option Errno × List Answer))
unfolding deadline retry
usem_timed_wait now timeout_usecs answers = do
  ts ← deadline now timeout_usecs
  some (ts, retry answers)

-- A time in nanoseconds.
abbrev pub nanoseconds : Timespec → ℕ
nanoseconds ts = ts.tv_sec * nsecs_in_1_sec + ts.tv_nsec

-- From a clock whose nanoseconds are below a second, and with a time that fits `time_t`, the
-- deadline is defined, is exactly the timeout after the clock, and its nanoseconds are below a
-- second, as `sem_timedwait` demands.
pub deadline-exact :
    (now : Timespec) (timeout_usecs : ℕ)
    → now.tv_nsec < nsecs_in_1_sec
    → now.tv_sec + timeout_usecs / usecs_in_1_sec + 1 < 2 ^ 63
    → (ts : Timespec) × (deadline now timeout_usecs ≡ some ts)
      × (nanoseconds ts ≡ nanoseconds now + timeout_usecs * 1000)
      × (ts.tv_nsec < nsecs_in_1_sec)
unfolding deadline
deadline-exact now t h k = elim (dec_lt (now.tv_nsec + t % usecs_in_1_sec * 1000) nsecs_in_1_sec) [
  | yes below ↦ (
    record {
      tv_sec = now.tv_sec + t / usecs_in_1_sec;
      tv_nsec = now.tv_nsec + t % usecs_in_1_sec * 1000;
    },
    ground arith,
    omega arith,
    below,
  )
  | no over ↦ (
    record {
      tv_sec = now.tv_sec + t / usecs_in_1_sec + 1;
      tv_nsec = now.tv_nsec + t % usecs_in_1_sec * 1000 - nsecs_in_1_sec;
    },
    ground arith,
    omega arith,
    omega arith,
  )
]
