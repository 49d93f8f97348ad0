-- ===== src/Usem/Branches.antt =====
-- include/threads/usem.h: the timeouts of the two branches of `usem_timed_wait`.
use libthreads.Prelude.{ℕ, ◌+◌, ◌-◌, ◌*◌, ◌/◌, ◌^◌, ◌<◌, ◌≡◌, ◌↔◌, some, arith, pos, ssize}
use libthreads.Usem.Deadline.{
  Timespec, nsecs_in_1_sec, usecs_in_1_sec, nanoseconds, deadline, deadline-exact,
}
use libthreads.Usem.Mach.{timeout_delta}

timeout_delta-exact : (t : ℕ) → (timeout_delta t ≡ pos (t * 1000)) ↔ (t * 1000 < 2 ^ 63)
unfolding timeout_delta ssize
timeout_delta-exact t = (λ e. ground arith, λ h. ground arith)

elapsed : (a b t : ℕ) → a ≡ b + t * 1000 → a - b ≡ t * 1000
elapsed a b t h = omega arith

-- From a clock whose nanoseconds are below a second, and with a time that fits `time_t`: the
-- deadline of the POSIX branch is defined, is exactly the timeout after the clock, and its
-- nanoseconds are below a second, as `sem_timedwait` demands; the delta that the Mach branch hands
-- to `dispatch_time` is as long if the timeout in nanoseconds is below 2 ^ 63, and only then.
pub usem_timed_wait-branches :
    (now : Timespec) (timeout_usecs : ℕ)
    → now.tv_nsec < nsecs_in_1_sec
    → now.tv_sec + timeout_usecs / usecs_in_1_sec + 1 < 2 ^ 63
    → (ts : Timespec) × (deadline now timeout_usecs ≡ some ts)
      × (nanoseconds ts ≡ nanoseconds now + timeout_usecs * 1000)
      × (ts.tv_nsec < nsecs_in_1_sec)
      × ((timeout_delta timeout_usecs ≡ pos (nanoseconds ts - nanoseconds now))
          ↔ (timeout_usecs * 1000 < 2 ^ 63))
usem_timed_wait-branches now t h k =
    let (ts, made, late, below) = deadline-exact now t h k in
    (
      ts,
      made,
      late,
      below,
      rw (elapsed (nanoseconds ts) (nanoseconds now) t late) (timeout_delta-exact t),
    )
