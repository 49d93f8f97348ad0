-- ===== src/Utils.antt =====
-- src/threads/utils.c: `threads_cpu_count`, from the answer of the system call that it makes.
use libthreads.Prelude.{
  ℕ, ◌-◌, ◌%◌, ◌^◌, ◌<◌, ◌≡◌, ltb, if◌then◌else◌, Option, none, some, arith, ℤ, pos, negsuc,
  minus_one,
}

-- The value of a `long` that is cast to an `int` of 32 bits, which wraps round.
unfoldable pub int : ℤ → ℤ
int (pos n) = let m = n % 2 ^ 32 in if ltb m (2 ^ 31) then pos m else negsuc (2 ^ 32 - 1 - m)
int (negsuc n) = let m = n % 2 ^ 32 in if ltb m (2 ^ 31) then negsuc m else pos (2 ^ 32 - 1 - m)

-- The branch for Linux and Solaris, from the answer of `sysconf(_SC_NPROCESSORS_ONLN)`.
unfoldable pub count_by_sysconf : ℤ → ℤ
unfolding int
count_by_sysconf answer = int answer

-- The branch for macOS and BSD, from what `sysctlbyname("hw.ncpu", …)` stores: nothing if it fails.
unfoldable pub count_by_sysctl : Option ℤ → ℤ
count_by_sysctl none = pos 0
count_by_sysctl (some cpus) = cpus

-- Where the host tells its number of processors, a number that an `int` can hold, both branches
-- return it. A call that fails is not reported apart: one branch returns -1, the other 0.
threads_cpu_count-branches :
    (k : ℕ)
    → k < 2 ^ 31
    → (count_by_sysconf (pos k) ≡ pos k)
      × (count_by_sysctl (some (pos k)) ≡ pos k)
      × (count_by_sysconf minus_one ≡ minus_one)
      × (count_by_sysctl none ≡ pos 0)
unfolding count_by_sysconf count_by_sysctl int
threads_cpu_count-branches k small = ground arith
