-- ===== src/Usem/Tests.antt =====
-- The wrappers of include/threads/usem.h at concrete answers, times and values.
use libthreads.Prelude.{
  ◌+◌, ◌-◌, ltb, if◌then◌else◌, ◌≡◌, refl, [], ◌∷◌, ◌++◌, none, some, replicate, arith, pos,
  minus_one, eagain, eintr,
}
use libthreads.Lusem.State.{sem_value_max}
use libthreads.Usem.Retry.{success, failure, usem_wait, usem_wait-interrupted}
use libthreads.Usem.Deadline.{Timespec, deadline}
use libthreads.Usem.Post.{post_all, usem_signal_count, usem_signal_count-returns}

two_interrupts :
    (usem_wait (replicate 2 (failure eintr) ++ failure eagain ∷ success ∷ [])
      ≡ some (minus_one, some eagain, success ∷ []))
    × (usem_wait (replicate 2 (failure eintr)) ≡ none)
two_interrupts = usem_wait-interrupted 2 (failure eagain) (success ∷ []) (λ e. cc e)

abbrev late : Timespec
late = record { tv_sec = 10; tv_nsec = 900000000 }

-- 2.3 s past 10.9 s
carried : deadline late 2300000 ≡ some (record { tv_sec = 13; tv_nsec = 200000000 })
unfolding deadline
carried = refl

usem_signal_count-returns_example :
    usem_signal_count 4 (pos 3) 7 ≡ (if ltb sem_value_max (7 + 3) then none else some (7 + 3))
usem_signal_count-returns_example =
    usem_signal_count-returns 4 7 (pos 3) (omega arith) (omega arith)

-- Two units where there is room for one.
full_semaphore : usem_signal_count 9 (pos 2) (sem_value_max - 1) ≡ none
unfolding usem_signal_count post_all
full_semaphore = refl
