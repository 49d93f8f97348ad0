-- ===== src/Usem/DispatchTests.antt =====
-- The Mach branch of include/threads/usem.h at concrete values, over a semaphore that counts.
use libthreads.Prelude.{
  ℕ, zero, suc, ◌+◌, ◌-◌, ◌*◌, ◌^◌, ◌<◌, ◌≡◌, refl, ◌↔◌, ◌⊎◌, inl, inr, Bool, true, false, [], ◌∷◌,
  Option, none, some, replicate, arith, pos, negsuc, minus_one, etimedout,
}
use libthreads.Usem.Deadline.{Timespec, nanoseconds, deadline}
use libthreads.Usem.Dispatch.{Dispatch}
use libthreads.Usem.Mach.{
  waits, tries, waits_for, usem_init, usem_signal_count, timeout_delta, call, calls, IsRefused,
  usem_signal_count-waits,
}
use libthreads.Usem.Branches.{usem_timed_wait-branches}

-- A semaphore of libdispatch that counts its units. Time stands still: a wait that has a time to
-- wait until finds no unit before it.
abbrev counting_wait : ℕ → Bool → Option (ℕ × ℕ)
counting_wait (suc n) for_ever = some (0, n)
counting_wait zero true = none
counting_wait zero false = some (49, 0)

counting_wait-timed : (s : ℕ) → s ≡ 0 → counting_wait s false ≡ some (49, 0)
counting_wait-timed s h = rw h

counting_wait-empty :
    (s : ℕ) (t : Bool)
    → s ≡ 0
    → (counting_wait s t ≡ none)
      ⊎ ((e : ℕ) × (s' : ℕ) × (counting_wait s t ≡ some (suc e, s')) × (s' ≡ 0))
counting_wait-empty s true h = inl (rw h)
counting_wait-empty s false h = inr (48, 0, counting_wait-timed s h, refl)

abbrev counting : Dispatch ℕ Bool
counting = record {
  create = λ n. n;
  signal = λ s. suc s;
  wait = counting_wait;
  time = λ delta. false;
  now = false;
  forever = true;
  units = λ s. s;
  units-create = λ n. refl;
  units-signal = λ s. refl;
  wait-units = λ s t n h. (n, rw h, refl);
  wait-forever = λ s h. rw h;
  wait-now = λ s h. (48, 0, counting_wait-timed s h, refl);
  wait-empty = counting_wait-empty;
}

-- Two units, of which the second is signalled.
signalled_unit :
    calls counting
      (waits ∷ tries ∷ tries ∷ [])
      (usem_signal_count counting (pos 1) (usem_init counting 1).1)
    ≡ some ((pos 0, none) ∷ (pos 0, none) ∷ (minus_one, some etimedout) ∷ [], 0)
unfolding calls usem_signal_count usem_init
signalled_unit = refl

usem_signal_count-waits_example :
    (s : ℕ) × (calls counting
        (waits ∷ waits_for 5 ∷ tries ∷ [])
        (usem_signal_count counting (pos 1) (usem_init counting 2).1)
      ≡ some (replicate 3 (pos 0, none), s))
    × (call counting waits s ≡ none)
    × ((s' : ℕ) × (call counting tries s ≡ some ((minus_one, some etimedout), s')))
    × ((timeout_usecs : ℕ) → IsRefused counting (call counting (waits_for timeout_usecs) s))
usem_signal_count-waits_example =
    usem_signal_count-waits counting 2 (pos 1) (waits ∷ waits_for 5 ∷ tries ∷ []) refl

abbrev morning : Timespec
morning = record { tv_sec = 10; tv_nsec = 900000000 }

-- The greatest timeout is a time that has passed.
greatest_delta : timeout_delta (2 ^ 64 - 1) ≡ negsuc 999
unfolding timeout_delta
greatest_delta = refl

usem_timed_wait-branches_example :
    (ts : Timespec) × (deadline morning (2 ^ 64 - 1) ≡ some ts)
    × (nanoseconds ts ≡ nanoseconds morning + (2 ^ 64 - 1) * 1000)
    × (ts.tv_nsec < 1000000000)
    × ((timeout_delta (2 ^ 64 - 1) ≡ pos (nanoseconds ts - nanoseconds morning))
        ↔ ((2 ^ 64 - 1) * 1000 < 2 ^ 63))
usem_timed_wait-branches_example =
    usem_timed_wait-branches morning (2 ^ 64 - 1) (omega arith) (omega arith)
