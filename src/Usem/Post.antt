-- ===== src/Usem/Post.antt =====
-- include/threads/usem.h: `usem_signal` and `usem_signal_count`, which call `sem_post` until it is
-- successful. `sem_post` fails at the greatest value of a semaphore.
use libthreads.Prelude.{
  ℕ, zero, suc, ◌+◌, ◌≤◌, ◌<◌, ◌≡◌, refl, inl, inr, Bool-cases, Option, none, some, arith, ltb,
  if◌then◌else◌, ℤ, pos_part,
}
use libthreads.Lusem.State.{sem_value_max}

-- `sem_post`: the value after it, or `none` for -1.
abbrev pub sem_post : ℕ → Option ℕ
sem_post value = if ltb value sem_value_max then some (value + 1) else none

-- `while (count-- > 0) while (sem_post(sem) == -1);` with fuel for the calls of `sem_post`, while
-- no other thread uses the semaphore; `none` means that the fuel ran out.
unfoldable pub post_all : ℕ → ℕ → ℕ → Option ℕ
post_all fuel zero value = some value
post_all zero (suc count) value = none
post_all (suc fuel) (suc count) value = elim (sem_post value) [
  | some value' ↦ post_all fuel count value'
  | none ↦ post_all fuel (suc count) value
]

unfoldable pub usem_signal_count : ℕ → ℤ → ℕ → Option ℕ
unfolding post_all
usem_signal_count fuel count value = post_all fuel (pos_part count) value

post_all-fits :
    (fuel count value : ℕ)
    → count ≤ fuel
    → value + count ≤ sem_value_max
    → post_all fuel count value ≡ some (value + count)
unfolding post_all
post_all-fits fuel zero value h k = ground arith
post_all-fits zero (suc count) value h k = absurd (omega arith)
post_all-fits (suc fuel) (suc count) value h k =
    ground (arith, post_all-fits fuel count (value + 1))

post_all-stuck :
    (fuel count value : ℕ)
    → value ≤ sem_value_max
    → sem_value_max < value + count
    → post_all fuel count value ≡ none
unfolding post_all
post_all-stuck fuel zero value h k = absurd (omega arith)
post_all-stuck zero (suc count) value h k = refl
post_all-stuck (suc fuel) (suc count) value h k =
    ground (arith, post_all-stuck fuel count (value + 1), post_all-stuck fuel (suc count) value)

-- While no other thread uses the semaphore: `usem_signal_count`, with fuel for at least `count`
-- calls of `sem_post`, adds `count` units if there is room for them below the greatest value of the
-- semaphore; if there is not, no fuel is enough, it calls `sem_post` for ever.
pub usem_signal_count-returns :
    (fuel value : ℕ) (count : ℤ)
    → value ≤ sem_value_max
    → pos_part count ≤ fuel
    → usem_signal_count fuel count value
      ≡ (if ltb sem_value_max (value + pos_part count) then none else some (value + pos_part count))
unfolding usem_signal_count
usem_signal_count-returns fuel value count h enough =
    elim (Bool-cases (ltb sem_value_max (value + pos_part count))) [
      | inl over ↦ rw over (post_all-stuck fuel (pos_part count) value h (ground arith))
      | inr room ↦ rw room (post_all-fits fuel (pos_part count) value enough (ground arith))
    ]
