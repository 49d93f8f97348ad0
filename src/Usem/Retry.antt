-- ===== src/Usem/Retry.antt =====
-- include/threads/usem.h: `usem_wait`, `usem_try_wait` and the wait of `usem_timed_wait`, the loops
-- that call again while a call is interrupted.
use libthreads.Prelude.{
  ℕ, zero, suc, ◌≡◌, refl, ◌≢◌, List, [], ◌∷◌, ◌++◌, Option, none, some, replicate, ℤ, pos,
  minus_one, Errno, eagain, einval, enomem, eintr, etimedout, other,
}

-- One call of `sem_wait`, `sem_trywait` or `sem_timedwait`: it returns 0, or -1 and sets `errno`.
pub data Answer : Type 0 where
  success : Answer
  failure : Errno → Answer

-- The loop `do rc = …; while (rc == -1 && errno == EINTR)`: the value returned, what it left in
-- `errno`, and the answers that it did not use. `none`: all answers are used and it goes on.
unfoldable pub retry : List Answer → Option (ℤ × Option Errno × List Answer)
retry [] = none
retry (success ∷ answers) = some (pos 0, none, answers)
retry (failure eintr ∷ answers) = retry answers
retry (failure eagain ∷ answers) = some (minus_one, some eagain, answers)
retry (failure einval ∷ answers) = some (minus_one, some einval, answers)
retry (failure enomem ∷ answers) = some (minus_one, some enomem, answers)
retry (failure etimedout ∷ answers) = some (minus_one, some etimedout, answers)
retry (failure (other e) ∷ answers) = some (minus_one, some (other e), answers)

-- `usem_wait` and `usem_try_wait`: the loop over the answers of `sem_wait` and of `sem_trywait`.
unfoldable pub usem_wait : List Answer → Option (ℤ × Option Errno × List Answer)
unfolding retry
usem_wait answers = retry answers

unfoldable pub usem_try_wait : List Answer → Option (ℤ × Option Errno × List Answer)
unfolding retry
usem_try_wait answers = retry answers

-- The value and `errno` of one call.
abbrev pub reply : Answer → ℤ × Option Errno
reply success = (pos 0, none)
reply (failure e) = (minus_one, some e)

retry-after :
    (k : ℕ) (a : Answer) (answers : List Answer)
    → a ≢ failure eintr
    → retry (replicate k (failure eintr) ++ a ∷ answers) ≡ some ((reply a).0, (reply a).1, answers)
unfolding retry
retry-after (suc k) a answers h = retry-after k a answers h
retry-after zero success answers h = refl
retry-after zero (failure eintr) answers h = absurd (h refl)
retry-after zero (failure e) answers h = refl

retry-interrupted : (k : ℕ) → retry (replicate k (failure eintr)) ≡ none
unfolding retry
retry-interrupted zero = refl
retry-interrupted (suc k) = retry-interrupted k

-- However often `sem_wait` is interrupted, `usem_wait` returns what the first call that is not
-- interrupted returns, with its `errno`, and makes no call after it; as long as every call is
-- interrupted it does not return.
pub usem_wait-interrupted :
    (k : ℕ) (a : Answer) (answers : List Answer)
    → a ≢ failure eintr
    → (usem_wait (replicate k (failure eintr) ++ a ∷ answers)
        ≡ some ((reply a).0, (reply a).1, answers))
      × (usem_wait (replicate k (failure eintr)) ≡ none)
unfolding usem_wait
usem_wait-interrupted k a answers h = (retry-after k a answers h, retry-interrupted k)
