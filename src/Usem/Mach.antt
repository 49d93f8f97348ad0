-- ===== src/Usem/Mach.antt =====
-- include/threads/usem.h, the Mach branch: a semaphore of libdispatch, which is a parameter.
use libthreads.Prelude.{
  ℕ, zero, suc, ◌+◌, ◌*◌, ◌%◌, ◌^◌, ◌≡◌, ◌⊎◌, inl, inr, refl, List, [], ◌∷◌, Option, none, some,
  ◌>>=◌, length, replicate, arith, ℤ, pos, minus_one, pos_part, ssize, Errno, etimedout,
}
use libthreads.Usem.Dispatch.{Dispatch}

-- `int64_t delta` of `dispatch_time`, from the product `timeout_usecs * 1000` of type `uint64_t`.
unfoldable pub timeout_delta : ℕ → ℤ
unfolding ssize
timeout_delta timeout_usecs = ssize (pos (timeout_usecs * 1000 % 2 ^ 64))

-- The value that a call returns and what it leaves in `errno`.
abbrev pub Reply : Type 0
Reply = ℤ × Option Errno

-- `if (dispatch_semaphore_wait(…) == 0) return 0; errno = ETIMEDOUT; return -1;`
unfoldable pub wait_reply : {S : Type 0} → Option (ℕ × S) → Option (Reply × S)
wait_reply none = none
wait_reply (some (zero, s)) = some ((pos 0, none), s)
wait_reply (some (suc e, s)) = some ((minus_one, some etimedout), s)

-- The three calls that wait.
pub data Wait : Type 0 where
  waits tries : Wait
  waits_for : ℕ → Wait

module _ {S T : Type 0} (d : Dispatch S T) where
  unfoldable pub usem_init : ℕ → ℤ × S
  usem_init initial_count = (pos 0, d.create initial_count)

  unfoldable pub usem_wait : S → Option (Reply × S)
  unfolding wait_reply
  usem_wait s = wait_reply (d.wait s d.forever)

  unfoldable pub usem_timed_wait : ℕ → S → Option (Reply × S)
  unfolding wait_reply timeout_delta
  usem_timed_wait timeout_usecs s = wait_reply (d.wait s (d.time (timeout_delta timeout_usecs)))

  unfoldable pub usem_try_wait : S → Option (Reply × S)
  unfolding wait_reply
  usem_try_wait s = wait_reply (d.wait s d.now)

  unfoldable pub usem_signal : S → S
  usem_signal s = d.signal s

  -- `while (count-- > 0) usem_signal(sem);`
  unfoldable pub signal_all : ℕ → S → S
  unfolding usem_signal
  signal_all zero s = s
  signal_all (suc count) s = signal_all count (usem_signal s)

  unfoldable pub usem_signal_count : ℤ → S → S
  unfolding signal_all
  usem_signal_count count s = signal_all (pos_part count) s

  unfoldable pub call : Wait → S → Option (Reply × S)
  unfolding usem_wait usem_timed_wait usem_try_wait
  call waits s = usem_wait s
  call tries s = usem_try_wait s
  call (waits_for timeout_usecs) s = usem_timed_wait timeout_usecs s

  -- Calls in a row: what each returned, and the semaphore after; `none` if one blocks.
  unfoldable pub calls : List Wait → S → Option (List Reply × S)
  unfolding call
  calls [] s = some ([], s)
  calls (w ∷ ws) s = do (r, s') ← call w s; (rs, s'') ← calls ws s'; some (r ∷ rs, s'')

  signal_all-units : (count : ℕ) (s : S) → d.units (signal_all count s) ≡ d.units s + count
  unfolding signal_all
  signal_all-units zero s = ground arith
  signal_all-units (suc count) s =
      omega (arith, signal_all-units count (d.signal s), d.units-signal s)

  -- A call that finds a unit takes it.
  wait_reply-units :
      (t : T) (s : S) (n : ℕ)
      → d.units s ≡ suc n
      → (s' : S) × (wait_reply (d.wait s t) ≡ some ((pos 0, none), s')) × (d.units s' ≡ n)
  unfolding wait_reply
  wait_reply-units t s n h = let (s', took, left) = d.wait-units s t n h in (s', rw took, left)

  call-units :
      (w : Wait) (s : S) (n : ℕ)
      → d.units s ≡ suc n
      → (s' : S) × (call w s ≡ some ((pos 0, none), s')) × (d.units s' ≡ n)
  unfolding call
  call-units waits s n h = wait_reply-units d.forever s n h
  call-units tries s n h = wait_reply-units d.now s n h
  call-units (waits_for t) s n h = wait_reply-units (d.time (timeout_delta t)) s n h

  calls-units :
      (ws : List Wait) (s : S) (n : ℕ)
      → d.units s ≡ length ws + n
      → (s' : S) × (calls ws s ≡ some (replicate (length ws) (pos 0, none), s')) × (d.units s' ≡ n)
  unfolding calls
  calls-units [] s n h = (s, refl, omega (arith, h))
  calls-units (w ∷ ws) s n h =
      let (s', took, left) = call-units w s (length ws + n) (omega (arith, h)) in
      let (s'', rest, empty) = calls-units ws s' n left in (s'', rw (took, rest), empty)

  -- What a call answers that finds no unit: it blocks, or it returns -1 with ETIMEDOUT.
  abbrev pub IsRefused : Option (Reply × S) → Type 0
  IsRefused answer =
      (answer ≡ none) ⊎ ((s' : S) × (answer ≡ some ((minus_one, some etimedout), s')))

  call-empty :
      (s : S)
      → d.units s ≡ zero
      → (call waits s ≡ none)
        × ((s' : S) × (call tries s ≡ some ((minus_one, some etimedout), s')))
        × ((timeout_usecs : ℕ) → IsRefused (call (waits_for timeout_usecs) s))
  unfolding call wait_reply
  call-empty s h =
      let (e, s', timed_out, _) = d.wait-now s h in
      (
        rw (d.wait-forever s h),
        (s', rw timed_out),
        λ t. elim (d.wait-empty s (d.time (timeout_delta t)) h) [
          | inl blocks ↦ inl (rw blocks)
          | inr (e, s', late, _) ↦ inr (s', rw late)
        ],
      )

  -- While no other thread uses the semaphore: after `usem_init` with `n` and `usem_signal_count`
  -- with `count`, as many calls return 0 as there are units, `n` and the `count` signalled,
  -- whichever of the three waits they are; after them `usem_wait` blocks, `usem_try_wait` returns
  -- -1 with ETIMEDOUT, and `usem_timed_wait` does one or the other.
  pub usem_signal_count-waits :
      (n : ℕ) (count : ℤ) (ws : List Wait)
      → length ws ≡ n + pos_part count
      → (s : S) × (calls ws (usem_signal_count count (usem_init n).1)
          ≡ some (replicate (length ws) (pos 0, none), s))
        × (call waits s ≡ none)
        × ((s' : S) × (call tries s ≡ some ((minus_one, some etimedout), s')))
        × ((timeout_usecs : ℕ) → IsRefused (call (waits_for timeout_usecs) s))
  unfolding usem_signal_count usem_init
  usem_signal_count-waits n count ws h =
      let (s, took, empty) =
        calls-units ws (signal_all (pos_part count) (d.create n)) 0
          (omega (arith, h, signal_all-units (pos_part count) (d.create n), d.units-create n)) in
      (s, took, (call-empty s empty).0, (call-empty s empty).1, (call-empty s empty).2)
