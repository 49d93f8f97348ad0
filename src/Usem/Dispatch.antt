-- ===== src/Usem/Dispatch.antt =====
-- What the Mach branch of include/threads/usem.h takes from <dispatch/dispatch.h>: the calls that
-- it makes, and what it relies on. No other thread uses the semaphore meanwhile.
use libthreads.Prelude.{ℕ, zero, suc, ◌≡◌, ◌⊎◌, Option, none, some, ℤ}

-- `S` is `dispatch_semaphore_t` and `T` is `dispatch_time_t`.
pub record Dispatch (S T : Type 0) : Type 0 where
  pub create : ℕ → S  -- dispatch_semaphore_create
  pub signal : S → S  -- dispatch_semaphore_signal
  -- dispatch_semaphore_wait: the value returned, or `none` if it blocks for ever.
  pub wait : S → T → Option (ℕ × S)
  pub time : ℤ → T  -- dispatch_time(DISPATCH_TIME_NOW, delta)
  pub now : T  -- DISPATCH_TIME_NOW
  pub forever : T  -- DISPATCH_TIME_FOREVER
  -- The units that can be taken.
  pub units : S → ℕ
  pub units-create : (n : ℕ) → units (create n) ≡ n
  pub units-signal : (s : S) → units (signal s) ≡ suc (units s)
  pub wait-units :
      (s : S) (t : T) (n : ℕ)
      → units s ≡ suc n
      → (s' : S) × (wait s t ≡ some (zero, s')) × (units s' ≡ n)
  pub wait-forever : (s : S) → units s ≡ zero → wait s forever ≡ none
  pub wait-now :
      (s : S)
      → units s ≡ zero
      → (e : ℕ) × (s' : S) × (wait s now ≡ some (suc e, s')) × (units s' ≡ zero)
  -- At another time it waits until then, which may be for ever.
  pub wait-empty :
      (s : S) (t : T)
      → units s ≡ zero
      → (wait s t ≡ none) ⊎ ((e : ℕ) × (s' : S) × (wait s t ≡ some (suc e, s')) × (units s' ≡ zero))
