-- ===== src/Psem/Step.antt =====
-- include/threads/psem.h: `struct psem` and its calls, a step for each access to the mutex, and the
-- threads that make them, in any interleaving.
use libthreads.Prelude.{
  ℕ, suc, ◌+◌, ◌-◌, Bool, List, [], ◌∷◌, Option, none, some, if◌then◌else◌, elem, length,
  remove_all, Errno,
}
use libthreads.Threads
use libthreads.Thpool.Shared.{wake_one}

-- The condition variable is the list of the threads that wait on it. What POSIX leaves undefined,
-- an unlock by a thread that does not hold the mutex, does not occur.
pub record Psem : Type 0 where
  pub owner : Option ℕ  -- the thread that holds `lock`
  pub notify : List ℕ  -- the threads that wait on `notify`
  -- Kept for the statements only: no step reads them. How many threads the signals and broadcasts
  -- have woken, how many waits have ended with no signal, and how many calls of `psem_wait` have
  -- returned 0 so far.
  pub woken_up : ℕ
  pub spurious : ℕ
  pub waited : ℕ

abbrev pub fresh_psem : Psem
fresh_psem = record { owner = none; notify = []; woken_up = 0; spurious = 0; waited = 0 }

-- `psem_init`, from the answers of `pthread_mutex_init` and `pthread_cond_init`; `none` is 0. It
-- gives the value returned, and the semaphore where both succeed.
unfoldable pub psem_init : Option Errno → Option Errno → Option Errno × Option Psem
psem_init (some e) cond_init = (some e, none)
psem_init none (some e) = (some e, none)
psem_init none none = (none, some fresh_psem)

pub data Request : Type 0 where
  signal broadcast wait : Request

-- A call's return value: `none` is 0.
pub data Reply : Type 0 where
  nothing_yet : Reply
  returned : Request → Option Errno → Reply

-- Where a thread stands.
pub data Pc : Type 0 where
  idle : Reply → Pc  -- between two calls
  locking : Request → Pc  -- before `pthread_mutex_lock`
  locked : Request → Pc  -- before the call on the condition variable
  waiting : Pc  -- in `pthread_cond_wait`
  woken : Pc  -- in it, before it has the mutex again
  unlocking : Request → Option Errno → Pc  -- before `pthread_mutex_unlock`, with `err`

-- What a step leaves open: the answers of `pthread_mutex_lock` and of the call on the condition
-- variable, which waiter a signal wakes, and whether a wait ends with no signal.
pub record Luck : Type 0 where
  pub lock_error : Option Errno
  pub cond_error : Option Errno
  pub waker : ℕ
  pub spurious : Bool

-- `pthread_cond_signal` and `pthread_cond_broadcast`, where they succeed.
unfoldable pub cond_signal : ℕ → Psem → Psem
cond_signal k m = record m {
  notify = wake_one k m.notify;
  woken_up = m.woken_up + (length m.notify - length (wake_one k m.notify));
}

unfoldable pub cond_broadcast : Psem → Psem
cond_broadcast m = record m { notify = []; woken_up = m.woken_up + length m.notify }

-- Counts a call of `psem_wait` that returns 0.
unfoldable pub count_waited : Request → Option Errno → ℕ → ℕ
count_waited wait none k = suc k
count_waited _ _ k = k

-- A step of thread `i`, which calls `r` when it is idle; `none` if it is blocked.
unfoldable pub psem_step : ℕ → Request → Luck → Psem → Pc → Option (Psem × Pc)
unfolding cond_signal cond_broadcast count_waited
psem_step i r l m (idle _) = some (m, locking r)
psem_step i _ l m (locking r) = elim (l.lock_error) [
  | some e ↦ some (m, idle (returned r (some e)))
  | none ↦ elim (m.owner) [ some _ ↦ none | none ↦ some (record m { owner = some i }, locked r) ]
]
psem_step i _ l m (locked signal) = elim (l.cond_error) [
  | some e ↦ some (m, unlocking signal (some e))
  | none ↦ some (cond_signal l.waker m, unlocking signal none)
]
psem_step i _ l m (locked broadcast) = elim (l.cond_error) [
  | some e ↦ some (m, unlocking broadcast (some e))
  | none ↦ some (cond_broadcast m, unlocking broadcast none)
]
psem_step i _ l m (locked wait) = elim (l.cond_error) [
  | some e ↦ some (m, unlocking wait (some e))
  | none ↦ some (record m { owner = none; notify = i ∷ m.notify }, waiting)
]
psem_step i _ l m waiting =
    if elem i m.notify
    then if l.spurious
      then some (record m { notify = remove_all i m.notify; spurious = suc m.spurious }, woken)
      else none
    else some (m, woken)
psem_step i _ l m woken = elim (m.owner) [
  | some _ ↦ none
  | none ↦ some (record m { owner = some i }, unlocking wait none)
]
psem_step i _ l m (unlocking r err) =
    some (record m { owner = none; waited = count_waited r err m.waited }, idle (returned r err))

-- Thread `i` makes the step; an idle thread calls `request`.
pub record Choice : Type 0 where
  pub i : ℕ
  pub request : Request
  pub luck : Luck

abbrev pub chosen : Choice → ℕ
chosen c = c.i

unfoldable pub thread_step : Choice → Psem → Pc → Option (Psem × Pc)
unfolding psem_step
thread_step c m p = psem_step c.i c.request c.luck m p

abbrev pub System : Type 0
System = Threads.System Psem Pc

unfoldable pub step : ℕ → System → Choice → System
step = Threads.step chosen thread_step

unfoldable pub run : ℕ → System → List Choice → System
run = Threads.run chosen thread_step

-- A semaphore that nobody has used yet.
abbrev pub initial : System
initial = record { mem = fresh_psem; thread = λ i. idle nothing_yet }
