-- ===== src/Lusem/Step.antt =====
-- include/threads/lusem.h and src/threads/lusem.c: the operations, one atomic access at a time, and
-- the threads that call them, in any interleaving. The atomics are taken as sequentially
-- consistent.
use libthreads.Prelude.{
  ℕ, zero, suc, ◌+◌, Bool, List, Option, none, some, if◌then◌else◌, ltb, ℤ, pos, is_neg, is_pos,
  pred_ℤ, pos_part, ◌+ℤ◌, neg_ℤ, ltb_ℤ, eq_ℤ, ssize,
}
use libthreads.Threads
use libthreads.Lusem.State.{Lusem, sem_value_max}

-- The calls. `wait timeout_usecs` is `lusem_timed_wait`, and at 0 it is `lusem_wait`.
pub data Request : Type 0 where
  try_wait : Request
  wait : ℕ → Request
  signal : Request
  signal_count : ℤ → Request

pub data Reply : Type 0 where
  nothing_yet got_it not_got : Reply
  signalled : Reply

-- Which of the waits a thread is in: `lusem_try_wait` alone, or the first part of a wait.
pub data Mode : Type 0 where
  only_try : Mode
  waits : ℕ → Mode

-- Where a thread stands, with the locals that are live there.
pub data Pc : Type 0 where
  idle : Reply → Pc
  -- `lusem_try_wait`
  reading : Mode → Pc
  testing : Mode → ℤ → Pc
  swapping : Mode → ℤ → Pc
  -- `lusem_wait_with_part_spin`
  spinning : ℕ → ℤ → Pc
  spin_reading : ℕ → ℤ → Pc
  spin_swapping : ℕ → ℤ → ℤ → Pc
  subtracting : ℕ → Pc
  sem_waiting : ℕ → Pc
  readjusting : Pc
  readjust_trying : Pc
  readjust_swapping : ℤ → Pc
  -- `lusem_signal`, `lusem_signal_count`
  adding : ℤ → Pc
  posting : ℕ → Pc

-- What a step leaves open: whether a weak exchange fails with no reason, and whether a wait on
-- `sem` has run into its timeout.
pub record Luck : Type 0 where
  pub spurious : Bool
  pub timeout : Bool

unfoldable pub begin : Request → Pc
begin try_wait = reading only_try
begin (wait timeout_usecs) = reading (waits timeout_usecs)
begin signal = adding (pos 1)
begin (signal_count count) = if is_pos count then adding count else idle signalled

-- `lusem_try_wait` has failed: it returns -1, or `lusem_wait_with_part_spin` begins.
unfoldable pub not_tried : Lusem → Mode → Pc
not_tried m only_try = idle not_got
not_tried m (waits t) = spinning t m.max_spins

-- A wait returns 0.
abbrev pub acquire : Lusem → Lusem
acquire m = record m { acquired = suc m.acquired }

-- What `lusem_signal_count` hands on to `usem_signal_count`.
unfoldable pub to_release : ℤ → ℤ → ℤ
to_release old count = if ltb_ℤ (neg_ℤ old) count then neg_ℤ old else count

-- Once the value of `m_count` is old: add and post, or only add.
unfoldable pub add_count : Lusem → ℤ → Lusem × Pc
unfolding to_release
add_count m count = (
  record m { m_count = ssize (m.m_count +ℤ count); signalled = m.signalled + pos_part count },
  (if is_pos (to_release m.m_count count)
      then posting (pos_part (to_release m.m_count count))
      else idle signalled),
)

-- A step of a thread, which calls `r` when it is idle; `none` if it is blocked.
unfoldable pub lusem_step : Request → Luck → Lusem → Pc → Option (Lusem × Pc)
unfolding begin not_tried add_count
lusem_step r l m (idle _) = some (m, begin r)
lusem_step r l m (reading mode) = some (m, testing mode m.m_count)
lusem_step r l m (testing mode old) =
    if is_pos old then some (m, swapping mode old) else some (m, not_tried m mode)
lusem_step r l m (swapping mode old) =
    if l.spurious
    then some (m, testing mode m.m_count)
    else if eq_ℤ m.m_count old
    then some (acquire (record m { m_count = pred_ℤ old }), idle got_it)
    else some (m, testing mode m.m_count)
lusem_step r l m (spinning t spin) =
    if is_neg (pred_ℤ spin) then some (m, subtracting t) else some (m, spin_reading t (pred_ℤ spin))
lusem_step r l m (spin_reading t spin) =
    if is_pos m.m_count then some (m, spin_swapping t spin m.m_count) else some (m, spinning t spin)
lusem_step r l m (spin_swapping t spin old) =
    if eq_ℤ m.m_count old
    then some (acquire (record m { m_count = pred_ℤ old }), idle got_it)
    else some (m, spinning t spin)
lusem_step r l m (subtracting t) =
    if is_pos m.m_count
    then some (acquire (record m { m_count = ssize (pred_ℤ m.m_count) }), idle got_it)
    else some (record m { m_count = ssize (pred_ℤ m.m_count) }, sem_waiting t)
-- With `timeout_usecs` 0 the wait has no timeout.
lusem_step r l m (sem_waiting zero) = elim (m.sem) [
  | zero ↦ none
  | suc n ↦ some (acquire (record m { sem = n }), idle got_it)
]
lusem_step r l m (sem_waiting (suc t)) = elim (m.sem) [
  | zero ↦ if l.timeout then some (m, readjusting) else none
  | suc n ↦
      if l.timeout
      then some (m, readjusting)
      else some (acquire (record m { sem = n }), idle got_it)
]
lusem_step r l m readjusting =
    if is_neg m.m_count then some (m, readjust_swapping m.m_count) else some (m, readjust_trying)
lusem_step r l m readjust_trying = elim (m.sem) [
  | zero ↦ some (m, readjusting)
  | suc n ↦ some (acquire (record m { sem = n }), idle got_it)
]
lusem_step r l m (readjust_swapping old) =
    if eq_ℤ m.m_count old
    then some (record m { m_count = old +ℤ pos 1 }, idle not_got)
    else some (m, readjusting)
lusem_step r l m (adding count) = some (add_count m count)
-- `while (sem_post(sem) == -1)`: at its greatest value the semaphore takes no more.
lusem_step r l m (posting zero) = some (m, idle signalled)
lusem_step r l m (posting (suc k)) =
    if ltb m.sem sem_value_max
    then some (record m { sem = suc m.sem }, posting k)
    else some (m, posting (suc k))

pub record Choice : Type 0 where
  pub i : ℕ
  pub request : Request
  pub luck : Luck

abbrev pub chosen : Choice → ℕ
chosen c = c.i

unfoldable pub thread_step : Choice → Lusem → Pc → Option (Lusem × Pc)
thread_step c m p = lusem_step c.request c.luck m p

abbrev pub System : Type 0
System = Threads.System Lusem Pc

unfoldable pub step : ℕ → System → Choice → System
step = Threads.step chosen thread_step

unfoldable pub run : ℕ → System → List Choice → System
run = Threads.run chosen thread_step

-- A semaphore that nobody has used yet.
abbrev pub initial_system : Lusem → System
initial_system m = record { mem = m; thread = λ _. idle nothing_yet }
