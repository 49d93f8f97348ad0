-- ===== src/Lusem/Views.antt =====
-- What the place where a thread stands says of the semaphore's counters, and what a step does to
-- them.
use libthreads.Prelude.{
  ℕ, zero, suc, ◌+◌, ◌^◌, ◌<◌, ◌≡◌, true, some, arith, ℤ, is_neg, is_pos, pos_part, neg_part, ◌+ℤ◌,
  pred_ℤ, ssize, ssize_small,
}
use libthreads.Lusem.State.{Lusem}
use libthreads.Lusem.Step.{
  Request, signal, signal_count, only_try, waits, Pc, idle, reading, testing, swapping,
  spin_swapping, subtracting, sem_waiting, readjusting, readjust_trying, readjust_swapping, adding,
  posting, Luck, lusem_step,
}

-- Has taken one off `m_count`, and has neither got a unit of `sem` nor put the one back.
abbrev pub waiter : Pc → ℕ
waiter (sem_waiting _) = 1
waiter readjusting = 1
waiter readjust_trying = 1
waiter (readjust_swapping _) = 1
waiter _ = 0

-- Units that are still to be posted to `sem`.
abbrev pub pending : Pc → ℕ
pending (posting k) = k
pending _ = 0

-- Units that are about to be signalled.
abbrev pub amount : Pc → ℕ
amount (adding count) = pos_part count
amount _ = 0

-- The tests that a thread has made on its locals.
abbrev pub Knows : Pc → Type 0
Knows (swapping mode old) = is_pos old ≡ true
Knows (spin_swapping t spin old) = is_pos old ≡ true
Knows (readjust_swapping old) = is_neg old ≡ true
Knows (adding count) = is_pos count ≡ true
Knows _ = Unit {0}

-- What a step starts from: neither the sum nor the difference overflows `ssize_t`.
pub record Before (m : Lusem) (p : Pc) : Type 0 where
  pub knows : Knows p
  pub above : pos_part m.m_count + amount p < 2 ^ 63
  pub below : neg_part m.m_count < 2 ^ 63

pub record After (m : Lusem) (p : Pc) (m' : Lusem) (p' : Pc) : Type 0 where
  pub knows : Knows p'
  pub kept : m'.initial ≡ m.initial
  pub balance :
      m'.sem + pending p' + neg_part m'.m_count + waiter p
      ≡ m.sem + pending p + neg_part m.m_count + waiter p'
  pub account :
      m'.acquired + pos_part m'.m_count + m'.sem + pending p' + m.signalled
      ≡ m.acquired + pos_part m.m_count + m.sem + pending p + m'.signalled

-- What a step signals, whatever it starts from.
pub lusem_step-signals :
    (r : Request) (l : Luck) (m : Lusem) (p : Pc) {m' : Lusem} {p' : Pc}
    → lusem_step r l m p ≡ some (m', p')
    → m'.signalled ≡ m.signalled + amount p
unfolding lusem_step
lusem_step-signals r l m (testing only_try old) e = ground arith
lusem_step-signals r l m (sem_waiting zero) e = ground arith
lusem_step-signals r l m (sem_waiting (suc t)) e = ground arith
lusem_step-signals r l m (posting zero) e = ground arith
lusem_step-signals r l m p e = ground arith

pred_small : (z : ℤ) → pos_part z < 2 ^ 63 → neg_part z < 2 ^ 63 → ssize (pred_ℤ z) ≡ pred_ℤ z
pred_small z h k = ssize_small (pred_ℤ z) (ground arith) (ground arith)

sum_small :
    (z c : ℤ)
    → is_pos c ≡ true
    → pos_part z + pos_part c < 2 ^ 63
    → neg_part z < 2 ^ 63
    → ssize (z +ℤ c) ≡ z +ℤ c
sum_small z c p h k = ssize_small (z +ℤ c) (ground arith) (ground arith)

pub lusem_step-After :
    (r : Request) (l : Luck) (m : Lusem) (p : Pc) {m' : Lusem} {p' : Pc}
    → Before m p
    → lusem_step r l m p ≡ some (m', p')
    → After m p m' p'
unfolding lusem_step
lusem_step-After r l m (reading mode) b e = ground arith
lusem_step-After signal l m (idle _) b e = ground arith
lusem_step-After (signal_count c) l m (idle _) b e = ground arith
lusem_step-After _ l m (idle _) b e = ground arith
lusem_step-After r l m (testing only_try old) b e = ground arith
lusem_step-After r l m (testing (waits t) old) b e = ground arith
lusem_step-After r l m (subtracting t) b e = ground (arith, pred_small m.m_count)
lusem_step-After r l m (adding count) b e = ground (arith, sum_small m.m_count count)
lusem_step-After r l m (sem_waiting zero) b e = ground arith
lusem_step-After r l m (sem_waiting (suc t)) b e = ground arith
lusem_step-After r l m (posting zero) b e = ground arith
lusem_step-After r l m (posting (suc k)) b e = ground arith
lusem_step-After r l m p b e = ground arith
