-- ===== src/Lusem/Tests.antt =====
-- Runs of the lightweight semaphore, and its theorems at concrete schedules.
use libthreads.Prelude.{
  false, inr, ℕ, ◌+◌, ◌*◌, ◌≡◌, refl, List, ◌++◌, arith, replicate, pos, pos_part, neg_part, total,
  ssize, negsuc, suc, ◌+ℤ◌,
}
use libthreads.Threads
use libthreads.Lusem.State.{Lusem, new_lusem, lusem_init, sem_value_max}
use libthreads.Lusem.Step.{
  nothing_yet, Request, wait, signal, signal_count, signalled, sem_waiting, idle, posting,
  to_release, Choice, System, lusem_step, thread_step, step, run, initial_system,
}
use libthreads.Lusem.Views.{waiter, pending, amount}
use libthreads.Lusem.Safety.{units_account, no_lost_wakeup}
use libthreads.Lusem.Refinement.{units, gets, lusem_refines_counter}
use libthreads.Lusem.Posting.{lusem_signal_posts, lusem_signal_stays}
use libthreads.Usem.Post.{usem_signal_count}
use libthreads.Lusem.Doubled.{waiting, fast, slow, lusem_init_doubled}

abbrev by : ℕ → ℕ → Request → List Choice
by k i r =
    replicate k (record { i = i; request = r; luck = record { spurious = false; timeout = false } })

-- Thread 1 blocks in `lusem_wait`, thread 0 signals and thread 1 gets through and blocks again.
abbrev handed_over : List Choice
handed_over = by 6 1 (wait 0) ++ by 4 0 signal ++ by 6 1 (wait 0)

after : List Choice → System
unfolding run Threads.run Threads.step thread_step lusem_step
after cs = run 2 (initial_system (new_lusem 0 (pos 0))) cs

handed_over_once : ((after handed_over).mem.acquired ≡ 1) × ((after handed_over).mem.signalled ≡ 1)
unfolding after new_lusem ssize
handed_over_once = (refl, refl)

units_account_example :
    let s = run 2 (initial_system (new_lusem 0 (pos 0))) handed_over in
    s.mem.acquired + pos_part s.mem.m_count + s.mem.sem + total pending 2 s.thread
    ≡ 2 * 0 + s.mem.signalled
unfolding after new_lusem ssize
units_account_example = units_account 2 0 (pos 0) handed_over (omega arith) (omega arith)

no_lost_wakeup_example :
    let s = run 2 (initial_system (new_lusem 0 (pos 0))) handed_over in
    (s.mem.acquired ≡ 2 * 0 + s.mem.signalled)
    × (neg_part s.mem.m_count ≡ total waiter 2 s.thread + 0)
unfolding after new_lusem ssize total
no_lost_wakeup_example =
    no_lost_wakeup 2 0 (pos 0) handed_over (omega arith) (omega arith) 1 (omega arith) refl refl
      refl

lusem_init_doubled_example :
    let s = run 1 (initial_system (new_lusem 3 (pos 0))) (fast 3 ++ slow 3) in
    let t = run 1 s (replicate 5 waiting) in
    (s.mem.acquired ≡ 2 * 3)
    × (s.mem.signalled ≡ 0)
    × (t.thread 0 ≡ sem_waiting 0)
    × (step 1 t waiting ≡ t)
unfolding lusem_init
lusem_init_doubled_example = lusem_init_doubled 3 (omega arith) (new_lusem 3 (pos 0)) refl

-- The next step of thread 0 in `lusem_signal` adds a unit.
abbrev about_to_add : List Choice
about_to_add = by 6 1 (wait 0) ++ by 1 0 signal

lusem_refines_counter_example :
    let s = run 2 (initial_system (new_lusem 0 (pos 0))) about_to_add in
    let c : Choice = record {
      i = 0;
      request = signal;
      luck = record { spurious = false; timeout = false };
    } in
    let t = step 2 s c in
    units 2 t + gets (s.thread c.i) (t.thread c.i) ≡ units 2 s + amount (s.thread c.i)
unfolding after new_lusem ssize step
lusem_refines_counter_example =
    lusem_refines_counter 2 0 (pos 0) about_to_add
      (record { i = 0; request = signal; luck = record { spurious = false; timeout = false } })
      (omega arith) (omega arith) (omega arith)

-- Thread 1 is blocked, and thread 0 signals three units, of which it posts one.
abbrev three_more : Choice
three_more = record {
  i = 0;
  request = signal_count (pos 3);
  luck = record { spurious = false; timeout = false };
}

lusem_signal_posts_example :
    let s = run 2 (initial_system (new_lusem 0 (pos 0))) (by 6 1 (wait 0)) in
    (k : ℕ) × let u = run 2 s (replicate k three_more) in
      (u.thread 0 ≡ idle signalled)
      × (u.mem.sem ≡ 1)
      × (u.mem.m_count ≡ ssize (s.mem.m_count +ℤ pos 3))
unfolding after new_lusem ssize
lusem_signal_posts_example =
    lusem_signal_posts 2 three_more (omega arith)
      (run 2 (initial_system (new_lusem 0 (pos 0))) (by 6 1 (wait 0))) nothing_yet 3 refl
      (inr (refl, omega arith)) (omega arith)

-- With a full semaphore and a waiting thread, one unit is posted for ever.
abbrev full : Lusem
full = record {
  m_count = negsuc 0;
  sem = sem_value_max;
  max_spins = pos 0;
  initial = 0;
  acquired = 0;
  signalled = 0;
}

lusem_signal_stays_example :
    (j : ℕ) × ((run 2 (initial_system full) (replicate (suc (suc 5)) three_more)).thread 0
      ≡ posting (suc j))
unfolding after ssize to_release usem_signal_count
lusem_signal_stays_example =
    lusem_signal_stays 2 three_more (omega arith) 5 (initial_system full) nothing_yet (pos 3) refl
      refl refl
