-- ===== src/Psem/Tests.antt =====
-- Runs of a semaphore of include/threads/psem.h, and its theorems at them.
use libthreads.Prelude.{
  ◌<◌, ◌≢◌, zero, ℕ, suc, ◌+◌, ◌≤◌, ◌≡◌, refl, true, false, List, [], ◌∷◌, ◌++◌, none, arith,
  length, elem, replicate,
}
use libthreads.Threads
use libthreads.Psem.Step.{
  Request, signal, broadcast, wait, returned, idle, waiting, Luck, Choice, System, psem_step,
  thread_step, run, initial,
}
use libthreads.Psem.Invariant.{holds, run-Inv}
use libthreads.Psem.Destroy.{psem_destroy, destroyed, psem_destroy-defined}
use libthreads.Psem.Safety.{psem_wait-needs-signal}
use libthreads.Psem.Alone.{IsQuiet}
use libthreads.Psem.Wake.{psem_signal_wakes, psem_broadcast_wakes, psem_signal_lost}

abbrev quiet : Luck
quiet = record { lock_error = none; cond_error = none; waker = 0; spurious = false }

abbrev by : ℕ → Request → Choice
by i r = record { i = i; request = r; luck = quiet }

by-IsQuiet : (i : ℕ) (r : Request) → IsQuiet (by i r)
by-IsQuiet i r = record { locks = refl; calls = refl; sleeps = refl }

-- Threads 0 and 1 wait.
abbrev two_wait : List Choice
two_wait = replicate 3 (by 0 wait) ++ replicate 3 (by 1 wait)

-- Thread 2 signals, and the thread that it woke leaves.
abbrev one_leaves : List Choice
one_leaves = two_wait ++ replicate 4 (by 2 signal) ++ replicate 3 (by 1 wait)

after : List Choice → System
unfolding run Threads.run Threads.step thread_step psem_step
after cs = run 4 initial cs

one_leaves_log :
    ((after one_leaves).thread 1 ≡ idle (returned wait none))
    × ((after one_leaves).thread 0 ≡ waiting)
    × ((after one_leaves).mem.notify ≡ 0 ∷ [])
unfolding after
one_leaves_log = (refl, refl, refl)

psem_wait-needs-signal_example :
    let s = run 4 initial one_leaves in s.mem.waited ≤ s.mem.woken_up + s.mem.spurious
psem_wait-needs-signal_example = psem_wait-needs-signal 4 one_leaves

psem_signal_wakes_example :
    let s = run 4 initial two_wait in
    let u = run 4 s (replicate 4 (by 2 signal)) in
    (u.thread 2 ≡ idle (returned signal none))
    × (suc (length u.mem.notify) ≡ length s.mem.notify)
    × ((w : ℕ) × (elem w s.mem.notify ≡ true)
        × ((d : Choice) → d.i ≡ w → (run 4 u (replicate 3 d)).thread w ≡ idle (returned wait none)))
unfolding after
psem_signal_wakes_example =
    psem_signal_wakes 4 (run 4 initial two_wait) (run-Inv 4 two_wait) (by 2 signal) (omega arith)
      refl refl (by-IsQuiet 2 signal) refl (omega arith)

both_woken :
    let s = run 4 initial two_wait in
    let u = run 4 s (replicate 4 (by 2 broadcast)) in
    (u.thread 2 ≡ idle (returned broadcast none))
    × (u.mem.notify ≡ [])
    × ((d : Choice)
        → elem d.i s.mem.notify ≡ true
        → (run 4 u (replicate 3 d)).thread d.i ≡ idle (returned wait none))
unfolding after
both_woken =
    psem_broadcast_wakes 4 (run 4 initial two_wait) (run-Inv 4 two_wait) (by 2 broadcast)
      (omega arith) refl refl (by-IsQuiet 2 broadcast) refl

psem_signal_lost_example :
    (run 4
        (run 4 (run 4 initial (replicate 4 (by 2 signal))) (replicate 3 (by 0 wait)))
        (replicate 9 (by 0 wait))).thread
      0
    ≡ waiting
psem_signal_lost_example =
    psem_signal_lost 4 initial (by 2 signal) (omega arith) refl refl (by 0 wait)
      (by-IsQuiet 2 signal) refl refl (omega arith) (omega arith) refl (by-IsQuiet 0 wait) refl 9

-- After a wait and a broadcast all threads are idle.
abbrev all_back : List Choice
all_back =
    two_wait ++ replicate 4 (by 2 broadcast) ++ replicate 3 (by 0 wait) ++ replicate 3 (by 1 wait)

all_idle :
    (j : ℕ)
    → j < 3
    → (holds ((run 3 initial all_back).thread j) ≡ false)
      × ((run 3 initial all_back).thread j ≢ waiting)
unfolding run Threads.run Threads.step thread_step psem_step
all_idle zero lt = (refl, ground arith)
all_idle (suc zero) lt = (refl, ground arith)
all_idle (suc (suc zero)) lt = (refl, ground arith)
all_idle (suc (suc (suc j))) lt = absurd (omega arith)

ended_semaphore : psem_destroy (run 3 initial all_back).mem ≡ destroyed
ended_semaphore = psem_destroy-defined 3 all_back all_idle
