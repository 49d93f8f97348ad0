-- ===== src/Psem/Wake.antt =====
-- include/threads/psem.h: calls that run alone, and what they do to the threads that wait.
use mathlib.Core.Path.{subst}
use libthreads.Prelude.{
  ℕ, suc, ◌<◌, ◌≡◌, ◌≢◌, refl, sym, ap, ◌∙◌, true, false, [], none, some, arith, length, elem,
  replicate, Errno,
}
use libthreads.Threads
use libthreads.Threads.{At, At-step, alone_elsewhere, blocked_run}
use libthreads.Psem.Step.{
  Psem, Request, signal, broadcast, wait, Reply, returned, Pc, idle, waiting, Choice, chosen,
  System, cond_signal, cond_broadcast, thread_step, run,
}
use libthreads.Waiters.{woken_one, elem-woken_one, woken_one-wake_one, length-wake_one_some}
use libthreads.Psem.Invariant.{Inv}
use libthreads.Psem.Alone.{
  IsQuiet, signal_alone, broadcast_alone, wait_alone, lock_refused, cond_refused, woken_alone,
  sleeps_on,
}

-- A thread that was on the list, and is not any more after another has run alone.
listed_returns :
    (n : ℕ) (s : System)
    → Inv n s
    → (c : Choice) → c.i < n
    → {r : Reply} → s.thread c.i ≡ idle r
    → (d : Choice) → elem d.i s.mem.notify ≡ true
    → {m : Psem} {p : Pc} → At chosen thread_step c (run n s (replicate 4 c)) m p
    → elem d.i m.notify ≡ false
    → m.owner ≡ none
    → (run n (run n s (replicate 4 c)) (replicate 3 d)).thread d.i ≡ idle (returned wait none)
unfolding run
listed_returns n s v c here idles d on {m = m} at off free =
    let (lt, asleep) = v.listed d.i on in
    let other : c.i ≢ d.i = (λ e. cc (asleep, idles, ap s.thread e)) in
    (woken_alone n d (run n s (replicate 4 c)) lt
      (alone_elsewhere chosen thread_step n s c 4 d.i other ∙ asleep) (rw at.memory off)
      (rw at.memory free)).place

module _ (n : ℕ) (s : System) (v : Inv n s) (c : Choice) (here : c.i < n) {r : Reply}
    (idles : s.thread c.i ≡ idle r) (free : s.mem.owner ≡ none) where
  -- If a thread waits and the mutex is free, a call of `psem_signal` that runs alone and is refused
  -- by nothing returns 0 and takes exactly one thread off the list of those that wait; that thread,
  -- when it runs alone next, returns 0 from `psem_wait`.
  pub psem_signal_wakes :
      IsQuiet c
      → c.request ≡ signal
      → 0 < length s.mem.notify
      → let u = run n s (replicate 4 c) in
        (u.thread c.i ≡ idle (returned signal none))
        × (suc (length u.mem.notify) ≡ length s.mem.notify)
        × ((w : ℕ) × (elem w s.mem.notify ≡ true)
            × ((d : Choice)
                → d.i ≡ w
                → (run n u (replicate 3 d)).thread w ≡ idle (returned wait none)))
  unfolding cond_signal
  psem_signal_wakes quiet asks some_wait =
      let at = signal_alone n c here s idles free quiet asks in
      let w = woken_one c.luck.waker s.mem.notify in
      let on = elem-woken_one c.luck.waker s.mem.notify some_wait in
      (
        at.place,
        ap (λ m. suc (length m.notify)) at.memory
            ∙ length-wake_one_some c.luck.waker s.mem.notify some_wait,
        (
          w,
          on,
          (λ d is_w.
              subst
                (λ j.
                  (run n (run n s (replicate 4 c)) (replicate 3 d)).thread j
                  ≡ idle (returned wait none))
                is_w
                (listed_returns n s v c here idles d (rw is_w on) at
                  (rw is_w (woken_one-wake_one c.luck.waker s.mem.notify v.distinct some_wait))
                  free)),
        ),
      )

  -- If the mutex is free, a call of `psem_broadcast` that runs alone and is refused by nothing
  -- returns 0 and leaves no thread on the list; each that was on it, when it runs alone next,
  -- returns 0 from `psem_wait`.
  pub psem_broadcast_wakes :
      IsQuiet c
      → c.request ≡ broadcast
      → let u = run n s (replicate 4 c) in
        (u.thread c.i ≡ idle (returned broadcast none))
        × (u.mem.notify ≡ [])
        × ((d : Choice)
            → elem d.i s.mem.notify ≡ true
            → (run n u (replicate 3 d)).thread d.i ≡ idle (returned wait none))
  unfolding cond_broadcast
  psem_broadcast_wakes quiet asks =
      let at = broadcast_alone n c here s idles free quiet asks in
      (
        at.place,
        ap (λ m. m.notify) at.memory,
        (λ d on. listed_returns n s v c here idles d on at refl free),
      )

module _ (n : ℕ) (s : System) (c : Choice) (here : c.i < n) {r : Reply}
    (idles : s.thread c.i ≡ idle r) (free : s.mem.owner ≡ none) where
  -- If no thread waits and the mutex is free, a signal is lost: a thread that calls `psem_wait`
  -- after it and runs alone from then on never returns, unless its wait ends with no signal.
  pub psem_signal_lost :
      (d : Choice) {r' : Reply}
      → IsQuiet c
      → c.request ≡ signal
      → s.mem.notify ≡ []
      → d.i < n
      → c.i ≢ d.i
      → s.thread d.i ≡ idle r'
      → IsQuiet d
      → d.request ≡ wait
      → (k : ℕ)
      → (run n (run n (run n s (replicate 4 c)) (replicate 3 d)) (replicate k d)).thread d.i
        ≡ waiting
  unfolding run Threads.run cond_signal
  psem_signal_lost d {r' = r'} quiet asks nobody there other idles' quiet' asks' k =
      let at = signal_alone n c here s idles free quiet asks in
      let u = run n s (replicate 4 c) in
      let asleep =
        wait_alone n d there u {r = r'}
          (alone_elsewhere chosen thread_step n s c 4 d.i other ∙ idles')
          (ap (λ m. m.owner) at.memory ∙ free) quiet' asks' in
      subst (λ t. t.thread d.i ≡ waiting)
        (sym (
          sleeps_on n k d (run n u (replicate 3 d)) quiet'.sleeps asleep.place
            (rw asleep.memory (ground arith))))
        asleep.place

  -- If `pthread_mutex_lock` fails, or the mutex is free and the call on the condition variable
  -- fails, a call of any of the three operations returns the error and leaves the semaphore as it
  -- was.
  pub psem_fails :
      (q : Request) (e : Errno)
      → c.request ≡ q
      → (c.luck.lock_error ≡ some e
          → let u = run n s (replicate 2 c) in
            (u.thread c.i ≡ idle (returned q (some e))) × (u.mem ≡ s.mem))
        × (c.luck.lock_error ≡ none
            → c.luck.cond_error ≡ some e
            → let u = run n s (replicate 4 c) in
              (u.thread c.i ≡ idle (returned q (some e))) × (u.mem ≡ s.mem))
  psem_fails q e asks = (
    (λ refused.
        let at = lock_refused n c here s idles free q e asks refused in (at.place, at.memory)),
    (λ locks refused.
        let at = cond_refused n c here s idles free q e asks locks refused in
        (at.place, at.memory)),
  )
