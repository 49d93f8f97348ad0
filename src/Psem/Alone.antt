-- ===== src/Psem/Alone.antt =====
-- include/threads/psem.h: the steps of a call that runs alone.
use libthreads.Prelude.{
  ℕ, suc, ◌<◌, ◌≡◌, refl, true, false, ◌∷◌, none, some, arith, elem, replicate, Errno,
}
use libthreads.Threads
use libthreads.Threads.{At, At-step, alone_elsewhere, blocked_run}
use libthreads.Psem.Step.{
  Psem, Request, signal, broadcast, wait, Reply, returned, idle, locking, locked, waiting, woken,
  unlocking, Choice, chosen, System, cond_signal, cond_broadcast, psem_step, thread_step, run,
}

-- The calls that the system makes for the thread succeed, and its waits end by a signal.
pub record IsQuiet (c : Choice) : Type 0 where
  pub locks : c.luck.lock_error ≡ none
  pub calls : c.luck.cond_error ≡ none
  pub sleeps : c.luck.spurious ≡ false

module _ (n : ℕ) (c : Choice) (here : c.i < n) (s : System) {r : Reply}
    (idles : s.thread c.i ≡ idle r) (free : s.mem.owner ≡ none) where
  abbrev owned : Psem
  owned = record s.mem { owner = some c.i }

  locked_alone :
      (q : Request)
      → c.request ≡ q
      → c.luck.lock_error ≡ none
      → At chosen thread_step c (run n s (replicate 2 c)) owned (locked q)
  unfolding run Threads.run thread_step
  locked_alone q asks locks =
      let begun =
        At-step chosen thread_step n c {s = s} {m = s.mem} {m' = s.mem} {p = idle r}
          {p' = locking q} here (record { memory = refl; place = idles }) (rw asks) in
      At-step chosen thread_step n c {m' = owned} {p = locking q} {p' = locked q} here begun
        (rw (locks, free))

  pub signal_alone :
      IsQuiet c
      → c.request ≡ signal
      → At chosen thread_step c
          (run n s (replicate 4 c))
          (cond_signal c.luck.waker s.mem)
          (idle (returned signal none))
  unfolding run Threads.run thread_step cond_signal
  signal_alone quiet asks =
      let signalled =
        At-step chosen thread_step n c {m' = cond_signal c.luck.waker owned} {p = locked signal}
          {p' = unlocking signal none} here (locked_alone signal asks quiet.locks)
          (rw quiet.calls) in
      At-step chosen thread_step n c {m' = cond_signal c.luck.waker s.mem}
        {p = unlocking signal none} {p' = idle (returned signal none)} here signalled (ground arith)

  pub broadcast_alone :
      IsQuiet c
      → c.request ≡ broadcast
      → At chosen thread_step c
          (run n s (replicate 4 c))
          (cond_broadcast s.mem)
          (idle (returned broadcast none))
  unfolding run Threads.run thread_step cond_broadcast
  broadcast_alone quiet asks =
      let signalled =
        At-step chosen thread_step n c {m' = cond_broadcast owned} {p = locked broadcast}
          {p' = unlocking broadcast none} here (locked_alone broadcast asks quiet.locks)
          (rw quiet.calls) in
      At-step chosen thread_step n c {m' = cond_broadcast s.mem} {p = unlocking broadcast none}
        {p' = idle (returned broadcast none)} here signalled (ground arith)

  pub wait_alone :
      IsQuiet c
      → c.request ≡ wait
      → At chosen thread_step c
          (run n s (replicate 3 c))
          (record s.mem { notify = c.i ∷ s.mem.notify })
          waiting
  unfolding run Threads.run thread_step
  wait_alone quiet asks =
      At-step chosen thread_step n c {m' = record s.mem { notify = c.i ∷ s.mem.notify }}
        {p = locked wait} {p' = waiting} here (locked_alone wait asks quiet.locks)
        (ground (arith, quiet.calls))

  -- A call that the mutex refuses, and one that the condition variable refuses.
  pub lock_refused :
      (q : Request) (e : Errno)
      → c.request ≡ q
      → c.luck.lock_error ≡ some e
      → At chosen thread_step c (run n s (replicate 2 c)) s.mem (idle (returned q (some e)))
  unfolding run Threads.run thread_step
  lock_refused q e asks refused =
      let begun =
        At-step chosen thread_step n c {s = s} {m = s.mem} {m' = s.mem} {p = idle r}
          {p' = locking q} here (record { memory = refl; place = idles }) (rw asks) in
      At-step chosen thread_step n c {m' = s.mem} {p = locking q} {p' = idle (returned q (some e))}
        here begun (rw refused)

  pub cond_refused :
      (q : Request) (e : Errno)
      → c.request ≡ q
      → c.luck.lock_error ≡ none
      → c.luck.cond_error ≡ some e
      → At chosen thread_step c (run n s (replicate 4 c)) s.mem (idle (returned q (some e)))
  unfolding run Threads.run thread_step
  cond_refused q e asks locks refused =
      let failed =
        At-step chosen thread_step n c {m' = owned} {p = locked q} {p' = unlocking q (some e)} here
          (locked_alone q asks locks) (ground (arith, refused)) in
      At-step chosen thread_step n c {m' = s.mem} {p = unlocking q (some e)}
        {p' = idle (returned q (some e))} here failed (ground (arith, free))

-- A thread that has been taken off the list runs alone, and leaves `psem_wait`.
pub woken_alone :
    (n : ℕ) (c : Choice) (s : System)
    → c.i < n
    → s.thread c.i ≡ waiting
    → elem c.i s.mem.notify ≡ false
    → s.mem.owner ≡ none
    → At chosen thread_step c
        (run n s (replicate 3 c))
        (record s.mem { waited = suc s.mem.waited })
        (idle (returned wait none))
unfolding run Threads.run thread_step
woken_alone n c s here at off free =
    let awake =
      At-step chosen thread_step n c {s = s} {m = s.mem} {m' = s.mem} {p = waiting} {p' = woken}
        here (record { memory = refl; place = at }) (rw off) in
    let relocked =
      At-step chosen thread_step n c {m' = record s.mem { owner = some c.i }} {p = woken}
        {p' = unlocking wait none} here awake (rw free) in
    At-step chosen thread_step n c {m' = record s.mem { waited = suc s.mem.waited }}
      {p = unlocking wait none} {p' = idle (returned wait none)} here relocked (ground arith)

-- A thread on the list stays blocked, however often it is chosen.
pub sleeps_on :
    (n k : ℕ) (c : Choice) (s : System)
    → c.luck.spurious ≡ false
    → s.thread c.i ≡ waiting
    → elem c.i s.mem.notify ≡ true
    → run n s (replicate k c) ≡ s
unfolding run thread_step
sleeps_on n k c s quiet at on =
    blocked_run chosen thread_step n k s c (rw (at, thread_step, psem_step, on, quiet) refl)
