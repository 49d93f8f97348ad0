-- ===== src/Thpool/System/Calls.antt =====
-- A call of `thpool_add_task`, `thpool_worker_try_once` or `thpool_total_tasks` that runs alone,
-- step by step, against the function or the queue that describes it.
use native.Mathlib.Decide.{ℕ_discrete}
use libthreads.Fifo.{offer, poll}
use libthreads.Prelude.{
  ℕ, suc, ◌-◌, ◌<◌, ◌≡◌, ◌≢◌, refl, ap, ◌∙◌, ◌==◌, Bool, true, false, length, Bool-cases, inl, inr,
  List, [], ◌∷◌, ◌++◌, Option, none, some, arith, replicate, pos, minus_one,
}
use libthreads.Threads
use libthreads.Waiters.{length-wake_one_some}
use libthreads.Thpool.Pool.{Task, is_full, head_task, dequeue}
use libthreads.Thpool.Ring.{
  IsValid, contents, length-contents, contents-nil, contents-enqueue, contents-dequeue,
}
use libthreads.Thpool.Shared.{Shared, unlock, put_task, signal_notify, wake_one}
use libthreads.Thpool.Client.{
  add_task, worker_try_once, Reply, code, begin, idle, add_lock, add_locked, try_lock, try_locked,
  try_counting, try_taking, try_uncounting, client_step,
}
use libthreads.Thpool.System.{client, Choice, System, step, run}
use libthreads.Thpool.System.Alone.{At, At-step-client}

module _ (n : ℕ) (c : Choice) (s : System) where
  -- What a call of `thpool_worker_try_once` does to the queue: with an empty one it fails after
  -- three steps, else it takes the oldest task and is back after seven.
  abbrev pub TryOnce : Option (Task × List Task) → Type 0
  TryOnce none =
      let u = run n s (replicate 3 c) in
      (u.thread c.i ≡ client (idle (code worker_try_once minus_one))) × (u.mem.pool ≡ s.mem.pool)
  TryOnce (some (t, rest)) =
      let u = run n s (replicate 7 c) in
      (u.thread c.i ≡ client (idle (code worker_try_once (pos 0))))
      × (contents u.mem.pool ≡ rest)
      × (u.mem.started ≡ s.mem.started ++ t ∷ [])
      × (u.mem.executed ≡ s.mem.executed ++ t ∷ [])
      × (u.mem.finished ≡ suc s.mem.finished)

  -- And one of `thpool_add_task`, by the answer of the queue and the queue after it.
  abbrev pub AddTask : Task → Bool × List Task → Type 0
  AddTask t (true, q) =
      let u = run n s (replicate 3 c) in
      (u.thread c.i ≡ client (idle (code (add_task t) (pos 0))))
      × (u.mem.owner ≡ none)
      × (u.mem.added ≡ s.mem.added ++ t ∷ [])
      × (length u.mem.notify ≡ length s.mem.notify - 1)
      × (contents u.mem.pool ≡ q)
  AddTask t (false, q) =
      let u = run n s (replicate 3 c) in
      (u.thread c.i ≡ client (idle (code (add_task t) minus_one)))
      × (u.mem.owner ≡ none)
      × (u.mem.pool ≡ s.mem.pool)
      × (u.mem.notify ≡ s.mem.notify)
      × (contents u.mem.pool ≡ q)

length-signal : (k : ℕ) (l : List ℕ) → length (wake_one k l) ≡ length l - 1
length-signal k [] = refl
length-signal k (x ∷ l) = ground (arith, length-wake_one_some k (x ∷ l))

module _ (n : ℕ) (c : Choice) (here : c.i < n) (s : System) {r : Reply}
    (idles : s.thread c.i ≡ client (idle r)) (free : s.mem.owner ≡ none) where
  abbrev owned : Shared
  owned = record s.mem { owner = some c.i }

  waits_for : At c s s.mem (client (idle r))
  waits_for = record { memory = refl; place = idles }

  -- If the pool is valid and the mutex is free, a client that calls `thpool_add_task` and runs
  -- alone is back after three steps, with the mutex free again. Where `offer` takes the task, as
  -- fewer than `queue_size` are queued, it has returned 0, the task is the last in the queue and in
  -- the log of the tasks added, and one thread fewer waits on `notify`, if any did. Else it has
  -- returned -1, and the pool and the threads that wait are what they were.
  pub add_task_alone :
      (t : Task)
      → c.request ≡ add_task t
      → IsValid s.mem.pool
      → AddTask n c s t (offer s.mem.pool.queue_size (contents s.mem.pool) t)
  unfolding run Threads.run step client_step begin offer
  add_task_alone t asks v =
      let begun = At-step-client n c here {m' = s.mem} {p' = add_lock t} waits_for (rw asks) in
      let locked =
        At-step-client n c here {m' = owned} {p = add_lock t} {p' = add_locked t} begun (rw free) in
      elim (Bool-cases (is_full s.mem.pool)) [
        | inl full ↦
            let ended =
              At-step-client n c here {m' = record s.mem { owner = none }} {p = add_locked t}
                {p' = idle (code (add_task t) minus_one)} locked (rw full) in
            rw (length-contents s.mem.pool, full)
              (
                ended.place,
                ap (λ m. m.owner) ended.memory,
                ap (λ m. m.pool) ended.memory,
                ap (λ m. m.notify) ended.memory,
                ap (λ m. contents m.pool) ended.memory,
              )
        | inr room ↦
            let ended =
              At-step-client n c here {m' = unlock (signal_notify c.luck.waker (put_task t s.mem))}
                {p = add_locked t} {p' = idle (code (add_task t) (pos 0))} locked (rw room) in
            rw (length-contents s.mem.pool, room)
              (
                ended.place,
                ap (λ m. m.owner) ended.memory,
                ap (λ m. m.added) ended.memory,
                ap (λ m. length m.notify) ended.memory ∙ length-signal c.luck.waker s.mem.notify,
                ap (λ m. contents m.pool) ended.memory ∙ contents-enqueue v t (ground arith),
              )
      ]

  try_locked_alone :
      c.request ≡ worker_try_once → At c (run n s (replicate 2 c)) owned (client try_locked)
  unfolding run Threads.run step client_step begin
  try_locked_alone asks =
      let begun = At-step-client n c here {m' = s.mem} {p' = try_lock} waits_for (rw asks) in
      At-step-client n c here {m' = owned} {p = try_lock} {p' = try_locked} begun (rw free)

  try_none : c.request ≡ worker_try_once → s.mem.pool.queue_count ≡ 0 → TryOnce n c s none
  unfolding run Threads.run step client_step
  try_none asks empty =
      let ended =
        At-step-client n c here {m' = record s.mem { owner = none }} {p = try_locked}
          {p' = idle (code worker_try_once minus_one)} (try_locked_alone asks) (rw empty) in
      (ended.place, ap (λ m. m.pool) ended.memory)

  try_some :
      c.request ≡ worker_try_once
      → s.mem.pool.queue_count ≢ 0
      → TryOnce n c s (some (head_task s.mem.pool, contents (dequeue s.mem.pool)))
  unfolding run Threads.run step client_step dequeue head_task
  try_some asks more =
      let tested =
        At-step-client n c here {m' = owned} {p = try_locked} {p' = try_counting}
          (try_locked_alone asks) (rw more_tasks) in
      let counted = At-step-client n c here {p = try_counting} {p' = try_taking} tested refl in
      let taken = At-step-client n c here {p = try_taking} counted refl in
      let executed = At-step-client n c here {p' = try_uncounting} taken refl in
      let ended = At-step-client n c here executed refl in
      (
        ended.place,
        ap (λ m. contents m.pool) ended.memory,
        ap (λ m. m.started) ended.memory,
        ap (λ m. m.executed) ended.memory,
        ap (λ m. m.finished) ended.memory,
      )
    where
      more_tasks : (s.mem.pool.queue_count == 0) ≡ false
      more_tasks = ground arith

  -- If the pool is valid and the mutex is free, a client that calls `thpool_worker_try_once` and
  -- runs alone executes what `poll` takes from the queued tasks, the oldest: after seven steps it
  -- has returned 0, that task is the last in the logs of the tasks taken and of those executed, and
  -- the rest is in the queue. Where the queue is empty, it has returned -1 after three steps, and
  -- the pool is what it was.
  pub worker_try_once_alone :
      c.request ≡ worker_try_once → IsValid s.mem.pool → TryOnce n c s (poll (contents s.mem.pool))
  unfolding poll
  worker_try_once_alone asks v = elim (ℕ_discrete s.mem.pool.queue_count 0) [
    | yes empty ↦ rw (contents-nil s.mem.pool empty) (try_none asks empty)
    | no more ↦ rw (contents-dequeue v more) (try_some asks more)
  ]
