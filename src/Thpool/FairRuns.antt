-- ===== src/Thpool/FairRuns.antt =====
-- Rounds of a pool of one worker with one caller, in which both go on until nothing moves.
use libthreads.Prelude.{
  All-replicate, each_once, zero, suc, ◌≡◌, refl, true, false, List, [], ◌∷◌, ◌++◌, arith, length,
  replicate, total,
}
use libthreads.Threads
use libthreads.Thpool.Pool.{enqueue}
use libthreads.Thpool.Worker.{worker_step}
use libthreads.Thpool.Client.{wait, destroy, shutdown, client_step}
use libthreads.Thpool.System.{Choice, thread_step, step, run, initial}
use libthreads.Thpool.System.Completion.{is_over}
use libthreads.Thpool.System.Settle.{go_on, go_on_all, go_rounds, IsRound, work_left}
use libthreads.Thpool.System.OneClose.{one_close-each_once}
use libthreads.Thpool.System.Finish.{tasks_get_done, shutdown_gets_done}
use libthreads.Thpool.Schedules.{
  fresh, fresh-IsNew, by, two_added, broadcasting, joined, call, work, own_handle,
}

-- In a round the caller is chosen before the worker.
abbrev round : List Choice
round = by 1 wait ∷ by 0 wait ∷ []

round-IsRound : IsRound 2 round
round-IsRound zero lt = omega arith
round-IsRound (suc zero) lt = omega arith
round-IsRound (suc (suc j)) lt = absurd (omega arith)

-- Two tasks are queued.
added_work : work_left 2 (run 2 (initial 1 fresh) two_added) ≡ 73
unfolding work_left total run Threads.run Threads.step thread_step worker_step client_step enqueue
added_work = refl

tasks_get_done_example :
    let t = go_rounds 2 (run 2 (initial 1 fresh) two_added) (replicate 74 round) in
    (t.mem.pool.queue_count ≡ 0)
    × (t.mem.pool.running_count ≡ 0)
    × (t.mem.finished ≡ length t.mem.added)
unfolding run Threads.run Threads.step thread_step worker_step client_step enqueue
tasks_get_done_example =
    tasks_get_done 2 1 2 fresh (omega arith) (omega arith) (omega arith) fresh-IsNew two_added
      (replicate 74 round) refl (ground arith) (All-replicate (IsRound 2) 74 round round-IsRound)
      (omega (arith, added_work))

-- Thread 1 is about to broadcast while the worker sleeps.
broadcast_work :
    work_left 2 (run 2 (step 2 (run 2 (initial 1 fresh) broadcasting) (by 1 shutdown)) []) ≡ 52
unfolding work_left total run Threads.run step Threads.step thread_step worker_step client_step
broadcast_work = refl

-- The worker is joined once.
joined_once :
    let s = run 2 (step 2 (run 2 (initial 1 fresh) broadcasting) (by 1 shutdown)) [] in
    each_once (go_rounds 2 s (replicate 99 round)).mem.joins ≡ true
unfolding run Threads.run step Threads.step thread_step worker_step client_step go_rounds go_on_all
    go_on
joined_once = refl

shutdown_gets_done_example :
    let s = run 2 (step 2 (run 2 (initial 1 fresh) broadcasting) (by 1 shutdown)) [] in
    is_over ((go_rounds 2 s (replicate 99 round)).thread 1) ≡ true
unfolding run Threads.run step Threads.step thread_step worker_step client_step
shutdown_gets_done_example =
    shutdown_gets_done 2 1 2 fresh (omega arith) (omega arith) (omega arith) fresh-IsNew
      broadcasting (omega arith) own_handle (by 1 shutdown) (omega arith) refl []
      (replicate 99 round) refl (All-replicate (IsRound 2) 99 round round-IsRound)
      (omega (arith, broadcast_work)) joined_once 1 (omega arith)

-- Thread 1 shuts the pool down and then destroys it: the worker is joined twice.
abbrev shut_and_destroyed : List Choice
shut_and_destroyed = joined ++ call 6 1 destroy

rejoined :
    let t = run 2 (initial 1 fresh) shut_and_destroyed in
    (t.mem.joins ≡ 0 ∷ 0 ∷ []) × (each_once t.mem.joins ≡ false)
unfolding run Threads.run Threads.step thread_step worker_step client_step
rejoined = (refl, refl)

-- One call of `thpool_shutdown`, which goes on beside the worker.
abbrev closed_once : List Choice
closed_once = call 1 1 shutdown ++ call 3 1 wait ++ work 5 ++ call 2 1 wait

closed_once_joins : each_once (run 2 (initial 1 fresh) closed_once).mem.joins ≡ true
closed_once_joins = one_close-each_once 2 1 fresh closed_once own_handle (omega arith)
