-- ===== src/Thpool/System/Destroy.antt =====
-- `thpool_destroy` frees the pool after `thpool_shutdown`.
use libthreads.Prelude.{ℕ, ◌<◌, ◌≡◌, ◌∙◌, sym, ap, true, List, arith, each_once, get_or}
use libthreads.Threads.{blocked_step}
use libthreads.Thpool.Pool.{Pool}
use libthreads.Thpool.Worker.{returned, worker_step}
use libthreads.Thpool.System.{worker, Choice, chosen, thread_step, step, run, initial}
use libthreads.Thpool.System.Join.{freed_returned}

-- After any schedule from a pool on which no call was made, whose `thread_count` is the number of
-- its workers and whose handles are those of its workers, in order, if `pthread_join` was called at
-- most once for each thread: once `thpool_destroy` has freed the pool, every worker has returned
-- from its thread function, and is never run on the memory that was freed.
pub destroy_frees_last :
    (n workers : ℕ) (p : Pool) (cs : List Choice)
    → p.thread_count ≡ workers
    → ((x : ℕ) → x < workers → get_or p.threads x 0 ≡ x)
    → each_once (run n (initial workers p) cs).mem.joins ≡ true
    → (run n (initial workers p) cs).mem.freed ≡ true
    → (c : Choice) → c.i < workers
    → let t = run n (initial workers p) cs in (t.thread c.i ≡ worker returned) × (step n t c ≡ t)
unfolding step thread_step worker_step
destroy_frees_last n workers p cs all own once freed c lt =
    let t = run n (initial workers p) cs in
    let back : t.thread c.i ≡ worker returned =
      (ap t.thread (sym (own c.i lt))
        ∙ freed_returned n workers p cs freed c.i (omega (arith, all))) in
    (back, blocked_step chosen thread_step n t c (λ _. rw back))
