-- ===== src/Lfthpool/Safety.antt =====
-- What holds of a pool of src/threads/lfthpool.c after every schedule.
use libthreads.Prelude.{ℕ, ◌+◌, ◌<◌, ◌≡◌, refl, ap, List, ◌++◌, arith, length, total, total-eq-zero}
use libthreads.Thpool.Pool.{size_max}
use libthreads.Lfthpool.Queue.{RingQueue}
use libthreads.Lfthpool.Create.{IsNew}
use libthreads.Lfthpool.Step.{Lfthpool, Choice, System, run, initial}
use libthreads.Lfthpool.Invariant.{busy, in_flight, Inv, run-Inv}

module _ {Q : Type 0} (queue : RingQueue Q) (n workers : ℕ) (pool : Lfthpool Q)
    (small : n + 1 < size_max) (new : IsNew queue workers pool) where
  pub initial-Inv : Inv queue n (initial workers pool)
  initial-Inv = record {
    small = small;
    logged = rw (new.logs.0, new.logs.1, new.empty) refl;
    counted =
        omega (
          arith,
          new.idle.0,
          total-eq-zero busy n (initial workers pool).thread (λ j. ground arith),
        );
    ended = omega (
      arith,
      new.logs.3,
      ap length new.logs.1,
      total-eq-zero in_flight n (initial workers pool).thread (λ j. ground arith),
    );
  }

  module _ (cs : List Choice) where
    abbrev reached : System Q
    reached = run queue n (initial workers pool) cs

    -- Over any queue that is first in, first out, after any schedule of `n` threads,
    -- `n + 1 < 2 ^ 64`, on a new pool: the tasks that were added are those that were taken from the
    -- queue, followed by those in the queue, in the order in which they were added.
    pub lfthpool_tasks_in_order :
        reached.mem.added ≡ reached.mem.started ++ queue.contents reached.mem.task_queue
    lfthpool_tasks_in_order = (run-Inv queue n (initial workers pool) cs initial-Inv).logged

    -- Over any queue that is first in, first out, after any schedule of `n` threads,
    -- `n + 1 < 2 ^ 64`, on a new pool:
    -- `running_count` is the number of threads between its increment and its decrement, and the
    -- tasks that were taken are those that were executed and those that a thread has still in its
    -- hands, whether or not it has counted itself yet.
    pub lfthpool_counts :
        (reached.mem.running_count ≡ total busy n reached.thread)
        × (length reached.mem.started ≡ reached.mem.finished + total in_flight n reached.thread)
    lfthpool_counts =
        let v = run-Inv queue n (initial workers pool) cs initial-Inv in (v.counted, v.ended)
