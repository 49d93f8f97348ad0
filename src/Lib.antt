-- ===== src/Lib.antt =====
-- libthreads: thread pools and lightweight semaphores in C, verified as a library.
--
-- The program's parts.
-- - `thpool` (src/threads/thpool.c, include/threads/thpool.h): a pool of worker threads that take
--   tasks from a bounded ring under one mutex, with a condition variable for new tasks (`notify`)
--   and one for the end of the work (`notify_empty`).
-- - `lfthpool` (src/threads/lfthpool.c, include/threads/lfthpool.h): a pool without mutex, whose
--   workers poll a lock-free ring of another library.
-- - `lusem` (src/threads/lusem.c, include/threads/lusem.h): a semaphore that counts in an atomic
--   integer, `m_count`, and falls back to a system semaphore when it has to block.
-- - `usem` (include/threads/usem.h): the system semaphore, with loops around the POSIX calls, or
--   on macOS one of libdispatch.
-- - `psem` (include/threads/psem.h): a mutex and a condition variable, wrapped one call at a
--   time.
-- - `utils` (src/threads/utils.c): the number of processors.
-- The pools and the semaphores do not call each other; `lusem` is built on `usem`.
--
-- Which file models what.
-- - `Prelude` and its children: the names the others share, Boolean tests, lists over the native
--   numbers, integers with `ssize_t` overflow (`ssize`), families of threads with sums over them
--   (`total`), error numbers.
-- - `Threads`: threads over a shared memory, for any type of memory and of places: a step of the
--   thread that a choice names, runs, what every step keeps, and what a thread does that runs
--   alone. The pools, lusem and psem are systems of such threads.
-- - `Fifo`: a bounded first-in first-out queue as a list, the abstract view of a pool's ring, and
--   `Moves`, what one step of a concurrent queue may do to it.
-- - `Waiters`: lists of waiting threads, for the condition variables of both pools and
--   semaphores.
-- - `Thpool.Pool`: `struct task` and `struct thpool` as `Task` and `Pool`; `thpool_add_task` and
--   `thpool_add_task_try` as functions into `Outcome`, the return value, `errno`, the calls made
--   and the pool after. `thpool_add_task_try` takes as an argument what the other threads do to
--   the pool between its attempts.
-- - `Thpool.Ring`: the ring as a queue. Thpool.Add: adding a task, against Fifo.
-- - `Thpool.Create`: `thpool_create` from the answers of the system calls, with the part of
--   `thpool_destroy` that its error paths reach; Thpool.Create.Outcomes: its results.
-- - `Thpool.Shared`: `Shared`, what the threads of a pool share, and the uses of mutex and
--   condition variables. Thpool.Worker: `_thpool_worker`, and Thpool.Client: the public calls, as
--   steps of one shared access each, with what happens under the mutex between two tests in one
--   step.
-- - `Thpool.System`: the threads together. A schedule is a list of `Choice`, each a thread with
--   the call that it begins if it is idle; `run` is executable and total, and a thread that is
--   blocked leaves the system as it is. The children hold the invariant (Views, Steps, Invariant),
--   what holds after every schedule (Safety), the pool against the bounded queue (Refinement),
--   steps and calls of one thread that runs alone (Alone, Calls), progress (Progress), shutdown
--   (Shutdown, Exits, Join, OneClose), `thpool_destroy` (Destroy), a wait beside
--   `thpool_worker_try_once` (LostWakeup), who wakes a waiting thread (Waiting), the executions of
--   each task (Once), a shutdown of a paused pool (Paused), the states in which no thread can move
--   (Sleepers, Awake, Rest, Completion), and fair schedules, in which a pool comes to such a state
--   (Blocked, Weight, Settle, Rounds, Finish).
-- - `Lfthpool.Queue`: what the code relies on of the ring queue, as a record of calls and laws.
--   Lfthpool.Step: `struct lfthpool`, the worker loop and the public calls, one shared access a
--   step, over any such queue, and the threads together. Lfthpool.Create: `lfthpool_create_sched`
--   from the answers of the calls that it makes. Lfthpool.Invariant, Lfthpool.Safety: what holds
--   after every schedule; Lfthpool.Refinement: the pool against a queue; Lfthpool.Join and
--   Lfthpool.Shutdown: the handles of the workers; Lfthpool.OneClose: who joins them;
--   Lfthpool.EarlyWait and Lfthpool.AddTry: calls of `lfthpool_wait` and of
--   `lfthpool_add_task_try` that run alone; Lfthpool.Progress: a worker that runs alone;
--   Lfthpool.Nearer, Lfthpool.Fair, Lfthpool.Finish: tasks in a fair schedule; Lfthpool.Once: the
--   executions of each task; Lfthpool.Memory: the blocks that are allocated for tasks;
--   Lfthpool.Remaining, Lfthpool.Ending, Lfthpool.Kinds and Lfthpool.Closing: tasks, workers and
--   callers after a shutdown.
-- - `Lusem.State`, Lusem.Step: the struct and its operations, one atomic access a step, in any
--   interleaving of any number of threads. Views and Invariant: what relates the counters;
--   Safety, Refinement and Doubled: the results; Lusem.Posting: what a signal asks of
--   `usem_signal_count`.
-- - `Usem.Retry`, Usem.Deadline, Usem.Post: the POSIX branch, the loops around `sem_wait`,
--   `sem_trywait`, `sem_timedwait` and `sem_post`, and the computation of the deadline.
--   Usem.Dispatch: what the Mach branch relies on of libdispatch, as a record of calls and laws;
--   Usem.Mach: that branch, over any such semaphore; Usem.Branches: the timeouts of the two.
-- - `Psem.Step`: the struct and its calls, with the answers of the system. Psem.Invariant,
--   Psem.Safety: what holds after every schedule; Psem.Alone, Psem.Wake: calls that run alone;
--   Psem.Destroy: when `psem_destroy` is defined.
-- - `Utils`: the two branches of `threads_cpu_count` (src/threads/utils.c).
-- - The modules called Tests, Schedules, Endings and FairRuns evaluate the code on concrete
--   inputs.
--
-- Correspondence. Fields keep their names (`thpool->thpool` is `threads`), pointers and handles
-- are numbers, `size_t` and `ssize_t` arithmetic is taken modulo 2 ^ 64. Atomics are sequentially
-- consistent: the memory orders of the source are not modelled. A condition variable is the list
-- of the threads that wait on it; `pthread_cond_signal` wakes any one of them, and a wait may end
-- without a signal. `Shared`, `Lfthpool`, `Lusem` and `Psem` carry a few ghost fields, the log of
-- the tasks, the blocks of memory allocated and freed for them, the threads that `pthread_join`
-- was called for, and the units acquired and signalled, which no step reads. To join a thread
-- twice, or while another thread joins it, is undefined, and both pools may do so: thpool never
-- clears a handle, so that a second `thpool_shutdown` or `thpool_destroy` joins the workers again,
-- and lfthpool clears it after the join, so that two callers may both have read it. A run in which
-- this has happened has a number twice in `joins`; the theorems on what a shutdown achieves ask
-- for `each_once joins`, and say nothing of such runs. Thpool.System.OneClose and
-- Lfthpool.OneClose give it for schedules in which one call shuts the pool down. The call of a
-- task's function is one step: it returns, and does nothing to the pool or the semaphores itself.
--
-- Bounds and fuel. Threads are numbered below any `n`; the theorems on counters ask for `n + 1`
-- below 2 ^ 64, and those on `lusem` for sums below 2 ^ 63, past which the C types overflow. Fuel
-- occurs in `usem_signal_count` alone, and bounds the calls of `sem_post`: one for each unit is
-- enough where the value has room. The loops of `usem_wait` and its like recurse on the list of
-- the system's answers, that of `thpool_add_task_try` on `max_try`, and every other loop is a
-- sequence of steps. Fair schedules are lists of rounds: `work_left` gives a number of rounds
-- that is enough for a pool that is not paused, thirteen for each queued task, eighteen for each
-- thread, and the weight of each thread's place.
--
-- Not modelled. What `thpool_destroy` and `lfthpool_destroy` free is one step, and
-- `lusem_destroy` and `usem_destroy` only call a destructor of the system. `sched_usleep` of
-- lfthpool.c yields and sleeps, which is one step that changes nothing. Left out are
-- pthread_barrier.c and ctest.h, copies of other projects that only the tests use, the tests, the
-- benchmarks and the build files.
pub mod Prelude
pub mod Threads
pub mod Fifo
pub mod Waiters
pub mod Thpool
pub mod Lfthpool
pub mod Lusem
pub mod Usem
pub mod Psem
pub mod Utils
