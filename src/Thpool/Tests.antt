-- ===== src/Thpool/Tests.antt =====
-- Runs of the pool of src/threads/thpool.c, and the theorems at concrete pools and schedules.
use libthreads.Fifo.{offer}
use libthreads.Prelude.{
  ℕ, zero, suc, ◌^◌, ◌<◌, ◌≡◌, refl, ◌⊎◌, true, false, [], ◌∷◌, none, some, arith, length, pos,
  negsuc, minus_one, Errno, eagain, einval,
}
use libthreads.Thpool.Pool.{
  Task, no_task, Pool, yields, sleeps, signals, dequeue, enqueue, thpool_add_task,
  thpool_add_task_try,
}
use libthreads.Thpool.Ring.{IsValid, contents}
use libthreads.Thpool.Add.{accepted, TryResult, thpool_add_task-offer, thpool_add_task_try-attempts}
use libthreads.Thpool.Create.{Answers, returned, null, undefined, IsNew, thpool_create}
use libthreads.Thpool.Create.Outcomes.{
  Fails, thpool_create-IsNew, thpool_create-failure, thpool_create-overflow,
}

abbrev job : ℕ → Task
job k = record { function = 1000; arg = k }

-- Two slots, the second of them in use: the next task goes to the first.
abbrev turned : Pool
turned = record {
  shutdown = 0;
  hold = 0;
  running_count = 0;
  threads = 0 ∷ [];
  thread_count = 1;
  task_queue = no_task ∷ job 7 ∷ [];
  queue_size = 2;
  queue_count = 1;
  head = 1;
  tail = 0;
}

turned-IsValid : IsValid turned
turned-IsValid = omega arith

full_refuses :
    let o = thpool_add_task turned (job 8) in
    ((accepted o.ret, contents o.after) ≡ offer 2 (contents turned) (job 8)) × IsValid o.after
full_refuses = thpool_add_task-offer turned (job 8) turned-IsValid

abbrev full : Pool
full = record turned { queue_count = 2; tail = 1 }

-- While the caller sleeps after its attempt at `max_try = 1`, a worker takes a task.
abbrev others : ℕ → Pool → Pool
others (suc zero) p = dequeue p
others _ p = p

second_attempt : thpool_add_task_try others full (job 9) 10 (pos 1) ≡ record {
  ret = pos 0;
  errno = none;
  effects = yields ∷ sleeps 10 ∷ signals ∷ [];
  after = enqueue (dequeue full) (job 9);
}
unfolding thpool_add_task_try dequeue
second_attempt = refl

thpool_add_task_try-attempts_example :
    ((n : ℕ)
      → TryResult others (job 9) 10 n full (thpool_add_task_try others full (job 9) 10 (pos n)))
    × ((n : ℕ)
        → thpool_add_task_try others full (job 9) 10 (negsuc n)
          ≡ record { ret = minus_one; errno = some eagain; effects = []; after = full })
thpool_add_task_try-attempts_example = thpool_add_task_try-attempts others (job 9) 10 full

-- All calls succeed; thread `i` has the handle `i`.
abbrev all_well : Answers
all_well = record {
  malloc = λ _. true;
  errno = einval;
  mutex_init = none;
  notify_init = none;
  notify_empty_init = none;
  pthread_create = λ _. none;
  handle = λ i. i;
}

abbrev one_worker : Pool
one_worker = record turned { task_queue = no_task ∷ no_task ∷ []; queue_count = 0; head = 0 }

one_worker_created : thpool_create all_well 1 2 ≡ returned one_worker
unfolding thpool_create
one_worker_created = refl

thpool_create-IsNew_example : IsNew 1 2 one_worker
thpool_create-IsNew_example =
    thpool_create-IsNew all_well 1 2 (omega arith) (omega arith) one_worker_created

-- The second thread is not created.
abbrev one_missing : Answers
one_missing = record all_well { pthread_create = λ i. elim i [ zero ↦ none | suc _ ↦ some eagain ] }

thpool_create-failure_example :
    let created = thpool_create one_missing 2 2 in
    ((e : Errno)
      → created ≡ null e
      → ((◌≡◌ {A = ℕ} 2 0 ⊎ ◌≡◌ {A = ℕ} 2 0) × (e ≡ einval)) ⊎ ((true ≡ false) × (e ≡ einval)))
    × (◌<◌ 0 2 → ◌<◌ 0 2 → true ≡ true → Fails one_missing 2 → created ≡ undefined)
thpool_create-failure_example = thpool_create-failure one_missing 2 2

abbrev huge : Pool
huge = record one_worker { task_queue = []; queue_size = 2 ^ 60 }

thpool_create-overflow_example : (length huge.task_queue < huge.queue_size) × ¬ IsValid huge
unfolding thpool_create
thpool_create-overflow_example =
    thpool_create-overflow all_well 1 (2 ^ 60) {p = huge} (omega arith) refl
