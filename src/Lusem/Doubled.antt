-- ===== src/Lusem/Doubled.antt =====
-- `new_lusem` gives the initial count to `m_count` and to `sem`: it can be acquired twice.
use mathlib.Core.Path.{subst, subst₂}
use libthreads.Prelude.{
  ℕ, zero, suc, ◌+◌, ◌*◌, ◌^◌, ◌<◌, ◌≤◌, replicate, sym, ◌≡◌, refl, ap, ◌∙◌, List, [], ◌∷◌, ◌++◌,
  some, true, false, arith, ℤ, pos, negsuc, eq_ℤ, is_pos, pred_ℤ, ssize, ssize_small,
}
use libthreads.Threads
use libthreads.Threads.{run-append, blocked_step}
use libthreads.Lusem.State.{Lusem, new_lusem, lusem_init, sem_value_max}
use libthreads.Lusem.Step.{
  wait, Reply, nothing_yet, got_it, waits, Pc, idle, testing, spinning, subtracting, sem_waiting,
  Choice, chosen, System, lusem_step, thread_step, step, run, initial_system,
}

-- The only thread calls `lusem_wait`, again and again.
abbrev pub waiting : Choice
waiting = record { i = 0; request = wait 0; luck = record { spurious = false; timeout = false } }

abbrev At : System → Lusem → Pc → Type 0
At = Threads.At chosen thread_step waiting

At-step :
    {s : System} {m m' : Lusem} {p p' : Pc}
    → At s m p
    → lusem_step (wait 0) waiting.luck m p ≡ some (m', p')
    → At (step 1 s waiting) m' p'
unfolding step thread_step
At-step at moved = Threads.At-step chosen thread_step 1 waiting (omega arith) at moved

-- The semaphore in these runs.
abbrev state : ℕ → ℤ → ℕ → ℕ → Lusem
state init count sem acquired = record {
  m_count = count;
  sem = sem;
  max_spins = pos 0;
  initial = init;
  acquired = acquired;
  signalled = 0;
}

-- `- j`
abbrev minus : ℕ → ℤ
minus zero = pos 0
minus (suc j) = negsuc j

abbrev pub fast : ℕ → List Choice
fast zero = []
fast (suc k) = waiting ∷ waiting ∷ waiting ∷ waiting ∷ fast k

abbrev pub slow : ℕ → List Choice
slow zero = []
slow (suc k) = waiting ∷ waiting ∷ waiting ∷ waiting ∷ waiting ∷ waiting ∷ slow k

-- Between two calls.
abbrev Idle : System → Lusem → Type 0
Idle s m = (r : Reply) × At s m (idle r)

eq_self : (k : ℕ) → eq_ℤ (pos (suc k)) (pos (suc k)) ≡ true
eq_self k = ground arith

minus_not_pos : (j : ℕ) → is_pos (minus j) ≡ false
minus_not_pos zero = refl
minus_not_pos (suc j) = refl

pred_minus : (j : ℕ) → j < 2 ^ 63 → ssize (pred_ℤ (minus j)) ≡ minus (suc j)
pred_minus zero h = ssize_small (negsuc 0) (omega arith) (omega arith)
pred_minus (suc j) h = ssize_small (negsuc (suc j)) (omega arith) (omega arith)

fast_wait :
    (s : System) (init k sem a : ℕ)
    → Idle s (state init (pos (suc k)) sem a)
    → Idle (run 1 s (fast 1)) (state init (pos k) sem (suc a))
unfolding run Threads.run step lusem_step
fast_wait s init k sem a (r, at) =
    (got_it, At-step (At-step (At-step (At-step at refl) refl) refl) (rw (eq_self k)))

slow_wait :
    (s : System) (init j sem a : ℕ)
    → j < 2 ^ 63
    → Idle s (state init (minus j) (suc sem) a)
    → Idle (run 1 s (slow 1)) (state init (minus (suc j)) sem (suc a))
unfolding run Threads.run step lusem_step
slow_wait s init j sem a small (r, at) =
    let began = At-step at refl in
    let read = At-step {p' = testing (waits 0) (minus j)} began refl in
    let tested =
      At-step {m' = state init (minus j) (suc sem) a} {p' = spinning 0 (pos 0)} read
        (rw (minus_not_pos j)) in
    let spun = At-step {p' = subtracting 0} tested refl in
    let subtracted =
      At-step {m' = state init (minus (suc j)) (suc sem) a} {p' = sem_waiting 0} spun
        (rw (minus_not_pos j, pred_minus j small)) in
    (got_it, At-step subtracted refl)

all_fast :
    (init sem k a : ℕ) (s : System)
    → Idle s (state init (pos k) sem a)
    → Idle (run 1 s (fast k)) (state init (pos 0) sem (a + k))
unfolding run Threads.run step
all_fast init sem zero a s h =
    subst (λ b. Idle s (state init (pos 0) sem b)) {x = a} (omega arith) h
all_fast init sem (suc k) a s h =
    subst (λ b. Idle (run 1 s (fast (suc k))) (state init (pos 0) sem b)) {x = suc a + k}
      (omega arith) (all_fast init sem k (suc a) (run 1 s (fast 1)) (fast_wait s init k sem a h))

all_slow :
    (init k j a : ℕ) (s : System)
    → j + k < 2 ^ 63
    → Idle s (state init (minus j) k a)
    → Idle (run 1 s (slow k)) (state init (minus (j + k)) 0 (a + k))
unfolding run Threads.run step
all_slow init zero j a s small h =
    subst₂ (λ x b. Idle s (state init (minus x) 0 b)) {x = j} {u = a} (omega arith) (omega arith) h
all_slow init (suc k) j a s small h =
    subst₂ (λ x b. Idle (run 1 s (slow (suc k))) (state init (minus x) 0 b)) {x = suc j + k}
      {u = suc a + k} (omega arith) (omega arith)
      (all_slow init k (suc j) (suc a) (run 1 s (slow 1)) (omega arith)
        (slow_wait s init j k a (omega arith) h))

-- Where nothing is left the next call blocks.
blocks :
    (s : System) (init j a : ℕ)
    → j < 2 ^ 63
    → Idle s (state init (minus j) 0 a)
    → At (run 1 s (replicate 5 waiting)) (state init (minus (suc j)) 0 a) (sem_waiting 0)
unfolding run Threads.run step lusem_step
blocks s init j a small (r, at) =
    let began = At-step at refl in
    let read = At-step {p' = testing (waits 0) (minus j)} began refl in
    let tested =
      At-step {m' = state init (minus j) 0 a} {p' = spinning 0 (pos 0)} read
        (rw (minus_not_pos j)) in
    let spun = At-step {p' = subtracting 0} tested refl in
    At-step {m' = state init (minus (suc j)) 0 a} {p' = sem_waiting 0} spun
      (rw (minus_not_pos j, pred_minus j small))

blocked :
    (t : System) (init j a : ℕ)
    → At t (state init (minus j) 0 a) (sem_waiting 0)
    → step 1 t waiting ≡ t
unfolding step thread_step lusem_step
blocked t init j a at =
    blocked_step chosen thread_step 1 t waiting (λ _. rw (at.place, at.memory) refl)

-- With an initial count `init` that a semaphore can hold, and `max_spins` 0, a thread that calls
-- `lusem_wait` again and again gets through twice `init` times, although nothing is signalled; its
-- next call blocks, after five steps, and stays blocked.
pub lusem_init_doubled :
    (init : ℕ)
    → init ≤ sem_value_max
    → (m : Lusem) → lusem_init init (pos 0) ≡ some m
    → let s = run 1 (initial_system m) (fast init ++ slow init) in
      let t = run 1 s (replicate 5 waiting) in
      (s.mem.acquired ≡ 2 * init)
      × (s.mem.signalled ≡ 0)
      × (t.thread 0 ≡ sem_waiting 0)
      × (step 1 t waiting ≡ t)
unfolding lusem_init new_lusem run
lusem_init_doubled init small m made = subst Doubled same (
  ap (λ x. x.acquired) at.memory ∙ omega arith,
  ap (λ x. x.signalled) at.memory,
  stopped.place,
  blocked (run 1 (run 1 start (fast init ++ slow init)) (replicate 5 waiting)) init (suc (0 + init))
      (0 + init + init) stopped,
)
  where
    Doubled : Lusem → Type 0
    Doubled x =
        let s = run 1 (initial_system x) (fast init ++ slow init) in
        let t = run 1 s (replicate 5 waiting) in
        (s.mem.acquired ≡ 2 * init)
        × (s.mem.signalled ≡ 0)
        × (t.thread 0 ≡ sem_waiting 0)
        × (step 1 t waiting ≡ t)

    same : new_lusem init (pos 0) ≡ m
    same = ground arith

    start : System
    start = initial_system (new_lusem init (pos 0))

    drained :
        Idle
          (run 1 start (fast init ++ slow init))
          (state init (minus (0 + init)) 0 (0 + init + init))
    drained =
        subst (λ s. Idle s (state init (minus (0 + init)) 0 (0 + init + init)))
          (sym (run-append chosen thread_step 1 start (fast init) (slow init)))
          (all_slow init init 0 (0 + init) (run 1 start (fast init)) (omega arith)
            (all_fast init init init 0 start (nothing_yet, record { memory = refl; place = refl })))

    at :
        At
          (run 1 start (fast init ++ slow init))
          (state init (minus (0 + init)) 0 (0 + init + init))
          (idle drained.0)
    at = drained.1

    stopped :
        At
          (run 1 (run 1 start (fast init ++ slow init)) (replicate 5 waiting))
          (state init (minus (suc (0 + init))) 0 (0 + init + init))
          (sem_waiting 0)
    stopped =
        blocks (run 1 start (fast init ++ slow init)) init (0 + init) (0 + init + init)
          (omega arith) drained
