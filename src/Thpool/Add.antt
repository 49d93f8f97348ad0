-- ===== src/Thpool/Add.antt =====
-- `thpool_add_task` and `thpool_add_task_try` against the bounded queue of tasks.
use mathlib.Core.Path.{subst}
use libthreads.Fifo.{offer}
use libthreads.Prelude.{
  ℕ, zero, suc, ◌≤◌, ◌<◌, ◌≡◌, refl, ◌⊎◌, inl, inr, Bool, true, false, List, [], ◌∷◌, ◌++◌, none,
  some, ap, arith, Bool-cases, ℤ, pos, negsuc, minus_one, eagain,
}
use libthreads.Thpool.Pool.{
  Task, Pool, is_full, enqueue, Effect, yields, sleeps, signals, Outcome, thpool_add_task, try_from,
  thpool_add_task_try,
}
use libthreads.Thpool.Ring.{IsValid, contents, length-contents, enqueue-IsValid, contents-enqueue}

abbrev pub accepted : ℤ → Bool
accepted (pos _) = true
accepted (negsuc _) = false

-- On a valid pool `thpool_add_task` is `offer` on the queued tasks, up to the capacity
-- `queue_size`: it returns 0 exactly if the queue takes the task, and then the task stands last.
-- The pool stays valid.
pub thpool_add_task-offer :
    (p : Pool) (t : Task)
    → IsValid p
    → let o = thpool_add_task p t in
      ((accepted o.ret, contents o.after) ≡ offer p.queue_size (contents p) t) × IsValid o.after
unfolding thpool_add_task offer
thpool_add_task-offer p t v =
    ground (arith, length-contents p, contents-enqueue v t, enqueue-IsValid v t)

module _ (others : ℕ → Pool → Pool) (t : Task) (usec : ℕ) where
  -- The pool that attempt `k` (from 0) meets, if the first is made at `max_try = n`.
  abbrev pub seen : ℕ → Pool → ℕ → Pool
  seen n p zero = p
  seen zero p (suc k) = others 0 p
  seen (suc n) p (suc k) = seen n (others (suc n) p) k

  -- The calls that `k` failed attempts make.
  abbrev pub failed_calls : ℕ → List Effect
  failed_calls zero = []
  failed_calls (suc k) = yields ∷ sleeps usec ∷ failed_calls k

  -- The first attempt that meets room is number `k`, and it adds the task.
  pub record Added (n : ℕ) (p : Pool) (o : Outcome) (k : ℕ) : Type 0 where
    pub in_time : k ≤ n
    pub full_before : (j : ℕ) → j < k → is_full (seen n p j) ≡ true
    pub room : is_full (seen n p k) ≡ false
    pub returns : o.ret ≡ pos 0
    pub kept_errno : o.errno ≡ none
    pub calls : o.effects ≡ failed_calls k ++ signals ∷ []
    pub adds : o.after ≡ enqueue (seen n p k) t

  -- All `n + 1` attempts meet a full queue.
  pub record GaveUp (n : ℕ) (p : Pool) (o : Outcome) : Type 0 where
    pub always_full : (j : ℕ) → j ≤ n → is_full (seen n p j) ≡ true
    pub returns : o.ret ≡ minus_one
    pub sets_errno : o.errno ≡ some eagain
    pub calls : o.effects ≡ failed_calls (suc n)
    pub leaves : o.after ≡ seen n p (suc n)

  below_suc :
      (n k : ℕ) (p : Pool)
      → is_full p ≡ true
      → ((j : ℕ) → j < k → is_full (seen n (others (suc n) p) j) ≡ true)
      → (j : ℕ) → j < suc k
      → is_full (seen (suc n) p j) ≡ true
  below_suc n k p full h zero lt = full
  below_suc n k p full h (suc j) lt = h j (omega arith)

  found : (n : ℕ) (p : Pool) → is_full p ≡ false → Added n p (try_from others t usec n p) 0
  unfolding try_from
  found zero p room = record {
    in_time = omega arith;
    full_before = λ j lt. absurd (omega arith);
    room = room;
    returns = rw room;
    kept_errno = rw room;
    calls = rw room;
    adds = rw room;
  }
  found (suc n) p room = record {
    in_time = omega arith;
    full_before = λ j lt. absurd (omega arith);
    room = room;
    returns = rw room;
    kept_errno = rw room;
    calls = rw room;
    adds = rw room;
  }

  -- An attempt that fails hands on to the rest of the loop.
  missed : ℕ → Outcome → Outcome
  missed n rest = record rest { effects = yields ∷ sleeps usec ∷ rest.effects }

  try_from-full :
      (n : ℕ) (p : Pool)
      → is_full p ≡ true
      → try_from others t usec (suc n) p ≡ missed n (try_from others t usec n (others (suc n) p))
  unfolding try_from missed
  try_from-full n p full = rw full

  missed-Added :
      (n k : ℕ) (p : Pool) {o : Outcome}
      → is_full p ≡ true
      → Added n (others (suc n) p) o k
      → Added (suc n) p (missed n o) (suc k)
  unfolding missed
  missed-Added n k p full a = record {
    in_time = omega arith;
    full_before = below_suc n k p full a.full_before;
    room = a.room;
    returns = a.returns;
    kept_errno = a.kept_errno;
    calls = ap (λ l. yields ∷ sleeps usec ∷ l) a.calls;
    adds = a.adds;
  }

  missed-GaveUp :
      (n : ℕ) (p : Pool) {o : Outcome}
      → is_full p ≡ true
      → GaveUp n (others (suc n) p) o
      → GaveUp (suc n) p (missed n o)
  unfolding missed
  missed-GaveUp n p full g = record {
    always_full =
        λ j le. below_suc n (suc n) p full (λ i lt. g.always_full i (omega arith)) j (omega arith);
    returns = g.returns;
    sets_errno = g.sets_errno;
    calls = ap (λ l. yields ∷ sleeps usec ∷ l) g.calls;
    leaves = g.leaves;
  }

  abbrev pub TryResult : ℕ → Pool → Outcome → Type 0
  TryResult n p o = ((k : ℕ) × Added n p o k) ⊎ GaveUp n p o

  last-GaveUp : (p : Pool) → is_full p ≡ true → GaveUp 0 p (try_from others t usec 0 p)
  unfolding try_from
  last-GaveUp p full = record {
    always_full = λ j le. subst (λ i. is_full (seen 0 p i) ≡ true) {x = 0} (omega arith) full;
    returns = rw full;
    sets_errno = rw full;
    calls = rw full;
    leaves = rw full;
  }

  step-TryResult :
      (n : ℕ) (p : Pool) {o : Outcome}
      → is_full p ≡ true
      → TryResult n (others (suc n) p) o
      → TryResult (suc n) p (missed n o)
  step-TryResult n p full (inl (k, a)) = inl (suc k, missed-Added n k p full a)
  step-TryResult n p full (inr g) = inr (missed-GaveUp n p full g)

  try_from-TryResult : (n : ℕ) (p : Pool) → TryResult n p (try_from others t usec n p)
  try_from-TryResult zero p = elim (Bool-cases (is_full p)) [
    | inl full ↦ inr (last-GaveUp p full)
    | inr room ↦ inl (0, found 0 p room)
  ]
  try_from-TryResult (suc n) p = elim (Bool-cases (is_full p)) [
    | inl full ↦
        rw (try_from-full n p full)
          (step-TryResult n p full (try_from-TryResult n (others (suc n) p)))
    | inr room ↦ inl (0, found (suc n) p room)
  ]

  -- With `max_try ≥ 0`, `thpool_add_task_try` attempts at most `max_try + 1` times, whatever the
  -- other threads do between the attempts: it adds the task at the first attempt that meets room
  -- and returns 0, or, if every attempt meets a full queue, adds nothing, sets EAGAIN and returns
  -- -1; it yields and sleeps once for each failed attempt. With `max_try < 0` it makes no attempt,
  -- sets EAGAIN and returns -1.
  pub thpool_add_task_try-attempts :
      (p : Pool)
      → ((n : ℕ) → TryResult n p (thpool_add_task_try others p t usec (pos n)))
        × ((n : ℕ)
            → thpool_add_task_try others p t usec (negsuc n)
              ≡ record { ret = minus_one; errno = some eagain; effects = []; after = p })
  unfolding thpool_add_task_try
  thpool_add_task_try-attempts p = ((λ n. try_from-TryResult n p), (λ n. refl))
