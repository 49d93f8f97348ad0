-- ===== src/Lfthpool/Shutdown.antt =====
-- src/threads/lfthpool.c: `lfthpool_shutdown` joins the workers, and `lfthpool_destroy` frees the
-- pool after it.
use mathlib.Core.Path.{subst}
use native.Mathlib.Decide.{ℕ_discrete}
use libthreads.Prelude.{
  ℕ, zero, suc, ◌≤◌, ◌<◌, ◌≡◌, refl, sym, ap, ◌∙◌, ◌⊎◌, inl, inr, true, List, none, some, arith,
  elem, each_once, get_or, tabulate, length, get_or-set_self, get_or-set_ne, length-tabulate,
  update, update_self, update_ne, ltb, Bool-cases,
}
use libthreads.Lfthpool.Queue.{RingQueue}
use libthreads.Lfthpool.Create.{IsNew}
use libthreads.Lfthpool.Join.{
  AllExited, Joined, Handle, Keeps, lfthpool_step-Keeps, lfthpool_step-Joined,
}
use libthreads.Threads.{step_cases, run_keeps}
use libthreads.Lfthpool.Step.{
  chosen, thread_step, Lfthpool, Pc, returned, joining, join_waiting, join_clearing, freeing, idle,
  shut_down, Choice, System, lfthpool_step, step, run, initial,
}

pub get_or-tabulate {ℓ} :
    {A : Type ℓ} (n : ℕ) (f : ℕ → A) (k : ℕ) (d : A) → k < n → get_or (tabulate n f) k d ≡ f k
get_or-tabulate zero f k d h = absurd (omega arith)
get_or-tabulate (suc n) f zero d h = refl
get_or-tabulate (suc n) f (suc k) d h = get_or-tabulate n (λ x. f (suc x)) k d (omega arith)

module _ {Q : Type 0} (queue : RingQueue Q) where
  pub record JoinInv (workers : ℕ) (s : System Q) : Type 0 where
    pub count : s.mem.thread_count ≡ workers
    pub long : workers ≤ length s.mem.threads
    pub back : (j : ℕ) → elem j s.mem.exited ≡ true → s.thread j ≡ returned
    pub handle : (x : ℕ) → x < workers → Handle s.mem x
    pub joined : (j : ℕ) → Joined s.mem (s.thread j)
    pub gone : s.mem.freed ≡ true → AllExited workers s.mem

  -- Threads that have returned stay so.
  Joined-kept :
      (m m' : Lfthpool Q) (p : Pc)
      → m'.thread_count ≡ m.thread_count
      → ((x : ℕ) → elem x m.exited ≡ true → elem x m'.exited ≡ true)
      → Joined m p
      → Joined m' p
  Joined-kept m m' (joining d k) c e j = (rw c j.0, (λ x lt. e x (j.1 x lt)))
  Joined-kept m m' (join_waiting d k w) c e j = (rw c j.0, (λ x lt. e x (j.1 x lt)), j.2)
  Joined-kept m m' (join_clearing d k) c e j = (rw c j.0, (λ x lt. e x (j.1 x lt)))
  Joined-kept m m' freeing c e j = λ x lt. e x (j x (rw (← c) lt))
  Joined-kept m m' (idle shut_down) c e j = λ x lt. e x (j x (rw (← c) lt))
  Joined-kept m m' p c e j = ground arith

  Handle-kept :
      (i : ℕ) (m : Lfthpool Q) (p : Pc) (m' : Lfthpool Q) (p' : Pc) (x : ℕ)
      → Keeps queue i m p m' p'
      → m.thread_count ≤ length m.threads
      → Handle m x
      → Handle m' x
  Handle-kept i m p m' p' x k long h = elim k.handles [
    | inl same ↦ ground (arith, k.exits)
    | inr (y, lt, erased, same, ended) ↦ elim (ℕ_discrete y x) [
      | no other ↦ ground (arith, get_or-set_ne m.threads y x none none other)
      | yes here ↦ inr (
        rw (erased, here) (get_or-set_self m.threads x none none (omega arith)),
        rw same (subst (λ z. elem z m.exited ≡ true) here ended),
      )
    ]
  ]

  module _ {workers : ℕ} {s : System Q} (v : JoinInv workers s) (i : ℕ) {m : Lfthpool Q} {p : Pc}
      (k : Keeps queue i s.mem (s.thread i) m p) (joins : Joined m p) where
    pub stays_exited : (x : ℕ) → elem x s.mem.exited ≡ true → elem x m.exited ≡ true
    stays_exited x h = ground (arith, k.exits)

    back_after : (j : ℕ) → elem j m.exited ≡ true → update s.thread i p j ≡ returned
    back_after j h = elim (ℕ_discrete i j) [
      | yes same ↦
          subst (λ x. update s.thread i p x ≡ returned) same (update_self s.thread i p ∙ own same)
      | no other ↦ update_ne s.thread i j p other ∙ v.back j (ground (arith, k.exits))
    ]
      where
        own : i ≡ j → p ≡ returned
        own same = elim k.exits [
          | inl e ↦ absurd (k.runs (ap s.thread same ∙ v.back j (ground arith)))
          | inr e ↦ e.1
        ]

    joined_after : (j : ℕ) → Joined m (update s.thread i p j)
    joined_after j = elim (ℕ_discrete i j) [
      | yes same ↦
          subst (λ x. Joined m (update s.thread i p x)) same
            (subst (Joined m) (sym (update_self s.thread i p)) joins)
      | no other ↦
          subst (Joined m) (sym (update_ne s.thread i j p other))
            (Joined-kept s.mem m (s.thread j) k.same_count stays_exited (v.joined j))
    ]

    gone_after : m.freed ≡ true → AllExited workers m
    gone_after freed x lt = elim (k.frees freed) [
      | inl before ↦ stays_exited x (v.gone before x lt)
      | inr last ↦
          stays_exited x (subst (Joined s.mem) last (v.joined i) x (omega (arith, v.count)))
    ]

    after-JoinInv : JoinInv workers (record { mem = m; thread = update s.thread i p })
    after-JoinInv = record {
      count = k.same_count ∙ v.count;
      long = omega (arith, k.same_length, v.long);
      back = back_after;
      handle = λ x lt.
          Handle-kept i s.mem (s.thread i) m p x k (omega (arith, v.long, v.count)) (v.handle x lt);
      joined = joined_after;
      gone = gone_after;
    }

  pub step-JoinInv :
      {workers : ℕ} (n : ℕ) (s : System Q) (c : Choice)
      → JoinInv workers s
      → JoinInv workers (step queue n s c)
  unfolding step
  step-JoinInv {workers} n s c v =
      step_cases chosen (thread_step queue) (JoinInv workers) n s c v λ m p lt moved.
        after-JoinInv v c.i
          (lfthpool_step-Keeps queue c.i c.request c.luck s.mem (s.thread c.i) (v.joined c.i) moved)
          (lfthpool_step-Joined queue c.i c.request c.luck s.mem (s.thread c.i)
            (λ x lt. v.handle x (omega (arith, v.count))) (v.joined c.i) moved)

  pub run-JoinInv :
      {workers : ℕ} (n : ℕ) (s : System Q) (cs : List Choice)
      → JoinInv workers s
      → JoinInv workers (run queue n s cs)
  unfolding run step
  run-JoinInv {workers} n =
      run_keeps chosen (thread_step queue) (JoinInv workers) n (step-JoinInv n)

  pub initial-JoinInv :
      (workers : ℕ) (pool : Lfthpool Q)
      → IsNew queue workers pool
      → JoinInv workers (initial workers pool)
  initial-JoinInv workers pool new = record {
    count = new.handles.0;
    long = omega (arith, ap length new.handles.1, length-tabulate workers (λ (k : ℕ). some k));
    back = λ j h. absurd (ground (arith, new.kept.1));
    handle = λ x lt. inl (rw new.handles.1 (get_or-tabulate workers some x none lt));
    joined = λ j. ground arith;
    gone = λ h. cc (h, new.kept.0);
  }

  -- After any schedule of the threads of a new pool in which `pthread_join` was called at most once
  -- for each thread: where a call of `lfthpool_shutdown` has returned, and its thread has made no
  -- other call since, or `lfthpool_destroy` has freed the pool, every worker has returned and makes
  -- no further step.
  pub lfthpool_shutdown_joins :
      (n workers : ℕ) (pool : Lfthpool Q)
      → IsNew queue workers pool
      → (cs : List Choice) → each_once (run queue n (initial workers pool) cs).mem.joins ≡ true
      → (j : ℕ)
      → ((run queue n (initial workers pool) cs).thread j ≡ idle shut_down)
        ⊎ ((run queue n (initial workers pool) cs).mem.freed ≡ true)
      → (c : Choice) → c.i < workers
      → let t = run queue n (initial workers pool) cs in
        (t.thread c.i ≡ returned) × (step queue n t c ≡ t)
  unfolding step lfthpool_step
  lfthpool_shutdown_joins n workers pool new cs once j stopped c lt =
      let v = run-JoinInv n (initial workers pool) cs (initial-JoinInv workers pool new) in
      let t = run queue n (initial workers pool) cs in
      let back : t.thread c.i ≡ returned = v.back c.i (exited stopped v) in
      (back, elim (Bool-cases (ltb c.i n)) [ inl here ↦ rw (here, back) | inr out ↦ rw out ])
    where
      exited :
          let t = run queue n (initial workers pool) cs in
          (t.thread j ≡ idle shut_down) ⊎ (t.mem.freed ≡ true)
          → JoinInv workers t
          → elem c.i t.mem.exited ≡ true
      exited (inl at) v =
          subst (Joined (run queue n (initial workers pool) cs).mem) at (v.joined j) c.i
            (omega (arith, v.count))
      exited (inr freed) v = v.gone freed c.i lt
