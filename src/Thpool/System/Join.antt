-- ===== src/Thpool/System/Join.antt =====
-- `thpool_shutdown` joins every worker before it returns.
use mathlib.Core.Path.{subst}
use libthreads.Prelude.{
  ℕ, ◌<◌, ◌≡◌, refl, sym, ◌∙◌, ap, ◌⊎◌, inl, inr, true, List, ◌∷◌, arith, elem, each_once, get_or,
  update, update_self, update_ne,
}
use native.Mathlib.Decide.{ℕ_discrete}
use libthreads.Thpool.Pool.{Pool}
use libthreads.Thpool.Shared.{Shared}
use libthreads.Thpool.Worker.{returned}
use libthreads.Thpool.Client.{shutdown, done, idle}
use libthreads.Thpool.System.{
  Thread, worker, client, Choice, System, run_keeps, step, step_cases, run, initial,
}
use libthreads.Thpool.System.Exits.{
  all_exited, all_exited-elem, all_exited-cons, Joined, Keeps, thread_step-Keeps, Joined-kept,
}

-- The threads of which `pthread_join` says so are those that have returned, and what the threads in
-- `thpool_shutdown` have seen still holds.
pub record JoinInv (threads : List ℕ) (count : ℕ) (s : System) : Type 0 where
  pub same_threads : s.mem.pool.threads ≡ threads
  pub same_count : s.mem.pool.thread_count ≡ count
  back : (j : ℕ) → elem j s.mem.exited ≡ true → s.thread j ≡ worker returned
  pub seen : (j : ℕ) → s.thread j ≡ worker returned → elem j s.mem.exited ≡ true
  pub joined : (j : ℕ) → Joined s.mem (s.thread j)
  gone :
      s.mem.freed ≡ true → all_exited s.mem.pool.threads s.mem.exited s.mem.pool.thread_count ≡ true

elem-longer :
    {i : ℕ} {l l' : List ℕ} (j : ℕ) → elem j l ≡ true → (l' ≡ l) ⊎ (l' ≡ i ∷ l) → elem j l' ≡ true
elem-longer j h (inl same) = rw same h
elem-longer j h (inr more) = ground arith

module _ {threads : List ℕ} {count : ℕ} {s : System} (v : JoinInv threads count s) (i : ℕ)
    {m : Shared} {p : Thread} (k : Keeps i s.mem (s.thread i) m p) where
  here : (j : ℕ) → elem j m.exited ≡ true → i ≡ j → p ≡ worker returned
  here j h same = elim k.exits [
    | inl e ↦ absurd (k.runs (ap s.thread same ∙ v.back j (ground arith)))
    | inr e ↦ e.1
  ]

  longer : {P : Type 0} {l l' l'' : List ℕ} → (l ≡ l') ⊎ ((l ≡ l'') × P) → (l ≡ l') ⊎ (l ≡ l'')
  longer (inl e) = inl e
  longer (inr e) = inr e.0

  back_after : (j : ℕ) → elem j m.exited ≡ true → update s.thread i p j ≡ worker returned
  back_after j h = elim (ℕ_discrete i j) [
    | yes same ↦
        subst (λ x. update s.thread i p x ≡ worker returned) same
          (update_self s.thread i p ∙ here j h same)
    | no other ↦ update_ne s.thread i j p other ∙ v.back j (ground (arith, k.exits))
  ]

  seen_after : (j : ℕ) → update s.thread i p j ≡ worker returned → elem j m.exited ≡ true
  seen_after j h = elim (ℕ_discrete i j) [
    | yes same ↦
        rw
          (k.exits_self (
            sym (update_self s.thread i p)
            ∙ subst (λ x. update s.thread i p x ≡ worker returned) (sym same) h))
          (ground arith)
    | no other ↦
        elem-longer j (v.seen j (sym (update_ne s.thread i j p other) ∙ h)) (longer k.exits)
  ]

  joined_after : (j : ℕ) → Joined m (update s.thread i p j)
  joined_after j = elim (ℕ_discrete i j) [
    | yes same ↦
        subst (λ x. Joined m (update s.thread i p x)) same
          (subst (Joined m) (sym (update_self s.thread i p)) k.joined)
    | no other ↦ subst (Joined m) (sym (update_ne s.thread i j p other)) (
        Joined-kept s.mem m i (s.thread j) k.same_threads k.same_count (longer k.exits)
          (v.joined j))
  ]

  gone_after : m.freed ≡ true → all_exited m.pool.threads m.exited m.pool.thread_count ≡ true
  gone_after freed = elim (k.frees freed) [
    | inr seen ↦ seen
    | inl before ↦ elim (longer k.exits) [
      | inl same ↦ rw (k.same_threads, k.same_count, same) (v.gone before)
      | inr more ↦
          rw (k.same_threads, k.same_count, more)
            (all_exited-cons s.mem.pool.threads s.mem.exited i s.mem.pool.thread_count
              (v.gone before))
    ]
  ]

  joined-JoinInv : JoinInv threads count (record { mem = m; thread = update s.thread i p })
  joined-JoinInv = record {
    same_threads = k.same_threads ∙ v.same_threads;
    same_count = k.same_count ∙ v.same_count;
    back = back_after;
    seen = seen_after;
    joined = joined_after;
    gone = gone_after;
  }

pub step-JoinInv :
    {threads : List ℕ} {count : ℕ} (n : ℕ) (s : System) (c : Choice)
    → JoinInv threads count s
    → JoinInv threads count (step n s c)
step-JoinInv {threads} {count} n s c v = step_cases (JoinInv threads count) n s c v λ m p lt moved.
    joined-JoinInv v c.i (thread_step-Keeps c s.mem (s.thread c.i) (v.joined c.i) moved)

pub run-JoinInv :
    {threads : List ℕ} {count : ℕ} (n : ℕ) (s : System) (cs : List Choice)
    → JoinInv threads count s
    → JoinInv threads count (run n s cs)
run-JoinInv {threads} {count} n = run_keeps (JoinInv threads count) n (step-JoinInv n)

pub initial-JoinInv :
    (workers : ℕ) (p : Pool) → JoinInv p.threads p.thread_count (initial workers p)
initial-JoinInv workers p = record {
  same_threads = refl;
  same_count = refl;
  back = λ j h. cc;
  seen = λ j h. ground arith;
  joined = λ j. ground arith;
  gone = λ h. cc;
}

JoinInv-joined :
    {threads : List ℕ} {count : ℕ} {s : System}
    → JoinInv threads count s
    → (j : ℕ) → s.thread j ≡ client (idle (done shutdown))
    → (x : ℕ) → x < count
    → s.thread (get_or threads x 0) ≡ worker returned
JoinInv-joined {threads} {count} {s} v j at x lt =
    v.back (get_or threads x 0) (rw (← v.same_threads) seen)
  where
    seen : elem (get_or s.mem.pool.threads x 0) s.mem.exited ≡ true
    seen =
        all_exited-elem s.mem.pool.threads s.mem.exited s.mem.pool.thread_count x
          (subst (Joined s.mem) at (v.joined j)) (omega (arith, v.same_count))

JoinInv-freed :
    {threads : List ℕ} {count : ℕ} {s : System}
    → JoinInv threads count s
    → s.mem.freed ≡ true
    → (x : ℕ) → x < count
    → s.thread (get_or threads x 0) ≡ worker returned
JoinInv-freed {threads} {count} {s} v freed x lt =
    v.back (get_or threads x 0) (rw (← v.same_threads) seen)
  where
    seen : elem (get_or s.mem.pool.threads x 0) s.mem.exited ≡ true
    seen =
        all_exited-elem s.mem.pool.threads s.mem.exited s.mem.pool.thread_count x (v.gone freed)
          (omega (arith, v.same_count))

pub freed_returned :
    (n workers : ℕ) (p : Pool) (cs : List Choice)
    → (run n (initial workers p) cs).mem.freed ≡ true
    → (x : ℕ) → x < p.thread_count
    → (run n (initial workers p) cs).thread (get_or p.threads x 0) ≡ worker returned
freed_returned n workers p cs =
    JoinInv-freed (run-JoinInv n (initial workers p) cs (initial-JoinInv workers p))

-- After any schedule from a pool on which no call was made, in which `pthread_join` was called at
-- most once for each thread: when a call of `thpool_shutdown` has returned, and its thread has made
-- no other call since, every worker whose handle the pool holds has returned.
pub shutdown_joins :
    (n workers : ℕ) (p : Pool) (cs : List Choice) (j : ℕ)
    → each_once (run n (initial workers p) cs).mem.joins ≡ true
    → (run n (initial workers p) cs).thread j ≡ client (idle (done shutdown))
    → (x : ℕ) → x < p.thread_count
    → (run n (initial workers p) cs).thread (get_or p.threads x 0) ≡ worker returned
shutdown_joins n workers p cs j once =
    JoinInv-joined (run-JoinInv n (initial workers p) cs (initial-JoinInv workers p)) j
