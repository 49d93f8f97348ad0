-- ===== src/Lusem/Invariant.antt =====
-- What every schedule keeps: the units of the semaphore, counted twice.
use mathlib.Core.Path.{subst}
use native.Mathlib.Decide.{ℕ_discrete}
use libthreads.Prelude.{
  ℕ, ◌+◌, ◌*◌, ◌^◌, ◌≤◌, ◌<◌, ◌≡◌, refl, sym, List, [], ◌∷◌, arith, ℤ, pos_part, neg_part, update,
  update_self, update_ne, total, total-update, total-le, total-eq-zero,
}
use libthreads.Threads
use libthreads.Threads.{step_cases}
use libthreads.Lusem.State.{Lusem, new_lusem}
use libthreads.Lusem.Step.{
  nothing_yet, Pc, idle, Choice, chosen, System, thread_step, step, run, initial_system,
}
use libthreads.Lusem.Views.{
  waiter, pending, amount, Knows, Before, After, lusem_step-signals, lusem_step-After,
}

pub record Inv (n init : ℕ) (s : System) : Type 0 where
  pub few : n + init < 2 ^ 63
  pub kept : s.mem.initial ≡ init
  pub knows : (j : ℕ) → Knows (s.thread j)
  -- Who has taken one off `m_count` below 0 finds a unit in `sem`, or waits for one.
  pub balance :
      s.mem.sem + total pending n s.thread + neg_part s.mem.m_count ≡ total waiter n s.thread + init
  -- A unit is acquired, or in `m_count`, or in `sem`, or on its way there.
  pub account :
      s.mem.acquired + pos_part s.mem.m_count + s.mem.sem + total pending n s.thread
      ≡ 2 * init + s.mem.signalled

pub waiter-le : (p : Pc) → waiter p ≤ 1
waiter-le p = ground arith

-- The bound under which `m_count` cannot overflow.
abbrev pub Fits : ℕ → Lusem → Type 0
Fits init m = 2 * init + m.signalled < 2 ^ 63

module _ {n init : ℕ} {s : System} (v : Inv n init s) (i : ℕ) (lt : i < n) where
  Inv-Before : 2 * init + s.mem.signalled + amount (s.thread i) < 2 ^ 63 → Before s.mem (s.thread i)
  Inv-Before fits = record {
    knows = v.knows i;
    above = omega (arith, v.account);
    below = omega (arith, v.balance, v.few, total-le waiter waiter-le n s.thread);
  }

  After-Inv :
      {m : Lusem} {p : Pc}
      → After s.mem (s.thread i) m p
      → Inv n init (record { mem = m; thread = update s.thread i p })
  After-Inv {m} {p} a = record {
    few = v.few;
    kept = omega (arith, a.kept, v.kept);
    knows = λ j. elim (ℕ_discrete i j) [
      | yes same ↦
          subst (λ k. Knows (update s.thread i p k)) same
            (subst Knows (sym (update_self s.thread i p)) a.knows)
      | no other ↦ subst Knows (sym (update_ne s.thread i j p other)) (v.knows j)
    ];
    balance = omega (
      arith,
      a.balance,
      v.balance,
      total-update pending n s.thread i p lt,
      total-update waiter n s.thread i p lt,
    );
    account = omega (arith, a.account, v.account, total-update pending n s.thread i p lt);
  }

pub step-signals : (n : ℕ) (s : System) (c : Choice) → s.mem.signalled ≤ (step n s c).mem.signalled
unfolding step thread_step
step-signals n s c =
    step_cases chosen thread_step (λ t. s.mem.signalled ≤ t.mem.signalled) n s c (omega arith)
      λ m p lt moved. omega (arith, lusem_step-signals c.request c.luck s.mem (s.thread c.i) moved)

run-signals : (n : ℕ) (s : System) (cs : List Choice) → s.mem.signalled ≤ (run n s cs).mem.signalled
unfolding run Threads.run step
run-signals n s [] = omega arith
run-signals n s (c ∷ cs) = omega (arith, step-signals n s c, run-signals n (step n s c) cs)

pub step-Inv :
    {n init : ℕ} (s : System) (c : Choice)
    → Inv n init s
    → Fits init (step n s c).mem
    → Inv n init (step n s c)
unfolding step thread_step
step-Inv {n} {init} s c v =
    step_cases chosen thread_step (λ t. Fits init t.mem → Inv n init t) n s c (λ _. v)
      λ m p lt moved fits. After-Inv v c.i lt (
        lusem_step-After c.request c.luck s.mem (s.thread c.i)
          (Inv-Before v c.i lt
            (omega (arith, lusem_step-signals c.request c.luck s.mem (s.thread c.i) moved)))
          moved)

pub run-Inv :
    {n init : ℕ} (s : System) (cs : List Choice)
    → Inv n init s
    → Fits init (run n s cs).mem
    → Inv n init (run n s cs)
unfolding run Threads.run step
run-Inv s [] v fits = v
run-Inv {n} s (c ∷ cs) v fits =
    run-Inv (step n s c) cs (step-Inv s c v (omega (arith, run-signals n (step n s c) cs))) fits

pub initial-Inv :
    (n init : ℕ) (max_spins : ℤ)
    → n + init < 2 ^ 63
    → Inv n init (initial_system (new_lusem init max_spins))
unfolding new_lusem
initial-Inv n init max_spins few = record {
  few = few;
  kept = refl;
  knows = λ j. tt;
  balance = omega (
    arith,
    total-eq-zero pending n (λ _. idle nothing_yet) (λ _. refl),
    total-eq-zero waiter n (λ _. idle nothing_yet) (λ _. refl),
  );
  account = omega (arith, total-eq-zero pending n (λ _. idle nothing_yet) (λ _. refl));
}
