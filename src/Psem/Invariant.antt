-- ===== src/Psem/Invariant.antt =====
-- The invariant of a semaphore of include/threads/psem.h with its threads: every step keeps it.
use mathlib.Core.Path.{subst}
use native.Mathlib.Decide.{ℕ_discrete}
use libthreads.Prelude.{
  ℕ, ◌+◌, ◌<◌, ◌≡◌, ◌≢◌, sym, ◌∙◌, ◌⊎◌, inl, inr, Bool, true, false, List, none, some, arith, ◌==◌,
  Bool-cases, length, elem, update, update_self, update_ne, total, total-update, total-eq-zero,
}
use libthreads.Threads.{step_cases, run_keeps}
use libthreads.Psem.Step.{
  Psem, Request, signal, wait, Pc, locked, waiting, woken, unlocking, Luck, Choice, chosen, System,
  psem_step, thread_step, step, run, initial,
}
use libthreads.Waiters.{
  IsDistinct, elem-wake_one, wake_one-IsDistinct, length-wake_one, elem-remove_all,
  elem-remove_all_self, remove_all-IsDistinct, length-remove_all,
}

-- Between `pthread_mutex_lock` and the next unlock or wait.
abbrev pub holds : Pc → Bool
holds (locked _) = true
holds (unlocking _ _) = true
holds _ = false

-- In a wait that was begun.
abbrev pub inside : Pc → ℕ
inside waiting = 1
inside woken = 1
inside (unlocking wait none) = 1
inside _ = 0

record Before (i : ℕ) (m : Psem) (p : Pc) : Type 0 where
  distinct : IsDistinct m.notify
  holder : holds p ≡ true → m.owner ≡ some i
  listed : elem i m.notify ≡ true → p ≡ waiting

record After (i : ℕ) (m : Psem) (p : Pc) (m' : Psem) (p' : Pc) : Type 0 where
  distinct : IsDistinct m'.notify
  holder : holds p' ≡ true → m'.owner ≡ some i
  listed : elem i m'.notify ≡ true → p' ≡ waiting
  kept_owner : (m'.owner ≡ m.owner) ⊎ (m.owner ≡ none) ⊎ (m.owner ≡ some i)
  balance :
      m'.waited + inside p' + (length m.notify + m.woken_up + m.spurious)
      ≡ m.waited + inside p + (length m'.notify + m'.woken_up + m'.spurious)

psem_step-After :
    (i : ℕ) (r : Request) (l : Luck) (m : Psem) (p : Pc) {m' : Psem} {p' : Pc}
    → Before i m p
    → psem_step i r l m p ≡ some (m', p')
    → After i m p m' p'
unfolding psem_step
psem_step-After i r l m (locked signal) b e = ground (
  arith,
  length-wake_one l.waker m.notify,
  wake_one-IsDistinct l.waker m.notify,
  elem-wake_one l.waker i m.notify,
)
psem_step-After i r l m waiting b e = ground (
  arith,
  remove_all-IsDistinct i m.notify,
  length-remove_all i m.notify,
  elem-remove_all_self i m.notify,
)
psem_step-After i r l m (unlocking wait none) b e = ground arith
psem_step-After i r l m (unlocking wait (some x)) b e = ground arith
psem_step-After i r l m p b e = ground arith

-- A step adds no thread to the list but its own.
psem_step-listed :
    (i : ℕ) (r : Request) (l : Luck) (m : Psem) (p : Pc) {m' : Psem} {p' : Pc} (j : ℕ)
    → psem_step i r l m p ≡ some (m', p')
    → j ≢ i
    → elem j m'.notify ≡ true
    → elem j m.notify ≡ true
unfolding psem_step
psem_step-listed i r l m (locked signal) j e other h =
    ground (arith, elem-wake_one l.waker j m.notify)
psem_step-listed i r l m waiting j e other h = ground (arith, elem-remove_all i j m.notify)
psem_step-listed i r l m p j e other h = ground arith

pub record Inv (n : ℕ) (s : System) : Type 0 where
  pub distinct : IsDistinct s.mem.notify
  pub holder : (j : ℕ) → holds (s.thread j) ≡ true → s.mem.owner ≡ some j
  pub listed : (j : ℕ) → elem j s.mem.notify ≡ true → (j < n) × (s.thread j ≡ waiting)
  pub balance :
      s.mem.waited + total inside n s.thread ≡ length s.mem.notify + s.mem.woken_up + s.mem.spurious

module _ {n : ℕ} {s : System} (v : Inv n s) (c : Choice) (lt : c.i < n) {m : Psem} {p : Pc}
    (moved : thread_step c s.mem (s.thread c.i) ≡ some (m, p)) where
  abbrev after : Pc → System
  after q = record { mem = m; thread = update s.thread c.i q }

  local : After c.i s.mem (s.thread c.i) m p
  unfolding thread_step
  local =
      psem_step-After c.i c.request c.luck s.mem (s.thread c.i)
        (record { distinct = v.distinct; holder = v.holder c.i; listed = λ h. (v.listed c.i h).1 })
        moved

  holder_after : (j : ℕ) → holds (update s.thread c.i p j) ≡ true → m.owner ≡ some j
  holder_after j h = elim (Bool-cases (c.i == j)) [
    | inl same ↦ ground (arith, local.holder)
    | inr other ↦ ground (arith, local.kept_owner, v.holder j)
  ]

  listed_after : (j : ℕ) → elem j m.notify ≡ true → (j < n) × (update s.thread c.i p j ≡ waiting)
  unfolding thread_step
  listed_after j h = elim (ℕ_discrete c.i j) [
    | yes same ↦
        subst (λ k. (k < n) × (update s.thread c.i p k ≡ waiting)) same
          (lt, update_self s.thread c.i p ∙ local.listed (rw same h))
    | no other ↦
        let (below, at) = v.listed j (
          psem_step-listed c.i c.request c.luck s.mem (s.thread c.i) {p' = p} j moved
            (λ e. other (sym e)) h) in
        (below, update_ne s.thread c.i j p other ∙ at)
  ]

  after-Inv : Inv n (after p)
  after-Inv = record {
    distinct = local.distinct;
    holder = holder_after;
    listed = listed_after;
    balance = omega (arith, local.balance, v.balance, total-update inside n s.thread c.i p lt);
  }

pub step-Inv : (n : ℕ) (s : System) (c : Choice) → Inv n s → Inv n (step n s c)
unfolding step
step-Inv n s c v =
    step_cases chosen thread_step (Inv n) n s c v λ m p lt moved. after-Inv v c lt moved

pub initial-Inv : (n : ℕ) → Inv n initial
initial-Inv n = record {
  distinct = tt;
  holder = λ j h. ground arith;
  listed = λ j h. ground arith;
  balance = omega (arith, total-eq-zero inside n initial.thread (λ j. ground arith));
}

pub run-Inv : (n : ℕ) (cs : List Choice) → Inv n (run n initial cs)
unfolding run step
run-Inv n cs = run_keeps chosen thread_step (Inv n) n (step-Inv n) initial cs (initial-Inv n)
