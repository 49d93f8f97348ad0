-- ===== src/Psem/Destroy.antt =====
-- include/threads/psem.h: `psem_destroy`.
use native.Mathlib.Decide.{ℕ_discrete}
use mathlib.Core.Path.{subst}
use libthreads.Prelude.{
  ℕ, ◌<◌, ◌≡◌, ◌≢◌, refl, ◌⊎◌, inl, inr, true, false, List, [], ◌∷◌, none, some, arith, elem,
  update, update_self, update_ne, Option-cases,
}
use libthreads.Threads.{step_cases, run_keeps}
use libthreads.Psem.Step.{
  Psem, Request, Luck, Pc, waiting, Choice, chosen, System, psem_step, thread_step, step, run,
  initial,
}
use libthreads.Psem.Invariant.{holds, run-Inv}

-- POSIX does not define what happens to a mutex that is destroyed while it is locked, nor to a
-- condition variable that is destroyed while threads wait on it.
pub data Destruction : Type 0 where
  destroyed undefined : Destruction

unfoldable pub psem_destroy : Psem → Destruction
psem_destroy m = elim (m.owner) [
  | some _ ↦ undefined
  | none ↦ elim (m.notify) [ [] ↦ destroyed | _ ∷ _ ↦ undefined ]
]

-- The holder of the mutex after a step is the thread that made it, or was the holder before.
psem_step-owner :
    (i : ℕ) (r : Request) (l : Luck) (m : Psem) (p : Pc) {m' : Psem} {p' : Pc} (j : ℕ)
    → (m.owner ≡ some i → holds p ≡ true)
    → psem_step i r l m p ≡ some (m', p')
    → m'.owner ≡ some j
    → ((i ≡ j) × (holds p' ≡ true)) ⊎ ((i ≢ j) × (m.owner ≡ some j))
unfolding psem_step
psem_step-owner i r l m p j held e owns = elim (ℕ_discrete i j) [
  | yes same ↦ ground arith
  | no other ↦ ground arith
]

-- The mutex is held by a thread between its lock and its unlock.
abbrev IsOwned : ℕ → System → Type 0
IsOwned n s = (j : ℕ) → s.mem.owner ≡ some j → (j < n) × (holds (s.thread j) ≡ true)

step-IsOwned : (n : ℕ) (s : System) (c : Choice) → IsOwned n s → IsOwned n (step n s c)
unfolding step thread_step
step-IsOwned n s c v = step_cases chosen thread_step (IsOwned n) n s c v λ m p lt moved j owns.
    elim (psem_step-owner c.i c.request c.luck s.mem (s.thread c.i) {p' = p} j (λ e. (v c.i e).1)
      moved owns) [
        | inl (same, h) ↦
            subst (λ x. (x < n) × (holds (update s.thread c.i p x) ≡ true)) same
              (lt, rw (update_self s.thread c.i p) h)
        | inr (other, owned) ↦ rw (update_ne s.thread c.i j p other) (v j owned)
      ]

run-IsOwned : (n : ℕ) (cs : List Choice) → IsOwned n (run n initial cs)
unfolding run step
run-IsOwned n cs =
    run_keeps chosen thread_step (IsOwned n) n (step-IsOwned n) initial cs
      (λ j e. absurd (ground arith))

no_entries : (l : List ℕ) → ((j : ℕ) → elem j l ≢ true) → l ≡ []
no_entries [] none_in = refl
no_entries (x ∷ l) none_in = absurd (none_in x (ground arith))

module _ (n : ℕ) (cs : List Choice) where
  abbrev reached : System
  reached = run n initial cs

  module _
      (none_in : (j : ℕ)
        → j < n
        → (holds (reached.thread j) ≡ false) × (reached.thread j ≢ waiting)) where
    not_owned : reached.mem.owner ≡ none
    not_owned = elim (Option-cases reached.mem.owner) [
      | inl free ↦ free
      | inr (j, owns) ↦
          let (lt, h) = run-IsOwned n cs j owns in absurd (ground (arith, none_in j lt))
    ]

    not_listed : reached.mem.notify ≡ []
    not_listed =
        no_entries reached.mem.notify
          λ j h. let (lt, at) = (run-Inv n cs).listed j h in (none_in j lt).1 at

    -- After any schedule of `n` threads on a new semaphore, if no thread is between the lock and
    -- the unlock of the mutex, and none in `pthread_cond_wait`: `psem_destroy` is defined.
    pub psem_destroy-defined : psem_destroy reached.mem ≡ destroyed
    unfolding psem_destroy
    psem_destroy-defined = rw (psem_destroy, not_owned, not_listed) refl
