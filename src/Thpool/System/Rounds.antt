-- ===== src/Thpool/System/Rounds.antt =====
-- src/threads/thpool.c: rounds of a pool that is not paused, in which every thread is chosen.
use mathlib.Core.Path.{subst}
use native.Mathlib.Decide.{ℕ_discrete}
use libthreads.Prelude.{
  All, ℕ, ◌<◌, ◌≡◌, refl, sym, ap, ◌∙◌, ◌⊎◌, inl, inr, List, [], ◌∷◌, ◌++◌, arith, length,
  Bool-cases,
}
use libthreads.Threads
use libthreads.Threads.{turns, run-append}
use libthreads.Thpool.System.{Choice, chosen, System, thread_step, step, run}
use libthreads.Thpool.System.LostWakeup.{IsStuck}
use libthreads.Thpool.System.Rest.{plainly}
use libthreads.Thpool.System.Settle.{
  is_idle, calmly, go_on, go_on_all, go_rounds, IsRound, work_left, not_idle, idle_not,
  none_whatever, still_step, Ready, load, Lighter, asleep-few, IsStill, go_on-Outcome,
}

module _ (n count : ℕ) where
  -- All threads that are chosen are still, or less is left to be done.
  abbrev Outcomes : System → List Choice → System → Type 0
  Outcomes s cs t =
      ((t ≡ s) × ((j : ℕ) → 0 < turns chosen j cs → IsStill n count s j))
      ⊎ (Ready n count t × Lighter n count 1 s t)

  add_still :
      (s t : System) (c : Choice) (cs : List Choice)
      → IsStill n count s c.i
      → Outcomes s cs t
      → Outcomes s (c ∷ cs) t
  add_still s t c cs still (inr less) = inr less
  add_still s t c cs still (inl (same, others)) = inl (
    same,
    λ j lt. elim (ℕ_discrete c.i j) [
      | yes own ↦ subst (IsStill n count s) own still
      | no other ↦ others j (ground arith)
    ],
  )

  then_less :
      (s t u : System) (cs ds : List Choice)
      → Ready n count t
      → Lighter n count 1 s t
      → Outcomes t cs u
      → Outcomes s ds u
  then_less s t u cs ds v less (inl (same, still)) =
      inr (subst (λ x. Ready n count x × Lighter n count 1 s x) (sym same) (v, less))
  then_less s t u cs ds v less (inr (w, less')) = inr (w, omega (arith, less, less'))

  go_on_all-Outcomes :
      (s : System) → Ready n count s → (cs : List Choice) → Outcomes s cs (go_on_all n s cs)
  unfolding go_on_all
  go_on_all-Outcomes s v [] = inl (refl, λ j lt. absurd (omega arith))
  go_on_all-Outcomes s v (c ∷ cs) = elim (go_on-Outcome n count s v c) [
    | inl (same, still) ↦
        subst (λ x. Outcomes s (c ∷ cs) (go_on_all n x cs)) (sym same)
          (add_still s (go_on_all n s cs) c cs still (go_on_all-Outcomes s v cs))
    | inr (w, less) ↦
        then_less s (go_on n s c) (go_on_all n (go_on n s c) cs) cs (c ∷ cs) w less
          (go_on_all-Outcomes (go_on n s c) w cs)
  ]

  -- Where all threads are still, nothing moves any more.
  still-IsStuck : (s : System) → ((j : ℕ) → j < n → IsStill n count s j) → IsStuck n s
  still-IsStuck s still c calm called = still_step n s c λ lt.
      let busy = idle_not (s.thread c.i) called in
      none_whatever (plainly c.i) c s.mem (s.thread c.i) refl refl calm busy (still c.i lt lt busy)

  stuck-go_on : (s : System) (c : Choice) → IsStuck n s → go_on n s c ≡ s
  unfolding go_on
  stuck-go_on s c stuck = elim (Bool-cases (is_idle (s.thread c.i))) [
    | inl between ↦ rw between refl
    | inr busy ↦ rw busy (stuck (calmly c) refl (not_idle (s.thread c.i) busy))
  ]

  stuck-go_on_all : (s : System) (cs : List Choice) → IsStuck n s → go_on_all n s cs ≡ s
  unfolding go_on_all
  stuck-go_on_all s [] stuck = refl
  stuck-go_on_all s (c ∷ cs) stuck = rw (stuck-go_on s c stuck) (stuck-go_on_all s cs stuck)

  stuck-go_rounds : (s : System) (rs : List (List Choice)) → IsStuck n s → go_rounds n s rs ≡ s
  unfolding go_rounds
  stuck-go_rounds s [] stuck = refl
  stuck-go_rounds s (r ∷ rs) stuck = rw (stuck-go_on_all s r stuck) (stuck-go_rounds s rs stuck)

  -- After some rounds nothing moves any more, or each has left less to be done.
  rounds-cases :
      (s : System) (rs : List (List Choice))
      → Ready n count s
      → All (IsRound n) rs
      → IsStuck n (go_rounds n s rs)
        ⊎ (Ready n count (go_rounds n s rs) × Lighter n count (length rs) s (go_rounds n s rs))
  unfolding go_rounds
  rounds-cases s [] v all = inr (v, omega arith)
  rounds-cases s (r ∷ rs) v all = elim (go_on_all-Outcomes s v r) [
    | inl (same, still) ↦
        let stuck = still-IsStuck s (λ j lt. still j (all.0 j lt)) in
        inl (
          subst (IsStuck n) (sym (ap (λ x. go_rounds n x rs) same ∙ stuck-go_rounds s rs stuck))
            stuck)
    | inr (w, less) ↦ elim (rounds-cases (go_on_all n s r) rs w all.1) [
      | inl stuck ↦ inl stuck
      | inr (w', less') ↦ inr (w', omega (arith, less, less'))
    ]
  ]

-- If a pool satisfies its invariants and is not paused: after more rounds than `work_left`, in each
-- of which every thread is chosen, in any order and any number of times, and goes on with what it
-- is doing without beginning a call or ending a wait that nobody has signalled, no thread can make
-- a step.
pub rounds-IsStuck :
    (n : ℕ) (s : System) (rs : List (List Choice))
    → Ready n s.mem.pool.thread_count s
    → All (IsRound n) rs
    → work_left n s < length rs
    → IsStuck n (go_rounds n s rs)
unfolding work_left load
rounds-IsStuck n s rs v all enough = elim (rounds-cases n s.mem.pool.thread_count s rs v all) [
  | inl stuck ↦ stuck
  | inr (w, less) ↦
      absurd
        (omega (arith, less, enough, asleep-few n s.mem.pool.thread_count (go_rounds n s rs) w))
]

-- What the threads do that go on is one of their runs.
go_on-run : (n : ℕ) (s : System) (c : Choice) → (cs : List Choice) × (go_on n s c ≡ run n s cs)
unfolding go_on run Threads.run step
go_on-run n s c = elim (Bool-cases (is_idle (s.thread c.i))) [
  | inl between ↦ ([], rw between refl)
  | inr busy ↦ (calmly c ∷ [], rw busy refl)
]

joined_runs :
    (n : ℕ) (s t u : System)
    → ((cs : List Choice) × (t ≡ run n s cs))
    → ((cs : List Choice) × (u ≡ run n t cs))
    → (cs : List Choice) × (u ≡ run n s cs)
unfolding run
joined_runs n s t u (cs, first) (ds, then_) =
    (cs ++ ds, then_ ∙ ap (λ x. run n x ds) first ∙ sym (run-append chosen thread_step n s cs ds))

go_on_all-run :
    (n : ℕ) (s : System) (ds : List Choice) → (cs : List Choice) × (go_on_all n s ds ≡ run n s cs)
unfolding go_on_all run Threads.run
go_on_all-run n s [] = ([], refl)
go_on_all-run n s (d ∷ ds) =
    joined_runs n s (go_on n s d) (go_on_all n (go_on n s d) ds) (go_on-run n s d)
      (go_on_all-run n (go_on n s d) ds)

pub go_rounds-run :
    (n : ℕ) (s : System) (rs : List (List Choice))
    → (cs : List Choice) × (go_rounds n s rs ≡ run n s cs)
unfolding go_rounds run Threads.run
go_rounds-run n s [] = ([], refl)
go_rounds-run n s (r ∷ rs) =
    joined_runs n s (go_on_all n s r) (go_rounds n (go_on_all n s r) rs) (go_on_all-run n s r)
      (go_rounds-run n (go_on_all n s r) rs)
