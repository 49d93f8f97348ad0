-- ===== src/Threads.antt =====
-- Threads over a shared memory, in any interleaving: a thread stands at a place of type `P`, and a
-- choice names a thread and what it does next. The components say what one thread does.
use mathlib.Core.Path.{subst}
use libthreads.Prelude.{
  All, ℕ, zero, suc, ◌<◌, ◌≡◌, ◌≢◌, ◌∙◌, refl, sym, replicate, update_ne, inl, inr, List, [], ◌∷◌,
  ◌++◌, Option, none, some, arith, ltb, ◌==◌, lt→ltb, if◌then◌else◌, Bool-cases, Option-cases,
  update, update_self,
}

pub record System (M P : Type 0) : Type 0 where
  pub mem : M
  pub thread : ℕ → P

module _ {C : Type 0} (who : C → ℕ) where
  -- How often thread `w` is chosen.
  abbrev pub turns : ℕ → List C → ℕ
  turns w [] = 0
  turns w (c ∷ cs) = let rest = turns w cs in if who c == w then suc rest else rest

-- `who c` is the thread that makes the step, and `move c` the step; `none` if it is blocked.
module _ {M P C : Type 0} (who : C → ℕ) (move : C → M → P → Option (M × P)) where
  -- A thread that is blocked makes no step, and only the first `n` threads run.
  unfoldable pub step : ℕ → System M P → C → System M P
  step n s c =
      if ltb (who c) n
      then elim (move c s.mem (s.thread (who c))) [
        | none ↦ s
        | some (m, p) ↦ record { mem = m; thread = update s.thread (who c) p }
      ]
      else s

  unfoldable pub run : ℕ → System M P → List C → System M P
  run n s [] = s
  run n s (c ∷ cs) = run n (step n s c) cs

  -- What a step that is made leads to; any other changes nothing.
  pub step_cases {ℓ} :
      (I : System M P → Type ℓ) (n : ℕ) (s : System M P) (c : C)
      → I s
      → ((m : M) (p : P)
          → who c < n
          → move c s.mem (s.thread (who c)) ≡ some (m, p)
          → I (record { mem = m; thread = update s.thread (who c) p }))
      → I (step n s c)
  unfolding step
  step_cases I n s c stay go = elim (Bool-cases (ltb (who c) n)) [
    | inr out ↦ rw out stay
    | inl here ↦ elim (Option-cases (move c s.mem (s.thread (who c)))) [
      | inl blocked ↦ rw (here, blocked) stay
      | inr ((m, p), moved) ↦ rw (here, moved) (go m p (ground arith) moved)
    ]
  ]

  -- What every step keeps holds after any schedule.
  pub run_keeps {ℓ} :
      (I : System M P → Type ℓ) (n : ℕ)
      → ((s : System M P) (c : C) → I s → I (step n s c))
      → (s : System M P) (cs : List C) → I s
      → I (run n s cs)
  unfolding run
  run_keeps I n keeps s [] v = v
  run_keeps I n keeps s (c ∷ cs) v = run_keeps I n keeps (step n s c) cs (keeps s c v)

  -- The same for schedules of choices that all satisfy `Ok`.
  pub run_keeps_all {ℓ κ} :
      (I : System M P → Type ℓ) (Ok : C → Type κ) (n : ℕ)
      → ((s : System M P) (c : C) → Ok c → I s → I (step n s c))
      → (s : System M P) (cs : List C) → All Ok cs
      → I s
      → I (run n s cs)
  unfolding run
  run_keeps_all I Ok n keeps s [] ok v = v
  run_keeps_all I Ok n keeps s (c ∷ cs) ok v =
      run_keeps_all I Ok n keeps (step n s c) cs ok.1 (keeps s c ok.0 v)

  pub run-append :
      (n : ℕ) (s : System M P) (cs ds : List C) → run n s (cs ++ ds) ≡ run n (run n s cs) ds
  unfolding run
  run-append n s [] ds = refl
  run-append n s (c ∷ cs) ds = run-append n (step n s c) cs ds

  -- The chosen thread stands at `p` over the memory `m`.
  pub record At (c : C) (s : System M P) (m : M) (p : P) : Type 0 where
    pub memory : s.mem ≡ m
    pub place : s.thread (who c) ≡ p

  pub step-moved :
      (n : ℕ) (c : C) (s : System M P) {p p' : P} {m' : M}
      → who c < n
      → s.thread (who c) ≡ p
      → move c s.mem p ≡ some (m', p')
      → step n s c ≡ record { mem = m'; thread = update s.thread (who c) p' }
  unfolding step
  step-moved n c s lt place moved = rw (lt→ltb lt, place, moved)

  pub At-step :
      (n : ℕ) (c : C) {s : System M P} {m m' : M} {p p' : P}
      → who c < n
      → At c s m p
      → move c m p ≡ some (m', p')
      → At c (step n s c) m' p'
  At-step n c {s} {m} {m'} {p} {p'} here at moved =
      subst (λ t. At c t m' p')
        (sym (
          step-moved n c s here at.place
            (subst (λ x. move c x p ≡ some (m', p')) (sym at.memory) moved)))
        (record { memory = refl; place = update_self s.thread (who c) p' })

  -- A thread that is blocked leaves the system as it is.
  pub blocked_step :
      (n : ℕ) (s : System M P) (c : C)
      → (who c < n → move c s.mem (s.thread (who c)) ≡ none)
      → step n s c ≡ s
  unfolding step
  blocked_step n s c blocked = elim (Bool-cases (ltb (who c) n)) [
    | inl here ↦ rw (here, blocked (ground arith))
    | inr out ↦ rw out
  ]

  -- The chosen thread is blocked, or makes its step.
  pub step_either {ℓ} :
      (I : System M P → Type ℓ) (n : ℕ) (s : System M P) (c : C)
      → who c < n
      → (move c s.mem (s.thread (who c)) ≡ none → I s)
      → ((m : M) (p : P)
          → move c s.mem (s.thread (who c)) ≡ some (m, p)
          → I (record { mem = m; thread = update s.thread (who c) p }))
      → I (step n s c)
  step_either I n s c lt stay go = elim (Option-cases (move c s.mem (s.thread (who c)))) [
    | inl blocked ↦ subst I (sym (blocked_step n s c λ _. blocked)) (stay blocked)
    | inr ((m, p), moved) ↦
        subst I (sym (step-moved n c s {p = s.thread (who c)} lt refl moved)) (go m p moved)
  ]

  -- While one thread runs alone, the others stay where they are.
  pub alone_elsewhere :
      (n : ℕ) (s : System M P) (c : C) (k j : ℕ)
      → who c ≢ j
      → (run n s (replicate k c)).thread j ≡ s.thread j
  unfolding run
  alone_elsewhere n s c zero j other = refl
  alone_elsewhere n s c (suc k) j other =
      alone_elsewhere n (step n s c) c k j other
      ∙ step_cases (λ t. t.thread j ≡ s.thread j) n s c refl
          λ m p lt moved. update_ne s.thread (who c) j p other

  pub blocked_run :
      (n k : ℕ) (s : System M P) (c : C)
      → move c s.mem (s.thread (who c)) ≡ none
      → run n s (replicate k c) ≡ s
  unfolding run
  blocked_run n zero s c blocked = refl
  blocked_run n (suc k) s c blocked =
      subst (λ t. run n t (replicate k c) ≡ s) (sym (blocked_step n s c (λ _. blocked)))
        (blocked_run n k s c blocked)
