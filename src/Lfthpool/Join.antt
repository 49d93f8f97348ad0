-- ===== src/Lfthpool/Join.antt =====
-- src/threads/lfthpool.c: what a step does to the handles of the workers and to what a thread in
-- `lfthpool_shutdown` has seen of them.
use mathlib.Core.Path.{subst, subst₂}
use native.Mathlib.Decide.{ℕ_discrete}
use libthreads.Prelude.{
  ℕ, suc, ◌≤◌, ◌<◌, ◌≡◌, refl, ◌≢◌, ◌⊎◌, inl, inr, true, false, ◌∷◌, none, some, arith, elem,
  get_or, set, length, length-set, ltb, Bool-cases,
}
use libthreads.Lfthpool.Queue.{RingQueue}
use libthreads.Lfthpool.Step.{
  Lfthpool, Request, shutdown, destroy, Luck, Pc, returned, joining, join_waiting, join_clearing,
  freeing, idle, shut_down, lfthpool_step,
}

module _ {Q : Type 0} where
  -- The first `k` threads have returned.
  abbrev pub AllExited : ℕ → Lfthpool Q → Type 0
  AllExited k m = (x : ℕ) → x < k → elem x m.exited ≡ true

  -- What a thread in `lfthpool_shutdown` has seen.
  abbrev pub Joined : Lfthpool Q → Pc → Type 0
  Joined m (joining _ k) = (k ≤ m.thread_count) × AllExited k m
  Joined m (join_waiting _ k w) = (k < m.thread_count) × AllExited k m × (w ≡ k)
  Joined m (join_clearing _ k) = (k < m.thread_count) × AllExited (suc k) m
  Joined m freeing = AllExited m.thread_count m
  Joined m (idle shut_down) = AllExited m.thread_count m
  Joined m _ = Unit {0}

  -- The handle of thread `x` is its own, or 0 once it has been joined.
  abbrev pub Handle : Lfthpool Q → ℕ → Type 0
  Handle m x =
      (get_or m.threads x none ≡ some x)
      ⊎ ((get_or m.threads x none ≡ none) × (elem x m.exited ≡ true))

module _ {Q : Type 0} (queue : RingQueue Q) where
  pub record Keeps (i : ℕ) (m : Lfthpool Q) (p : Pc) (m' : Lfthpool Q) (p' : Pc) : Type 0 where
    pub same_count : m'.thread_count ≡ m.thread_count
    pub same_length : length m'.threads ≡ length m.threads
    pub exits : (m'.exited ≡ m.exited) ⊎ ((m'.exited ≡ i ∷ m.exited) × (p' ≡ returned))
    pub runs : p ≢ returned
    pub frees : m'.freed ≡ true → (m.freed ≡ true) ⊎ (p ≡ freeing)
    pub handles :
        (m'.threads ≡ m.threads)
        ⊎ ((k : ℕ) × (k < m.thread_count)
            × (m'.threads ≡ set m.threads k none)
            × (m'.exited ≡ m.exited)
            × (elem k m.exited ≡ true))

  pub lfthpool_step-Keeps :
      (i : ℕ) (r : Request) (l : Luck) (m : Lfthpool Q) (p : Pc) {m' : Lfthpool Q} {p' : Pc}
      → Joined m p
      → lfthpool_step queue i r l m p ≡ some (m', p')
      → Keeps i m p m' p'
  unfolding lfthpool_step
  lfthpool_step-Keeps i r l m (join_clearing d k) j e = record {
    same_count = ground arith;
    same_length = ground (arith, length-set m.threads k none);
    exits = ground arith;
    runs = ground arith;
    frees = ground arith;
    handles = inr (k, j.0, ground arith, ground arith, j.1 k (omega arith));
  }
  lfthpool_step-Keeps i r l m (joining d k) j e = ground arith
  lfthpool_step-Keeps i r l m p j e = ground arith

  AllExited-suc :
      (k : ℕ) (m : Lfthpool Q) → AllExited k m → elem k m.exited ≡ true → AllExited (suc k) m
  AllExited-suc k m all h x lt = elim (ℕ_discrete x k) [
    | yes same ↦ rw same h
    | no other ↦ all x (omega arith)
  ]

  pub lfthpool_step-Joined :
      (i : ℕ) (r : Request) (l : Luck) (m : Lfthpool Q) (p : Pc) {m' : Lfthpool Q} {p' : Pc}
      → ((x : ℕ) → x < m.thread_count → Handle m x)
      → Joined m p
      → lfthpool_step queue i r l m p ≡ some (m', p')
      → Joined m' p'
  unfolding lfthpool_step
  lfthpool_step-Joined i r l m (joining d k) {m' = m'} {p' = p'} h j e =
      elim (Bool-cases (ltb k m.thread_count)) [
        | inr all ↦ elim (Bool-cases d) [
          | inl ends ↦
              subst₂ Joined {x = m} {y = m'} {u = freeing} {v = p'} (ground arith) (ground arith)
                (λ x lt. j.1 x (ground arith))
          | inr just ↦
              subst₂ Joined {x = m} {y = m'} {u = idle shut_down} {v = p'} (ground arith)
                (ground arith) (λ x lt. j.1 x (ground arith))
        ]
        | inl more ↦ elim (h k (ground arith)) [
          | inr (gone, ended) ↦
              subst₂ Joined {x = m} {y = m'} {u = joining d (suc k)} {v = p'} (ground arith)
                (ground arith) (ground arith, AllExited-suc k m j.1 ended)
          | inl own ↦
              subst₂ Joined {x = record m { joins = k ∷ m.joins }} {y = m'} {u = join_waiting d k k}
                {v = p'} (ground arith) (ground arith) (ground arith, j.1, refl)
        ]
      ]
  lfthpool_step-Joined i r l m (join_waiting d k w) {m' = m'} {p' = p'} h j e =
      elim (Bool-cases (elem w m.exited)) [
        | inr runs ↦ absurd (ground arith)
        | inl ended ↦
            subst₂ Joined {x = m} {y = m'} {u = join_clearing d k} {v = p'} (ground arith)
              (ground arith)
              (j.0, AllExited-suc k m j.1 (subst (λ x. elem x m.exited ≡ true) j.2 ended))
      ]
  lfthpool_step-Joined i r l m (join_clearing d k) {m' = m'} {p' = p'} h j e =
      subst₂ Joined {x = record m { threads = set m.threads k none }} {y = m'}
        {u = joining d (suc k)} {v = p'} (ground arith) (ground arith) (omega arith, j.1)
  lfthpool_step-Joined i shutdown l m (idle x) {m' = m'} {p' = p'} h j e =
      subst₂ Joined {x = record m { shutdown = 1 }} {y = m'} {u = joining false 0} {v = p'}
        (ground arith) (ground arith) (omega arith, (λ x lt. absurd (omega arith)))
  lfthpool_step-Joined i destroy l m (idle x) {m' = m'} {p' = p'} h j e =
      subst₂ Joined {x = record m { shutdown = 1 }} {y = m'} {u = joining true 0} {v = p'}
        (ground arith) (ground arith) (omega arith, (λ x lt. absurd (omega arith)))
  lfthpool_step-Joined i r l m (idle x) h j e = ground arith
  lfthpool_step-Joined i r l m freeing h j e = ground arith
  lfthpool_step-Joined i r l m p h j e = ground arith
