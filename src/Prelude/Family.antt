-- ===== src/Prelude/Family.antt =====
-- Threads are a function from indices to their states: one entry is replaced, and a weight of the
-- states is summed over the first `n` threads.
use Prim.Native.Nat.{ℕ, zero, suc, ◌+◌, ◌≤◌, ◌<◌}
use mathlib.Core.Path.{◌≡◌, refl, sym, subst}
use mathlib.Core.Logic.{◌≢◌}
use native.Mathlib.Omega.{arith}
use native.Mathlib.Decide.{dec_lt, ℕ_discrete}
use libthreads.Prelude.Tests.{◌==◌, if◌then◌else◌}

abbrev pub update {ℓ} : {A : Type ℓ} → (ℕ → A) → ℕ → A → ℕ → A
update f i a j = if i == j then a else f j

module _ {ℓ} {A : Type ℓ} where
  pub update_self : (f : ℕ → A) (i : ℕ) (a : A) → update f i a i ≡ a
  update_self f i a = ground arith

  pub update_ne : (f : ℕ → A) (i j : ℕ) (a : A) → i ≢ j → update f i a j ≡ f j
  update_ne f i j a h = ground arith

  -- What holds of the new entry and of the others holds of all.
  pub update_each {κ} :
      (P : ℕ → A → Type κ) (f : ℕ → A) (i : ℕ) (a : A)
      → P i a
      → ((j : ℕ) → j ≢ i → P j (f j))
      → (j : ℕ) → P j (update f i a j)
  update_each P f i a own rest j = elim (ℕ_discrete i j) [
    | yes same ↦ subst (λ k. P k (update f i a k)) same (rw (update_self f i a) own)
    | no other ↦ rw (update_ne f i j a other) (rest j (λ e. other (sym e)))
  ]

-- The sum of the weights of the first `n` threads.
module _ {ℓ} {S : Type ℓ} (weight : S → ℕ) where
  unfoldable pub total : ℕ → (ℕ → S) → ℕ
  total zero thread = 0
  total (suc n) thread = total n thread + weight (thread n)

  pub total-eq-zero_below :
      (n : ℕ) (thread : ℕ → S) → ((j : ℕ) → j < n → weight (thread j) ≡ 0) → total n thread ≡ 0
  unfolding total
  total-eq-zero_below zero thread none_has = refl
  total-eq-zero_below (suc n) thread none_has = omega (
    arith,
    none_has n (omega arith),
    total-eq-zero_below n thread (λ j lt. none_has j (omega arith)),
  )

  pub total-eq-zero :
      (n : ℕ) (thread : ℕ → S) → ((j : ℕ) → weight (thread j) ≡ 0) → total n thread ≡ 0
  total-eq-zero n thread none_has = total-eq-zero_below n thread (λ j _. none_has j)

  pub total-le : ((s : S) → weight s ≤ 1) → (n : ℕ) (thread : ℕ → S) → total n thread ≤ n
  unfolding total
  total-le light zero thread = omega arith
  total-le light (suc n) thread = omega (arith, total-le light n thread, light (thread n))

  -- What replacing the state of thread `j` does to the sum, whether or not `j` is among the first
  -- `n`.
  Moved : ℕ → (ℕ → S) → ℕ → S → Type 0
  Moved n thread j s =
      (n ≤ j → total n (update thread j s) ≡ total n thread)
      × (j < n → total n (update thread j s) + weight (thread j) ≡ total n thread + weight s)

  total-Moved : (n : ℕ) (thread : ℕ → S) (j : ℕ) (s : S) → Moved n thread j s
  unfolding total Moved
  total-Moved zero thread j s = ((λ _. refl), (λ lt. absurd (omega arith)))
  total-Moved (suc n) thread j s =
      let (outside, inside) = total-Moved n thread j s in
      (
        (λ le. ground (arith, outside (omega arith))),
        (λ lt. elim (dec_lt j n) [
          | yes earlier ↦ ground (arith, inside earlier)
          | no at_end ↦ ground (arith, outside (omega arith))
        ]),
      )

  -- The sum changes by what the replaced entry changes by.
  pub total-update :
      (n : ℕ) (thread : ℕ → S) (j : ℕ) (s : S)
      → j < n
      → total n (update thread j s) + weight (thread j) ≡ total n thread + weight s
  unfolding Moved
  total-update n thread j s = (total-Moved n thread j s).1

  pub total-le-of : (n : ℕ) (thread : ℕ → S) (j : ℕ) → j < n → weight (thread j) ≤ total n thread
  unfolding total
  total-le-of zero thread j lt = absurd (omega arith)
  total-le-of (suc n) thread j lt = elim (dec_lt j n) [
    | yes earlier ↦ omega (arith, total-le-of n thread j earlier)
    | no at_end ↦ ground arith
  ]

module _ {ℓ} {S : Type ℓ} (lower upper : S → ℕ) (below : (s : S) → lower s ≤ upper s) where
  pub total_mono : (n : ℕ) (thread : ℕ → S) → total lower n thread ≤ total upper n thread
  unfolding total
  total_mono zero thread = omega arith
  total_mono (suc n) thread = omega (arith, total_mono n thread, below (thread n))
