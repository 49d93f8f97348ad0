-- ===== src/Fifo.antt =====
-- What a task queue promises, whatever its representation: a first-in first-out list of bounded
-- length.
use libthreads.Prelude.{
  ℕ, Bool, true, false, List, [], ◌∷◌, ◌++◌, Option, none, some, length, ◌==◌, ◌≡◌, if◌then◌else◌,
}

module _ {ℓ} {A : Type ℓ} where
  -- Whether the task was taken, and the queue after it.
  unfoldable pub offer : ℕ → List A → A → Bool × List A
  offer cap q a = if length q == cap then (false, q) else (true, q ++ a ∷ [])

  unfoldable pub poll : List A → Option (A × List A)
  poll [] = none
  poll (a ∷ q) = some (a, q)

-- What one step of a concurrent queue may do to what it holds: nothing, or add one at the end where
-- there is room, or take the oldest.
pub data Moves {A : Type 0} (Room : List A → Type 0) (q q' : List A) : Type 0 where
  stays : q' ≡ q → Moves Room q q'
  offers : (a : A) → Room q → q' ≡ q ++ a ∷ [] → Moves Room q q'
  polls : (a : A) → q ≡ a ∷ q' → Moves Room q q'
