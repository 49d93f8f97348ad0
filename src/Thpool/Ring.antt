-- ===== src/Thpool/Ring.antt =====
-- The task queue of `struct thpool` is a ring: what it holds, oldest first, and the first-in
-- first-out behaviour of `enqueue` and `dequeue`.
use native.Mathlib.Nat.{mod-eq_of_lt, mod-eq-sub-mod, mod-add-mod}
use mathlib.Core.Path.{ap₂, ◌≡⟨◌⟩◌, ◌∎}
use native.Mathlib.Decide.{dec_lt}
use libthreads.Prelude.{
  ℕ, suc, ◌+◌, ◌-◌, ◌%◌, ◌≤◌, ◌<◌, ◌≡◌, sym, ap, ◌∙◌, ◌≢◌, ◌⊎◌, inl, inr, List, [], ◌∷◌, ◌++◌,
  arith, length, get_or, tabulate, length-set, get_or-set_self, get_or-set_ne, length-tabulate,
  tabulate-snoc, tabulate-cong,
}
use libthreads.Thpool.Pool.{Task, no_task, Pool, size_max, size, enqueue, head_task, dequeue}

pub record IsValid (p : Pool) : Type 0 where
  pub stored : p.queue_size ≤ length p.task_queue
  pub sized : p.queue_size < size_max
  pub head_in : p.head < p.queue_size
  pub count_in : p.queue_count ≤ p.queue_size
  pub tail_at : p.tail ≡ (p.head + p.queue_count) % p.queue_size

-- The index of the `k`-th task.
abbrev pub slot : Pool → ℕ → ℕ
slot p k = (p.head + k) % p.queue_size

abbrev pub task_at : Pool → ℕ → Task
task_at p k = get_or p.task_queue (slot p k) no_task

-- The tasks in `count` slots of an array of `size`, round the end, from index `head` on.
unfoldable pub queued : List Task → ℕ → ℕ → ℕ → List Task
queued tasks size head count = tabulate count (λ k. get_or tasks ((head + k) % size) no_task)

-- The queued tasks, oldest first.
abbrev pub contents : Pool → List Task
contents p = queued p.task_queue p.queue_size p.head p.queue_count

pub length-contents : (p : Pool) → length (contents p) ≡ p.queue_count
unfolding queued
length-contents p = length-tabulate p.queue_count (task_at p)

pub contents-nil : (p : Pool) → p.queue_count ≡ 0 → contents p ≡ []
unfolding queued
contents-nil p e = ap (λ n. tabulate n (task_at p)) e

-- Less than two turns round the ring.
mod_once : (s x : ℕ) → x < s + s → ((x < s) × (x % s ≡ x)) ⊎ ((s ≤ x) × (x % s ≡ x - s))
mod_once s x h = elim (dec_lt x s) [
  | yes below ↦ inl (below, mod-eq_of_lt below)
  | no past ↦
      inr (omega arith, mod-eq-sub-mod {n = x} {m = s} (omega arith) ∙ mod-eq_of_lt (omega arith))
]

slots_differ : (s h i j : ℕ) → h < s → i < j → j < s → (h + j) % s ≢ (h + i) % s
slots_differ s h i j hs ij js =
    omega (arith, mod_once s (h + i) (omega arith), mod_once s (h + j) (omega arith))

next_slot : (s h k : ℕ) → ((h + 1) % s + k) % s ≡ (h + suc k) % s
next_slot s h k = rw mod-add-mod (ap (λ x. x % s) (omega arith))

module _ {p : Pool} (v : IsValid p) where
  open v use {stored, sized, head_in, count_in, tail_at}

  one_more : p.queue_count ≢ p.queue_size → size (p.queue_count + 1) ≡ suc p.queue_count
  one_more room = omega arith

  one_less : p.queue_count ≢ 0 → p.queue_count ≡ suc (size (p.queue_count + size_max - 1))
  one_less some_left = omega arith

  slot-dequeue : (k : ℕ) → slot p (suc k) ≡ slot (dequeue p) k
  unfolding dequeue
  slot-dequeue k =
      slot p (suc k)
      ≡⟨ sym (next_slot p.queue_size p.head k) ⟩ ((p.head + 1) % p.queue_size + k) % p.queue_size
      ≡⟨ ap (λ x. (x % p.queue_size + k) % p.queue_size) {y = size (p.head + 1)} (omega arith) ⟩
        slot (dequeue p) k ∎

  tail_after :
      p.queue_count ≢ p.queue_size
      → size (p.tail + 1) % p.queue_size ≡ (p.head + size (p.queue_count + 1)) % p.queue_size
  tail_after room =
      size (p.tail + 1) % p.queue_size
      ≡⟨ ap (λ x. x % p.queue_size) (omega arith) ⟩ (p.tail + 1) % p.queue_size
      ≡⟨ ap (λ x. (x + 1) % p.queue_size) tail_at ⟩
        ((p.head + p.queue_count) % p.queue_size + 1) % p.queue_size
      ≡⟨ rw mod-add-mod (ap (λ x. x % p.queue_size) (omega arith)) ⟩
        (p.head + size (p.queue_count + 1)) % p.queue_size ∎

  pub enqueue-IsValid : (t : Task) → p.queue_count ≢ p.queue_size → IsValid (enqueue p t)
  unfolding enqueue
  enqueue-IsValid t room = record {
    stored = omega (arith, length-set p.task_queue p.tail t);
    sized = sized;
    head_in = head_in;
    count_in = omega arith;
    tail_at = tail_after room;
  }

  -- A task that is added goes to the end, and the others keep their places.
  pub contents-enqueue :
      (t : Task) → p.queue_count ≢ p.queue_size → contents (enqueue p t) ≡ contents p ++ t ∷ []
  unfolding queued enqueue
  contents-enqueue t room =
      contents (enqueue p t)
      ≡⟨ ap (λ n. tabulate n (task_at (enqueue p t))) (one_more room) ⟩
        tabulate (suc p.queue_count) (task_at (enqueue p t))
      ≡⟨ tabulate-snoc p.queue_count (task_at (enqueue p t)) ⟩
        tabulate p.queue_count (task_at (enqueue p t)) ++ task_at (enqueue p t) p.queue_count ∷ []
      ≡⟨ ap₂ (λ xs x. xs ++ x ∷ [])
          (tabulate-cong p.queue_count (task_at (enqueue p t)) (task_at p) kept) placed ⟩
        contents p ++ t ∷ [] ∎
    where
      kept : (k : ℕ) → k < p.queue_count → task_at (enqueue p t) k ≡ task_at p k
      kept k lt =
          get_or-set_ne p.task_queue p.tail (slot p k) t no_task
            (rw tail_at (slots_differ p.queue_size p.head k p.queue_count head_in lt (omega arith)))

      placed : task_at (enqueue p t) p.queue_count ≡ t
      placed = rw (← tail_at) (get_or-set_self p.task_queue p.tail t no_task (omega (arith)))

  pub dequeue-IsValid : p.queue_count ≢ 0 → IsValid (dequeue p)
  unfolding dequeue
  dequeue-IsValid some_left = record {
    stored = stored;
    sized = sized;
    head_in = omega arith;
    count_in = omega arith;
    tail_at =
        tail_at
        ∙ ap (λ c. (p.head + c) % p.queue_size) (one_less some_left)
        ∙ slot-dequeue (size (p.queue_count + size_max - 1));
  }

  -- The oldest task is the one that the head points to, and taking it leaves the rest.
  pub contents-dequeue : p.queue_count ≢ 0 → contents p ≡ head_task p ∷ contents (dequeue p)
  unfolding queued dequeue head_task
  contents-dequeue some_left =
      contents p
      ≡⟨ ap (λ n. tabulate n (task_at p)) (one_less some_left) ⟩
        tabulate (suc (dequeue p).queue_count) (task_at p)
      ≡⟨ ap₂ ◌∷◌
          (ap (λ i. get_or p.task_queue i no_task)
            (mod-eq_of_lt {n = p.head + 0} (omega arith) ∙ omega arith))
          (tabulate-cong (dequeue p).queue_count (λ k. task_at p (suc k)) (task_at (dequeue p))
            (λ k lt. ap (λ i. get_or p.task_queue i no_task) (slot-dequeue k))) ⟩
        head_task p ∷ contents (dequeue p) ∎
