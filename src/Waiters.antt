-- ===== src/Waiters.antt =====
-- Lists of waiting threads: what waking one, or taking one out, does to them.
use native.Mathlib.Decide.{ℕ_discrete}
use libthreads.Prelude.{
  ℕ, zero, suc, ◌+◌, ◌%◌, ◌≤◌, ◌<◌, ◌≡◌, ◌≢◌, refl, ap, true, false, List, [], ◌∷◌, arith, length,
  elem, get_or, remove_at, remove_all, update, total, total-update,
}
use libthreads.Thpool.Shared.{wake_one}

abbrev pub IsDistinct : List ℕ → Type 0
IsDistinct [] = Unit {0}
IsDistinct (x ∷ xs) = (elem x xs ≡ false) × IsDistinct xs

elem-remove_at : (k j : ℕ) (l : List ℕ) → elem j (remove_at k l) ≡ true → elem j l ≡ true
elem-remove_at k j [] h = h
elem-remove_at zero j (x ∷ l) h = ground arith
elem-remove_at (suc k) j (x ∷ l) h = ground (arith, elem-remove_at k j l)

remove_at-IsDistinct : (k : ℕ) (l : List ℕ) → IsDistinct l → IsDistinct (remove_at k l)
remove_at-IsDistinct k [] d = tt
remove_at-IsDistinct zero (x ∷ l) d = d.1
remove_at-IsDistinct (suc k) (x ∷ l) d =
    (ground (arith, elem-remove_at k x l), remove_at-IsDistinct k l d.1)

length-remove_at : (k : ℕ) (l : List ℕ) → length (remove_at k l) ≤ length l
length-remove_at k [] = omega arith
length-remove_at zero (x ∷ l) = omega arith
length-remove_at (suc k) (x ∷ l) = omega (arith, length-remove_at k l)

length-remove_at_lt : (k : ℕ) (l : List ℕ) → k < length l → suc (length (remove_at k l)) ≡ length l
length-remove_at_lt k [] h = absurd (omega arith)
length-remove_at_lt zero (x ∷ l) h = refl
length-remove_at_lt (suc k) (x ∷ l) h = ap suc (length-remove_at_lt k l (omega arith))

pub elem-wake_one : (k j : ℕ) (l : List ℕ) → elem j (wake_one k l) ≡ true → elem j l ≡ true
elem-wake_one k j l = elem-remove_at (k % length l) j l

pub wake_one-IsDistinct : (k : ℕ) (l : List ℕ) → IsDistinct l → IsDistinct (wake_one k l)
wake_one-IsDistinct k l = remove_at-IsDistinct (k % length l) l

pub length-wake_one : (k : ℕ) (l : List ℕ) → length (wake_one k l) ≤ length l
length-wake_one k l = length-remove_at (k % length l) l

pub elem-length : (j : ℕ) (l : List ℕ) → elem j l ≡ true → 0 < length l
elem-length j [] h = ground arith
elem-length j (x ∷ l) h = omega arith

-- A list with a thread on it loses exactly one.
pub length-wake_one_some :
    (k : ℕ) (l : List ℕ) → 0 < length l → suc (length (wake_one k l)) ≡ length l
length-wake_one_some k l h = length-remove_at_lt (k % length l) l (grind arith)

pub elem-remove_all : (i j : ℕ) (l : List ℕ) → elem j (remove_all i l) ≡ true → elem j l ≡ true
elem-remove_all i j [] h = h
elem-remove_all i j (x ∷ l) h = ground (arith, elem-remove_all i j l)

pub elem-remove_all_ne :
    (i j : ℕ) (l : List ℕ) → i ≢ j → elem j l ≡ true → elem j (remove_all i l) ≡ true
elem-remove_all_ne i j [] other h = h
elem-remove_all_ne i j (x ∷ l) other h = ground (arith, elem-remove_all_ne i j l)

pub elem-remove_all_self : (i : ℕ) (l : List ℕ) → elem i (remove_all i l) ≡ false
elem-remove_all_self i [] = refl
elem-remove_all_self i (x ∷ l) = ground (arith, elem-remove_all_self i l)

pub remove_all-IsDistinct : (i : ℕ) (l : List ℕ) → IsDistinct l → IsDistinct (remove_all i l)
remove_all-IsDistinct i [] d = tt
remove_all-IsDistinct i (x ∷ l) d =
    ground (arith, elem-remove_all i x l, remove_all-IsDistinct i l d.1)

length-remove_all_absent :
    (i : ℕ) (l : List ℕ) → elem i l ≡ false → length (remove_all i l) ≡ length l
length-remove_all_absent i [] h = refl
length-remove_all_absent i (x ∷ l) h = ground (arith, length-remove_all_absent i l)

pub length-remove_all :
    (i : ℕ) (l : List ℕ) → IsDistinct l → elem i l ≡ true → suc (length (remove_all i l)) ≡ length l
length-remove_all i [] d h = cc
length-remove_all i (x ∷ l) d h = elim (ℕ_discrete i x) [
  | yes same ↦ ground (arith, length-remove_all_absent i l, ap (λ y. elem y l) same)
  | no other ↦ ground (arith, length-remove_all i l d.1)
]

-- Different threads with the weight 1 each are no more than the weight of all.
sum : ℕ → (ℕ → ℕ) → ℕ
sum = total (λ k. k)

length-le-sum :
    (n : ℕ) (l : List ℕ) (g : ℕ → ℕ)
    → IsDistinct l
    → ((j : ℕ) → elem j l ≡ true → (j < n) × (g j ≡ 1))
    → length l ≤ sum n g
unfolding sum
length-le-sum n [] g d h = omega arith
length-le-sum n (x ∷ l) g d h =
    let (lt, one) = h x (ground arith) in
    let rest =
      length-le-sum n l (update g x 0) d.1
        λ j there. ground (arith, h j, ap (λ y. elem y l) {x = j} {y = x}) in
    omega (arith, rest, one, total-update (λ (k : ℕ). k) n g x 0 lt)

total-sum :
    {S : Type 0} (weight : S → ℕ) (n : ℕ) (thread : ℕ → S)
    → total weight n thread ≡ sum n (λ j. weight (thread j))
unfolding sum total
total-sum weight zero thread = refl
total-sum weight (suc n) thread = ap (λ k. k + weight (thread n)) (total-sum weight n thread)

pub length-le-total :
    {S : Type 0} (weight : S → ℕ) (n : ℕ) (thread : ℕ → S) (l : List ℕ)
    → IsDistinct l
    → ((j : ℕ) → elem j l ≡ true → (j < n) × (weight (thread j) ≡ 1))
    → length l ≤ total weight n thread
length-le-total weight n thread l d h =
    rw (total-sum weight n thread) (length-le-sum n l (λ j. weight (thread j)) d h)

-- The thread that is woken.
abbrev pub woken_one : ℕ → List ℕ → ℕ
woken_one k l = get_or l (k % length l) 0

elem-get_or : (k : ℕ) (l : List ℕ) → k < length l → elem (get_or l k 0) l ≡ true
elem-get_or k [] h = absurd (omega arith)
elem-get_or zero (x ∷ l) h = ground arith
elem-get_or (suc k) (x ∷ l) h = ground (arith, elem-get_or k l)

get_or-remove_at :
    (k : ℕ) (l : List ℕ) → IsDistinct l → k < length l → elem (get_or l k 0) (remove_at k l) ≡ false
get_or-remove_at k [] d h = refl
get_or-remove_at zero (x ∷ l) d h = d.0
get_or-remove_at (suc k) (x ∷ l) d h =
    let apart : get_or l k 0 ≢ x =
      (λ e. cc (elem-get_or k l (omega arith), d.0, ap (λ y. elem y l) e)) in
    ground (arith, get_or-remove_at k l d.1)

pub elem-woken_one : (k : ℕ) (l : List ℕ) → 0 < length l → elem (woken_one k l) l ≡ true
elem-woken_one k l h = elem-get_or (k % length l) l (grind arith)

pub woken_one-wake_one :
    (k : ℕ) (l : List ℕ) → IsDistinct l → 0 < length l → elem (woken_one k l) (wake_one k l) ≡ false
woken_one-wake_one k l d h = get_or-remove_at (k % length l) l d (grind arith)
