-- ===== src/Thpool/System/Settle.antt =====
-- src/threads/thpool.c: a pool that is not paused comes to rest, in any fair schedule in which no
-- call is begun.
use mathlib.Core.Path.{subst}
use libthreads.Prelude.{
  ℕ, ◌+◌, ◌*◌, ◌≤◌, ◌<◌, ◌≡◌, ◌≢◌, refl, sym, ap, ◌∙◌, ◌⊎◌, inl, inr, Bool, true, false, List, [],
  ◌∷◌, none, some, arith, length, if◌then◌else◌, Bool-cases, Option-cases, elem, update, total,
  total-update, total-le,
}
use native.Mathlib.Decide.{dec_lt}
use libthreads.Threads.{step-moved, blocked_step, turns}
use libthreads.Waiters.{IsDistinct, length-le-total}
use libthreads.Thpool.System.Rest.{plainly}
use libthreads.Thpool.Shared.{Shared}
use libthreads.Thpool.Worker.{worker_step}
use libthreads.Thpool.Client.{Reply, idle, client_step}
use libthreads.Thpool.System.{Thread, worker, client, Choice, chosen, System, thread_step, step}
use libthreads.Thpool.System.Invariant.{Inv, step-Inv}
use libthreads.Thpool.System.Sleepers.{Sleepers, step-Sleepers}
use libthreads.Thpool.System.Blocked.{Blocked, step-Blocked}
use libthreads.Thpool.System.Weight.{weight, tasks, asleep, After, thread_step-After}

abbrev pub is_idle : Thread → Bool
is_idle (client (idle _)) = true
is_idle _ = false

-- The same choice, but no wait ends with no signal.
abbrev pub calmly : Choice → Choice
calmly c = record c { luck = record c.luck { spurious = false } }

-- The chosen thread goes on with what it is doing, and begins no call.
unfoldable pub go_on : ℕ → System → Choice → System
go_on n s c = if is_idle (s.thread c.i) then s else step n s (calmly c)

unfoldable pub go_on_all : ℕ → System → List Choice → System
go_on_all n s [] = s
go_on_all n s (c ∷ cs) = go_on_all n (go_on n s c) cs

unfoldable pub go_rounds : ℕ → System → List (List Choice) → System
go_rounds n s [] = s
go_rounds n s (r ∷ rs) = go_rounds n (go_on_all n s r) rs

-- In a round every thread is chosen at least once, in any order.
abbrev pub IsRound : ℕ → List Choice → Type 0
IsRound n r = (j : ℕ) → j < n → 0 < turns chosen j r

-- How many rounds are more than enough.
unfoldable pub work_left : ℕ → System → ℕ
work_left n s = tasks s.mem + total (weight n s.mem.pool.thread_count) n s.thread + 18 * n

pub not_idle : (p : Thread) → is_idle p ≡ false → (r : Reply) → p ≢ client (idle r)
not_idle p e r = λ at. cc (e, ap is_idle at)

pub idle_not : (p : Thread) → ((r : Reply) → p ≢ client (idle r)) → is_idle p ≡ false
idle_not (worker p) called = refl
idle_not (client (idle r)) called = absurd (called r refl)
idle_not (client p) called = ground arith

-- Whether a thread that is in a call is blocked depends on the memory alone.
pub none_whatever :
    (c d : Choice) (m : Shared) (p : Thread)
    → c.i ≡ d.i
    → c.luck.spurious ≡ false
    → d.luck.spurious ≡ false
    → is_idle p ≡ false
    → thread_step c m p ≡ none
    → thread_step d m p ≡ none
unfolding thread_step worker_step client_step
none_whatever c d m (worker p) same calm calm' busy e = ground arith
none_whatever c d m (client p) same calm calm' busy e = ground arith

pub still_step :
    (n : ℕ) (s : System) (c : Choice)
    → (c.i < n → thread_step c s.mem (s.thread c.i) ≡ none)
    → step n s c ≡ s
unfolding step
still_step = blocked_step chosen thread_step

-- What holds of a pool that is not paused.
pub record Ready (n count : ℕ) (s : System) : Type 0 where
  pub inv : Inv n s
  pub sleepers : Sleepers n s
  pub blocked : Blocked n s
  pub open_ : s.mem.pool.hold ≡ 0
  pub same_count : s.mem.pool.thread_count ≡ count

listed_few :
    (n : ℕ) (l : List ℕ) → IsDistinct l → ((j : ℕ) → elem j l ≡ true → j < n) → length l ≤ n
listed_few n l distinct listed = omega (
  arith,
  length-le-total (λ (j : ℕ). 1) n (λ j. j) l distinct (λ j h. (listed j h, refl)),
  total-le (λ (j : ℕ). 1) (λ j. omega arith) n (λ j. j),
)

module _ (n count : ℕ) where
  unfoldable pub load : System → ℕ
  load s = tasks s.mem + total (weight n count) n s.thread

  -- Less by `k` is left to be done.
  abbrev pub Lighter : ℕ → System → System → Type 0
  Lighter k s t = k + load t + asleep s.mem ≤ load s + asleep t.mem

  pub asleep-few : (s : System) → Ready n count s → asleep s.mem ≤ 18 * n
  asleep-few s v = omega (
    arith,
    listed_few n s.mem.notify v.sleepers.distinct (λ j h. (v.sleepers.listed j h).0),
    listed_few n s.mem.notify_empty v.blocked.distinct (λ j h. (v.blocked.listed j h).0),
  )

  -- Thread `j` is between two calls, or blocked.
  abbrev pub IsStill : System → ℕ → Type 0
  IsStill s j =
      j < n → is_idle (s.thread j) ≡ false → thread_step (plainly j) s.mem (s.thread j) ≡ none

  module _ (s : System) (v : Ready n count s) (c : Choice) (lt : c.i < n)
      (busy : is_idle (s.thread c.i) ≡ false) {m : Shared} {p : Thread}
      (moved : thread_step (calmly c) s.mem (s.thread c.i) ≡ some (m, p)) where
    local : After n count s.mem (s.thread c.i) m p
    local =
        thread_step-After n count (calmly c) s.mem (s.thread c.i) refl
          (not_idle (s.thread c.i) busy)
          (record {
            valid = v.inv.valid;
            knows = v.inv.knows c.i;
            open_ = v.open_;
            same_count = v.same_count;
            few = listed_few n s.mem.notify v.sleepers.distinct (λ j h. (v.sleepers.listed j h).0);
          })
          moved

    abbrev moved_on : System
    moved_on = record { mem = m; thread = update s.thread c.i p }

    made : step n s (calmly c) ≡ moved_on
    unfolding step
    made = step-moved chosen thread_step n (calmly c) s {p = s.thread c.i} lt refl moved

    Ready-after : Ready n count (step n s (calmly c))
    Ready-after = record {
      inv = step-Inv n s (calmly c) v.inv;
      sleepers = step-Sleepers n s (calmly c) v.inv v.sleepers;
      blocked = step-Blocked n s (calmly c) v.blocked;
      open_ = ap (λ t. t.mem.pool.hold) made ∙ local.open_;
      same_count = ap (λ t. t.mem.pool.thread_count) made ∙ local.same_count;
    }

    Lighter-after : Lighter 1 s (step n s (calmly c))
    unfolding load
    Lighter-after =
        subst (Lighter 1 s) (sym made)
          (omega (arith, local.lighter, total-update (weight n count) n s.thread c.i p lt))

  -- The chosen thread is still, or less is left to be done.
  abbrev pub Outcome : System → Choice → System → Type 0
  Outcome s c t = ((t ≡ s) × IsStill s c.i) ⊎ (Ready n count t × Lighter 1 s t)

  pub go_on-Outcome : (s : System) → Ready n count s → (c : Choice) → Outcome s c (go_on n s c)
  unfolding go_on
  go_on-Outcome s v c = elim (Bool-cases (is_idle (s.thread c.i))) [
    | inl between ↦ rw between (inl (refl, λ lt busy. cc busy))
    | inr busy ↦ elim (dec_lt c.i n) [
      | no out ↦
          rw busy (inl (still_step n s (calmly c) (λ lt. absurd (out lt)), λ lt _. absurd (out lt)))
      | yes lt ↦ elim (Option-cases (thread_step (calmly c) s.mem (s.thread c.i))) [
        | inl blocked ↦ rw busy (
            inl (
              still_step n s (calmly c) (λ _. blocked),
              λ _ _.
                  none_whatever (calmly c) (plainly c.i) s.mem (s.thread c.i) refl refl refl busy
                    blocked,
            ))
        | inr ((m, p), moved) ↦
            rw busy (inr (Ready-after s v c lt busy moved, Lighter-after s v c lt busy moved))
      ]
    ]
  ]
