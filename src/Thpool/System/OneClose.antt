-- ===== src/Thpool/System/OneClose.antt =====
-- src/threads/thpool.c: where `thpool_shutdown` or `thpool_destroy` is called once, every worker is
-- joined at most once.
use mathlib.Core.Path.{subst}
use native.Mathlib.Decide.{ℕ_discrete}
use libthreads.Prelude.{
  ℕ, zero, suc, ◌≤◌, ◌<◌, ◌≡◌, ◌≢◌, refl, sym, ◌∙◌, ap, ◌⊎◌, inl, inr, Bool, true, false, List, [],
  ◌∷◌, Option, none, some, arith, elem, each_once, get_or, if◌then◌else◌, update, update_self,
  update_ne, update_each,
}
use libthreads.Threads
use libthreads.Thpool.Pool.{Pool, enqueue, dequeue}
use libthreads.Thpool.Shared.{Shared}
use libthreads.Thpool.Worker.{Luck, WorkerPc, locking, worker_step}
use libthreads.Thpool.Client.{
  Request, pause, shutdown, destroy, ClientPc, idle, try_lock, shutdown_lock, shutdown_locked,
  shutdown_join, shutdown_joining, client_step,
}
use libthreads.Thpool.System.{
  Thread, worker, client, Choice, System, thread_step, thread_step_cases, step, step_cases, run,
  initial,
}
use libthreads.Thpool.System.Join.{JoinInv, step-JoinInv, initial-JoinInv}

abbrev closes : Request → Bool
closes shutdown = true
closes destroy = true
closes _ = false

-- How many choices of a schedule name a call that shuts the pool down.
abbrev pub closings : List Choice → ℕ
closings [] = 0
closings (c ∷ cs) = let rest = closings cs in if closes c.request then suc rest else rest

-- How many joins a thread in `thpool_shutdown` has begun.
abbrev stage : Thread → Option ℕ
stage (client (shutdown_lock _)) = some 0
stage (client (shutdown_locked _)) = some 0
stage (client (shutdown_join _ k)) = some k
stage (client (shutdown_joining _ k)) = some (suc k)
stage _ = none

-- The numbers below `k`, the last first.
abbrev down : ℕ → List ℕ
down zero = []
down (suc k) = k ∷ down k

down-fresh : (x k : ℕ) → k ≤ x → elem x (down k) ≡ false
down-fresh x zero h = refl
down-fresh x (suc k) h = ground (arith, down-fresh x k)

down-each_once : (k : ℕ) → each_once (down k) ≡ true
down-each_once zero = refl
down-each_once (suc k) = rw (down-fresh k k (omega arith)) (down-each_once k)

-- What a step does to the joins that were begun, from a thread in no shutdown and from one in it.
abbrev Effect : Request → Shared → Thread → Shared → Thread → Type 0
Effect r m p m' p' =
    (stage p ≡ none
      → (m'.joins ≡ m.joins) × ((stage p' ≡ none) ⊎ ((closes r ≡ true) × (stage p' ≡ some 0))))
    × ((k : ℕ)
        → stage p ≡ some k
        → ((m'.joins ≡ m.joins) × ((stage p' ≡ none) ⊎ (stage p' ≡ some k)))
          ⊎ ((m'.joins ≡ k ∷ m.joins) × (stage p' ≡ some (suc k))))

worker_step-Effect :
    (r : Request) (i : ℕ) (l : Luck) (m : Shared) (p : WorkerPc) {m' : Shared} {p' : WorkerPc}
    → worker_step i l m p ≡ some (m', p')
    → Effect r m (worker p) m' (worker p')
unfolding worker_step dequeue
worker_step-Effect r i l m locking e = (λ h. ground arith, λ k h. ground arith)
worker_step-Effect r i l m p e = (λ h. ground arith, λ k h. ground arith)

client_step-Effect :
    (i : ℕ) (r : Request) (l : Luck) (m : Shared) (p : ClientPc) {m' : Shared} {p' : ClientPc}
    → ((x : ℕ) → x < m.pool.thread_count → get_or m.pool.threads x 0 ≡ x)
    → client_step i r l m p ≡ some (m', p')
    → Effect r m (client p) m' (client p')
unfolding client_step dequeue enqueue
client_step-Effect i r l m try_lock own e = (λ h. ground arith, λ k h. ground arith)
client_step-Effect i r l m (shutdown_join d x) own e =
    (λ h. ground arith, λ k h. ground (arith, own x))
client_step-Effect i pause l m (idle _) own e = (λ h. ground arith, λ k h. ground arith)
client_step-Effect i _ l m (idle _) own e = (λ h. ground arith, λ k h. ground arith)
client_step-Effect i r l m p own e = (λ h. ground arith, λ k h. ground arith)

thread_step-Effect :
    (c : Choice) (m : Shared) (p : Thread) {m' : Shared} {p' : Thread}
    → ((x : ℕ) → x < m.pool.thread_count → get_or m.pool.threads x 0 ≡ x)
    → thread_step c m p ≡ some (m', p')
    → Effect c.request m p m' p'
thread_step-Effect c m p {m'} {p'} own e =
    thread_step_cases (λ q m₁ q₁. Effect c.request m q m₁ q₁) c m
      (λ w w' m₁ moved. worker_step-Effect c.request c.i c.luck m w moved)
      (λ k k' m₁ moved. client_step-Effect c.i c.request c.luck m k own moved) p e

-- No call has shut the pool down.
record Untouched (s : System) : Type 0 where
  out : (j : ℕ) → stage (s.thread j) ≡ none
  fresh : s.mem.joins ≡ []

-- Thread `j` has, and has begun `k` joins, the last of them of worker `k - 1`.
record ClosedBy (j k : ℕ) (s : System) : Type 0 where
  out : (x : ℕ) → j ≢ x → stage (s.thread x) ≡ none
  place : (stage (s.thread j) ≡ none) ⊎ (stage (s.thread j) ≡ some k)
  begun : s.mem.joins ≡ down k

-- A step of the thread that has shut the pool down, and of another.
closed_own :
    (s : System) (c : Choice) (k : ℕ) (m : Shared) (p : Thread)
    → closes c.request ≡ false
    → ClosedBy c.i k s
    → Effect c.request s.mem (s.thread c.i) m p
    → (k' : ℕ) × ClosedBy c.i k' (record { mem = m; thread = update s.thread c.i p })
closed_own s c k m p quiet u effect = elim u.place [
  | inl away ↦
      let (same, there) = effect.0 away in (k, keep (inl (ground (arith, there))) (same ∙ u.begun))
  | inr at ↦ elim (effect.1 k at) [
    | inl (same, there) ↦ (k, keep there (same ∙ u.begun))
    | inr (more, there) ↦ (suc k, keep (inr there) (more ∙ ap (λ l. k ∷ l) u.begun))
  ]
]
  where
    keep :
        {k' : ℕ}
        → (stage p ≡ none) ⊎ (stage p ≡ some k')
        → m.joins ≡ down k'
        → ClosedBy c.i k' (record { mem = m; thread = update s.thread c.i p })
    keep there begun = record {
      out = λ x other. rw (update_ne s.thread c.i x p other) (u.out x other);
      place = rw (update_self s.thread c.i p) there;
      begun = begun;
    }

closed_other :
    (s : System) (c : Choice) (j k : ℕ) (m : Shared) (p : Thread)
    → closes c.request ≡ false
    → c.i ≢ j
    → ClosedBy j k s
    → Effect c.request s.mem (s.thread c.i) m p
    → ClosedBy j k (record { mem = m; thread = update s.thread c.i p })
closed_other s c j k m p quiet other u effect =
    let (same, place) = effect.0 (u.out c.i (λ e. other (sym e))) in
    record {
      out =
          update_each (λ x q. j ≢ x → stage q ≡ none) s.thread c.i p (λ _. ground (arith, place))
            (λ x _. u.out x);
      place = rw (update_ne s.thread c.i j p other) u.place;
      begun = same ∙ u.begun;
    }

module _ {threads : List ℕ} {count : ℕ} (own : (x : ℕ) → x < count → get_or threads x 0 ≡ x) where
  own_handles :
      {s : System}
      → JoinInv threads count s
      → (x : ℕ) → x < s.mem.pool.thread_count
      → get_or s.mem.pool.threads x 0 ≡ x
  own_handles v x lt = rw v.same_threads (own x (omega (arith, v.same_count)))

  -- After a step of an untouched pool.
  before_close_step :
      (n : ℕ) (s : System) (c : Choice)
      → JoinInv threads count s
      → Untouched s
      → Untouched (step n s c) ⊎ ((closes c.request ≡ true) × ClosedBy c.i 0 (step n s c))
  before_close_step n s c v u =
      step_cases (λ t. Untouched t ⊎ ((closes c.request ≡ true) × ClosedBy c.i 0 t)) n s c (inl u)
        λ m p lt moved.
          let (same, where_) =
            (thread_step-Effect c s.mem (s.thread c.i) {m' = m} {p' = p} (own_handles v) moved).0
              (u.out c.i) in
          elim where_ [
            | inl away ↦ inl (record {
              out = update_each (λ x q. stage q ≡ none) s.thread c.i p away (λ x other. u.out x);
              fresh = same ∙ u.fresh;
            })
            | inr (asked, began) ↦ inr (
              asked,
              record {
                out = λ x other. rw (update_ne s.thread c.i x p other) (u.out x);
                place = inr (ap stage (update_self s.thread c.i p) ∙ began);
                begun = same ∙ u.fresh;
              },
            )
          ]

  closed_step :
      (n : ℕ) (s : System) (c : Choice) (j k : ℕ)
      → closes c.request ≡ false
      → JoinInv threads count s
      → ClosedBy j k s
      → (k' : ℕ) × ClosedBy j k' (step n s c)
  closed_step n s c j k quiet v u =
      step_cases (λ t. (k' : ℕ) × ClosedBy j k' t) n s c (k, u)
        λ m p lt moved.
          let effect =
            thread_step-Effect c s.mem (s.thread c.i) {m' = m} {p' = p} (own_handles v) moved in
          elim (ℕ_discrete c.i j) [
            | no other ↦ (k, closed_other s c j k m p quiet other u effect)
            | yes same ↦
                subst
                  (λ y.
                    (k' : ℕ) × ClosedBy y k' (record { mem = m; thread = update s.thread c.i p }))
                  same
                  (closed_own s c k m p quiet (subst (λ y. ClosedBy y k s) (sym same) u) effect)
          ]

  closed_run :
      (n : ℕ) (s : System) (cs : List Choice) (j k : ℕ)
      → closings cs ≡ 0
      → JoinInv threads count s
      → ClosedBy j k s
      → each_once (run n s cs).mem.joins ≡ true
  unfolding run Threads.run step
  closed_run n s [] j k none_left v u = rw u.begun (down-each_once k)
  closed_run n s (c ∷ cs) j k none_left v u =
      let (k', u') = closed_step n s c j k (ground arith) v u in
      closed_run n (step n s c) cs j k' (ground arith) (step-JoinInv n s c v) u'

  before_close_run :
      (n : ℕ) (s : System) (cs : List Choice)
      → closings cs ≤ 1
      → JoinInv threads count s
      → Untouched s
      → each_once (run n s cs).mem.joins ≡ true
  unfolding run Threads.run step
  before_close_run n s [] few v u = rw u.fresh refl
  before_close_run n s (c ∷ cs) few v u = elim (before_close_step n s c v u) [
    | inl still ↦ before_close_run n (step n s c) cs (ground arith) (step-JoinInv n s c v) still
    | inr (asked, closed) ↦
        closed_run n (step n s c) cs c.i 0 (ground arith) (step-JoinInv n s c v) closed
  ]

-- After any schedule from a pool on which no call was made, whose handles are those of its workers,
-- in order: if `thpool_shutdown` and `thpool_destroy` are asked for at most once between them, then
-- `pthread_join` was called at most once for each thread.
pub one_close-each_once :
    (n workers : ℕ) (p : Pool) (cs : List Choice)
    → ((x : ℕ) → x < p.thread_count → get_or p.threads x 0 ≡ x)
    → closings cs ≤ 1
    → each_once (run n (initial workers p) cs).mem.joins ≡ true
one_close-each_once n workers p cs own few =
    before_close_run own n (initial workers p) cs few (initial-JoinInv workers p)
      (record { out = λ j. ground arith; fresh = refl })
