-- ===== src/Lfthpool/OneClose.antt =====
-- src/threads/lfthpool.c: where `lfthpool_shutdown` or `lfthpool_destroy` is called once, every worker
-- is joined at most once.
use mathlib.Core.Path.{subst}
use native.Mathlib.Decide.{ℕ_discrete}
use libthreads.Prelude.{
  ℕ, zero, suc, ◌≤◌, ◌<◌, ◌≡◌, ◌≢◌, refl, sym, ◌∙◌, ap, ◌⊎◌, inl, inr, Bool, true, false, List, [],
  ◌∷◌, Option, none, some, arith, elem, each_once, get_or, get_or-set_ne, if◌then◌else◌, update,
  update_self, update_ne, update_each,
}
use libthreads.Threads
use libthreads.Threads.{step_cases}
use libthreads.Lfthpool.Queue.{RingQueue}
use libthreads.Lfthpool.Create.{IsNew}
use libthreads.Lfthpool.Step.{
  chosen, Lfthpool, Request, shutdown, destroy, Luck, Pc, joining, join_waiting, join_clearing,
  Choice, System, lfthpool_step, thread_step, step, run, initial,
}
use libthreads.Lfthpool.Shutdown.{get_or-tabulate}

abbrev closes : Request → Bool
closes shutdown = true
closes destroy = true
closes _ = false

-- How many choices of a schedule name a call that shuts the pool down.
abbrev pub closings : List Choice → ℕ
closings [] = 0
closings (c ∷ cs) = let rest = closings cs in if closes c.request then suc rest else rest

-- How many joins a thread in `lfthpool_shutdown` has begun.
abbrev stage : Pc → Option ℕ
stage (joining _ k) = some k
stage (join_waiting _ k _) = some (suc k)
stage (join_clearing _ k) = some (suc k)
stage _ = none

-- The numbers below `k`, the last first.
abbrev down : ℕ → List ℕ
down zero = []
down (suc k) = k ∷ down k

down-fresh : (x k : ℕ) → k ≤ x → elem x (down k) ≡ false
down-fresh x zero h = refl
down-fresh x (suc k) h = ground (arith, down-fresh x k)

down-each_once : (k : ℕ) → each_once (down k) ≡ true
down-each_once zero = refl
down-each_once (suc k) = rw (down-fresh k k (omega arith)) (down-each_once k)

module _ {Q : Type 0} where
  -- The handles from `k` on are those of the workers.
  abbrev OwnFrom : ℕ → Lfthpool Q → Type 0
  OwnFrom k m = (x : ℕ) → k ≤ x → x < m.thread_count → get_or m.threads x none ≡ some x

  -- No call has shut the pool down.
  record Untouched (s : System Q) : Type 0 where
    out : (j : ℕ) → stage (s.thread j) ≡ none
    fresh : s.mem.joins ≡ []
    own : OwnFrom 0 s.mem

  -- Thread `j` has, and has begun `k` joins, the last of them of worker `k - 1`.
  record ClosedBy (j k : ℕ) (s : System Q) : Type 0 where
    out : (x : ℕ) → j ≢ x → stage (s.thread x) ≡ none
    place : (stage (s.thread j) ≡ none) ⊎ (stage (s.thread j) ≡ some k)
    begun : s.mem.joins ≡ down k
    own : OwnFrom k s.mem

  -- What a step does to the joins that were begun, from a thread in no shutdown and from one in it.
  record Effect (r : Request) (m : Lfthpool Q) (p : Pc) (m' : Lfthpool Q) (p' : Pc) : Type 0 where
    same_count : m'.thread_count ≡ m.thread_count
    away :
        stage p ≡ none
        → (m'.joins ≡ m.joins)
          × (m'.threads ≡ m.threads)
          × ((stage p' ≡ none) ⊎ ((closes r ≡ true) × (stage p' ≡ some 0)))
    within :
        (k : ℕ)
        → stage p ≡ some k
        → OwnFrom k m
        → ((m'.joins ≡ m.joins) × ((stage p' ≡ none) ⊎ (stage p' ≡ some k)))
          ⊎ ((m'.joins ≡ k ∷ m.joins) × (stage p' ≡ some (suc k)))
    kept : (k x : ℕ) → stage p ≡ some k → k ≤ x → get_or m'.threads x none ≡ get_or m.threads x none

module _ {Q : Type 0} (queue : RingQueue Q) where
  lfthpool_step-Effect :
      (i : ℕ) (r : Request) (l : Luck) (m : Lfthpool Q) (p : Pc) {m' : Lfthpool Q} {p' : Pc}
      → lfthpool_step queue i r l m p ≡ some (m', p')
      → Effect r m p m' p'
  unfolding lfthpool_step
  lfthpool_step-Effect i r l m (joining d y) e = record {
    same_count = ground arith;
    away = λ h. ground arith;
    within = λ k h own. ground (arith, own y);
    kept = λ k x h lt. ground arith;
  }
  lfthpool_step-Effect i r l m (join_clearing d y) e = record {
    same_count = ground arith;
    away = λ h. ground arith;
    within = λ k h own. ground arith;
    kept = λ k x h lt. ground (arith, get_or-set_ne m.threads y x none none);
  }
  lfthpool_step-Effect i r l m p e = record {
    same_count = ground arith;
    away = λ h. ground arith;
    within = λ k h own. ground arith;
    kept = λ k x h lt. ground arith;
  }

  before_close_step :
      (n : ℕ) (s : System Q) (c : Choice)
      → Untouched s
      → Untouched (step queue n s c)
        ⊎ ((closes c.request ≡ true) × ClosedBy c.i 0 (step queue n s c))
  unfolding step thread_step
  before_close_step n s c u =
      step_cases chosen (thread_step queue)
        (λ t. Untouched t ⊎ ((closes c.request ≡ true) × ClosedBy c.i 0 t)) n s c (inl u)
        λ m p lt moved.
          let effect =
            lfthpool_step-Effect c.i c.request c.luck s.mem (s.thread c.i) {m' = m} {p' = p}
              moved in
          let (same, handles, there) = effect.away (u.out c.i) in
          let own : OwnFrom 0 m =
            (λ x below lt. rw handles (u.own x below (omega (arith, effect.same_count)))) in
          elim there [
            | inl away ↦ inl (record {
              out = update_each (λ x q. stage q ≡ none) s.thread c.i p away (λ x other. u.out x);
              fresh = same ∙ u.fresh;
              own = own;
            })
            | inr (asked, began) ↦ inr (
              asked,
              record {
                out = λ x other. rw (update_ne s.thread c.i x p other) (u.out x);
                place = inr (ap stage (update_self s.thread c.i p) ∙ began);
                begun = same ∙ u.fresh;
                own = own;
              },
            )
          ]

  -- A step of the thread that has shut the pool down, and of another.
  closed_own :
      (s : System Q) (c : Choice) (k : ℕ) (m : Lfthpool Q) (p : Pc)
      → closes c.request ≡ false
      → ClosedBy c.i k s
      → Effect c.request s.mem (s.thread c.i) m p
      → (k' : ℕ) × ClosedBy c.i k' (record { mem = m; thread = update s.thread c.i p })
  closed_own s c k m p quiet u effect = elim u.place [
    | inl away ↦
        let (same, handles, there) = effect.away away in
        (
          k,
          keep (inl (ground (arith, there))) (same ∙ u.begun)
              (λ x below lt. rw handles (u.own x below (omega (arith, effect.same_count)))),
        )
    | inr at ↦
        let own : OwnFrom k m = (λ x below lt.
          effect.kept k x at below ∙ u.own x below (omega (arith, effect.same_count))) in
        elim (effect.within k at u.own) [
          | inl (same, there) ↦ (k, keep there (same ∙ u.begun) own)
          | inr (more, there) ↦ (
            suc k,
            keep (inr there) (more ∙ ap (λ l. k ∷ l) u.begun)
                (λ x below lt. own x (omega arith) lt),
          )
        ]
  ]
    where
      keep :
          {k' : ℕ}
          → (stage p ≡ none) ⊎ (stage p ≡ some k')
          → m.joins ≡ down k'
          → OwnFrom k' m
          → ClosedBy c.i k' (record { mem = m; thread = update s.thread c.i p })
      keep there begun own = record {
        out = λ x other. rw (update_ne s.thread c.i x p other) (u.out x other);
        place = rw (update_self s.thread c.i p) there;
        begun = begun;
        own = own;
      }

  closed_other :
      (s : System Q) (c : Choice) (j k : ℕ) (m : Lfthpool Q) (p : Pc)
      → closes c.request ≡ false
      → c.i ≢ j
      → ClosedBy j k s
      → Effect c.request s.mem (s.thread c.i) m p
      → ClosedBy j k (record { mem = m; thread = update s.thread c.i p })
  closed_other s c j k m p quiet other u effect =
      let (same, handles, place) = effect.away (u.out c.i (λ e. other (sym e))) in
      record {
        out =
            update_each (λ x q. j ≢ x → stage q ≡ none) s.thread c.i p (λ _. ground (arith, place))
              (λ x _. u.out x);
        place = rw (update_ne s.thread c.i j p other) u.place;
        begun = same ∙ u.begun;
        own = λ x below lt. rw handles (u.own x below (omega (arith, effect.same_count)));
      }

  closed_step :
      (n : ℕ) (s : System Q) (c : Choice) (j k : ℕ)
      → closes c.request ≡ false
      → ClosedBy j k s
      → (k' : ℕ) × ClosedBy j k' (step queue n s c)
  unfolding step thread_step
  closed_step n s c j k quiet u =
      step_cases chosen (thread_step queue) (λ t. (k' : ℕ) × ClosedBy j k' t) n s c (k, u)
        λ m p lt moved.
          let effect =
            lfthpool_step-Effect c.i c.request c.luck s.mem (s.thread c.i) {m' = m} {p' = p}
              moved in
          elim (ℕ_discrete c.i j) [
            | no other ↦ (k, closed_other s c j k m p quiet other u effect)
            | yes same ↦
                subst
                  (λ y.
                    (k' : ℕ) × ClosedBy y k' (record { mem = m; thread = update s.thread c.i p }))
                  same
                  (closed_own s c k m p quiet (subst (λ y. ClosedBy y k s) (sym same) u) effect)
          ]

  closed_run :
      (n : ℕ) (s : System Q) (cs : List Choice) (j k : ℕ)
      → closings cs ≡ 0
      → ClosedBy j k s
      → each_once (run queue n s cs).mem.joins ≡ true
  unfolding run Threads.run step
  closed_run n s [] j k none_left u = rw u.begun (down-each_once k)
  closed_run n s (c ∷ cs) j k none_left u =
      let (k', u') = closed_step n s c j k (ground arith) u in
      closed_run n (step queue n s c) cs j k' (ground arith) u'

  before_close_run :
      (n : ℕ) (s : System Q) (cs : List Choice)
      → closings cs ≤ 1
      → Untouched s
      → each_once (run queue n s cs).mem.joins ≡ true
  unfolding run Threads.run step
  before_close_run n s [] few u = rw u.fresh refl
  before_close_run n s (c ∷ cs) few u = elim (before_close_step n s c u) [
    | inl still ↦ before_close_run n (step queue n s c) cs (ground arith) still
    | inr (asked, closed) ↦ closed_run n (step queue n s c) cs c.i 0 (ground arith) closed
  ]

  -- After any schedule of the threads of a new pool for which no thread was joined yet: if
  -- `lfthpool_shutdown` and `lfthpool_destroy` are asked for at most once between them, then
  -- `pthread_join` was called at most once for each thread.
  pub one_close-each_once :
      (n workers : ℕ) (pool : Lfthpool Q) (cs : List Choice)
      → IsNew queue workers pool
      → pool.joins ≡ []
      → closings cs ≤ 1
      → each_once (run queue n (initial workers pool) cs).mem.joins ≡ true
  one_close-each_once n workers pool cs new unjoined few =
      before_close_run n (initial workers pool) cs few (record {
        out = λ j. ground arith;
        fresh = unjoined;
        own = λ x below lt.
            rw new.handles.1 (get_or-tabulate workers some x none (omega (arith, new.handles.0)));
      })
