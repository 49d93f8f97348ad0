-- ===== src/Thpool/System/Completion.antt =====
-- `thpool_shutdown` and `thpool_destroy`, in the states in which nothing moves.
use libthreads.Prelude.{
  ℕ, ◌+◌, ◌≤◌, ◌<◌, ◌≡◌, refl, inl, inr, ap, Bool, true, false, List, [], none, arith, Bool-cases,
  elem, get_or,
}
use libthreads.Thpool.Pool.{Pool, size_max}
use libthreads.Thpool.Create.{IsNew}
use libthreads.Thpool.Shared.{Shared}
use libthreads.Thpool.Worker.{returned, worker_step}
use libthreads.Thpool.Client.{
  shutdown_lock, shutdown_locked, shutdown_join, shutdown_joining, freeing, client_step,
}
use libthreads.Thpool.System.{
  Thread, worker, client, Choice, System, thread_step, step, run, initial,
}
use libthreads.Thpool.System.LostWakeup.{IsStuck}
use libthreads.Thpool.System.Shutdown.{IsSettled, shutdown_wakes_all}
use libthreads.Thpool.System.Exits.{Joined}
use libthreads.Thpool.System.Join.{JoinInv, step-JoinInv, run-JoinInv, initial-JoinInv}
use libthreads.Thpool.System.Awake.{is_worker, Live, step-Live, run-Live, run-kind, step-kind}
use libthreads.Thpool.System.Rest.{plainly, stuck-blocked, free, initial-Live}

-- A worker that has returned, or a thread that is not in `thpool_shutdown` or `thpool_destroy`.
abbrev pub is_over : Thread → Bool
is_over (worker returned) = true
is_over (worker _) = false
is_over (client (shutdown_lock _)) = false
is_over (client (shutdown_locked _)) = false
is_over (client (shutdown_join _ _)) = false
is_over (client (shutdown_joining _ _)) = false
is_over (client freeing) = false
is_over (client _) = true

-- Where nobody waits for a task and the mutex is free, a worker that does not move has returned,
-- and a thread in `thpool_shutdown` that does not move joins one that has not.
blocked-returned :
    (c : Choice) (m : Shared) (p : Thread)
    → m.owner ≡ none
    → m.notify ≡ []
    → is_worker p ≡ true
    → thread_step c m p ≡ none
    → p ≡ worker returned
unfolding thread_step worker_step
blocked-returned c m (worker w) unowned nobody kind blocked = ground arith
blocked-returned c m (client q) unowned nobody kind blocked = ground arith

blocked-is_over :
    (c : Choice) (m : Shared) (p : Thread)
    → m.owner ≡ none
    → m.notify ≡ []
    → ((k : ℕ) → k < m.pool.thread_count → elem (get_or m.pool.threads k 0) m.exited ≡ true)
    → Joined m p
    → thread_step c m p ≡ none
    → is_over p ≡ true
unfolding thread_step client_step
blocked-is_over c m (worker w) unowned nobody exited seen blocked =
    ap is_over (blocked-returned c m (worker w) unowned nobody refl blocked)
blocked-is_over c m (client (shutdown_joining d k)) unowned nobody exited seen blocked =
    ground (arith, exited k seen.0)
blocked-is_over c m (client q) unowned nobody exited seen blocked = ground arith

over_worker : (p : Thread) → is_worker p ≡ true → is_over p ≡ true → p ≡ worker returned
over_worker (worker w) kind over = ground arith
over_worker (client q) kind over = ground arith

module _ {n workers : ℕ} {threads : List ℕ} {s : System} (stuck : IsStuck n s) (live : Live n s)
    (settled : IsSettled s) (joins : JoinInv threads workers s)
    (kinds : (x : ℕ) → x < workers → is_worker (s.thread x) ≡ true)
    (own : (x : ℕ) → x < workers → get_or threads x 0 ≡ x) (few : workers ≤ n) where
  all_returned : (x : ℕ) → x < workers → s.thread x ≡ worker returned
  all_returned x lt = elim (Bool-cases (is_over (s.thread x))) [
    | inl over ↦ over_worker (s.thread x) (kinds x lt) over
    | inr inside ↦
        blocked-returned (plainly x) s.mem (s.thread x) (free stuck live) settled.nobody_waits
          (kinds x lt) (stuck-blocked stuck x (omega arith) (λ r e. cc (inside, ap is_over e)))
  ]

  handle_exited :
      (k : ℕ)
      → k < s.mem.pool.thread_count
      → elem (get_or s.mem.pool.threads k 0) s.mem.exited ≡ true
  handle_exited k lt =
      let below : k < workers = omega (arith, joins.same_count) in
      rw (joins.same_threads, own k below) (joins.seen k (all_returned k below))

  stuck-is_over : (j : ℕ) → j < n → is_over (s.thread j) ≡ true
  stuck-is_over j lt = elim (Bool-cases (is_over (s.thread j))) [
    | inl over ↦ over
    | inr inside ↦
        blocked-is_over (plainly j) s.mem (s.thread j) (free stuck live) settled.nobody_waits
          handle_exited (joins.joined j)
          (stuck-blocked stuck j lt (λ r e. cc (inside, ap is_over e)))
  ]

-- After any schedule of `n` threads, `n + 1 < 2 ^ 64`, on a new pool with at least one worker,
-- whose handles are those of its workers: let a thread make the broadcast of `thpool_shutdown`, and
-- then any schedule follow. If now no thread can make a step until a call is begun or a wait ends
-- with no signal, then every worker has returned, and so has every call of `thpool_shutdown` and
-- `thpool_destroy`.
pub shutdown_ends :
    (n workers size : ℕ) (p : Pool)
    → n + 1 < size_max
    → 0 < workers
    → workers ≤ n
    → IsNew workers size p
    → ((x : ℕ) → x < workers → get_or p.threads x 0 ≡ x)
    → (cs : List Choice) (c : Choice) → c.i < n
    → {d : Bool} → (run n (initial workers p) cs).thread c.i ≡ client (shutdown_locked d)
    → (later : List Choice) → IsStuck n (run n (step n (run n (initial workers p) cs) c) later)
    → (j : ℕ) → j < n
    → is_over ((run n (step n (run n (initial workers p) cs) c) later).thread j) ≡ true
shutdown_ends n workers size p small some_worker few new own cs c lt at later stuck =
    let some_thread : 0 < n = omega arith in
    let start = initial-Live n workers size p small some_worker new in
    let v = run-Live n (initial workers p) cs some_thread start in
    let w = step-Live n (run n (initial workers p) cs) c some_thread v in
    let joins = run-JoinInv n (step n (run n (initial workers p) cs) c) later (
      step-JoinInv n (run n (initial workers p) cs) c
        (run-JoinInv n (initial workers p) cs (initial-JoinInv workers p))) in
    stuck-is_over stuck (run-Live n (step n (run n (initial workers p) cs) c) later some_thread w)
      (shutdown_wakes_all n (run n (initial workers p) cs) c later v.inv lt at) joins
      (λ x below. run-kind n (step n (run n (initial workers p) cs) c) later x w.inv (
        step-kind n (run n (initial workers p) cs) c x v.inv
          (run-kind n (initial workers p) cs x start.inv (ground arith))))
      (λ x below. own x (omega (arith, new.sizes.0))) (omega (arith, new.sizes.0))
