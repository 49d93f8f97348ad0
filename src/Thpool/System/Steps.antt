-- ===== src/Thpool/System/Steps.antt =====
-- Each step of a worker or a client, on its own, against the views of its thread.
use libthreads.Prelude.{ℕ, ◌≡◌, ◌≢◌, ap, ◌++◌, some, arith, append_assoc, length-append, ◌∷◌, []}
use libthreads.Thpool.Pool.{Task, head_task, enqueue, dequeue}
use libthreads.Thpool.Ring.{
  IsValid, contents, contents-enqueue, enqueue-IsValid, contents-dequeue, dequeue-IsValid,
}
use libthreads.Thpool.Shared.{Shared}
use libthreads.Thpool.Worker.{Luck, WorkerPc, locking, taking, worker_step}
use libthreads.Thpool.Client.{
  Request, pause, ClientPc, idle, add_locked, adding_locked, try_lock, try_taking, client_step,
}
use libthreads.Thpool.System.{worker, client}
use libthreads.Thpool.System.Views.{Before, After}

-- The log after a task is taken, and after one is added.
logged-take :
    (m : Shared)
    → IsValid m.pool
    → m.pool.queue_count ≢ 0
    → m.added ≡ m.started ++ contents m.pool
    → m.added ≡ (m.started ++ head_task m.pool ∷ []) ++ contents (dequeue m.pool)
logged-take m v some_left e =
    rw (append_assoc, e) (ap (λ l. m.started ++ l) (contents-dequeue v some_left))

logged-put :
    (m : Shared) (t : Task)
    → IsValid m.pool
    → m.pool.queue_count ≢ m.pool.queue_size
    → m.added ≡ m.started ++ contents m.pool
    → m.added ++ t ∷ [] ≡ m.started ++ contents (enqueue m.pool t)
logged-put m t v room e = rw (e, contents-enqueue v t room, append_assoc)

pub worker_step-After :
    (i : ℕ) (l : Luck) (m : Shared) (p : WorkerPc) {m' : Shared} {p' : WorkerPc}
    → Before i m (worker p)
    → worker_step i l m p ≡ some (m', p')
    → After i m (worker p) m' (worker p')
unfolding worker_step dequeue
worker_step-After i l m locking b e = ground arith
worker_step-After i l m taking b e = ground (
  arith,
  logged-take m b.valid,
  dequeue-IsValid b.valid,
  length-append m.started (head_task m.pool ∷ []),
)
worker_step-After i l m p b e = ground arith

pub client_step-After :
    (i : ℕ) (r : Request) (l : Luck) (m : Shared) (p : ClientPc) {m' : Shared} {p' : ClientPc}
    → Before i m (client p)
    → client_step i r l m p ≡ some (m', p')
    → After i m (client p) m' (client p')
unfolding client_step dequeue enqueue
client_step-After i r l m try_lock b e = ground arith
client_step-After i r l m try_taking b e = ground (
  arith,
  logged-take m b.valid,
  dequeue-IsValid b.valid,
  length-append m.started (head_task m.pool ∷ []),
)
client_step-After i r l m (add_locked t) b e =
    ground (arith, logged-put m t b.valid, enqueue-IsValid b.valid t)
client_step-After i r l m (adding_locked t k) b e =
    ground (arith, logged-put m t b.valid, enqueue-IsValid b.valid t)
client_step-After i pause l m (idle _) b e = ground arith
client_step-After i _ l m (idle _) b e = ground arith
client_step-After i r l m p b e = ground arith
