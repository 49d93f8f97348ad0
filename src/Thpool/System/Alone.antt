-- ===== src/Thpool/System/Alone.antt =====
-- Runs of one thread, step by step.
use libthreads.Prelude.{ℕ, ◌<◌, ◌≡◌, some}
use libthreads.Threads
use libthreads.Thpool.Shared.{Shared}
use libthreads.Thpool.Worker.{WorkerPc, worker_step}
use libthreads.Thpool.Client.{ClientPc, client_step}
use libthreads.Thpool.System.{Thread, worker, client, Choice, chosen, System, thread_step, step}

-- The chosen thread stands at `p` over the memory `m`.
abbrev pub At : Choice → System → Shared → Thread → Type 0
At = Threads.At chosen thread_step

module _ (n : ℕ) (c : Choice) (here : c.i < n) {s : System} {m m' : Shared} where
  pub At-step-worker :
      {p p' : WorkerPc}
      → At c s m (worker p)
      → worker_step c.i c.luck m p ≡ some (m', p')
      → At c (step n s c) m' (worker p')
  unfolding step thread_step
  At-step-worker at moved = Threads.At-step chosen thread_step n c here at (rw (thread_step, moved))

  pub At-step-client :
      {p p' : ClientPc}
      → At c s m (client p)
      → client_step c.i c.request c.luck m p ≡ some (m', p')
      → At c (step n s c) m' (client p')
  unfolding step thread_step
  At-step-client at moved = Threads.At-step chosen thread_step n c here at (rw (thread_step, moved))
