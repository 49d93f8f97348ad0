-- ===== src/Lusem/Posting.antt =====
-- include/threads/lusem.h: what `lusem_signal` and `lusem_signal_count` ask of
-- include/threads/usem.h.
use mathlib.Core.Path.{subst}
use libthreads.Prelude.{
  sym, ℕ, zero, suc, ◌+◌, ◌<◌, ◌≤◌, ◌≡◌, ◌⊎◌, neg_part, if◌then◌else◌, refl, ap, ◌∙◌, inl, inr,
  true, false, Bool-cases, none, some, arith, replicate, ltb, ℤ, pos, negsuc, is_pos, pos_part,
  ◌+ℤ◌, ssize,
}
use libthreads.Threads
use libthreads.Lusem.State.{Lusem, sem_value_max}
use libthreads.Lusem.Step.{
  Reply, signal, signal_count, signalled, Pc, idle, adding, posting, Choice, chosen, System, begin,
  to_release, add_count, lusem_step, thread_step, step, run,
}
use libthreads.Usem.Post.{post_all, usem_signal_count, usem_signal_count-returns}

abbrev pub lesser : ℕ → ℕ → ℕ
lesser a b = if ltb a b then a else b

lesser-le : (a b : ℕ) → lesser a b ≤ a
lesser-le a b = ground arith

fits : (v : ℕ) → v ≤ sem_value_max → (if ltb sem_value_max v then none else some v) ≡ some v
fits v h = ground arith

add_one : (k : ℕ) → k + 1 ≡ suc k
add_one k = omega arith

post_all-room :
    (fuel count value : ℕ)
    → ltb value sem_value_max ≡ true
    → post_all (suc fuel) (suc count) value ≡ post_all fuel count (value + 1)
unfolding post_all
post_all-room fuel count value room = rw (post_all, room)

post_all-full :
    (fuel count value : ℕ)
    → ltb value sem_value_max ≡ false
    → post_all (suc fuel) (suc count) value ≡ post_all fuel (suc count) value
unfolding post_all
post_all-full fuel count value full = rw (post_all, full)

post_all-none :
    (fuel : ℕ) (units : ℤ) (value : ℕ)
    → is_pos units ≡ false
    → post_all fuel (pos_part units) value ≡ some value
unfolding post_all
post_all-none fuel (pos zero) value e = ground arith
post_all-none fuel (pos (suc k)) value e = ground arith
post_all-none fuel (negsuc k) value e = ground arith

-- Thread `c.i` runs alone.
module _ (n : ℕ) (c : Choice) (lt : c.i < n) where
  abbrev At : System → Lusem → Pc → Type 0
  At = Threads.At chosen thread_step c

  At-step :
      {s : System} {m m' : Lusem} {p p' : Pc}
      → At s m p
      → lusem_step c.request c.luck m p ≡ some (m', p')
      → At (step n s c) m' p'
  unfolding step thread_step
  At-step at moved = Threads.At-step chosen thread_step n c lt at moved

  posting-room :
      {s : System} {m : Lusem} {count : ℕ}
      → ltb m.sem sem_value_max ≡ true
      → At s m (posting (suc count))
      → At (step n s c) (record m { sem = m.sem + 1 }) (posting count)
  unfolding lusem_step
  posting-room {m = m} room at = At-step at (rw (room, add_one m.sem))

  posting-full :
      {s : System} {m : Lusem} {count : ℕ}
      → ltb m.sem sem_value_max ≡ false
      → At s m (posting (suc count))
      → At (step n s c) m (posting (suc count))
  unfolding lusem_step
  posting-full full at = At-step at (rw full)

  -- What is posted is what the loop over `sem_post` posts.
  posting-returns :
      (fuel count : ℕ) (s : System) (m : Lusem) (v : ℕ)
      → At s m (posting count)
      → post_all fuel count m.sem ≡ some v
      → (k : ℕ) × At (run n s (replicate k c)) (record m { sem = v }) (idle signalled)
  unfolding post_all run Threads.run step lusem_step
  posting-returns fuel zero s m v at e = (
    1,
    subst (λ x. At (step n s c) (record m { sem = x }) (idle signalled)) (ground arith)
        (At-step at refl),
  )
  posting-returns zero (suc count) s m v at e = absurd (ground arith)
  posting-returns (suc fuel) (suc count) s m v at e = elim (Bool-cases (ltb m.sem sem_value_max)) [
    | inl room ↦
        let (k, there) =
          posting-returns fuel count (step n s c) (record m { sem = m.sem + 1 }) v
            (posting-room room at) (sym (post_all-room fuel count m.sem room) ∙ e) in
        (suc k, there)
    | inr full ↦
        let (k, there) =
          posting-returns fuel (suc count) (step n s c) m v (posting-full full at)
            (sym (post_all-full fuel count m.sem full) ∙ e) in
        (suc k, there)
  ]

  posting-stays :
      (fuel count : ℕ) (s : System) (m : Lusem)
      → At s m (posting count)
      → post_all fuel count m.sem ≡ none
      → (j : ℕ) × ((run n s (replicate fuel c)).thread c.i ≡ posting (suc j))
  unfolding post_all run Threads.run step Threads.step
  posting-stays fuel zero s m at e = absurd (ground arith)
  posting-stays zero (suc count) s m at e = (count, at.place)
  posting-stays (suc fuel) (suc count) s m at e = elim (Bool-cases (ltb m.sem sem_value_max)) [
    | inl room ↦
        posting-stays fuel count (step n s c) (record m { sem = m.sem + 1 }) (posting-room room at)
          (sym (post_all-room fuel count m.sem room) ∙ e)
    | inr full ↦
        posting-stays fuel (suc count) (step n s c) m (posting-full full at)
          (sym (post_all-full fuel count m.sem full) ∙ e)
  ]

  -- The thread has read and raised `m_count`.
  added :
      (s : System) (r : Reply) (count : ℤ)
      → s.thread c.i ≡ idle r
      → begin c.request ≡ adding count
      → At (step n (step n s c) c) (add_count s.mem count).0 (add_count s.mem count).1
  unfolding lusem_step
  added s r count place asks =
      At-step {m = s.mem}
        (At-step {m = s.mem} {p = idle r} {p' = adding count}
          (record { memory = refl; place = place }) (rw asks))
        refl

  -- Where the thread stands then.
  added_at :
      (s : System) (r : Reply) (count : ℤ) {p : Pc}
      → s.thread c.i ≡ idle r
      → begin c.request ≡ adding count
      → (add_count s.mem count).1 ≡ p
      → At (step n (step n s c) c) (add_count s.mem count).0 p
  added_at s r count place asks there =
      subst (At (step n (step n s c) c) (add_count s.mem count).0) there
        (added s r count place asks)

  -- If `usem_signal_count` returns with the value `v` for what is to be released, then the call
  -- returns, has added `count` to `m_count` and left `v` in `sem`.
  posts_units :
      (fuel : ℕ) (s : System) (r : Reply) (count : ℤ) (v : ℕ)
      → s.thread c.i ≡ idle r
      → begin c.request ≡ adding count
      → usem_signal_count fuel (to_release s.mem.m_count count) s.mem.sem ≡ some v
      → (k : ℕ) × let u = run n s (replicate k c) in
          (u.thread c.i ≡ idle signalled)
          × (u.mem.sem ≡ v)
          × (u.mem.m_count ≡ ssize (s.mem.m_count +ℤ count))
  unfolding usem_signal_count add_count run Threads.run step Threads.step
  posts_units fuel s r count v place asks e =
      let units = to_release s.mem.m_count count in
      let m = (add_count s.mem count).0 in
      elim (Bool-cases (is_pos units)) [
        | inl some_units ↦
            let (k, there) =
              posting-returns fuel (pos_part units) _ m v
                (added_at s r count place asks (rw some_units)) e in
            (
              suc (suc k),
              (there.place, ap (λ x. x.sem) there.memory, ap (λ x. x.m_count) there.memory),
            )
        | inr no_units ↦
            let at = added_at s r count {p = idle signalled} place asks (rw no_units) in
            let same : s.mem.sem ≡ v =
              ground (arith, post_all-none fuel units s.mem.sem no_units) in
            (2, (at.place, ap (λ x. x.sem) at.memory ∙ same, ap (λ x. x.m_count) at.memory))
      ]

  asks_one : {count : ℕ} → c.request ≡ signal → count ≡ 1 → begin c.request ≡ adding (pos count)
  unfolding begin
  asks_one one e = rw (one, e) refl

  asks_more :
      {count : ℕ}
      → c.request ≡ signal_count (pos count)
      → 0 < count
      → begin c.request ≡ adding (pos count)
  unfolding begin
  asks_more {count} more some_units = rw more (ground arith)

  -- What the code releases is the lesser of what is signalled and of how far `m_count` is below 0.
  to_release-lesser :
      (m : ℤ) (count : ℕ) → pos_part (to_release m (pos count)) ≡ lesser count (neg_part m)
  unfolding to_release
  to_release-lesser (pos k) count = ground arith
  to_release-lesser (negsuc k) count = ground arith

  -- A thread that runs alone in a call of `lusem_signal`, with `count` 1, or of
  -- `lusem_signal_count` with a positive `count`, where `sem` has room for `count` units more: the
  -- call returns, has added `count` to `m_count`, as an `ssize_t`, and has posted to `sem` one unit
  -- for each signal that a thread waits for: as many as `m_count` was below 0, but at most `count`.
  pub lusem_signal_posts :
      (s : System) (r : Reply) (count : ℕ)
      → s.thread c.i ≡ idle r
      → ((c.request ≡ signal) × (count ≡ 1))
        ⊎ ((c.request ≡ signal_count (pos count)) × (0 < count))
      → s.mem.sem + count ≤ sem_value_max
      → (k : ℕ) × let u = run n s (replicate k c) in
          (u.thread c.i ≡ idle signalled)
          × (u.mem.sem ≡ s.mem.sem + lesser count (neg_part s.mem.m_count))
          × (u.mem.m_count ≡ ssize (s.mem.m_count +ℤ pos count))
  lusem_signal_posts s r count place asks room =
      posts_units count s r (pos count) (s.mem.sem + lesser count (neg_part s.mem.m_count)) place
        (begins asks) posts
    where
      begins :
          ((c.request ≡ signal) × (count ≡ 1))
            ⊎ ((c.request ≡ signal_count (pos count)) × (0 < count))
          → begin c.request ≡ adding (pos count)
      begins (inl (one, e)) = asks_one one e
      begins (inr (more, some_units)) = asks_more more some_units

      posts :
          usem_signal_count count (to_release s.mem.m_count (pos count)) s.mem.sem
          ≡ some (s.mem.sem + lesser count (neg_part s.mem.m_count))
      posts =
          let units = to_release-lesser s.mem.m_count count in
          let few : lesser count (neg_part s.mem.m_count) ≤ count = lesser-le count _ in
          usem_signal_count-returns count s.mem.sem (to_release s.mem.m_count (pos count))
            (omega arith) (omega (arith, units, few))
          ∙ rw units (fits (s.mem.sem + lesser count (neg_part s.mem.m_count)) (omega (arith, few)))

  -- The same thread, if `usem_signal_count` has not returned after `fuel` calls of `sem_post`: it
  -- is still posting after `fuel` steps more than the two in which it adds to `m_count`.
  pub lusem_signal_stays :
      (fuel : ℕ) (s : System) (r : Reply) (count : ℤ)
      → s.thread c.i ≡ idle r
      → begin c.request ≡ adding count
      → usem_signal_count fuel (to_release s.mem.m_count count) s.mem.sem ≡ none
      → (j : ℕ) × ((run n s (replicate (suc (suc fuel)) c)).thread c.i ≡ posting (suc j))
  unfolding usem_signal_count add_count run Threads.run step Threads.step
  lusem_signal_stays fuel s r count place asks e =
      let units = to_release s.mem.m_count count in
      let m = (add_count s.mem count).0 in
      elim (Bool-cases (is_pos units)) [
        | inl some_units ↦
            posting-stays fuel (pos_part units) _ m (added_at s r count place asks (rw some_units))
              e
        | inr no_units ↦ absurd (ground (arith, post_all-none fuel units s.mem.sem no_units))
      ]
