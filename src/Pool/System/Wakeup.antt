-- ===== src/Pool/System/Wakeup.antt =====
-- Two ways in which the pool of src/inference/mod.rs loses an item or a wake-up.
use monnok_gigastt.Base.{
  ℕ, suc, ◌<◌, ◌≡◌, refl, sym, ◌∙◌, ◌++◌, ap, ◌≢◌, false, inl, List, [], ◌∷◌, arith,
}
use monnok_gigastt.Pool.{Waiter, async, PoolInner, fast_path, register, pop_waiter, push_item}
use monnok_gigastt.Pool.System.{
  Pc, idle, starting, between, waiting, holding, returning, popping, sending, pushing, System,
  update, goes, loses, Step, Reach, find_empty, enqueue, release, see_open, dequeue, dequeue_none,
  send_fails, push, here, next,
}

module _ {ℓ} {A : Type ℓ} where
  update_self : (f : ℕ → Pc A) (i : ℕ) (c : Pc A) → update f i c i ≡ c
  update_self f i c = ground arith

  update_ne : (f : ℕ → Pc A) (i j : ℕ) (c : Pc A) → i ≢ j → update f i c j ≡ f j
  update_ne f i j c ne = ground arith

  Reach-trans : {n : ℕ} {s t u : System A} → Reach n s t → Reach n t u → Reach n s u
  Reach-trans r here = r
  Reach-trans r (next q st) = next (Reach-trans r q) st

  -- `checkin` up to its end, by a task that finds no waiter.
  checkin-Reach :
      (n i : ℕ) (s : System A) {x : A}
      → i < n
      → s.pc i ≡ holding x
      → s.pool.closed ≡ false
      → s.pool.waiters ≡ []
      → (t : System A) × Reach n s t
        × (t.pool ≡ push_item s.pool x)
        × (t.pc i ≡ idle)
        × ((j : ℕ) → i ≢ j → t.pc j ≡ s.pc j)
        × (t.next_channel ≡ s.next_channel)
        × (t.lost ≡ s.lost)
  unfolding pop_waiter
  checkin-Reach n i s {x} h e up w =
      let s₁ = goes s s.pool i (returning x) in
      let s₂ = goes s₁ s₁.pool i (popping x) in
      let s₃ = goes s₂ s₂.pool i (pushing x) in
      (
        goes s₃ (push_item s₃.pool x) i idle,
        next
            (next (next (next here (release i h e)) (see_open i h (update_self s.pc i _) up))
              (dequeue_none i h (update_self s₁.pc i _) (rw w)))
            (push i h (update_self s₂.pc i _)),
        refl,
        update_self s₃.pc i idle,
        λ j ne. ground arith,
        refl,
        refl,
      )

  -- A wake-up is lost. Where one task holds an item of an open pool that has no other, and a second
  -- task begins a checkout, both can run to a state in which the item lies in the pool, its
  -- holder has left, and the second task waits in the queue: it looked for an item before the
  -- first put it back, and registered after the first had looked for waiters.
  pub lost_wakeup :
      (n i j : ℕ) (s : System A) {x : A}
      → i < n
      → j < n
      → s.pc i ≡ holding x
      → s.pc j ≡ starting
      → s.pool.closed ≡ false
      → s.pool.items ≡ []
      → s.pool.waiters ≡ []
      → (t : System A) × Reach n s t
        × (t.pool.items ≡ x ∷ [])
        × (t.pool.waiters ≡ async s.next_channel ∷ [])
        × (t.pc j ≡ waiting (async s.next_channel))
        × (t.pc i ≡ idle)
  unfolding fast_path register push_item
  lost_wakeup n i j s {x} hi hj ei ej up no_items no_waiters =
      let s₁ = goes s s.pool j between in
      let apart : j ≢ i = λ e. cc in
      let first : Step n s s₁ = find_empty j hj ej (rw (up, no_items)) in
      let (t, r, p, ti, keep, c, _) =
        checkin-Reach n i s₁ hi (update_ne s.pc j i between apart ∙ ei) up no_waiters in
      let w = async s.next_channel in
      let q = record t.pool { waiters = t.pool.waiters ++ (w ∷ []) } in
      (
        record (goes t q j (waiting w)) { next_channel = suc t.next_channel },
        next (Reach-trans (next here first) r) (
            enqueue j w hj (keep j (λ e. apart (sym e)) ∙ update_self s.pc j between) (inl (rw c))
              (rw (ap (λ (u : PoolInner A). u.closed) p ∙ up))),
        ap (λ (u : PoolInner A). u.items) p ∙ rw no_items,
        rw (ap (λ (u : PoolInner A). u.waiters) p ∙ no_waiters),
        update_self t.pc j (waiting w),
        update_ne t.pc j i (waiting w) apart ∙ ti,
      )

  -- An item is lost. Where the task behind the first waiter has given up, which a timeout does without
  -- taking the waiter off the queue, the next item that is checked in goes to that waiter and is
  -- dropped: the pool has one item less for good, while the others still wait.
  pub lost_item :
      (n i : ℕ) (s : System A) {x : A} (w : Waiter) (ws : List Waiter)
      → i < n
      → s.pc i ≡ holding x
      → s.pool.closed ≡ false
      → s.pool.waiters ≡ w ∷ ws
      → ((j : ℕ) → s.pc j ≢ waiting w)
      → (t : System A) × Reach n s t
        × (t.pool.items ≡ s.pool.items)
        × (t.pool.waiters ≡ ws)
        × (t.lost ≡ x ∷ s.lost)
        × (t.pc i ≡ idle)
  unfolding pop_waiter
  lost_item n i s {x} w ws h e up first gone =
      let s₁ = goes s s.pool i (returning x) in
      let s₂ = goes s₁ s₁.pool i (popping x) in
      let s₃ = goes s₂ (record s₂.pool { waiters = ws }) i (sending x w) in
      (
        loses s₃ i x,
        next
            (next (next (next here (release i h e)) (see_open i h (update_self s.pc i _) up))
              (dequeue i h (update_self s₁.pc i _) (rw first)))
            (send_fails i h (update_self s₂.pc i _) (λ j. ground (arith, gone j))),
        refl,
        refl,
        refl,
        update_self s₃.pc i idle,
      )
