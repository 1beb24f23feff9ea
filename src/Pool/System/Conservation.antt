-- ===== src/Pool/System/Conservation.antt =====
-- The pool of src/inference/mod.rs neither copies nor makes up an item, under every interleaving.
pub mod Available
use monnok_gigastt.Base.{
  ℕ, zero, suc, ◌+◌, ◌≤◌, ◌<◌, ◌≡◌, refl, ◌∙◌, ◌≢◌, Bool, true, false, ◌⊎◌, inl, inr, Option, none,
  some, List, [], ◌∷◌, ◌++◌, ◌==◌, ==_iff, if◌then◌else◌, arith, length,
}
use monnok_gigastt.Pool.{
  Waiter, PoolInner, fast_item, registered, fast_path, register, set_closed, clear_waiters,
  pop_waiter, push_item, available, pool_new,
}
use monnok_gigastt.Pool.System.{
  Pc, idle, starting, between, waiting, received, refused, holding, returning, popping, sending,
  pushing, closing, System, update, Step, Reach, init, begin, take_item, find_empty, find_closed,
  enqueue, enqueue_closed, give_up, give_up_late, wake, wake_closed, leave, release, see_closed,
  see_open, dequeue, dequeue_none, send, send_fails, push, close_flag, close_queue, here, next,
}

abbrev pub one : Bool → ℕ
one true = 1
one false = 0

-- How many items of the list satisfy the test.
abbrev pub tally {ℓ} : {A : Type ℓ} → (A → Bool) → List A → ℕ
tally p [] = 0
tally p (x ∷ xs) = one (p x) + tally p xs

tally-append {ℓ} :
    {A : Type ℓ} (p : A → Bool) (xs ys : List A) → tally p (xs ++ ys) ≡ tally p xs + tally p ys
tally-append p [] ys = omega arith
tally-append p (x ∷ xs) ys = omega (arith, tally-append p xs ys)

abbrev pub sum_below : ℕ → (ℕ → ℕ) → ℕ
sum_below zero f = 0
sum_below (suc n) f = f n + sum_below n f

-- What a task carries.
abbrev pub carried {ℓ} : {A : Type ℓ} → (A → Bool) → Pc A → ℕ
carried p (received w x) = one (p x)
carried p (holding x) = one (p x)
carried p (returning x) = one (p x)
carried p (popping x) = one (p x)
carried p (sending x w) = one (p x)
carried p (pushing x) = one (p x)
carried p _ = 0

module _ {ℓ} {A : Type ℓ} (p : A → Bool) where
  sum_below-update_above :
      (n : ℕ) (f : ℕ → Pc A) (i : ℕ) (c : Pc A)
      → n ≤ i
      → sum_below n (λ j. carried p (update f i c j)) ≡ sum_below n (λ j. carried p (f j))
  sum_below-update_above zero f i c h = refl
  sum_below-update_above (suc n) f i c h = ground (arith, sum_below-update_above n f i c)

  pub sum_below-update :
      (n : ℕ) (f : ℕ → Pc A) (i : ℕ) (c : Pc A)
      → i < n
      → sum_below n (λ j. carried p (update f i c j)) + carried p (f i)
        ≡ sum_below n (λ j. carried p (f j)) + carried p c
  sum_below-update zero f i c h = absurd (omega arith)
  sum_below-update (suc n) f i c h =
      ground (arith, sum_below-update n f i c, sum_below-update_above n f i c)

  -- The items that satisfy the test, wherever they are: in the pool, with a task or lost.
  pub weight : ℕ → System A → ℕ
  weight n s = tally p s.pool.items + sum_below n (λ i. carried p (s.pc i)) + tally p s.lost

  -- A task that goes from one place to another changes the sum by what it carries.
  moves :
      (n : ℕ) (f : ℕ → Pc A) (i : ℕ) {c : Pc A} (c' : Pc A)
      → i < n
      → f i ≡ c
      → sum_below n (λ j. carried p (update f i c' j)) + carried p c
        ≡ sum_below n (λ j. carried p (f j)) + carried p c'
  moves n f i c' h e = rw (← e) (sum_below-update n f i c' h)

  fast_path-tally :
      (q : PoolInner A) {x : A} {q' : PoolInner A}
      → fast_path q ≡ fast_item x q'
      → tally p q.items ≡ one (p x) + tally p q'.items
  unfolding fast_path
  fast_path-tally q e = ground arith

  register-items :
      (q : PoolInner A) (w : Waiter) {q' : PoolInner A}
      → register q w ≡ registered q'
      → q'.items ≡ q.items
  unfolding register
  register-items q w e = ground arith

  pop_waiter-items :
      (q : PoolInner A) {w : Waiter} {q' : PoolInner A}
      → pop_waiter q ≡ some (w, q')
      → q'.items ≡ q.items
  unfolding pop_waiter
  pop_waiter-items q e = ground arith

  send-sum :
      (n : ℕ) (f : ℕ → Pc A) (i j : ℕ) (x : A) (w : Waiter)
      → i < n
      → j < n
      → f i ≡ sending x w
      → f j ≡ waiting w
      → sum_below n (λ k. carried p (update (update f i idle) j (received w x) k))
        ≡ sum_below n (λ k. carried p (f k))
  send-sum n f i j x w hi hj ei ej =
      let stays : update f i idle j ≡ waiting w = ground (arith, ==_iff j i) in
      omega (arith, moves n f i idle hi ei, moves n (update f i idle) j (received w x) hj stays)

  -- No step changes how many items there are that satisfy a test.
  pub Step-weight : (n : ℕ) {s t : System A} → Step n s t → weight n t ≡ weight n s
  unfolding weight set_closed clear_waiters push_item
  Step-weight n {s} (begin i h e) = omega (arith, moves n s.pc i starting h e)
  Step-weight n {s} (take_item i {x} h e f) =
      omega (arith, moves n s.pc i (holding x) h e, fast_path-tally s.pool f)
  Step-weight n {s} (find_empty i h e f) = omega (arith, moves n s.pc i between h e)
  Step-weight n {s} (find_closed i h e f) = omega (arith, moves n s.pc i refused h e)
  Step-weight n {s} (enqueue i w h e k r) =
      rw (register-items s.pool w r) (omega (arith, moves n s.pc i (waiting w) h e))
  Step-weight n {s} (enqueue_closed i w h e r) = omega (arith, moves n s.pc i refused h e)
  Step-weight n {s} (give_up i channel h e) = omega (arith, moves n s.pc i idle h e)
  Step-weight n {s} (give_up_late i channel h e) = omega (arith, moves n s.pc i idle h e)
  Step-weight n {s} (wake i {x = x} h e) = omega (arith, moves n s.pc i (holding x) h e)
  Step-weight n {s} (wake_closed i h e a b) = omega (arith, moves n s.pc i refused h e)
  Step-weight n {s} (leave i h e) = omega (arith, moves n s.pc i idle h e)
  Step-weight n {s} (release i {x} h e) = omega (arith, moves n s.pc i (returning x) h e)
  Step-weight n {s} (see_closed i h e c) = omega (arith, moves n s.pc i idle h e)
  Step-weight n {s} (see_open i {x} h e c) = omega (arith, moves n s.pc i (popping x) h e)
  Step-weight n {s} (dequeue i {x} {w} h e q) =
      rw (pop_waiter-items s.pool q) (omega (arith, moves n s.pc i (sending x w) h e))
  Step-weight n {s} (dequeue_none i {x} h e q) = omega (arith, moves n s.pc i (pushing x) h e)
  Step-weight n {s} (send i j {x} {w} hi hj ei ej) = rw (send-sum n s.pc i j x w hi hj ei ej)
  Step-weight n {s} (send_fails i h e a) = omega (arith, moves n s.pc i idle h e)
  Step-weight n {s} (push i {x} h e) =
      omega (arith, moves n s.pc i idle h e, tally-append p s.pool.items (x ∷ []))
  Step-weight n {s} (close_flag i h e) = omega (arith, moves n s.pc i closing h e)
  Step-weight n {s} (close_queue i h e) = omega (arith, moves n s.pc i idle h e)

  sum_below-zero : (n : ℕ) → sum_below n (λ i. 0) ≡ 0
  sum_below-zero zero = refl
  sum_below-zero (suc n) = omega (arith, sum_below-zero n)

  -- In every reachable state of `n` tasks each item is in the pool, with one task or lost: for any test
  -- the items that satisfy it are as many as at the start.
  pub Reach-weight :
      (n : ℕ) (items : List A) {s : System A}
      → Reach n (init items) s
      → tally p s.pool.items + sum_below n (λ i. carried p (s.pc i)) + tally p s.lost
        ≡ tally p items
  unfolding weight pool_new
  Reach-weight n items here = omega (arith, sum_below-zero n)
  Reach-weight n items (next r st) = Step-weight n st ∙ Reach-weight n items r
