-- ===== src/Pool/System/Conservation/Available.antt =====
-- What the conservation of items gives to the callers of the pool of src/inference/mod.rs: no more
-- sessions are out than the pool was made with.
use monnok_gigastt.Base.{ℕ, ◌+◌, ◌≤◌, ◌≡◌, refl, ◌∙◌, true, List, [], ◌∷◌, arith, length}
use monnok_gigastt.Pool.{
  fast_path, register, set_closed, clear_waiters, pop_waiter, push_item, available, pool_new,
}
use monnok_gigastt.Pool.System.{
  System, Step, Reach, init, begin, take_item, enqueue, dequeue, here, next,
}
use monnok_gigastt.Pool.System.Conservation.{tally, sum_below, carried, Reach-weight}

module _ {ℓ} {A : Type ℓ} where
  tally-length : (xs : List A) → tally (λ x. true) xs ≡ length xs
  tally-length [] = refl
  tally-length (x ∷ xs) = omega (arith, tally-length xs)

  Step-total : (n : ℕ) {s t : System A} → Step n s t → t.pool.total ≡ s.pool.total
  unfolding fast_path register set_closed clear_waiters pop_waiter push_item
  Step-total n (begin i h e) = refl
  Step-total n (take_item i h e f) = ground arith
  Step-total n (enqueue i w h e k r) = ground arith
  Step-total n (dequeue i h e q) = ground arith
  Step-total n _ = refl

  Reach-total :
      (n : ℕ) (items : List A) {s : System A} → Reach n (init items) s → s.pool.total ≡ length items
  unfolding pool_new
  Reach-total n items here = refl
  Reach-total n items (next r st) = Step-total n st ∙ Reach-total n items r

  -- `available` never exceeds `total`, which stays the number of items that the pool was made with, and
  -- the tasks that hold an item are at most the rest.
  pub Reach-available :
      (n : ℕ) (items : List A) {s : System A}
      → Reach n (init items) s
      → (s.pool.total ≡ length items)
        × (available s.pool + sum_below n (λ i. carried (λ x. true) (s.pc i)) ≤ s.pool.total)
  unfolding available
  Reach-available n items {s} r =
      let total = Reach-total n items r in
      (
        total,
        omega (
          arith,
          total,
          Reach-weight (λ x. true) n items r,
          tally-length items,
          tally-length s.pool.items,
        ),
      )
