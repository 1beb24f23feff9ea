-- ===== src/Pool.antt =====
-- `Pool`, `PoolGuard` and `OwnedReservation` of src/inference/mod.rs. Each critical section of the code
-- is a function here; `Pool.System` interleaves them.
pub mod Guard
pub mod Fifo
pub mod System
mod Tests
use monnok_gigastt.Base.{
  ℕ, Bool, true, false, Option, none, some, List, [], ◌∷◌, ◌++◌, if◌then◌else◌, length,
}

-- The sending half that a task leaves in the queue. The number names the channel.
pub data Waiter : Type 0 where
  async : (channel : ℕ) → Waiter
  blocking : (channel : ℕ) → Waiter

pub record PoolInner {ℓ} (A : Type ℓ) : Type ℓ where
  pub items : List A
  pub waiters : List Waiter
  pub closed : Bool
  pub total : ℕ

-- What the first block of `checkout` and `checkout_blocking` finds, under the lock on the items.
pub data Fast {ℓ} (A : Type ℓ) : Type ℓ where
  fast_closed : Fast A
  fast_item : A → PoolInner A → Fast A
  fast_empty : Fast A

-- What the second block does, under the lock on the waiters.
pub data Slow {ℓ} (A : Type ℓ) : Type ℓ where
  slow_closed : Slow A
  registered : PoolInner A → Slow A

-- What becomes of an item that is checked in. The pool drops it where it is closed, and where the
-- task that waited is gone: `send` gives the item back, and `let _ =` drops it.
pub data Fate {ℓ} (A : Type ℓ) : Type ℓ where
  stored : Fate A
  delivered : Waiter → A → Fate A
  dropped : A → Fate A

module _ {ℓ} {A : Type ℓ} where
  unfoldable pub pool_new : List A → PoolInner A
  pool_new items = record { items = items; waiters = []; closed = false; total = length items }

  abbrev pub pop_item : PoolInner A → List A → Fast A
  pop_item p [] = fast_empty
  pop_item p (x ∷ xs) = fast_item x (record p { items = xs })

  unfoldable pub fast_path : PoolInner A → Fast A
  fast_path p = if p.closed then fast_closed else pop_item p p.items

  unfoldable pub register : PoolInner A → Waiter → Slow A
  register p w =
      if p.closed then slow_closed else registered (record p { waiters = p.waiters ++ (w ∷ []) })

  -- `close` is two steps: the flag, then the queue under its lock.
  unfoldable pub set_closed : PoolInner A → PoolInner A
  set_closed p = record p { closed = true }

  unfoldable pub clear_waiters : PoolInner A → PoolInner A
  clear_waiters p = record p { waiters = [] }

  unfoldable pub close : PoolInner A → PoolInner A
  unfolding set_closed clear_waiters
  close p = clear_waiters (set_closed p)

  -- `checkin` pops a waiter under the lock on the waiters, and with no waiter pushes the item under
  -- the lock on the items.
  abbrev pub pop_first : PoolInner A → List Waiter → Option (Waiter × PoolInner A)
  pop_first p [] = none
  pop_first p (w ∷ ws) = some (w, record p { waiters = ws })

  unfoldable pub pop_waiter : PoolInner A → Option (Waiter × PoolInner A)
  pop_waiter p = pop_first p p.waiters

  unfoldable pub push_item : PoolInner A → A → PoolInner A
  push_item p x = record p { items = p.items ++ (x ∷ []) }

  unfoldable pub available : PoolInner A → ℕ
  available p = length p.items

  -- `checkin` with nothing between its steps. The test says which receivers still exist.
  unfoldable pub checkin : (Waiter → Bool) → PoolInner A → A → PoolInner A × Fate A
  unfolding pop_waiter push_item
  checkin alive p x = if p.closed then (p, dropped x) else elim (pop_waiter p) [
    | none ↦ (push_item p x, stored)
    | some (w, p') ↦ (p', if alive w then delivered w x else dropped x)
  ]
