-- ===== src/Pool/Guard.antt =====
-- `PoolGuard` and `OwnedReservation` of src/inference/mod.rs: how an item finds its way back.
use monnok_gigastt.Base.{◌≡◌, refl, Bool, true, Option, none, some, if◌then◌else◌}
use monnok_gigastt.Pool.{PoolInner, Waiter, Fate, checkin}

-- The two fields, which `take` empties. `holds_pool` says that the `Arc` is there.
pub record PoolGuard {ℓ} (A : Type ℓ) : Type ℓ where
  pub holds_pool : Bool
  pub item : Option A

module _ {ℓ} {A : Type ℓ} where
  unfoldable pub guard_new : A → PoolGuard A
  guard_new x = record { holds_pool = true; item = some x }

  -- `into_owned` hands out the item, and a reservation for the pool; `none` is its panic. The guard is
  -- forgotten, so its `drop` never runs.
  unfoldable pub into_owned : PoolGuard A → Option A
  into_owned g = if g.holds_pool then g.item else none

  -- `deref`; `none` is its panic.
  unfoldable pub deref : PoolGuard A → Option A
  deref g = g.item

  abbrev pub return_item : (Waiter → Bool) → PoolInner A → Option A → PoolInner A × Option (Fate A)
  return_item alive p none = (p, none)
  return_item alive p (some x) = let (p', f) = checkin alive p x in (p', some f)

  -- `drop`: the pool and what became of the item, if there was one.
  unfoldable pub drop_guard :
      (Waiter → Bool) → PoolInner A → PoolGuard A → PoolInner A × Option (Fate A)
  drop_guard alive p g = if g.holds_pool then return_item alive p g.item else (p, none)

  -- `OwnedReservation::checkin`
  unfoldable pub reservation_checkin : (Waiter → Bool) → PoolInner A → A → PoolInner A × Fate A
  reservation_checkin alive p x = checkin alive p x

  -- Both ways back do the same: dropping a new guard returns its item exactly as the reservation does,
  -- to which `into_owned` hands the same item that `deref` shows.
  pub drop_guard-into_owned :
      (alive : Waiter → Bool) (p : PoolInner A) (x : A)
      → let (p', f) = reservation_checkin alive p x in
        (drop_guard alive p (guard_new x) ≡ (p', some f))
        × (into_owned (guard_new x) ≡ deref (guard_new x))
  unfolding drop_guard guard_new reservation_checkin into_owned deref
  drop_guard-into_owned alive p x = (refl, refl)
