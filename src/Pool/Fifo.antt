-- ===== src/Pool/Fifo.antt =====
-- The pool of src/inference/mod.rs as a queue, where each call runs without another in between and every
-- task that waits stays.
use mathlib.Core.List.{zip}
use monnok_gigastt.Base.{
  ℕ, ◌≡◌, refl, sym, ap, true, false, ◌⊎◌, inl, inr, Option, none, some, List, [], ◌∷◌, ◌++◌,
  append_assoc, arith,
}
use monnok_gigastt.Pool.{
  Waiter, PoolInner, fast_closed, fast_item, fast_empty, slow_closed, registered, fast_path,
  register, Fate, stored, delivered, dropped, checkin,
}

-- What clients ask of the pool: a checkout that would wait as `w`, or the return of an item.
pub data Op {ℓ} (A : Type ℓ) : Type ℓ where
  out : Waiter → Op A
  back : A → Op A

module _ {ℓ} {A : Type ℓ} where
  -- `checkout` and `checkout_blocking` as far as the wait.
  unfoldable pub checkout : PoolInner A → Waiter → PoolInner A × Option A
  unfolding fast_path register
  checkout p w = elim (fast_path p) [
    | fast_closed ↦ (p, none)
    | fast_item x p' ↦ (p', some x)
    | fast_empty ↦ elim (register p w) [ slow_closed ↦ (p, none) | registered p' ↦ (p', none) ]
  ]

  abbrev pub given : Waiter → Option A → List (Waiter × A) → List (Waiter × A)
  given w none gs = gs
  given w (some x) gs = (w, x) ∷ gs

  abbrev pub sent : Fate A → List (Waiter × A) → List (Waiter × A)
  sent (delivered w x) gs = (w, x) ∷ gs
  sent stored gs = gs
  sent (dropped x) gs = gs

  -- All that is handed out over a sequence of calls, in order.
  unfoldable pub grants : PoolInner A → List (Op A) → List (Waiter × A)
  grants p [] = []
  grants p (out w ∷ ops) = let (p', o) = checkout p w in given w o (grants p' ops)
  grants p (back x ∷ ops) = let (p', f) = checkin (λ _. true) p x in sent f (grants p' ops)

  abbrev pub requests : List (Op A) → List Waiter
  requests [] = []
  requests (out w ∷ ops) = w ∷ requests ops
  requests (back x ∷ ops) = requests ops

  abbrev pub returns : List (Op A) → List A
  returns [] = []
  returns (out w ∷ ops) = returns ops
  returns (back x ∷ ops) = x ∷ returns ops

  abbrev pub open_pool : List A → List Waiter → ℕ → PoolInner A
  open_pool items waiters total = record {
    items = items;
    waiters = waiters;
    closed = false;
    total = total;
  }

  zip-nil : (ws : List Waiter) → zip {B = A} ws [] ≡ []
  unfolding zip
  zip-nil [] = refl
  zip-nil (w ∷ ws) = refl

  -- The pool is first come, first served on both sides: over any calls on an open pool at which nobody
  -- waits, the requests are granted in the order in which they came, and the items go out in the
  -- order in which they came in, those of the start first.
  pub grants-zip :
      (ops : List (Op A)) (items : List A) (waiters : List Waiter) (total : ℕ)
      → (items ≡ []) ⊎ (waiters ≡ [])
      → grants (open_pool items waiters total) ops
        ≡ zip (waiters ++ requests ops) (items ++ returns ops)
  unfolding grants checkout checkin zip
  grants-zip [] [] ws total f = sym (zip-nil (ws ++ []))
  grants-zip [] (x ∷ items) [] total f = refl
  grants-zip [] (x ∷ items) (w ∷ ws) total f = ground arith
  grants-zip (out w ∷ ops) [] ws total f =
      rw (grants-zip ops [] (ws ++ (w ∷ [])) total (inl refl)) (rw append_assoc)
  grants-zip (out w ∷ ops) (x ∷ items) [] total f =
      ap (λ gs. (w, x) ∷ gs) (grants-zip ops items [] total (inr refl))
  grants-zip (out w ∷ ops) (x ∷ items) (v ∷ ws) total f = ground arith
  grants-zip (back x ∷ ops) items [] total f =
      rw (grants-zip ops (items ++ (x ∷ [])) [] total (inr refl)) (rw append_assoc)
  grants-zip (back x ∷ ops) [] (w ∷ ws) total f =
      ap (λ gs. (w, x) ∷ gs) (grants-zip ops [] ws total (inl refl))
  grants-zip (back x ∷ ops) (y ∷ items) (w ∷ ws) total f = ground arith
