-- ===== src/Ffi/Checkout.antt =====
-- A triplet leaves a pool of src/ffi.rs and comes back, as what it weighs.
use native.Mathlib.Nat.{add_comm}
use monnok_gigastt.Base.{
  ℕ, ◌+◌, ◌<◌, ◌≡◌, ◌⊎◌, refl, ◌∙◌, ap, sym, subst, Bool, true, false, ◌==◌, ==_iff, ==-false,
  ==-same, Bool-cases, inl, inr, if◌then◌else◌, List, [], ◌∷◌, ◌++◌, arith,
}
use monnok_gigastt.Pool.{
  PoolInner, Waiter, registered, fast_path, register, stored, checkin, push_item, pop_waiter,
  pop_item,
}
use monnok_gigastt.Pool.Guard.{guard_new, drop_guard, reservation_checkin}
use monnok_gigastt.Ffi.{World, Called, returned, waits, faulted, aborted, Host, with_pool}
use monnok_gigastt.Ffi.Client.{Ledger}
use monnok_gigastt.Ffi.Calls.{with_checkout, put_back, on_fast}
use monnok_gigastt.Ffi.Weights.{of_items, of_items-push, on_streams, weight}
use monnok_gigastt.Ffi.Agrees.{Agrees, with_pool-Agrees}

checkin-push :
    (alive : Waiter → Bool) (p : PoolInner ℕ) (x : ℕ)
    → (p.closed ≡ false) × (p.waiters ≡ [])
    → checkin alive p x ≡ (push_item p x, stored)
unfolding checkin pop_waiter
checkin-push alive p x (c, n) = simp (c, n)

fast_path-pop_item : (p : PoolInner ℕ) → p.closed ≡ false → fast_path p ≡ pop_item p p.items
unfolding fast_path
fast_path-pop_item p c = simp c

register-registered :
    (p : PoolInner ℕ) (v : Waiter)
    → p.closed ≡ false
    → register p v ≡ registered (record p { waiters = p.waiters ++ (v ∷ []) })
unfolding register
register-registered p v c = simp c

module _ {R D : Type 0} (host : Host R D) (f : ℕ → ℕ) (q : ℕ) where
  -- What a triplet of pool `r` weighs.
  abbrev pub share : ℕ → ℕ → ℕ
  share r x = if r == q then f x else 0

  -- The pool that changes is `q`, or another.
  with_pool-weight :
      (w : World R D) (r : ℕ) (p : PoolInner ℕ)
      → ((r == q) ≡ true)
          × (weight f q (with_pool r p w) ≡ of_items f q p.items + on_streams f q w.heap w.next)
          × (of_items f q (w.pools q).items ≡ of_items f q (w.pools r).items)
        ⊎ ((r == q) ≡ false) × (weight f q (with_pool r p w) ≡ weight f q w)
  with_pool-weight w r p = elim (Bool-cases (r == q)) [
    | inl e ↦
        let k = (==_iff r q).0 e in
        inl (
          e,
          rw (subst (λ k. (q == k) ≡ true) (sym k) (==-same q)) refl,
          ap (λ k. of_items f q (w.pools k).items) (sym k),
        )
    | inr e ↦ inr (e, rw (==-false q r (λ k. apart k e)) refl)
  ]
    where
      apart : q ≡ r → (r == q) ≡ false → ⊥
      apart k e = ground arith

  weight-in :
      (w : World R D) (r : ℕ) (p : PoolInner ℕ) (x : ℕ)
      → of_items f q p.items ≡ of_items f q (w.pools r).items + f x
      → weight f q (with_pool r p w) ≡ weight f q w + share r x
  weight-in w r p x h = elim (with_pool-weight w r p) [
    | inl (e, k, l) ↦ rw (e, k) (omega (arith, h, l))
    | inr (e, k) ↦ rw (e, k) (omega arith)
  ]

  weight-out :
      (w : World R D) (r : ℕ) (p : PoolInner ℕ) (x : ℕ)
      → of_items f q (w.pools r).items ≡ of_items f q p.items + f x
      → weight f q (with_pool r p w) + share r x ≡ weight f q w
  weight-out w r p x h = elim (with_pool-weight w r p) [
    | inl (e, k, l) ↦ rw (e, k) (omega (arith, h, l))
    | inr (e, k) ↦ rw (e, k) (omega arith)
  ]

  weight-same :
      (w : World R D) (r : ℕ) (p : PoolInner ℕ)
      → p.items ≡ (w.pools r).items
      → weight f q (with_pool r p w) ≡ weight f q w
  weight-same w r p h = elim (with_pool-weight w r p) [
    | inl (e, k, l) ↦ omega (arith, k, l, ap (of_items f q) h)
    | inr (e, k) ↦ k
  ]

  -- How a call ends where triplets of pool `q` weigh `total` in all, and what the client then knows.
  abbrev pub IsGood : (ℕ → Ledger) → ℕ → Called R D → Type 0
  IsGood l total (returned p w) = Agrees (l p) w × (q < w.next) × (weight f q w ≡ total)
  IsGood l total (waits w) = weight f q w ≡ total
  IsGood l total faulted = ⊥
  IsGood l total aborted = Unit

  -- A triplet is taken, if there is one, and what is done with it is good.
  pub with_checkout-IsGood :
      (l : Ledger) (m : ℕ → Ledger) (total r : ℕ) (k : ℕ → World R D → Called R D) (w : World R D)
      → Agrees l w
      → q < w.next
      → weight f q w ≡ total
      → ((x : ℕ) (w' : World R D)
          → Agrees l w'
          → q < w'.next
          → weight f q w' + share r x ≡ total
          → IsGood m total (k x w'))
      → IsGood m total (with_checkout host r k w)
  unfolding with_checkout
  with_checkout-IsGood l m total r k w a b h g =
      rw (fast_path-pop_item (w.pools r) (a.serving r).0) (go (w.pools r).items refl)
    where
      go :
          (items : List ℕ)
          → items ≡ (w.pools r).items
          → IsGood m total (on_fast host k w r (pop_item (w.pools r) items))
      go [] e =
          rw (register-registered (w.pools r) (Waiter.blocking host.channel) (a.serving r).0)
            (weight-same w r _ refl ∙ h)
      go (x ∷ xs) e =
          g x _ (with_pool-Agrees l w r _ a (a.serving r).0 (a.serving r).1) b
            (weight-out w r _ x (ap (of_items f q) (sym e) ∙ add_comm (f x) (of_items f q xs)) ∙ h)

  -- A pool above `q` changes.
  pub above-weight :
      (w : World R D) (r : ℕ) (p : PoolInner ℕ)
      → q < r
      → weight f q (with_pool r p w) ≡ weight f q w
  above-weight w r p h = rw (==-false q r (λ e. absurd (omega (arith, e, h)))) refl

  -- What becomes of a triplet that is checked in, here by the reservation of a stream.
  pub checked_in-State :
      (l : Ledger) (r x total : ℕ) (w : World R D)
      → Agrees l w
      → weight f q w + share r x ≡ total
      → let w' = with_pool r (reservation_checkin host.alive (w.pools r) x).0 w in
        Agrees l w' × (weight f q w' ≡ total)
  unfolding reservation_checkin push_item
  checked_in-State l r x total w a h = rw (checkin-push host.alive (w.pools r) x (a.serving r)) (
    with_pool-Agrees l w r _ a (a.serving r).0 (a.serving r).1,
    weight-in w r _ x (of_items-push f q (w.pools r).items x) ∙ h,
  )

  -- The guard puts the triplet back.
  pub put_back-State :
      (l : Ledger) (r x total : ℕ) (w : World R D)
      → Agrees l w
      → q < w.next
      → weight f q w + share r x ≡ total
      → Agrees l (put_back host r x w)
        × (q < (put_back host r x w).next)
        × (weight f q (put_back host r x w) ≡ total)
  unfolding put_back drop_guard guard_new reservation_checkin
  put_back-State l r x total w a b h =
      let (a', h') = checked_in-State l r x total w a h in (a', b, h')
