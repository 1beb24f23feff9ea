-- ===== src/Pool/System/Closing.antt =====
-- `close` of src/inference/mod.rs among other tasks.
use monnok_gigastt.Base.{ℕ, ◌<◌, ◌≡◌, refl, subst, ◌≢◌, true, [], arith, Mem}
use mathlib.Core.List.{not-mem-nil}
use monnok_gigastt.Pool.{
  Waiter, fast_closed, slow_closed, fast_path, register, set_closed, clear_waiters, pop_waiter,
  push_item,
}
use monnok_gigastt.Pool.System.{
  idle, closing, refused, waiting, sending, System, goes, Step, Reach, begin, take_item, enqueue,
  wake_closed, dequeue, here, next,
}

module _ {ℓ} {A : Type ℓ} where
  -- The pool after `close`: the flag is set and nobody is in the queue.
  pub record IsShut (s : System A) : Type 0 where
    pub flag : s.pool.closed ≡ true
    pub no_waiters : s.pool.waiters ≡ []

  Step-IsShut : (n : ℕ) {s t : System A} → Step n s t → IsShut s → IsShut t
  unfolding fast_path register set_closed clear_waiters pop_waiter push_item
  Step-IsShut n (begin i h e) v = ground arith
  Step-IsShut n (take_item i h e f) v = ground arith
  Step-IsShut n (enqueue i w h e k r) v = ground arith
  Step-IsShut n (dequeue i h e q) v = ground arith
  Step-IsShut n _ v = ground arith

  Reach-IsShut : (n : ℕ) {s t : System A} → IsShut s → Reach n s t → IsShut t
  Reach-IsShut n v here = v
  Reach-IsShut n v (next r st) = Step-IsShut n st (Reach-IsShut n v r)

  -- Nothing unsets the flag.
  Step-closed : (n : ℕ) {s t : System A} → Step n s t → s.pool.closed ≡ true → t.pool.closed ≡ true
  unfolding fast_path register set_closed clear_waiters pop_waiter push_item
  Step-closed n (begin i h e) c = ground arith
  Step-closed n (take_item i h e f) c = ground arith
  Step-closed n (enqueue i w h e k r) c = ground arith
  Step-closed n (dequeue i h e q) c = ground arith
  Step-closed n _ c = ground arith

  Reach-closed :
      (n : ℕ) {s t : System A} → s.pool.closed ≡ true → Reach n s t → t.pool.closed ≡ true
  Reach-closed n c here = c
  Reach-closed n c (next r st) = Step-closed n st (Reach-closed n c r)

  -- No task registers behind the back of `close`. A task sets the flag in any state of the pool; then
  -- the tasks do anything; then it clears the queue; and then they do anything again. From there on
  -- the flag is set and the queue is empty, and a `checkout` is refused in both its blocks. (An
  -- item that was on its way to a waiter when the flag was set may still arrive.)
  pub close-IsShut :
      (n i j : ℕ) (s : System A) {t u : System A} (w : Waiter)
      → Reach n (goes s (set_closed s.pool) i closing) t
      → Reach n (goes t (clear_waiters t.pool) j idle) u
      → IsShut u × (fast_path u.pool ≡ fast_closed) × (register u.pool w ≡ slow_closed)
  unfolding fast_path register clear_waiters set_closed
  close-IsShut n i j s {t} {u} w r r' =
      let c : t.pool.closed ≡ true = Reach-closed n refl r in
      let v : IsShut u = Reach-IsShut n (record { flag = c; no_waiters = refl }) r' in
      (v, rw v.flag, rw v.flag)

  -- So nobody is stranded: after `close` a task that waits can go on with `PoolError::Closed`, unless
  -- another task is about to send it an item.
  pub IsShut-wakes :
      (n i : ℕ) (s : System A) (w : Waiter)
      → IsShut s
      → i < n
      → s.pc i ≡ waiting w
      → ((j : ℕ) (x : A) → s.pc j ≢ sending x w)
      → Step n s (goes s s.pool i refused)
  IsShut-wakes n i s w v h e a =
      wake_closed i h e (λ m. not-mem-nil (subst (Mem w) v.no_waiters m)) a
