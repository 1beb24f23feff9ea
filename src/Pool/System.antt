-- ===== src/Pool/System.antt =====
-- Tasks that use one pool (src/inference/mod.rs), interleaved in any order. A step is one critical
-- section, one load of the flag, or one event at a task's channel.
pub mod Conservation
pub mod Closing
pub mod Wakeup
use monnok_gigastt.Base.{
  ℕ, suc, ◌<◌, ◌≡◌, ◌≢◌, Bool, true, false, Option, none, some, List, [], ◌∷◌, ◌++◌, ◌==◌, Mem, ◌⊎◌,
  if◌then◌else◌,
}
use monnok_gigastt.Pool.{
  Waiter, async, blocking, PoolInner, fast_closed, fast_item, fast_empty, slow_closed, registered,
  pool_new, fast_path, register, set_closed, clear_waiters, pop_waiter, push_item,
}

-- Where a task stands, with the item that it carries.
pub data Pc {ℓ} (A : Type ℓ) : Type ℓ where
  idle : Pc A  -- outside the pool's code, with no item
  starting : Pc A  -- at the head of `checkout` or `checkout_blocking`
  between : Pc A  -- found no item, and has not registered yet
  waiting : (w : Waiter) → Pc A  -- at `rx.await` or `rx.recv()`
  received : (w : Waiter) (x : A) → Pc A  -- the item lies in the channel
  refused : Pc A  -- has returned `PoolError::Closed`
  holding : (x : A) → Pc A  -- owns a guard, or the item and its reservation
  returning : (x : A) → Pc A  -- at the head of `checkin`
  popping : (x : A) → Pc A  -- has seen the flag unset
  sending : (x : A) (w : Waiter) → Pc A  -- has taken a waiter off the queue
  pushing : (x : A) → Pc A  -- has found no waiter
  closing : Pc A  -- in `close`, after the flag is set

abbrev pub update {ℓ} : {B : Type ℓ} → (ℕ → B) → ℕ → B → ℕ → B
update f i v j = if j == i then v else f j

pub record System {ℓ} (A : Type ℓ) : Type ℓ where
  pub pool : PoolInner A
  pub pc : ℕ → Pc A
  pub next_channel : ℕ
  pub lost : List A  -- the items that were dropped

module _ {ℓ} {A : Type ℓ} where
  abbrev pub goes : System A → PoolInner A → ℕ → Pc A → System A
  goes s p i c = record s { pool = p; pc = update s.pc i c }

  abbrev pub loses : System A → ℕ → A → System A
  loses s i x = record s { pc = update s.pc i idle; lost = x ∷ s.lost }

  pub data Step (n : ℕ) (s : System A) : System A → Type ℓ where
    begin : (i : ℕ) → i < n → s.pc i ≡ idle → Step n s (goes s s.pool i starting)
    take_item :
        (i : ℕ) {x : A} {p : PoolInner A}
        → i < n
        → s.pc i ≡ starting
        → fast_path s.pool ≡ fast_item x p
        → Step n s (goes s p i (holding x))
    find_empty :
        (i : ℕ)
        → i < n
        → s.pc i ≡ starting
        → fast_path s.pool ≡ fast_empty
        → Step n s (goes s s.pool i between)
    find_closed :
        (i : ℕ)
        → i < n
        → s.pc i ≡ starting
        → fast_path s.pool ≡ fast_closed
        → Step n s (goes s s.pool i refused)
    enqueue :
        (i : ℕ) (w : Waiter) {p : PoolInner A}
        → i < n
        → s.pc i ≡ between
        → (w ≡ async s.next_channel) ⊎ (w ≡ blocking s.next_channel)
        → register s.pool w ≡ registered p
        → Step n s (record (goes s p i (waiting w)) { next_channel = suc s.next_channel })
    enqueue_closed :
        (i : ℕ) (w : Waiter)
        → i < n
        → s.pc i ≡ between
        → register s.pool w ≡ slow_closed
        → Step n s (goes s s.pool i refused)
    -- The future is dropped while it waits: a timeout, or a client that goes away.
    give_up :
        (i channel : ℕ) → i < n → s.pc i ≡ waiting (async channel) → Step n s (goes s s.pool i idle)
    -- The same after the item was sent and before the future was polled.
    give_up_late :
        (i channel : ℕ) {x : A}
        → i < n
        → s.pc i ≡ received (async channel) x
        → Step n s (loses s i x)
    wake :
        (i : ℕ) {w : Waiter} {x : A}
        → i < n
        → s.pc i ≡ received w x
        → Step n s (goes s s.pool i (holding x))
    -- The sending half is gone: neither in the queue nor in a task's hands.
    wake_closed :
        (i : ℕ) {w : Waiter}
        → i < n
        → s.pc i ≡ waiting w
        → ¬ Mem w s.pool.waiters
        → ((j : ℕ) (x : A) → s.pc j ≢ sending x w)
        → Step n s (goes s s.pool i refused)
    leave : (i : ℕ) → i < n → s.pc i ≡ refused → Step n s (goes s s.pool i idle)
    release :
        (i : ℕ) {x : A} → i < n → s.pc i ≡ holding x → Step n s (goes s s.pool i (returning x))
    see_closed :
        (i : ℕ) {x : A}
        → i < n
        → s.pc i ≡ returning x
        → s.pool.closed ≡ true
        → Step n s (loses s i x)
    see_open :
        (i : ℕ) {x : A}
        → i < n
        → s.pc i ≡ returning x
        → s.pool.closed ≡ false
        → Step n s (goes s s.pool i (popping x))
    dequeue :
        (i : ℕ) {x : A} {w : Waiter} {p : PoolInner A}
        → i < n
        → s.pc i ≡ popping x
        → pop_waiter s.pool ≡ some (w, p)
        → Step n s (goes s p i (sending x w))
    dequeue_none :
        (i : ℕ) {x : A}
        → i < n
        → s.pc i ≡ popping x
        → pop_waiter s.pool ≡ none
        → Step n s (goes s s.pool i (pushing x))
    send :
        (i j : ℕ) {x : A} {w : Waiter}
        → i < n
        → j < n
        → s.pc i ≡ sending x w
        → s.pc j ≡ waiting w
        → Step n s (record s { pc = update (update s.pc i idle) j (received w x) })
    -- `send` fails, and its result is thrown away.
    send_fails :
        (i : ℕ) {x : A} {w : Waiter}
        → i < n
        → s.pc i ≡ sending x w
        → ((j : ℕ) → s.pc j ≢ waiting w)
        → Step n s (loses s i x)
    push :
        (i : ℕ) {x : A} → i < n → s.pc i ≡ pushing x → Step n s (goes s (push_item s.pool x) i idle)
    close_flag : (i : ℕ) → i < n → s.pc i ≡ idle → Step n s (goes s (set_closed s.pool) i closing)
    close_queue :
        (i : ℕ) → i < n → s.pc i ≡ closing → Step n s (goes s (clear_waiters s.pool) i idle)

  abbrev pub init : List A → System A
  init items = record { pool = pool_new items; pc = λ _. idle; next_channel = 0; lost = [] }

  pub data Reach (n : ℕ) (s : System A) : System A → Type ℓ where
    here : Reach n s s
    next : {t u : System A} → Reach n s t → Step n t u → Reach n s u
