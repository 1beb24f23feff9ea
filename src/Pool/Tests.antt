-- ===== src/Pool/Tests.antt =====
-- Concrete runs of the pool of src/inference/mod.rs.
use monnok_gigastt.Base.{ℕ, ◌+◌, ◌≡◌, refl, ◌++◌, ◌≢◌, Bool, false, inl, List, [], ◌∷◌, arith, ◌==◌}
use mathlib.Core.List.{zip}
use monnok_gigastt.Pool.{
  Waiter, async, blocking, fast_closed, slow_closed, fast_path, register, clear_waiters, pool_new,
  set_closed,
}
use monnok_gigastt.Pool.Fifo.{Op, out, back, grants, requests, returns, open_pool, grants-zip}
use monnok_gigastt.Pool.System.{
  idle, starting, waiting, holding, closing, System, update, goes, Reach, init, begin, take_item,
  give_up, here, next,
}
use monnok_gigastt.Pool.System.Conservation.{tally, sum_below, carried, Reach-weight}
use monnok_gigastt.Pool.System.Closing.{IsShut, close-IsShut}
use monnok_gigastt.Pool.System.Wakeup.{lost_wakeup, lost_item}

abbrev one_item : List ℕ
one_item = 7 ∷ []

abbrev is_seven : ℕ → Bool
is_seven x = x == 7

abbrev taken : System ℕ
taken =
    goes (goes (init one_item) (pool_new one_item) 0 starting)
      (record (pool_new one_item) { items = [] }) 0 (holding 7)

-- The first task has checked the only item out.
taken-Reach : Reach 2 (init one_item) taken
unfolding fast_path pool_new
taken-Reach = next (next here (begin 0 (omega arith) refl)) (take_item 0 (omega arith) refl refl)

Reach-weight_example :
    tally is_seven taken.pool.items
      + sum_below 2 (λ i. carried is_seven (taken.pc i))
      + tally is_seven taken.lost
    ≡ tally is_seven one_item
Reach-weight_example = Reach-weight is_seven 2 one_item taken-Reach

-- Two tasks wait, a third request comes, and three items come back.
abbrev calls : List (Op ℕ)
calls = out (async 3) ∷ back 10 ∷ back 20 ∷ back 30 ∷ []

abbrev two_waiters : List Waiter
two_waiters = async 1 ∷ blocking 2 ∷ []

grants-zip_example :
    grants (open_pool [] two_waiters 3) calls
    ≡ zip (two_waiters ++ requests calls) ([] ++ returns calls)
grants-zip_example = grants-zip calls [] two_waiters 3 (inl refl)

-- An open pool with one waiter.
abbrev awaited : System ℕ
awaited = record {
  pool = record { items = []; waiters = async 0 ∷ []; closed = false; total = 1 };
  pc = update (λ _. idle) 0 (waiting (async 0));
  next_channel = 1;
  lost = [];
}

-- The second task closes it, and the first gives up in between.
abbrev half_closed : System ℕ
half_closed = goes awaited (set_closed awaited.pool) 1 closing

abbrev given_up : System ℕ
given_up = goes half_closed half_closed.pool 0 idle

close-IsShut_example :
    let u = goes given_up (clear_waiters given_up.pool) 1 idle in
    IsShut u × (fast_path u.pool ≡ fast_closed) × (register u.pool (async 1) ≡ slow_closed)
close-IsShut_example =
    close-IsShut 2 1 1 awaited (async 1) (next here (give_up 0 0 (omega arith) refl)) here

-- The second task begins a checkout while the first holds the item.
abbrev racing : System ℕ
racing = record taken { pc = update taken.pc 1 starting }

lost_wakeup_example :
    (t : System ℕ) × Reach 2 racing t
    × (t.pool.items ≡ 7 ∷ [])
    × (t.pool.waiters ≡ async 0 ∷ [])
    × (t.pc 1 ≡ waiting (async 0))
    × (t.pc 0 ≡ idle)
unfolding pool_new
lost_wakeup_example = lost_wakeup 2 0 1 racing (omega arith) (omega arith) refl refl refl refl refl

-- The first waiter has given up, and a second one waits.
abbrev abandoned : System ℕ
abandoned = record {
  pool = record { items = []; waiters = async 0 ∷ async 1 ∷ []; closed = false; total = 1 };
  pc = update (update (λ _. idle) 0 (holding 7)) 1 (waiting (async 1));
  next_channel = 2;
  lost = [];
}

nobody_waits : (j : ℕ) → abandoned.pc j ≢ waiting (async 0)
nobody_waits j = ground arith

lost_item_example :
    (t : System ℕ) × Reach 2 abandoned t
    × (t.pool.items ≡ [])
    × (t.pool.waiters ≡ async 1 ∷ [])
    × (t.lost ≡ 7 ∷ [])
    × (t.pc 0 ≡ idle)
lost_item_example =
    lost_item 2 0 abandoned (async 0) (async 1 ∷ []) (omega arith) refl refl refl nobody_waits
