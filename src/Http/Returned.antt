-- ===== src/Http/Returned.antt =====
-- What a REST request of src/server/http.rs does to the pool.
use monnok_gigastt.Base.{ℕ, ◌≤◌, ◌≡◌, refl, ◌⊎◌, Bool, false, ltb, List, length, arith}
use monnok_gigastt.Decode.{is_empty}
use monnok_gigastt.Pool.{Waiter, PoolInner}
use monnok_gigastt.Pool.Guard.{reservation_checkin}
use monnok_gigastt.Protocol.{RuntimeLimits}
use monnok_gigastt.Http.{
  ApiError, Wait, checked_out, wait_closed, wait_timed_out, Service, checked_body,
}

-- The pool after a request that had to wait for a triplet: one that was checked out is there again.
abbrev pub pool_after : {T : Type 0} → (Waiter → Bool) → PoolInner T → Wait T → PoolInner T
pool_after alive p (checked_out t) = (reservation_checkin alive p t).0
pool_after alive p wait_closed = p
pool_after alive p wait_timed_out = p

abbrev pub Accepts : RuntimeLimits → List ℕ → Type 0
Accepts limits body = (is_empty body ≡ false) × (length body ≤ limits.body_limit_bytes)

within : (n m : ℕ) → n ≤ m → ltb m n ≡ false
within n m h = ground arith

checked_body-Accepts :
    {T A : Type 0} (limits : RuntimeLimits) (body : List ℕ) (w : Service T)
    (r : (ApiError ⊎ A) × Service T)
    → Accepts limits body
    → checked_body limits body w r ≡ r
checked_body-Accepts limits body w r (h, k) =
    rw (h, within (length body) limits.body_limit_bytes k) refl
