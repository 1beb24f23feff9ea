-- ===== src/RateLimit/Limiter/Eviction.antt =====
-- `evict_stale` of src/server/rate_limit.rs: what it drops, and when dropping a bucket can be noticed.
use monnok_gigastt.Base.{
  ℕ, ◌+◌, ◌-◌, ◌*◌, ◌≤◌, ◌<◌, ◌≡◌, refl, true, if◌then◌else◌, leb, none, some, arith, length,
}
use monnok_gigastt.RateLimit.ClientIp.{IpAddr}
use monnok_gigastt.RateLimit.Bucket.{TokenBucket, parts_per_token, bucket_new, try_consume}
use monnok_gigastt.RateLimit.Limiter.{RateLimiter, check, evict_stale}
use monnok_gigastt.RateLimit.Limiter.Buckets.{
  Buckets, entry_or, entry_or-find, find, find-put, ip_eq_iff, Distinct, put-Distinct,
  retain_seen-Distinct, entry_or-retain_seen, length-retain_seen,
}

-- Each address has one bucket: `check` and `evict_stale` keep it so, and `evict_stale` never adds one.
pub limiter-Distinct :
    (l : RateLimiter) (ip : IpAddr) (now now_ms older_than_ms : ℕ)
    → Distinct l.buckets
    → Distinct (check l ip now now_ms).0.buckets
      × Distinct (evict_stale l now_ms older_than_ms).buckets
      × (length (evict_stale l now_ms older_than_ms).buckets ≤ length l.buckets)
unfolding check evict_stale
limiter-Distinct l ip now now_ms older_than_ms d = (
  put-Distinct ip _ l.buckets d,
  retain_seen-Distinct _ l.buckets d,
  length-retain_seen _ l.buckets,
)

-- What an address has left, in parts.
abbrev pub level : IpAddr → Buckets → ℕ
level ip m = elim (find ip m) [ none ↦ 0 | some b ↦ b.tokens ]

-- A bucket of this limiter.
pub record IsMade (l : RateLimiter) (b : TokenBucket) : Type 0 where
  pub made_capacity : b.capacity ≡ l.capacity * parts_per_token
  pub made_refill : b.refill ≡ l.refill
  pub made_level : b.tokens ≤ b.capacity

-- What `check` answers and stores is what `try_consume` makes of the address's entry.
check_entry :
    (l : RateLimiter) (ip : IpAddr) (now now_ms : ℕ)
    → let b = entry_or ip (bucket_new l.capacity l.refill now now_ms) l.buckets in
      ((check l ip now now_ms).1 ≡ (try_consume b now now_ms).1)
      × (find ip (check l ip now now_ms).0.buckets ≡ some (try_consume b now now_ms).0)
unfolding check
check_entry l ip now now_ms =
    let b = entry_or ip (bucket_new l.capacity l.refill now now_ms) l.buckets in
    (refl, rw (find-put, (ip_eq_iff ip ip).1 refl))

-- The entry that `check` finds after an eviction: the old bucket if it was seen since the cutoff.
entry_or-evicted :
    (l : RateLimiter) (ip : IpAddr) (b fresh : TokenBucket) (evict_ms older_than_ms : ℕ)
    → Distinct l.buckets
    → find ip l.buckets ≡ some b
    → (entry_or ip fresh l.buckets ≡ b)
      × (entry_or ip fresh (evict_stale l evict_ms older_than_ms).buckets
          ≡ (if leb (evict_ms - older_than_ms) b.last_seen_ms then b else fresh))
unfolding evict_stale
entry_or-evicted l ip b fresh evict_ms older_than_ms d e = ground (
  arith,
  entry_or-find ip fresh l.buckets,
  entry_or-retain_seen ip fresh (evict_ms - older_than_ms) l.buckets d,
)

-- Where the time since the last refill fills a bucket, a request finds it as a fresh one.
full_again :
    (l : RateLimiter) (b : TokenBucket) (now now_ms : ℕ)
    → IsMade l b
    → b.last_refill < now
    → l.capacity * parts_per_token ≤ (now - b.last_refill) * l.refill
    → try_consume b now now_ms ≡ try_consume (bucket_new l.capacity l.refill now now_ms) now now_ms
unfolding try_consume bucket_new
full_again l b now now_ms v h k = ground arith

-- Eviction cannot be noticed, where it is right: if the bucket of `ip` was refilled so long ago that
-- it is full again by now, then the next `check` answers the same and leaves the same bucket behind,
-- whether or not `evict_stale` ran in between.
pub evict_stale_unnoticed :
    (l : RateLimiter) (ip : IpAddr) (b : TokenBucket) (evict_ms older_than_ms now now_ms : ℕ)
    → Distinct l.buckets
    → find ip l.buckets ≡ some b
    → IsMade l b
    → b.last_refill < now
    → l.capacity * parts_per_token ≤ (now - b.last_refill) * l.refill
    → let evicted = check (evict_stale l evict_ms older_than_ms) ip now now_ms in
      let kept = check l ip now now_ms in
      (evicted.1 ≡ kept.1) × (find ip evicted.0.buckets ≡ find ip kept.0.buckets)
unfolding evict_stale
evict_stale_unnoticed l ip b evict_ms older_than_ms now now_ms d e v h k = ground (
  arith,
  full_again l b now now_ms v h k,
  entry_or-evicted l ip b (bucket_new l.capacity l.refill now now_ms) evict_ms older_than_ms d e,
  check_entry l ip now now_ms,
  check_entry (evict_stale l evict_ms older_than_ms) ip now now_ms,
)

-- A bucket that is not full again has less left after a request than a fresh one.
less_left :
    (l : RateLimiter) (b : TokenBucket) (now now_ms : ℕ)
    → IsMade l b
    → b.last_refill < now
    → 1 ≤ l.capacity
    → b.tokens + (now - b.last_refill) * l.refill < l.capacity * parts_per_token
    → let fresh = bucket_new l.capacity l.refill now now_ms in
      ((try_consume fresh now now_ms).1 ≡ true)
      × (b.tokens + (now - b.last_refill) * l.refill
          < (try_consume fresh now now_ms).0.tokens + parts_per_token)
      × ((try_consume b now now_ms).1 ≡ true
          → (try_consume b now now_ms).0.tokens < (try_consume fresh now now_ms).0.tokens)
unfolding try_consume bucket_new
less_left l b now now_ms v h one k = ground arith

-- The bug that it has otherwise: a bucket that was last seen before the cutoff, and has not had the
-- time to fill up again, is dropped all the same. Where the next `check` would have been allowed
-- anyway, it leaves more in the bucket than it would have left without the eviction: the address is
-- given tokens that the rate does not give.
pub evict_stale_resets :
    (l : RateLimiter) (ip : IpAddr) (b : TokenBucket) (evict_ms older_than_ms now now_ms : ℕ)
    → Distinct l.buckets
    → find ip l.buckets ≡ some b
    → IsMade l b
    → b.last_refill < now
    → 1 ≤ l.capacity
    → b.tokens + (now - b.last_refill) * l.refill < l.capacity * parts_per_token
    → b.last_seen_ms < evict_ms - older_than_ms
    → (check l ip now now_ms).1 ≡ true
    → let evicted = check (evict_stale l evict_ms older_than_ms) ip now now_ms in
      (evicted.1 ≡ true) × (level ip (check l ip now now_ms).0.buckets < level ip evicted.0.buckets)
unfolding evict_stale
evict_stale_resets l ip b evict_ms older_than_ms now now_ms d e v h one k seen allowed = ground (
  arith,
  less_left l b now now_ms v h one k,
  entry_or-evicted l ip b (bucket_new l.capacity l.refill now now_ms) evict_ms older_than_ms d e,
  check_entry l ip now now_ms,
  check_entry (evict_stale l evict_ms older_than_ms) ip now now_ms,
)
