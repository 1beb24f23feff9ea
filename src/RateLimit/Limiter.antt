-- ===== src/RateLimit/Limiter.antt =====
-- `RateLimiter` of src/server/rate_limit.rs: the map of buckets, `check`, `evict_stale` and the
-- middleware. The `DashMap` is an association list; the clock readings are arguments.
pub mod Buckets
pub mod Isolation
pub mod Eviction
use Prim.Native.Nat.{min, max}
use monnok_gigastt.Base.{
  ℕ, ◌-◌, ◌*◌, ◌/◌, ◌+◌, Bool, true, false, leb, if◌then◌else◌, Option, none, some, List, [], ◌∷◌,
}
use monnok_gigastt.RateLimit.Newtypes.{max_rpm}
use monnok_gigastt.RateLimit.ClientIp.{IpAddr, Request, extract_client_ip}
use monnok_gigastt.RateLimit.Bucket.{TokenBucket, bucket_new, try_consume}
use Buckets.{entry_or, put, retain_seen}

pub record RateLimiter : Type 0 where
  pub buckets : List (IpAddr × TokenBucket)
  pub capacity : ℕ
  pub refill : ℕ
  pub effective_rpm : ℕ

-- `rpm.clamp(1, MAX_RPM)`, and `burst.max(1)`
pub limiter_new : ℕ → ℕ → RateLimiter
limiter_new rpm burst =
    let effective = min (max rpm 1) max_rpm in
    record { buckets = []; capacity = max burst 1; refill = effective; effective_rpm = effective }

pub interval_ms : RateLimiter → ℕ
interval_ms l = max (60000 / max l.effective_rpm 1) 1

-- `entry(ip).or_insert_with(…)`, then `try_consume` on the entry.
unfoldable pub check : RateLimiter → IpAddr → ℕ → ℕ → RateLimiter × Bool
check l ip now now_ms =
    let b = entry_or ip (bucket_new l.capacity l.refill now now_ms) l.buckets in
    let (b', allowed) = try_consume b now now_ms in
    (record l { buckets = put ip b' l.buckets }, allowed)

-- `saturating_sub` is the truncated `-`.
unfoldable pub evict_stale : RateLimiter → ℕ → ℕ → RateLimiter
evict_stale l now_ms older_than_ms = record l {
  buckets = retain_seen (now_ms - older_than_ms) l.buckets;
}

-- The response that the middleware gives: the next layer's, or 429 with `Retry-After: 60`.
pub data Answer : Type 0 where
  forwarded : Answer
  too_many_requests : (retry_after : ℕ) → Answer

-- The limiter after a request, the answer, and by how much the counter of rejections grows.
abbrev pub admit : RateLimiter × Bool → RateLimiter × Answer × ℕ
admit (l, true) = (l, forwarded, 0)
admit (l, false) = (l, too_many_requests 60, 1)

unfoldable pub rate_limit_middleware :
    RateLimiter → Option IpAddr → ℕ → ℕ → RateLimiter × Answer × ℕ
rate_limit_middleware l none now now_ms = (l, forwarded, 0)
rate_limit_middleware l (some ip) now now_ms = admit (check l ip now now_ms)
