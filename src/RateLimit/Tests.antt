-- ===== src/RateLimit/Tests.antt =====
-- Concrete requests to the limiter of src/server/rate_limit.rs.
use monnok_gigastt.Base.{◌+◌, ◌-◌, ◌*◌, ◌≤◌, ◌<◌, ◌≡◌, refl, true, List, [], ◌∷◌, arith, min, max}
use monnok_gigastt.RateLimit.Newtypes.{max_rpm}
use monnok_gigastt.RateLimit.ClientIp.{IpAddr, v4, ip_eq}
use monnok_gigastt.RateLimit.Bucket.{TokenBucket, parts_per_token, try_consume}
use monnok_gigastt.RateLimit.Limiter.{RateLimiter, limiter_new, check, evict_stale}
use monnok_gigastt.RateLimit.Limiter.Buckets.{entry_or}
use monnok_gigastt.RateLimit.Limiter.Isolation.{Arrival, allowed_to, limiter_rate}
use monnok_gigastt.RateLimit.Limiter.Eviction.{level, evict_stale_resets}

abbrev alice : IpAddr
alice = v4 203 0 113 7

abbrev bob : IpAddr
bob = v4 198 51 100 2

abbrev arrivals : List Arrival
arrivals = (alice, 10, 0) ∷ (bob, 11, 0) ∷ (alice, 12, 0) ∷ []

limiter_rate_example :
    allowed_to alice (limiter_new 60 2) arrivals * parts_per_token
    ≤ max 2 1 * parts_per_token + (20 - 5) * min (max 60 1) max_rpm
limiter_rate_example =
    limiter_rate 60 2 5 20 alice arrivals (omega arith, (omega arith, (omega arith, tt)))
      (omega arith, (omega arith, (omega arith, tt)))

-- A bucket of two tokens that has one and a half.
abbrev part_full : TokenBucket
part_full = record {
  capacity = 2 * parts_per_token;
  refill = 60;
  tokens = 90_000_000_000;
  last_refill = 0;
  last_seen_ms = 5;
}

abbrev two_tokens : RateLimiter
two_tokens = record {
  buckets = (alice, part_full) ∷ [];
  capacity = 2;
  refill = 60;
  effective_rpm = 60;
}

evict_stale_resets_example :
    let evicted = check (evict_stale two_tokens 10 1) alice 7 20 in
    (evicted.1 ≡ true)
    × (level alice (check two_tokens alice 7 20).0.buckets < level alice evicted.0.buckets)
unfolding ip_eq check try_consume entry_or
evict_stale_resets_example =
    evict_stale_resets two_tokens alice part_full 10 1 7 20 (ground arith) refl
      (record { made_capacity = refl; made_refill = refl; made_level = omega arith }) (omega arith)
      (omega arith) (omega arith) (omega arith) refl
