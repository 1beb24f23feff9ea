-- ===== src/RateLimit/Limiter/Isolation.antt =====
-- The limiter of src/server/rate_limit.rs treats every address by itself: what one address is allowed
-- depends on its own requests alone.
use monnok_gigastt.Base.{
  ℕ, ◌+◌, ◌-◌, ◌*◌, ◌≤◌, ◌≡◌, if◌then◌else◌, Option, none, some, List, [], ◌∷◌, arith, min, max,
}
use monnok_gigastt.RateLimit.ClientIp.{IpAddr, ip_eq}
use monnok_gigastt.RateLimit.Newtypes.{max_rpm}
use monnok_gigastt.RateLimit.Bucket.{
  TokenBucket, parts_per_token, bucket_new, try_consume, count_true, serve,
}
use monnok_gigastt.RateLimit.Bucket.Rate.{AllBefore, mul_mono, serve_rate}
use monnok_gigastt.RateLimit.Limiter.{RateLimiter, limiter_new, check}
use monnok_gigastt.RateLimit.Limiter.Buckets.{entry_or, find, entry_or-find, find-put, ip_eq_iff}

abbrev pub Arrival : Type 0
Arrival = IpAddr × ℕ × ℕ

-- How many of the requests are allowed to `ip`, when all of them go through `check` in order.
unfoldable pub allowed_to : IpAddr → RateLimiter → List Arrival → ℕ
allowed_to ip l [] = 0
allowed_to ip l ((j, now, now_ms) ∷ rs) =
    let (l', allowed) = check l j now now_ms in
    let n = allowed_to ip l' rs in if ip_eq j ip then count_true allowed n else n

-- The clock readings of the requests of one address.
abbrev pub own : IpAddr → List Arrival → List (ℕ × ℕ)
own ip [] = []
own ip ((j, now, now_ms) ∷ rs) = if ip_eq j ip then (now, now_ms) ∷ own ip rs else own ip rs

-- One address by itself: its bucket, made full at the first request, serves its requests.
abbrev pub granted : ℕ → ℕ → Option TokenBucket → List (ℕ × ℕ) → ℕ
granted capacity refill (some b) rs = (serve b rs).1
granted capacity refill none [] = 0
granted capacity refill none ((now, now_ms) ∷ rs) =
    (serve (bucket_new capacity refill now now_ms) ((now, now_ms) ∷ rs)).1

-- Whatever other addresses do in between, an address is allowed as many requests as one bucket of
-- its own allows to its own requests.
pub allowed_to-granted :
    (ip : IpAddr) (rs : List Arrival) (l : RateLimiter)
    → allowed_to ip l rs ≡ granted l.capacity l.refill (find ip l.buckets) (own ip rs)
unfolding allowed_to check serve
allowed_to-granted ip [] l = ground arith
allowed_to-granted ip ((j, now, now_ms) ∷ rs) l =
    let fresh = bucket_new l.capacity l.refill now now_ms in
    let b' = (try_consume (entry_or j fresh l.buckets) now now_ms).0 in
    ground (
      arith,
      ip_eq_iff j ip,
      allowed_to-granted ip rs (check l j now now_ms).0,
      find-put j ip b' l.buckets,
      entry_or-find j fresh l.buckets,
    )

-- All requests come at `t` at the latest.
abbrev pub ArriveBefore : ℕ → List Arrival → Type 0
ArriveBefore t [] = Unit {0}
ArriveBefore t ((j, now, now_ms) ∷ rs) = (now ≤ t) × ArriveBefore t rs

own-AllBefore :
    (ip : IpAddr) (t : ℕ) (rs : List Arrival) → ArriveBefore t rs → AllBefore t (own ip rs)
own-AllBefore ip t [] h = tt
own-AllBefore ip t ((j, now, now_ms) ∷ rs) h = ground (arith, own-AllBefore ip t rs h.1)

abbrev pub ArriveAfter : ℕ → List Arrival → Type 0
ArriveAfter t [] = Unit {0}
ArriveAfter t ((j, now, now_ms) ∷ rs) = (t ≤ now) × ArriveAfter t rs

granted_rate :
    (ip : IpAddr) (capacity refill start end : ℕ) (rs : List Arrival)
    → ArriveAfter start rs
    → ArriveBefore end rs
    → granted capacity refill none (own ip rs) * parts_per_token
      ≤ capacity * parts_per_token + (end - start) * refill
granted_rate ip capacity refill start end [] h k = omega arith
granted_rate ip capacity refill start end ((j, now, now_ms) ∷ rs) h k = ground (
  arith,
  granted_rate ip capacity refill start end rs h.1 k.1,
  own-AllBefore ip end rs k.1,
  serve_rate capacity refill now now_ms end ((now, now_ms) ∷ own ip rs),
  mul_mono (end - now) (end - start) refill,
)

-- The limit that the server enforces. From a new limiter, an address whose requests all come between
-- `start` and `end` is allowed at most the burst (at least 1) and the refill of that time at the
-- clamped rate, among any requests of other addresses and in any order.
pub limiter_rate :
    (rpm burst start end : ℕ) (ip : IpAddr) (rs : List Arrival)
    → ArriveAfter start rs
    → ArriveBefore end rs
    → allowed_to ip (limiter_new rpm burst) rs * parts_per_token
      ≤ max burst 1 * parts_per_token + (end - start) * min (max rpm 1) max_rpm
unfolding limiter_new
limiter_rate rpm burst start end ip rs h k =
    rw (allowed_to-granted ip rs (limiter_new rpm burst))
      (granted_rate ip (max burst 1) (min (max rpm 1) max_rpm) start end rs h k)
