-- ===== src/RateLimit/Bucket.antt =====
-- `TokenBucket` of src/server/rate_limit.rs. A number of tokens is an `f64` there; here it is an
-- exact count of parts without rounding, 60_000_000_000 to a token, so that `rpm / 60_000` tokens for each
-- millisecond are `rpm` parts for each nanosecond. An `Instant` is a number of nanoseconds.
pub mod Rate
use monnok_gigastt.Base.{
  ℕ, ◌+◌, ◌-◌, ◌*◌, ◌≤◌, Bool, true, false, min, ltb, leb, if◌then◌else◌, List, [], ◌∷◌,
}

abbrev pub parts_per_token : ℕ
parts_per_token = 60_000_000_000

pub record TokenBucket : Type 0 where
  pub capacity : ℕ  -- in parts
  pub refill : ℕ  -- parts for each nanosecond
  pub tokens : ℕ  -- in parts
  pub last_refill : ℕ  -- an `Instant`, in nanoseconds
  pub last_seen_ms : ℕ

-- `TokenBucket::new`: a full bucket.
unfoldable pub bucket_new : ℕ → ℕ → ℕ → ℕ → TokenBucket
bucket_new capacity refill now now_ms = record {
  capacity = capacity * parts_per_token;
  refill = refill;
  tokens = capacity * parts_per_token;
  last_refill = now;
  last_seen_ms = now_ms;
}

-- The first half of `try_consume`. `-` is `saturating_duration_since`.
unfoldable pub refilled : TokenBucket → ℕ → TokenBucket
refilled b now =
    if ltb 0 (now - b.last_refill)
    then record b {
      tokens = min (b.tokens + (now - b.last_refill) * b.refill) b.capacity;
      last_refill = now;
    }
    else b

-- The second half of `try_consume`.
unfoldable pub take_token : TokenBucket → TokenBucket × Bool
take_token b =
    if leb parts_per_token b.tokens
    then (record b { tokens = b.tokens - parts_per_token }, true)
    else (b, false)

unfoldable pub try_consume : TokenBucket → ℕ → ℕ → TokenBucket × Bool
unfolding refilled take_token
try_consume b now now_ms = take_token (record (refilled b now) { last_seen_ms = now_ms })

-- A caller's requests in order, each with its two clock readings: the bucket after them, and how
-- many were allowed.
abbrev pub count_true : Bool → ℕ → ℕ
count_true true n = n + 1
count_true false n = n

unfoldable pub serve : TokenBucket → List (ℕ × ℕ) → TokenBucket × ℕ
serve b [] = (b, 0)
serve b ((now, now_ms) ∷ rs) =
    let (b', allowed) = try_consume b now now_ms in
    let (end, n) = serve b' rs in (end, count_true allowed n)
