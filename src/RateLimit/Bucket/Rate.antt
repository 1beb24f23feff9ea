-- ===== src/RateLimit/Bucket/Rate.antt =====
-- What a bucket of src/server/rate_limit.rs promises: its level stays within the capacity, and no
-- sequence of requests gets more than the burst and the refill allow.
use monnok_gigastt.Base.{
  ℕ, zero, suc, ◌<◌, ◌+◌, ◌-◌, ◌*◌, ◌≤◌, ◌≡◌, Bool, true, false, arith, List, [], ◌∷◌, max,
}
use monnok_gigastt.RateLimit.Bucket.{
  TokenBucket, parts_per_token, bucket_new, try_consume, count_true, serve,
}

pub record IsLevel (b : TokenBucket) : Type 0 where
  pub within : b.tokens ≤ b.capacity

-- A new bucket is full, a refill keeps the level within the capacity, and so does `try_consume`.
pub try_consume-IsLevel :
    (b : TokenBucket) (now now_ms : ℕ) → IsLevel b → IsLevel (try_consume b now now_ms).0
unfolding try_consume
try_consume-IsLevel b now now_ms v = ground arith

-- Everything that one request does to a bucket.
pub try_consume_lem :
    (b : TokenBucket) (now now_ms : ℕ)
    → let (b', allowed) = try_consume b now now_ms in
      (count_true allowed 0 * parts_per_token + b'.tokens
        ≤ b.tokens + (b'.last_refill - b.last_refill) * b.refill)
      × (b.last_refill ≤ b'.last_refill)
      × (b'.last_refill ≤ max b.last_refill now)
      × (b'.refill ≡ b.refill)
      × (b'.capacity ≡ b.capacity)
      × (b'.last_seen_ms ≡ now_ms)
unfolding try_consume
try_consume_lem b now now_ms = ground arith

sum_mul : (a b r : ℕ) → a * r + b * r ≡ (a + b) * r
sum_mul a b r = omega arith

split_span : (l₀ l₁ l₂ r : ℕ) → l₀ ≤ l₁ → l₁ ≤ l₂ → (l₁ - l₀) * r + (l₂ - l₁) * r ≡ (l₂ - l₀) * r
split_span l₀ l₁ l₂ r h k =
    let e : l₂ - l₀ ≡ (l₁ - l₀) + (l₂ - l₁) = omega arith in rw e (sum_mul (l₁ - l₀) (l₂ - l₁) r)

count_true-add : (b : Bool) (n : ℕ) → count_true b n ≡ count_true b 0 + n
count_true-add true n = omega arith
count_true-add false n = omega arith

-- What a caller has been given never exceeds the level at the start and the refill up to the last
-- request that counted.
serve-le :
    (rs : List (ℕ × ℕ)) (b : TokenBucket)
    → let (b', n) = serve b rs in
      (n * parts_per_token + b'.tokens ≤ b.tokens + (b'.last_refill - b.last_refill) * b.refill)
      × (b.last_refill ≤ b'.last_refill)
unfolding serve
serve-le [] b = omega arith
serve-le ((now, now_ms) ∷ rs) b =
    let b' = (try_consume b now now_ms).0 in
    ground (
      arith,
      try_consume_lem b now now_ms,
      serve-le rs b',
      split_span b.last_refill b'.last_refill (serve b' rs).0.last_refill b.refill,
      count_true-add (try_consume b now now_ms).1 (serve b' rs).1,
    )

pub mul_mono : (a b r : ℕ) → a ≤ b → a * r ≤ b * r
mul_mono a b r h = grind arith

-- All requests come at `t` at the latest.
abbrev pub AllBefore : ℕ → List (ℕ × ℕ) → Type 0
AllBefore t [] = Unit {0}
AllBefore t ((now, now_ms) ∷ rs) = (now ≤ t) × AllBefore t rs

last_refill-serve :
    (t : ℕ) (rs : List (ℕ × ℕ)) (b : TokenBucket)
    → AllBefore t rs
    → b.last_refill ≤ t
    → (serve b rs).0.last_refill ≤ t
unfolding serve
last_refill-serve t [] b h k = k
last_refill-serve t ((now, now_ms) ∷ rs) b h k =
    let b' = (try_consume b now now_ms).0 in
    last_refill-serve t rs b' h.1 (omega (arith, try_consume_lem b now now_ms))

-- The rate limit. A bucket made at `start` with burst `capacity` and `rpm` parts for each nanosecond
-- (`rpm` requests a minute) allows at most `capacity` requests and the refill of the time from
-- `start` to `end`, whatever requests come in what order until `end`. (One token is
-- `parts_per_token` parts.)
pub serve_rate :
    (capacity rpm start start_ms end : ℕ) (rs : List (ℕ × ℕ))
    → AllBefore end rs
    → start ≤ end
    → (serve (bucket_new capacity rpm start start_ms) rs).1 * parts_per_token
      ≤ capacity * parts_per_token + (end - start) * rpm
unfolding bucket_new
serve_rate capacity rpm start start_ms end rs h k =
    let b = bucket_new capacity rpm start start_ms in
    let last = last_refill-serve end rs b h k in
    let bound = mul_mono ((serve b rs).0.last_refill - start) (end - start) rpm (omega arith) in
    omega (arith, serve-le rs b)

waited_pos : (d r : ℕ) → parts_per_token ≤ d * r → 0 < d
waited_pos zero r h = absurd (omega arith)
waited_pos (suc d) r h = omega arith

-- A caller that waits until a token is refilled gets one, if the bucket can hold a token.
pub try_consume_waited :
    (b : TokenBucket) (now now_ms : ℕ)
    → parts_per_token ≤ b.capacity
    → parts_per_token ≤ (now - b.last_refill) * b.refill
    → (try_consume b now now_ms).1 ≡ true
unfolding try_consume
try_consume_waited b now now_ms h k = ground (arith, waited_pos (now - b.last_refill) b.refill k)
