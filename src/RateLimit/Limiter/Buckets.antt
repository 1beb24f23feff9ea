-- ===== src/RateLimit/Limiter/Buckets.antt =====
-- The map of buckets of src/server/rate_limit.rs as an association list, and its laws.
use monnok_gigastt.Base.{
  ℕ, ◌≡◌, refl, subst, inl, inr, Bool-cases, true, false, ◌↔◌, leb, if◌then◌else◌, Option, none,
  some, List, [], ◌∷◌, arith, ◌≤◌, length,
}
use monnok_gigastt.RateLimit.ClientIp.{IpAddr, v4, v6, ip_eq}
use monnok_gigastt.RateLimit.Bucket.{TokenBucket}

abbrev pub Buckets : Type 0
Buckets = List (IpAddr × TokenBucket)

-- The bucket of `ip`, or a fresh one.
unfoldable pub entry_or : IpAddr → TokenBucket → Buckets → TokenBucket
entry_or ip fresh [] = fresh
entry_or ip fresh ((k, b) ∷ m) = if ip_eq k ip then b else entry_or ip fresh m

unfoldable pub put : IpAddr → TokenBucket → Buckets → Buckets
put ip b [] = (ip, b) ∷ []
put ip b ((k, c) ∷ m) = if ip_eq k ip then (ip, b) ∷ m else (k, c) ∷ put ip b m

-- `retain(|_, bucket| bucket.last_seen_ms >= cutoff)`
unfoldable pub retain_seen : ℕ → Buckets → Buckets
retain_seen cutoff [] = []
retain_seen cutoff ((k, b) ∷ m) =
    let rest = retain_seen cutoff m in if leb cutoff b.last_seen_ms then (k, b) ∷ rest else rest

pub ip_eq_iff : (a b : IpAddr) → (ip_eq a b ≡ true) ↔ (a ≡ b)
unfolding ip_eq
ip_eq_iff (v4 a b c d) (v4 a' b' c' d') = ground arith
ip_eq_iff (v4 a b c d) (v6 m) = ground arith
ip_eq_iff (v6 n) (v4 a b c d) = ground arith
ip_eq_iff (v6 n) (v6 m) = ground arith

pub entry_or-put :
    (ip j : IpAddr) (b fresh : TokenBucket) (m : Buckets)
    → entry_or j fresh (put ip b m) ≡ (if ip_eq ip j then b else entry_or j fresh m)
unfolding entry_or put
entry_or-put ip j b fresh [] = refl
entry_or-put ip j b fresh ((k, c) ∷ m) =
    ground (arith, ip_eq_iff ip j, ip_eq_iff k ip, ip_eq_iff k j, entry_or-put ip j b fresh m)

abbrev pub find : IpAddr → Buckets → Option TokenBucket
find ip [] = none
find ip ((k, b) ∷ m) = if ip_eq k ip then some b else find ip m

abbrev pub or_fresh : TokenBucket → Option TokenBucket → TokenBucket
or_fresh fresh none = fresh
or_fresh fresh (some b) = b

pub entry_or-find :
    (ip : IpAddr) (fresh : TokenBucket) (m : Buckets)
    → entry_or ip fresh m ≡ or_fresh fresh (find ip m)
unfolding entry_or
entry_or-find ip fresh [] = refl
entry_or-find ip fresh ((k, b) ∷ m) = ground (arith, entry_or-find ip fresh m)

pub find-put :
    (ip j : IpAddr) (b : TokenBucket) (m : Buckets)
    → find j (put ip b m) ≡ (if ip_eq ip j then some b else find j m)
unfolding put
find-put ip j b [] = refl
find-put ip j b ((k, c) ∷ m) =
    ground (arith, ip_eq_iff ip j, ip_eq_iff k ip, ip_eq_iff k j, find-put ip j b m)

-- No address stands twice.
abbrev pub Absent : IpAddr → Buckets → Type 0
Absent ip [] = Unit {0}
Absent ip ((k, b) ∷ m) = (ip_eq k ip ≡ false) × Absent ip m

abbrev pub Distinct : Buckets → Type 0
Distinct [] = Unit {0}
Distinct ((k, b) ∷ m) = Absent k m × Distinct m

ip_eq_sym : (a b : IpAddr) → ip_eq a b ≡ false → ip_eq b a ≡ false
ip_eq_sym a b h = ground (arith, ip_eq_iff a b, ip_eq_iff b a)

put-Absent :
    (ip j : IpAddr) (b : TokenBucket) (m : Buckets)
    → ip_eq ip j ≡ false
    → Absent j m
    → Absent j (put ip b m)
unfolding put
put-Absent ip j b [] h a = (h, tt)
put-Absent ip j b ((k, c) ∷ m) h a = ground (arith, put-Absent ip j b m h a.1)

pub put-Distinct :
    (ip : IpAddr) (b : TokenBucket) (m : Buckets) → Distinct m → Distinct (put ip b m)
unfolding put
put-Distinct ip b [] d = (tt, tt)
put-Distinct ip b ((k, c) ∷ m) d = elim (Bool-cases (ip_eq k ip)) [
  | inl e ↦ let same : k ≡ ip = (ip_eq_iff k ip).0 e in rw e (subst (λ j. Absent j m) same d.0, d.1)
  | inr e ↦ rw e (put-Absent ip k b m (ip_eq_sym k ip e) d.0, put-Distinct ip b m d.1)
]

retain_seen-Absent :
    (ip : IpAddr) (cutoff : ℕ) (m : Buckets) → Absent ip m → Absent ip (retain_seen cutoff m)
unfolding retain_seen
retain_seen-Absent ip cutoff [] a = tt
retain_seen-Absent ip cutoff ((k, b) ∷ m) a = ground (arith, retain_seen-Absent ip cutoff m a.1)

pub retain_seen-Distinct : (cutoff : ℕ) (m : Buckets) → Distinct m → Distinct (retain_seen cutoff m)
unfolding retain_seen
retain_seen-Distinct cutoff [] d = tt
retain_seen-Distinct cutoff ((k, b) ∷ m) d =
    ground (arith, retain_seen-Absent k cutoff m d.0, retain_seen-Distinct cutoff m d.1)

entry_or-Absent :
    (ip : IpAddr) (fresh : TokenBucket) (m : Buckets) → Absent ip m → entry_or ip fresh m ≡ fresh
unfolding entry_or
entry_or-Absent ip fresh [] a = refl
entry_or-Absent ip fresh ((k, b) ∷ m) a = ground (arith, entry_or-Absent ip fresh m a.1)

-- What is left under an address after an eviction: its bucket if that was seen since the cutoff.
pub entry_or-retain_seen :
    (ip : IpAddr) (fresh : TokenBucket) (cutoff : ℕ) (m : Buckets)
    → Distinct m
    → entry_or ip fresh (retain_seen cutoff m)
      ≡ (if leb cutoff (entry_or ip fresh m).last_seen_ms then entry_or ip fresh m else fresh)
unfolding entry_or retain_seen
entry_or-retain_seen ip fresh cutoff [] d = ground arith
entry_or-retain_seen ip fresh cutoff ((k, b) ∷ m) d = elim (Bool-cases (ip_eq k ip)) [
  | inl e ↦
      let gone = entry_or-Absent ip fresh m (subst (λ j. Absent j m) ((ip_eq_iff k ip).0 e) d.0) in
      ground (arith, gone, entry_or-retain_seen ip fresh cutoff m d.1)
  | inr e ↦ ground (arith, entry_or-retain_seen ip fresh cutoff m d.1)
]

pub length-retain_seen : (cutoff : ℕ) (m : Buckets) → length (retain_seen cutoff m) ≤ length m
unfolding retain_seen
length-retain_seen cutoff [] = omega arith
length-retain_seen cutoff ((k, b) ∷ m) = ground (arith, length-retain_seen cutoff m)
