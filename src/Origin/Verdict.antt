-- ===== src/Origin/Verdict.antt =====
-- Which origins src/server/mod.rs lets in.
use monnok_gigastt.Base.{
  ◌≡◌, refl, ◌↔◌, ◌⊎◌, inl, inr, Bool, true, false, ◌||◌, Bool-cases, if◌then◌else◌, Option, none,
  some, List, [], ◌∷◌, ◌++◌, arith,
}
use monnok_gigastt.Words.{Text}
use monnok_gigastt.Origin.{
  OriginPolicy, allowed_no_echo, allowed, denied, to_ascii_lowercase, eq_ignore_ascii_case,
  strip_prefix, ends_host, host_prefixes, any_host, is_loopback_origin, any_listed, null_text,
  evaluate,
}

-- The text starts with one of the prefixes, and a colon, a slash or nothing follows.
abbrev pub HostEnds : Text → Type 0
HostEnds [] = Unit {0}
HostEnds (c ∷ rest) = (c ≡ b':') ⊎ (c ≡ b'/')

abbrev pub HasHost : List Text → Text → Type 0
HasHost [] s = ⊥
HasHost (p ∷ ps) s = ((rest : Text) × (s ≡ p ++ rest) × HostEnds rest) ⊎ HasHost ps s

strip_prefix-append : (p rest : Text) → strip_prefix p (p ++ rest) ≡ some rest
unfolding strip_prefix
strip_prefix-append [] rest = refl
strip_prefix-append (c ∷ p) rest = ground (arith, strip_prefix-append p rest)

strip_prefix-some : (p s rest : Text) → strip_prefix p s ≡ some rest → s ≡ p ++ rest
unfolding strip_prefix
strip_prefix-some [] s rest h = ground arith
strip_prefix-some (c ∷ p) [] rest h = ground arith
strip_prefix-some (c ∷ p) (d ∷ s) rest h = ground (arith, strip_prefix-some p s rest)

ends_host-some :
    (o : Option Text) → ends_host o ≡ true → (rest : Text) × (o ≡ some rest) × HostEnds rest
ends_host-some none h = cc
ends_host-some (some []) h = ([], refl, tt)
ends_host-some (some (c ∷ rest)) h = (c ∷ rest, refl, ground arith)

ends_host-true : (rest : Text) → HostEnds rest → ends_host (some rest) ≡ true
ends_host-true [] h = refl
ends_host-true (c ∷ rest) h = ground arith

any_host-HasHost : (ps : List Text) (s : Text) → any_host ps s ≡ true → HasHost ps s
unfolding any_host
any_host-HasHost [] s h = cc
any_host-HasHost (p ∷ ps) s h = elim (Bool-cases (ends_host (strip_prefix p s))) [
  | inl e ↦
      let (rest, f, k) = ends_host-some (strip_prefix p s) e in
      inl (rest, strip_prefix-some p s rest f, k)
  | inr e ↦ inr (any_host-HasHost ps s (rw e at h))
]

HasHost-any_host : (ps : List Text) (s : Text) → HasHost ps s → any_host ps s ≡ true
unfolding any_host
HasHost-any_host [] s h = absurd h
HasHost-any_host (p ∷ ps) s (inl (rest, e, k)) =
    let found : ends_host (strip_prefix p s) ≡ true =
      rw (e, strip_prefix-append p rest) (ends_host-true rest k) in
    rw found refl
HasHost-any_host (p ∷ ps) s (inr h) = ground (arith, HasHost-any_host ps s h)

-- A request with an origin is refused exactly if the origin is not "null", the policy does not allow
-- all, no entry of its list is the origin, and the origin does not name a loopback host: one of
-- the six prefixes with nothing, a colon or a slash behind it. Case does not count.
pub evaluate_iff :
    (policy : OriginPolicy) (origin : Text)
    → (evaluate policy (some origin) ≡ denied) ↔ (
        (eq_ignore_ascii_case origin null_text ≡ false)
        × (policy.allow_any ≡ false)
        × (¬ HasHost host_prefixes (to_ascii_lowercase origin))
        × (any_listed policy.allowed_origins origin ≡ false))
unfolding evaluate is_loopback_origin
evaluate_iff policy origin =
    let lowered = to_ascii_lowercase origin in
    let found = HasHost-any_host host_prefixes lowered in
    let host = any_host-HasHost host_prefixes lowered in
    go (eq_ignore_ascii_case origin null_text) policy.allow_any (any_host host_prefixes lowered)
      (any_listed policy.allowed_origins origin) found host
  where
    go :
        (null any loopback listed : Bool)
        → (HasHost host_prefixes (to_ascii_lowercase origin) → loopback ≡ true)
        → (loopback ≡ true → HasHost host_prefixes (to_ascii_lowercase origin))
        → ((if null
              then allowed_no_echo
              else if any || loopback
              then allowed origin
              else if listed
              then allowed origin
              else denied)
            ≡ denied)
          ↔ ((null ≡ false)
              × (any ≡ false)
              × (¬ HasHost host_prefixes (to_ascii_lowercase origin))
              × (listed ≡ false))
    go true any loopback listed f g = ((λ h. cc), (λ h. cc))
    go false true loopback listed f g = ((λ h. cc), (λ h. cc))
    go false false true listed f g = ((λ h. cc), (λ h. absurd (h.2 (g refl))))
    go false false false true f g = ((λ h. cc), (λ h. cc))
    go false false false false f g =
        ((λ h. (refl, refl, (λ k. ground (arith, f k)), refl)), (λ h. refl))
