-- ===== src/Audio/Cache.antt =====
-- The resampler that a stream keeps in src/inference/audio.rs: when `resample_with_cache` is right to use
-- it again.
use monnok_gigastt.Base.{
  ℕ, ◌≡◌, ◌≢◌, refl, sym, ◌∙◌, Bool, true, false, ◌==◌, ◌⊎◌, Option, none, some, List, [], ◌∷◌,
  length, Bool-cases, inl, inr, ==-false, map, subst,
}
use monnok_gigastt.Audio.Resample.{
  Rubato, Resampled, resampled_to, init_failed, sanitize, is_trivial, removed_first,
  first_or_default, process_once, resample, process_with, process_new, process_cached, from_cache,
  resample_with_cache, resample_stream,
}

is_trivial-false : (x : ℕ) (xs : List ℕ) (a b : ℕ) → a ≢ 0 → b ≢ 0 → is_trivial (x ∷ xs) a b ≡ false
unfolding is_trivial
is_trivial-false x xs a b h k = rw (==-false a 0 h, ==-false b 0 k) refl

module _ {R : Type 0} (rubato : Rubato R) where
  -- With nothing in the cache both functions do the same, provided that the resampler always gives a
  -- channel.
  pub resample_with_cache-resample :
      (samples : List ℕ) (from_rate to_rate : ℕ)
      → ((r : R) (xs : List ℕ) → (rubato.process r xs).0 ≢ some [])
      → (resample_with_cache rubato samples from_rate to_rate none).0
        ≡ resample rubato samples from_rate to_rate
  unfolding resample_with_cache resample
  resample_with_cache-resample samples a b h = elim (Bool-cases (is_trivial samples a b)) [
    | inl t ↦ rw t refl
    | inr t ↦ elim (Bool-cases (a == b)) [
      | inl e ↦ rw (t, e) refl
      | inr e ↦
          rw (t, e) (created_once (rubato.create (rubato.quotient b a) (length (sanitize samples))))
    ]
  ]
    where
      once : (o : Option (List (List ℕ))) → o ≢ some [] → first_or_default o ≡ removed_first o
      once none ne = refl
      once (some []) ne = absurd (ne refl)
      once (some (w ∷ ws)) ne = refl

      created_once :
          (o : Option R)
          → (process_new rubato (sanitize samples) none o).0
            ≡ process_once rubato (sanitize samples) o
      created_once none = refl
      created_once (some r) = once (rubato.process r (sanitize samples)).0 (h r (sanitize samples))

  -- A call that goes to the resampler.
  step :
      (x : ℕ) (xs : List ℕ) (a b : ℕ) (cache : Option R)
      → a ≢ 0
      → b ≢ 0
      → a ≢ b
      → resample_with_cache rubato (x ∷ xs) a b cache
        ≡ from_cache rubato
            (sanitize (x ∷ xs))
            (rubato.create (rubato.quotient b a) (length (sanitize (x ∷ xs))))
            cache
  unfolding resample_with_cache
  step x xs a b cache h k l = rw (is_trivial-false x xs a b h k, ==-false a b l) refl

  -- A resampler that accepts the length of the chunk is used at whatever rate it was made for: the
  -- result, and the cache, are the same for any two rates that the chunk may have.
  pub resample_with_cache_stale :
      (r : R) (x : ℕ) (xs : List ℕ) (from_rate other_rate to_rate : ℕ)
      → (rubato.set_chunk_size r (length (sanitize (x ∷ xs)))).0 ≡ true
      → from_rate ≢ 0
      → other_rate ≢ 0
      → to_rate ≢ 0
      → from_rate ≢ to_rate
      → other_rate ≢ to_rate
      → resample_with_cache rubato (x ∷ xs) from_rate to_rate (some r)
        ≡ resample_with_cache rubato (x ∷ xs) other_rate to_rate (some r)
  resample_with_cache_stale r x xs a a' b ok h h' k l l' =
      step x xs a b (some r) h k l
      ∙ go (rubato.set_chunk_size r (length (sanitize (x ∷ xs)))) ok
      ∙ sym (step x xs a' b (some r) h' k l')
    where
      go :
          (p : Bool × R)
          → p.0 ≡ true
          → process_cached rubato
              (sanitize (x ∷ xs))
              (rubato.create (rubato.quotient b a) (length (sanitize (x ∷ xs))))
              p
            ≡ process_cached rubato
                (sanitize (x ∷ xs))
                (rubato.create (rubato.quotient b a') (length (sanitize (x ∷ xs))))
                p
      go (true, r') e = refl
      go (false, r') e = cc

module _ {R : Type 0} (rubato : Rubato R) (ratio_of : R → ℕ) where
  abbrev pub IsRated : ℕ → Option R → Type 0
  IsRated q none = Unit
  IsRated q (some r) = ratio_of r ≡ q

  -- The result for a chunk is that of a resampler of ratio `q`, if one could be made.
  abbrev pub IsAtRatio : ℕ → List ℕ → Resampled → Type 0
  IsAtRatio q samples out =
      (samples ≡ []) × (out ≡ resampled_to [])
      ⊎ (out ≡ init_failed)
      ⊎ ((r : R) × (ratio_of r ≡ q)
          × (out ≡ first_or_default (rubato.process r (sanitize samples)).0))

  abbrev pub AllAtRatio : ℕ → List (List ℕ) → List Resampled → Type 0
  AllAtRatio q [] [] = Unit
  AllAtRatio q [] (out ∷ outs) = ⊥
  AllAtRatio q (samples ∷ chunks) [] = ⊥
  AllAtRatio q (samples ∷ chunks) (out ∷ outs) = IsAtRatio q samples out × AllAtRatio q chunks outs

  -- What a resampler was made for, it never loses.
  module _ (created : (q n : ℕ) (r : R) → rubato.create q n ≡ some r → ratio_of r ≡ q)
      (resized : (r : R) (n : ℕ) → ratio_of (rubato.set_chunk_size r n).1 ≡ ratio_of r)
      (processed : (r : R) (xs : List ℕ) → ratio_of (rubato.process r xs).1 ≡ ratio_of r) where
    abbrev Fine : ℕ → List ℕ → Resampled × Option R → Type 0
    Fine q samples (out, cache) = IsAtRatio q samples out × IsRated q cache

    process_with-Fine :
        (q : ℕ) (samples : List ℕ) (r : R)
        → ratio_of r ≡ q
        → Fine q samples (process_with rubato (sanitize samples) r)
    process_with-Fine q samples r e = (inr (inr (r, e, refl)), processed r (sanitize samples) ∙ e)

    process_new-Fine :
        (q n : ℕ) (samples : List ℕ) (cache : Option R)
        → IsRated q cache
        → Fine q samples (process_new rubato (sanitize samples) cache (rubato.create q n))
    process_new-Fine q n samples cache h = go (rubato.create q n) (λ r e. created q n r e)
      where
        go :
            (o : Option R)
            → ((r : R) → o ≡ some r → ratio_of r ≡ q)
            → Fine q samples (process_new rubato (sanitize samples) cache o)
        go none f = (inr (inl refl), h)
        go (some r) f = process_with-Fine q samples r (f r refl)

    from_cache-Fine :
        (q n : ℕ) (samples : List ℕ) (cache : Option R)
        → IsRated q cache
        → Fine q samples (from_cache rubato (sanitize samples) (rubato.create q n) cache)
    from_cache-Fine q n samples none h = process_new-Fine q n samples none tt
    from_cache-Fine q n samples (some r) h =
        go (rubato.set_chunk_size r (length (sanitize samples))) (resized r _ ∙ h)
      where
        go :
            (p : Bool × R)
            → ratio_of p.1 ≡ q
            → Fine q samples (process_cached rubato (sanitize samples) (rubato.create q n) p)
        go (true, r') e = process_with-Fine q samples r' e
        go (false, r') e = process_new-Fine q n samples (some r') e

    call-Fine :
        (samples : List ℕ) (a b : ℕ) (cache : Option R)
        → a ≢ 0
        → b ≢ 0
        → a ≢ b
        → IsRated (rubato.quotient b a) cache
        → Fine (rubato.quotient b a) samples (resample_with_cache rubato samples a b cache)
    unfolding resample_with_cache is_trivial
    call-Fine [] a b cache h k l f = (inl (refl, refl), f)
    call-Fine (x ∷ xs) a b cache h k l f =
        subst (Fine (rubato.quotient b a) (x ∷ xs)) (sym (step rubato x xs a b cache h k l))
          (from_cache-Fine (rubato.quotient b a) (length (sanitize (x ∷ xs))) (x ∷ xs) cache f)

    -- Over a stream whose chunks all have one rate, which is not the target's, with a cache that is
    -- empty or was made for it: each result is empty for an empty chunk, or says that no resampler
    -- could be made, or is the result of a resampler with the ratio of these rates, and the cache
    -- stays good for them. It is assumed that a resampler never loses the ratio it was made with.
    pub resample_stream-AllAtRatio :
        (from_rate to_rate : ℕ) (chunks : List (List ℕ)) (cache : Option R)
        → from_rate ≢ 0
        → to_rate ≢ 0
        → from_rate ≢ to_rate
        → IsRated (rubato.quotient to_rate from_rate) cache
        → let (outs, end) =
            resample_stream rubato to_rate (map (λ s. (s, from_rate)) chunks) cache in
          AllAtRatio (rubato.quotient to_rate from_rate) chunks outs
          × IsRated (rubato.quotient to_rate from_rate) end
    resample_stream-AllAtRatio a b [] cache h k l f = (tt, f)
    resample_stream-AllAtRatio a b (samples ∷ chunks) cache h k l f =
        let (at, f') = call-Fine samples a b cache h k l f in
        let (rest, end) = resample_stream-AllAtRatio a b chunks _ h k l f' in ((at, rest), end)
