-- ===== src/Audio/Resample.antt =====
-- `resample` and `resample_with_cache` of src/inference/audio.rs. The rubato resampler is a parameter:
-- `create` is `SincFixedIn::new` of a ratio and a chunk size, and `set_chunk_size` and `process` say
-- whether they succeed, and leave the resampler changed. A sample is the bit pattern of an `f32`.
use monnok_gigastt.Base.{
  ℕ, ◌/◌, ◌%◌, ◌^◌, Bool, true, false, ◌||◌, not, ◌==◌, if◌then◌else◌, Option, none, some, List, [],
  ◌∷◌, map, length,
}
use monnok_gigastt.Decode.{is_empty}

pub record Rubato (R : Type 0) : Type 0 where
  pub quotient : ℕ → ℕ → ℕ
  pub create : ℕ → ℕ → Option R
  pub set_chunk_size : R → ℕ → Bool × R
  pub process : R → List ℕ → Option (List (List ℕ)) × R

-- `panicked` is `remove(0)` of no channel.
pub data Resampled : Type 0 where
  resampled_to : List ℕ → Resampled
  init_failed process_failed panicked : Resampled

-- `is_finite`: the exponent is not all ones.
abbrev pub is_finite : ℕ → Bool
is_finite bits = not (bits / 2 ^ 23 % 2 ^ 8 == 255)

unfoldable pub sanitize : List ℕ → List ℕ
sanitize samples = map (λ s. if is_finite s then s else 0) samples

-- The first return of both functions: nothing to do, or no rate.
unfoldable pub is_trivial : List ℕ → ℕ → ℕ → Bool
is_trivial samples from_rate to_rate = is_empty samples || from_rate == 0 || to_rate == 0

abbrev pub removed_first : Option (List (List ℕ)) → Resampled
removed_first none = process_failed
removed_first (some []) = panicked
removed_first (some (wave ∷ waves)) = resampled_to wave

abbrev pub first_or_default : Option (List (List ℕ)) → Resampled
first_or_default none = process_failed
first_or_default (some []) = resampled_to []
first_or_default (some (wave ∷ waves)) = resampled_to wave

module _ {R : Type 0} (rubato : Rubato R) where
  abbrev pub process_once : List ℕ → Option R → Resampled
  process_once samples none = init_failed
  process_once samples (some r) = removed_first (rubato.process r samples).0

  unfoldable pub resample : List ℕ → ℕ → ℕ → Resampled
  unfolding is_trivial
  resample samples from_rate to_rate =
      if is_trivial samples from_rate to_rate
      then resampled_to []
      else if from_rate == to_rate
      then resampled_to samples
      else process_once (sanitize samples)
          (rubato.create (rubato.quotient to_rate from_rate) (length (sanitize samples)))

  abbrev pub process_with : List ℕ → R → Resampled × Option R
  process_with samples r =
      let (out, r') = rubato.process r samples in (first_or_default out, some r')

  -- A new resampler; the old one stays in the cache if there is none.
  abbrev pub process_new : List ℕ → Option R → Option R → Resampled × Option R
  process_new samples cache none = (init_failed, cache)
  process_new samples cache (some r) = process_with samples r

  abbrev pub process_cached : List ℕ → Option R → Bool × R → Resampled × Option R
  process_cached samples created (true, r) = process_with samples r
  process_cached samples created (false, r) = process_new samples (some r) created

  abbrev pub from_cache : List ℕ → Option R → Option R → Resampled × Option R
  from_cache samples created none = process_new samples none created
  from_cache samples created (some r) =
      process_cached samples created (rubato.set_chunk_size r (length samples))

  -- The result, and the cache after the call.
  unfoldable pub resample_with_cache : List ℕ → ℕ → ℕ → Option R → Resampled × Option R
  resample_with_cache samples from_rate to_rate cache =
      if is_trivial samples from_rate to_rate
      then (resampled_to [], cache)
      else if from_rate == to_rate
      then (resampled_to samples, cache)
      else from_cache (sanitize samples)
          (rubato.create (rubato.quotient to_rate from_rate) (length (sanitize samples))) cache

  -- The chunks of a stream, each at the rate that comes with it.
  abbrev pub resample_stream : ℕ → List (List ℕ × ℕ) → Option R → List Resampled × Option R
  resample_stream to_rate [] cache = ([], cache)
  resample_stream to_rate ((samples, from_rate) ∷ chunks) cache =
      let (out, cache') = resample_with_cache samples from_rate to_rate cache in
      let (outs, end) = resample_stream to_rate chunks cache' in (out ∷ outs, end)
