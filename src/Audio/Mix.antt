-- ===== src/Audio/Mix.antt =====
-- The mix to mono in the loop of `decode_audio_inner` of src/inference/audio.rs. The `f32` operations,
-- on bit patterns, are parameters.
use native.Mathlib.Nat.{suc-mul, zero-add, suc-add, add-suc, add-mul, zero-mul}
use mathlib.Core.Option.{bind}
use mathlib.Core.Option
use monnok_gigastt.Base.{
  ℕ, zero, suc, ◌+◌, ◌*◌, ◌≤◌, ◌<◌, ◌≡◌, refl, sym, ◌∙◌, ltb, if◌then◌else◌, Option, some, List, [],
  ◌∷◌, get_elem?, length, take, drop, arith, subst, Bool-cases, inl, inr,
}

-- `sum + sample`, and `sum / ch as f32`.
pub record Floats : Type 0 where
  pub add : ℕ → ℕ → ℕ
  pub divide : ℕ → ℕ → ℕ

-- What the decoder makes of a packet: its channels, frames and interleaved samples.
pub record AudioBuffer : Type 0 where
  pub channels : ℕ
  pub num_frames : ℕ
  pub samples : List ℕ

module _ (f32 : Floats) where
  -- The inner loop, from the sample at `i` on. An index out of range is a panic, `none`.
  unfoldable pub sum_from : List ℕ → ℕ → ℕ → ℕ → Option ℕ
  sum_from samples zero i sum = some sum
  sum_from samples (suc c) i sum =
      bind (get_elem? samples i) (λ x. sum_from samples c (suc i) (f32.add sum x))

  -- The loop over the frames, from `frame` on.
  unfoldable pub mix_from : List ℕ → ℕ → ℕ → ℕ → Option (List ℕ)
  mix_from samples ch zero frame = some []
  mix_from samples ch (suc n) frame =
      let rest = mix_from samples ch n (suc frame) in
      bind (sum_from samples ch (frame * ch) 0)
        (λ sum. Option.map (λ mixed. f32.divide sum ch ∷ mixed) rest)

  -- What one decoded packet adds to the samples.
  unfoldable pub mix_mono : AudioBuffer → Option (List ℕ)
  mix_mono b =
      if ltb 1 b.channels then mix_from b.samples b.channels b.num_frames 0 else some b.samples

  abbrev pub added : ℕ → List ℕ → ℕ
  added sum [] = sum
  added sum (x ∷ xs) = added (f32.add sum x) xs

  -- The average of each group of `ch` samples, `n` times.
  unfoldable pub averages : ℕ → ℕ → List ℕ → List ℕ
  averages ch zero xs = []
  averages ch (suc n) xs = f32.divide (added 0 (take ch xs)) ch ∷ averages ch n (drop ch xs)

  -- The mono samples of a packet, without an index.
  unfoldable pub mono : AudioBuffer → List ℕ
  mono b = if ltb 1 b.channels then averages b.channels b.num_frames b.samples else b.samples

-- A decoder gives as many samples as its frames and channels say.
abbrev pub IsShaped : AudioBuffer → Type 0
IsShaped b = length b.samples ≡ b.num_frames * b.channels

get_elem?-drop {ℓ} :
    {A : Type ℓ} (xs : List A) (i : ℕ)
    → i < length xs
    → (x : A) × (get_elem? xs i ≡ some x) × (drop i xs ≡ x ∷ drop (suc i) xs)
get_elem?-drop [] i h = absurd (omega arith)
get_elem?-drop (x ∷ xs) zero h = (x, refl, refl)
get_elem?-drop (x ∷ xs) (suc i) h = get_elem?-drop xs i (omega arith)

drop-drop {ℓ} : {A : Type ℓ} (m n : ℕ) (xs : List A) → drop m (drop n xs) ≡ drop (n + m) xs
drop-drop m zero xs = rw (zero-add m) refl
drop-drop zero (suc n) [] = rw (suc-add n zero) refl
drop-drop (suc m) (suc n) [] = rw (suc-add n (suc m)) refl
drop-drop m (suc n) (x ∷ xs) = rw (suc-add n m) (drop-drop m n xs)

next_frame : (frame n ch : ℕ) → (frame + suc n) * ch ≡ frame * ch + ch + n * ch
next_frame frame n ch = omega (arith, add-mul frame (suc n) ch, suc-mul n ch)

module _ (f32 : Floats) where
  sum_from_lem :
      (samples : List ℕ) (c i sum : ℕ)
      → i + c ≤ length samples
      → sum_from f32 samples c i sum ≡ some (added f32 sum (take c (drop i samples)))
  unfolding sum_from bind
  sum_from_lem samples zero i sum h = refl
  sum_from_lem samples (suc c) i sum h =
      let (x, e, d) = get_elem?-drop samples i (omega arith) in
      rw (e, d, sum_from_lem samples c (suc i) (f32.add sum x) (omega arith)) refl

  mix_from_lem :
      (samples : List ℕ) (ch n frame : ℕ)
      → (frame + n) * ch ≤ length samples
      → mix_from f32 samples ch n frame ≡ some (averages f32 ch n (drop (frame * ch) samples))
  unfolding mix_from averages bind
  mix_from_lem samples ch zero frame h = refl
  mix_from_lem samples ch (suc n) frame h =
      rw
        (
          sum_from_lem samples ch (frame * ch) 0 (omega (arith, next_frame frame n ch)),
          mix_from_lem samples ch n (suc frame)
              (subst (λ k. k * ch ≤ length samples) (add-suc frame n ∙ sym (suc-add frame n)) h),
          drop-drop ch (frame * ch) samples,
          suc-mul frame ch,
        )
        refl

  all_frames :
      (samples : List ℕ) (ch n : ℕ)
      → n * ch ≤ length samples
      → mix_from f32 samples ch n 0 ≡ some (averages f32 ch n samples)
  all_frames samples ch n h =
      subst (λ k. mix_from f32 samples ch n 0 ≡ some (averages f32 ch n (drop k samples)))
        (zero-mul ch)
        (mix_from_lem samples ch n 0 (subst (λ k. k * ch ≤ length samples) (sym (zero-add n)) h))

  -- The loops over frames and channels never leave a buffer that has its frames and channels, and
  -- put the average of each frame after the other.
  pub mix_mono_lem : (b : AudioBuffer) → IsShaped b → mix_mono f32 b ≡ some (mono f32 b)
  unfolding mix_mono mono
  mix_mono_lem b h = elim (Bool-cases (ltb 1 b.channels)) [
    | inl e ↦ rw e (all_frames b.samples b.channels b.num_frames (omega (arith, h)))
    | inr e ↦ rw e refl
  ]
