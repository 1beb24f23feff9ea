-- ===== src/Audio/Buffer.antt =====
-- `prepare_audio_buffer` of src/inference/audio.rs loses and reorders no sample.
use native.Mathlib.Decide.{dec_lt}
use monnok_gigastt.Base.{
  false, ℕ, ◌+◌, ◌-◌, ◌*◌, ◌≤◌, ◌<◌, ◌≡◌, refl, sym, ◌∙◌, ap, ltb→lt, ◌⊎◌, inl, inr, Bool-cases,
  ◌==◌, ltb, Option, none, some, List, [], ◌∷◌, ◌++◌, append-nil, append_assoc, arith, length, take,
  take-append-drop, length-take, length-drop, length-append,
}
use monnok_gigastt.Audio.{
  n_fft, hop_length, max_buffer_samples, num_frames, usable_samples, keep_newest, split_usable,
  prepare_audio_buffer,
}

-- The usable part is the largest number of whole frames: it ends with a frame, and less than a hop is
-- left over.
usable_samples_lem :
    (n : ℕ)
    → n_fft ≤ n
    → (usable_samples n ≤ n)
      × (n < usable_samples n + hop_length)
      × (n_fft ≤ usable_samples n)
      × (usable_samples n ≡ (num_frames (usable_samples n) - 1) * hop_length + n_fft)
unfolding usable_samples num_frames
usable_samples_lem n h = ground arith

usable_samples-zero : (n : ℕ) → n < n_fft → usable_samples n ≡ 0
unfolding usable_samples
usable_samples-zero n h = ground arith

module _ {ℓ} {A : Type ℓ} where
  abbrev pub usable_of : Option (List A) → List A
  usable_of none = []
  usable_of (some frames) = frames

  joined :
      (first all end left rest buffer chunk : List A)
      → all ++ end ≡ left ++ rest
      → first ++ left ≡ buffer ++ chunk
      → (first ++ all) ++ end ≡ buffer ++ (chunk ++ rest)
  joined first all end left rest buffer chunk e f =
      append_assoc first all end
      ∙ ap (λ xs. first ++ xs) e
      ∙ sym (append_assoc first left rest)
      ∙ ap (λ xs. xs ++ rest) f
      ∙ append_assoc buffer chunk rest

  -- What one call is to do with the samples that it keeps.
  abbrev pub Splits : List A → Option (List A) × List A → Type ℓ
  Splits kept (none, left) = (left ≡ kept) × (length kept < n_fft)
  Splits kept (some frames, left) =
      (frames ++ left ≡ kept)
      × (length left < hop_length)
      × (n_fft ≤ length frames)
      × (length frames ≡ (num_frames (length frames) - 1) * hop_length + n_fft)

  split_usable-Splits : (kept : List A) → Splits kept (split_usable kept)
  unfolding split_usable
  split_usable-Splits kept = elim (dec_lt (length kept) n_fft) [
    | yes h ↦ rw (usable_samples-zero (length kept) h) (refl, h)
    | no h ↦
        let (fits, near, some_frame, whole) = usable_samples_lem (length kept) (omega arith) in
        let usable = usable_samples (length kept) in
        let length_usable : length (take usable kept) ≡ usable =
          omega (arith, length-take usable kept) in
        let there : (usable == 0) ≡ false = ground arith in
        rw there (
          take-append-drop usable kept,
          omega (arith, length-drop usable kept),
          omega arith,
          rw length_usable whole,
        )
  ]

  -- With less than a frame everything is kept for the next call. Otherwise the samples are split, with
  -- nothing lost and in order, into whole frames, of which `compute` counts as many, and a rest of
  -- less than a hop. What is split are the leftover and the new samples, the newest five seconds
  -- of them.
  pub prepare_audio_buffer-Splits :
      (new_samples buffer : List A)
      → Splits (keep_newest (buffer ++ new_samples)) (prepare_audio_buffer new_samples buffer)
  unfolding prepare_audio_buffer
  prepare_audio_buffer-Splits new_samples buffer =
      split_usable-Splits (keep_newest (buffer ++ new_samples))

  -- The buffer never holds more than five seconds, and nothing is cut below that.
  pub keep_newest_lem :
      (xs : List A)
      → (length (keep_newest xs) ≤ max_buffer_samples)
        × ((length xs ≤ max_buffer_samples) ⊎ (length (keep_newest xs) ≡ max_buffer_samples))
        × ((keep_newest xs ≡ xs) ⊎ (max_buffer_samples < length xs))
  unfolding keep_newest
  keep_newest_lem xs = elim (Bool-cases (ltb max_buffer_samples (length xs))) [
    | inl e ↦
        let cut = length-drop (length xs - max_buffer_samples) xs in
        let over = ltb→lt max_buffer_samples (length xs) e in
        rw e (omega (arith, cut), inr (omega (arith, cut)), inr over)
    | inr e ↦ rw e (ground arith, inl (ground arith), inl refl)
  ]

  -- A stream of chunks through one buffer: all usable samples in order, and the last buffer.
  pub stream : List A → List (List A) → List A × List A
  stream buffer [] = ([], buffer)
  stream buffer (chunk ∷ chunks) =
      let (o, left) = prepare_audio_buffer chunk buffer in
      let (all, end) = stream left chunks in (usable_of o ++ all, end)

  abbrev pub flat : List (List A) → List A
  flat [] = []
  flat (c ∷ cs) = c ++ flat cs

  abbrev pub Small : List (List A) → Type 0
  Small [] = Unit {0}
  Small (c ∷ cs) = (length c + n_fft ≤ max_buffer_samples) × Small cs

  pub short_left :
      (kept : List A) (o : Option (List A)) (left : List A)
      → Splits kept (o, left)
      → (usable_of o ++ left ≡ kept) × (length left < n_fft)
  short_left kept none left s = (s.0, rw s.0 s.1)
  short_left kept (some frames) left s = (s.0, omega arith)

  -- No sample of a stream is lost, doubled or moved: the frames that the calls hand out, followed by
  -- the last leftover, are the first leftover followed by all chunks. This is so if the first leftover
  -- is shorter than a window (`n_fft`) and each chunk is by a window or more shorter than five seconds.
  pub stream_lem :
      (chunks : List (List A)) (buffer : List A)
      → length buffer < n_fft
      → Small chunks
      → let (all, end) = stream buffer chunks in
        (all ++ end ≡ buffer ++ flat chunks) × (length end < n_fft)
  unfolding stream
  stream_lem [] buffer h s = (rw append-nil, h)
  stream_lem (chunk ∷ chunks) buffer h s =
      let r = prepare_audio_buffer chunk buffer in
      let (_, _, same) = keep_newest_lem (buffer ++ chunk) in
      let uncut : keep_newest (buffer ++ chunk) ≡ buffer ++ chunk = elim same [
        | inl e ↦ e
        | inr e ↦ absurd (omega (arith, length-append buffer chunk))
      ] in
      let (parts, short) =
        short_left (keep_newest (buffer ++ chunk)) r.0 r.1
          (prepare_audio_buffer-Splits chunk buffer) in
      let (rest, last) = stream_lem chunks r.1 short s.1 in
      (
        joined (usable_of r.0) (stream r.1 chunks).0 (stream r.1 chunks).1 r.1 (flat chunks) buffer
            chunk rest (parts ∙ uncut),
        last,
      )
