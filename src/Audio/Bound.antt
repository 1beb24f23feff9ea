-- ===== src/Audio/Bound.antt =====
-- The duration cap of `decode_audio_inner` in src/inference/audio.rs: how many samples its loop collects.
use monnok_gigastt.Base.{
  ℕ, zero, suc, ◌+◌, ◌*◌, ◌≤◌, ◌<◌, ◌≡◌, refl, ap, ltb, ◌==◌, Bool-cases, inl, inr, some,
  Option-cases, List, [], ◌∷◌, ◌++◌, length, length-append, arith, not_ltb, ltb→lt,
}
use monnok_gigastt.Audio.Mix.{Floats, AudioBuffer, averages, mono, IsShaped, mix_mono_lem}
use monnok_gigastt.Audio.Decode.{
  Read, packet, read_error, Symphonia, Decoded, decoded, refused, decode_panicked, too_long,
  cannot_open, unsupported_format, no_track, unknown_rate, unsupported_codec, packet_error,
  decode_error, resampling_failed, max_samples, check_cap, decode_packets,
}

length-averages : (f32 : Floats) (ch n : ℕ) (xs : List ℕ) → length (averages f32 ch n xs) ≡ n
unfolding averages
length-averages f32 ch zero xs = refl
length-averages f32 ch (suc n) xs = ap suc (length-averages f32 ch n _)

length-mono : (f32 : Floats) (b : AudioBuffer) → IsShaped b → length (mono f32 b) ≤ b.num_frames
unfolding mono
length-mono f32 b s = elim (Bool-cases (ltb 1 b.channels)) [
  | inl e ↦ rw e (omega (arith, length-averages f32 b.channels b.num_frames b.samples))
  | inr e ↦ rw e (few b.channels (not_ltb _ _ e) s)
]
  where
    few : (c : ℕ) → c ≤ 1 → length b.samples ≡ b.num_frames * c → length b.samples ≤ b.num_frames
    few zero h k = omega (arith, k)
    few (suc zero) h k = omega (arith, k)
    few (suc (suc c)) h k = absurd (omega arith)

-- What the loop ends with: at most the cap, or an error that names at most the cap and a packet.
abbrev pub IsBounded : (rate m : ℕ) → Decoded → Type 0
IsBounded rate m (decoded samples) = length samples ≤ max_samples rate
IsBounded rate m (refused (too_long n at)) = (max_samples rate < n) × (n ≤ max_samples rate + m)
IsBounded rate m (refused cannot_open) = Unit
IsBounded rate m (refused unsupported_format) = Unit
IsBounded rate m (refused no_track) = Unit
IsBounded rate m (refused unknown_rate) = Unit
IsBounded rate m (refused unsupported_codec) = Unit
IsBounded rate m (refused packet_error) = Unit
IsBounded rate m (refused decode_error) = Unit
IsBounded rate m (refused resampling_failed) = Unit
IsBounded rate m decode_panicked = ⊥

module _ {P D : Type 0} (f32 : Floats) (symphonia : Symphonia P D) (m : ℕ)
    (fits : (d : D) (p : P) (b : AudioBuffer)
      → (symphonia.decode d p).0 ≡ some b
      → IsShaped b × (b.num_frames ≤ m)) where
  check_cap-IsBounded :
      (rate : ℕ) (next : List ℕ → Decoded) (acc new : List ℕ)
      → length acc ≤ max_samples rate
      → length new ≤ m
      → ((all : List ℕ) → length all ≤ max_samples rate → IsBounded rate m (next all))
      → IsBounded rate m (check_cap rate next acc (some new))
  check_cap-IsBounded rate next acc new h l f =
      elim (Bool-cases (ltb (max_samples rate) (length (acc ++ new)))) [
        | inl e ↦ rw e (ltb→lt _ _ e, omega (arith, length-append acc new))
        | inr e ↦ rw e (f (acc ++ new) (not_ltb _ _ e))
      ]

  -- Where each packet is decoded to a buffer that has its frames and channels, and at most `m` frames,
  -- the loop never panics, whatever the packets, their tracks and their errors: it gives at most ten
  -- minutes of samples, and the number that an error for the length names is over ten minutes by one
  -- packet at most.
  pub decode_packets-IsBounded :
      (track_id rate : ℕ) (reads : List (Read P)) (d : D) (acc : List ℕ)
      → length acc ≤ max_samples rate
      → IsBounded rate m (decode_packets f32 symphonia track_id rate reads d acc)
  unfolding decode_packets
  decode_packets-IsBounded i rate [] d acc h = h
  decode_packets-IsBounded i rate (read_error ∷ reads) d acc h = tt
  decode_packets-IsBounded i rate (packet t p ∷ reads) d acc h = elim (Bool-cases (t == i)) [
    | inr e ↦ rw e (decode_packets-IsBounded i rate reads d acc h)
    | inl e ↦ rw e (elim (Option-cases (symphonia.decode d p).0) [
      | inl n ↦ rw n tt
      | inr (b, o) ↦
          rw (o, mix_mono_lem f32 b (fits d p b o).0)
            (check_cap-IsBounded rate
              (decode_packets f32 symphonia i rate reads (symphonia.decode d p).1) acc (mono f32 b)
              h (omega (arith, length-mono f32 b (fits d p b o).0, (fits d p b o).1))
              (λ all k. decode_packets-IsBounded i rate reads (symphonia.decode d p).1 all k))
    ])
  ]
