-- ===== src/Audio/Tests.antt =====
-- Concrete runs of src/inference/audio.rs.
use mathlib.Core.Option.{bind}
use monnok_gigastt.Base.{
  ℕ, ◌+◌, ◌<◌, ◌≡◌, ◌++◌, some, List, [], ◌∷◌, arith, length, none, ◌==◌, refl, ◌*◌, ◌/◌, map,
  Option, ◌≤◌, subst,
}
use monnok_gigastt.Audio.{n_fft}
use monnok_gigastt.Audio.Mix.{
  Floats, AudioBuffer, averages, mono, IsShaped, mix_mono, mix_from, sum_from,
}
use monnok_gigastt.Audio.Resample.{
  Rubato, resample_with_cache, resample_stream, sanitize, resample, is_trivial,
}
use monnok_gigastt.Audio.Cache.{
  AllAtRatio, IsRated, resample_with_cache_stale, resample_stream-AllAtRatio,
}
use monnok_gigastt.Audio.Decode.{
  Read, packet, Symphonia, decoded, decode_packets, decode_audio_bytes, decode_audio_bytes_shared,
  decode_audio_inner, to_16k,
}
use monnok_gigastt.Audio.Whole.{IsRead, IsWhole, decode_packets-IsWhole}
use monnok_gigastt.Audio.Bound.{IsBounded, decode_packets-IsBounded}
use monnok_gigastt.Audio.Buffer.{stream, flat, stream_lem}

abbrev chunks : List (List ℕ)
chunks = (3 ∷ 4 ∷ []) ∷ (5 ∷ []) ∷ []

stream_lem_example :
    ((stream (1 ∷ 2 ∷ []) chunks).0 ++ (stream (1 ∷ 2 ∷ []) chunks).1 ≡ (1 ∷ 2 ∷ []) ++ flat chunks)
    × (length ((stream (1 ∷ 2 ∷ []) chunks).1) < n_fft)
stream_lem_example = stream_lem chunks (1 ∷ 2 ∷ []) (omega arith) (omega arith, (omega arith, tt))

-- A resampler that keeps its ratio and puts it before the samples; it takes chunks of two.
abbrev plain : Rubato ℕ
plain = record {
  quotient = λ to from. 100 * to + from;
  create = λ q n. some q;
  set_chunk_size = λ r n. (n == 2, r);
  process = λ r xs. (some ((r ∷ xs) ∷ []), r);
}

resample_stream-AllAtRatio_example :
    AllAtRatio plain
      (λ r. r)
      (100 * 16 + 8)
      ((5 ∷ 6 ∷ []) ∷ [] ∷ (7 ∷ []) ∷ [])
      (resample_stream plain 16 ((5 ∷ 6 ∷ [], 8) ∷ ([], 8) ∷ (7 ∷ [], 8) ∷ []) none).0
    × IsRated plain
        (λ r. r)
        (100 * 16 + 8)
        (resample_stream plain 16 ((5 ∷ 6 ∷ [], 8) ∷ ([], 8) ∷ (7 ∷ [], 8) ∷ []) none).1
resample_stream-AllAtRatio_example =
    resample_stream-AllAtRatio plain (λ r. r) (λ q n r e. ground arith) (λ r n. refl) (λ r xs. refl)
      8 16 ((5 ∷ 6 ∷ []) ∷ [] ∷ (7 ∷ []) ∷ []) none (omega arith) (omega arith) (omega arith) tt

resample_with_cache_stale_example :
    resample_with_cache plain (5 ∷ 6 ∷ []) 8 16 (some 1608)
    ≡ resample_with_cache plain (5 ∷ 6 ∷ []) 48 16 (some 1608)
unfolding sanitize
resample_with_cache_stale_example =
    resample_with_cache_stale plain 1608 5 (6 ∷ []) 8 48 16 refl (omega arith) (omega arith)
      (omega arith) (omega arith) (omega arith)

abbrev sums : Floats
sums = record { add = λ a b. a + b; divide = λ a n. a / n }

abbrev stereo : AudioBuffer
stereo = record { channels = 2; num_frames = 2; samples = 2 ∷ 4 ∷ 6 ∷ 8 ∷ [] }

-- All packets decode to the same two frames.
abbrev plain_codec : Symphonia ℕ ℕ
plain_codec = record {
  probe = λ hint source. some (record {
    default_track =
        some (record { id = 1; sample_rate = some 8; channels = some 2; n_frames = none });
    reads = map (λ b. packet b 0) source.bytes;
  });
  make = λ track. some 0;
  decode = λ d p. (some stereo, d);
}

abbrev two_tracks : List (Read ℕ)
two_tracks = packet 9 0 ∷ packet 1 0 ∷ []

decode_packets-IsWhole_example :
    IsWhole 16000 (3 ∷ 7 ∷ []) (decode_packets sums plain_codec 1 16000 two_tracks 0 [])
unfolding mono averages
decode_packets-IsWhole_example =
    decode_packets-IsWhole sums plain_codec 16000 []
      (IsRead.other (omega arith) (IsRead.own refl refl IsRead.done)) (omega arith)

abbrev IsFitting : Option AudioBuffer → Type 0
IsFitting none = Unit
IsFitting (some b) = IsShaped b × (b.num_frames ≤ 2)

plain_codec-fits :
    (d p : ℕ) (b : AudioBuffer)
    → (plain_codec.decode d p).0 ≡ some b
    → IsShaped b × (b.num_frames ≤ 2)
plain_codec-fits d p b e = go (some b) e
  where
    go : (o : Option AudioBuffer) → some stereo ≡ o → IsFitting o
    go o e = subst IsFitting e (omega arith, omega arith)

decode_packets-IsBounded_example :
    IsBounded 16000 2 (decode_packets sums plain_codec 1 16000 two_tracks 0 [])
decode_packets-IsBounded_example =
    decode_packets-IsBounded sums plain_codec 2 plain_codec-fits 1 16000 two_tracks 0 []
      (omega arith)

-- An upload at 8 Hz is after_resample.
decode_audio_bytes_runs :
    decode_audio_bytes sums plain_codec plain (1 ∷ 9 ∷ []) ≡ decoded (1_600_008 ∷ 3 ∷ 7 ∷ [])
unfolding decode_audio_bytes decode_audio_bytes_shared decode_audio_inner decode_packets to_16k
    resample mix_mono mix_from sum_from is_trivial sanitize bind
decode_audio_bytes_runs = refl
