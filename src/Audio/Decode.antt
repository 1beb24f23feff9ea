-- ===== src/Audio/Decode.antt =====
-- `decode_audio_inner` of src/inference/audio.rs and its callers. The demuxer and the decoder are
-- symphonia's, and a parameter: a probed source gives finitely many packets or read errors and then
-- ends with `UnexpectedEof`. `usize` is taken to be 64 bits wide.
use monnok_gigastt.Base.{
  ℕ, ◌+◌, ◌*◌, ltb, leb, ◌&&◌, ◌==◌, if◌then◌else◌, Option, none, some, List, [], ◌∷◌, ◌++◌, length,
}
use monnok_gigastt.Words.{Text}
use monnok_gigastt.Audio.{BytesMediaSource}
use monnok_gigastt.Audio.Mix.{Floats, AudioBuffer, mix_mono}
use monnok_gigastt.Audio.Resample.{
  Rubato, Resampled, resampled_to, init_failed, process_failed, panicked, resample,
}

-- What `next_packet` gives before the end.
pub data Read (P : Type 0) : Type 0 where
  packet : (track : ℕ) → P → Read P
  read_error : Read P

pub record Track : Type 0 where
  pub id : ℕ
  pub sample_rate : Option ℕ
  pub channels : Option ℕ
  pub n_frames : Option ℕ

-- The default track, if any, and what reading gives.
pub record Probed (P : Type 0) : Type 0 where
  pub default_track : Option Track
  pub reads : List (Read P)

-- `probe` of an extension, if known, and the bytes; a decoder `D` changes as it decodes.
pub record Symphonia (P D : Type 0) : Type 0 where
  pub probe : Option Text → BytesMediaSource → Option (Probed P)
  pub make : Track → Option D
  pub decode : D → P → Option AudioBuffer × D

pub data DecodeAudioError : Type 0 where
  cannot_open unsupported_format no_track unknown_rate unsupported_codec : DecodeAudioError
  packet_error decode_error : DecodeAudioError
  too_long : (samples rate : ℕ) → DecodeAudioError
  resampling_failed : DecodeAudioError

pub data Decoded : Type 0 where
  decoded : List ℕ → Decoded
  refused : DecodeAudioError → Decoded
  decode_panicked : Decoded

abbrev pub max_duration_s : ℕ
max_duration_s = 600

-- `max_samples`. The product of the `f64` values is exact for a `u32` rate.
abbrev pub max_samples : ℕ → ℕ
max_samples rate = max_duration_s * rate

-- What is reserved before the loop.
unfoldable pub initial_capacity : Option ℕ → ℕ → ℕ
initial_capacity none rate = 0
initial_capacity (some n) rate = if ltb 0 n && leb n ((max_duration_s + 1) * rate) then n else 0

-- The duration cap, after a packet has added its samples. An index out of range has been a panic.
abbrev pub check_cap : ℕ → (List ℕ → Decoded) → List ℕ → Option (List ℕ) → Decoded
check_cap rate next all_samples none = decode_panicked
check_cap rate next all_samples (some mixed) =
    let all = all_samples ++ mixed in
    if ltb (max_samples rate) (length all) then refused (too_long (length all) rate) else next all

abbrev pub after_resample : Resampled → Decoded
after_resample (resampled_to samples) = decoded samples
after_resample init_failed = refused resampling_failed
after_resample process_failed = refused resampling_failed
after_resample panicked = decode_panicked

module _ {P D : Type 0} (f32 : Floats) (symphonia : Symphonia P D) where
  abbrev pub on_decoded : ℕ → (List ℕ → Decoded) → List ℕ → Option AudioBuffer → Decoded
  on_decoded rate next all_samples none = refused decode_error
  on_decoded rate next all_samples (some b) = check_cap rate next all_samples (mix_mono f32 b)

  -- The loop, on what is still to be read, with the samples so far.
  unfoldable pub decode_packets : ℕ → ℕ → List (Read P) → D → List ℕ → Decoded
  decode_packets track_id rate [] d all_samples = decoded all_samples
  decode_packets track_id rate (read_error ∷ reads) d all_samples = refused packet_error
  decode_packets track_id rate (packet track p ∷ reads) d all_samples =
      let next = decode_packets track_id rate reads in
      if track == track_id
      then on_decoded rate (next (symphonia.decode d p).1) all_samples (symphonia.decode d p).0
      else next d all_samples

  module _ {R : Type 0} (rubato : Rubato R) where
    -- After the loop.
    unfoldable pub to_16k : ℕ → Decoded → Decoded
    to_16k rate (decoded samples) =
        if rate == 16000
        then decoded samples
        else after_resample (resample rubato samples rate 16000)
    to_16k rate (refused e) = refused e
    to_16k rate decode_panicked = decode_panicked

    abbrev pub with_decoder : List (Read P) → ℕ → ℕ → Option D → Decoded
    with_decoder reads track_id rate none = refused unsupported_codec
    with_decoder reads track_id rate (some d) =
        to_16k rate (decode_packets track_id rate reads d [])

    abbrev pub with_rate : List (Read P) → Track → Option ℕ → Decoded
    with_rate reads track none = refused unknown_rate
    with_rate reads track (some rate) = with_decoder reads track.id rate (symphonia.make track)

    abbrev pub with_track : List (Read P) → Option Track → Decoded
    with_track reads none = refused no_track
    with_track reads (some track) = with_rate reads track track.sample_rate

    abbrev pub with_probed : Option (Probed P) → Decoded
    with_probed none = refused unsupported_format
    with_probed (some probed) = with_track probed.reads probed.default_track

    unfoldable pub decode_audio_inner : BytesMediaSource → Option Text → Decoded
    decode_audio_inner source hint = with_probed (symphonia.probe hint source)

    -- `File::open` and `extension`, both outside this code, give the file's bytes and the hint.
    unfoldable pub decode_audio_file :
        (Text → Option (List ℕ)) → (Text → Option Text) → Text → Decoded
    decode_audio_file open_file extension path = elim (open_file path) [
      | none ↦ refused cannot_open
      | some bytes ↦ decode_audio_inner (record { bytes = bytes; pos = 0 }) (extension path)
    ]

    unfoldable pub decode_audio_bytes_shared : List ℕ → Decoded
    decode_audio_bytes_shared bytes = decode_audio_inner (record { bytes = bytes; pos = 0 }) none

    unfoldable pub decode_audio_bytes : List ℕ → Decoded
    decode_audio_bytes bytes = decode_audio_bytes_shared bytes
