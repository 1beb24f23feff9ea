-- ===== src/Audio.antt =====
-- The sample buffer and the in-memory media source of src/inference/audio.rs, and the frame count of
-- src/inference/features.rs. Samples are only moved, so they are of any type.
pub mod Buffer
pub mod Cache
pub mod Bound
pub mod Decode
pub mod Media
pub mod Whole
pub mod Mix
pub mod Resample
mod Tests
use monnok_gigastt.Base.{
  ℕ, ◌+◌, ◌-◌, ◌*◌, ◌/◌, ltb, leb, ◌==◌, if◌then◌else◌, Option, none, some, List, [], ◌∷◌, ◌++◌,
  length, take, drop, min, ◌^◌, ◌%◌,
}

abbrev pub n_fft : ℕ
n_fft = 320

abbrev pub hop_length : ℕ
hop_length = 160

abbrev pub max_buffer_samples : ℕ
max_buffer_samples = 16000 * 5

-- The number of frames that `compute_with_buffers` gives for `n` samples.
unfoldable pub num_frames : ℕ → ℕ
num_frames n = if ltb n n_fft then 1 else (n - n_fft) / hop_length + 1

unfoldable pub usable_samples : ℕ → ℕ
usable_samples n =
    if leb n_fft n then ((n - n_fft) / hop_length + 1 - 1) * hop_length + n_fft else 0

module _ {ℓ} {A : Type ℓ} where
  -- The newest five seconds.
  unfoldable pub keep_newest : List A → List A
  keep_newest xs =
      if ltb max_buffer_samples (length xs) then drop (length xs - max_buffer_samples) xs else xs

  -- The usable samples, if any, and the rest.
  unfoldable pub split_usable : List A → Option (List A) × List A
  split_usable kept =
      let usable = usable_samples (length kept) in
      if usable == 0 then (none, kept) else (some (take usable kept), drop usable kept)

  unfoldable pub prepare_audio_buffer : List A → List A → Option (List A) × List A
  prepare_audio_buffer new_samples buffer = split_usable (keep_newest (buffer ++ new_samples))

-- `BytesMediaSource`: the bytes, and a `u64` position.
pub record BytesMediaSource : Type 0 where
  pub bytes : List ℕ
  pub pos : ℕ

-- `Read::read` into a buffer of `room` bytes: what it copies, and the source after it.
unfoldable pub read : BytesMediaSource → ℕ → List ℕ × BytesMediaSource
read src room =
    if leb (length src.bytes) src.pos
    then ([], src)
    else let n = min (length src.bytes - src.pos) room in
      (take n (drop src.pos src.bytes), record src { pos = src.pos + n })

-- `SeekFrom`; a relative offset is `forward` or, below zero, `backward`.
pub data SeekFrom : Type 0 where
  start end_forward end_backward current_forward current_backward : ℕ → SeekFrom

-- A position is cut to `u64`; a negative one is an error.
abbrev pub back : BytesMediaSource → ℕ → ℕ → Option BytesMediaSource
back src base off = if ltb base off then none else some (record src { pos = (base - off) % 2 ^ 64 })

unfoldable pub seek : BytesMediaSource → SeekFrom → Option BytesMediaSource
seek src (start n) = some (record src { pos = n % 2 ^ 64 })
seek src (end_forward off) = some (record src { pos = (length src.bytes + off) % 2 ^ 64 })
seek src (end_backward off) = back src (length src.bytes) off
seek src (current_forward off) = some (record src { pos = (src.pos + off) % 2 ^ 64 })
seek src (current_backward off) = back src src.pos off
