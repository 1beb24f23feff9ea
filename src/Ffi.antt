-- ===== src/Ffi.antt =====
-- The C interface of src/ffi.rs: its handles live in a store of boxes, where the use of a pointer that is
-- not that of a live box of its type is a fault. Arguments that the caller only lends are values.
pub mod Agrees
pub mod Boxes
pub mod Calls
pub mod Checkout
pub mod Client
pub mod Files
pub mod Path
pub mod Refused
pub mod Safe
pub mod Streams
pub mod Weights
mod Tests
use monnok_gigastt.Base.{
  ℕ, zero, suc, Bool, true, false, not, ◌&&◌, ltb, ◌==◌, if◌then◌else◌, Option, none, some, ◌⊎◌,
  inl, inr, List, [], ◌∷◌, length, take,
}
use monnok_gigastt.Words.{Text, WordInfo}
use monnok_gigastt.Pool.{
  PoolInner, Waiter, Fast, fast_closed, fast_item, fast_empty, Slow, slow_closed, registered,
  pool_new, fast_path, register,
}
use monnok_gigastt.Pool.Guard.{guard_new, drop_guard, reservation_checkin}
use monnok_gigastt.Audio.Decode.{Decoded, decoded, refused, decode_panicked}
use monnok_gigastt.Audio.Resample.{
  Rubato, Resampled, resampled_to, init_failed, process_failed, panicked, resample_with_cache,
}
use monnok_gigastt.Transcript.{TranscriptSegment}
use monnok_gigastt.Pcm.{chunks_exact}
use monnok_gigastt.Stream.{
  Engine, StreamingState, create_state, process_chunk, flush_state, Chunk, segments, chunk_failed,
  InferenceError, encoder_failed, negative_length, decoding, TranscribeResult, transcribe_samples,
}
use monnok_gigastt.Ffi.Path.{is_absolute, has_parent_dir, starts_with, join}

-- The pool is shared with the reservations, and outlives the engine: it is named by a number.
pub record GigasttEngine (R D : Type 0) : Type 0 where
  pub engine : Engine R D
  pub pool : ℕ
  pub disposed : Bool

-- The reservation is the pool's number.
pub record GigasttStream (R D : Type 0) : Type 0 where
  pub state : StreamingState R D
  pub triplet : ℕ
  pub reservation : ℕ
  pub disposed : Bool

-- What a C string says. The fixed texts have no NUL.
pub data Content : Type 0 where
  said json quantization_failed : Text → Content
  not_utf8 : List ℕ → Content
  empty_list ok_text model_dir_null not_utf8_text failed_text : Content

pub data Object (R D : Type 0) : Type 0 where
  engine_box : GigasttEngine R D → Object R D
  stream_box : GigasttStream R D → Object R D
  string_box : Content → Object R D

-- The boxes, the pools, and the address of the next box. Zero is the null pointer.
pub record World (R D : Type 0) : Type 0 where
  pub heap : ℕ → Option (Object R D)
  pub pools : ℕ → PoolInner ℕ
  pub next : ℕ

-- How a call ends. `waits` is a wait for a triplet, `aborted` a panic that reaches the C interface.
pub data Called (R D : Type 0) : Type 0 where
  returned : ℕ → World R D → Called R D
  waits : World R D → Called R D
  faulted aborted : Called R D

-- What is not of this crate, and the models' files.
pub record Host (R D : Type 0) : Type 0 where
  pub load : Text → ℕ → Option (Engine R D × List ℕ)
  pub from_utf8 : List ℕ → Option Text
  pub current_dir : Option Text
  pub decode_audio_file : Text → Decoded
  pub offline : List ℕ → List WordInfo → List WordInfo
  pub scale : ℕ → ℕ
  pub rubato : Rubato R
  pub to_json : List TranscriptSegment → Option Text
  pub int8_exists : Text → Bool
  pub quantize : Text → Option Text
  pub alive : Waiter → Bool
  pub channel : ℕ

pub data Transcribed : Type 0 where
  transcribed : Text → Transcribed
  transcribe_failed transcribe_panics : Transcribed

abbrev pub set {ℓ} : {A : Type ℓ} → (ℕ → A) → ℕ → A → ℕ → A
set f a x b = if b == a then x else f b

-- `CString::new` fails on these.
abbrev pub has_nul : Text → Bool
has_nul [] = false
has_nul (c ∷ t) = if c == 0 then true else has_nul t

-- A panic of the decoder's loop is a panic; the other errors are returned.
abbrev pub of_result : InferenceError ⊎ TranscribeResult → Transcribed
of_result (inl encoder_failed) = transcribe_failed
of_result (inl negative_length) = transcribe_failed
of_result (inl (decoding e)) = transcribe_panics
of_result (inr r) = transcribed r.text

module _ {R D : Type 0} where
  -- `Box::into_raw` and `CString::into_raw`
  unfoldable pub alloc : Object R D → World R D → Called R D
  alloc o w = returned w.next (record w { heap = set w.heap w.next (some o); next = suc w.next })

  -- `Box::from_raw` and `CString::from_raw`, dropped
  unfoldable pub free : ℕ → World R D → World R D
  free p w = record w { heap = set w.heap p none }

  abbrev pub put : ℕ → GigasttStream R D → World R D → World R D
  put p s w = record w { heap = set w.heap p (some (stream_box s)) }

  abbrev pub null : World R D → Called R D
  null w = returned 0 w

  -- A box that is read as an engine, a stream or a string.
  abbrev pub as_engine : (GigasttEngine R D → Called R D) → Option (Object R D) → Called R D
  as_engine k none = faulted
  as_engine k (some (engine_box e)) = k e
  as_engine k (some (stream_box s)) = faulted
  as_engine k (some (string_box c)) = faulted

  abbrev pub as_stream : (GigasttStream R D → Called R D) → Option (Object R D) → Called R D
  as_stream k none = faulted
  as_stream k (some (engine_box e)) = faulted
  as_stream k (some (stream_box s)) = k s
  as_stream k (some (string_box c)) = faulted

  abbrev pub as_string : (Content → Called R D) → Option (Object R D) → Called R D
  as_string k none = faulted
  as_string k (some (engine_box e)) = faulted
  as_string k (some (stream_box s)) = faulted
  as_string k (some (string_box c)) = k c

  abbrev pub with_pool : ℕ → PoolInner ℕ → World R D → World R D
  with_pool q p w = record w { pools = set w.pools q p }

  -- `CString::new` of a text.
  unfoldable pub new_string : (Text → Content) → Text → Called R D → World R D → Called R D
  unfolding alloc
  new_string c t failed w = if has_nul t then failed else alloc (string_box (c t)) w

  unfoldable pub gigastt_string_free : ℕ → World R D → Called R D
  unfolding free
  gigastt_string_free p w = if p == 0 then null w else as_string (λ c. null (free p w)) (w.heap p)

  -- The flag is read in the box that it guards.
  unfoldable pub gigastt_engine_free : ℕ → World R D → Called R D
  unfolding free
  gigastt_engine_free p w =
      if p == 0
      then null w
      else as_engine (λ e. if e.disposed then null w else null (free p w)) (w.heap p)
