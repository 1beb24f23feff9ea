-- ===== src/Stream.antt =====
-- The streaming engine of src/inference/mod.rs: `StreamingState`, `create_state`, `run_inference`,
-- `process_chunk`, `flush_state` and `transcribe_samples`, in a build with the default features. The
-- ONNX sessions, the mel features, the resampler `R` and the diarizer `D` are parameters. A
-- panic of the decoder's loop is an error value here, which `catch_unwind` of the callers sees.
pub mod Decided
pub mod Ready
pub mod Chunks
pub mod Late
pub mod Scripted
mod Tests
use monnok_gigastt.Base.{
  ℕ, ◌+◌, ◌^◌, ◌⊎◌, inl, inr, Bool, true, false, not, ◌&&◌, ltb, ◌==◌, if◌then◌else◌, Option, none,
  some, List, [], ◌∷◌, ◌++◌, length, map,
}
use monnok_gigastt.Decode.{
  DecoderState, DecoderOutput, DecodeError, Outcome, ok, err, Loop, decoder_state_new,
  greedy_decode, is_empty,
}
use monnok_gigastt.Audio.{num_frames, prepare_audio_buffer}
use monnok_gigastt.Words.{Text, WordInfo, tokens_to_words}
use monnok_gigastt.Transcript.{
  TranscriptAssembler, TranscriptSegment, assembler_new, append, finalize, partial,
}

-- `Engine`, with what it calls. `encode` gives the encoder's output and its length, an `i32`, as a bit
-- pattern; `mel` gives the features of some samples.
pub record Engine (R D : Type 0) : Type 0 where
  pub encode : List ℕ → ℕ → Option (List ℕ × ℕ)
  pub run_decoder : ℕ → List ℕ → List ℕ → Option DecoderOutput
  pub run_joiner : List ℕ → List ℕ → Option (List ℕ)
  pub softmax_confidence : List ℕ → ℕ → ℕ
  pub blank_id : ℕ
  pub vocabulary : List Text
  pub mean : List ℕ → ℕ
  pub mel : List ℕ → List ℕ
  pub has_speaker_encoder : Bool
  pub new_diarizer : D
  pub feed : D → List ℕ → D
  pub current_speaker : D → Option ℕ

-- The reusable scratch buffers of the features are left out.
pub record StreamingState (R D : Type 0) : Type 0 where
  pub decoder : DecoderState
  pub audio_buffer : List ℕ
  pub assembler : TranscriptAssembler
  pub total_frames : ℕ
  pub resampler : Option R
  pub diarization_state : Option D

pub data InferenceError : Type 0 where
  encoder_failed : InferenceError
  negative_length : InferenceError
  decoding : DecodeError → InferenceError

-- The decoder state comes back after an error too, since it is changed in place.
pub data Inferred : Type 0 where
  inferred : List WordInfo → Bool → DecoderState → Inferred
  failed : InferenceError → DecoderState → Inferred

pub data Chunk : Type 0 where
  segments : List TranscriptSegment → Chunk
  chunk_failed : InferenceError → Chunk

pub record TranscribeResult : Type 0 where
  pub text : Text
  pub words : List WordInfo
  pub duration_samples : ℕ

abbrev set_speaker : Option ℕ → WordInfo → WordInfo
set_speaker none w = w
set_speaker (some id) w = record w { speaker = some id }

-- `join(" ")`
unfoldable pub join_words : List WordInfo → Text
join_words [] = []
join_words (w ∷ []) = w.word
join_words (w ∷ v ∷ ws) = w.word ++ (b' ' ∷ join_words (v ∷ ws))

-- `offline` is the diarizer of whole files, which sets speakers.
abbrev transcribed :
    ℕ → (List WordInfo → List WordInfo) → Inferred → InferenceError ⊎ TranscribeResult
transcribed n offline (failed er d) = inl er
transcribed n offline (inferred ws endpoint d) =
    inr (record { text = join_words (offline ws); words = offline ws; duration_samples = n })

module _ {R D : Type 0} where
  unfoldable pub create_state : Engine R D → Bool → StreamingState R D
  create_state e diarization_enabled = record {
    decoder = decoder_state_new e.blank_id;
    audio_buffer = [];
    assembler = assembler_new;
    total_frames = 0;
    resampler = none;
    diarization_state =
        if diarization_enabled && e.has_speaker_encoder then some e.new_diarizer else none;
  }

  abbrev pub decoded : Engine R D → ℕ → Outcome Loop → Inferred
  decoded e frame_offset (ok l) =
      inferred (tokens_to_words e.vocabulary e.mean frame_offset l.tokens) l.endpoint_detected
        l.state
  decoded e frame_offset (err er s) = failed (decoding er) s

  abbrev pub encoded : Engine R D → DecoderState → ℕ → Option (List ℕ × ℕ) → Inferred
  encoded e s frame_offset none = failed encoder_failed s
  encoded e s frame_offset (some (enc_data, len)) =
      if ltb len (2 ^ 31)
      then decoded e frame_offset
          (greedy_decode e.run_decoder e.run_joiner e.softmax_confidence e.blank_id enc_data len s)
      else failed negative_length s

  unfoldable pub run_inference : Engine R D → List ℕ → ℕ → DecoderState → ℕ → Inferred
  run_inference e features frames s frame_offset =
      encoded e s frame_offset (e.encode features frames)

  -- The diarizer hears the samples as they came. Without one the words stay as they are.
  abbrev pub heard : Engine R D → List ℕ → Option D → Option D
  heard e samples none = none
  heard e samples (some d) = if e.has_speaker_encoder then some (e.feed d samples) else some d

  abbrev pub speaker_now : Engine R D → Option D → Option ℕ
  speaker_now e none = none
  speaker_now e (some d) = if e.has_speaker_encoder then e.current_speaker d else none

  unfoldable pub annotate : Engine R D → Option D → List WordInfo → List WordInfo
  annotate e d ws = map (set_speaker (speaker_now e d)) ws

  -- New words go to the assembler, which gives one segment: a final one at an endpoint.
  unfoldable pub emit_segment :
      StreamingState R D → List WordInfo → Bool → ℕ → Chunk × StreamingState R D
  emit_segment s new_words endpoint now =
      let a = append s.assembler new_words in
      if is_empty new_words && not endpoint
      then (segments [], s)
      else if endpoint
      then (
        segments ((finalize a now).0 ∷ []),
        record s {
          decoder = record (s.decoder) { consecutive_blanks = 0 };
          assembler = (finalize a now).1;
        },
      )
      else (segments (partial a now ∷ []), record s { assembler = a })

  abbrev pub after_inference :
      Engine R D → List ℕ → ℕ → StreamingState R D → ℕ → Inferred → Chunk × StreamingState R D
  after_inference e samples frames s now (failed er d) = (chunk_failed er, record s { decoder = d })
  after_inference e samples frames s now (inferred new_words endpoint d) =
      let dia = heard e samples s.diarization_state in
      emit_segment
        (record s { decoder = d; total_frames = s.total_frames + frames; diarization_state = dia })
        (annotate e dia new_words) endpoint now

  -- With whole frames to work on.
  unfoldable pub process_frames :
      Engine R D → List ℕ → List ℕ → StreamingState R D → ℕ → Chunk × StreamingState R D
  process_frames e samples usable s now =
      let frames = num_frames (length usable) in
      if frames == 0
      then (segments [], s)
      else after_inference e samples frames s now
          (run_inference e (e.mel usable) frames s.decoder s.total_frames)

  abbrev pub on_buffer :
      Engine R D
      → List ℕ
      → StreamingState R D
      → ℕ
      → Option (List ℕ) × List ℕ
      → Chunk × StreamingState R D
  on_buffer e samples s now (none, rest) = (segments [], record s { audio_buffer = rest })
  on_buffer e samples s now (some usable, rest) =
      process_frames e samples usable (record s { audio_buffer = rest }) now

  unfoldable pub process_chunk :
      Engine R D → List ℕ → StreamingState R D → ℕ → Chunk × StreamingState R D
  process_chunk e [] s now = (segments [], s)
  process_chunk e (x ∷ xs) s now =
      on_buffer e (x ∷ xs) s now (prepare_audio_buffer (x ∷ xs) s.audio_buffer)

  unfoldable pub flush_state :
      StreamingState R D → ℕ → Option TranscriptSegment × StreamingState R D
  flush_state s now = if is_empty s.assembler.text then (none, s) else (
    some (finalize s.assembler now).0,
    record s { assembler = (finalize s.assembler now).1 },
  )

  unfoldable pub transcribe_samples :
      Engine R D
      → (List ℕ → List WordInfo → List WordInfo)
      → List ℕ
      → InferenceError ⊎ TranscribeResult
  transcribe_samples e offline samples = transcribed (length samples) (offline samples) (
      run_inference e (e.mel samples) (num_frames (length samples)) (decoder_state_new e.blank_id)
        0)
