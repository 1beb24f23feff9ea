-- ===== src/Session.antt =====
-- The handlers of a WebSocket session in src/server/mod.rs. A session triplet is of any type `T`; the
-- clock, the fate of a blocking task and of each send, the resampler, the scaling of samples and
-- the JSON parser are given from outside.
pub mod Loop
pub mod Kept
pub mod Intact
pub mod Frame
pub mod Trace
pub mod Settings
pub mod Farewell
pub mod Connection
mod Tests
use monnok_gigastt.Base.{
  ℕ, ◌<◌, Bool, true, false, not, ◌&&◌, ◌||◌, min, ltb, leb, ◌==◌, if◌then◌else◌, Option, none,
  some, List, [], ◌∷◌, ◌++◌, length, get_elem?, map,
}
use monnok_gigastt.Decode.{panic}
use monnok_gigastt.Words.{Text, text_eq}
use monnok_gigastt.Transcript.{TranscriptSegment}
use monnok_gigastt.Pcm.{frame_samples}
use monnok_gigastt.Stream.{
  Engine, StreamingState, InferenceError, encoder_failed, negative_length, decoding, Chunk,
  segments, chunk_failed, create_state, process_chunk, flush_state,
}
use monnok_gigastt.Protocol.{
  ErrorCode, inference_error, inference_panic, configure_too_late, unsupported_protocol_version,
  invalid_sample_rate, ServerMessage, partial_segment, final_segment, error, ClientMessage, stop,
  configure, protocol_version, supported_rates, Out, message, Sink, send_out,
}

-- What the handlers use and do not define.
pub record Environment (R D : Type 0) : Type 0 where
  pub engine : Engine R D
  pub to_f32 : ℕ → ℕ
  pub resample : List ℕ → ℕ → Option R → Option (List ℕ × Option R)
  pub parse : List ℕ → Option ClientMessage
  pub delivers : ℕ → Bool
  pub debug_enabled : Bool

-- The variables of `handle_ws_inner`.
pub record Session (R D T : Type 0) : Type 0 where
  pub sink : Sink
  pub state_opt : Option (StreamingState R D)
  pub triplet_opt : Option T
  pub client_sample_rate : ℕ
  pub audio_received : Bool
  pub pending_byte : Option ℕ

-- How the blocking task ends: by itself, by a panic that `catch_unwind` catches, or not at all.
pub data Task : Type 0 where
  finishes panics is_lost : Task

-- `Result<FrameOutcome>`; `unwinds` is a panic of the handler itself.
pub data Flow : Type 0 where
  goes_on breaks fails unwinds : Flow

abbrev pub sent_or_fails : Bool → Flow → Flow
sent_or_fails true f = f
sent_or_fails false f = fails

abbrev pub contains : List ℕ → ℕ → Bool
contains [] n = false
contains (m ∷ ms) n = (m == n) || contains ms n

abbrev pub empty_final : ℕ → TranscriptSegment
empty_final now = record { segment_text = []; segment_words = []; is_final = true; timestamp = now }

abbrev pub or_empty : ℕ → Option TranscriptSegment → TranscriptSegment
or_empty now none = empty_final now
or_empty now (some seg) = seg

abbrev pub segment_message : TranscriptSegment → ServerMessage
segment_message seg = if seg.is_final then final_segment seg else partial_segment seg

-- A panic inside `process_chunk` counts as a panic of the task.
abbrev pub is_panic : InferenceError → Bool
is_panic (decoding panic) = true
is_panic _ = false

abbrev pub is_unsupported : Option Text → Bool
is_unsupported none = false
is_unsupported (some v) = not (text_eq v protocol_version)

module _ {R D : Type 0} where
  abbrev pub flushed :
      ℕ → Option (StreamingState R D) → Option TranscriptSegment × Option (StreamingState R D)
  flushed now none = (none, none)
  flushed now (some st) = let (seg, st') = flush_state st now in (seg, some st')

module _ {R D T : Type 0} (env : Environment R D) where
  -- `send_server_message(…).await?`, and then `f`.
  unfoldable pub send_then : Session R D T → ServerMessage → Flow → Session R D T × Flow
  send_then s msg f =
      let (k, delivered) = send_out env.delivers s.sink (message msg) in
      (record s { sink = k }, sent_or_fails delivered f)

  unfoldable pub send_segments : Session R D T → List TranscriptSegment → Session R D T × Flow
  send_segments s [] = (s, goes_on)
  send_segments s (seg ∷ segs) =
      let (k, delivered) = send_out env.delivers s.sink (message (segment_message seg)) in
      let rest = send_segments (record s { sink = k }) segs in
      if delivered then rest else (record s { sink = k }, fails)

  -- A fresh streaming state after a panic.
  unfoldable pub reset : Session R D T → T → Session R D T × Flow
  unfolding send_then
  reset s t =
      send_then
        (record s { state_opt = some (create_state env.engine false); triplet_opt = some t })
        (error inference_panic none) goes_on

  unfoldable pub finished : Session R D T → T → Chunk × StreamingState R D → Session R D T × Flow
  unfolding send_segments send_then reset
  finished s t (segments ss, st) =
      send_segments (record s { state_opt = some st; triplet_opt = some t }) ss
  finished s t (chunk_failed er, st) =
      if is_panic er
      then reset s t
      else send_then (record s { state_opt = some st; triplet_opt = some t })
          (error inference_error none) goes_on

  unfoldable pub run_task :
      Session R D T → T → Task → Chunk × StreamingState R D → Session R D T × Flow
  unfolding finished reset
  run_task s t finishes r = finished s t r
  run_task s t panics r = reset s t
  run_task s t is_lost r = (record s { state_opt = none; triplet_opt = none }, fails)

  abbrev pub with_both :
      Task
      → ℕ
      → List ℕ
      → Session R D T
      → Option (StreamingState R D)
      → Option T
      → Session R D T × Flow
  with_both task now samples s none t = (s, fails)
  with_both task now samples s (some st) none = (record s { state_opt = none }, fails)
  with_both task now samples s (some st) (some t) =
      run_task s t task (process_chunk env.engine samples st now)

  unfoldable pub infer : Task → ℕ → List ℕ → Session R D T → Session R D T × Flow
  infer task now samples s = with_both task now samples s s.state_opt s.triplet_opt

  abbrev pub resampled :
      Task
      → ℕ
      → Session R D T
      → StreamingState R D
      → Option (List ℕ × Option R)
      → Session R D T × Flow
  resampled task now s st none = (s, fails)
  resampled task now s st (some (samples, r)) =
      infer task now samples (record s { state_opt = some (record st { resampler = r }) })

  abbrev pub with_state :
      Task → ℕ → List ℕ → Session R D T → Option (StreamingState R D) → Session R D T × Flow
  with_state task now samples s none = (s, fails)
  with_state task now samples s (some st) =
      resampled task now s st (env.resample samples s.client_sample_rate st.resampler)

  unfoldable pub at_16k : Task → ℕ → List ℕ → Session R D T → Session R D T × Flow
  at_16k task now samples s =
      if s.client_sample_rate == 16000
      then infer task now samples s
      else with_state task now samples s s.state_opt

  unfoldable pub handle_binary_frame : Task → ℕ → List ℕ → Session R D T → Session R D T × Flow
  handle_binary_frame task now [] s = (s, goes_on)
  handle_binary_frame task now (b ∷ bytes) s =
      let (raw, pending) = frame_samples s.pending_byte (b ∷ bytes) in
      at_16k task now (map env.to_f32 raw)
        (record s { audio_received = true; pending_byte = pending })

  abbrev pub set_rate : Session R D T → Option ℕ → Session R D T × Flow
  set_rate s none = (s, goes_on)
  set_rate s (some rate) =
      if contains supported_rates rate
      then (record s { client_sample_rate = rate }, goes_on)
      else send_then s (error invalid_sample_rate none) goes_on

  abbrev pub set_diarization : Option Bool → Session R D T × Flow → Session R D T × Flow
  set_diarization (some b) (s, goes_on) =
      (record s { state_opt = some (create_state env.engine b) }, goes_on)
  set_diarization (some b) (s, breaks) = (s, breaks)
  set_diarization (some b) (s, fails) = (s, fails)
  set_diarization (some b) (s, unwinds) = (s, unwinds)
  set_diarization none r = r

  unfoldable pub handle_configure_message :
      Option ℕ → Option Bool → Option Text → Session R D T → Session R D T × Flow
  unfolding send_then
  handle_configure_message rate diarization version s =
      if s.audio_received
      then send_then s (error configure_too_late none) goes_on
      else if is_unsupported version
      then send_then s (error unsupported_protocol_version none) breaks
      else set_diarization diarization (set_rate s rate)

  abbrev pub stopped : ℕ → Session R D T → Option (StreamingState R D) → Session R D T × Flow
  stopped now s none = (s, breaks)
  stopped now s (some st) =
      send_then (record s { state_opt = none })
        (final_segment (or_empty now (flush_state st now).0)) breaks

  unfoldable pub handle_stop_message : ℕ → Session R D T → Session R D T × Flow
  unfolding send_then
  handle_stop_message now s = stopped now s s.state_opt

  unfoldable pub flush_and_final : ℕ → Session R D T → Session R D T × Flow
  unfolding send_then
  flush_and_final now s =
      let (seg, st) = flushed now s.state_opt in
      send_then (record s { state_opt = st }) (final_segment (or_empty now seg)) goes_on
