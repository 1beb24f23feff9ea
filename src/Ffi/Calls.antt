-- ===== src/Ffi/Calls.antt =====
-- The functions of src/ffi.rs that use an engine.
use monnok_gigastt.Base.{
  ℕ, Bool, false, not, ◌&&◌, ltb, ◌==◌, if◌then◌else◌, Option, none, some, List, [], ◌∷◌, length,
  take, map,
}
use monnok_gigastt.Words.{Text}
use monnok_gigastt.Pool.{
  Waiter, Fast, fast_closed, fast_item, fast_empty, Slow, slow_closed, registered, pool_new,
  fast_path, register,
}
use monnok_gigastt.Pool.Guard.{guard_new, drop_guard, reservation_checkin}
use monnok_gigastt.Audio.Decode.{Decoded, decoded, refused, decode_panicked}
use monnok_gigastt.Audio.Resample.{
  Resampled, resampled_to, init_failed, process_failed, panicked, resample_with_cache,
}
use monnok_gigastt.Transcript.{TranscriptSegment}
use monnok_gigastt.Pcm.{chunks_exact}
use monnok_gigastt.Stream.{
  Engine, StreamingState, create_state, process_chunk, flush_state, Chunk, segments, chunk_failed,
  transcribe_samples,
}
use monnok_gigastt.Ffi.{
  GigasttEngine, GigasttStream, said, json, not_utf8, quantization_failed, empty_list, ok_text,
  model_dir_null, failed_text, Object, engine_box, stream_box, string_box, World, Called, waits,
  faulted, aborted, Host, Transcribed, transcribed, transcribe_failed, transcribe_panics, of_result,
  alloc, free, put, null, as_engine, as_stream, with_pool, new_string,
}
use monnok_gigastt.Ffi.Path.{is_absolute, has_parent_dir, starts_with, join}

module _ {R D : Type 0} (host : Host R D) where
  abbrev pub new_engine : World R D → Option (Engine R D × List ℕ) → Called R D
  new_engine w none = null w
  new_engine w (some (e, triplets)) =
      alloc (engine_box (record { engine = e; pool = w.next; disposed = false }))
        (with_pool w.next (pool_new triplets) w)

  abbrev pub load_dir : ℕ → World R D → Option Text → Called R D
  load_dir pool_size w none = null w
  load_dir pool_size w (some dir) = new_engine w (host.load dir pool_size)

  unfoldable pub gigastt_engine_new_with_pool_size : Option (List ℕ) → ℕ → World R D → Called R D
  gigastt_engine_new_with_pool_size none pool_size w = null w
  gigastt_engine_new_with_pool_size (some dir) pool_size w =
      load_dir pool_size w (host.from_utf8 dir)

  unfoldable pub gigastt_engine_new : Option (List ℕ) → World R D → Called R D
  unfolding gigastt_engine_new_with_pool_size
  gigastt_engine_new dir w = gigastt_engine_new_with_pool_size dir 4 w

  abbrev pub inside : Text → Option Text → Option Text
  inside path none = none
  inside path (some cwd) = if starts_with (join cwd path) cwd then some path else none

  -- The checks of the path, each of which ends the call with a null pointer.
  abbrev pub allowed_path : Option Text → Option Text
  allowed_path none = none
  allowed_path (some path) =
      if is_absolute path
      then none
      else if has_parent_dir path
      then none
      else inside path host.current_dir

  unfoldable pub checked_path : Option (List ℕ) → Option Text
  checked_path none = none
  checked_path (some chars) = allowed_path (host.from_utf8 chars)

  abbrev pub transcribe_decoded : Engine R D → Decoded → Transcribed
  transcribe_decoded e (decoded samples) = of_result (transcribe_samples e host.offline samples)
  transcribe_decoded e (refused er) = transcribe_failed
  transcribe_decoded e decode_panicked = transcribe_panics

  -- `Engine::transcribe_file`
  unfoldable pub engine_transcribe_file : Engine R D → Text → Transcribed
  engine_transcribe_file e path = transcribe_decoded e (host.decode_audio_file path)

  abbrev pub on_slow : World R D → ℕ → Slow ℕ → Called R D
  on_slow w q slow_closed = null w
  on_slow w q (registered p) = waits (with_pool q p w)

  abbrev pub on_fast : (ℕ → World R D → Called R D) → World R D → ℕ → Fast ℕ → Called R D
  on_fast k w q fast_closed = null w
  on_fast k w q (fast_item x p) = k x (with_pool q p w)
  on_fast k w q fast_empty = on_slow w q (register (w.pools q) (Waiter.blocking host.channel))

  -- `checkout_blocking`, and what is done with a triplet that is there.
  unfoldable pub with_checkout : ℕ → (ℕ → World R D → Called R D) → World R D → Called R D
  with_checkout q k w = on_fast k w q (fast_path (w.pools q))

  -- The guard is dropped.
  unfoldable pub put_back : ℕ → ℕ → World R D → World R D
  put_back q x w = with_pool q (drop_guard host.alive (w.pools q) (guard_new x)).0 w

  abbrev pub answer_text : Transcribed → World R D → Called R D
  answer_text (transcribed text) w = new_string said text (null w) w
  answer_text transcribe_failed w = null w
  answer_text transcribe_panics w = aborted

  abbrev pub transcribe_path : ℕ → World R D → Option Text → Called R D
  transcribe_path engine w none = null w
  transcribe_path engine w (some path) =
      as_engine
        (λ e.
          with_checkout e.pool
            (λ x w'. answer_text (engine_transcribe_file e.engine path) (put_back e.pool x w')) w)
        (w.heap engine)

  unfoldable pub gigastt_transcribe_file : ℕ → Option (List ℕ) → World R D → Called R D
  gigastt_transcribe_file engine wav_path w =
      if engine == 0 then null w else transcribe_path engine w (checked_path wav_path)

  abbrev pub quantized : World R D → Option Text → Called R D
  quantized w none = alloc (string_box ok_text) w
  quantized w (some e) = new_string quantization_failed e (alloc (string_box failed_text) w) w

  abbrev pub quantize_dir : List ℕ → Bool → World R D → Option Text → Called R D
  quantize_dir chars force w none = alloc (string_box (not_utf8 chars)) w
  quantize_dir chars force w (some dir) =
      if not force && host.int8_exists dir
      then alloc (string_box ok_text) w
      else quantized w (host.quantize dir)

  unfoldable pub gigastt_quantize_model : Option (List ℕ) → Bool → World R D → Called R D
  gigastt_quantize_model none force w = alloc (string_box model_dir_null) w
  gigastt_quantize_model (some chars) force w = quantize_dir chars force w (host.from_utf8 chars)

  abbrev pub stream_box_new : GigasttEngine R D → ℕ → Object R D
  stream_box_new e x = stream_box (record {
    state = create_state e.engine false;
    triplet = x;
    reservation = e.pool;
    disposed = false;
  })

  unfoldable pub gigastt_stream_new : ℕ → World R D → Called R D
  gigastt_stream_new engine w =
      if engine == 0
      then null w
      else as_engine (λ e. with_checkout e.pool (λ x w'. alloc (stream_box_new e x) w') w)
          (w.heap engine)

  -- `serde_json::to_string(..).unwrap_or("[]")`
  abbrev pub json_string : Option Text → World R D → Called R D
  json_string none w = alloc (string_box empty_list) w
  json_string (some t) w = new_string json t (null w) w

  -- A panic is caught, and leaves the state that it got to.
  abbrev pub answer_chunk :
      ℕ → GigasttStream R D → World R D → Chunk × StreamingState R D → Called R D
  answer_chunk p s w (segments segs, st) =
      json_string (host.to_json segs) (put p (record s { state = st }) w)
  answer_chunk p s w (chunk_failed er, st) = null (put p (record s { state = st }) w)

  abbrev pub on_resampled :
      Engine R D → ℕ → GigasttStream R D → World R D → ℕ → Resampled × Option R → Called R D
  on_resampled e p s w now (resampled_to samples, cache) =
      answer_chunk p s w (process_chunk e samples (record (s.state) { resampler = cache }) now)
  on_resampled e p s w now (init_failed, cache) =
      null (put p (record s { state = record (s.state) { resampler = cache } }) w)
  on_resampled e p s w now (process_failed, cache) =
      null (put p (record s { state = record (s.state) { resampler = cache } }) w)
  on_resampled e p s w now (panicked, cache) = aborted

  unfoldable pub feed_stream :
      Engine R D → ℕ → GigasttStream R D → List ℕ → ℕ → ℕ → World R D → Called R D
  feed_stream e p s bytes sample_rate now w =
      let samples = map host.scale (chunks_exact bytes) in
      if sample_rate == 16000
      then answer_chunk p s w (process_chunk e samples s.state now)
      else on_resampled e p s w now
          (resample_with_cache host.rubato samples sample_rate 16000 s.state.resampler)

  -- A slice that is longer than the caller's bytes is a fault.
  abbrev pub feed_bytes : Option (List ℕ) → ℕ → ℕ → ℕ → ℕ → ℕ → World R D → Called R D
  feed_bytes none len sample_rate now engine stream w = null w
  feed_bytes (some bytes) len sample_rate now engine stream w =
      as_engine
        (λ e.
          as_stream
            (λ s.
              if ltb (length bytes) len
              then faulted
              else feed_stream e.engine stream s (take len bytes) sample_rate now w)
            (w.heap stream))
        (w.heap engine)

  unfoldable pub gigastt_stream_process_chunk :
      ℕ → ℕ → Option (List ℕ) → (len sample_rate now : ℕ) → World R D → Called R D
  gigastt_stream_process_chunk engine stream bytes len sample_rate now w =
      if engine == 0
      then null w
      else if stream == 0
      then null w
      else feed_bytes bytes len sample_rate now engine stream w

  abbrev pub to_list : Option TranscriptSegment → List TranscriptSegment
  to_list none = []
  to_list (some seg) = seg ∷ []

  abbrev pub after_flush :
      ℕ → GigasttStream R D → World R D → Option TranscriptSegment × StreamingState R D → Called R D
  after_flush p s w (seg, st) =
      json_string (host.to_json (to_list seg)) (put p (record s { state = st }) w)

  unfoldable pub gigastt_stream_flush : ℕ → ℕ → ℕ → World R D → Called R D
  gigastt_stream_flush engine stream now w =
      if engine == 0
      then null w
      else if stream == 0
      then null w
      else as_engine
          (λ e. as_stream (λ s. after_flush stream s w (flush_state s.state now)) (w.heap stream))
          (w.heap engine)

  abbrev pub stream_checked_in : GigasttStream R D → World R D → World R D
  stream_checked_in s w =
      with_pool s.reservation (reservation_checkin host.alive (w.pools s.reservation) s.triplet).0 w

  unfoldable pub gigastt_stream_free : ℕ → World R D → Called R D
  unfolding free
  gigastt_stream_free p w =
      if p == 0
      then null w
      else as_stream (λ s. if s.disposed then null w else null (stream_checked_in s (free p w)))
          (w.heap p)
