-- ===== src/Session/Frame.antt =====
-- A rule for the handlers of src/server/mod.rs: what their few kinds of change to the session preserve, they
-- preserve.
use monnok_gigastt.Base.{
  ℕ, ◌≡◌, refl, Bool, true, false, inl, inr, ◌⊎◌, Bool-cases, ◌==◌, if◌then◌else◌, Option, none,
  some, List, [], ◌∷◌, map,
}
use monnok_gigastt.Words.{Text}
use monnok_gigastt.Transcript.{TranscriptSegment}
use monnok_gigastt.Pcm.{frame_samples}
use monnok_gigastt.Stream.{StreamingState, Chunk, segments, chunk_failed, create_state, flush_state}
use monnok_gigastt.Protocol.{
  ServerMessage, ready, final_segment, error, inference_error, inference_panic, invalid_sample_rate,
  configure_too_late, unsupported_protocol_version, max_session_duration_exceeded, ClientMessage,
  stop, configure, message, close_frame, send_out, supported_rates,
}
use monnok_gigastt.Session.{
  Environment, Session, Task, finishes, panics, is_lost, Flow, goes_on, breaks, fails, unwinds,
  send_then, send_segments, reset, finished, run_task, infer, at_16k, handle_binary_frame,
  handle_configure_message, handle_stop_message, flush_and_final, is_panic, segment_message,
  resampled, contains, is_unsupported, set_rate, set_diarization, stopped, flushed, with_both,
  with_state, or_empty,
}
use monnok_gigastt.Session.Loop.{
  WsMessage, binary, text, close, ping_pong, Event, cancelled, deadline, received, socket_error,
  stream_ended, idle_timeout, on_client_message, on_message, say, farewell, react,
}

-- A message that is no greeting.
abbrev pub IsLater : ServerMessage → Type 0
IsLater (ready rate rates diarization) = ⊥
IsLater _ = Unit {0}

module _ {R D T : Type 0} (env : Environment R D) where
  pub record Preserved (P : Session R D T → Type 0) : Type 0 where
    pub on_send :
        (s : Session R D T) (msg : ServerMessage)
        → IsLater msg
        → P s
        → P (record s { sink = (send_out env.delivers s.sink (message msg)).0 })
    pub on_state :
        (s : Session R D T) (st : Option (StreamingState R D)) (t : Option T)
        → P s
        → P (record s { state_opt = st; triplet_opt = t })
    pub on_audio :
        (s : Session R D T) (pending : Option ℕ)
        → P s
        → P (record s { audio_received = true; pending_byte = pending })
    pub on_rate :
        (s : Session R D T) (rate : ℕ)
        → s.audio_received ≡ false
        → contains supported_rates rate ≡ true
        → P s
        → P (record s { client_sample_rate = rate })

module _ {R D T : Type 0} (env : Environment R D) (P : Session R D T → Type 0) where
  -- After an event: preserved, or preserved up to a Close frame, with which the session breaks off.
  abbrev pub AfterEvent : Session R D T × Flow → Type 0
  AfterEvent (s, f) =
      P s
      ⊎ ((s' : Session R D T) × (code : ℕ) × P s'
          × (s ≡ say env s' (close_frame code))
          × (f ≡ breaks))

module _ {R D T : Type 0} (env : Environment R D) (P : Session R D T → Type 0)
    (p : Preserved env P) where
  if_P : (c : Bool) (x y : Session R D T × Flow) → P x.0 → P y.0 → P (if c then x else y).0
  if_P true x y h k = h
  if_P false x y h k = k

  send_then-P :
      (s : Session R D T) (msg : ServerMessage) (f : Flow)
      → IsLater msg
      → P s
      → P (send_then env s msg f).0
  unfolding send_then
  send_then-P s msg f h v = p.on_send s msg h v

  segment-IsLater : (seg : TranscriptSegment) → IsLater (segment_message seg)
  segment-IsLater seg = elim (Bool-cases seg.is_final) [ inl e ↦ rw e tt | inr e ↦ rw e tt ]

  send_segments-P :
      (s : Session R D T) (segs : List TranscriptSegment) → P s → P (send_segments env s segs).0
  unfolding send_segments
  send_segments-P s [] v = v
  send_segments-P s (seg ∷ segs) v =
      let up = p.on_send s (segment_message seg) (segment-IsLater seg) v in
      let k = (send_out env.delivers s.sink (message (segment_message seg))).0 in
      if_P _ _ _ (send_segments-P (record s { sink = k }) segs up) up

  reset-P : (s : Session R D T) (t : T) → P s → P (reset env s t).0
  unfolding reset
  reset-P s t v =
      send_then-P _ (error inference_panic none) goes_on tt
        (p.on_state s (some (create_state env.engine false)) (some t) v)

  run_task-P :
      (s : Session R D T) (t : T) (task : Task) (r : Chunk × StreamingState R D)
      → P s
      → P (run_task env s t task r).0
  unfolding run_task finished
  run_task-P s t finishes (segments ss, st) v =
      send_segments-P _ ss (p.on_state s (some st) (some t) v)
  run_task-P s t finishes (chunk_failed er, st) v =
      if_P (is_panic er) _ _ (reset-P s t v)
        (send_then-P _ (error inference_error none) goes_on tt (p.on_state s (some st) (some t) v))
  run_task-P s t panics r v = reset-P s t v
  run_task-P s t is_lost r v = p.on_state s none none v

  with_both-P :
      (task : Task) (now : ℕ) (samples : List ℕ) (s : Session R D T)
      (st : Option (StreamingState R D)) (t : Option T)
      → P s
      → P (with_both env task now samples s st t).0
  with_both-P task now samples s none t v = v
  with_both-P task now samples s (some st) none v = p.on_state s none s.triplet_opt v
  with_both-P task now samples s (some st) (some t) v = run_task-P s t task _ v

  infer-P :
      (task : Task) (now : ℕ) (samples : List ℕ) (s : Session R D T)
      → P s
      → P (infer env task now samples s).0
  unfolding infer
  infer-P task now samples s v = with_both-P task now samples s s.state_opt s.triplet_opt v

  with_state-P :
      (task : Task) (now : ℕ) (samples : List ℕ) (s : Session R D T)
      (st : Option (StreamingState R D))
      → P s
      → P (with_state env task now samples s st).0
  with_state-P task now samples s none v = v
  with_state-P task now samples s (some st) v =
      go (env.resample samples s.client_sample_rate st.resampler)
    where
      go : (o : Option (List ℕ × Option R)) → P (resampled env task now s st o).0
      go none = v
      go (some (out, r)) =
          infer-P task now out _ (p.on_state s (some (record st { resampler = r })) s.triplet_opt v)

  -- With at least one byte, the property is needed only once the arrival of audio is noted.
  pub audio-P :
      (task : Task) (now b : ℕ) (bytes : List ℕ) (s : Session R D T)
      → P (record s {
        audio_received = true;
        pending_byte = (frame_samples s.pending_byte (b ∷ bytes)).1;
      })
      → P (handle_binary_frame env task now (b ∷ bytes) s).0
  unfolding handle_binary_frame at_16k
  audio-P task now b bytes s up =
      let r = frame_samples s.pending_byte (b ∷ bytes) in
      let s' = record s { audio_received = true; pending_byte = r.1 } in
      if_P (s.client_sample_rate == 16000) _ _ (infer-P task now (map env.to_f32 r.0) s' up)
        (with_state-P task now (map env.to_f32 r.0) s' s.state_opt up)

  handle_binary_frame-P :
      (task : Task) (now : ℕ) (bytes : List ℕ) (s : Session R D T)
      → P s
      → P (handle_binary_frame env task now bytes s).0
  unfolding handle_binary_frame
  handle_binary_frame-P task now [] s v = v
  handle_binary_frame-P task now (b ∷ bytes) s v =
      audio-P task now b bytes s (p.on_audio s (frame_samples s.pending_byte (b ∷ bytes)).1 v)

  set_rate-P :
      (s : Session R D T) (rate : Option ℕ)
      → s.audio_received ≡ false
      → P s
      → P (set_rate env s rate).0
  set_rate-P s none e v = v
  set_rate-P s (some rate) e v = go (contains supported_rates rate) (λ c. p.on_rate s rate e c v)
    where
      go :
          (c : Bool)
          → (c ≡ true → P (record s { client_sample_rate = rate }))
          → P
              (if c
                then (record s { client_sample_rate = rate }, goes_on)
                else send_then env s (error invalid_sample_rate none) goes_on).0
      go true h = h refl
      go false h = send_then-P s (error invalid_sample_rate none) goes_on tt v

  set_diarization-P :
      (d : Option Bool) (s : Session R D T) (f : Flow) → P s → P (set_diarization env d (s, f)).0
  set_diarization-P none s f v = v
  set_diarization-P (some b) s goes_on v =
      p.on_state s (some (create_state env.engine b)) s.triplet_opt v
  set_diarization-P (some b) s breaks v = v
  set_diarization-P (some b) s fails v = v
  set_diarization-P (some b) s unwinds v = v

  handle_configure_message-P :
      (rate : Option ℕ) (d : Option Bool) (version : Option Text) (s : Session R D T)
      → P s
      → P (handle_configure_message env rate d version s).0
  unfolding handle_configure_message
  handle_configure_message-P rate d version s v = go s.audio_received refl
    where
      go :
          (a : Bool)
          → s.audio_received ≡ a
          → P
              (if a
                then send_then env s (error configure_too_late none) goes_on
                else if is_unsupported version
                then send_then env s (error unsupported_protocol_version none) breaks
                else set_diarization env d (set_rate env s rate)).0
      go true e = send_then-P s (error configure_too_late none) goes_on tt v
      go false e =
          if_P (is_unsupported version) _ _
            (send_then-P s (error unsupported_protocol_version none) breaks tt v)
            (set_diarization-P d (set_rate env s rate).0 (set_rate env s rate).1
              (set_rate-P s rate e v))

  stopped-P :
      (now : ℕ) (s : Session R D T) (st : Option (StreamingState R D))
      → P s
      → P (stopped env now s st).0
  stopped-P now s none v = v
  stopped-P now s (some st) v =
      send_then-P _ (final_segment (or_empty now (flush_state st now).0)) breaks tt
        (p.on_state s none s.triplet_opt v)

  flush_and_final-P : (now : ℕ) (s : Session R D T) → P s → P (flush_and_final env now s).0
  unfolding flush_and_final
  flush_and_final-P now s v =
      send_then-P _ (final_segment (or_empty now (flushed now s.state_opt).0)) goes_on tt
        (p.on_state s (flushed now s.state_opt).1 s.triplet_opt v)

  on_client_message-P :
      (now : ℕ) (bytes : List ℕ) (m : Option ClientMessage) (s : Session R D T)
      → P s
      → P (on_client_message env now bytes m s).0
  unfolding handle_stop_message
  on_client_message-P now bytes none s v = v
  on_client_message-P now bytes (some stop) s v = stopped-P now s s.state_opt v
  on_client_message-P now bytes (some (configure rate d version)) s v =
      handle_configure_message-P rate d version s v

  on_message-P : (now : ℕ) (m : WsMessage) (s : Session R D T) → P s → P (on_message env now m s).0
  unfolding on_message
  on_message-P now (binary bytes task) s v = handle_binary_frame-P task now bytes s v
  on_message-P now (text bytes) s v = on_client_message-P now bytes (env.parse bytes) s v
  on_message-P now close s v = v
  on_message-P now ping_pong s v = v

  pub react-P : (ev : Event) (s : Session R D T) → P s → AfterEvent env P (react env ev s)
  unfolding react farewell
  react-P (cancelled now) s v =
      inr ((flush_and_final env now s).0, 1001, flush_and_final-P now s v, refl, refl)
  react-P (deadline now) s v =
      let s' = say env s (message (error max_session_duration_exceeded none)) in
      let up : P s' = unfold say in p.on_send s (error max_session_duration_exceeded none) tt v in
      inr ((flush_and_final env now s').0, 1008, flush_and_final-P now s' up, refl, refl)
  react-P (received now m) s v = inl (on_message-P now m s v)
  react-P socket_error s v = inl v
  react-P stream_ended s v = inl v
  react-P idle_timeout s v = inl v
