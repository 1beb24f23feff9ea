-- ===== src/Session/Kept.antt =====
-- The session triplet and the streaming state in each handler of src/server/mod.rs.
use monnok_gigastt.Base.{
  ℕ, ◌≡◌, ◌≢◌, refl, sym, subst, Bool, true, false, ◌||◌, inl, inr, Bool-cases, ◌==◌, if◌then◌else◌,
  Option, none, some, List, [], ◌∷◌,
}
use monnok_gigastt.Words.{Text}
use monnok_gigastt.Transcript.{TranscriptSegment}
use monnok_gigastt.Stream.{StreamingState, Chunk, segments, chunk_failed, create_state, flush_state}
use monnok_gigastt.Stream.Ready.{IsReady, process_chunk-Settled, create_state-IsReady}
use monnok_gigastt.Protocol.{
  ServerMessage, error, inference_error, inference_panic, configure_too_late,
  unsupported_protocol_version, invalid_sample_rate, final_segment, message, send_out,
  supported_rates,
}
use monnok_gigastt.Session.{
  Environment, Session, Task, finishes, panics, is_lost, Flow, goes_on, breaks, fails, unwinds,
  send_then, send_segments, reset, finished, run_task, infer, at_16k, handle_binary_frame,
  handle_configure_message, handle_stop_message, is_panic, segment_message, resampled, contains,
  is_unsupported, set_rate, set_diarization, stopped, with_both, with_state, or_empty,
}
use monnok_gigastt.Session.Loop.{binary, Event, received, socket_error}

abbrev pub is_socket_error : Event → Bool
is_socket_error socket_error = true
is_socket_error _ = false

abbrev pub any_socket_error : List Event → Bool
any_socket_error [] = false
any_socket_error (ev ∷ evs) = is_socket_error ev || any_socket_error evs

-- The blocking task of the event comes back.
abbrev pub TaskReturns : Event → Type 0
TaskReturns (received now (binary bytes is_lost)) = ⊥
TaskReturns _ = Unit {0}

abbrev pub AllReturn : List Event → Type 0
AllReturn [] = Unit {0}
AllReturn (ev ∷ evs) = TaskReturns ev × AllReturn evs

module _ {R D : Type 0} (env : Environment R D) where
  -- Why a session may end with an error.
  pub data Blame (socket : Bool) : Type 0 where
    send_failed : (n : ℕ) → env.delivers n ≡ false → Blame socket
    resampler_failed :
        (samples : List ℕ) (rate : ℕ) (r : Option R)
        → env.resample samples rate r ≡ none
        → Blame socket
    socket_failed : socket ≡ true → Blame socket

  pub Blame-mono : (a b c : Bool) → (a ≡ true → c ≡ true) → Blame a → Blame c
  Blame-mono a b c h (send_failed n d) = send_failed n d
  Blame-mono a b c h (resampler_failed samples rate r e) = resampler_failed samples rate r e
  Blame-mono a b c h (socket_failed e) = socket_failed (h e)

module _ {R D T : Type 0} (env : Environment R D) where
  -- The triplet is there, and a streaming state that is ready.
  abbrev pub IsIntact : T → Session R D T → Type 0
  IsIntact t s =
      (s.triplet_opt ≡ some t) × ((st : StreamingState R D) × (s.state_opt ≡ some st) × IsReady st)

  -- After a handler: intact if the session goes on; else the triplet is there to be given back, and an
  -- error has a cause outside the handler.
  abbrev pub Kept : T → Bool → Session R D T × Flow → Type 0
  Kept t b (s, goes_on) = IsIntact t s
  Kept t b (s, breaks) = s.triplet_opt ≡ some t
  Kept t b (s, fails) = (s.triplet_opt ≡ some t) × Blame env b
  Kept t b (s, unwinds) = env.debug_enabled ≡ true

  if_Kept :
      (t : T) (b c : Bool) (x y : Session R D T × Flow)
      → Kept t b x
      → Kept t b y
      → Kept t b (if c then x else y)
  if_Kept t b true x y h k = h
  if_Kept t b false x y h k = k

  send_goes :
      (t : T) (b : Bool) (s : Session R D T) (msg : ServerMessage)
      → IsIntact t s
      → Kept t b (send_then env s msg goes_on)
  unfolding send_then send_out
  send_goes t b s msg v = elim (Bool-cases (env.delivers s.sink.attempts)) [
    | inl d ↦ rw d v
    | inr d ↦ rw d (v.0, send_failed s.sink.attempts d)
  ]

  send_breaks :
      (t : T) (b : Bool) (s : Session R D T) (msg : ServerMessage)
      → s.triplet_opt ≡ some t
      → Kept t b (send_then env s msg breaks)
  unfolding send_then send_out
  send_breaks t b s msg v = elim (Bool-cases (env.delivers s.sink.attempts)) [
    | inl d ↦ rw d v
    | inr d ↦ rw d (v, send_failed s.sink.attempts d)
  ]

  send_segments-Kept :
      (t : T) (b : Bool) (s : Session R D T) (segs : List TranscriptSegment)
      → IsIntact t s
      → Kept t b (send_segments env s segs)
  unfolding send_segments send_out
  send_segments-Kept t b s [] v = v
  send_segments-Kept t b s (seg ∷ segs) v =
      let k = (send_out env.delivers s.sink (message (segment_message seg))).0 in
      let ih = send_segments-Kept t b (record s { sink = k }) segs v in
      elim (Bool-cases (env.delivers s.sink.attempts)) [
        | inl d ↦ rw d (rw d at ih)
        | inr d ↦ rw d (v.0, send_failed s.sink.attempts d)
      ]

  reset-Kept : (t : T) (b : Bool) (s : Session R D T) → Kept t b (reset env s t)
  unfolding reset
  reset-Kept t b s =
      send_goes t b
        (record s { state_opt = some (create_state env.engine false); triplet_opt = some t })
        (error inference_panic none)
        (refl, (create_state env.engine false, refl, create_state-IsReady env.engine false))

  finished-Kept :
      (t : T) (b : Bool) (s : Session R D T) (c : Chunk) (st : StreamingState R D)
      → IsReady st
      → Kept t b (finished env s t (c, st))
  unfolding finished
  finished-Kept t b s (segments ss) st v = send_segments-Kept t b _ ss (refl, (st, refl, v))
  finished-Kept t b s (chunk_failed er) st v = if_Kept t b (is_panic er) _ _ (reset-Kept t b s) (
      send_goes t b (record s { state_opt = some st; triplet_opt = some t })
        (error inference_error none) (refl, (st, refl, v)))

  run_task-Kept :
      (t : T) (b : Bool) (s : Session R D T) (task : Task) (c : Chunk) (st : StreamingState R D)
      → task ≢ is_lost
      → IsReady st
      → Kept t b (run_task env s t task (c, st))
  unfolding run_task
  run_task-Kept t b s finishes c st ne v = finished-Kept t b s c st v
  run_task-Kept t b s panics c st ne v = reset-Kept t b s
  run_task-Kept t b s is_lost c st ne v = absurd (ne refl)

  infer-Kept :
      (t : T) (b : Bool) (task : Task) (now : ℕ) (samples : List ℕ) (s : Session R D T)
      → task ≢ is_lost
      → IsIntact t s
      → Kept t b (infer env task now samples s)
  unfolding infer
  infer-Kept t b task now samples s ne (has, (st, at, v)) =
      subst (λ o. Kept t b (with_both env task now samples s o s.triplet_opt)) (sym at)
        (subst (λ o. Kept t b (with_both env task now samples s (some st) o)) (sym has)
          (run_task-Kept t b s task _ _ ne (process_chunk-Settled env.engine samples st now v).0))

  resampled-Kept :
      (t : T) (b : Bool) (task : Task) (now : ℕ) (s : Session R D T) (st : StreamingState R D)
      (samples : List ℕ) (o : Option (List ℕ × Option R))
      → task ≢ is_lost
      → s.triplet_opt ≡ some t
      → IsReady st
      → env.resample samples s.client_sample_rate st.resampler ≡ o
      → Kept t b (resampled env task now s st o)
  resampled-Kept t b task now s st samples none ne has v e =
      (has, resampler_failed samples s.client_sample_rate st.resampler e)
  resampled-Kept t b task now s st samples (some (out, r)) ne has v e =
      infer-Kept t b task now out _ ne (
        has,
        (
          record st { resampler = r },
          refl,
          record { shaped = v.shaped; short = v.short; joined_text = v.joined_text },
        ),
      )

  at_16k-Kept :
      (t : T) (b : Bool) (task : Task) (now : ℕ) (samples : List ℕ) (s : Session R D T)
      → task ≢ is_lost
      → IsIntact t s
      → Kept t b (at_16k env task now samples s)
  unfolding at_16k
  at_16k-Kept t b task now samples s ne (has, (st, at, v)) =
      if_Kept t b (s.client_sample_rate == 16000) _ _
        (infer-Kept t b task now samples s ne (has, (st, at, v)))
        (subst (λ o. Kept t b (with_state env task now samples s o)) (sym at)
          (resampled-Kept t b task now s st samples _ ne has v refl))

  pub handle_binary_frame-Kept :
      (t : T) (b : Bool) (task : Task) (now : ℕ) (bytes : List ℕ) (s : Session R D T)
      → task ≢ is_lost
      → IsIntact t s
      → Kept t b (handle_binary_frame env task now bytes s)
  unfolding handle_binary_frame
  handle_binary_frame-Kept t b task now [] s ne v = v
  handle_binary_frame-Kept t b task now (x ∷ bytes) s ne v = at_16k-Kept t b task now _ _ ne v

  set_rate-Kept :
      (t : T) (b : Bool) (s : Session R D T) (rate : Option ℕ)
      → IsIntact t s
      → Kept t b (set_rate env s rate)
  set_rate-Kept t b s none v = v
  set_rate-Kept t b s (some rate) v =
      if_Kept t b (contains supported_rates rate) _ _ v
        (send_goes t b s (error invalid_sample_rate none) v)

  set_diarization-Kept :
      (t : T) (b : Bool) (d : Option Bool) (s : Session R D T) (f : Flow)
      → Kept t b (s, f)
      → Kept t b (set_diarization env d (s, f))
  set_diarization-Kept t b none s f k = k
  set_diarization-Kept t b (some d) s goes_on k =
      (k.0, (create_state env.engine d, refl, create_state-IsReady env.engine d))
  set_diarization-Kept t b (some d) s breaks k = k
  set_diarization-Kept t b (some d) s fails k = k
  set_diarization-Kept t b (some d) s unwinds k = k

  pub handle_configure_message-Kept :
      (t : T) (b : Bool) (rate : Option ℕ) (d : Option Bool) (version : Option Text)
      (s : Session R D T)
      → IsIntact t s
      → Kept t b (handle_configure_message env rate d version s)
  unfolding handle_configure_message
  handle_configure_message-Kept t b rate d version s v =
      let r = set_rate env s rate in
      if_Kept t b s.audio_received _ _ (send_goes t b s (error configure_too_late none) v) (
        if_Kept t b (is_unsupported version) _ _
          (send_breaks t b s (error unsupported_protocol_version none) v.0)
          (set_diarization-Kept t b d r.0 r.1 (set_rate-Kept t b s rate v)))

  pub handle_stop_message-Kept :
      (t : T) (b : Bool) (now : ℕ) (s : Session R D T)
      → IsIntact t s
      → Kept t b (handle_stop_message env now s)
  unfolding handle_stop_message
  handle_stop_message-Kept t b now s (has, (st, at, v)) =
      subst (λ o. Kept t b (stopped env now s o)) (sym at)
        (send_breaks t b (record s { state_opt = none })
          (final_segment (or_empty now (flush_state st now).0)) has)
