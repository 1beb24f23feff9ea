-- ===== src/Session/Settings.antt =====
-- The sample rate of a session of src/server/mod.rs.
use monnok_gigastt.Base.{ℕ, ◌≡◌, refl, inl, inr, true, List, [], ◌∷◌}
use monnok_gigastt.Protocol.{supported_rates, close_frame, Sink, send_out}
use monnok_gigastt.Session.{
  Environment, Session, Task, Flow, handle_binary_frame, goes_on, breaks, fails, unwinds, contains,
}
use monnok_gigastt.Session.Loop.{
  Event, received, binary, say, react, on_message, session_loop, continue_session,
}
use monnok_gigastt.Session.Frame.{Preserved, AfterEvent, react-P, audio-P}

module _ {R D T : Type 0} (env : Environment R D) where
  abbrev pub IsSupported : Session R D T → Type 0
  IsSupported s = contains supported_rates s.client_sample_rate ≡ true

  abbrev pub IsFixed : ℕ → Session R D T → Type 0
  IsFixed rate s = (s.audio_received ≡ true) × (s.client_sample_rate ≡ rate)

  IsSupported-Preserved : Preserved env IsSupported
  IsSupported-Preserved = record {
    on_send = λ s msg h v. v;
    on_state = λ s st t v. v;
    on_audio = λ s pending v. v;
    on_rate = λ s rate e c v. c;
  }

  IsFixed-Preserved : (rate : ℕ) → Preserved env (IsFixed rate)
  IsFixed-Preserved rate = record {
    on_send = λ s msg h v. v;
    on_state = λ s st t v. v;
    on_audio = λ s pending v. (refl, v.1);
    on_rate = λ s r e c v. cc;
  }

  -- A property that ignores the sink holds after a Close frame too.
  after_close :
      (P : Session R D T → Type 0)
      → ((s : Session R D T) (k : Sink) → P s → P (record s { sink = k }))
      → (r : Session R D T × Flow) → AfterEvent env P r
      → P r.0
  unfolding say
  after_close P ignores (s, f) (inl v) = v
  after_close P ignores (s, f) (inr (s', code, v, e, b)) =
      rw e (ignores s' (send_out env.delivers s'.sink (close_frame code)).0 v)

  continue-P :
      (P : Session R D T → Type 0) (evs : List Event)
      → ((s : Session R D T) → P s → P (session_loop env evs s).0)
      → (r : Session R D T × Flow) → P r.0
      → P (continue_session env (session_loop env evs) r).0
  continue-P P evs ih (s, goes_on) v = ih s v
  continue-P P evs ih (s, breaks) v = v
  continue-P P evs ih (s, fails) v = v
  continue-P P evs ih (s, unwinds) v = v

  loop-P :
      (P : Session R D T → Type 0)
      → Preserved env P
      → ((s : Session R D T) (k : Sink) → P s → P (record s { sink = k }))
      → (evs : List Event) (s : Session R D T) → P s
      → P (session_loop env evs s).0
  unfolding session_loop
  loop-P P p ignores [] s v = v
  loop-P P p ignores (ev ∷ evs) s v =
      continue-P P evs (λ s' v'. loop-P P p ignores evs s' v') (react env ev s)
        (after_close P ignores (react env ev s) (react-P env P p ev s v))

  audio-IsFixed :
      (task : Task) (now b : ℕ) (bytes : List ℕ) (evs : List Event) (s : Session R D T)
      → IsFixed s.client_sample_rate
          (session_loop env (received now (binary (b ∷ bytes) task) ∷ evs) s).0
  unfolding session_loop react on_message
  audio-IsFixed task now b bytes evs s =
      let P : Session R D T → Type 0 = IsFixed s.client_sample_rate in
      let p = IsFixed-Preserved s.client_sample_rate in
      continue-P P evs (λ s' v. loop-P P p (λ s'' k h. h) evs s' v)
        (handle_binary_frame env task now (b ∷ bytes) s)
        (audio-P env P p task now b bytes s (refl, refl))

  -- The client cannot break the meaning of its samples. A session with a supported rate always has one;
  -- and a binary message of at least one byte fixes it: whatever becomes of its samples, and whatever
  -- is sent later, the rate stays what it was when that message came.
  pub session_loop-rate :
      (task : Task) (now b : ℕ) (bytes : List ℕ) (evs : List Event) (s : Session R D T)
      → IsSupported s
      → IsSupported (session_loop env evs s).0
        × ((session_loop env (received now (binary (b ∷ bytes) task) ∷ evs) s).0.client_sample_rate
            ≡ s.client_sample_rate)
  session_loop-rate task now b bytes evs s v = (
    loop-P IsSupported IsSupported-Preserved (λ s' k h. h) evs s v,
    (audio-IsFixed task now b bytes evs s).1,
  )
