-- ===== src/Session/Intact.antt =====
-- The session triplet and the streaming state over a whole session of src/server/mod.rs.
use monnok_gigastt.Base.{
  ℕ, ◌≡◌, refl, arith, Bool, true, false, ◌||◌, ◌&&◌, if◌then◌else◌, Option, none, some, List, [],
  ◌∷◌,
}
use monnok_gigastt.Protocol.{ClientMessage, stop, configure}
use monnok_gigastt.Session.{
  Environment, Session, finishes, panics, is_lost, Flow, goes_on, breaks, fails, unwinds, send_then,
  flush_and_final,
}
use monnok_gigastt.Session.Loop.{
  binary, text, close, ping_pong, Event, cancelled, deadline, received, socket_error, stream_ended,
  idle_timeout, End, running, ended_ok, ended_err, unwound, slice_panics, on_client_message,
  on_message, say, farewell, react, session_loop, continue_session,
}
use monnok_gigastt.Session.Kept.{
  is_socket_error, any_socket_error, TaskReturns, AllReturn, Blame, socket_failed, Blame-mono,
  IsIntact, Kept, handle_binary_frame-Kept, handle_configure_message-Kept, handle_stop_message-Kept,
}

module _ {R D T : Type 0} (env : Environment R D) where
  flush_and_final-Kept :
      (t : T) (b : Bool) (now : ℕ) (s : Session R D T)
      → IsIntact env t s
      → (flush_and_final env now s).0.triplet_opt ≡ some t
  unfolding flush_and_final send_then
  flush_and_final-Kept t b now s (has, _) = has

  farewell-Kept :
      (t : T) (b : Bool) (now code : ℕ) (s : Session R D T)
      → IsIntact env t s
      → Kept env t b (farewell env now code s)
  unfolding farewell say
  farewell-Kept t b now code s v = flush_and_final-Kept t b now s v

  on_client_message-Kept :
      (t : T) (b : Bool) (now : ℕ) (bytes : List ℕ) (m : Option ClientMessage) (s : Session R D T)
      → IsIntact env t s
      → Kept env t b (on_client_message env now bytes m s)
  on_client_message-Kept t b now bytes (some stop) s v = handle_stop_message-Kept env t b now s v
  on_client_message-Kept t b now bytes (some (configure rate d version)) s v =
      handle_configure_message-Kept env t b rate d version s v
  on_client_message-Kept t b now bytes none s v = log env.debug_enabled (slice_panics bytes) refl
    where
      log :
          (d p : Bool)
          → env.debug_enabled ≡ d
          → Kept env t b (s, if d && p then unwinds else goes_on)
      log true true e = e
      log true false e = v
      log false p e = v

  react-Kept :
      (t : T) (ev : Event) (s : Session R D T)
      → TaskReturns ev
      → IsIntact env t s
      → Kept env t (is_socket_error ev) (react env ev s)
  unfolding react on_message say
  react-Kept t (cancelled now) s r v = farewell-Kept t false now 1001 s v
  react-Kept t (deadline now) s r v = farewell-Kept t false now 1008 _ v
  react-Kept t (received now (binary bytes finishes)) s r v =
      handle_binary_frame-Kept env t false finishes now bytes s (λ h. cc) v
  react-Kept t (received now (binary bytes panics)) s r v =
      handle_binary_frame-Kept env t false panics now bytes s (λ h. cc) v
  react-Kept t (received now (binary bytes is_lost)) s r v = absurd r
  react-Kept t (received now (text bytes)) s r v =
      on_client_message-Kept t false now bytes (env.parse bytes) s v
  react-Kept t (received now close) s r v = v.0
  react-Kept t (received now ping_pong) s r v = v
  react-Kept t socket_error s r v = (v.0, socket_failed refl)
  react-Kept t stream_ended s r v = v.0
  react-Kept t idle_timeout s r v = v.0

  -- What is left of a session.
  abbrev pub KeptAtEnd : T → Bool → Session R D T × End → Type 0
  KeptAtEnd t b (s, running) = IsIntact env t s
  KeptAtEnd t b (s, ended_ok) = s.triplet_opt ≡ some t
  KeptAtEnd t b (s, ended_err) = (s.triplet_opt ≡ some t) × Blame env b
  KeptAtEnd t b (s, unwound) = env.debug_enabled ≡ true

  ends_now :
      (t : T) (b c : Bool) (rest : Session R D T → Session R D T × End) (r : Session R D T × Flow)
      → Kept env t b r
      → ((s : Session R D T) → IsIntact env t s → KeptAtEnd t c (rest s))
      → KeptAtEnd t (b || c) (continue_session env rest r)
  ends_now t b c rest (s, goes_on) k ih = widen (rest s).1 (ih s k)
    where
      widen : (e : End) → KeptAtEnd t c ((rest s).0, e) → KeptAtEnd t (b || c) ((rest s).0, e)
      widen running h = h
      widen ended_ok h = h
      widen ended_err h = (h.0, Blame-mono env c b (b || c) (λ e. ground arith) h.1)
      widen unwound h = h
  ends_now t b c rest (s, breaks) k ih = k
  ends_now t b c rest (s, fails) k ih = (k.0, Blame-mono env b c (b || c) (λ e. ground arith) k.1)
  ends_now t b c rest (s, unwinds) k ih = k

  -- As long as every blocking task comes back, with its result or with a panic that is caught, a session
  -- keeps its triplet whatever the client sends and however sends, resampling and inference fail.
  -- While it runs it also has a streaming state that is ready, so that its own errors for a lost
  -- state or a lost triplet never occur: it ends with an error only after a send, the resampler or
  -- the socket has failed. A panic of its own needs the debug log.
  pub session_loop-KeptAtEnd :
      (t : T) (evs : List Event) (s : Session R D T)
      → AllReturn evs
      → IsIntact env t s
      → KeptAtEnd t (any_socket_error evs) (session_loop env evs s)
  unfolding session_loop
  session_loop-KeptAtEnd t [] s r v = v
  session_loop-KeptAtEnd t (ev ∷ evs) s r v =
      ends_now t (is_socket_error ev) (any_socket_error evs) (session_loop env evs) (react env ev s)
        (react-Kept t ev s r.0 v) (λ s' v'. session_loop-KeptAtEnd t evs s' r.1 v')
