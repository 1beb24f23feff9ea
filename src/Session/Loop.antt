-- ===== src/Session/Loop.antt =====
-- `handle_ws_inner` and `handle_ws` of src/server/mod.rs. The loop takes what it waits for as a list of
-- events, one for each round.
use monnok_gigastt.Base.{
  ℕ, ◌+◌, ◌-◌, Bool, true, false, not, ◌&&◌, ◌||◌, ltb, leb, if◌then◌else◌, Option, none, some,
  List, [], ◌∷◌, length, get_elem?,
}
use monnok_gigastt.Pool.{Waiter, PoolInner}
use monnok_gigastt.Pool.Guard.{reservation_checkin}
use monnok_gigastt.Stream.{create_state}
use monnok_gigastt.Protocol.{
  max_session_duration_exceeded, pool_closed, timeout, ready, error, ClientMessage, stop, configure,
  supported_rates, default_sample_rate, Out, message, close_frame, Sink, send_out, RuntimeLimits,
  pool_retry_after_ms, session_deadline,
}
use monnok_gigastt.Session.{
  Environment, Session, Task, Flow, goes_on, breaks, fails, unwinds, handle_binary_frame,
  handle_configure_message, handle_stop_message, flush_and_final,
}

pub data WsMessage : Type 0 where
  binary : List ℕ → Task → WsMessage
  text : List ℕ → WsMessage
  close : WsMessage
  ping_pong : WsMessage

-- What one round of the loop waits for, with the clock reading at it.
pub data Event : Type 0 where
  cancelled : ℕ → Event
  deadline : ℕ → Event
  received : ℕ → WsMessage → Event
  socket_error : Event
  stream_ended : Event
  idle_timeout : Event

-- How the loop ends; `running` stands for a loop that waits for its next event.
pub data End : Type 0 where
  running ended_ok ended_err unwound : End

-- `text.len().min(100)` is where a character begins, or the end: else the slice panics.
abbrev pub begins_char : Option ℕ → Bool
begins_char none = true
begins_char (some b) = ltb b 128 || leb 192 b

unfoldable pub slice_panics : List ℕ → Bool
slice_panics bytes = leb 100 (length bytes) && not (begins_char (get_elem? bytes 100))

module _ {R D T : Type 0} (env : Environment R D) where
  -- Text that is no message is logged, if the log is that fine, and skipped.
  abbrev pub on_client_message :
      ℕ → List ℕ → Option ClientMessage → Session R D T → Session R D T × Flow
  on_client_message now bytes none s =
      (s, if env.debug_enabled && slice_panics bytes then unwinds else goes_on)
  on_client_message now bytes (some stop) s = handle_stop_message env now s
  on_client_message now bytes (some (configure rate diarization version)) s =
      handle_configure_message env rate diarization version s

  unfoldable pub on_message : ℕ → WsMessage → Session R D T → Session R D T × Flow
  on_message now (binary bytes task) s = handle_binary_frame env task now bytes s
  on_message now (text bytes) s = on_client_message now bytes (env.parse bytes) s
  on_message now close s = (s, breaks)
  on_message now ping_pong s = (s, goes_on)

  -- Best effort: the result of the send is ignored.
  unfoldable pub say : Session R D T → Out → Session R D T
  say s out = record s { sink = (send_out env.delivers s.sink out).0 }

  unfoldable pub farewell : ℕ → ℕ → Session R D T → Session R D T × Flow
  unfolding say
  farewell now code s = (say (flush_and_final env now s).0 (close_frame code), breaks)

  unfoldable pub react : Event → Session R D T → Session R D T × Flow
  unfolding farewell say
  react (cancelled now) s = farewell now 1001 s
  react (deadline now) s =
      farewell now 1008 (say s (message (error max_session_duration_exceeded none)))
  react (received now m) s = on_message now m s
  react socket_error s = (s, fails)
  react stream_ended s = (s, breaks)
  react idle_timeout s = (s, breaks)

  abbrev pub continue_session :
      (Session R D T → Session R D T × End) → Session R D T × Flow → Session R D T × End
  continue_session rest (s, goes_on) = rest s
  continue_session rest (s, breaks) = (s, ended_ok)
  continue_session rest (s, fails) = (s, ended_err)
  continue_session rest (s, unwinds) = (s, unwound)

  unfoldable pub session_loop : List Event → Session R D T → Session R D T × End
  session_loop [] s = (s, running)
  session_loop (ev ∷ evs) s = continue_session (session_loop evs) (react ev s)

  unfoldable pub session_new : Sink → T → Session R D T
  session_new k t = record {
    sink = k;
    state_opt = some (create_state env.engine false);
    triplet_opt = some t;
    client_sample_rate = default_sample_rate;
    audio_received = false;
    pending_byte = none;
  }

  abbrev pub with_deadline : List Event → Session R D T → Option ℕ → Session R D T × End
  with_deadline evs s none = (s, unwound)
  with_deadline evs s (some d) = session_loop evs s

  -- The first message, then the deadline, then the loop.
  unfoldable pub handle_ws_inner :
      RuntimeLimits → (last_instant start : ℕ) → T → List Event → Session R D T × End
  handle_ws_inner limits last_instant start t evs =
      let greeting =
        message (ready default_sample_rate supported_rates env.engine.has_speaker_encoder) in
      let (k, delivered) = send_out env.delivers (record { sent = []; attempts = 0 }) greeting in
      if delivered
      then with_deadline evs (session_new k t) (session_deadline last_instant limits start)
      else (session_new k t, ended_err)

-- What arrives of a single message on a fresh socket.
abbrev pub said : (ℕ → Bool) → Out → List Out
said delivers out = (send_out delivers (record { sent = []; attempts = 0 }) out).0.sent

-- How the wait for a session triplet ends.
pub data Checkout (T : Type 0) : Type 0 where
  shut_down : Checkout T
  got : T → Checkout T
  closed_pool : Checkout T
  timed_out : Checkout T

-- What a connection leaves behind: the pool, the gauge of active connections, the counter of timeouts, and
-- what was sent.
pub record Served (T : Type 0) : Type 0 where
  pub pool : PoolInner T
  pub active_connections : ℕ
  pub pool_timeouts : ℕ
  pub written : List Out

abbrev pub give_back : {T : Type 0} → (Waiter → Bool) → PoolInner T → Option T → PoolInner T
give_back alive p none = p
give_back alive p (some t) = (reservation_checkin alive p t).0

-- After a panic the triplet and its reservation are dropped.
abbrev pub after_session :
    {R D T : Type 0} → (Waiter → Bool) → Served T → Session R D T × End → Served T
after_session alive w (s, unwound) = record w { written = s.sink.sent }
after_session alive w (s, end) = record w {
  pool = give_back alive w.pool s.triplet_opt;
  written = s.sink.sent;
}

module _ {R D T : Type 0} (env : Environment R D) where
  -- The body, between the two changes of the gauge.
  unfoldable pub serve_checkout :
      RuntimeLimits
      → (last_instant start : ℕ) → (Waiter → Bool)
      → List Event
      → Checkout T
      → Served T
      → Served T
  serve_checkout limits last_instant start alive evs shut_down w = record w {
    written = said env.delivers (close_frame 1001);
  }
  serve_checkout limits last_instant start alive evs closed_pool w = record w {
    written = said env.delivers (message (error pool_closed none));
  }
  serve_checkout limits last_instant start alive evs timed_out w = record w {
    pool_timeouts = w.pool_timeouts + 1;
    written = said env.delivers (message (error timeout (some (pool_retry_after_ms limits))));
  }
  serve_checkout limits last_instant start alive evs (got t) w =
      after_session alive w (handle_ws_inner env limits last_instant start t evs)

  -- The guard of the gauge is dropped on every way out, by a panic too.
  unfoldable pub handle_ws :
      RuntimeLimits
      → (last_instant start : ℕ) → (Waiter → Bool)
      → List Event
      → Checkout T
      → Served T
      → Served T
  handle_ws limits last_instant start alive evs c w =
      let w' =
        serve_checkout limits last_instant start alive evs c
          (record w { active_connections = w.active_connections + 1 }) in
      record w' { active_connections = w'.active_connections - 1 }
