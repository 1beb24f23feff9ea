-- ===== src/Session/Tests.antt =====
-- Concrete runs of the sessions of src/server/mod.rs.
use monnok_gigastt.Base.{
  ℕ, ◌≡◌, ◌-◌, ◌^◌, ◌⊎◌, refl, Bool, true, false, ◌==◌, if◌then◌else◌, Option, none, some, List, [],
  ◌∷◌, ◌++◌, arith,
}
use monnok_gigastt.Pool.{Waiter}
use monnok_gigastt.Protocol.{
  ready, final_segment, error, configure, max_session_duration_exceeded, ClientMessage, stop,
  default_sample_rate, supported_rates, message, close_frame, RuntimeLimits, limits_default,
  session_deadline,
}
use monnok_gigastt.Stream.{StreamingState, create_state}
use monnok_gigastt.Stream.Ready.{create_state-IsReady}
use monnok_gigastt.Stream.Scripted.{scripted}
use monnok_gigastt.Session.{Environment, Session, finishes, panics}
use monnok_gigastt.Session.Loop.{
  Event, received, cancelled, deadline, binary, text, ended_err, ended_ok, session_loop,
  session_new, handle_ws_inner, got, Served, handle_ws,
}
use monnok_gigastt.Session.Kept.{any_socket_error}
use monnok_gigastt.Session.Intact.{KeptAtEnd, session_loop-KeptAtEnd}
use monnok_gigastt.Session.Trace.{AtEnd, handle_ws_inner-AtEnd}
use monnok_gigastt.Session.Settings.{IsSupported, session_loop-rate}
use monnok_gigastt.Session.Farewell.{collected, session_loop-collected}
use monnok_gigastt.Session.Connection.{
  returned, session_new-IsIntact, handle_ws-returned, handle_ws_unlimited,
}

-- The text of one byte 's' is a `stop`, of one byte 'c' a `configure` to 8 kHz.
abbrev parsed : List ℕ → Option ClientMessage
parsed (b ∷ []) =
    if b == 115 then some stop else if b == 99 then some (configure (some 8000) none none) else none
parsed _ = none

abbrev quiet_log : Environment ℕ ℕ
quiet_log = record {
  engine = scripted;
  to_f32 = λ n. n;
  resample = λ samples rate r. some (samples, r);
  parse = parsed;
  delivers = λ n. true;
  debug_enabled = false;
}

abbrev opened : Session ℕ ℕ ℕ
opened = session_new quiet_log (record { sent = []; attempts = 0 }) 4

-- A `configure`, audio whose task finishes, audio whose task panics, a late `configure`, a `stop`.
abbrev talk : List Event
talk =
    received 1 (text (99 ∷ []))
    ∷ received 2 (binary (1 ∷ 2 ∷ 3 ∷ []) finishes)
    ∷ received 3 (binary (4 ∷ 5 ∷ []) panics)
    ∷ received 4 (text (99 ∷ []))
    ∷ received 5 (text (115 ∷ []))
    ∷ []

abbrev limits : RuntimeLimits
limits = limits_default

abbrev unlimited : RuntimeLimits
unlimited = record limits { max_session_secs = 0 }

abbrev nobody : Waiter → Bool
nobody w = true

abbrev served : Served ℕ
served = record {
  pool = record { items = 5 ∷ []; waiters = []; closed = false; total = 2 };
  active_connections = 3;
  pool_timeouts = 0;
  written = [];
}

session_loop-KeptAtEnd_example :
    KeptAtEnd quiet_log 4 (any_socket_error talk) (session_loop quiet_log talk opened)
session_loop-KeptAtEnd_example =
    session_loop-KeptAtEnd quiet_log 4 talk opened (tt, (tt, (tt, (tt, (tt, tt)))))
      (session_new-IsIntact quiet_log (record { sent = []; attempts = 0 }) 4)

handle_ws_inner-AtEnd_example :
    let (s, end) = handle_ws_inner {T = ℕ} quiet_log limits 100000 50 4 talk in
    ((s.sink.sent ≡ []) × (end ≡ ended_err)) ⊎ AtEnd s.sink.sent end
handle_ws_inner-AtEnd_example = handle_ws_inner-AtEnd quiet_log limits 100000 50 4 talk

opened-IsSupported : IsSupported quiet_log opened
unfolding session_new
opened-IsSupported = refl

session_loop-rate_example :
    IsSupported quiet_log (session_loop quiet_log talk opened).0
    × ((session_loop quiet_log
          (received 1 (binary (7 ∷ []) finishes) ∷ talk)
          opened).0.client_sample_rate
        ≡ opened.client_sample_rate)
session_loop-rate_example =
    session_loop-rate quiet_log finishes 1 7 [] talk opened opened-IsSupported

abbrev fresh : StreamingState ℕ ℕ
fresh = create_state scripted false

opened_at : opened.state_opt ≡ some fresh
unfolding session_new
opened_at = refl

session_loop-collected_example :
    let last = message (final_segment (collected 9 fresh.assembler)) in
    let at_shutdown = session_loop quiet_log (cancelled 9 ∷ talk) opened in
    let at_limit = session_loop quiet_log (deadline 9 ∷ talk) opened in
    let at_stop = session_loop quiet_log (received 9 (text (115 ∷ [])) ∷ talk) opened in
    ((at_shutdown.0.sink.sent ≡ opened.sink.sent ++ (last ∷ close_frame 1001 ∷ []))
      × (at_shutdown.1 ≡ ended_ok))
    × ((at_limit.0.sink.sent
          ≡ opened.sink.sent
            ++ (message (error max_session_duration_exceeded none) ∷ last ∷ close_frame 1008 ∷ []))
        × (at_limit.1 ≡ ended_ok))
    × ((at_stop.0.sink.sent ≡ opened.sink.sent ++ (last ∷ [])) × (at_stop.1 ≡ ended_ok))
session_loop-collected_example =
    session_loop-collected quiet_log (λ n. refl) 9 (115 ∷ []) talk opened fresh opened_at
      (create_state-IsReady scripted false) refl

limited : session_deadline 100000 limits 50 ≡ some 3650
unfolding session_deadline
limited = refl

handle_ws-returned_example :
    let w' = handle_ws quiet_log limits 100000 50 nobody talk (got 4) served in
    (w'.pool ≡ returned nobody served.pool (got 4))
    × (w'.active_connections ≡ served.active_connections)
handle_ws-returned_example =
    handle_ws-returned quiet_log limits 100000 50 3650 nobody talk (got 4) served refl
      (tt, (tt, (tt, (tt, (tt, tt))))) limited

handle_ws_unlimited_example :
    let w' = handle_ws quiet_log unlimited (2 ^ 63 - 1) 50 nobody talk (got 4) served in
    (w'.pool ≡ served.pool)
    × (w'.written ≡ message (ready default_sample_rate supported_rates true) ∷ [])
handle_ws_unlimited_example =
    handle_ws_unlimited quiet_log unlimited (2 ^ 63 - 1) 50 nobody talk 4 served refl refl
      (omega arith) (omega arith)
