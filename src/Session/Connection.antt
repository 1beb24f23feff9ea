-- ===== src/Session/Connection.antt =====
-- `handle_ws` of src/server/mod.rs: what a connection does to the pool and to the gauge of connections.
use monnok_gigastt.Base.{
  ℕ, ◌+◌, ◌-◌, ◌^◌, ◌<◌, ◌≡◌, refl, ap, Bool, true, false, Bool-cases, inl, inr, none, some, List,
  [], ◌∷◌, arith,
}
use monnok_gigastt.Pool.{Waiter, PoolInner}
use monnok_gigastt.Pool.Guard.{reservation_checkin}
use monnok_gigastt.Stream.{create_state}
use monnok_gigastt.Stream.Ready.{create_state-IsReady}
use monnok_gigastt.Protocol.{
  ready, default_sample_rate, supported_rates, message, Sink, send_out, RuntimeLimits,
  session_deadline,
}
use monnok_gigastt.Session.{Environment, Session}
use monnok_gigastt.Session.Loop.{
  Event, received, text, End, running, ended_ok, ended_err, unwound, slice_panics, on_message,
  react, session_loop, session_new, handle_ws_inner, Checkout, shut_down, got, closed_pool,
  timed_out, Served, after_session, give_back, serve_checkout, handle_ws,
}
use monnok_gigastt.Session.Kept.{AllReturn, any_socket_error, IsIntact}
use monnok_gigastt.Session.Intact.{KeptAtEnd, session_loop-KeptAtEnd}

-- The pool after a connection that goes as it should.
abbrev pub returned : {T : Type 0} → (Waiter → Bool) → PoolInner T → Checkout T → PoolInner T
returned alive p (got t) = (reservation_checkin alive p t).0
returned alive p shut_down = p
returned alive p closed_pool = p
returned alive p timed_out = p

no_deadline :
    (limits : RuntimeLimits) (last_instant start : ℕ)
    → limits.max_session_secs ≡ 0
    → last_instant < 2 ^ 63
    → 0 < start
    → session_deadline last_instant limits start ≡ none
unfolding session_deadline
no_deadline limits last_instant start z h k = ground arith

module _ {R D T : Type 0} (env : Environment R D) where
  has_triplet :
      (t : T) (b : Bool) (s : Session R D T) (end : End)
      → env.debug_enabled ≡ false
      → KeptAtEnd env t b (s, end)
      → (alive : Waiter → Bool) (w : Served T)
      → ((after_session alive w (s, end)).pool ≡ (reservation_checkin alive w.pool t).0)
        × ((after_session alive w (s, end)).active_connections ≡ w.active_connections)
  has_triplet t b s running q k alive w = (ap (λ o. give_back alive w.pool o) k.0, refl)
  has_triplet t b s ended_ok q k alive w = (ap (λ o. give_back alive w.pool o) k, refl)
  has_triplet t b s ended_err q k alive w = (ap (λ o. give_back alive w.pool o) k.0, refl)
  has_triplet t b s unwound q k alive w = cc

  -- However a connection ends, by a panic too, it leaves the gauge as it was.
  pub handle_ws-gauge :
      (limits : RuntimeLimits) (last_instant start : ℕ) (alive : Waiter → Bool) (evs : List Event)
      (c : Checkout T) (w : Served T)
      → (handle_ws env limits last_instant start alive evs c w).active_connections
        ≡ w.active_connections
  unfolding handle_ws serve_checkout
  handle_ws-gauge limits last_instant start alive evs c w = by_checkout c
    where
      counted : Served T
      counted = record w { active_connections = w.active_connections + 1 }

      after_session-gauge :
          (r : Session R D T × End)
          → (after_session alive counted r).active_connections ≡ w.active_connections + 1
      after_session-gauge (s, running) = refl
      after_session-gauge (s, ended_ok) = refl
      after_session-gauge (s, ended_err) = refl
      after_session-gauge (s, unwound) = refl

      by_checkout :
          (c : Checkout T)
          → (serve_checkout env limits last_instant start alive evs c counted).active_connections
              - 1
            ≡ w.active_connections
      by_checkout shut_down = omega arith
      by_checkout closed_pool = omega arith
      by_checkout timed_out = omega arith
      by_checkout (got t) =
          omega (arith, after_session-gauge (handle_ws_inner env limits last_instant start t evs))

  pub session_new-IsIntact : (k : Sink) (t : T) → IsIntact env t (session_new env k t)
  unfolding session_new
  session_new-IsIntact k t =
      (refl, (create_state env.engine false, refl, create_state-IsReady env.engine false))

  served_session :
      (limits : RuntimeLimits) (last_instant start end_of_session : ℕ) (alive : Waiter → Bool)
      (evs : List Event) (t : T) (w : Served T)
      → env.debug_enabled ≡ false
      → AllReturn evs
      → session_deadline last_instant limits start ≡ some end_of_session
      → let w' = after_session alive w (handle_ws_inner env limits last_instant start t evs) in
        (w'.pool ≡ (reservation_checkin alive w.pool t).0)
        × (w'.active_connections ≡ w.active_connections)
  unfolding handle_ws_inner
  served_session limits last_instant start end_of_session alive evs t w q r e =
      let greeting =
        message (ready default_sample_rate supported_rates env.engine.has_speaker_encoder) in
      let k : Sink = (send_out env.delivers (record { sent = []; attempts = 0 }) greeting).0 in
      let s = session_new env k t in
      let kept = session_loop-KeptAtEnd env t evs s r (session_new-IsIntact k t) in
      let run = session_loop env evs s in
      elim (Bool-cases (send_out env.delivers (record { sent = []; attempts = 0 }) greeting).1) [
        | inl d ↦ rw (d, e) (has_triplet t (any_socket_error evs) run.0 run.1 q kept alive w)
        | inr d ↦ rw d (unfold session_new in (refl, refl))
      ]

  -- A connection whose blocking tasks come back, whose deadline can be computed and which runs with the
  -- debug log off leaves the gauge as it was and no session triplet behind: one that it has checked
  -- out is given back exactly once, by the reservation's `checkin`, and if it got none the pool is as
  -- before.
  pub handle_ws-returned :
      (limits : RuntimeLimits) (last_instant start end_of_session : ℕ) (alive : Waiter → Bool)
      (evs : List Event) (c : Checkout T) (w : Served T)
      → env.debug_enabled ≡ false
      → AllReturn evs
      → session_deadline last_instant limits start ≡ some end_of_session
      → let w' = handle_ws env limits last_instant start alive evs c w in
        (w'.pool ≡ returned alive w.pool c) × (w'.active_connections ≡ w.active_connections)
  unfolding handle_ws serve_checkout
  handle_ws-returned limits last_instant start end_of_session alive evs shut_down w q r e =
      (refl, omega arith)
  handle_ws-returned limits last_instant start end_of_session alive evs closed_pool w q r e =
      (refl, omega arith)
  handle_ws-returned limits last_instant start end_of_session alive evs timed_out w q r e =
      (refl, omega arith)
  handle_ws-returned limits last_instant start end_of_session alive evs (got t) w q r e =
      let w₁ = record w { active_connections = w.active_connections + 1 } in
      let (pool, gauge) =
        served_session limits last_instant start end_of_session alive evs t w₁ q r e in
      (pool, omega (arith, gauge))

  -- No limit on sessions means no sessions. With `max_session_secs` zero, on a platform whose clock counts
  -- seconds in 63 bits and does not read zero, adding `u64::MAX / 2` seconds panics: every
  -- connection to which the greeting arrives ends right after it, and takes its session triplet out
  -- of the pool for good.
  pub handle_ws_unlimited :
      (limits : RuntimeLimits) (last_instant start : ℕ) (alive : Waiter → Bool) (evs : List Event)
      (t : T) (w : Served T)
      → env.delivers 0 ≡ true
      → limits.max_session_secs ≡ 0
      → last_instant < 2 ^ 63
      → 0 < start
      → let w' = handle_ws env limits last_instant start alive evs (got t) w in
        (w'.pool ≡ w.pool)
        × (w'.written
            ≡ message (ready default_sample_rate supported_rates env.engine.has_speaker_encoder)
              ∷ [])
  unfolding handle_ws serve_checkout handle_ws_inner send_out session_new
  handle_ws_unlimited limits last_instant start alive evs t w d z h k =
      rw (d, no_deadline limits last_instant start z h k) (refl, refl)

  -- A text message can end the task by a panic. With the debug log on, a message that is no JSON message
  -- and has a character across its byte 100 makes the slice for the log panic: the session is over at
  -- once, whatever else is sent, with nothing said, and its triplet is lost to the pool.
  pub handle_ws_slice :
      (limits : RuntimeLimits) (last_instant start end_of_session now : ℕ) (alive : Waiter → Bool)
      (bytes : List ℕ) (evs : List Event) (t : T) (w : Served T)
      → env.delivers 0 ≡ true
      → session_deadline last_instant limits start ≡ some end_of_session
      → env.debug_enabled ≡ true
      → env.parse bytes ≡ none
      → slice_panics bytes ≡ true
      → let w' =
          handle_ws env limits last_instant start alive
            (received now (text bytes) ∷ evs)
            (got t)
            w in
        (w'.pool ≡ w.pool)
        × (w'.written
            ≡ message (ready default_sample_rate supported_rates env.engine.has_speaker_encoder)
              ∷ [])
  unfolding handle_ws serve_checkout handle_ws_inner session_loop react on_message send_out
      session_new
  handle_ws_slice limits last_instant start end_of_session now alive bytes evs t w d e dbg p sl =
      rw (d, e) (rw p (rw (dbg, sl) (refl, refl)))
