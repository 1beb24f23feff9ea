-- ===== src/Session/Trace.antt =====
-- What a session of src/server/mod.rs writes to its socket.
use monnok_gigastt.Base.{
  ℕ, ◌≡◌, refl, ◌⊎◌, inl, inr, Bool-cases, Option, none, some, List, [], ◌∷◌, ◌++◌,
}
use monnok_gigastt.Protocol.{
  ready, Out, message, close_frame, Sink, send_out, RuntimeLimits, session_deadline,
}
use monnok_gigastt.Session.{Environment, Session, Flow, goes_on, breaks, fails, unwinds}
use monnok_gigastt.Session.Loop.{
  Event, End, running, ended_ok, ended_err, unwound, say, react, session_loop, continue_session,
  session_new, with_deadline, handle_ws_inner,
}
use monnok_gigastt.Session.Frame.{IsLater, Preserved, AfterEvent, react-P}

abbrev pub IsBody : Out → Type 0
IsBody (message msg) = IsLater msg
IsBody (close_frame code) = ⊥

abbrev pub AllBody : List Out → Type 0
AllBody [] = Unit {0}
AllBody (o ∷ os) = IsBody o × AllBody os

-- A greeting, and then segments and errors.
abbrev pub Spoken : List Out → Type 0
Spoken (message (ready rate rates diarization) ∷ os) = AllBody os
Spoken _ = ⊥

-- The same with a Close frame behind it.
abbrev pub Closed : List Out → Type 0
Closed os = (said : List Out) × (code : ℕ) × (os ≡ said ++ (close_frame code ∷ [])) × Spoken said

AllBody-snoc : (os : List Out) (o : Out) → AllBody os → IsBody o → AllBody (os ++ (o ∷ []))
AllBody-snoc [] o h k = (k, tt)
AllBody-snoc (a ∷ os) o h k = (h.0, AllBody-snoc os o h.1 k)

Spoken-snoc : (os : List Out) (o : Out) → Spoken os → IsBody o → Spoken (os ++ (o ∷ []))
Spoken-snoc [] o h k = absurd h
Spoken-snoc (message (ready rate rates diarization) ∷ os) o h k = AllBody-snoc os o h k
Spoken-snoc (_ ∷ os) o h k = absurd h

abbrev pub SpokenOrClosed : List Out → Type 0
SpokenOrClosed os = Spoken os ⊎ Closed os

abbrev pub AtEnd : List Out → End → Type 0
AtEnd os running = Spoken os
AtEnd os ended_ok = SpokenOrClosed os
AtEnd os ended_err = Spoken os
AtEnd os unwound = Spoken os

module _ {R D : Type 0} (env : Environment R D) where
  send_out-Spoken :
      (k : Sink) (o : Out) → IsBody o → Spoken k.sent → Spoken (send_out env.delivers k o).0.sent
  unfolding send_out
  send_out-Spoken k o h v = elim (Bool-cases (env.delivers k.attempts)) [
    | inl d ↦ rw d (Spoken-snoc k.sent o v h)
    | inr d ↦ rw d v
  ]

module _ {R D T : Type 0} (env : Environment R D) where
  abbrev SpokenBy : Session R D T → Type 0
  SpokenBy s = Spoken s.sink.sent

  Spoken-Preserved : Preserved {T = T} env SpokenBy
  Spoken-Preserved = record {
    on_send = λ s msg h v. send_out-Spoken env s.sink (message msg) h v;
    on_state = λ s st t v. v;
    on_audio = λ s pending v. v;
    on_rate = λ s rate e c v. v;
  }

  say_close :
      (s : Session R D T) (code : ℕ)
      → SpokenBy s
      → SpokenOrClosed (say env s (close_frame code)).sink.sent
  unfolding say send_out
  say_close s code v = elim (Bool-cases (env.delivers s.sink.attempts)) [
    | inl d ↦ rw d (inr (s.sink.sent, code, refl, v))
    | inr d ↦ rw d (inl v)
  ]

  continue-AtEnd :
      (rest : Session R D T → Session R D T × End) (r : Session R D T × Flow)
      → AfterEvent env SpokenBy r
      → ((s : Session R D T) → SpokenBy s → AtEnd (rest s).0.sink.sent (rest s).1)
      → let (s', end) = continue_session env rest r in AtEnd s'.sink.sent end
  continue-AtEnd rest (s, goes_on) (inl v) ih = ih s v
  continue-AtEnd rest (s, breaks) (inl v) ih = inl v
  continue-AtEnd rest (s, fails) (inl v) ih = v
  continue-AtEnd rest (s, unwinds) (inl v) ih = v
  continue-AtEnd rest (s, breaks) (inr (s', code, v, e, f)) ih = rw e (say_close s' code v)
  continue-AtEnd rest (s, goes_on) (inr (s', code, v, e, f)) ih = cc
  continue-AtEnd rest (s, fails) (inr (s', code, v, e, f)) ih = cc
  continue-AtEnd rest (s, unwinds) (inr (s', code, v, e, f)) ih = cc

  session_loop-AtEnd :
      (evs : List Event) (s : Session R D T)
      → SpokenBy s
      → let (s', end) = session_loop env evs s in AtEnd s'.sink.sent end
  unfolding session_loop
  session_loop-AtEnd [] s v = v
  session_loop-AtEnd (ev ∷ evs) s v =
      continue-AtEnd (session_loop env evs) (react env ev s)
        (react-P env SpokenBy Spoken-Preserved ev s v) (λ s' v'. session_loop-AtEnd evs s' v')

  with_deadline-AtEnd :
      (evs : List Event) (s : Session R D T) (d : Option ℕ)
      → SpokenBy s
      → let (s', end) = with_deadline env evs s d in AtEnd s'.sink.sent end
  with_deadline-AtEnd evs s none v = v
  with_deadline-AtEnd evs s (some d) v = session_loop-AtEnd evs s v

  -- Whatever the client does and however the session ends, what arrives at the client is nothing at all, if
  -- the greeting could not be sent, or the greeting, once and first, then segments and errors, and
  -- at most one Close frame, which is last and stands only after a session that ended without an
  -- error.
  pub handle_ws_inner-AtEnd :
      (limits : RuntimeLimits) (last_instant start : ℕ) (t : T) (evs : List Event)
      → let (s, end) = handle_ws_inner env limits last_instant start t evs in
        ((s.sink.sent ≡ []) × (end ≡ ended_err)) ⊎ AtEnd s.sink.sent end
  unfolding handle_ws_inner send_out session_new
  handle_ws_inner-AtEnd limits last_instant start t evs = elim (Bool-cases (env.delivers 0)) [
    | inl d ↦ rw d (inr (with_deadline-AtEnd evs _ (session_deadline last_instant limits start) tt))
    | inr d ↦ rw d (inl (refl, refl))
  ]
