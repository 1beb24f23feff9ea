-- ===== src/Session/Farewell.antt =====
-- How a session of src/server/mod.rs takes leave: by `stop`, at shutdown and at its time limit.
use monnok_gigastt.Base.{
  ℕ, ◌≡◌, refl, ◌∙◌, ap, subst, true, false, Bool-cases, inl, inr, none, some, List, [], ◌∷◌, ◌++◌,
  append_assoc, arith,
}
use monnok_gigastt.Decode.{is_empty}
use monnok_gigastt.Words.{Text, WordInfo}
use monnok_gigastt.Words.Text.{AllSpelled}
use monnok_gigastt.Transcript.{TranscriptSegment, TranscriptAssembler, finalize}
use monnok_gigastt.Transcript.Segments.{tail, joined}
use monnok_gigastt.Stream.{StreamingState, flush_state}
use monnok_gigastt.Stream.Ready.{IsReady}
use monnok_gigastt.Protocol.{
  final_segment, error, max_session_duration_exceeded, Out, message, close_frame, stop, Sink,
  send_out,
}
use monnok_gigastt.Session.{
  Environment, Session, Flow, goes_on, breaks, fails, unwinds, send_then, or_empty, flush_and_final,
  handle_stop_message, flushed, stopped,
}
use monnok_gigastt.Session.Loop.{
  Event, End, ended_ok, cancelled, deadline, received, text, say, farewell, on_message, react,
  continue_session, session_loop,
}

-- The final segment with all that is collected.
abbrev pub collected : ℕ → TranscriptAssembler → TranscriptSegment
collected now a = record {
  segment_text = a.text;
  segment_words = a.words;
  is_final = true;
  timestamp = now;
}

text_nil : (t : Text) → is_empty t ≡ true → t ≡ []
text_nil [] h = refl
text_nil (c ∷ t) h = cc

pub no_words : (ws : List WordInfo) → AllSpelled ws → is_empty (joined ws) ≡ true → ws ≡ []
no_words [] h e = refl
no_words (w ∷ ws) h e = absurd (not_spelled w.word h.0 e)
  where
    not_spelled : (t : Text) → is_empty t ≡ false → is_empty (t ++ tail ws) ≡ true → ⊥
    not_spelled [] f g = cc
    not_spelled (c ∷ t) f g = cc

module _ {R D : Type 0} where
  -- Nothing is dropped by the test for an empty text.
  flush_state-collected :
      (st : StreamingState R D) (now : ℕ)
      → IsReady st
      → or_empty now (flush_state st now).0 ≡ collected now st.assembler
  unfolding flush_state finalize
  flush_state-collected st now v = elim (Bool-cases (is_empty st.assembler.text)) [
    | inl e ↦
        let none_left =
          no_words st.assembler.words v.joined_text.all_spelled
            (subst (λ t. is_empty t ≡ true) v.joined_text.text_joined e) in
        rw e (ground (arith, none_left, text_nil st.assembler.text e))
    | inr e ↦ rw e refl
  ]

module _ {R D : Type 0} (env : Environment R D) (all_arrive : (n : ℕ) → env.delivers n ≡ true) where
  send_out_arrives : (k : Sink) (o : Out) → (send_out env.delivers k o).0.sent ≡ k.sent ++ (o ∷ [])
  unfolding send_out
  send_out_arrives k o = rw (all_arrive k.attempts) refl

module _ {R D T : Type 0} (env : Environment R D)
    (all_arrive : (n : ℕ) → env.delivers n ≡ true) where
  flush_and_final_arrives :
      (now : ℕ) (s : Session R D T) (st : StreamingState R D)
      → s.state_opt ≡ some st
      → IsReady st
      → (flush_and_final env now s).0.sink.sent
        ≡ s.sink.sent ++ (message (final_segment (collected now st.assembler)) ∷ [])
  unfolding flush_and_final send_then
  flush_and_final_arrives now s st at v =
      send_out_arrives env all_arrive s.sink _
      ∙ ap (λ o. s.sink.sent ++ (message (final_segment (or_empty now (flushed now o).0)) ∷ [])) at
      ∙ ap (λ seg. s.sink.sent ++ (message (final_segment seg) ∷ []))
          (flush_state-collected st now v)

  farewell_arrives :
      (now code : ℕ) (s : Session R D T) (st : StreamingState R D)
      → s.state_opt ≡ some st
      → IsReady st
      → (farewell env now code s).0.sink.sent
        ≡ s.sink.sent
          ++ (message (final_segment (collected now st.assembler)) ∷ close_frame code ∷ [])
  unfolding farewell say
  farewell_arrives now code s st at v =
      send_out_arrives env all_arrive (flush_and_final env now s).0.sink (close_frame code)
      ∙ ap (λ os. os ++ (close_frame code ∷ [])) (flush_and_final_arrives now s st at v)
      ∙ append_assoc s.sink.sent _ _

  react_sent :
      (now : ℕ) (s : Session R D T) (st : StreamingState R D)
      → s.state_opt ≡ some st
      → IsReady st
      → let last = message (final_segment (collected now st.assembler)) in
        ((react env (cancelled now) s).0.sink.sent ≡ s.sink.sent ++ (last ∷ close_frame 1001 ∷ []))
        × ((react env (deadline now) s).0.sink.sent
            ≡ s.sink.sent
              ++ (message (error max_session_duration_exceeded none)
                  ∷ last
                  ∷ close_frame 1008
                  ∷ []))
        × ((handle_stop_message env now s).0.sink.sent ≡ s.sink.sent ++ (last ∷ []))
  unfolding react handle_stop_message send_then
  react_sent now s st at v =
      let cap = message (error max_session_duration_exceeded none) in
      let s' = say env s cap in
      let capped : s'.sink.sent ≡ s.sink.sent ++ (cap ∷ []) =
        unfold say in send_out_arrives env all_arrive s.sink cap in
      let still : s'.state_opt ≡ some st = unfold say in at in
      (
        farewell_arrives now 1001 s st at v,
        farewell_arrives now 1008 s' st still v
            ∙ ap
                (λ os.
                  os
                  ++ (message (final_segment (collected now st.assembler)) ∷ close_frame 1008 ∷ []))
                capped
            ∙ append_assoc s.sink.sent _ _,
        ap (λ o. (stopped env now s o).0.sink.sent) at
            ∙ send_out_arrives env all_arrive s.sink _
            ∙ ap (λ seg. s.sink.sent ++ (message (final_segment seg) ∷ []))
                (flush_state-collected st now v),
      )

  continue-breaks :
      (rest : Session R D T → Session R D T × End) (r : Session R D T × Flow)
      → r.1 ≡ breaks
      → continue_session env rest r ≡ (r.0, ended_ok)
  continue-breaks rest (s, goes_on) e = cc
  continue-breaks rest (s, breaks) e = refl
  continue-breaks rest (s, fails) e = cc
  continue-breaks rest (s, unwinds) e = cc

  stop-breaks :
      (now : ℕ) (s : Session R D T) (st : StreamingState R D)
      → s.state_opt ≡ some st
      → (handle_stop_message env now s).1 ≡ breaks
  unfolding handle_stop_message send_then send_out
  stop-breaks now s st at = rw (at, all_arrive s.sink.attempts) refl

  -- Where sends arrive, every session with a streaming state in order that the server or a `stop` ends
  -- does so with a final segment that has all words collected so far, also where that is none: at a shutdown it is followed by Close
  -- 1001, at the time limit it stands between the error and Close 1008, and a `stop` has it alone.
  -- Each of the three ends the loop without an error, whatever events would follow.
  pub session_loop-collected :
      (now : ℕ) (bytes : List ℕ) (evs : List Event) (s : Session R D T) (st : StreamingState R D)
      → s.state_opt ≡ some st
      → IsReady st
      → env.parse bytes ≡ some stop
      → let last = message (final_segment (collected now st.assembler)) in
        let at_shutdown = session_loop env (cancelled now ∷ evs) s in
        let at_limit = session_loop env (deadline now ∷ evs) s in
        let at_stop = session_loop env (received now (text bytes) ∷ evs) s in
        ((at_shutdown.0.sink.sent ≡ s.sink.sent ++ (last ∷ close_frame 1001 ∷ []))
          × (at_shutdown.1 ≡ ended_ok))
        × ((at_limit.0.sink.sent
              ≡ s.sink.sent
                ++ (message (error max_session_duration_exceeded none)
                    ∷ last
                    ∷ close_frame 1008
                    ∷ []))
            × (at_limit.1 ≡ ended_ok))
        × ((at_stop.0.sink.sent ≡ s.sink.sent ++ (last ∷ [])) × (at_stop.1 ≡ ended_ok))
  unfolding session_loop react farewell on_message
  session_loop-collected now bytes evs s st at v e =
      let (shutdown, limit, stops) = react_sent now s st at v in
      (
        (shutdown, refl),
        (limit, refl),
        rw
            (
              e,
              continue-breaks (session_loop env evs) (handle_stop_message env now s)
                  (stop-breaks now s st at),
            )
            (stops, refl),
      )
