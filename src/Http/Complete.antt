-- ===== src/Http/Complete.antt =====
-- What the stream of `transcribe_stream` in src/server/http.rs has.
use monnok_gigastt.Base.{
  ℕ, zero, suc, ◌+◌, ◌≤◌, ◌≡◌, refl, sym, ◌∙◌, ap, subst, inl, inr, true, false, Bool-cases, some,
  List, [], ◌∷◌, ◌++◌, length, take, drop, map, append_assoc, append-nil, arith, take-append-drop,
  length-drop,
}
use monnok_gigastt.Decode.{is_empty}
use monnok_gigastt.Words.{WordInfo}
use monnok_gigastt.Transcript.{TranscriptSegment, assembler_new, finalize}
use monnok_gigastt.Transcript.Segments.{final_words, AllJoined}
use monnok_gigastt.Stream.{
  Engine, StreamingState, Chunk, segments, chunk_failed, create_state, process_chunk, flush_state,
}
use monnok_gigastt.Stream.Ready.{IsReady, segments_of, create_state-IsReady}
use monnok_gigastt.Stream.Chunks.{
  stream_chunks, all_recognised, stream_chunks-AllJoined, final_words-append, AllJoined-append,
}
use monnok_gigastt.Stream.Late.{IsFine, AllFine}
use monnok_gigastt.Session.Farewell.{collected, no_words}
use monnok_gigastt.Http.Sse.{
  Item, segment, stream_error, World, chunk_size, chunks_of, sample_chunks, push, push_segments,
  push_last, after_chunk, sse_loop, flushed, sse_task,
}

-- Nothing around the task goes wrong.
pub record IsCalm (world : World) : Type 0 where
  pub goes_on : (i : ℕ) → world.is_cancelled i ≡ false
  pub is_safe : (i : ℕ) → world.panics_in i ≡ false
  pub listens : (n : ℕ) → world.receives n ≡ true

abbrev pub timed : World → List (List ℕ) → ℕ → List (List ℕ × ℕ)
timed world [] i = []
timed world (c ∷ cs) i = (c, world.now i) ∷ timed world cs (i + 1)

-- The chunks put together.
abbrev pub flat : List (List ℕ) → List ℕ
flat [] = []
flat (c ∷ cs) = c ++ flat cs

abbrev pub sent_segments : List Item → List TranscriptSegment
sent_segments [] = []
sent_segments (segment seg ∷ items) = seg ∷ sent_segments items
sent_segments (stream_error ∷ items) = sent_segments items

flat-chunks_of : (fuel : ℕ) (xs : List ℕ) → length xs ≤ fuel → flat (chunks_of fuel xs) ≡ xs
unfolding chunks_of
flat-chunks_of zero [] h = refl
flat-chunks_of zero (x ∷ xs) h = absurd (omega (arith, h))
flat-chunks_of (suc fuel) [] h = refl
flat-chunks_of (suc fuel) (x ∷ xs) h =
    ap (λ ys. take chunk_size (x ∷ xs) ++ ys)
      (flat-chunks_of fuel (drop chunk_size (x ∷ xs))
        (omega (arith, h, length-drop chunk_size (x ∷ xs))))
    ∙ take-append-drop chunk_size (x ∷ xs)

sent_segments-map : (ss : List TranscriptSegment) → sent_segments (map segment ss) ≡ ss
sent_segments-map [] = refl
sent_segments-map (s ∷ ss) = ap (λ xs. s ∷ xs) (sent_segments-map ss)

sent_segments-append :
    (a b : List Item) → sent_segments (a ++ b) ≡ sent_segments a ++ sent_segments b
sent_segments-append [] b = refl
sent_segments-append (segment s ∷ a) b = ap (λ xs. s ∷ xs) (sent_segments-append a b)
sent_segments-append (stream_error ∷ a) b = sent_segments-append a b

map_append :
    (ss ts : List TranscriptSegment) → map segment (ss ++ ts) ≡ map segment ss ++ map segment ts
map_append [] ts = refl
map_append (s ∷ ss) ts = ap (λ xs. segment s ∷ xs) (map_append ss ts)

module _ (world : World) (calm : IsCalm world) where
  push_segments_calm :
      (out : List Item) (ss : List TranscriptSegment)
      → push_segments world out ss ≡ (out ++ map segment ss, true)
  unfolding push_segments
  push_segments_calm out [] = ap (λ xs. (xs, true)) (sym (append-nil out))
  push_segments_calm out (s ∷ ss) = rw (calm.listens (length out)) (
      push_segments_calm (out ++ (segment s ∷ [])) ss
      ∙ ap (λ xs. (xs, true)) (append_assoc out (segment s ∷ []) (map segment ss)))

module _ {R D : Type 0} (e : Engine R D) (world : World) (calm : IsCalm world) where
  -- What the loop does from a state on: it sends what the chunks bring.
  abbrev Calm : List (List ℕ) → ℕ → Type 0
  Calm cs i =
      (s : StreamingState R D) (out : List Item)
      → AllFine e s (timed world cs i)
      → sse_loop e world cs i s out ≡ (
        out ++ map segment (stream_chunks e s (timed world cs i)).0,
        some (stream_chunks e s (timed world cs i)).1,
      )

  after_chunk-Calm :
      (cs : List (List ℕ)) (i : ℕ) (out : List Item) (r : Chunk × StreamingState R D)
      → Calm cs i
      → IsFine r.0
      → AllFine e r.1 (timed world cs i)
      → after_chunk world out (sse_loop e world cs i) r ≡ (
        out ++ map segment (segments_of r.0 ++ (stream_chunks e r.1 (timed world cs i)).0),
        some (stream_chunks e r.1 (timed world cs i)).1,
      )
  after_chunk-Calm cs i out (chunk_failed er, s) ih g gs = absurd g
  after_chunk-Calm cs i out (segments ss, s) ih g gs =
      let (rest, end) = stream_chunks e s (timed world cs i) in
      rw (push_segments_calm world calm out ss) (
        ih s (out ++ map segment ss) gs
        ∙ ap (λ xs. (xs, some end))
            (append_assoc out (map segment ss) (map segment rest)
              ∙ ap (λ ys. out ++ ys) (sym (map_append ss rest))))

  sse_loop-Calm : (cs : List (List ℕ)) (i : ℕ) → Calm cs i
  unfolding sse_loop stream_chunks
  sse_loop-Calm [] i s out f = ap (λ xs. (xs, some s)) (sym (append-nil out))
  sse_loop-Calm (c ∷ cs) i s out (f, fs) =
      rw (calm.goes_on i, calm.is_safe i)
        (after_chunk-Calm cs (i + 1) out (process_chunk e c s (world.now i))
          (sse_loop-Calm cs (i + 1)) f fs)

  -- The segments `ss` with the words `ws` behind them.
  abbrev Full : List TranscriptSegment → List WordInfo → List TranscriptSegment → Type 0
  Full ss ws xs = (final_words xs ≡ final_words ss ++ ws) × AllJoined xs

  push_calm : (out : List Item) (item : Item) → push world out item ≡ (out ++ (item ∷ []), true)
  push_calm out item = rw (calm.listens (length out)) refl

  sent_last :
      (ss : List TranscriptSegment) (seg : TranscriptSegment)
      → sent_segments (push_last world (map segment ss) (some seg)) ≡ ss ++ (seg ∷ [])
  sent_last ss seg =
      ap (λ r. sent_segments r.0) (push_calm (map segment ss) (segment seg))
      ∙ sent_segments-append (map segment ss) (segment seg ∷ [])
      ∙ ap (λ xs. xs ++ (seg ∷ [])) (sent_segments-map ss)

  push_last_calm :
      (ss : List TranscriptSegment) (end : StreamingState R D) (now : ℕ)
      → IsReady end
      → AllJoined ss
      → Full ss end.assembler.words
          (sent_segments (push_last world (map segment ss) (flush_state end now).0))
  unfolding flush_state finalize
  push_last_calm ss end now v all = elim (Bool-cases (is_empty end.assembler.text)) [
    | inl b ↦
        let none_left : end.assembler.words ≡ [] =
          no_words end.assembler.words v.joined_text.all_spelled
            (subst (λ t. is_empty t ≡ true) v.joined_text.text_joined b) in
        rw b (
          subst (λ ws. Full ss ws (sent_segments (map segment ss))) (sym none_left)
            (subst (Full ss []) (sym (sent_segments-map ss))
              (sym (append-nil (final_words ss)), all)))
    | inr b ↦
        let seg = collected now end.assembler in
        rw b (
          subst (Full ss end.assembler.words) (sym (sent_last ss seg)) (
            final_words-append ss (seg ∷ [])
                ∙ ap (λ ws. final_words ss ++ ws) (append-nil end.assembler.words),
            AllJoined-append ss (seg ∷ []) all (v.joined_text.text_joined, tt),
          ))
  ]

  no_words_at_first : (create_state e false).assembler.words ≡ []
  unfolding create_state assembler_new
  no_words_at_first = refl

  -- The stream of an uploaded file has the whole transcript. If nothing is cancelled, no listener leaves
  -- and no chunk fails, the chunks put together are the samples, the words of the final segments sent
  -- are all words that the models find in them, in order, and each segment's text is its words
  -- with spaces between.
  pub sse_task-final_words :
      (samples : List ℕ)
      → AllFine e (create_state e false) (timed world (sample_chunks samples) 0)
      → let ss = sent_segments (sse_task e world samples) in
        (flat (sample_chunks samples) ≡ samples)
        × (final_words ss
            ≡ all_recognised e (create_state e false) (timed world (sample_chunks samples) 0))
        × AllJoined ss
  unfolding sse_task
  sse_task-final_words samples f =
      let s : StreamingState R D = create_state e false in
      let cs = timed world (sample_chunks samples) 0 in
      let n = length (sample_chunks samples) in
      let (words, all, ready) = stream_chunks-AllJoined e cs s (create_state-IsReady e false) in
      let (ss, end) = stream_chunks e s cs in
      let (last, joined_all) = push_last_calm ss end (world.now n) ready all in
      let sent : sse_task e world samples
          ≡ push_last world (map segment ss) (flush_state end (world.now n)).0 =
        ap (flushed world n) (sse_loop-Calm (sample_chunks samples) 0 s [] f)
        ∙ rw (calm.goes_on n) refl in
      let complete : (final_words (sent_segments (sse_task e world samples))
            ≡ all_recognised e s cs)
          × AllJoined (sent_segments (sse_task e world samples)) =
        subst
          (λ items.
            (final_words (sent_segments items) ≡ all_recognised e s cs)
            × AllJoined (sent_segments items))
          (sym sent)
          (last ∙ words ∙ ap (λ ws. ws ++ all_recognised e s cs) no_words_at_first, joined_all) in
      (flat-chunks_of (length samples) samples (omega arith), complete.0, complete.1)
