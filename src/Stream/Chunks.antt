-- ===== src/Stream/Chunks.antt =====
-- A whole stream through `process_chunk` of src/inference/mod.rs, chunk by chunk.
use monnok_gigastt.Base.{
  ℕ, ◌≡◌, refl, sym, ◌∙◌, ap, Bool-cases, inl, inr, List, [], ◌∷◌, ◌++◌, append_assoc, append-nil,
}
use monnok_gigastt.Words.{WordInfo}
use monnok_gigastt.Transcript.{TranscriptSegment}
use monnok_gigastt.Transcript.Segments.{AllJoined, final_words}
use monnok_gigastt.Stream.{Engine, StreamingState, process_chunk}
use monnok_gigastt.Stream.Ready.{IsReady, segments_of, recognised, process_chunk-Settled}

pub final_words-append :
    (ss ts : List TranscriptSegment) → final_words (ss ++ ts) ≡ final_words ss ++ final_words ts
final_words-append [] ts = refl
final_words-append (s ∷ ss) ts = elim (Bool-cases s.is_final) [
  | inl b ↦ rw b (
      ap (λ ws. s.segment_words ++ ws) (final_words-append ss ts)
      ∙ sym (append_assoc s.segment_words (final_words ss) (final_words ts)))
  | inr b ↦ rw b (final_words-append ss ts)
]

pub AllJoined-append :
    (ss ts : List TranscriptSegment) → AllJoined ss → AllJoined ts → AllJoined (ss ++ ts)
AllJoined-append [] ts h k = k
AllJoined-append (s ∷ ss) ts h k = (h.0, AllJoined-append ss ts h.1 k)

regroup :
    (fs gs last mid start ws vs : List WordInfo)
    → fs ++ mid ≡ start ++ ws
    → gs ++ last ≡ mid ++ vs
    → (fs ++ gs) ++ last ≡ start ++ (ws ++ vs)
regroup fs gs last mid start ws vs h k =
    append_assoc fs gs last
    ∙ ap (λ xs. fs ++ xs) k
    ∙ sym (append_assoc fs mid vs)
    ∙ ap (λ xs. xs ++ vs) h
    ∙ append_assoc start ws vs

module _ {R D : Type 0} where
  -- Chunks with the clock readings at them. A chunk that fails gives no segment, and the next one goes on
  -- with the state that it left.
  unfoldable pub stream_chunks :
      Engine R D
      → StreamingState R D
      → List (List ℕ × ℕ)
      → List TranscriptSegment × StreamingState R D
  stream_chunks e s [] = ([], s)
  stream_chunks e s ((samples, now) ∷ chunks) =
      let (c, s') = process_chunk e samples s now in
      let (ss, end) = stream_chunks e s' chunks in (segments_of c ++ ss, end)

  -- The words that the models find with all chunks.
  abbrev pub all_recognised : Engine R D → StreamingState R D → List (List ℕ × ℕ) → List WordInfo
  all_recognised e s [] = []
  all_recognised e s ((samples, now) ∷ chunks) =
      recognised e samples s ++ all_recognised e (process_chunk e samples s now).1 chunks

  -- Over a whole stream no word is lost, doubled or moved. From a state that is ready, the words of the
  -- final segments, followed by those still collected at the end, are the words that were collected at
  -- the start and all words that the models found, in order. Each segment's text, partial or
  -- final, is its words with spaces between, and the state at the end is ready.
  pub stream_chunks-AllJoined :
      (e : Engine R D) (chunks : List (List ℕ × ℕ)) (s : StreamingState R D)
      → IsReady s
      → let (ss, end) = stream_chunks e s chunks in
        (final_words ss ++ end.assembler.words ≡ s.assembler.words ++ all_recognised e s chunks)
        × AllJoined ss
        × IsReady end
  unfolding stream_chunks
  stream_chunks-AllJoined e [] s v = (sym (append-nil s.assembler.words), tt, v)
  stream_chunks-AllJoined e ((samples, now) ∷ chunks) s v =
      let (ready, _, words, texts) = process_chunk-Settled e samples s now v in
      let s' = (process_chunk e samples s now).1 in
      let ss = segments_of (process_chunk e samples s now).0 in
      let (rest_words, rest_texts, end_ready) = stream_chunks-AllJoined e chunks s' ready in
      let rest = stream_chunks e s' chunks in
      (
        ap (λ ws. ws ++ rest.1.assembler.words) (final_words-append ss rest.0)
            ∙ regroup (final_words ss) (final_words rest.0) rest.1.assembler.words
                s'.assembler.words s.assembler.words (recognised e samples s)
                (all_recognised e s' chunks) words rest_words,
        AllJoined-append ss rest.0 texts rest_texts,
        end_ready,
      )
