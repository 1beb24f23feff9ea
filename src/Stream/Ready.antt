-- ===== src/Stream/Ready.antt =====
-- The state of a stream between two chunks (src/inference/mod.rs, `process_chunk`).
use monnok_gigastt.Base.{
  ℕ, ◌≤◌, ◌<◌, ◌≡◌, refl, sym, ◌∙◌, Bool, true, false, inl, inr, Bool-cases, ◌==◌, not, ◌&&◌,
  if◌then◌else◌, Option, none, some, List, [], ◌∷◌, ◌++◌, arith, length, map, length-replicate,
  append-nil,
}
use monnok_gigastt.Decode.{pred_hidden, decoder_state_new, is_empty}
use monnok_gigastt.Decode.Sound.{IsShaped}
use monnok_gigastt.Audio.{n_fft, prepare_audio_buffer, keep_newest, num_frames}
use monnok_gigastt.Audio.Buffer.{Splits, prepare_audio_buffer-Splits, short_left}
use monnok_gigastt.Words.{WordInfo}
use monnok_gigastt.Words.Text.{AllSpelled}
use monnok_gigastt.Transcript.{TranscriptSegment, assembler_new, append, finalize, partial}
use monnok_gigastt.Transcript.Segments.{IsJoined, append-IsJoined, AllJoined, final_words}
use monnok_gigastt.Stream.{
  Engine, StreamingState, Inferred, inferred, failed, Chunk, segments, chunk_failed, create_state,
  run_inference, heard, speaker_now, set_speaker, annotate, emit_segment, after_inference,
  process_frames, on_buffer, process_chunk, flush_state,
}
use monnok_gigastt.Stream.Decided.{IsForeign, IsDecided, words_of, run_inference-IsDecided}

-- At most one segment, or an error that is not of the code's own.
abbrev pub IsOrderly : Chunk → Type 0
IsOrderly (segments ss) = length ss ≤ 1
IsOrderly (chunk_failed er) = IsForeign er

abbrev pub segments_of : Chunk → List TranscriptSegment
segments_of (segments ss) = ss
segments_of (chunk_failed er) = []

nil_of_is_empty : (ws : List WordInfo) → is_empty ws ≡ true → ws ≡ []
nil_of_is_empty [] h = refl
nil_of_is_empty (w ∷ ws) h = cc

pub num_frames-pos : (n : ℕ) → (num_frames n == 0) ≡ false
unfolding num_frames
num_frames-pos n = ground arith

set_speaker-AllSpelled :
    (o : Option ℕ) (ws : List WordInfo) → AllSpelled ws → AllSpelled (map (set_speaker o) ws)
set_speaker-AllSpelled o [] h = tt
set_speaker-AllSpelled none (w ∷ ws) h = (h.0, set_speaker-AllSpelled none ws h.1)
set_speaker-AllSpelled (some id) (w ∷ ws) h = (h.0, set_speaker-AllSpelled (some id) ws h.1)

decoder_state_new-IsShaped : (blank_id : ℕ) → IsShaped (decoder_state_new blank_id)
unfolding decoder_state_new
decoder_state_new-IsShaped blank_id = record {
  h_len = length-replicate {A = ℕ} pred_hidden 0;
  c_len = length-replicate {A = ℕ} pred_hidden 0;
}

module _ {R D : Type 0} where
  pub record IsReady (s : StreamingState R D) : Type 0 where
    pub shaped : IsShaped s.decoder
    pub short : length s.audio_buffer < n_fft
    pub joined_text : IsJoined s.assembler

  -- The state is ready and the chunk orderly; the words `ws` have gone to the end of `before`, of which a
  -- final segment takes all; and the segments' texts are their words with spaces between.
  abbrev pub Settled : List WordInfo → List WordInfo → Chunk × StreamingState R D → Type 0
  Settled before ws (c, s) =
      IsReady s
      × IsOrderly c
      × (final_words (segments_of c) ++ s.assembler.words ≡ before ++ ws)
      × AllJoined (segments_of c)

  emit_segment-Settled :
      (s : StreamingState R D) (ws : List WordInfo) (endpoint : Bool) (now : ℕ)
      → IsReady s
      → AllSpelled ws
      → Settled s.assembler.words ws (emit_segment s ws endpoint now)
  unfolding emit_segment finalize partial append
  emit_segment-Settled s ws endpoint now v k = elim (Bool-cases (is_empty ws && not endpoint)) [
    | inl b ↦
        let none_new : ws ≡ [] = nil_of_is_empty ws (ground arith) in
        rw b (v, omega arith, rw none_new (sym (append-nil _)), tt)
    | inr b ↦ rw b (go endpoint)
  ]
    where
      up : IsJoined (append s.assembler ws)
      up = append-IsJoined s.assembler ws v.joined_text k

      go :
          (final : Bool)
          → Settled s.assembler.words ws (
              if final
              then (
                segments ((finalize (append s.assembler ws) now).0 ∷ []),
                record s {
                  decoder = record (s.decoder) { consecutive_blanks = 0 };
                  assembler = (finalize (append s.assembler ws) now).1;
                },
              )
              else (
                segments (partial (append s.assembler ws) now ∷ []),
                record s { assembler = append s.assembler ws },
              ))
      go true = (
        record {
          shaped = record { h_len = v.shaped.h_len; c_len = v.shaped.c_len };
          short = v.short;
          joined_text = record { text_joined = refl; all_spelled = tt };
        },
        omega arith,
        append-nil _ ∙ append-nil _,
        (up.text_joined, tt),
      )
      go false = (
        record { shaped = v.shaped; short = v.short; joined_text = up },
        omega arith,
        refl,
        (up.text_joined, tt),
      )

  after_inference-Settled :
      (e : Engine R D) (samples : List ℕ) (frames : ℕ) (s : StreamingState R D) (now : ℕ)
      (i : Inferred)
      → IsReady s
      → IsDecided i
      → Settled s.assembler.words
          (annotate e (heard e samples s.diarization_state) (words_of i))
          (after_inference e samples frames s now i)
  unfolding annotate
  after_inference-Settled e samples frames s now (failed er d) v k = (
    record { shaped = k.0; short = v.short; joined_text = v.joined_text },
    k.1,
    sym (append-nil _),
    tt,
  )
  after_inference-Settled e samples frames s now (inferred ws endpoint d) v k =
      emit_segment-Settled _ _ endpoint now
        (record { shaped = k.0; short = v.short; joined_text = v.joined_text })
        (set_speaker-AllSpelled (speaker_now e (heard e samples s.diarization_state)) ws k.1)

  -- The words that the models find in some whole frames.
  abbrev pub found : Engine R D → List ℕ → List ℕ → StreamingState R D → List WordInfo
  found e samples usable s = annotate e (heard e samples s.diarization_state) (
      words_of
        (run_inference e (e.mel usable) (num_frames (length usable)) s.decoder s.total_frames))

  abbrev pub found_in : Engine R D → List ℕ → StreamingState R D → Option (List ℕ) → List WordInfo
  found_in e samples s none = []
  found_in e samples s (some usable) = found e samples usable s

  -- The words that the models find with a chunk.
  abbrev pub recognised : Engine R D → List ℕ → StreamingState R D → List WordInfo
  recognised e [] s = []
  recognised e (x ∷ xs) s = found_in e (x ∷ xs) s (prepare_audio_buffer (x ∷ xs) s.audio_buffer).0

  process_frames-Settled :
      (e : Engine R D) (samples usable : List ℕ) (s : StreamingState R D) (now : ℕ)
      → IsReady s
      → Settled s.assembler.words (found e samples usable s) (process_frames e samples usable s now)
  unfolding process_frames
  process_frames-Settled e samples usable s now v = rw (num_frames-pos (length usable)) (
      after_inference-Settled e samples (num_frames (length usable)) s now _ v (
        run_inference-IsDecided e (e.mel usable) (num_frames (length usable)) s.decoder
          s.total_frames v.shaped))

  on_buffer-Settled :
      (e : Engine R D) (samples kept : List ℕ) (s : StreamingState R D) (now : ℕ)
      (o : Option (List ℕ)) (rest : List ℕ)
      → IsReady s
      → Splits kept (o, rest)
      → Settled s.assembler.words (found_in e samples s o) (on_buffer e samples s now (o, rest))
  on_buffer-Settled e samples kept s now none rest v k = (
    record {
      shaped = v.shaped;
      short = (short_left kept none rest k).1;
      joined_text = v.joined_text;
    },
    omega arith,
    sym (append-nil _),
    tt,
  )
  on_buffer-Settled e samples kept s now (some usable) rest v k =
      process_frames-Settled e samples usable (record s { audio_buffer = rest }) now
        (record {
          shaped = v.shaped;
          short = (short_left kept (some usable) rest k).1;
          joined_text = v.joined_text;
        })

  -- One chunk, from a state that is ready. It gives at most one segment, or an error of the models, never
  -- a panic of the decoder's own code. The state is ready again: the decoder state has its shape,
  -- less than a frame of samples is buffered, and the collected text is the collected words with
  -- spaces between. A final segment takes all the words that were collected, the new ones too; else
  -- the new ones are added to them; and each segment's text is its words with spaces between.
  pub process_chunk-Settled :
      (e : Engine R D) (samples : List ℕ) (s : StreamingState R D) (now : ℕ)
      → IsReady s
      → Settled s.assembler.words (recognised e samples s) (process_chunk e samples s now)
  unfolding process_chunk
  process_chunk-Settled e [] s now v = (v, omega arith, sym (append-nil _), tt)
  process_chunk-Settled e (x ∷ xs) s now v =
      let r = prepare_audio_buffer (x ∷ xs) s.audio_buffer in
      on_buffer-Settled e (x ∷ xs) (keep_newest (s.audio_buffer ++ (x ∷ xs))) s now r.0 r.1 v
        (prepare_audio_buffer-Splits (x ∷ xs) s.audio_buffer)

  pub create_state-IsReady : (e : Engine R D) (b : Bool) → IsReady (create_state e b)
  unfolding create_state assembler_new
  create_state-IsReady e b = record {
    shaped = decoder_state_new-IsShaped e.blank_id;
    short = omega arith;
    joined_text = record { text_joined = refl; all_spelled = tt };
  }

  pub flush_state-IsReady :
      (s : StreamingState R D) (now : ℕ) → IsReady s → IsReady (flush_state s now).1
  unfolding flush_state finalize
  flush_state-IsReady s now v = elim (Bool-cases (is_empty s.assembler.text)) [
    | inl b ↦ rw b v
    | inr b ↦ rw b (record {
      shaped = v.shaped;
      short = v.short;
      joined_text = record { text_joined = refl; all_spelled = tt };
    })
  ]
