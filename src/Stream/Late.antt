-- ===== src/Stream/Late.antt =====
-- The times of words across chunks (src/inference/mod.rs, `process_chunk`): `total_frames` counts mel
-- frames, of 160 samples each, and is added to indices of encoder frames, of 640 samples each.
use monnok_gigastt.Base.{
  ℕ, ◌+◌, ◌*◌, ◌≤◌, ◌≡◌, ◌^◌, Bool, inl, inr, Bool-cases, ltb, Option, none, some, List, [], ◌∷◌,
  ◌++◌, arith, length, map,
}
use monnok_gigastt.Decode.{DecoderState, Outcome, ok, err, Loop, TokenInfo, max_tokens_per_step}
use monnok_gigastt.Decode.Sound.{IsShaped, Good, Ascends}
use monnok_gigastt.Decode.Tokens.{greedy_decode-Good}
use monnok_gigastt.Audio.{num_frames, prepare_audio_buffer, keep_newest}
use monnok_gigastt.Audio.Buffer.{Splits, prepare_audio_buffer-Splits}
use monnok_gigastt.Words.{WordInfo}
use monnok_gigastt.Words.Times.{From, Ordered, tokens_to_words-Ordered}
use monnok_gigastt.Stream.{
  Engine, StreamingState, Inferred, inferred, failed, Chunk, segments, chunk_failed, set_speaker,
  decoded, encoded, run_inference, annotate, emit_segment, after_inference, process_frames,
  on_buffer, process_chunk,
}
use monnok_gigastt.Stream.Decided.{words_of}
use monnok_gigastt.Stream.Ready.{IsReady, found_in, recognised, num_frames-pos}
use monnok_gigastt.Stream.Chunks.{stream_chunks, stream_chunks-AllJoined}

-- The samples of one encoder frame.
abbrev pub encoder_frame_samples : ℕ
encoder_frame_samples = 640

num_frames-le : (n : ℕ) → 1 ≤ num_frames n
unfolding num_frames
num_frames-le n = ground arith

Ascends-From : (blank_id lo hi : ℕ) (ts : List TokenInfo) → Ascends blank_id lo hi ts → From lo ts
Ascends-From blank_id lo hi [] a = tt
Ascends-From blank_id lo hi (t ∷ ts) a = (a.1, Ascends-From blank_id t.frame_index hi ts a.3)

set_speaker-Ordered :
    (o : Option ℕ) (b : ℕ) (ws : List WordInfo) → Ordered b ws → Ordered b (map (set_speaker o) ws)
set_speaker-Ordered o b [] h = tt
set_speaker-Ordered none b (w ∷ ws) h = (h.0, h.1, set_speaker-Ordered none w.end ws h.2)
set_speaker-Ordered (some id) b (w ∷ ws) h = (h.0, h.1, set_speaker-Ordered (some id) w.end ws h.2)

abbrev pub count_some : Option (List ℕ) → ℕ
count_some none = 0
count_some (some usable) = length usable

abbrev pub IsFine : Chunk → Type 0
IsFine (segments ss) = Unit {0}
IsFine (chunk_failed er) = ⊥

-- All words start at the sample `bound` or later.
abbrev pub StartsFrom : ℕ → List WordInfo → Type 0
StartsFrom bound [] = Unit {0}
StartsFrom bound (w ∷ ws) = (bound ≤ encoder_frame_samples * w.start) × StartsFrom bound ws

Ordered-StartsFrom :
    (bound b : ℕ) (ws : List WordInfo)
    → bound ≤ encoder_frame_samples * b
    → Ordered b ws
    → StartsFrom bound ws
Ordered-StartsFrom bound b [] h o = tt
Ordered-StartsFrom bound b (w ∷ ws) h o =
    (omega arith, Ordered-StartsFrom bound w.end ws (omega arith) o.2)

module _ {R D : Type 0} where
  decoded-Ordered :
      (e : Engine R D) (frame_offset hi count : ℕ) (o : Outcome Loop)
      → Good e.blank_id hi count o
      → Ordered frame_offset (words_of (decoded e frame_offset o))
  decoded-Ordered e frame_offset hi count (err er s) g = tt
  decoded-Ordered e frame_offset hi count (ok l) g =
      tokens_to_words-Ordered e.vocabulary e.mean frame_offset l.tokens
        (Ascends-From e.blank_id 0 hi l.tokens g.0.ascends)

  encoded-Ordered :
      (e : Engine R D) (s : DecoderState) (frame_offset : ℕ) (o : Option (List ℕ × ℕ))
      → IsShaped s
      → Ordered frame_offset (words_of (encoded e s frame_offset o))
  encoded-Ordered e s frame_offset none v = tt
  encoded-Ordered e s frame_offset (some (enc_data, len)) v = elim (Bool-cases (ltb len (2 ^ 31))) [
    | inl b ↦ rw b (
        decoded-Ordered e frame_offset len (max_tokens_per_step * len) _ (
          greedy_decode-Good e.run_decoder e.run_joiner e.softmax_confidence e.blank_id enc_data len
            s v))
    | inr b ↦ rw b tt
  ]

  found_in-Ordered :
      (e : Engine R D) (samples : List ℕ) (s : StreamingState R D) (o : Option (List ℕ))
      → IsReady s
      → Ordered s.total_frames (found_in e samples s o)
  unfolding annotate run_inference
  found_in-Ordered e samples s none v = tt
  found_in-Ordered e samples s (some usable) v = set_speaker-Ordered _ s.total_frames _ (
      encoded-Ordered e s.decoder s.total_frames
        (e.encode (e.mel usable) (num_frames (length usable))) v.shaped)

  -- The words that a chunk brings are ordered in time, do not overlap, and start at `total_frames` or
  -- later.
  recognised-Ordered :
      (e : Engine R D) (samples : List ℕ) (s : StreamingState R D)
      → IsReady s
      → Ordered s.total_frames (recognised e samples s)
  recognised-Ordered e [] s v = tt
  recognised-Ordered e (x ∷ xs) s v =
      found_in-Ordered e (x ∷ xs) s (prepare_audio_buffer (x ∷ xs) s.audio_buffer).0 v

  -- How many samples a chunk hands to the models.
  abbrev pub handed : List ℕ → StreamingState R D → ℕ
  handed [] s = 0
  handed (x ∷ xs) s = count_some (prepare_audio_buffer (x ∷ xs) s.audio_buffer).0

  emit_segment_frames :
      (s : StreamingState R D) (ws : List WordInfo) (endpoint : Bool) (now : ℕ)
      → (emit_segment s ws endpoint now).1.total_frames ≡ s.total_frames
  unfolding emit_segment
  emit_segment_frames s ws endpoint now = ground arith

  after_inference_frames :
      (e : Engine R D) (samples : List ℕ) (frames : ℕ) (s : StreamingState R D) (now : ℕ)
      (i : Inferred)
      → IsFine (after_inference e samples frames s now i).0
      → (after_inference e samples frames s now i).1.total_frames ≡ s.total_frames + frames
  after_inference_frames e samples frames s now (failed er d) f = absurd f
  after_inference_frames e samples frames s now (inferred ws endpoint d) f =
      emit_segment_frames _ _ endpoint now

  on_buffer_frames :
      (e : Engine R D) (samples kept : List ℕ) (s : StreamingState R D) (now : ℕ)
      (o : Option (List ℕ)) (rest : List ℕ)
      → Splits kept (o, rest)
      → IsFine (on_buffer e samples s now (o, rest)).0
      → count_some o + 320 * s.total_frames
        ≤ 320 * (on_buffer e samples s now (o, rest)).1.total_frames
  unfolding process_frames
  on_buffer_frames e samples kept s now none rest k f = omega arith
  on_buffer_frames e samples kept s now (some usable) rest k f =
      let frames = num_frames (length usable) in
      let s' = record s { audio_buffer = rest } in
      let i = run_inference e (e.mel usable) frames s.decoder s.total_frames in
      let pos = num_frames-pos (length usable) in
      let grown = after_inference_frames e samples frames s' now i (rw pos at f) in
      rw pos (omega (arith, k.2, k.3, grown, num_frames-le (length usable)))

  -- A chunk that does not fail adds at least one frame for each 320 samples that it hands on.
  process_chunk_frames :
      (e : Engine R D) (samples : List ℕ) (s : StreamingState R D) (now : ℕ)
      → IsFine (process_chunk e samples s now).0
      → handed samples s + 320 * s.total_frames
        ≤ 320 * (process_chunk e samples s now).1.total_frames
  unfolding process_chunk
  process_chunk_frames e [] s now f = omega arith
  process_chunk_frames e (x ∷ xs) s now f =
      let r = prepare_audio_buffer (x ∷ xs) s.audio_buffer in
      on_buffer_frames e (x ∷ xs) (keep_newest (s.audio_buffer ++ (x ∷ xs))) s now r.0 r.1
        (prepare_audio_buffer-Splits (x ∷ xs) s.audio_buffer) f

  abbrev pub all_handed : Engine R D → StreamingState R D → List (List ℕ × ℕ) → ℕ
  all_handed e s [] = 0
  all_handed e s ((samples, now) ∷ chunks) =
      handed samples s + all_handed e (process_chunk e samples s now).1 chunks

  abbrev pub AllFine : Engine R D → StreamingState R D → List (List ℕ × ℕ) → Type 0
  AllFine e s [] = Unit {0}
  AllFine e s ((samples, now) ∷ chunks) =
      IsFine (process_chunk e samples s now).0 × AllFine e (process_chunk e samples s now).1 chunks

  stream_chunks_frames :
      (e : Engine R D) (chunks : List (List ℕ × ℕ)) (s : StreamingState R D)
      → AllFine e s chunks
      → all_handed e s chunks + 320 * s.total_frames
        ≤ 320 * (stream_chunks e s chunks).1.total_frames
  unfolding stream_chunks
  stream_chunks_frames e [] s f = omega arith
  stream_chunks_frames e ((samples, now) ∷ chunks) s f = omega (
    arith,
    process_chunk_frames e samples s now f.0,
    stream_chunks_frames e chunks (process_chunk e samples s now).1 f.1,
  )

  -- Words of a later chunk are given times at which the audio has not arrived. After any chunks of a
  -- stream that do not fail, from a state that is ready, the words of a further chunk that hands on no more samples than all
  -- of them together all start at the end of all the audio handed on so far, this chunk's included, or
  -- after it.
  pub stream_late :
      (e : Engine R D) (chunks : List (List ℕ × ℕ)) (samples : List ℕ) (s : StreamingState R D)
      → IsReady s
      → AllFine e s chunks
      → handed samples (stream_chunks e s chunks).1 ≤ all_handed e s chunks
      → let end = (stream_chunks e s chunks).1 in
        StartsFrom (all_handed e s chunks + handed samples end) (recognised e samples end)
  stream_late e chunks samples s v f h =
      let end = (stream_chunks e s chunks).1 in
      let ready = (stream_chunks-AllJoined e chunks s v).2 in
      Ordered-StartsFrom _ end.total_frames (recognised e samples end)
        (omega (arith, stream_chunks_frames e chunks s f)) (recognised-Ordered e samples end ready)
