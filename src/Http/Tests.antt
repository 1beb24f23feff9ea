-- ===== src/Http/Tests.antt =====
-- Concrete requests to src/server/http.rs.
use monnok_gigastt.Base.{ℕ, ◌≡◌, refl, Bool, true, false, Option, some, List, [], ◌∷◌}
use monnok_gigastt.Words.{WordInfo, tokens_to_words, words_from}
use monnok_gigastt.Decode.{decoder_state_new, greedy_decode, decode_by, frames}
use monnok_gigastt.Audio.{
  prepare_audio_buffer, split_usable, usable_samples, keep_newest, num_frames,
}
use monnok_gigastt.Transcript.{append, push_words, assembler_new, partial}
use monnok_gigastt.Transcript.Segments.{final_words, AllJoined}
use monnok_gigastt.Pool.{Waiter}
use monnok_gigastt.Stream.{
  create_state, process_chunk, process_frames, run_inference, annotate, emit_segment,
}
use monnok_gigastt.Stream.Chunks.{all_recognised}
use monnok_gigastt.Stream.Late.{AllFine}
use monnok_gigastt.Stream.Scripted.{scripted, silence}
use monnok_gigastt.Http.{Service}
use monnok_gigastt.Http.Sse.{World, chunks_of, sample_chunks, sse_task}
use monnok_gigastt.Http.Complete.{IsCalm, timed, flat, sent_segments, sse_task-final_words}

abbrev peace : World
peace = record {
  now = λ i. i;
  is_cancelled = λ i. false;
  panics_in = λ i. false;
  receives = λ n. true;
}

peace-IsCalm : IsCalm peace
peace-IsCalm = record { goes_on = λ i. refl; is_safe = λ i. refl; listens = λ n. refl }

silence-AllFine :
    AllFine scripted (create_state scripted false) (timed peace (sample_chunks silence) 0)
unfolding chunks_of create_state process_chunk prepare_audio_buffer split_usable usable_samples
    keep_newest process_frames num_frames run_inference greedy_decode decode_by frames
    tokens_to_words words_from annotate emit_segment append push_words assembler_new partial
    decoder_state_new
silence-AllFine = (tt, tt)

sse_task-final_words_example :
    let ss = sent_segments (sse_task scripted peace silence) in
    (flat (sample_chunks silence) ≡ silence)
    × (final_words ss
        ≡ all_recognised scripted
            (create_state scripted false)
            (timed peace (sample_chunks silence) 0))
    × AllJoined ss
sse_task-final_words_example =
    sse_task-final_words scripted peace peace-IsCalm silence silence-AllFine

abbrev nobody : Waiter → Bool
nobody w = true

abbrev service : Service ℕ
service = record {
  pool = record { items = 5 ∷ []; waiters = []; closed = false; total = 2 };
  pool_timeouts = 0;
}

abbrev no_change : List ℕ → List WordInfo → List WordInfo
no_change samples ws = ws

abbrev as_bytes : List ℕ → Option (List ℕ)
as_bytes body = some body
