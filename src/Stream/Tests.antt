-- ===== src/Stream/Tests.antt =====
-- Concrete runs of the stream of src/inference/mod.rs.
use monnok_gigastt.Base.{ℕ, ◌+◌, ◌≤◌, ◌≡◌, true, List, [], ◌∷◌, ◌++◌, arith}
use monnok_gigastt.Decode.{decoder_state_new, greedy_decode, decode_by, frames}
use monnok_gigastt.Audio.{
  prepare_audio_buffer, split_usable, usable_samples, keep_newest, num_frames,
}
use monnok_gigastt.Words.{tokens_to_words, words_from}
use monnok_gigastt.Transcript.{append, push_words, assembler_new, partial}
use monnok_gigastt.Transcript.Segments.{AllJoined, final_words}
use monnok_gigastt.Stream.{
  StreamingState, create_state, process_chunk, process_frames, run_inference, annotate,
  emit_segment,
}
use monnok_gigastt.Stream.Ready.{IsReady, recognised, create_state-IsReady}
use monnok_gigastt.Stream.Chunks.{stream_chunks, all_recognised, stream_chunks-AllJoined}
use monnok_gigastt.Stream.Late.{handed, AllFine, all_handed, StartsFrom, stream_late}
use monnok_gigastt.Stream.Scripted.{scripted, one_frame, silence}

abbrev fresh : StreamingState ℕ ℕ
fresh = create_state scripted true

fresh-IsReady : IsReady fresh
fresh-IsReady = create_state-IsReady scripted true

abbrev chunks : List (List ℕ × ℕ)
chunks = (one_frame, 10) ∷ (1 ∷ 2 ∷ [], 20) ∷ []

stream_chunks-AllJoined_example :
    let (ss, end) = stream_chunks scripted fresh chunks in
    (final_words ss ++ end.assembler.words
      ≡ fresh.assembler.words ++ all_recognised scripted fresh chunks)
    × AllJoined ss
    × IsReady end
stream_chunks-AllJoined_example = stream_chunks-AllJoined scripted chunks fresh fresh-IsReady

abbrev quiet : List (List ℕ × ℕ)
quiet = (silence, 10) ∷ []

quiet-AllFine : AllFine scripted fresh quiet
unfolding create_state process_chunk prepare_audio_buffer split_usable usable_samples keep_newest
    process_frames num_frames run_inference greedy_decode decode_by frames tokens_to_words
    words_from annotate emit_segment append push_words assembler_new partial decoder_state_new
quiet-AllFine = (tt, tt)

abbrev after_quiet : StreamingState ℕ ℕ
after_quiet = (stream_chunks scripted fresh quiet).1

after_quiet-handed : handed one_frame after_quiet ≤ all_handed scripted fresh quiet
unfolding stream_chunks create_state process_chunk prepare_audio_buffer split_usable usable_samples
    keep_newest process_frames num_frames run_inference greedy_decode decode_by frames
    tokens_to_words words_from annotate emit_segment append push_words assembler_new partial
    decoder_state_new
after_quiet-handed = omega arith

stream_late_example :
    StartsFrom
      (all_handed scripted fresh quiet + handed one_frame after_quiet)
      (recognised scripted one_frame after_quiet)
stream_late_example =
    stream_late scripted quiet one_frame fresh fresh-IsReady quiet-AllFine after_quiet-handed
