-- ===== src/Ffi/Tests.antt =====
-- Concrete runs of src/ffi.rs.
use monnok_gigastt.Base.{
  ℕ, ◌≡◌, refl, true, false, ◌==◌, if◌then◌else◌, none, some, inl, inr, List, [], ◌∷◌, arith,
  Bool-cases,
}
use monnok_gigastt.Words.{Text}
use monnok_gigastt.Pool.{pool_new, fast_path, checkin, push_item, pop_waiter}
use monnok_gigastt.Pool.Guard.{reservation_checkin}
use monnok_gigastt.Audio.{prepare_audio_buffer, keep_newest, split_usable, usable_samples}
use monnok_gigastt.Audio.Resample.{resample_with_cache, is_trivial, sanitize}
use monnok_gigastt.Pcm.{chunks_exact}
use monnok_gigastt.Audio.Decode.{Decoded, decoded, refused, cannot_open}
use monnok_gigastt.Stream.{create_state, process_chunk}
use monnok_gigastt.Stream.Scripted.{scripted}
use monnok_gigastt.Ffi.{engine_box, World, Host, set, alloc, free, new_string, gigastt_engine_free}
use monnok_gigastt.Ffi.Calls.{
  gigastt_transcribe_file, gigastt_stream_new, gigastt_stream_process_chunk, gigastt_stream_free,
  feed_stream, with_checkout,
}
use monnok_gigastt.Ffi.Client.{
  Call, stream_new, stream_process_chunk, engine_free, stream_free, Kind, Ledger, learned, IsLegal,
  AllLegal, call, run,
}
use monnok_gigastt.Ffi.Path.{is_absolute}
use monnok_gigastt.Ffi.Agrees.{Agrees}
use monnok_gigastt.Ffi.Safe.{IsSafe, run-IsSafe}
use monnok_gigastt.Ffi.Refused.{transcribe_file_confined}

abbrev no_file : Text → Decoded
no_file path = refused cannot_open

abbrev phone : Host ℕ ℕ
phone = record {
  load = λ dir n. none;
  from_utf8 = λ chars. some chars;
  current_dir = some (b'/' ∷ []);
  decode_audio_file = no_file;
  offline = λ samples ws. ws;
  scale = λ s. s;
  rubato = record {
    quotient = λ to from. to;
    create = λ q n. some q;
    set_chunk_size = λ r n. (true, r);
    process = λ r xs. (some (xs ∷ []), r);
  };
  to_json = λ segs. some (b'[' ∷ b']' ∷ []);
  int8_exists = λ dir. true;
  quantize = λ dir. none;
  alive = λ waiter. true;
  channel = 0;
}

-- An engine at address 1, with two triplets.
abbrev loaded : World ℕ ℕ
loaded = record {
  heap =
      set (λ p. none) 1
        (some (engine_box (record { engine = scripted; pool = 1; disposed = false })));
  pools = λ q. pool_new (if q == 1 then 7 ∷ 8 ∷ [] else []);
  next = 2;
}

abbrev known : Ledger
known = set (λ p. none) 1 (some Kind.engine)

loaded-Agrees : Agrees known loaded
unfolding pool_new
loaded-Agrees = record {
  pointers = λ p. elim (Bool-cases (p == 1)) [ inl e ↦ rw e refl | inr e ↦ rw e tt ];
  fresh = λ p h. ground arith;
  serving = λ q. (refl, refl);
  positive = omega arith;
}

abbrev calls : List Call
calls =
    stream_new 1
    ∷ stream_process_chunk 1 2 (some (1 ∷ 0 ∷ 2 ∷ 0 ∷ [])) 4 8000 0
    ∷ engine_free 1
    ∷ stream_free 2
    ∷ []

calls-AllLegal : AllLegal phone calls known loaded
unfolding call learned IsLegal gigastt_stream_new gigastt_stream_process_chunk gigastt_engine_free
    gigastt_stream_free feed_stream with_checkout alloc free pool_new fast_path resample_with_cache
    is_trivial sanitize process_chunk prepare_audio_buffer keep_newest split_usable usable_samples
    chunks_exact new_string reservation_checkin checkin push_item pop_waiter create_state
calls-AllLegal = (inr refl, ((inr refl, inr refl, omega arith), (inr refl, (inr refl, tt))))

run-IsSafe_example : IsSafe (λ x. 1) 1 2 (run phone calls loaded)
unfolding pool_new
run-IsSafe_example =
    run-IsSafe phone (λ x. 1) 1 calls known loaded loaded-Agrees (omega arith) calls-AllLegal

-- Absolute paths are files only for the second host.
abbrev absolute_file : Text → Decoded
absolute_file path = if is_absolute path then decoded (1 ∷ []) else refused cannot_open

transcribe_file_confined_example :
    gigastt_transcribe_file phone 1 (some (b'/' ∷ [])) loaded
    ≡ gigastt_transcribe_file
        (record phone { decode_audio_file = absolute_file })
        1
        (some (b'/' ∷ []))
        loaded
transcribe_file_confined_example =
    transcribe_file_confined phone absolute_file 1 (some (b'/' ∷ [])) loaded (λ p a b. rw a refl)
