-- ===== src/Lib.antt =====
-- Verification of gigastt, a local speech-to-text server in Rust: parts of its server and of its
-- inference engine, as functions and step relations, with the theorems listed at the end.
--
-- The program. Audio comes in as chunks over a WebSocket or as a file over HTTP. A request passes
-- the rate limiter (src/server/rate_limit.rs), which finds the client's address and takes a token
-- from its bucket. It then checks a triplet of ONNX sessions out of a pool (src/inference/mod.rs),
-- buffers samples into whole frames (src/inference/audio.rs), runs features and the encoder, and
-- decodes the encoder's frames greedily (src/inference/decode.rs) into tokens, which are
-- grouped into words (src/inference/mod.rs, src/inference/tokenizer.rs). The words go out as
-- segments over the WebSocket (src/server/mod.rs) or the HTTP answer (src/server/http.rs), and
-- the counts of what happened to a scrape (src/server/metrics.rs). The engine is also called
-- from other languages (src/ffi.rs) and from the command line (src/main.rs).
--
-- The files.
-- - Base and its children: names passed on from the libraries, Boolean tests, lemmas on lists.
-- - RateLimit: src/server/rate_limit.rs. Newtypes has `Rpm` and `Burst`; Bucket has `TokenBucket`
--   (`try_consume` is `refilled`, then `take_token`), and Bucket/Rate what it allows; ClientIp has
--   `extract_client_ip` and `is_rfc1918`, and ClientIp/Trust when headers count; Limiter has
--   `RateLimiter` (`check`, `evict_stale`, `rate_limit_middleware`) over the map of
--   Limiter/Buckets, Limiter/Isolation and Limiter/Eviction the properties.
-- - Pool: `Pool<T>` of src/inference/mod.rs. `fast_path` and `register` are the two locked blocks of
--   `checkout` and of `checkout_blocking`, `set_closed` and `clear_waiters` those of `close`,
--   `pop_waiter` and `push_item` those of `checkin`. Pool/Guard has the guard and the reservation,
--   Pool/Fifo the pool as a queue, Pool/System the tasks as a step relation: one step for each
--   locked block, load of the flag, and event at a channel. Its children prove what
--   holds in all interleavings.
-- - Decode: `greedy_decode` with `DecoderState`, `argmax` in Decode/Argmax. Decode/Cases is a case
--   lemma for the loop's body, Decode/Sound the loop's invariant; Decode/Cache and Decode/Tokens
--   are about the whole loop.
-- - Audio: `prepare_audio_buffer` and `BytesMediaSource` of src/inference/audio.rs, and the number
--   of frames of src/inference/features.rs, with Audio/Buffer and Audio/Media. Audio/Mix is the mix
--   to mono, Audio/Decode `decode_audio_inner` and its callers, Audio/Resample both resampling
--   functions; Audio/Whole, Audio/Bound and Audio/Cache are about them.
-- - Words: `token_text` and `tokens_to_words`, with Words/Text and Words/Times. Words/Vocab is the
--   rest of src/inference/tokenizer.rs, with Words/Load.
-- - Transcript: `TranscriptAssembler` of src/inference/mod.rs, with Transcript/Segments over any
--   sequence of its calls.
-- - Pcm: the bytes of a binary WebSocket frame as samples, from `handle_binary_frame` of
--   src/server/mod.rs, with Pcm/Carry over all frames of a session.
-- - Origin: `OriginPolicy` and `evaluate` of src/server/mod.rs, with Origin/Verdict.
-- - Stream: `StreamingState` of src/inference/mod.rs, with `create_state`, `process_chunk`,
--   `run_inference`, `flush_state` and the tail of a transcription. Stream/Decided is one
--   inference, Stream/Ready one chunk, Stream/Chunks a stream of them, Stream/Late the times of words in
--   later chunks, Stream/Scripted an engine for tests.
-- - Protocol: the messages of src/protocol/mod.rs, and the sink and the limits of src/server/mod.rs.
-- - Session: the handlers of a WebSocket session in src/server/mod.rs, each with the session's
--   variables as a record and a `Flow` for its result. Session/Loop is `handle_ws_inner` and
--   `handle_ws`, over a list of events, one for each round. Session/Frame is what all handlers
--   leave alone; Session/Kept and Session/Intact follow the triplet and the streaming state,
--   Session/Trace what is sent, Session/Settings the rate, Session/Farewell the last segment,
--   Session/Connection the pool.
-- - Metrics: `MetricsRegistry` of src/server/metrics.rs. Metrics/Render is `render_prometheus`;
--   Metrics/RoundTrip has a reader for the labels that are written, Metrics/Slots the maps,
--   Metrics/Totals the counters, Metrics/Ladder the buckets, Metrics/Covered when a scrape panics.
-- - Http: `transcribe` of src/server/http.rs, whose future may be dropped while its task runs, as on
--   a disconnect; Http/Sse is `transcribe_stream`, whose task goes on without the handler, with
--   Http/Complete about what the stream has and Http/Returned about the pool.
-- - Download: one download of src/model/mod.rs as the list of its changes to the files, with
--   Download/Atomic about a crash between them, Download/Spared about other files and
--   Download/Pinned about a success. Download/Ensure is `ensure_model` and
--   `ensure_speaker_model`; Download/Names, Download/Kept and Download/Fetched are about all files.
-- - Server: `ServerConfig` and the start of src/server/mod.rs, with the metrics' names in
--   Server/Names. Server/Layers has `origin_middleware`, the limiter's layer,
--   `http_metrics_middleware` and their order, around handlers that are a parameter;
--   Server/Reached and Server/Rate are about what gets to the handlers, Server/Scrape about the
--   metrics, Server/Cors about the header for other origins.
-- - Cli: src/main.rs, each command as the steps that it takes, with Cli/Bind.
-- - Ffi: src/ffi.rs over a store of boxes. Ffi/Path has the paths, Ffi/Calls the functions that use an
--   engine, Ffi/Client the calls of a client and what it knows of its pointers. Ffi/Agrees is the
--   invariant of the boxes, Ffi/Weights and Ffi/Checkout follow the triplets, Ffi/Boxes, Ffi/Files
--   and Ffi/Streams go through the calls, for Ffi/Safe; Ffi/Refused is about paths and double frees.
-- The Tests modules hold concrete runs.
--
-- Representations. Tokens of a bucket are exact parts, 60_000_000_000 to one, without the rounding of
-- the source's `f64`; an `Instant` is a number of nanoseconds. An `f32` is its bit pattern, and only its order
-- (`total_cmp`) is computed. Times of words are numbers of encoder frames. A `DashMap` is an
-- association list. Counts and indices have no upper bound; a media source's position is cut to
-- 64 bits as the source does. Mutexes are the atomicity of the steps; a panic that poisons one
-- is left out.
--
-- A session is run on the list of what its loop waits for. The fate of a send is a function of the
-- number of sends before it; that of a blocking task stands in the event. A panic is a value:
-- one inside `process_chunk` is caught, one in the loop unwinds the session. Pause and wakeup of
-- tasks at `.await` are left out, since a session shares nothing with others but the pool.
--
-- Parameters. The ONNX encoder, decoder and joiner are functions that may fail; the features, the
-- softmax confidence, the mean of confidences, the diarizer, the resampler, the demuxer and the
-- audio decoder, the JSON parser, the parser of paths' UTF-8, `HeaderValue::to_str` and the parser of addresses are functions. In the
-- metrics `f64` is a type with the operations that the code uses, and the decimal text of a number
-- is a function. What a theorem needs of a parameter is among its hypotheses.
--
-- Fuel. The inner loop of `greedy_decode` runs on fuel 11, one more than `MAX_TOKENS_PER_STEP`,
-- which is shown to be enough: `greedy_decode` never ends for want of fuel.
--
-- The chunks of an uploaded file are cut on fuel, the number of its samples: each round takes at
-- least one of them.
--
-- The boxes of the C interface are a function from addresses, which are not used again after a free;
-- a read through a pointer that is not live is a fault. Its calls come one after the other, so that
-- a wait for a triplet ends a run.
--
-- Not modelled. The HTTP handlers that only read the state, the timer that evicts buckets, the
-- drain after a shutdown, the parsing of arguments, the default directory of the models, and the
-- quantization of the encoder; symphonia, rubato, the mel features, the diarizer and the ONNX
-- runtime are third-party calls or floating-point code.
pub mod Base
pub mod RateLimit
pub mod Pool
pub mod Decode
pub mod Audio
pub mod Words
pub mod Transcript
pub mod Pcm
pub mod Origin
pub mod Stream
pub mod Protocol
pub mod Session
pub mod Metrics
pub mod Http
pub mod Server
pub mod Download
pub mod Cli
pub mod Ffi
