-- ===== src/Http/Sse.antt =====
-- `transcribe_stream` of src/server/http.rs: a file in chunks of a second, its segments sent as they
-- come. The blocking task outlives the handler and its future; here the answer has all that it sends. A
-- handler that is dropped before the task is spawned has no triplet, or is a task of the pool that gives
-- up.
use monnok_gigastt.Base.{
  ℕ, zero, suc, ◌+◌, ◌⊎◌, inl, inr, Bool, true, false, if◌then◌else◌, Option, none, some, List, [],
  ◌∷◌, ◌++◌, length, take, drop,
}
use monnok_gigastt.Pool.{Waiter}
use monnok_gigastt.Transcript.{TranscriptSegment}
use monnok_gigastt.Stream.{
  Engine, StreamingState, Chunk, segments, chunk_failed, create_state, process_chunk, flush_state,
}
use monnok_gigastt.Protocol.{RuntimeLimits}
use monnok_gigastt.Session.{Task, finishes, panics, is_lost, is_panic}
use monnok_gigastt.Http.{
  unprocessable_entity, internal_server_error, invalid_audio, internal, ApiError, api_error, Wait,
  Service, checked_in, with_triplet, checked_body,
}

pub data Item : Type 0 where
  segment : TranscriptSegment → Item
  stream_error : Item

-- What happens around the blocking task: the clock, the shutdown and a panic at each chunk, and whether
-- a receiver is there for each send.
pub record World : Type 0 where
  pub now : ℕ → ℕ
  pub is_cancelled : ℕ → Bool
  pub panics_in : ℕ → Bool
  pub receives : ℕ → Bool

abbrev pub chunk_size : ℕ
chunk_size = 16000

-- `samples.chunks(chunk_size)`; the fuel is the number of samples.
unfoldable pub chunks_of : ℕ → List ℕ → List (List ℕ)
chunks_of zero xs = []
chunks_of (suc fuel) [] = []
chunks_of (suc fuel) (x ∷ xs) = take chunk_size (x ∷ xs) ∷ chunks_of fuel (drop chunk_size (x ∷ xs))

abbrev pub sample_chunks : List ℕ → List (List ℕ)
sample_chunks samples = chunks_of (length samples) samples

-- `tx.blocking_send`; nothing is sent after a send that fails.
abbrev pub push : World → List Item → Item → List Item × Bool
push world out item =
    if world.receives (length out) then (out ++ (item ∷ []), true) else (out, false)

unfoldable pub push_segments : World → List Item → List TranscriptSegment → List Item × Bool
push_segments world out [] = (out, true)
push_segments world out (seg ∷ segs) =
    let (next, sent) = push world out (segment seg) in
    let rest = push_segments world next segs in if sent then rest else (next, false)

abbrev pub push_last : World → List Item → Option TranscriptSegment → List Item
push_last world out none = out
push_last world out (some seg) = (push world out (segment seg)).0

module _ {R D : Type 0} where
  -- The result has no state where the closure has returned, or was unwound.
  abbrev pub after_chunk :
      World
      → List Item
      → (StreamingState R D → List Item → List Item × Option (StreamingState R D))
      → Chunk × StreamingState R D
      → List Item × Option (StreamingState R D)
  after_chunk world out rest (segments ss, s) =
      let (next, sent) = push_segments world out ss in if sent then rest s next else (next, none)
  after_chunk world out rest (chunk_failed er, s) =
      if is_panic er then (out, none) else ((push world out stream_error).0, none)

  unfoldable pub sse_loop :
      Engine R D
      → World
      → List (List ℕ)
      → ℕ
      → StreamingState R D
      → List Item
      → List Item × Option (StreamingState R D)
  sse_loop e world [] i s out = (out, some s)
  sse_loop e world (c ∷ cs) i s out =
      let next =
        after_chunk world out (sse_loop e world cs (i + 1)) (process_chunk e c s (world.now i)) in
      if world.is_cancelled i then (out, none) else if world.panics_in i then (out, none) else next

  abbrev pub flushed : World → ℕ → List Item × Option (StreamingState R D) → List Item
  flushed world i (out, none) = out
  flushed world i (out, some s) =
      if world.is_cancelled i then out else push_last world out (flush_state s (world.now i)).0

  unfoldable pub sse_task : Engine R D → World → List ℕ → List Item
  sse_task e world samples =
      let cs = sample_chunks samples in
      flushed world (length cs) (sse_loop e world cs 0 (create_state e false) [])

-- The samples, if the task that decodes comes back with them.
abbrev pub decoded_samples : Task → Option (List ℕ) → ApiError ⊎ List ℕ
decoded_samples finishes none = inl (api_error unprocessable_entity invalid_audio)
decoded_samples finishes (some samples) = inr samples
decoded_samples panics r = inl (api_error internal_server_error internal)
decoded_samples is_lost r = inl (api_error internal_server_error internal)

module _ {R D T : Type 0} (e : Engine R D) (decode_audio : List ℕ → Option (List ℕ))
    (limits : RuntimeLimits) (alive : Waiter → Bool) where
  -- The blocking task with the triplet that it owns. What the closure under `catch_unwind` does, a return
  -- in the middle or a panic, is `sse_task`; the check-in comes after it. A runtime that shuts down
  -- may drop the task before it starts, and the triplet with it.
  abbrev pub blocking_task :
      World → (starts : Bool) → List ℕ → Service T → T → (ApiError ⊎ List Item) × Service T
  blocking_task world true samples w t = (inr (sse_task e world samples), checked_in alive w t)
  blocking_task world false samples w t = (inr [], w)

  abbrev pub stream_samples :
      World
      → (starts : Bool) → Wait T
      → Service T
      → ApiError ⊎ List ℕ
      → (ApiError ⊎ List Item) × Service T
  stream_samples world starts wait w (inl er) = (inl er, w)
  stream_samples world starts wait w (inr samples) =
      with_triplet limits w wait (blocking_task world starts samples w)

  unfoldable pub transcribe_stream :
      List ℕ
      → Task
      → World
      → (starts : Bool) → Wait T
      → Service T
      → (ApiError ⊎ List Item) × Service T
  transcribe_stream body decoding_task world starts wait w =
      checked_body limits body w
        (stream_samples world starts wait w (decoded_samples decoding_task (decode_audio body)))
