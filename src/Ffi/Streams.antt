-- ===== src/Ffi/Streams.antt =====
-- The functions of src/ffi.rs on streams and for freeing, called as their safety comments ask.
use monnok_gigastt.Base.{
  ℕ, ◌≤◌, ◌≡◌, refl, ap, false, ltb, ◌==◌, Bool-cases, inl, inr, if◌then◌else◌, Option, none, some,
  List, length, take, arith,
}
use monnok_gigastt.Words.{Text}
use monnok_gigastt.Audio.Resample.{Resampled, resampled_to, init_failed, process_failed, panicked}
use monnok_gigastt.Stream.{Engine, StreamingState, flush_state, Chunk, segments, chunk_failed}
use monnok_gigastt.Transcript.{TranscriptSegment}
use monnok_gigastt.Ffi.{
  GigasttEngine, GigasttStream, stream_box, World, Called, faulted, set, free, null, as_engine,
  as_stream, Host, gigastt_string_free, gigastt_engine_free,
}
use monnok_gigastt.Ffi.Client.{Kind, Ledger, gained, IsNullOr, IsLong}
use monnok_gigastt.Ffi.Calls.{
  gigastt_stream_new, gigastt_stream_process_chunk, gigastt_stream_flush, gigastt_stream_free,
  json_string, answer_chunk, on_resampled, feed_stream, after_flush, stream_box_new,
}
use monnok_gigastt.Ffi.Weights.{of_object}
use monnok_gigastt.Ffi.Agrees.{pointers-IsBox, free-Agrees}
use monnok_gigastt.Ffi.Checkout.{with_checkout-IsGood, checked_in-State}
use monnok_gigastt.Ffi.Boxes.{
  State, Good, alloc-Good, string-Good, new_string-Good, as_engine-Good, as_stream-Good,
  as_string-Good, null_or-Good, free-weight, free_light-Good, null_free-Good, put-State,
}

module _ {R D : Type 0} (host : Host R D) (f : ℕ → ℕ) (q total : ℕ) where
  pub stream_new-Good :
      (l : Ledger) (e : ℕ) (w : World R D)
      → State host f q total l w
      → IsNullOr Kind.engine l e
      → Good host f q total (λ p. gained Kind.stream p l) (gigastt_stream_new host e w)
  unfolding gigastt_stream_new
  stream_new-Good l e w (a, b, h) i =
      null_or-Good host f q total Kind.engine l (λ p. gained Kind.stream p l) e w _ i (a, b, h)
        (λ g.
          as_engine-Good host f q total (λ p. gained Kind.stream p l) _ (w.heap e)
            (pointers-IsBox l w e a g).0
            (λ box _ _.
              with_checkout-IsGood host f q l (λ p. gained Kind.stream p l) total box.pool _ w a b h
                (λ x w' a' b' h'.
                  alloc-Good host f q total Kind.stream l (stream_box_new host box x) w' a' b' refl
                    h')))

  json_string-Good :
      (l : Ledger) (o : Option Text) (w : World R D)
      → State host f q total l w
      → Good host f q total (λ p. gained Kind.string p l) (json_string host o w)
  json_string-Good l none w s = string-Good host f q total l _ w s
  json_string-Good l (some t) w s = new_string-Good host f q total l _ t _ w s s

  module _ (l : Ledger) (p : ℕ) (s : GigasttStream R D) (w : World R D)
      (st : State host f q total l w) (live : l p ≡ some Kind.stream)
      (at : w.heap p ≡ some (stream_box s)) (d : s.disposed ≡ false) where
    answer_chunk-Good :
        (c : Chunk × StreamingState R D)
        → Good host f q total (λ r. gained Kind.string r l) (answer_chunk host p s w c)
    answer_chunk-Good (segments segs, state) =
        json_string-Good l _ _
          (put-State host f q total l p s (record s { state = state }) w st live at d refl)
    answer_chunk-Good (chunk_failed er, state) =
        put-State host f q total l p s (record s { state = state }) w st live at d refl

    on_resampled-Good :
        (e : Engine R D) (now : ℕ) (r : Resampled × Option R)
        → Good host f q total (λ r. gained Kind.string r l) (on_resampled host e p s w now r)
    on_resampled-Good e now (resampled_to samples, cache) = answer_chunk-Good _
    on_resampled-Good e now (init_failed, cache) =
        put-State host f q total l p s _ w st live at d refl
    on_resampled-Good e now (process_failed, cache) =
        put-State host f q total l p s _ w st live at d refl
    on_resampled-Good e now (panicked, cache) = tt

    feed_stream-Good :
        (e : Engine R D) (bytes : List ℕ) (rate now : ℕ)
        → Good host f q total
            (λ r. gained Kind.string r l)
            (feed_stream host e p s bytes rate now w)
    unfolding feed_stream
    feed_stream-Good e bytes rate now = elim (Bool-cases (rate == 16000)) [
      | inl t ↦ rw t (answer_chunk-Good _)
      | inr t ↦ rw t (on_resampled-Good e now _)
    ]

    after_flush-Good :
        (r : Option TranscriptSegment × StreamingState R D)
        → Good host f q total (λ r. gained Kind.string r l) (after_flush host p s w r)
    after_flush-Good (seg, state) =
        json_string-Good l _ _
          (put-State host f q total l p s (record s { state = state }) w st live at d refl)

  -- What is done with an engine and a stream that are both live.
  with_both-Good :
      (l : Ledger) (e p : ℕ) (w : World R D)
      (k : GigasttEngine R D → GigasttStream R D → Called R D)
      → State host f q total l w
      → IsNullOr Kind.engine l e
      → IsNullOr Kind.stream l p
      → ((box : GigasttEngine R D) (s : GigasttStream R D)
          → l p ≡ some Kind.stream
          → w.heap p ≡ some (stream_box s)
          → s.disposed ≡ false
          → Good host f q total (λ r. gained Kind.string r l) (k box s))
      → Good host f q total
          (λ r. gained Kind.string r l)
          (if e == 0
            then null w
            else if p == 0
            then null w
            else as_engine (λ box. as_stream (λ s. k box s) (w.heap p)) (w.heap e))
  with_both-Good l e p w k (a, b, h) i j g =
      let m = λ (r : ℕ). gained Kind.string r l in
      null_or-Good host f q total Kind.engine l m e w _ i (a, b, h)
        (λ x.
          null_or-Good host f q total Kind.stream l m p w _ j (a, b, h)
            (λ y.
              as_engine-Good host f q total m _ (w.heap e) (pointers-IsBox l w e a x).0 (λ box _ _.
                as_stream-Good host f q total m _ (w.heap p) (pointers-IsBox l w p a y).0
                  (λ s at d. g box s y at d))))

  pub stream_flush-Good :
      (l : Ledger) (e p now : ℕ) (w : World R D)
      → State host f q total l w
      → IsNullOr Kind.engine l e
      → IsNullOr Kind.stream l p
      → Good host f q total (λ r. gained Kind.string r l) (gigastt_stream_flush host e p now w)
  unfolding gigastt_stream_flush
  stream_flush-Good l e p now w st i j =
      with_both-Good l e p w (λ box s. after_flush host p s w (flush_state s.state now)) st i j
        (λ box s live at d. after_flush-Good l p s w st live at d _)

  pub stream_process_chunk-Good :
      (l : Ledger) (e p : ℕ) (bytes : Option (List ℕ)) (len rate now : ℕ) (w : World R D)
      → State host f q total l w
      → IsNullOr Kind.engine l e
      → IsNullOr Kind.stream l p
      → IsLong bytes len
      → Good host f q total
          (λ r. gained Kind.string r l)
          (gigastt_stream_process_chunk host e p bytes len rate now w)
  unfolding gigastt_stream_process_chunk
  stream_process_chunk-Good l e p none len rate now w (a, b, h) i j k =
      null_or-Good host f q total Kind.engine l (λ r. gained Kind.string r l) e w _ i (a, b, h)
        (λ _.
          null_or-Good host f q total Kind.stream l (λ r. gained Kind.string r l) p w _ j (a, b, h)
            (λ _. (a, b, h)))
  stream_process_chunk-Good l e p (some bytes) len rate now w st i j k =
      with_both-Good l e p w
        (λ box s.
          if ltb (length bytes) len
          then faulted
          else feed_stream host box.engine p s (take len bytes) rate now w)
        st i j
        (λ box s live at d.
          rw (long (length bytes) len k) (feed_stream-Good l p s w st live at d _ _ _ _))
    where
      long : (m n : ℕ) → n ≤ m → ltb m n ≡ false
      long m n h = ground arith

  pub string_free-Good :
      (l : Ledger) (p : ℕ) (w : World R D)
      → State host f q total l w
      → IsNullOr Kind.string l p
      → Good host f q total (λ _. set l p none) (gigastt_string_free p w)
  unfolding gigastt_string_free
  string_free-Good l p w (a, b, h) i =
      null_or-Good host f q total Kind.string l (λ _. set l p none) p w _ i
        (null_free-Good host f q total l p w (a, b, h))
        (λ live.
          as_string-Good host f q total (λ _. set l p none) _ (w.heap p)
            (pointers-IsBox l w p a live).0
            (λ c at.
              free_light-Good host f q total Kind.string l p w (a, b, h) live
                (ap (of_object f q) at)))

  pub engine_free-Good :
      (l : Ledger) (p : ℕ) (w : World R D)
      → State host f q total l w
      → IsNullOr Kind.engine l p
      → Good host f q total (λ _. set l p none) (gigastt_engine_free p w)
  unfolding gigastt_engine_free
  engine_free-Good l p w (a, b, h) i =
      null_or-Good host f q total Kind.engine l (λ _. set l p none) p w _ i
        (null_free-Good host f q total l p w (a, b, h))
        (λ live.
          as_engine-Good host f q total (λ _. set l p none) _ (w.heap p)
            (pointers-IsBox l w p a live).0
            (λ e at d. rw d (
              free_light-Good host f q total Kind.engine l p w (a, b, h) live
                (ap (of_object f q) at))))

  -- The triplet of the stream goes back.
  pub stream_free-Good :
      (l : Ledger) (p : ℕ) (w : World R D)
      → State host f q total l w
      → IsNullOr Kind.stream l p
      → Good host f q total (λ _. set l p none) (gigastt_stream_free host p w)
  unfolding gigastt_stream_free
  stream_free-Good l p w (a, b, h) i =
      null_or-Good host f q total Kind.stream l (λ _. set l p none) p w _ i
        (null_free-Good host f q total l p w (a, b, h))
        (λ live.
          as_stream-Good host f q total (λ _. set l p none) _ (w.heap p)
            (pointers-IsBox l w p a live).0
            (λ s at d.
              let (a', h') =
                checked_in-State host f q (set l p none) s.reservation s.triplet total (free p w)
                  (free-Agrees l w p a)
                  (omega (
                    arith,
                    h,
                    ap (of_object f q) at,
                    free-weight host f q total p w (pointers-IsBox l w p a live).1,
                  )) in
              rw d (a', b, h')))
