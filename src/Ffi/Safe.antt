-- ===== src/Ffi/Safe.antt =====
-- Clients of src/ffi.rs that keep to its safety comments: no call faults, and no triplet is lost.
use monnok_gigastt.Base.{ℕ, ◌<◌, ◌≡◌, refl, List, [], ◌∷◌}
use monnok_gigastt.Ffi.{World, Called, returned, waits, faulted, aborted, Host}
use monnok_gigastt.Ffi.Client.{
  Call, engine_new, engine_new_with_pool_size, transcribe_file, quantize_model, stream_new,
  stream_process_chunk, stream_flush, string_free, engine_free, stream_free, Ledger, IsLegal,
  learned, call, run, AllLegal, AndThen, continue,
}
use monnok_gigastt.Ffi.Calls.{gigastt_engine_new}
use monnok_gigastt.Ffi.Weights.{weight}
use monnok_gigastt.Ffi.Agrees.{Agrees}
use monnok_gigastt.Ffi.Files.{engine_new-Good, transcribe_file-Good, quantize_model-Good}
use monnok_gigastt.Ffi.Streams.{
  stream_new-Good, stream_process_chunk-Good, stream_flush-Good, string_free-Good, engine_free-Good,
  stream_free-Good,
}
use monnok_gigastt.Ffi.Boxes.{State, Good}

module _ {R D : Type 0} (host : Host R D) (f : ℕ → ℕ) (q total : ℕ) where
  call-Good :
      (c : Call) (l : Ledger) (w : World R D)
      → State host f q total l w
      → IsLegal c l
      → Good host f q total (λ p. learned c p l) (call host c w)
  unfolding call learned IsLegal gigastt_engine_new
  call-Good (engine_new dir) l w s i = engine_new-Good host f q total l dir 4 w s
  call-Good (engine_new_with_pool_size dir n) l w s i = engine_new-Good host f q total l dir n w s
  call-Good (transcribe_file e path) l w s i = transcribe_file-Good host f q total l e path w s i
  call-Good (quantize_model dir force) l w s i = quantize_model-Good host f q total l dir force w s
  call-Good (stream_new e) l w s i = stream_new-Good host f q total l e w s i
  call-Good (stream_process_chunk e p bytes len rate now) l w s (i, j, k) =
      stream_process_chunk-Good host f q total l e p bytes len rate now w s i j k
  call-Good (stream_flush e p now) l w s (i, j) = stream_flush-Good host f q total l e p now w s i j
  call-Good (string_free p) l w s i = string_free-Good host f q total l p w s i
  call-Good (engine_free p) l w s i = engine_free-Good host f q total l p w s i
  call-Good (stream_free p) l w s i = stream_free-Good host f q total l p w s i

module _ {R D : Type 0} where
  -- No fault, and the triplets of pool `q`, in the pool and with streams, weigh `total`.
  abbrev pub IsSafe : (f : ℕ → ℕ) (q total : ℕ) → Called R D → Type 0
  IsSafe f q total (returned p w) = weight f q w ≡ total
  IsSafe f q total (waits w) = weight f q w ≡ total
  IsSafe f q total faulted = ⊥
  IsSafe f q total aborted = Unit

module _ {R D : Type 0} (host : Host R D) (f : ℕ → ℕ) (q : ℕ) where
  run-State :
      (total : ℕ) (cs : List Call) (l : Ledger) (w : World R D)
      → State host f q total l w
      → AllLegal host cs l w
      → IsSafe f q total (run host cs w)
  unfolding run
  run-State total [] l w (a, b, h) i = h
  run-State total (c ∷ cs) l w s (i, j) =
      go (λ p w' s' j'. run-State total cs (learned c p l) w' s' j') (call host c w)
        (call-Good host f q total c l w s i) j
    where
      go :
          ((p : ℕ) (w' : World R D)
            → State host f q total (learned c p l) w'
            → AllLegal host cs (learned c p l) w'
            → IsSafe f q total (run host cs w'))
          → (r : Called R D) → Good host f q total (λ p. learned c p l) r
          → AndThen host (λ p w'. AllLegal host cs (learned c p l) w') r
          → IsSafe f q total (continue host (run host cs) r)
      go rec (returned p w') s' j' = rec p w' s' j'
      go rec (waits w') h j' = h
      go rec faulted h j' = h
      go rec aborted h j' = tt

  -- A client whose calls each use only null pointers and pointers that earlier calls gave and it has not
  -- freed, and lend as many bytes as they say, never faults, whatever it calls in whatever order.
  -- And each pool that is there at the start keeps its triplets until a call waits or all have
  -- returned: under any weight, those in the pool and those with streams that are not freed weigh
  -- what they weighed at the start. It is assumed that the boxes agree with the pointers known at
  -- the start, and that the pools are then open with nobody waiting.
  pub run-IsSafe :
      (cs : List Call) (l : Ledger) (w : World R D)
      → Agrees l w
      → q < w.next
      → AllLegal host cs l w
      → IsSafe f q (weight f q w) (run host cs w)
  run-IsSafe cs l w a b i = run-State (weight f q w) cs l w (a, b, refl) i
