-- ===== src/Ffi/Client.antt =====
-- A client of the C interface of src/ffi.rs: what it knows of its pointers, and when its calls keep to
-- the functions' safety comments.
use monnok_gigastt.Base.{
  ℕ, ◌≤◌, ◌≡◌, ◌⊎◌, Bool, ◌==◌, if◌then◌else◌, Option, none, some, List, [], ◌∷◌, length,
}
use monnok_gigastt.Ffi.{
  World, Called, returned, waits, faulted, aborted, Host, set, null, gigastt_string_free,
  gigastt_engine_free,
}
use monnok_gigastt.Ffi.Calls.{
  gigastt_engine_new, gigastt_engine_new_with_pool_size, gigastt_transcribe_file,
  gigastt_quantize_model, gigastt_stream_new, gigastt_stream_process_chunk, gigastt_stream_flush,
  gigastt_stream_free,
}

pub data Call : Type 0 where
  engine_new : Option (List ℕ) → Call
  engine_new_with_pool_size : Option (List ℕ) → (pool_size : ℕ) → Call
  transcribe_file : (engine : ℕ) → Option (List ℕ) → Call
  quantize_model : Option (List ℕ) → (force : Bool) → Call
  stream_new : (engine : ℕ) → Call
  stream_process_chunk : (engine stream : ℕ) → Option (List ℕ) → (len sample_rate now : ℕ) → Call
  stream_flush : (engine stream now : ℕ) → Call
  string_free engine_free stream_free : ℕ → Call

-- What a live pointer is for the client, which has got it from a call and has not freed it.
pub data Kind : Type 0 where
  engine stream string : Kind

abbrev pub Ledger : Type 0
Ledger = ℕ → Option Kind

-- A pointer that a call gave, unless it is null.
abbrev pub gained : Kind → ℕ → Ledger → Ledger
gained k p l = if p == 0 then l else set l p (some k)

-- The ledger after a call that returned `p`.
unfoldable pub learned : Call → ℕ → Ledger → Ledger
learned (engine_new dir) p l = gained engine p l
learned (engine_new_with_pool_size dir n) p l = gained engine p l
learned (transcribe_file e path) p l = gained string p l
learned (quantize_model dir force) p l = gained string p l
learned (stream_new e) p l = gained stream p l
learned (stream_process_chunk e s bytes len rate now) p l = gained string p l
learned (stream_flush e s now) p l = gained string p l
learned (string_free q) p l = set l q none
learned (engine_free q) p l = set l q none
learned (stream_free q) p l = set l q none

-- Null, or live.
abbrev pub IsNullOr : Kind → Ledger → ℕ → Type 0
IsNullOr k l p = (p ≡ 0) ⊎ (l p ≡ some k)

-- At least `len` bytes, or null.
abbrev pub IsLong : Option (List ℕ) → ℕ → Type 0
IsLong none len = Unit
IsLong (some bytes) len = len ≤ length bytes

unfoldable pub IsLegal : Call → Ledger → Type 0
IsLegal (engine_new dir) l = Unit
IsLegal (engine_new_with_pool_size dir n) l = Unit
IsLegal (transcribe_file e path) l = IsNullOr engine l e
IsLegal (quantize_model dir force) l = Unit
IsLegal (stream_new e) l = IsNullOr engine l e
IsLegal (stream_process_chunk e s bytes len rate now) l =
    IsNullOr engine l e × IsNullOr stream l s × IsLong bytes len
IsLegal (stream_flush e s now) l = IsNullOr engine l e × IsNullOr stream l s
IsLegal (string_free p) l = IsNullOr string l p
IsLegal (engine_free p) l = IsNullOr engine l p
IsLegal (stream_free p) l = IsNullOr stream l p

module _ {R D : Type 0} (host : Host R D) where
  unfoldable pub call : Call → World R D → Called R D
  call (engine_new dir) w = gigastt_engine_new host dir w
  call (engine_new_with_pool_size dir n) w = gigastt_engine_new_with_pool_size host dir n w
  call (transcribe_file e path) w = gigastt_transcribe_file host e path w
  call (quantize_model dir force) w = gigastt_quantize_model host dir force w
  call (stream_new e) w = gigastt_stream_new host e w
  call (stream_process_chunk e s bytes len rate now) w =
      gigastt_stream_process_chunk host e s bytes len rate now w
  call (stream_flush e s now) w = gigastt_stream_flush host e s now w
  call (string_free p) w = gigastt_string_free p w
  call (engine_free p) w = gigastt_engine_free p w
  call (stream_free p) w = gigastt_stream_free host p w

  abbrev pub continue : (World R D → Called R D) → Called R D → Called R D
  continue k (returned p w) = k w
  continue k (waits w) = waits w
  continue k faulted = faulted
  continue k aborted = aborted

  -- Calls one after the other, up to one that does not return.
  unfoldable pub run : List Call → World R D → Called R D
  run [] w = null w
  run (c ∷ cs) w = let rest = run cs in continue rest (call c w)

  abbrev pub AndThen : (ℕ → World R D → Type 0) → Called R D → Type 0
  AndThen P (returned p w) = P p w
  AndThen P (waits w) = Unit
  AndThen P faulted = Unit
  AndThen P aborted = Unit

  -- Each call is legal by what the results of those before it say.
  abbrev pub AllLegal : List Call → Ledger → World R D → Type 0
  AllLegal [] l w = Unit
  AllLegal (c ∷ cs) l w = IsLegal c l × AndThen (λ p w'. AllLegal cs (learned c p l) w') (call c w)
