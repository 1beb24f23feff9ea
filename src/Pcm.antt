-- ===== src/Pcm.antt =====
-- The bytes of a binary WebSocket frame as PCM samples: the first half of `handle_binary_frame` of
-- src/server/mod.rs, up to the resampling. A sample is the 16-bit pattern that `from_le_bytes`
-- reads; its scaling to `f32` is left out.
pub mod Carry
mod Tests
use monnok_gigastt.Base.{
  ℕ, ◌+◌, ◌*◌, ◌%◌, Bool, true, false, not, ◌||◌, ◌==◌, if◌then◌else◌, Option, none, some, List, [],
  ◌∷◌, length,
}

-- `chunks_exact(2)`, each pair read little-endian.
unfoldable pub chunks_exact : List ℕ → List ℕ
chunks_exact [] = []
chunks_exact (b ∷ []) = []
chunks_exact (lo ∷ hi ∷ bs) = (lo + 256 * hi) ∷ chunks_exact bs

abbrev pub is_odd : ℕ → Bool
is_odd n = not (n % 2 == 0)

-- `Vec::pop`: the vector without its last element, and that element.
unfoldable pub pop : List ℕ → List ℕ × Option ℕ
pop [] = ([], none)
pop (b ∷ []) = ([], some b)
pop (b ∷ c ∷ bs) = let (rest, last) = pop (c ∷ bs) in (b ∷ rest, last)

abbrev pub with_carry : Option ℕ → List ℕ → List ℕ
with_carry none bytes = bytes
with_carry (some b) bytes = b ∷ bytes

abbrev pub is_some : Option ℕ → Bool
is_some none = false
is_some (some b) = true

-- `combined`, and what is deferred.
unfoldable pub defer_odd : List ℕ → List ℕ × Option ℕ
defer_odd combined = if is_odd (length combined) then pop combined else (combined, none)

abbrev pub read_combined : List ℕ × Option ℕ → List ℕ × Option ℕ
read_combined (combined, deferred) = (chunks_exact combined, deferred)

-- The samples of a frame that is not empty, and the pending byte after it.
unfoldable pub frame_samples : Option ℕ → List ℕ → List ℕ × Option ℕ
frame_samples pending bytes =
    if is_some pending || is_odd (length bytes)
    then read_combined (defer_odd (with_carry pending bytes))
    else (chunks_exact bytes, none)

-- An empty frame is skipped, and leaves the pending byte.
unfoldable pub binary_frame : Option ℕ → List ℕ → List ℕ × Option ℕ
binary_frame pending [] = ([], pending)
binary_frame pending (b ∷ bytes) = frame_samples pending (b ∷ bytes)
