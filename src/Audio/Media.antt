-- ===== src/Audio/Media.antt =====
-- `BytesMediaSource` of src/inference/audio.rs: reading it to its end, and its seek.
use native.Mathlib.Nat.{zero-add}
use native.Mathlib.Nat.{suc-add}
use monnok_gigastt.Base.{
  ℕ, zero, suc, ◌+◌, ◌-◌, ◌≤◌, ◌<◌, ◌≡◌, ◌^◌, refl, ◌∙◌, ap, inl, inr, Bool-cases, leb, min,
  if◌then◌else◌, none, some, List, [], ◌∷◌, ◌++◌, arith, length, take, drop, take-append-drop,
  append_assoc,
}
use monnok_gigastt.Audio.{
  BytesMediaSource, read, seek, end_backward, current_forward, current_backward,
}

-- Reads into buffers of the given sizes, until the list ends.
abbrev pub reads : BytesMediaSource → List ℕ → List ℕ × BytesMediaSource
reads src [] = ([], src)
reads src (room ∷ rooms) =
    let (bs, src') = read src room in let (rest, end) = reads src' rooms in (bs ++ rest, end)

drop_all {ℓ} : {A : Type ℓ} (n : ℕ) (xs : List A) → length xs ≤ n → drop n xs ≡ []
drop_all zero [] h = refl
drop_all zero (x ∷ xs) h = absurd (omega arith)
drop_all (suc n) [] h = refl
drop_all (suc n) (x ∷ xs) h = drop_all n xs (omega arith)

take-nil {ℓ} : {A : Type ℓ} (n : ℕ) → take {A = A} n [] ≡ []
take-nil zero = refl
take-nil (suc n) = refl

take-drop-add {ℓ} :
    {A : Type ℓ} (p n : ℕ) (xs : List A) → take n (drop p xs) ++ drop (p + n) xs ≡ drop p xs
take-drop-add zero n xs = rw (zero-add n) (take-append-drop n xs)
take-drop-add (suc p) n [] = rw (suc-add p n) (ap (λ ys. ys ++ []) (take-nil n))
take-drop-add (suc p) n (x ∷ xs) = rw (suc-add p n) (take-drop-add p n xs)

-- A read gives the next bytes, as many as there are and fit, and moves on by as many; the bytes that
-- it leaves follow the bytes that it gave.
read_lem :
    (src : BytesMediaSource) (room : ℕ)
    → let (bs, src') = read src room in
      (bs ++ drop src'.pos src'.bytes ≡ drop src.pos src.bytes) × (src'.bytes ≡ src.bytes)
unfolding read
read_lem src room = elim (Bool-cases (leb (length src.bytes) src.pos)) [
  | inl e ↦ rw e (refl, refl)
  | inr e ↦ rw e (take-drop-add src.pos (min (length src.bytes - src.pos) room) src.bytes, refl)
]

-- Whatever buffers a decoder reads into, it sees the bytes of the source in order, without a gap: what
-- it has read and what is left make up the rest of the source from where it started.
pub reads_lem :
    (rooms : List ℕ) (src : BytesMediaSource)
    → let (bs, end) = reads src rooms in
      (bs ++ drop end.pos end.bytes ≡ drop src.pos src.bytes) × (end.bytes ≡ src.bytes)
reads_lem [] src = (refl, refl)
reads_lem (room ∷ rooms) src =
    let (e, f) = read_lem src room in
    let src' = (read src room).1 in
    let (e', f') = reads_lem rooms src' in
    (
      append_assoc (read src room).0 (reads src' rooms).0 _
          ∙ ap (λ bs. (read src room).0 ++ bs) e'
          ∙ e,
      f' ∙ f,
    )

-- A seek backward, from the end or from the current position, fails if it leads before the start and
-- goes where it says otherwise, where the length and the position are below 2^64.
pub seek_lem :
    (src : BytesMediaSource) (off : ℕ)
    → length src.bytes < 2 ^ 64
    → src.pos < 2 ^ 64
    → (seek src (end_backward off) ≡ (
        if leb off (length src.bytes)
        then some (record src { pos = length src.bytes - off })
        else none))
      × (seek src (current_backward off)
          ≡ (if leb off src.pos then some (record src { pos = src.pos - off }) else none))
unfolding seek
seek_lem src off h k = ground arith

-- The cast to `u64` wraps: a seek forward from the current position to 2^64 or beyond, which should lie
-- past the end, comes back to the bytes at the start.
pub seek_wraps :
    (src : BytesMediaSource) (off : ℕ)
    → src.pos < 2 ^ 64
    → off < 2 ^ 63
    → 2 ^ 64 ≤ src.pos + off
    → seek src (current_forward off) ≡ some (record src { pos = src.pos + off - 2 ^ 64 })
unfolding seek
seek_wraps src off h k l = ground arith
