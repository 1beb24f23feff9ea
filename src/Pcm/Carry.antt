-- ===== src/Pcm/Carry.antt =====
-- The pending byte of src/server/mod.rs: how a client cuts its stream into frames does not matter.
use monnok_gigastt.Base.{
  ℕ, suc, ◌+◌, ◌*◌, ◌≡◌, refl, sym, ◌∙◌, ap, true, false, inl, inr, Bool-cases, Option, none, some,
  List, [], ◌∷◌, ◌++◌, arith, length,
}
use monnok_gigastt.Pcm.{
  chunks_exact, is_odd, pop, with_carry, defer_odd, frame_samples, binary_frame,
}

-- The last byte of an odd number of bytes.
abbrev pub leftover : List ℕ → Option ℕ
leftover [] = none
leftover (b ∷ []) = some b
leftover (lo ∷ hi ∷ bs) = leftover bs

chunks_exact-append :
    (xs ys : List ℕ)
    → (chunks_exact (xs ++ ys) ≡ chunks_exact xs ++ chunks_exact (with_carry (leftover xs) ys))
      × (leftover (xs ++ ys) ≡ leftover (with_carry (leftover xs) ys))
unfolding chunks_exact
chunks_exact-append [] ys = (refl, refl)
chunks_exact-append (b ∷ []) ys = (refl, refl)
chunks_exact-append (lo ∷ hi ∷ bs) ys =
    let (e, f) = chunks_exact-append bs ys in (ap (λ s. (lo + 256 * hi) ∷ s) e, f)

parity : (n : ℕ) → is_odd (suc (suc n)) ≡ is_odd n
parity n = ground arith

even-leftover : (xs : List ℕ) → is_odd (length xs) ≡ false → leftover xs ≡ none
even-leftover [] h = refl
even-leftover (b ∷ []) h = ground arith
even-leftover (lo ∷ hi ∷ bs) h = even-leftover bs (sym (parity (length bs)) ∙ h)

pop-leftover :
    (xs : List ℕ)
    → is_odd (length xs) ≡ true
    → (chunks_exact (pop xs).0 ≡ chunks_exact xs) × ((pop xs).1 ≡ leftover xs)
unfolding chunks_exact pop
pop-leftover [] h = (refl, refl)
pop-leftover (b ∷ []) h = (refl, refl)
pop-leftover (lo ∷ hi ∷ []) h = ground arith
pop-leftover (lo ∷ hi ∷ b ∷ bs) h =
    let (e, f) = pop-leftover (b ∷ bs) (sym (parity (length (b ∷ bs))) ∙ h) in
    (ap (λ s. (lo + 256 * hi) ∷ s) e, f)

defer_odd-leftover :
    (xs : List ℕ)
    → (chunks_exact (defer_odd xs).0 ≡ chunks_exact xs) × ((defer_odd xs).1 ≡ leftover xs)
unfolding defer_odd
defer_odd-leftover xs = elim (Bool-cases (is_odd (length xs))) [
  | inl e ↦ rw e (pop-leftover xs e)
  | inr e ↦ rw e (refl, sym (even-leftover xs e))
]

-- A frame gives the whole samples of the pending byte and its own bytes, and keeps the byte that is over.
binary_frame-leftover :
    (pending : Option ℕ) (bytes : List ℕ)
    → ((binary_frame pending bytes).0 ≡ chunks_exact (with_carry pending bytes))
      × ((binary_frame pending bytes).1 ≡ leftover (with_carry pending bytes))
unfolding binary_frame frame_samples chunks_exact
binary_frame-leftover none [] = (refl, refl)
binary_frame-leftover (some b) [] = (refl, refl)
binary_frame-leftover (some c) (b ∷ bytes) = defer_odd-leftover (c ∷ b ∷ bytes)
binary_frame-leftover none (b ∷ bytes) = elim (Bool-cases (is_odd (length (b ∷ bytes)))) [
  | inl e ↦ rw e (defer_odd-leftover (b ∷ bytes))
  | inr e ↦ rw e (refl, sym (even-leftover (b ∷ bytes) e))
]

-- All frames of a session: the samples in order, and the pending byte at the end.
unfoldable pub session_samples : Option ℕ → List (List ℕ) → List ℕ × Option ℕ
session_samples pending [] = ([], pending)
session_samples pending (bytes ∷ frames) =
    let (samples, pending') = binary_frame pending bytes in
    let (rest, end) = session_samples pending' frames in (samples ++ rest, end)

abbrev pub flat : List (List ℕ) → List ℕ
flat [] = []
flat (bytes ∷ frames) = bytes ++ flat frames

with_carry-append :
    (pending : Option ℕ) (xs ys : List ℕ)
    → with_carry pending (xs ++ ys) ≡ with_carry pending xs ++ ys
with_carry-append none xs ys = refl
with_carry-append (some b) xs ys = refl

with_carry-nil :
    (pending : Option ℕ)
    → (chunks_exact (with_carry pending []) ≡ []) × (leftover (with_carry pending []) ≡ pending)
unfolding chunks_exact
with_carry-nil none = (refl, refl)
with_carry-nil (some b) = (refl, refl)

-- Wherever a client cuts its bytes into frames, also in the middle of a sample and with empty frames,
-- the server reads the samples that it reads from all bytes in one piece, and what is pending at the
-- end is the last byte if their number is odd.
pub session_samples-chunks_exact :
    (frames : List (List ℕ)) (pending : Option ℕ)
    → ((session_samples pending frames).0 ≡ chunks_exact (with_carry pending (flat frames)))
      × ((session_samples pending frames).1 ≡ leftover (with_carry pending (flat frames)))
unfolding session_samples
session_samples-chunks_exact [] pending = let (e, f) = with_carry-nil pending in (sym e, sym f)
session_samples-chunks_exact (bytes ∷ frames) pending =
    let (samples, over) = binary_frame-leftover pending bytes in
    let (ih, end) = session_samples-chunks_exact frames (binary_frame pending bytes).1 in
    let (cut, last) = chunks_exact-append (with_carry pending bytes) (flat frames) in
    let whole = with_carry-append pending bytes (flat frames) in
    (
      ap (λ s. s ++ (session_samples (binary_frame pending bytes).1 frames).0) samples
          ∙ ap (λ s. chunks_exact (with_carry pending bytes) ++ s)
              (ih ∙ ap (λ p. chunks_exact (with_carry p (flat frames))) over)
          ∙ sym cut
          ∙ ap chunks_exact (sym whole),
      end
          ∙ ap (λ p. leftover (with_carry p (flat frames))) over
          ∙ sym last
          ∙ ap leftover (sym whole),
    )
