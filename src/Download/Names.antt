-- ===== src/Download/Names.antt =====
-- The names of the model files of src/model/mod.rs: none is another, or the partial file of one.
use monnok_gigastt.Base.{
  ◌≡◌, refl, ◌⊎◌, inl, inr, false, ==-same, Option, some, List, [], ◌∷◌, ◌++◌, append_assoc,
}
use monnok_gigastt.Words.{Text, text_eq}
use monnok_gigastt.Ffi.Path.{join}
use monnok_gigastt.Download.{partial_suffix, partial_path}
use monnok_gigastt.Download.Ensure.{
  encoder_checksum, decoder_checksum, joint_checksum, vocab_checksum, model_files, model_checksums,
  find_checksum,
}

text_eq-prefix : (d a b : Text) → text_eq (d ++ a) (d ++ b) ≡ text_eq a b
text_eq-prefix [] a b = refl
text_eq-prefix (c ∷ d) a b = rw (==-same c) (text_eq-prefix d a b)

pub text_eq-join : (dir a b : Text) → text_eq (join dir a) (join dir b) ≡ text_eq a b
unfolding join
text_eq-join dir a b = text_eq-prefix dir (b'/' ∷ a) (b'/' ∷ b)

pub partial_path-join : (dir a : Text) → partial_path (join dir a) ≡ join dir (a ++ partial_suffix)
unfolding join partial_path
partial_path-join dir a = append_assoc dir (b'/' ∷ a) partial_suffix

abbrev pub expected_checksum : Text → Option Text
expected_checksum f = find_checksum f model_checksums

-- The file `f` is none of the names, or one of them, and is the partial file of none.
abbrev pub IsApart : Text → List Text → Type 0
IsApart f [] = Unit {0}
IsApart f (g ∷ names) =
    ((g ≡ f) ⊎ (text_eq g f ≡ false)) × (text_eq (g ++ partial_suffix) f ≡ false) × IsApart f names

abbrev pub AllOf : (Text → Type 0) → List Text → Type 0
AllOf P [] = Unit {0}
AllOf P (f ∷ names) = P f × AllOf P names

-- Each has a checksum and differs from the later ones and their partial files.
abbrev pub AllApart : List Text → Type 0
AllApart [] = Unit {0}
AllApart (f ∷ names) =
    ((h : Text) × (expected_checksum f ≡ some h)) × IsApart f names × AllApart names

-- Each of the first names has a checksum, and is apart from all of the second.
abbrev pub Known : List Text → List Text → Type 0
Known [] names = Unit {0}
Known (f ∷ fs) names =
    ((h : Text) × (expected_checksum f ≡ some h)) × IsApart f names × Known fs names

pub model_files-AllApart : AllApart model_files
model_files-AllApart = (
  (encoder_checksum, refl),
  (inr refl, refl, (inr refl, refl, (inr refl, refl, tt))),
  (
    (decoder_checksum, refl),
    (inr refl, refl, (inr refl, refl, tt)),
    ((joint_checksum, refl), (inr refl, refl, tt), ((vocab_checksum, refl), tt, tt)),
  ),
)

pub model_files-Known : Known model_files model_files
model_files-Known = (
  (encoder_checksum, refl),
  (inl refl, refl, (inr refl, refl, (inr refl, refl, (inr refl, refl, tt)))),
  (
    (decoder_checksum, refl),
    (inr refl, refl, (inl refl, refl, (inr refl, refl, (inr refl, refl, tt)))),
    (
      (joint_checksum, refl),
      (inr refl, refl, (inr refl, refl, (inl refl, refl, (inr refl, refl, tt)))),
      (
        (vocab_checksum, refl),
        (inr refl, refl, (inr refl, refl, (inr refl, refl, (inl refl, refl, tt)))),
        tt,
      ),
    ),
  ),
)
