-- ===== src/Ffi/Path.antt =====
-- What `gigastt_transcribe_file` of src/ffi.rs asks of `std::path::Path` on a system where paths are
-- separated by slashes. A `.` at the start, which std keeps as a component, is dropped like the others.
use monnok_gigastt.Base.{ℕ, Bool, true, false, ◌&&◌, ◌||◌, ◌==◌, if◌then◌else◌, List, [], ◌∷◌, ◌++◌}
use monnok_gigastt.Words.{Text, text_eq}

unfoldable pub is_absolute : Text → Bool
is_absolute [] = false
is_absolute (c ∷ t) = c == b'/'

abbrev pub to_first : ℕ → List Text → List Text
to_first c [] = (c ∷ []) ∷ []
to_first c (s ∷ ss) = (c ∷ s) ∷ ss

abbrev pub split_slash : Text → List Text
split_slash [] = [] ∷ []
split_slash (c ∷ t) = if c == b'/' then [] ∷ split_slash t else to_first c (split_slash t)

-- Components of no letter and `.` are skipped.
abbrev pub is_skipped : Text → Bool
is_skipped s = text_eq s [] || text_eq s (b'.' ∷ [])

abbrev pub significant : List Text → List Text
significant [] = []
significant (s ∷ ss) = if is_skipped s then significant ss else s ∷ significant ss

unfoldable pub components : Text → List Text
components t = significant (split_slash t)

abbrev pub any_parent : List Text → Bool
any_parent [] = false
any_parent (s ∷ ss) = text_eq s (b'.' ∷ b'.' ∷ []) || any_parent ss

-- `components().any(ParentDir)`
unfoldable pub has_parent_dir : Text → Bool
has_parent_dir t = any_parent (components t)

-- `join` of a relative path.
unfoldable pub join : Text → Text → Text
join dir path = dir ++ (b'/' ∷ path)

abbrev pub is_prefix : List Text → List Text → Bool
is_prefix [] ts = true
is_prefix (s ∷ ss) [] = false
is_prefix (s ∷ ss) (t ∷ ts) = text_eq s t && is_prefix ss ts

unfoldable pub starts_with : Text → Text → Bool
starts_with path base = is_prefix (components base) (components path)
