-- ===== src/Download/Kept.antt =====
-- What one download of src/model/mod.rs after the other, in `ensure_model`, does to each model file.
use monnok_gigastt.Base.{
  ℕ, zero, suc, ◌≡◌, refl, sym, ◌∙◌, ap, subst, ◌⊎◌, inl, inr, Bool, true, false, if◌then◌else◌,
  Option, some, List, [], ◌∷◌, ◌++◌, take,
}
use monnok_gigastt.Words.{Text, text_eq}
use monnok_gigastt.Ffi.Path.{join}
use monnok_gigastt.Download.{
  Files, file_at, Action, act, act_all, Disk, Response, partial_suffix,
  stream_to_partial_then_finalize,
}
use monnok_gigastt.Download.Stays.{take_split}
use monnok_gigastt.Download.Atomic.{IsWhole, stream_to_partial_then_finalize-IsWhole}
use monnok_gigastt.Download.Spared.{file_at-stream_to_partial_then_finalize}
use monnok_gigastt.Download.Pinned.{IsPinned, stream_to_partial_then_finalize-IsPinned}
use monnok_gigastt.Download.Ensure.{
  model_checksums, find_checksum, model_url, download_file, download_files,
}
use monnok_gigastt.Download.Names.{
  text_eq-join, partial_path-join, expected_checksum, IsApart, AllOf, Known,
}

pub take_all :
    (acts : List Action) (fs : Files) → (n : ℕ) × (act_all (take n acts) fs ≡ act_all acts fs)
take_all [] fs = (0, refl)
take_all (a ∷ acts) fs = let (n, e) = take_all acts (act a fs) in (suc n, e)

module _ (sha256 : List ℕ → Text) (dir : Text) where
  -- Under the name of a model file stands a file with its checksum.
  abbrev pub HasModel : Text → Files → Type 0
  HasModel f fs = IsPinned sha256 (join dir f) (find_checksum f model_checksums) fs

  -- It has what it had, or a file with its checksum.
  abbrev pub IsKept : Text → (before after : Files) → Type 0
  IsKept f before after =
      (file_at (join dir f) after ≡ file_at (join dir f) before) ⊎ HasModel f after

  IsKept-trans : (f : Text) (a b c : Files) → IsKept f a b → IsKept f b c → IsKept f a c
  IsKept-trans f a b c (inl e) (inl g) = inl (g ∙ e)
  IsKept-trans f a b c (inr (d, e, v)) (inl g) = inr (d, g ∙ e, v)
  IsKept-trans f a b c (inl e) (inr v) = inr v
  IsKept-trans f a b c (inr w) (inr v) = inr v

  pub HasModel-kept : (f : Text) (a b : Files) → HasModel f a → IsKept f a b → HasModel f b
  HasModel-kept f a b (d, e, v) (inl g) = (d, g ∙ e, v)
  HasModel-kept f a b w (inr v) = v

  IsKept-whole :
      (disk : Disk) (f h : Text) (a b : Files)
      → expected_checksum f ≡ some h
      → IsWhole sha256 disk (join dir f) (some h) a b
      → IsKept f a b
  IsKept-whole disk f h a b e (inl g) = inl g
  IsKept-whole disk f h a b e (inr (c, g, v)) = inr (c, g, e ∙ ap some (sym v))

  module _ (disks : Text → Disk) (responses : Text → Response) where
    download_file-IsKept :
        (f h : Text) (fs : Files) (n : ℕ)
        → expected_checksum f ≡ some h
        → IsKept f fs (act_all (take n (download_file sha256 disks responses dir f fs).0) fs)
    unfolding download_file
    download_file-IsKept f h fs n e = IsKept-whole (disks f) f h fs _ e (
        subst
          (λ x. IsWhole sha256 (disks f) (join dir f) x fs (
            act_all
              (take n
                (stream_to_partial_then_finalize sha256 (disks f) (responses (model_url f))
                  (join dir f) (expected_checksum f) fs).0)
              fs))
          e
          (stream_to_partial_then_finalize-IsWhole sha256 (disks f) (responses (model_url f))
            (join dir f) (expected_checksum f) fs n))

    download_file-apart :
        (f g : Text) (fs : Files) (n : ℕ)
        → text_eq g f ≡ false
        → text_eq (g ++ partial_suffix) f ≡ false
        → IsKept f fs (act_all (take n (download_file sha256 disks responses dir g fs).0) fs)
    unfolding download_file
    download_file-apart f g fs n h k = inl (
        file_at-stream_to_partial_then_finalize sha256 (disks g) (join dir f)
          (responses (model_url g)) (join dir g) (expected_checksum g) fs n
          (rw (partial_path-join dir g) (text_eq-join dir (g ++ partial_suffix) f ∙ k))
          (text_eq-join dir g f ∙ h))

    pub download_file-HasModel :
        (f h : Text) (fs : Files)
        → expected_checksum f ≡ some h
        → (download_file sha256 disks responses dir f fs).1 ≡ true
        → HasModel f (act_all (download_file sha256 disks responses dir f fs).0 fs)
    unfolding download_file
    download_file-HasModel f h fs e = subst Goal (sym e) (
        stream_to_partial_then_finalize-IsPinned sha256 (disks f) (responses (model_url f))
          (join dir f) h fs)
      where
        Goal : Option Text → Type 0
        Goal x =
            (stream_to_partial_then_finalize sha256 (disks f) (responses (model_url f)) (join dir f)
                x fs).1
              ≡ true
            → IsPinned sha256 (join dir f) x (
                act_all
                  (stream_to_partial_then_finalize sha256 (disks f) (responses (model_url f))
                    (join dir f) x fs).0
                  fs)

    one_file-IsKept :
        (f g h : Text) (fs : Files) (n : ℕ)
        → expected_checksum f ≡ some h
        → (g ≡ f) ⊎ (text_eq g f ≡ false)
        → text_eq (g ++ partial_suffix) f ≡ false
        → IsKept f fs (act_all (take n (download_file sha256 disks responses dir g fs).0) fs)
    one_file-IsKept f g h fs n e (inl same) k =
        subst
          (λ x. IsKept f fs (act_all (take n (download_file sha256 disks responses dir x fs).0) fs))
          (sym same) (download_file-IsKept f h fs n e)
    one_file-IsKept f g h fs n e (inr other) k = download_file-apart f g fs n other k

    -- Actions of one file, then of the rest.
    two_parts-IsKept :
        (f : Text) (fs : Files) (acts bs : List Action) (n : ℕ)
        → ((k : ℕ) → IsKept f fs (act_all (take k acts) fs))
        → ((k : ℕ) → IsKept f (act_all acts fs) (act_all (take k bs) (act_all acts fs)))
        → IsKept f fs (act_all (take n (acts ++ bs)) fs)
    two_parts-IsKept f fs acts bs n one two =
        let (m, whole) = take_all acts fs in
        elim (take_split n acts bs fs) [
          | inl (k, e) ↦ subst (λ x. IsKept f fs x) (sym e) (one k)
          | inr (k, e) ↦
              subst (λ x. IsKept f fs x) (sym e)
                (IsKept-trans f fs (act_all acts fs) _ (subst (λ x. IsKept f fs x) whole (one m))
                  (two k))
        ]

    if_IsKept :
        (f : Text) (fs : Files) (n : ℕ) (c : Bool) (x y : List Action × Bool)
        → IsKept f fs (act_all (take n x.0) fs)
        → IsKept f fs (act_all (take n y.0) fs)
        → IsKept f fs (act_all (take n (if c then x else y).0) fs)
    if_IsKept f fs n true x y h k = h
    if_IsKept f fs n false x y h k = k

    pub nothing-IsKept : (f : Text) (fs : Files) (n : ℕ) → IsKept f fs (act_all (take n []) fs)
    nothing-IsKept f fs zero = inl refl
    nothing-IsKept f fs (suc n) = inl refl

    pub download_files-IsKept :
        (f h : Text) (names : List Text) (fs : Files) (n : ℕ)
        → expected_checksum f ≡ some h
        → IsApart f names
        → IsKept f fs (act_all (take n (download_files sha256 disks responses dir names fs).0) fs)
    unfolding download_files
    download_files-IsKept f h [] fs n e a = nothing-IsKept f fs n
    download_files-IsKept f h (g ∷ names) fs n e (same, apart, rest) =
        let d = download_file sha256 disks responses dir g fs in
        if_IsKept f fs n d.1 _ _
          (two_parts-IsKept f fs d.0 _ n (λ k. one_file-IsKept f g h fs k e same apart)
            (λ k. download_files-IsKept f h names (act_all d.0 fs) k e rest))
          (one_file-IsKept f g h fs n e same apart)

    pub every_file-IsKept :
        (fs names : List Text) (files : Files) (n : ℕ)
        → Known fs names
        → AllOf
            (λ f.
              IsKept f files
                (act_all (take n (download_files sha256 disks responses dir names files).0) files))
            fs
    every_file-IsKept [] names files n k = tt
    every_file-IsKept (f ∷ fs) names files n ((h, e), a, k) =
        (download_files-IsKept f h names files n e a, every_file-IsKept fs names files n k)
