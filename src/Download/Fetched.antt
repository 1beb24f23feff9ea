-- ===== src/Download/Fetched.antt =====
-- All files that `ensure_model` of src/model/mod.rs fetches, with a crash or without.
use monnok_gigastt.Base.{
  ℕ, ◌≡◌, refl, sym, subst, inl, inr, Bool, true, false, Bool-cases, if◌then◌else◌, some, List, [],
  ◌∷◌, ◌++◌, take,
}
use monnok_gigastt.Words.{Text}
use monnok_gigastt.Ffi.Path.{join}
use monnok_gigastt.Download.{Files, Action, act_all, Disk, Response}
use monnok_gigastt.Download.Pinned.{
  act_all-append, IsPinned, stream_to_partial_then_finalize-IsPinned,
}
use monnok_gigastt.Download.Ensure.{
  encoder_file, decoder_file, joint_file, vocab_file, model_files, download_file, download_files,
  model_files_exist, ensure_model, exists, speaker_model_file, ensure_speaker_model,
  speaker_model_sha256, speaker_model_url,
}
use monnok_gigastt.Download.Names.{
  expected_checksum, IsApart, AllOf, AllApart, model_files-AllApart, model_files-Known,
}
use monnok_gigastt.Download.Kept.{
  take_all, HasModel, IsKept, HasModel-kept, download_file-HasModel, nothing-IsKept,
  download_files-IsKept, every_file-IsKept,
}

abbrev chosen : Bool → List Action → List Action → Bool → List Action × Bool
chosen c x y d = if c then (x, d) else (y, false)

both_first : (c : Bool) (x y : List Action) (d : Bool) → (chosen c x y d).1 ≡ true → c ≡ true
both_first true x y d e = refl
both_first false x y d e = e

both_second : (c : Bool) (x y : List Action) (d : Bool) → (chosen c x y d).1 ≡ true → d ≡ true
both_second true x y d e = e
both_second false x y d e = cc

module _ (sha256 : List ℕ → Text) (dir : Text) (disks : Text → Disk)
    (responses : Text → Response) where
  download_files-IsKept_whole :
      (f h : Text) (names : List Text) (fs : Files)
      → expected_checksum f ≡ some h
      → IsApart f names
      → IsKept sha256 dir f fs (act_all (download_files sha256 disks responses dir names fs).0 fs)
  download_files-IsKept_whole f h names fs e a =
      let (m, whole) = take_all (download_files sha256 disks responses dir names fs).0 fs in
      subst (λ x. IsKept sha256 dir f fs x) whole
        (download_files-IsKept sha256 dir disks responses f h names fs m e a)

  download_files-AllOf :
      (names : List Text) (fs : Files)
      → AllApart names
      → (download_files sha256 disks responses dir names fs).1 ≡ true
      → AllOf
          (λ f.
            HasModel sha256 dir f
              (act_all (download_files sha256 disks responses dir names fs).0 fs))
          names
  unfolding download_files
  download_files-AllOf [] fs a s = tt
  download_files-AllOf (f ∷ names) fs ((h, e), a, more) s =
      let d = download_file sha256 disks responses dir f fs in
      let r = download_files sha256 disks responses dir names (act_all d.0 fs) in
      let done : d.1 ≡ true = both_first d.1 (d.0 ++ r.0) d.0 r.1 s in
      let rest : r.1 ≡ true = both_second d.1 (d.0 ++ r.0) d.0 r.1 s in
      subst (λ x. HasModel sha256 dir f x × AllOf (λ g. HasModel sha256 dir g x) names)
        (sym (rw (done, act_all-append d.0 r.0 fs) refl))
        (
          HasModel-kept sha256 dir f (act_all d.0 fs) _
              (download_file-HasModel sha256 dir disks responses f h fs e done)
              (download_files-IsKept_whole f h names (act_all d.0 fs) e a),
          download_files-AllOf names (act_all d.0 fs) more rest,
        )

  -- However far `ensure_model` gets, with a crash after any number of its changes to the files, whatever
  -- the server answers and whichever calls of the file system fail, each of the four model files has what
  -- it had before, or a file with the checksum pinned for it.
  pub ensure_model-IsKept :
      (can_create_dir : Bool) (fs : Files) (n : ℕ)
      → AllOf
          (λ f.
            IsKept sha256 dir f fs
              (act_all (take n (ensure_model sha256 disks responses can_create_dir dir fs).0) fs))
          model_files
  unfolding ensure_model
  ensure_model-IsKept can_create_dir fs n = elim (Bool-cases (model_files_exist dir fs)) [
    | inl e ↦ rw e (unchanged n)
    | inr e ↦ rw e (made can_create_dir)
  ]
    where
      unchanged : (n : ℕ) → AllOf (λ f. IsKept sha256 dir f fs (act_all (take n []) fs)) model_files
      unchanged n =
          let k : (f : Text) → IsKept sha256 dir f fs (act_all (take n []) fs) =
            λ f. nothing-IsKept sha256 dir disks responses f fs n in
          (k encoder_file, (k decoder_file, (k joint_file, (k vocab_file, tt))))

      made :
          (b : Bool)
          → AllOf
              (λ f. IsKept sha256 dir f fs (
                act_all
                  (take n
                    (if b
                      then download_files sha256 disks responses dir model_files fs
                      else ([], false)).0)
                  fs))
              model_files
      made true =
          every_file-IsKept sha256 dir disks responses model_files model_files fs n
            model_files-Known
      made false = unchanged n

  -- If `ensure_model` succeeds where a model file is missing, then each of the four stands under its name
  -- with the checksum pinned for it, those that were there before too.
  pub ensure_model-HasModel :
      (can_create_dir : Bool) (fs : Files)
      → model_files_exist dir fs ≡ false
      → (ensure_model sha256 disks responses can_create_dir dir fs).1 ≡ true
      → AllOf
          (λ f.
            HasModel sha256 dir f
              (act_all (ensure_model sha256 disks responses can_create_dir dir fs).0 fs))
          model_files
  unfolding ensure_model
  ensure_model-HasModel true fs missing =
      rw missing (download_files-AllOf model_files fs model_files-AllApart)
  ensure_model-HasModel false fs missing = rw missing (λ s. cc)

  -- The same holds of the one file of `ensure_speaker_model`.
  ensure_speaker_model-IsPinned :
      (can_create_dir : Bool) (fs : Files)
      → exists (join dir speaker_model_file) fs ≡ false
      → (ensure_speaker_model sha256 disks responses can_create_dir dir fs).1 ≡ true
      → IsPinned sha256
          (join dir speaker_model_file)
          (some speaker_model_sha256)
          (act_all (ensure_speaker_model sha256 disks responses can_create_dir dir fs).0 fs)
  unfolding ensure_speaker_model
  ensure_speaker_model-IsPinned true fs missing = rw missing (
      stream_to_partial_then_finalize-IsPinned sha256 (disks speaker_model_file)
        (responses speaker_model_url) (join dir speaker_model_file) speaker_model_sha256 fs)
  ensure_speaker_model-IsPinned false fs missing = rw missing (λ s. cc)
