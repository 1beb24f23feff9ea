-- ===== src/Download/Pinned.antt =====
-- What a successful download of src/model/mod.rs leaves under the final name.
use monnok_gigastt.Base.{
  ℕ, ◌≡◌, refl, sym, ap, inl, inr, Bool, true, false, Bool-cases, if◌then◌else◌, Option, none, some,
  List, [], ◌∷◌, ◌++◌,
}
use monnok_gigastt.Words.{Text, text_eq}
use monnok_gigastt.Metrics.Slots.{text_eq-IsEquality}
use monnok_gigastt.Download.{
  Files, file_at, Action, act, act_all, renames, removes, Disk, Response, request_failed,
  status_error, body, partial_path, read_file, verified, finalize_download, staged, then_finalize,
  stream_to_partial_then_finalize,
}

pub act_all-append :
    (acts bs : List Action) (fs : Files) → act_all (acts ++ bs) fs ≡ act_all bs (act_all acts fs)
act_all-append [] bs fs = refl
act_all-append (a ∷ acts) bs fs = act_all-append acts bs (act a fs)

module _ (sha256 : List ℕ → Text) where
  -- A file with the hash stands under the name.
  abbrev pub IsPinned : Text → Option Text → Files → Type 0
  IsPinned final expected fs =
      (c : List ℕ) × (file_at final fs ≡ some c) × (expected ≡ some (sha256 c))

  module _ (disk : Disk) (p final h : Text) where
    renames-IsPinned :
        (c : List ℕ) (fs : Files)
        → file_at p fs ≡ some c
        → sha256 c ≡ h
        → IsPinned final (some h) (act_all (renames p final ∷ []) fs)
    renames-IsPinned c fs e k = (c, rw (e, text_eq-IsEquality.refl_eq final) refl, ap some (sym k))

    -- If the run succeeds, its actions leave the file.
    abbrev Pins : Files → List Action × Bool → Type 0
    Pins fs r = r.1 ≡ true → IsPinned final (some h) (act_all r.0 fs)

    rename_partial-Pins :
        (c : List ℕ) (fs : Files)
        → file_at p fs ≡ some c
        → sha256 c ≡ h
        → (b : Bool) → Pins fs (if b then (renames p final ∷ [], true) else ([], false))
    rename_partial-Pins c fs e k true s = renames-IsPinned c fs e k
    rename_partial-Pins c fs e k false s = cc

    removes-Pins :
        (fs : Files) (b : Bool) → Pins fs (if b then (removes p ∷ [], false) else ([], false))
    removes-Pins fs true s = cc
    removes-Pins fs false s = cc

    verified-Pins :
        (o : Option (List ℕ)) (fs : Files)
        → ((c : List ℕ) → o ≡ some c → file_at p fs ≡ some c)
        → Pins fs (verified sha256 disk p final h o)
    verified-Pins none fs r = λ s. cc
    verified-Pins (some c) fs r = elim (Bool-cases (text_eq (sha256 c) h)) [
      | inl e ↦ rw e (
          rename_partial-Pins c fs (r c refl) (text_eq-IsEquality.sound_eq (sha256 c) h e)
            disk.can_rename)
      | inr e ↦ rw e (removes-Pins fs disk.can_remove)
    ]

    read_file_lem :
        (b : Bool) (fs : Files) (c : List ℕ)
        → (if b then file_at p fs else none) ≡ some c
        → file_at p fs ≡ some c
    read_file_lem true fs c e = e
    read_file_lem false fs c e = cc

    finalize_download-IsPinned :
        (fs : Files)
        → (finalize_download sha256 disk p final (some h) fs).1 ≡ true
        → IsPinned final (some h) (act_all (finalize_download sha256 disk p final (some h) fs).0 fs)
    unfolding finalize_download
    finalize_download-IsPinned fs =
        verified-Pins (read_file disk p fs) fs (read_file_lem disk.can_read fs)

    then_finalize-IsPinned :
        (fs : Files) (r : List Action × Bool)
        → (then_finalize sha256 disk p final (some h) fs r).1 ≡ true
        → IsPinned final (some h) (act_all (then_finalize sha256 disk p final (some h) fs r).0 fs)
    then_finalize-IsPinned fs (acts, false) s = cc
    then_finalize-IsPinned fs (acts, true) s =
        rw
          (act_all-append acts (finalize_download sha256 disk p final (some h) (act_all acts fs)).0
            fs)
          (finalize_download-IsPinned (act_all acts fs) s)

  -- A download that succeeds leaves a file with the expected hash under the final name.
  pub stream_to_partial_then_finalize-IsPinned :
      (disk : Disk) (response : Response) (final h : Text) (fs : Files)
      → (stream_to_partial_then_finalize sha256 disk response final (some h) fs).1 ≡ true
      → IsPinned final
          (some h)
          (act_all (stream_to_partial_then_finalize sha256 disk response final (some h) fs).0 fs)
  unfolding stream_to_partial_then_finalize
  stream_to_partial_then_finalize-IsPinned disk request_failed final h fs s = cc
  stream_to_partial_then_finalize-IsPinned disk status_error final h fs s = cc
  stream_to_partial_then_finalize-IsPinned disk (body chunks) final h fs s =
      then_finalize-IsPinned disk (partial_path final) final h fs
        (staged sha256 disk (partial_path final) fs chunks) s
