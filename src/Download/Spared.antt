-- ===== src/Download/Spared.antt =====
-- The files that one download of src/model/mod.rs does not touch.
use monnok_gigastt.Base.{
  ℕ, zero, suc, ◌≡◌, refl, sym, ◌∙◌, subst, Bool, true, false, if◌then◌else◌, Option, none, some,
  List, [], ◌∷◌, ◌++◌, take,
}
use monnok_gigastt.Words.{Text, text_eq}
use monnok_gigastt.Download.{
  Files, file_at, without, Action, creates, appends, removes, renames, renamed, act, act_all, Disk,
  Response, request_failed, status_error, body, partial_path, read_file, rename_partial, verified,
  finalize_download, staged, then_finalize, stream_to_partial_then_finalize,
}
use monnok_gigastt.Download.Stays.{AllIn, StaysIn, file_at-without, file_at-act}
use monnok_gigastt.Download.Atomic.{drop_stale-AllIn, staged-AllIn}

-- The action is on other files than `q`.
abbrev Spares : Text → Action → Type 0
Spares q (creates p) = text_eq p q ≡ false
Spares q (appends p c) = text_eq p q ≡ false
Spares q (removes p) = text_eq p q ≡ false
Spares q (renames p r) = (text_eq p q ≡ false) × (text_eq r q ≡ false)

abbrev AllSpare : Text → List Action → Type 0
AllSpare q [] = Unit {0}
AllSpare q (a ∷ acts) = Spares q a × AllSpare q acts

file_at-renamed :
    (q p r : Text) (o : Option (List ℕ)) (fs : Files)
    → text_eq p q ≡ false
    → text_eq r q ≡ false
    → file_at q (renamed p r o fs) ≡ file_at q fs
file_at-renamed q p r none fs h k = refl
file_at-renamed q p r (some c) fs h k =
    rw k (file_at-without r q (without p fs) k ∙ file_at-without p q fs h)

file_at-spared :
    (q : Text) (a : Action) (fs : Files) → Spares q a → file_at q (act a fs) ≡ file_at q fs
file_at-spared q (creates p) fs h = file_at-act p q (creates p) fs refl h
file_at-spared q (appends p c) fs h = file_at-act p q (appends p c) fs refl h
file_at-spared q (removes p) fs h = file_at-act p q (removes p) fs refl h
file_at-spared q (renames p r) fs h = file_at-renamed q p r (file_at p fs) fs h.0 h.1

file_at-all_spared :
    (q : Text) (n : ℕ) (acts : List Action) (fs : Files)
    → AllSpare q acts
    → file_at q (act_all (take n acts) fs) ≡ file_at q fs
file_at-all_spared q zero acts fs h = refl
file_at-all_spared q (suc n) [] fs h = refl
file_at-all_spared q (suc n) (a ∷ acts) fs h =
    file_at-all_spared q n acts (act a fs) h.1 ∙ file_at-spared q a fs h.0

StaysIn-Spares : (p q : Text) (a : Action) → text_eq p q ≡ false → StaysIn p a → Spares q a
StaysIn-Spares p q (creates r) h e = subst (λ x. text_eq x q ≡ false) (sym e) h
StaysIn-Spares p q (appends r c) h e = subst (λ x. text_eq x q ≡ false) (sym e) h
StaysIn-Spares p q (removes r) h e = subst (λ x. text_eq x q ≡ false) (sym e) h
StaysIn-Spares p q (renames r s) h e = absurd e

AllIn-AllSpare :
    (p q : Text) (acts : List Action) → text_eq p q ≡ false → AllIn p acts → AllSpare q acts
AllIn-AllSpare p q [] h k = tt
AllIn-AllSpare p q (a ∷ acts) h k = (StaysIn-Spares p q a h k.0, AllIn-AllSpare p q acts h k.1)

AllSpare-append :
    (q : Text) (acts bs : List Action) → AllSpare q acts → AllSpare q bs → AllSpare q (acts ++ bs)
AllSpare-append q [] bs h k = k
AllSpare-append q (a ∷ acts) bs h k = (h.0, AllSpare-append q acts bs h.1 k)

if_AllSpare :
    (q : Text) (c : Bool) (x y : List Action × Bool)
    → AllSpare q x.0
    → AllSpare q y.0
    → AllSpare q (if c then x else y).0
if_AllSpare q true x y h k = h
if_AllSpare q false x y h k = k

module _ (sha256 : List ℕ → Text) (disk : Disk) (q p final : Text) where
  rename_partial-AllSpare :
      text_eq p q ≡ false
      → text_eq final q ≡ false
      → AllSpare q (rename_partial sha256 disk p final).0
  rename_partial-AllSpare h k = if_AllSpare q disk.can_rename _ _ ((h, k), tt) tt

  verified-AllSpare :
      (expected : Text) (o : Option (List ℕ))
      → text_eq p q ≡ false
      → text_eq final q ≡ false
      → AllSpare q (verified sha256 disk p final expected o).0
  verified-AllSpare expected none h k = tt
  verified-AllSpare expected (some c) h k =
      if_AllSpare q (text_eq (sha256 c) expected) _ _ (rename_partial-AllSpare h k)
        (if_AllSpare q disk.can_remove _ _ (h, tt) tt)

  finalize_download-AllSpare :
      (expected : Option Text) (fs : Files)
      → text_eq p q ≡ false
      → text_eq final q ≡ false
      → AllSpare q (finalize_download sha256 disk p final expected fs).0
  unfolding finalize_download
  finalize_download-AllSpare none fs h k = rename_partial-AllSpare h k
  finalize_download-AllSpare (some e) fs h k = verified-AllSpare e (read_file disk p fs) h k

  then_finalize-AllSpare :
      (expected : Option Text) (fs : Files) (r : List Action × Bool)
      → text_eq p q ≡ false
      → text_eq final q ≡ false
      → AllIn p r.0
      → AllSpare q (then_finalize sha256 disk p final expected fs r).0
  then_finalize-AllSpare expected fs (acts, false) h k i = AllIn-AllSpare p q acts h i
  then_finalize-AllSpare expected fs (acts, true) h k i =
      AllSpare-append q acts _ (AllIn-AllSpare p q acts h i)
        (finalize_download-AllSpare expected (act_all acts fs) h k)

module _ (sha256 : List ℕ → Text) (disk : Disk) (q : Text) where
  stream_to_partial_then_finalize-AllSpare :
      (response : Response) (final : Text) (expected : Option Text) (fs : Files)
      → text_eq (partial_path final) q ≡ false
      → text_eq final q ≡ false
      → AllSpare q (stream_to_partial_then_finalize sha256 disk response final expected fs).0
  unfolding stream_to_partial_then_finalize
  stream_to_partial_then_finalize-AllSpare request_failed final expected fs h k =
      AllIn-AllSpare (partial_path final) q _ h
        (drop_stale-AllIn sha256 disk (partial_path final) fs)
  stream_to_partial_then_finalize-AllSpare status_error final expected fs h k =
      AllIn-AllSpare (partial_path final) q _ h
        (drop_stale-AllIn sha256 disk (partial_path final) fs)
  stream_to_partial_then_finalize-AllSpare (body chunks) final expected fs h k =
      then_finalize-AllSpare sha256 disk q (partial_path final) final expected fs
        (staged sha256 disk (partial_path final) fs chunks) h k
        (staged-AllIn sha256 disk (partial_path final) fs chunks)

  -- A file that is neither the final nor the partial one has what it had, however far a download gets.
  pub file_at-stream_to_partial_then_finalize :
      (response : Response) (final : Text) (expected : Option Text) (fs : Files) (n : ℕ)
      → text_eq (partial_path final) q ≡ false
      → text_eq final q ≡ false
      → file_at q (
          act_all
            (take n (stream_to_partial_then_finalize sha256 disk response final expected fs).0)
            fs)
        ≡ file_at q fs
  file_at-stream_to_partial_then_finalize response final expected fs n h k =
      file_at-all_spared q n _ fs
        (stream_to_partial_then_finalize-AllSpare response final expected fs h k)
