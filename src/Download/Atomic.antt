-- ===== src/Download/Atomic.antt =====
-- A crash during a download of src/model/mod.rs: what may stand under the final name.
use monnok_gigastt.Base.{
  ℕ, zero, suc, ◌+◌, ◌≡◌, refl, sym, ◌∙◌, ap, subst, ◌⊎◌, inl, inr, Bool, true, false, Bool-cases,
  if◌then◌else◌, Option, none, some, List, [], ◌∷◌, ◌++◌, take, length, length-append, arith,
}
use monnok_gigastt.Words.{Text, text_eq}
use monnok_gigastt.Metrics.Slots.{text_eq-IsEquality}
use monnok_gigastt.Download.{
  Files, file_at, Action, removes, renames, renamed, act_all, Disk, Response, request_failed,
  status_error, body, partial_suffix, partial_path, read_file, write_chunks, rename_partial,
  verified, finalize_download, drop_stale, staged, then_finalize, is_some,
  stream_to_partial_then_finalize,
}
use monnok_gigastt.Download.Stays.{
  AllIn, AllIn-append, file_at-without, file_at-act_all, file_at-act_whole, take_split,
}

longer : (final : Text) → text_eq (final ++ partial_suffix) final ≡ false
longer [] = refl
longer (c ∷ final) = elim (Bool-cases (text_eq ((c ∷ final) ++ partial_suffix) (c ∷ final))) [
  | inl e ↦
      let same : length ((c ∷ final) ++ partial_suffix) ≡ length (c ∷ final) =
        ap length (text_eq-IsEquality.sound_eq ((c ∷ final) ++ partial_suffix) (c ∷ final) e) in
      absurd (omega (arith, same, length-append (c ∷ final) partial_suffix))
  | inr e ↦ e
]

write_chunks-AllIn :
    (disk : Disk) (p : Text) (n : ℕ) (cs : List (Option (List ℕ)))
    → AllIn p (write_chunks disk p n cs).0
unfolding write_chunks
write_chunks-AllIn disk p n [] = tt
write_chunks-AllIn disk p n (none ∷ cs) = tt
write_chunks-AllIn disk p n (some c ∷ cs) = elim (Bool-cases (disk.can_write n)) [
  | inl e ↦ rw e (refl, write_chunks-AllIn disk p (n + 1) cs)
  | inr e ↦ rw e tt
]

some_inj : (c d : List ℕ) → some c ≡ some d → c ≡ d
some_inj c d e = cc

if_AllIn :
    (p : Text) (c : Bool) (x y : List Action × Bool)
    → AllIn p x.0
    → AllIn p y.0
    → AllIn p (if c then x else y).0
if_AllIn p true x y h k = h
if_AllIn p false x y h k = k

module _ (sha256 : List ℕ → Text) (disk : Disk) where
  pub drop_stale-AllIn : (p : Text) (fs : Files) → AllIn p (drop_stale sha256 disk p fs)
  drop_stale-AllIn p fs = elim (Bool-cases (is_some (file_at p fs))) [
    | inl e ↦ rw e (elim (Bool-cases disk.can_remove) [ inl f ↦ rw f (refl, tt) | inr f ↦ rw f tt ])
    | inr e ↦ rw e tt
  ]

  pub staged-AllIn :
      (p : Text) (fs : Files) (cs : List (Option (List ℕ))) → AllIn p (staged sha256 disk p fs cs).0
  staged-AllIn p fs cs =
      if_AllIn p disk.can_create _ _
        (AllIn-append p (drop_stale sha256 disk p fs) _ (drop_stale-AllIn p fs)
          (refl, write_chunks-AllIn disk p 0 cs))
        (drop_stale-AllIn p fs)

  abbrev pub Verified : Option Text → List ℕ → Type 0
  Verified none c = Unit {0}
  Verified (some h) c = sha256 c ≡ h

  -- Under the final name stands what stood there before, or a whole file that has been verified.
  abbrev pub IsWhole : Text → Option Text → (before after : Files) → Type 0
  IsWhole final expected before after =
      (file_at final after ≡ file_at final before)
      ⊎ ((c : List ℕ) × (file_at final after ≡ some c) × Verified expected c)

  -- What the last actions do, however many of them are done.
  abbrev LastSafe : Text → Option Text → Files → List Action × Bool → Type 0
  LastSafe final expected fs r = (k : ℕ) → IsWhole final expected fs (act_all (take k r.0) fs)

  nothing-LastSafe :
      (final : Text) (expected : Option Text) (fs : Files) → LastSafe final expected fs ([], false)
  nothing-LastSafe final expected fs zero = inl refl
  nothing-LastSafe final expected fs (suc k) = inl refl

  renamed-IsWhole :
      (p final : Text) (expected : Option Text) (fs : Files) (o : Option (List ℕ))
      → ((c : List ℕ) → o ≡ some c → Verified expected c)
      → IsWhole final expected fs (renamed p final o fs)
  renamed-IsWhole p final expected fs none v = inl refl
  renamed-IsWhole p final expected fs (some c) v =
      inr (c, rw (text_eq-IsEquality.refl_eq final) refl, v c refl)

  rename_partial-LastSafe :
      (p final : Text) (expected : Option Text) (fs : Files)
      → ((c : List ℕ) → file_at p fs ≡ some c → Verified expected c)
      → LastSafe final expected fs (rename_partial sha256 disk p final)
  rename_partial-LastSafe p final expected fs v = go disk.can_rename
    where
      go :
          (c : Bool)
          → LastSafe final expected fs (if c then (renames p final ∷ [], true) else ([], false))
      go false k = nothing-LastSafe final expected fs k
      go true zero = inl refl
      go true (suc zero) = renamed-IsWhole p final expected fs (file_at p fs) v
      go true (suc (suc k)) = renamed-IsWhole p final expected fs (file_at p fs) v

  remove-LastSafe :
      (p final : Text) (expected : Option Text) (fs : Files) (c : Bool)
      → text_eq p final ≡ false
      → LastSafe final expected fs (if c then (removes p ∷ [], false) else ([], false))
  remove-LastSafe p final expected fs false h k = nothing-LastSafe final expected fs k
  remove-LastSafe p final expected fs true h zero = inl refl
  remove-LastSafe p final expected fs true h (suc zero) = inl (file_at-without p final fs h)
  remove-LastSafe p final expected fs true h (suc (suc k)) = inl (file_at-without p final fs h)

  verified-LastSafe :
      (p final h : Text) (fs : Files) (o : Option (List ℕ))
      → text_eq p final ≡ false
      → ((c : List ℕ) → o ≡ some c → file_at p fs ≡ some c)
      → LastSafe final (some h) fs (verified sha256 disk p final h o)
  verified-LastSafe p final h fs none ne r = nothing-LastSafe final (some h) fs
  verified-LastSafe p final h fs (some c) ne r = go (text_eq (sha256 c) h) refl
    where
      go :
          (b : Bool)
          → text_eq (sha256 c) h ≡ b
          → LastSafe final (some h) fs (
              if b
              then rename_partial sha256 disk p final
              else if disk.can_remove
              then (removes p ∷ [], false)
              else ([], false))
      go false e = remove-LastSafe p final (some h) fs disk.can_remove ne
      go true e = rename_partial-LastSafe p final (some h) fs (λ d f.
          subst (λ x. sha256 x ≡ h) (some_inj c d (sym (r c refl) ∙ f))
            (text_eq-IsEquality.sound_eq (sha256 c) h e))

  finalize_download-LastSafe :
      (p final : Text) (expected : Option Text) (fs : Files)
      → text_eq p final ≡ false
      → LastSafe final expected fs (finalize_download sha256 disk p final expected fs)
  unfolding finalize_download
  finalize_download-LastSafe p final none fs ne =
      rename_partial-LastSafe p final none fs (λ c e. tt)
  finalize_download-LastSafe p final (some h) fs ne =
      verified-LastSafe p final h fs (read_file disk p fs) ne (reads disk.can_read)
    where
      reads :
          (b : Bool) (c : List ℕ)
          → (if b then file_at p fs else none) ≡ some c
          → file_at p fs ≡ some c
      reads true c e = e
      reads false c e = cc

  stays-IsWhole :
      (p final : Text) (expected : Option Text) (fs : Files) (acts : List Action) (n : ℕ)
      → text_eq p final ≡ false
      → AllIn p acts
      → IsWhole final expected fs (act_all (take n acts) fs)
  stays-IsWhole p final expected fs acts n ne k = inl (file_at-act_all p final n acts fs k ne)

  then_finalize-IsWhole :
      (p final : Text) (expected : Option Text) (fs : Files) (r : List Action × Bool) (n : ℕ)
      → text_eq p final ≡ false
      → AllIn p r.0
      → IsWhole final expected fs
          (act_all (take n (then_finalize sha256 disk p final expected fs r).0) fs)
  then_finalize-IsWhole p final expected fs (acts, false) n ne k =
      stays-IsWhole p final expected fs acts n ne k
  then_finalize-IsWhole p final expected fs (acts, true) n ne k =
      let f = finalize_download sha256 disk p final expected (act_all acts fs) in
      let same = file_at-act_whole p final acts fs k ne in
      elim (take_split n acts f.0 fs) [
        | inl (m, e) ↦
            subst (λ x. IsWhole final expected fs x) (sym e)
              (stays-IsWhole p final expected fs acts m ne k)
        | inr (m, e) ↦
            subst (λ x. IsWhole final expected fs x) (sym e)
              (elim (finalize_download-LastSafe p final expected (act_all acts fs) ne m) [
                | inl g ↦ inl (g ∙ same)
                | inr g ↦ inr g
              ])
      ]

  -- A model file is never seen half-written or tampered with. However far a download gets, with a crash
  -- after any number of its changes to the files, whatever the server sends and whichever calls of
  -- the file system fail, the final name has what it had before, or a file whose hash is the
  -- expected one, if there is one.
  pub stream_to_partial_then_finalize-IsWhole :
      (response : Response) (final : Text) (expected : Option Text) (fs : Files) (n : ℕ)
      → IsWhole final expected fs (
          act_all
            (take n (stream_to_partial_then_finalize sha256 disk response final expected fs).0)
            fs)
  unfolding stream_to_partial_then_finalize partial_path
  stream_to_partial_then_finalize-IsWhole request_failed final expected fs n =
      stays-IsWhole (partial_path final) final expected fs _ n (longer final)
        (drop_stale-AllIn (partial_path final) fs)
  stream_to_partial_then_finalize-IsWhole status_error final expected fs n =
      stays-IsWhole (partial_path final) final expected fs _ n (longer final)
        (drop_stale-AllIn (partial_path final) fs)
  stream_to_partial_then_finalize-IsWhole (body chunks) final expected fs n =
      then_finalize-IsWhole (partial_path final) final expected fs
        (staged sha256 disk (partial_path final) fs chunks) n (longer final)
        (staged-AllIn (partial_path final) fs chunks)
