-- ===== src/Download.antt =====
-- The download of a model file in src/model/mod.rs: `partial_path`, `finalize_download` and
-- `stream_to_partial_then_finalize`. A run gives what it does to the files, in order, and
-- whether it succeeds. The hash, the answer of the server and the fate of each call of the file
-- system are given from outside. Progress messages are left out.
pub mod Stays
pub mod Atomic
pub mod Spared
pub mod Pinned
pub mod Names
pub mod Kept
pub mod Fetched
pub mod Ensure
mod Tests
use monnok_gigastt.Base.{
  ℕ, ◌+◌, Bool, true, false, not, if◌then◌else◌, Option, none, some, List, [], ◌∷◌, ◌++◌,
}
use monnok_gigastt.Words.{Text, text_eq}

abbrev pub Files : Type 0
Files = List (Text × List ℕ)

abbrev pub file_at : Text → Files → Option (List ℕ)
file_at p [] = none
file_at p ((q, c) ∷ fs) = if text_eq q p then some c else file_at p fs

abbrev pub without : Text → Files → Files
without p [] = []
without p ((q, c) ∷ fs) = if text_eq q p then without p fs else (q, c) ∷ without p fs

pub data Action : Type 0 where
  creates : Text → Action
  appends : Text → List ℕ → Action
  removes : Text → Action
  renames : Text → Text → Action

abbrev pub old : Option (List ℕ) → List ℕ
old none = []
old (some c) = c

-- Creating a file empties it; a rename replaces what has the new name.
abbrev pub renamed : Text → Text → Option (List ℕ) → Files → Files
renamed p q none fs = fs
renamed p q (some c) fs = (q, c) ∷ without q (without p fs)

abbrev pub act : Action → Files → Files
act (creates p) fs = (p, []) ∷ without p fs
act (appends p c) fs = (p, old (file_at p fs) ++ c) ∷ without p fs
act (removes p) fs = without p fs
act (renames p q) fs = renamed p q (file_at p fs) fs

abbrev pub act_all : List Action → Files → Files
act_all [] fs = fs
act_all (a ∷ as') fs = act_all as' (act a fs)

-- Which calls of the file system succeed; `can_write n` is the write number `n`.
pub record Disk : Type 0 where
  pub can_create : Bool
  pub can_write : ℕ → Bool
  pub can_flush : Bool
  pub can_read : Bool
  pub can_remove : Bool
  pub can_rename : Bool

-- A chunk that is `none` is an error of the stream.
pub data Response : Type 0 where
  request_failed : Response
  status_error : Response
  body : List (Option (List ℕ)) → Response

abbrev pub partial_suffix : Text
partial_suffix = b'.' ∷ b'p' ∷ b'a' ∷ b'r' ∷ b't' ∷ b'i' ∷ b'a' ∷ b'l' ∷ []

unfoldable pub partial_path : Text → Text
partial_path final = final ++ partial_suffix

abbrev pub is_some : Option (List ℕ) → Bool
is_some none = false
is_some (some c) = true

abbrev pub read_file : Disk → Text → Files → Option (List ℕ)
read_file disk p fs = if disk.can_read then file_at p fs else none

-- The bytes of a chunk that is written in part only belong to a run that fails; they are left out.
unfoldable pub write_chunks : Disk → Text → ℕ → List (Option (List ℕ)) → List Action × Bool
write_chunks disk p n [] = ([], true)
write_chunks disk p n (none ∷ cs) = ([], false)
write_chunks disk p n (some c ∷ cs) =
    let rest = write_chunks disk p (n + 1) cs in
    if disk.can_write n then (appends p c ∷ rest.0, rest.1) else ([], false)

module _ (sha256 : List ℕ → Text) (disk : Disk) where
  abbrev pub rename_partial : Text → Text → List Action × Bool
  rename_partial partial final =
      if disk.can_rename then (renames partial final ∷ [], true) else ([], false)

  abbrev pub verified : Text → Text → Text → Option (List ℕ) → List Action × Bool
  verified partial final expected none = ([], false)
  verified partial final expected (some c) =
      if text_eq (sha256 c) expected
      then rename_partial partial final
      else if disk.can_remove
      then (removes partial ∷ [], false)
      else ([], false)

  unfoldable pub finalize_download : Text → Text → Option Text → Files → List Action × Bool
  finalize_download partial final none fs = rename_partial partial final
  finalize_download partial final (some expected) fs =
      verified partial final expected (read_file disk partial fs)

  abbrev pub drop_stale : Text → Files → List Action
  drop_stale partial fs =
      if is_some (file_at partial fs)
      then (if disk.can_remove then removes partial ∷ [] else [])
      else []

  -- Everything up to the flush.
  abbrev pub staged : Text → Files → List (Option (List ℕ)) → List Action × Bool
  staged partial fs chunks =
      let w = write_chunks disk partial 0 chunks in
      if disk.can_create
      then (
        drop_stale partial fs ++ (creates partial ∷ w.0),
        (if w.1 then disk.can_flush else false),
      )
      else (drop_stale partial fs, false)

  abbrev pub then_finalize :
      Text → Text → Option Text → Files → List Action × Bool → List Action × Bool
  then_finalize partial final expected fs (as', false) = (as', false)
  then_finalize partial final expected fs (as', true) =
      let f = finalize_download partial final expected (act_all as' fs) in (as' ++ f.0, f.1)

  abbrev pub on_response : Text → Text → Option Text → Files → Response → List Action × Bool
  on_response partial final expected fs request_failed = (drop_stale partial fs, false)
  on_response partial final expected fs status_error = (drop_stale partial fs, false)
  on_response partial final expected fs (body chunks) =
      then_finalize partial final expected fs (staged partial fs chunks)

  unfoldable pub stream_to_partial_then_finalize :
      Response → Text → Option Text → Files → List Action × Bool
  stream_to_partial_then_finalize response final expected fs =
      on_response (partial_path final) final expected fs response
