-- ===== src/Download/Ensure.antt =====
-- Which model files src/model/mod.rs fetches: `MODEL_FILES`, `MODEL_CHECKSUMS`, `download_file`,
-- `ensure_model` and `ensure_speaker_model`, over the single download of Download. The answer of
-- the server to a URL and the calls of the file system that succeed while a file is fetched are
-- given from outside. The directory has a name that is not empty and does not end with a slash.
use monnok_gigastt.Base.{
  ℕ, Bool, true, false, ◌&&◌, if◌then◌else◌, Option, none, some, List, [], ◌∷◌, ◌++◌,
}
use monnok_gigastt.Words.{Text, text_eq}
use monnok_gigastt.Ffi.Path.{join}
use monnok_gigastt.Download.{
  Files, file_at, Action, act_all, Disk, Response, is_some, stream_to_partial_then_finalize,
}

abbrev pub encoder_file : Text
encoder_file =
    b'v' ∷ b'3' ∷ b'_' ∷ b'e' ∷ b'2' ∷ b'e' ∷ b'_' ∷ b'r' ∷ b'n' ∷ b'n' ∷ b't' ∷ b'_' ∷ b'e' ∷ b'n'
    ∷ b'c' ∷ b'o' ∷ b'd' ∷ b'e' ∷ b'r' ∷ b'.' ∷ b'o' ∷ b'n' ∷ b'n' ∷ b'x' ∷ []

abbrev pub decoder_file : Text
decoder_file =
    b'v' ∷ b'3' ∷ b'_' ∷ b'e' ∷ b'2' ∷ b'e' ∷ b'_' ∷ b'r' ∷ b'n' ∷ b'n' ∷ b't' ∷ b'_' ∷ b'd' ∷ b'e'
    ∷ b'c' ∷ b'o' ∷ b'd' ∷ b'e' ∷ b'r' ∷ b'.' ∷ b'o' ∷ b'n' ∷ b'n' ∷ b'x' ∷ []

abbrev pub joint_file : Text
joint_file =
    b'v' ∷ b'3' ∷ b'_' ∷ b'e' ∷ b'2' ∷ b'e' ∷ b'_' ∷ b'r' ∷ b'n' ∷ b'n' ∷ b't' ∷ b'_' ∷ b'j' ∷ b'o'
    ∷ b'i' ∷ b'n' ∷ b't' ∷ b'.' ∷ b'o' ∷ b'n' ∷ b'n' ∷ b'x' ∷ []

abbrev pub vocab_file : Text
vocab_file =
    b'v' ∷ b'3' ∷ b'_' ∷ b'e' ∷ b'2' ∷ b'e' ∷ b'_' ∷ b'r' ∷ b'n' ∷ b'n' ∷ b't' ∷ b'_' ∷ b'v' ∷ b'o'
    ∷ b'c' ∷ b'a' ∷ b'b' ∷ b'.' ∷ b't' ∷ b'x' ∷ b't' ∷ []

abbrev pub model_files : List Text
model_files = encoder_file ∷ decoder_file ∷ joint_file ∷ vocab_file ∷ []

unfoldable pub encoder_checksum : Text
encoder_checksum =
    b'c' ∷ b'd' ∷ b'6' ∷ b'0' ∷ b'b' ∷ b'3' ∷ b'7' ∷ b'6' ∷ b'4' ∷ b'a' ∷ b'8' ∷ b'3' ∷ b'2' ∷ b'e'
    ∷ b'8' ∷ b'5' ∷ b'6' ∷ b'0' ∷ b'a' ∷ b'e' ∷ b'6' ∷ b'd' ∷ b'3' ∷ b'a' ∷ b'd' ∷ b'0' ∷ b'b'
    ∷ b'1' ∷ b'0' ∷ b'a' ∷ b'd' ∷ b'c' ∷ b'1' ∷ b'a' ∷ b'4' ∷ b'2' ∷ b'f' ∷ b'f' ∷ b'a' ∷ b'e'
    ∷ b'4' ∷ b'1' ∷ b'2' ∷ b'b' ∷ b'9' ∷ b'4' ∷ b'7' ∷ b'6' ∷ b'f' ∷ b'2' ∷ b'5' ∷ b'6' ∷ b'2'
    ∷ b'0' ∷ b'a' ∷ b'a' ∷ b'e' ∷ b'4' ∷ b'f' ∷ b'4' ∷ b'a' ∷ b'5' ∷ b'0' ∷ b'8' ∷ []

unfoldable pub decoder_checksum : Text
decoder_checksum =
    b'7' ∷ b'b' ∷ b'0' ∷ b'a' ∷ b'1' ∷ b'6' ∷ b'd' ∷ b'6' ∷ b'7' ∷ b'f' ∷ b'd' ∷ b'2' ∷ b'c' ∷ b'b'
    ∷ b'3' ∷ b'7' ∷ b'0' ∷ b'6' ∷ b'1' ∷ b'd' ∷ b'e' ∷ b'c' ∷ b'c' ∷ b'9' ∷ b'3' ∷ b'c' ∷ b'6'
    ∷ b'9' ∷ b'e' ∷ b'3' ∷ b'6' ∷ b'4' ∷ b'a' ∷ b'9' ∷ b'a' ∷ b'b' ∷ b'2' ∷ b'7' ∷ b'a' ∷ b'f'
    ∷ b'e' ∷ b'e' ∷ b'3' ∷ b'c' ∷ b'5' ∷ b'7' ∷ b'4' ∷ b'9' ∷ b'5' ∷ b'd' ∷ b'5' ∷ b'5' ∷ b'b'
    ∷ b'1' ∷ b'c' ∷ b'9' ∷ b'7' ∷ b'4' ∷ b'c' ∷ b'f' ∷ b'7' ∷ b'2' ∷ b'3' ∷ b'1' ∷ []

unfoldable pub joint_checksum : Text
joint_checksum =
    b'6' ∷ b'0' ∷ b'2' ∷ b'f' ∷ b'f' ∷ b'7' ∷ b'0' ∷ b'1' ∷ b'7' ∷ b'a' ∷ b'9' ∷ b'3' ∷ b'3' ∷ b'1'
    ∷ b'1' ∷ b'a' ∷ b'a' ∷ b'd' ∷ b'3' ∷ b'4' ∷ b'd' ∷ b'f' ∷ b'1' ∷ b'4' ∷ b'3' ∷ b'7' ∷ b'c'
    ∷ b'8' ∷ b'd' ∷ b'7' ∷ b'f' ∷ b'4' ∷ b'9' ∷ b'9' ∷ b'1' ∷ b'1' ∷ b'3' ∷ b'5' ∷ b'3' ∷ b'c'
    ∷ b'1' ∷ b'3' ∷ b'd' ∷ b'6' ∷ b'e' ∷ b'a' ∷ b'e' ∷ b'7' ∷ b'a' ∷ b'6' ∷ b'e' ∷ b'e' ∷ b'7'
    ∷ b'b' ∷ b'0' ∷ b'4' ∷ b'1' ∷ b'3' ∷ b'3' ∷ b'9' ∷ b'4' ∷ b'6' ∷ b'5' ∷ b'c' ∷ []

unfoldable pub vocab_checksum : Text
vocab_checksum =
    b'3' ∷ b'9' ∷ b'a' ∷ b'b' ∷ b'a' ∷ b'e' ∷ b'2' ∷ b'0' ∷ b'e' ∷ b'6' ∷ b'9' ∷ b'2' ∷ b'9' ∷ b'9'
    ∷ b'8' ∷ b'2' ∷ b'9' ∷ b'0' ∷ b'c' ∷ b'5' ∷ b'7' ∷ b'4' ∷ b'e' ∷ b'6' ∷ b'0' ∷ b'6' ∷ b'f'
    ∷ b'1' ∷ b'1' ∷ b'a' ∷ b'9' ∷ b'e' ∷ b'd' ∷ b'e' ∷ b'f' ∷ b'2' ∷ b'9' ∷ b'0' ∷ b'2' ∷ b'a'
    ∷ b'1' ∷ b'9' ∷ b'9' ∷ b'5' ∷ b'4' ∷ b'6' ∷ b'3' ∷ b'f' ∷ b'c' ∷ b'f' ∷ b'f' ∷ b'6' ∷ b'3'
    ∷ b'd' ∷ b'1' ∷ b'4' ∷ b'9' ∷ b'0' ∷ b'c' ∷ b'f' ∷ b'2' ∷ b'2' ∷ b'b' ∷ b'7' ∷ []

abbrev pub model_checksums : List (Text × Option Text)
model_checksums =
    (encoder_file, some encoder_checksum)
    ∷ (decoder_file, some decoder_checksum)
    ∷ (joint_file, some joint_checksum)
    ∷ (vocab_file, some vocab_checksum)
    ∷ []

abbrev pub speaker_model_file : Text
speaker_model_file =
    b'w' ∷ b'e' ∷ b's' ∷ b'p' ∷ b'e' ∷ b'a' ∷ b'k' ∷ b'e' ∷ b'r' ∷ b'_' ∷ b'r' ∷ b'e' ∷ b's' ∷ b'n'
    ∷ b'e' ∷ b't' ∷ b'3' ∷ b'4' ∷ b'.' ∷ b'o' ∷ b'n' ∷ b'n' ∷ b'x' ∷ []

unfoldable pub speaker_model_sha256 : Text
speaker_model_sha256 =
    b'3' ∷ b'9' ∷ b'5' ∷ b'5' ∷ b'4' ∷ b'4' ∷ b'7' ∷ b'b' ∷ b'0' ∷ b'4' ∷ b'9' ∷ b'9' ∷ b'd' ∷ b'c'
    ∷ b'9' ∷ b'e' ∷ b'0' ∷ b'a' ∷ b'4' ∷ b'5' ∷ b'4' ∷ b'1' ∷ b'a' ∷ b'8' ∷ b'9' ∷ b'5' ∷ b'd'
    ∷ b'f' ∷ b'0' ∷ b'8' ∷ b'b' ∷ b'0' ∷ b'3' ∷ b'c' ∷ b'6' ∷ b'9' ∷ b'0' ∷ b'9' ∷ b'8' ∷ b'e'
    ∷ b'b' ∷ b'a' ∷ b'4' ∷ b'e' ∷ b'5' ∷ b'6' ∷ b'c' ∷ b'0' ∷ b'2' ∷ b'b' ∷ b'5' ∷ b'6' ∷ b'0'
    ∷ b'3' ∷ b'e' ∷ b'9' ∷ b'f' ∷ b'7' ∷ b'f' ∷ b'4' ∷ b'f' ∷ b'c' ∷ b'b' ∷ b'b' ∷ []

-- `https://huggingface.co/` of the repository, and what follows it.
abbrev pub model_url : Text → Text
model_url filename =
    b'h' ∷ b't' ∷ b't' ∷ b'p' ∷ b's' ∷ b':' ∷ b'/' ∷ b'/' ∷ b'h' ∷ b'u' ∷ b'g' ∷ b'g' ∷ b'i' ∷ b'n'
    ∷ b'g' ∷ b'f' ∷ b'a' ∷ b'c' ∷ b'e' ∷ b'.' ∷ b'c' ∷ b'o' ∷ b'/' ∷ b'i' ∷ b's' ∷ b't' ∷ b'u'
    ∷ b'p' ∷ b'a' ∷ b'k' ∷ b'o' ∷ b'v' ∷ b'/' ∷ b'g' ∷ b'i' ∷ b'g' ∷ b'a' ∷ b'a' ∷ b'm' ∷ b'-'
    ∷ b'v' ∷ b'3' ∷ b'-' ∷ b'o' ∷ b'n' ∷ b'n' ∷ b'x' ∷ b'/' ∷ b'r' ∷ b'e' ∷ b's' ∷ b'o' ∷ b'l'
    ∷ b'v' ∷ b'e' ∷ b'/' ∷ b'm' ∷ b'a' ∷ b'i' ∷ b'n' ∷ b'/' ∷ filename

abbrev pub speaker_model_url : Text
speaker_model_url =
    b'h' ∷ b't' ∷ b't' ∷ b'p' ∷ b's' ∷ b':' ∷ b'/' ∷ b'/' ∷ b'h' ∷ b'u' ∷ b'g' ∷ b'g' ∷ b'i' ∷ b'n'
    ∷ b'g' ∷ b'f' ∷ b'a' ∷ b'c' ∷ b'e' ∷ b'.' ∷ b'c' ∷ b'o' ∷ b'/' ∷ b'o' ∷ b'n' ∷ b'n' ∷ b'x'
    ∷ b'-' ∷ b'c' ∷ b'o' ∷ b'm' ∷ b'm' ∷ b'u' ∷ b'n' ∷ b'i' ∷ b't' ∷ b'y' ∷ b'/' ∷ b'w' ∷ b'e'
    ∷ b's' ∷ b'p' ∷ b'e' ∷ b'a' ∷ b'k' ∷ b'e' ∷ b'r' ∷ b'-' ∷ b'v' ∷ b'o' ∷ b'x' ∷ b'c' ∷ b'e'
    ∷ b'l' ∷ b'e' ∷ b'b' ∷ b'-' ∷ b'r' ∷ b'e' ∷ b's' ∷ b'n' ∷ b'e' ∷ b't' ∷ b'3' ∷ b'4' ∷ b'-'
    ∷ b'L' ∷ b'M' ∷ b'/' ∷ b'r' ∷ b'e' ∷ b's' ∷ b'o' ∷ b'l' ∷ b'v' ∷ b'e' ∷ b'/' ∷ b'm' ∷ b'a'
    ∷ b'i' ∷ b'n' ∷ b'/' ∷ b'o' ∷ b'n' ∷ b'n' ∷ b'x' ∷ b'/' ∷ b'm' ∷ b'o' ∷ b'd' ∷ b'e' ∷ b'l'
    ∷ b'.' ∷ b'o' ∷ b'n' ∷ b'n' ∷ b'x' ∷ []

abbrev pub find_checksum : Text → List (Text × Option Text) → Option Text
find_checksum filename [] = none
find_checksum filename ((name, hash) ∷ rest) =
    if text_eq name filename then hash else find_checksum filename rest

abbrev pub exists : Text → Files → Bool
exists p fs = is_some (file_at p fs)

abbrev pub all_exist : Text → List Text → Files → Bool
all_exist dir [] fs = true
all_exist dir (f ∷ names) fs = exists (join dir f) fs && all_exist dir names fs

abbrev pub model_files_exist : Text → Files → Bool
model_files_exist dir fs = all_exist dir model_files fs

module _ (sha256 : List ℕ → Text) (disks : Text → Disk) (responses : Text → Response) where
  unfoldable pub download_file : Text → Text → Files → List Action × Bool
  download_file dir filename fs =
      stream_to_partial_then_finalize sha256 (disks filename) (responses (model_url filename))
        (join dir filename) (find_checksum filename model_checksums) fs

  -- The loop over the files; the first that fails ends it.
  unfoldable pub download_files : Text → List Text → Files → List Action × Bool
  download_files dir [] fs = ([], true)
  download_files dir (f ∷ names) fs =
      let d = download_file dir f fs in
      let r = download_files dir names (act_all d.0 fs) in
      if d.1 then (d.0 ++ r.0, r.1) else (d.0, false)

  -- The Boolean says whether the directory can be made.
  unfoldable pub ensure_model : Bool → Text → Files → List Action × Bool
  ensure_model can_create_dir dir fs =
      if model_files_exist dir fs
      then ([], true)
      else if can_create_dir
      then download_files dir model_files fs
      else ([], false)

  unfoldable pub ensure_speaker_model : Bool → Text → Files → List Action × Bool
  ensure_speaker_model can_create_dir dir fs =
      if exists (join dir speaker_model_file) fs
      then ([], true)
      else if can_create_dir
      then stream_to_partial_then_finalize sha256 (disks speaker_model_file)
          (responses speaker_model_url) (join dir speaker_model_file) (some speaker_model_sha256) fs
      else ([], false)
