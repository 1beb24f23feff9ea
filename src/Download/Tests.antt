-- ===== src/Download/Tests.antt =====
-- Downloads of src/model/mod.rs over a stale partial file, a tampered model and missing ones.
use monnok_gigastt.Base.{
  ℕ, true, false, if◌then◌else◌, Option, some, List, [], ◌∷◌, ◌≡◌, refl, take,
}
use monnok_gigastt.Words.{Text, text_eq}
use monnok_gigastt.Download.{
  Files, Disk, Response, request_failed, body, file_at, act_all, partial_path, write_chunks,
  finalize_download, stream_to_partial_then_finalize,
}
use monnok_gigastt.Ffi.Path.{join}
use monnok_gigastt.Download.Ensure.{
  encoder_file, decoder_file, joint_file, vocab_file, encoder_checksum, decoder_checksum,
  joint_checksum, vocab_checksum, model_files, model_files_exist, model_url, download_file,
  download_files, ensure_model,
}
use monnok_gigastt.Download.Names.{AllOf}
use monnok_gigastt.Download.Kept.{IsKept, HasModel}
use monnok_gigastt.Download.Fetched.{ensure_model-IsKept, ensure_model-HasModel}

-- The hash of a file is its bytes.
abbrev bytes_hash : List ℕ → Text
bytes_hash c = c

abbrev good_disk : Disk
good_disk = record {
  can_create = true;
  can_write = λ n. true;
  can_flush = true;
  can_read = true;
  can_remove = true;
  can_rename = true;
}

abbrev model : Text
model = b'm' ∷ []

abbrev stale : Files
stale = (partial_path model, 9 ∷ []) ∷ []

abbrev answer : Response
answer = body (some (1 ∷ 2 ∷ []) ∷ some (3 ∷ []) ∷ [])

abbrev expected : Option Text
expected = some (1 ∷ 2 ∷ 3 ∷ [])

-- Without a crash the file is there, without the stale bytes.
whole_download :
    file_at model (
      act_all
        (stream_to_partial_then_finalize bytes_hash good_disk answer model expected stale).0
        stale)
    ≡ some (1 ∷ 2 ∷ 3 ∷ [])
unfolding stream_to_partial_then_finalize partial_path write_chunks finalize_download
whole_download = refl

-- Since the hash of a file is its bytes, each model is its checksum.
abbrev models : Text → Response
models url =
    if text_eq url (model_url encoder_file)
    then body (some encoder_checksum ∷ [])
    else if text_eq url (model_url decoder_file)
    then body (some decoder_checksum ∷ [])
    else if text_eq url (model_url joint_file)
    then body (some joint_checksum ∷ [])
    else if text_eq url (model_url vocab_file)
    then body (some vocab_checksum ∷ [])
    else request_failed

abbrev tampered : Files
tampered = (join model encoder_file, 6 ∷ []) ∷ (join model vocab_file, 7 ∷ []) ∷ []

ensure_model-IsKept_example :
    AllOf
      (λ f. IsKept bytes_hash model f tampered (
        act_all
          (take 7 (ensure_model bytes_hash (λ f. good_disk) models true model tampered).0)
          tampered))
      model_files
ensure_model-IsKept_example =
    ensure_model-IsKept bytes_hash model (λ f. good_disk) models true tampered 7

tampered_fetched : (ensure_model bytes_hash (λ f. good_disk) models true model tampered).1 ≡ true
unfolding ensure_model download_files download_file stream_to_partial_then_finalize partial_path
    write_chunks finalize_download join encoder_checksum decoder_checksum joint_checksum
    vocab_checksum
tampered_fetched = refl

tampered_incomplete : model_files_exist model tampered ≡ false
unfolding join
tampered_incomplete = refl

ensure_model-HasModel_example :
    AllOf
      (λ f.
        HasModel bytes_hash model f (
          act_all (ensure_model bytes_hash (λ f. good_disk) models true model tampered).0 tampered))
      model_files
ensure_model-HasModel_example =
    ensure_model-HasModel bytes_hash model (λ f. good_disk) models true tampered tampered_incomplete
      tampered_fetched
