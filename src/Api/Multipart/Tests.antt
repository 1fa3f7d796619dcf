-- ===== src/Api/Multipart/Tests.antt =====
-- Runs of a multipart upload of two parts; a buffer is a number.
use backupgate.Prelude.{
  ℕ, ◌≡◌, refl, ap, inl, true, none, some, List, [], ◌∷◌, Bytes, bytes, str_eq,
}
use backupgate.Prelude.Int.{ℤ, pos}
use backupgate.Sort.{insertion_sort, insert, insert_all}
use backupgate.Config.Types.{KeyConfig}
use backupgate.Config.Keys.{find_key, names}
use backupgate.Config.Keys.Choice.{Chosen}
use backupgate.Pipeline.Types.{UploadResult, ok}
use backupgate.Pipeline.Process.{process}
use backupgate.Pipeline.Process.Served.{Delivered}
use backupgate.Pipeline.Process.Tests.{
  Files, env, one_key, no_files, one_file, remote, memory_backend-IsBackend, ten_bytes_succeed,
}
use backupgate.Api.Multipart.{
  MultipartPart, MultipartSession, Sessions, Completion, stored, completed, find_part,
  delete_multipart_session, close_multipart_parts, upload_part, gather, requested_part_numbers,
  complete_multipart_upload,
}
use backupgate.Api.Multipart.Sessions.{upload_part-find_part}
use backupgate.Api.Multipart.Completes.{
  AreAsked, metadata_of, finish, complete_multipart_upload-stored,
}

abbrev part : ℤ → ℕ → MultipartPart ℕ
part n buffer = record { part_number = n; size = pos 5; etag = bytes "e"; buffer = buffer }

abbrev session : MultipartSession ℕ
session = record {
  key = bytes "db";
  upload_id = bytes "u";
  parts = part (pos 2) 20 ∷ part (pos 1) 10 ∷ [];
}

abbrev open_sessions : Sessions ℕ
open_sessions = (bytes "u", session) ∷ []

abbrev no_sessions : Sessions ℕ
no_sessions = []

abbrev completion : Completion Files ℕ
completion = record {
  ints = insertion_sort ℤ;
  names = insertion_sort Bytes;
  cfg = one_key;
  pipeline = λ bs. env;
}

abbrev both_parts : List (MultipartPart ℕ)
both_parts = part (pos 1) 10 ∷ part (pos 2) 20 ∷ []

completes :
    complete_multipart_upload completion (bytes "u") [] true no_files open_sessions
    ≡ (completed (bytes "T_db") (bytes "bdump"), one_file, no_sessions, 20 ∷ 10 ∷ 10 ∷ 20 ∷ [])
unfolding find_key str_eq complete_multipart_upload gather requested_part_numbers find_part
    delete_multipart_session close_multipart_parts insertion_sort insert insert_all
completes =
    ap
      (λ x.
        finish (λ key bs t v. x) (bytes "u") session no_files open_sessions true
          (inl (10 ∷ 20 ∷ [], pos 10)))
      ten_bytes_succeed

complete_multipart_upload-stored_example :
    (s : MultipartSession ℕ) × (ps : List (MultipartPart ℕ)) × (find_key (bytes "u") open_sessions
      ≡ some s)
    × AreAsked [] s ps
    × (r : UploadResult) × (process env
          (insertion_sort Bytes)
          one_key
          s.key
          (metadata_of ps)
          no_files
        ≡ (ok r, one_file))
    × (r.storage_path ≡ bytes "T_db")
    × (r.md5 ≡ bytes "bdump")
    × (n : Bytes) × (k : KeyConfig) × Chosen (names one_key.keys) s.key n
    × (find_key n one_key.keys ≡ some k)
    × Delivered env remote memory_backend-IsBackend s.key k (metadata_of ps) no_files one_file r
    × (find_key (bytes "u") no_sessions ≡ none)
    × (find_key [] no_sessions ≡ find_key [] open_sessions)
complete_multipart_upload-stored_example =
    complete_multipart_upload-stored completion remote (λ bs. memory_backend-IsBackend)
      (λ bs d e. cc) (bytes "u") [] [] true no_files one_file open_sessions no_sessions
      (20 ∷ 10 ∷ 10 ∷ 20 ∷ []) (bytes "T_db") (bytes "bdump") (λ e. cc) completes

upload_part-find_part_example :
    let (response, sessions', closed) =
      upload_part
        (bytes "u")
        (some (pos 2))
        (some 30)
        (some (pos 7, bytes "f"))
        true
        open_sessions in
    (response ≡ stored (bytes "f"))
    × ((after : MultipartSession ℕ) × (find_key (bytes "u") sessions' ≡ some after)
        × (after.key ≡ bytes "db")
        × (find_part (pos 1) after.parts ≡ find_part (pos 1) session.parts))
    × (find_key [] sessions' ≡ find_key [] open_sessions)
    × (closed ≡ 20 ∷ [])
unfolding find_key str_eq find_part
upload_part-find_part_example =
    upload_part-find_part (bytes "u") [] (pos 2) (pos 1) 30 (pos 7) (bytes "f") session
      open_sessions refl refl (λ e. cc)
