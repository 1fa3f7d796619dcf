-- ===== src/Rotation/Tests.antt =====
-- Runs of the rotation of a directory of four entries.
use backupgate.Prelude.{
  min, ◌≡◌, refl, ◌⊎◌, inl, false, Option, none, some, List, [], ◌∷◌, ◌++◌, arith, length, All,
  Bytes, bytes,
}
use backupgate.Prelude.Int.{ℤ, pos, ltb_ℤ}
use backupgate.Sort.{Member, Rearranged, insertion_sort, insert, insert_all}
use backupgate.Storage.Backend.{StoreError, not_exist, ok, err, Entry, Backend, IsBackend}
use backupgate.Rotation.{delete_all, apply, select_from, select_for_deletion, is_excess, newer}
use backupgate.Rotation.Applied.{Rotated, apply-Rotated}
use backupgate.Pipeline.Process.Tests.{
  Files, memory_backend, remote, memory_backend-IsBackend, no_files,
}
use backupgate.Rotation.{Policy, Surroundings, parse_timestamp, timestamp, timestamped, to_delete}
use backupgate.Rotation.Selected.{to_delete-count, to_delete-too_old}

-- A clock whose instants are the first byte of a text.
abbrev first_byte : Bytes → Option ℤ
first_byte [] = none
first_byte (c ∷ s) = some (pos c)

abbrev env : Surroundings
env = record { parse_time = first_byte; slices = insertion_sort Entry }

abbrev file : Bytes → Entry
file name = record { name = name; size = pos 1; mod_time = pos 0; is_dir = false }

abbrev backups : List Entry
backups = file (bytes "1_a") ∷ file (bytes "notes") ∷ file (bytes "3_a") ∷ file (bytes "2_a") ∷ []

abbrev keep_two : Policy
keep_two = record { max_count = pos 2; max_age = pos 0 }

abbrev keep_young : Policy
keep_young = record { max_count = pos 0; max_age = pos 1 }

to_delete-count_example :
    (kept : List Entry) × Rearranged
      (kept ++ to_delete env keep_two (pos 52) backups)
      (timestamped env backups)
    × (length kept ≡ min 2 (length (timestamped env backups)))
    × All
        (λ d. All (λ k. ltb_ℤ (timestamp env k) (timestamp env d) ≡ false) kept)
        (to_delete env keep_two (pos 52) backups)
to_delete-count_example = to_delete-count env keep_two (pos 52) 2 backups refl (omega arith) refl

to_delete-too_old_example : Member (file (bytes "1_a")) (to_delete env keep_young (pos 52) backups)
unfolding parse_timestamp timestamp backupgate.Auth.Htpasswd.cut
to_delete-too_old_example =
    to_delete-too_old env keep_young (pos 52) backups (file (bytes "1_a")) (inl refl)
      (refl, (pos 49, refl)) refl

selected_one : Member (file (bytes "1_a")) (to_delete env keep_young (pos 52) backups)
unfolding parse_timestamp timestamp backupgate.Auth.Htpasswd.cut
selected_one =
    to_delete-too_old env keep_young (pos 52) backups (file (bytes "1_a")) (inl refl)
      (refl, (pos 49, refl)) refl

-- The files in memory, with three backups and a note in each directory.
abbrev shelf : Backend Files
shelf = record {
  upload = memory_backend.upload;
  resume_upload = memory_backend.resume_upload;
  remote_size = memory_backend.remote_size;
  download = memory_backend.download;
  delete = memory_backend.delete;
  list = λ w p. (ok backups, w);
}

shelf-IsBackend : IsBackend shelf remote
shelf-IsBackend = record {
  file_of = memory_backend-IsBackend.file_of;
  one_file = memory_backend-IsBackend.one_file;
  uploaded = memory_backend-IsBackend.uploaded;
  downloaded = memory_backend-IsBackend.downloaded;
  deleted = memory_backend-IsBackend.deleted;
  listed = λ w p q. refl;
}

abbrev rotated : Option StoreError × Files
rotated = apply shelf env (pos 52) no_files (bytes "d") keep_two

rotates : rotated ≡ (none, rotated.1)
unfolding apply delete_all to_delete select_for_deletion select_from is_excess newer timestamped
    parse_timestamp timestamp backupgate.Auth.Htpasswd.cut insertion_sort insert insert_all
rotates = refl

apply-Rotated_example :
    (Rotated shelf remote shelf-IsBackend (bytes "d") [] no_files rotated.1
      × (((pos 2 ≡ pos 0) × (pos 0 ≡ pos 0))
          ⊎ ((shelf.list no_files (bytes "d")).0 ≡ err not_exist)))
    ⊎ ((es : List Entry) × ((shelf.list no_files (bytes "d")).0 ≡ ok es)
        × Rotated shelf remote shelf-IsBackend
            (bytes "d")
            (to_delete env keep_two (pos 52) es)
            no_files
            rotated.1)
apply-Rotated_example =
    apply-Rotated shelf remote shelf-IsBackend env (pos 52) no_files rotated.1 (bytes "d") keep_two
      rotates
