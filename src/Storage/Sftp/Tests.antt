-- ===== src/Storage/Sftp/Tests.antt =====
-- Runs of the backend over SFTP on the machine in memory.
use backupgate.Prelude.{◌≡◌, refl, ◌≢◌, none, some, arith, bytes, str_eq}
use backupgate.Prelude.Int.{pos}
use backupgate.Storage.Backend.{still_running}
use backupgate.Storage.Sftp.{copy_with_context, store, with_client, seek_to, upload, resume_upload}
use backupgate.Storage.Sftp.Uploads.{Holds, resume_upload-Holds}
use backupgate.Storage.Sftp.Finishes.{copy_with_context-returns}
use backupgate.Storage.Sftp.Memory.{
  Machine, machine, machine_library-IsSftp, payload, blank, halfway,
}

abbrev sent : Machine
sent = (upload machine (blank, 0) (bytes "a") (pos 4)).2.0

sends : upload machine (blank, 0) (bytes "a") (pos 4) ≡ (none, payload, (sent, 4))
unfolding upload store with_client seek_to copy_with_context
sends = refl

abbrev resumed : Machine
resumed = (resume_upload machine (halfway, 0) (bytes "a") (pos 2) (pos 4)).2.0

resumes :
    resume_upload machine (halfway, 0) (bytes "a") (pos 2) (pos 4)
    ≡ (none, bytes "mp", (resumed, 4))
unfolding resume_upload store with_client seek_to copy_with_context
resumes = refl

resume_upload-Holds_example :
    Holds machine
      (λ m. m.files)
      (λ h. h)
      (λ m h. m.offset)
      machine_library-IsSftp
      (bytes "a")
      payload
      halfway
      resumed
unfolding str_eq
resume_upload-Holds_example =
    resume_upload-Holds machine (λ m. m.files) (λ h. h) (λ m h. m.offset) machine_library-IsSftp
      (halfway, 0) (bytes "a") 2 (pos 4) (bytes "mp") (resumed, 4) (omega arith) resumes

copy_with_context-returns_example :
    (copy_with_context machine 2 0 (bytes "a") (blank, 0)).0.0 ≢ some still_running
copy_with_context-returns_example =
    copy_with_context-returns machine (λ r. 1) (λ r e. cc) (λ f h b e. cc) 2 0 (bytes "a")
      (blank, 0) (omega arith)
