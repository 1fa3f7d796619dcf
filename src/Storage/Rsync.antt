-- ===== src/Storage/Rsync.antt =====
-- internal/storage/rsync_uploader.go and rsync_backend.go: uploads over rsync, beside a primary
-- backend.
use backupgate.Prelude.{Bool, Option, none, some, List, [], if◌then◌else◌, set, Bytes}
use backupgate.Prelude.Int.{ℤ}
pub mod Promise
mod Tests
use backupgate.Storage.Backend.{StoreError, failed, Stored, ok, err, Backend}
use backupgate.Storage.Shell.{remote_rsync_command}

-- What the uploader uses of the packages ssh and rsyncclient: the SSH connection and its session,
-- the pipes, the start of a command, the run of the rsync client for a local file, the close of
-- stdin and the wait for the session; and the Close of the session and of the connection. `W` is the
-- state of the remote machine, and `server_options` the client's ServerCommandOptions, if it can be
-- made.
pub record RsyncLibrary (W : Type 0) : Type 0 where
  pub server_options : Stored (Bytes → List Bytes)
  pub ssh_connect : W → Option StoreError × W
  pub new_session : W → Option StoreError × W
  pub open_pipes : W → Option StoreError × W
  pub start_command : W → Bytes → Option StoreError × W
  pub run_client : W → Bytes → Option StoreError × W
  pub close_stdin : W → Option StoreError × W
  pub wait : W → Option StoreError × W
  pub close_session : W → W
  pub close_ssh : W → W

-- The errors that the uploader makes itself: "rsync upload requires file-backed upload reader" and
-- that of a context that is done.
abbrev pub not_file_backed : StoreError
not_file_backed = failed 1

abbrev pub cancelled : StoreError
cancelled = failed 2

-- The upload's reader: `FileName`, `Sync` if it has one, and the bytes
-- written to it.
pub record Reader (W : Type 0) : Type 0 where
  pub file_name : W → Option Bytes
  pub sync : W → Option StoreError × W
  pub file_bytes : W → Bytes

-- What the backend is built of; `is_cancelled` is that the context is done before the transfer ends.
pub record Setting (W : Type 0) : Type 0 where
  pub library : RsyncLibrary W
  pub reader : Reader W
  pub is_cancelled : Bool
  pub remote_path : Bytes → Bytes

-- A call and, if it has no error, what follows it.
abbrev pub then_do :
    {W : Type 0} → Option StoreError × W → (W → Option StoreError × W) → Option StoreError × W
then_do (none, w) next = next w
then_do (some e, w) next = (some e, w)

-- A deferred Close.
abbrev pub closing : {W : Type 0} → (W → W) → Option StoreError × W → Option StoreError × W
closing close (failure, w) = (failure, close w)

module _ {W : Type 0} (set : Setting W) where
  open set use {library, reader}

  -- The goroutine of `rsyncDo`: each of the three calls is made, and the first error is reported.
  pub transfer : Bytes → W → Option StoreError × W
  transfer local_path w =
      let (run_err, w₁) = library.run_client w local_path in
      let (close_err, w₂) = library.close_stdin w₁ in
      let (wait_err, w₃) = library.wait w₂ in
      elim run_err [
        | some e ↦ (some e, w₃)
        | none ↦ elim close_err [ some e ↦ (some e, w₃) | none ↦ (wait_err, w₃) ]
      ]

  -- The last select of `rsyncDo`; a context that is done first leaves the transfer where it is.
  pub await : Bytes → W → Option StoreError × W
  unfolding transfer
  await local_path w =
      if set.is_cancelled then (some cancelled, library.close_session w) else transfer local_path w

  -- `rsyncDo`
  pub rsync_do : List Bytes → Bytes → W → Option StoreError × W
  unfolding await
  rsync_do args local_path w = then_do (library.ssh_connect w) (λ w₁. closing library.close_ssh (
      then_do (library.new_session w₁) (λ w₂. closing library.close_session (
        then_do (library.open_pipes w₂) (λ w₃.
          then_do (library.start_command w₃ (remote_rsync_command args)) (await local_path))))))

  -- `runRsyncOverSSH` of one file.
  pub run_rsync_over_ssh : Bytes → Bytes → W → Option StoreError × W
  unfolding rsync_do
  run_rsync_over_ssh remote_path local_path w = elim library.server_options [
    | err e ↦ (some e, w)
    | ok options ↦ rsync_do (options remote_path) local_path w
  ]

  -- `(*RsyncUploader).Upload`
  pub upload : W → Bytes → ℤ → Option StoreError × Bytes × W
  unfolding run_rsync_over_ssh
  upload w remote_path size = elim (reader.file_name w) [
    | none ↦ (some not_file_backed, [], w)
    | some local_path ↦
        let (failure, w') =
          then_do (reader.sync w) (run_rsync_over_ssh (set.remote_path remote_path) local_path) in
        (failure, reader.file_bytes w, w')
  ]

  -- `(*RsyncUploader).ResumeUpload`
  pub resume_upload : W → Bytes → ℤ → ℤ → Option StoreError × Bytes × W
  unfolding upload
  resume_upload w remote_path offset total_size = upload w remote_path total_size

  -- `rsyncUploadBackend`, whose other operations are those of the primary backend.
  abbrev pub rsync_upload_backend : Backend W → Backend W
  rsync_upload_backend primary = record {
    upload = upload;
    resume_upload = resume_upload;
    remote_size = primary.remote_size;
    download = primary.download;
    delete = primary.delete;
    list = primary.list;
  }
