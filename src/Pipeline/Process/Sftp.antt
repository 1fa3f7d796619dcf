-- ===== src/Pipeline/Process/Sftp.antt =====
-- internal/pipeline/pipeline.go over internal/storage/sftp_backend.go: uploads with verification.
pub mod Tests
use backupgate.Prelude.{ℕ, ◌≡◌, sym, ap, ◌∙◌, ◌≢◌, Bool, true, Option, [], set, Bytes}
use backupgate.Config.Types.{KeyConfig}
use backupgate.Storage.Sftp.{Setting, State, sftp_backend}
use backupgate.Storage.Sftp.Laws.{IsSftp, HasSessions}
use backupgate.Storage.Sftp.Unreadable.{download-unreadable}
use backupgate.Pipeline.Types.{UploadMetadata, UploadResult, Env, ok}
use backupgate.Pipeline.Upload.Unreadable.{Unreadable, verify_and_retransmit-fails}
use backupgate.Pipeline.Process.{process_with, expected_hash}
use backupgate.Pipeline.Process.Payload.{process_with-Finished}
use backupgate.Pipeline.Process.Checked.{expected_hash-some, verify_if-on}

module _ {F S C H R : Type 0} (set : Setting F S C H R) (content : F → Bytes → Option Bytes)
    (path_of : H → Bytes) (at : F → H → ℕ) (is : IsSftp set.library content path_of at)
    (is_live : F → C → Bool) (client_of : H → C)
    (has : HasSessions set.library is_live client_of) where
  -- Over SFTP, with verification on and digests that are never empty, no upload succeeds, in any mode
  -- and for any payload: the file that the verification downloads cannot be read any more.
  pub process_with-unverifiable :
      (env : Env (State set))
      → env.backend ≡ sftp_backend set
      → ((c : Bytes) → env.sha256_hex c ≢ [])
      → (key : Bytes) (k : KeyConfig) (m : UploadMetadata) (w w' : State set) (r : UploadResult)
      → k.verification ≡ true
      → process_with env k key m w ≢ (ok r, w')
  process_with-unverifiable env over some_digest key k m w w' r on h =
      let ((size, u, v, path, checked, rotated), _, read, _, (digest, _)) =
        process_with-Finished env key k m w w' r h in
      let hash = expected_hash env m r.sha256 in
      let dead : Unreadable env = λ y p.
        let (e, failed) = download-unreadable set content path_of at is is_live client_of has y p in
        (e, ap (λ b. (b.download y p).0) over ∙ failed) in
      verify_and_retransmit-fails env dead r.storage_path hash size u v r.verified
        (expected_hash-some env m r.sha256 (λ t. some_digest read (sym digest ∙ t)))
        (sym (verify_if-on env k.verification r.storage_path hash size u on) ∙ checked)
