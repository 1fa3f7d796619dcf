-- ===== src/Pipeline/Process/Checked.antt =====
-- internal/pipeline/pipeline.go: what a successful upload says of the payload and of the remote file.
use backupgate.Prelude.{
  ◌≡◌, refl, sym, ap, ◌∙◌, ◌≢◌, ◌⊎◌, inl, inr, Bool, true, false, not, ◌&&◌, Option, [],
  if◌then◌else◌, Bool-cases, Bytes, str_eq, str_eq_sound,
}
use backupgate.Prelude.Int.{ℤ}
use backupgate.Config.Types.{fully_immediately, KeyConfig}
use backupgate.Storage.Backend.{IsBackend}
use backupgate.Pipeline.Types.{UploadMetadata, UploadResult, Env, ok}
use backupgate.Pipeline.Upload.{verify_and_retransmit}
use backupgate.Pipeline.Upload.Arrives.{Arrived, verify_and_retransmit-Arrived}
use backupgate.Pipeline.Process.{
  rotation_dir, apply_rotation, mismatches, expected_hash, verify_if, process_with,
}
use backupgate.Pipeline.Process.Payload.{IsPayload, IsDigested, process_with-Finished}

module _ {W : Type 0} (env : Env W) where
  pub expected_hash-some :
      (m : UploadMetadata) (sha : Bytes) → sha ≢ [] → expected_hash env m sha ≢ []
  unfolding expected_hash str_eq
  expected_hash-some m sha some_sha h = go (str_eq m.expected_sha256 []) refl h
    where
      go :
          (b : Bool) → str_eq m.expected_sha256 [] ≡ b → (if b then sha else m.expected_sha256) ≢ []
      go true e t = some_sha t
      go false e t = let absurd : false ≡ true = sym e ∙ ap (λ x. str_eq x []) t in cc

  pub verify_if-on :
      (b : Bool) (path hash : Bytes) (size : ℤ) (w : W)
      → b ≡ true
      → verify_if env b path hash size w ≡ verify_and_retransmit env path hash size w
  unfolding verify_if
  verify_if-on true path hash size w h = refl
  verify_if-on false path hash size w h = cc

  expected_hash-announced :
      (m : UploadMetadata) (sha : Bytes)
      → m.expected_sha256 ≢ []
      → expected_hash env m sha ≡ m.expected_sha256
  unfolding expected_hash
  expected_hash-announced m sha announced = elim (Bool-cases (str_eq m.expected_sha256 [])) [
    | inl e ↦ elim (announced (str_eq_sound m.expected_sha256 [] e)) [ ]
    | inr e ↦ rw e
  ]

  mismatches-false :
      (m : UploadMetadata) (sha : Bytes)
      → mismatches env m sha ≡ false
      → (m.expected_sha256 ≡ []) ⊎ (env.equal_fold m.expected_sha256 sha ≡ true)
  unfolding mismatches
  mismatches-false m sha h =
      go (str_eq m.expected_sha256 []) refl (env.equal_fold m.expected_sha256 sha) refl h
    where
      go :
          (a : Bool)
          → str_eq m.expected_sha256 [] ≡ a
          → (b : Bool) → env.equal_fold m.expected_sha256 sha ≡ b
          → (not a && not b) ≡ false
          → (m.expected_sha256 ≡ []) ⊎ (env.equal_fold m.expected_sha256 sha ≡ true)
      go true e b f t = inl (str_eq_sound m.expected_sha256 [] e)
      go false e true f t = inr f
      go false e false f t = cc

  -- An upload that succeeds in any mode but FULLY_IMMEDIATELY had a payload whose digest is the one
  -- the request announced, up to the case of its letters, if the request announced one. The payload
  -- is all that io.Copy read of the body, from its start if it can seek, or without a buffer what
  -- the backend read of the body while it stored it, and the digests reported are those of the
  -- payload.
  pub process_with-matches :
      (key : Bytes) (k : KeyConfig) (m : UploadMetadata) (w w' : W) (r : UploadResult)
      → process_with env k key m w ≡ (ok r, w')
      → k.buffer_mode ≢ fully_immediately
      → (read : Bytes) × IsPayload env key k m w read
        × IsDigested env r read
        × ((m.expected_sha256 ≡ [])
            ⊎ (env.equal_fold m.expected_sha256 (env.sha256_hex read) ≡ true))
  process_with-matches key k m w w' r h mode =
      let (_, passed, read, payload, (sha, md5)) = process_with-Finished env key k m w w' r h in
      (
        read,
        payload,
        (sha, md5),
        elim passed [
          | inl same ↦
              mismatches-false m (env.sha256_hex read) (ap (mismatches env m) (sym sha) ∙ same)
          | inr immediately ↦ elim (mode immediately) [ ]
        ],
      )

  -- The digest that a remote file has to have: the announced one, or that of the payload.
  abbrev pub wanted : UploadMetadata → Bytes → Bytes
  wanted m read = if str_eq m.expected_sha256 [] then env.sha256_hex read else m.expected_sha256

  expected_hash-wanted :
      (m : UploadMetadata) (sha read : Bytes)
      → sha ≡ env.sha256_hex read
      → expected_hash env m sha ≡ wanted m read
  unfolding expected_hash
  expected_hash-wanted m sha read e =
      ap (λ x. if str_eq m.expected_sha256 [] then x else m.expected_sha256) e

module _ {W : Type 0} (env : Env W) (remote : W → Bytes → Option Bytes)
    (is : IsBackend env.backend remote) where
  -- With verification on, a backend that keeps its contract and digests that are never empty, an upload
  -- that succeeds in any mode reports that it verified, and there was a state, after which only the
  -- rotation ran, where the remote file at the path reported had the digest expected: exactly the
  -- announced one, or that of the payload if none was announced.
  pub process_with-Arrived :
      (key : Bytes) (k : KeyConfig) (m : UploadMetadata) (w w' : W) (r : UploadResult)
      → ((c : Bytes) → env.sha256_hex c ≢ [])
      → k.verification ≡ true
      → process_with env k key m w ≡ (ok r, w')
      → (read : Bytes) × IsPayload env key k m w read
        × IsDigested env r read
        × (r.verified ≡ true)
        × (v : W) × Arrived env remote is v r.storage_path (wanted env m read)
        × (apply_rotation env (rotation_dir env key) k v ≡ (ok tt, w'))
  process_with-Arrived key k m w w' r some_digest on h =
      let ((size, u, v, path, checked, rotated), _, read, payload, (sha, md5)) =
        process_with-Finished env key k m w w' r h in
      elim (verify_and_retransmit-Arrived env remote is r.storage_path
        (expected_hash env m r.sha256) size u v r.verified
        (sym (
            verify_if-on env k.verification r.storage_path (expected_hash env m r.sha256) size u on)
          ∙ checked)) [
            | inl (reported, (c, held, digest)) ↦ (
              read,
              payload,
              (sha, md5),
              reported,
              v,
              (c, held, digest ∙ expected_hash-wanted env m r.sha256 read sha),
              rotated,
            )
            | inr (_, nothing, _) ↦
                elim (expected_hash-some env m r.sha256 (λ t. some_digest read (sym sha ∙ t))
                  nothing) [ ]
          ]

  -- With a backend that keeps its contract, verification on, digests that are never empty and a
  -- digest announced that is not exactly what the hexadecimal writer makes of any content, such as
  -- one in capital letters, no upload succeeds, in any mode.
  pub process_with-inexact :
      (key : Bytes) (k : KeyConfig) (m : UploadMetadata) (w w' : W) (r : UploadResult)
      → ((c : Bytes) → env.sha256_hex c ≢ [])
      → k.verification ≡ true
      → m.expected_sha256 ≢ []
      → ((c : Bytes) → env.sha256_hex c ≢ m.expected_sha256)
      → process_with env k key m w ≢ (ok r, w')
  process_with-inexact key k m w w' r some_digest on announced inexact h =
      let (read, _, _, _, v, (c, _, digest), _) =
        process_with-Arrived key k m w w' r some_digest on h in
      inexact c (
        digest
        ∙ sym (expected_hash-wanted env m (env.sha256_hex read) read refl)
        ∙ expected_hash-announced env m (env.sha256_hex read) announced)
