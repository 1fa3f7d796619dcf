-- ===== src/Pipeline/Upload.antt =====
-- internal/pipeline/pipeline.go and verifier.go: sending the payload, and checking what arrived.
pub mod Arrives
pub mod Unreadable
use backupgate.Prelude.{
  ℕ, zero, suc, Bool, true, false, not, ◌||◌, Option, none, some, [], ◌∷◌, if◌then◌else◌, Bytes,
  str_eq,
}
use backupgate.Prelude.Int.{ℤ, pos, ltb_ℤ}
use backupgate.Storage.Backend.{StoreError, Stored, ok, err}
use backupgate.Pipeline.Types.{
  Env, M, ◌>>=◌, give, verification_failed, upload_failed, download_failed, retransmit_failed,
}
use backupgate.Pipeline.Types

module _ {W : Type 0} (env : Env W) where
  open env use {backend}

  -- `if err != nil || offset < 0 || offset > size { offset = 0 }`
  abbrev pub resume_offset : Stored ℤ → ℤ → ℤ
  resume_offset (err e) size = pos 0
  resume_offset (ok offset) size =
      if ltb_ℤ offset (pos 0) || ltb_ℤ size offset then pos 0 else offset

  -- The attempts of `uploadWithRetry` after the first, `n` of which are left, with the last error.
  pub retries : ℕ → StoreError → Bytes → ℤ → W → Option StoreError × W
  retries zero last remote_path size w = (some last, w)
  retries (suc n) last remote_path size w =
      let (found, w₁) = backend.remote_size w remote_path in
      let (failure, _, w₂) = backend.resume_upload w₁ remote_path (resume_offset found size) size in
      elim failure [ none ↦ (none, w₂) | some e ↦ retries n e remote_path size w₂ ]

  -- `uploadWithRetry`
  unfoldable pub upload_with_retry : ℕ → Bytes → ℤ → M W (Unit {0})
  upload_with_retry max_retries remote_path size w =
      let (failure, _, w₁) = backend.upload w remote_path size in
      elim failure [
        | none ↦ (Types.ok tt, w₁)
        | some e ↦
            let (last, w₂) = retries max_retries e remote_path size w₁ in
            elim last [ none ↦ (Types.ok tt, w₂) | some x ↦ (Types.err (upload_failed x), w₂) ]
      ]

  -- `(*Verifier).Verify`
  unfoldable pub verify : Bytes → Bytes → M W (Unit {0})
  verify remote_path expected_hash w =
      let (content, w₁) = backend.download w remote_path in
      elim content [
        | err e ↦ (Types.err (download_failed e), w₁)
        | ok c ↦
            if str_eq (env.sha256_hex c) expected_hash
            then (Types.ok tt, w₁)
            else (Types.err verification_failed, w₁)
      ]

  -- The second half of `verifyAndRetransmit`: what follows a mismatch.
  pub retransmit : Bytes → Bytes → ℤ → M W Bool
  retransmit remote_path expected_hash size w =
      if not env.is_seeker
      then (Types.err verification_failed, w)
      else let (failure, _, w₁) = backend.upload w remote_path size in
        elim failure [
          | some e ↦ (Types.err (retransmit_failed e), w₁)
          | none ↦ (do _ ← verify remote_path expected_hash; give true) w₁
        ]

  -- `verifyAndRetransmit`
  unfoldable pub verify_and_retransmit : Bytes → Bytes → ℤ → M W Bool
  verify_and_retransmit remote_path [] size w = (Types.ok false, w)
  verify_and_retransmit remote_path (h ∷ hash) size w =
      let (checked, w₁) = verify remote_path (h ∷ hash) w in
      elim checked [
        | Types.ok _ ↦ (Types.ok true, w₁)
        | Types.err verification_failed ↦ retransmit remote_path (h ∷ hash) size w₁
        | Types.err e ↦ (Types.err e, w₁)
      ]
