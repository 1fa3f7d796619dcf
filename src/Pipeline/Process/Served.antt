-- ===== src/Pipeline/Process/Served.antt =====
-- internal/pipeline/pipeline.go, `Process`: the configuration that serves the upload, and what it
-- asks for.
use backupgate.Prelude.{
  ◌≡◌, refl, sym, ◌∙◌, ◌≢◌, ◌⊎◌, inl, inr, true, false, Option, some, [], Bool-cases, Option-cases,
  Bytes,
}
use backupgate.Sort.{SortSlice}
use backupgate.Config.Types.{KeyConfig, Config}
use backupgate.Config.Keys.{find_key, names, resolve_key_config}
use backupgate.Config.Keys.Choice.{Chosen}
use backupgate.Config.Keys.Resolve.{resolve_key_config-Chosen}
use backupgate.Storage.Backend.{IsBackend}
use backupgate.Pipeline.Types.{
  UploadMetadata, UploadResult, Env, Result, ok, fail, no_configuration,
}
use backupgate.Pipeline.Upload.Arrives.{Arrived}
use backupgate.Pipeline.Process.{rotation_dir, apply_rotation, process_with, process}
use backupgate.Pipeline.Process.Checked.{process_with-Arrived, wanted}
use backupgate.Pipeline.Process.Payload.{IsPayload, IsDigested, process_with-Finished}

module _ {W : Type 0} (env : Env W) (remote : W → Bytes → Option Bytes)
    (is : IsBackend env.backend remote) where
  -- The digests of the result `r` are those of the payload, and if the entry `k` asks for verification,
  -- the result says that it was done, and there was a state, after which only the rotation ran, where
  -- the remote file had the digest wanted.
  abbrev pub Delivered : Bytes → KeyConfig → UploadMetadata → W → W → UploadResult → Type 0
  Delivered key k m w w' r =
      (read : Bytes) × IsPayload env key k m w read
      × IsDigested env r read
      × ((k.verification ≡ false)
          ⊎ ((r.verified ≡ true)
              × (v : W) × Arrived env remote is v r.storage_path (wanted env m read)
              × (apply_rotation env (rotation_dir env key) k v ≡ (ok tt, w'))))

  pub process_with-Delivered :
      (key : Bytes) (k : KeyConfig) (m : UploadMetadata) (w w' : W) (r : UploadResult)
      → ((c : Bytes) → env.sha256_hex c ≢ [])
      → process_with env k key m w ≡ (ok r, w')
      → Delivered key k m w w' r
  process_with-Delivered key k m w w' r some_digest ran = elim (Bool-cases k.verification) [
    | inl on ↦
        let (read, payload, digested, reported, v, arrived, rotated) =
          process_with-Arrived env remote is key k m w w' r some_digest on ran in
        (read, payload, digested, inr (reported, v, arrived, rotated))
    | inr off ↦
        let (_, _, read, payload, digested) = process_with-Finished env key k m w w' r ran in
        (read, payload, digested, inl off)
  ]

  pub process-resolved :
      (s : SortSlice Bytes) (cfg : Config) (key : Bytes) (m : UploadMetadata) (w : W)
      (k : KeyConfig)
      → resolve_key_config s cfg.keys key ≡ some k
      → process env s cfg key m w ≡ process_with env k key m w
  unfolding process
  process-resolved s cfg key m w k e = rw (e, process) refl

  -- With a backend that keeps its contract and digests that are never empty, an upload that succeeds
  -- is served by the entry of the key that the matching rules choose, and the digests that it
  -- reports are those of the payload: all that io.Copy read of the body, from its start if it can
  -- seek, or without a buffer what the backend read of the body while it stored it. If the entry
  -- asks for verification, the upload reports that it verified, and there was a state, after which
  -- only the entry's rotation ran, where the remote file at the path reported had the digest
  -- expected: exactly the announced one, or that of the payload if none was announced.
  pub process-Arrived :
      (s : SortSlice Bytes) (cfg : Config) (key : Bytes) (m : UploadMetadata) (w w' : W)
      (r : UploadResult)
      → ((c : Bytes) → env.sha256_hex c ≢ [])
      → process env s cfg key m w ≡ (ok r, w')
      → (n : Bytes) × (k : KeyConfig) × Chosen (names cfg.keys) key n
        × (find_key n cfg.keys ≡ some k)
        × Delivered key k m w w' r
  unfolding process
  process-Arrived s cfg key m w w' r some_digest h =
      elim (Option-cases (resolve_key_config s cfg.keys key)) [
        | inl e ↦ elim (not_served (rw (e, process) at h)) [ ]
        | inr (k, e) ↦
            let (n, chosen, entry) = resolve_key_config-Chosen s cfg.keys key in
            (
              n,
              k,
              chosen,
              sym entry ∙ e,
              process_with-Delivered key k m w w' r some_digest (rw (e, process) at h),
            )
      ]
    where
      not_served : ◌≡◌ {A = Result UploadResult × W} (fail no_configuration w) (ok r, w') → ⊥
      not_served k = cc
