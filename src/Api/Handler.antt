-- ===== src/Api/Handler.antt =====
-- internal/api/handler.go, and what its two protocols do alike with a body. The calls that a reader
-- of the log cannot see are events: of the lock of a key, of the buffer, and of the pipeline.
use backupgate.Prelude.{
  Bool, true, false, not, none, some, List, [], ◌∷◌, ◌++◌, if◌then◌else◌, Bytes, str_eq,
}
use backupgate.Prelude.Int.{ℤ}
pub mod Brackets
pub mod Outcomes
use backupgate.Sort.{SortSlice}
use backupgate.Config.Types.{buffer_off, KeyConfig, Config, get_detach_backup_from_request}
use backupgate.Auth.Types.{AuthRequest, no_providers, AuthResult, denied}
use backupgate.Auth.Chain.{Chain}
use backupgate.Auth.Chain
use backupgate.Pipeline.Types.{
  UploadMetadata, UploadResult, Env, Result, PipelineError, verification_failed, no_configuration,
  bad_duration, unknown_buffer_mode, seek_failed, read_failed, upload_failed, download_failed,
  retransmit_failed, rotation_failed,
}
use backupgate.Pipeline.Process.{process}
use backupgate.Api.Keys.{auth_chain}

-- The reader that a handler gives to the pipeline: of the request's body, or of a buffer.
pub data Body : Type 0 where
  streaming buffered : Body

-- The calls of a handler: `mu.Lock`, `mu.Unlock`, `NewUploadReader`, `buf.Close`, `Process` with its
-- reader and whether its context is that of the background, and `requestmeta.SetUser`.
pub data Event : Type 0 where
  locked unlocked : Bytes → Event
  opened closed : Event
  processed : Bytes → Body → Bool → Event
  user_set : Bytes → Event

-- `Handler`, with what it uses of its surroundings: the pipeline over each of its readers, the buffer
-- of `NewUploadReader` for a key and a length, `io.Copy` of the request's body into it, and its Close.
-- A map is the list of its entries.
pub record Handler (W : Type 0) : Type 0 where
  pub cfg : Config
  pub names : SortSlice Bytes
  pub auths : List (Bytes × Chain)
  pub pipeline : Body → Env W
  pub new_upload_reader : W → Bytes → ℤ → Bool × W
  pub copy_body : W → Bool × W
  pub close_buffer : W → W

-- What becomes of a body: there is no buffer for it, it cannot be read, or it is processed.
pub data Outcome : Type 0 where
  no_buffer unread : Outcome
  finished : Result UploadResult → Outcome

-- `errors.Is(err, pipeline.ErrVerificationFailed)`
pub is_verification_failed : PipelineError → Bool
is_verification_failed verification_failed = true
is_verification_failed no_configuration = false
is_verification_failed bad_duration = false
is_verification_failed (unknown_buffer_mode m) = false
is_verification_failed (seek_failed n) = false
is_verification_failed (read_failed n) = false
is_verification_failed (upload_failed e) = false
is_verification_failed (download_failed e) = false
is_verification_failed (retransmit_failed e) = false
is_verification_failed (rotation_failed e) = false

module _ {W : Type 0} (h : Handler W) where
  -- `authenticate`: the user of the request, whose credentials `BasicAuth` gives.
  unfoldable pub authenticate : AuthRequest → AuthResult
  authenticate req = elim (auth_chain h.auths req.key) [
    | none ↦ denied no_providers
    | some chain ↦ Chain.authenticate chain req
  ]

  -- `Process` of the key with the reader `body`.
  unfoldable pub process_body :
      Body → Bytes → KeyConfig → UploadMetadata → W → Result UploadResult × List Event × W
  process_body body key k m w =
      let (result, w') = process (h.pipeline body) h.names h.cfg key m w in
      (result, processed key body (get_detach_backup_from_request k) ∷ [], w')

  -- What `postUpload` and `putObject` do with the body under the lock of the key.
  unfoldable pub upload_body : Bytes → KeyConfig → UploadMetadata → W → Outcome × List Event × W
  unfolding process_body
  upload_body key k m w =
      if str_eq k.buffer_mode buffer_off
      then (let (result, events, w₁) = process_body streaming key k m w in
          (finished result, events, w₁))
      else (let (made, w₁) = h.new_upload_reader w key m.content_length in
          if not made
          then (no_buffer, [], w₁)
          else (let (copied, w₂) = h.copy_body w₁ in
              if not copied
              then (unread, opened ∷ closed ∷ [], h.close_buffer w₂)
              else (let (result, events, w₃) = process_body buffered key k m w₂ in
                  (finished result, opened ∷ (events ++ (closed ∷ [])), h.close_buffer w₃))))

-- `acquireKeyLock`, and the deferred `Unlock`.
abbrev pub with_key_lock :
    {W A : Type 0} → Bytes → (W → A × List Event × W) → W → A × List Event × W
with_key_lock key act w =
    let (a, events, w') = act w in (a, locked key ∷ (events ++ (unlocked key ∷ [])), w')
