-- ===== src/Api/Http.antt =====
-- internal/api/http.go: the uploads of the HTTP protocol.
use backupgate.Prelude.{ℕ, not, none, some, List, [], ◌∷◌, if◌then◌else◌, Bytes, bytes, str_eq}
use backupgate.Prelude.Int.{ℤ}
pub mod Order
pub mod Uploads
pub mod Tests
use backupgate.Config.Keys.{resolve_key_config}
use backupgate.Auth.Types.{AuthRequest, granted, denied}
use backupgate.Pipeline.Types.{UploadMetadata, UploadResult, ok, err}
use backupgate.Api.Keys.{extract_key}
use backupgate.Api.Handler.{
  Event, user_set, Handler, no_buffer, unread, finished, Outcome, is_verification_failed,
  authenticate, upload_body, with_key_lock,
}

-- What the handler reads of the request: the method, the URL's path, the user name and the password of
-- `BasicAuth`, the body's length if it is known, and `X-Backup-SHA256`.
pub record Request : Type 0 where
  pub method : Bytes
  pub path : Bytes
  pub username : Bytes
  pub password : Bytes
  pub content_length : ℤ
  pub backup_sha256 : Bytes

-- The answer: an error with its status, or 201 with the result.
pub data Response : Type 0 where
  refused : ℕ → Response
  created : UploadResult → Response

-- The response to what became of the body.
pub respond : Outcome → Response
respond no_buffer = refused 500
respond unread = refused 400
respond (finished (err e)) = refused (if is_verification_failed e then 409 else 500)
respond (finished (ok result)) = created result

module _ {W : Type 0} (h : Handler W) where
  -- `postUpload` behind `acquireKeyLock`.
  pub store_body : Request → Bytes → W → Response × List Event × W
  unfolding respond
  store_body r key w = elim (resolve_key_config h.names h.cfg.keys key) [
    | none ↦ (refused 404, [], w)
    | some k ↦
        with_key_lock key
          (λ v.
            let (outcome, events, v') =
              upload_body h key k
                (record { content_length = r.content_length; expected_sha256 = r.backup_sha256 })
                v in
            (respond outcome, events, v'))
          w
  ]

  -- `postUpload`
  pub post_upload : Request → W → Response × List Event × W
  unfolding store_body
  post_upload r w =
      let key = extract_key r.path in
      if str_eq key []
      then (refused 400, [], w)
      else elim (authenticate h
          (record { key = key; username = r.username; password = r.password })) [
            | denied e ↦ (refused 401, [], w)
            | granted username ↦
                let (response, events, w') = store_body r key w in
                (response, user_set username ∷ events, w')
          ]

  -- `ServeHTTP`
  pub serve_http : Request → W → Response × List Event × W
  unfolding post_upload
  serve_http r w =
      if not (str_eq r.method (bytes "POST")) then (refused 405, [], w) else post_upload r w

-- The request as the providers of a chain see it.
abbrev pub credentials_of : Request → AuthRequest
credentials_of r = record { key = extract_key r.path; username = r.username; password = r.password }

-- What the pipeline is told of the body.
abbrev pub metadata_of : Request → UploadMetadata
metadata_of r = record { content_length = r.content_length; expected_sha256 = r.backup_sha256 }
