-- ===== src/Api/S3.antt =====
-- internal/api/s3.go: the routing of the S3 protocol, and single uploads.
use backupgate.Prelude.{
  ℕ, Bool, true, false, ◌&&◌, Option, none, some, List, [], ◌∷◌, ◌++◌, if◌then◌else◌, Bytes, bytes,
  str_eq,
}
use backupgate.Prelude.Int.{ℤ}
pub mod Guarded
mod Tests
use backupgate.Config.Types.{KeyConfig}
use backupgate.Config.Keys.{find_key, resolve_key_config}
use backupgate.Sort.{SortSlice}
use backupgate.Pipeline.Types.{Env, ok, err}
use backupgate.Api.Keys.{extract_key, auth_chain}
use backupgate.Api.Handler.{
  Event, user_set, Handler, Outcome, no_buffer, unread, finished, is_verification_failed,
  upload_body, with_key_lock,
}
use backupgate.Api.Multipart.{
  Sessions, Completion, create_multipart_upload, upload_part, complete_multipart_upload,
  abort_multipart_upload,
}
use backupgate.Api.Multipart
use backupgate.Api.Aws.{
  Library, SignedRequest, accepted, rejected, authenticate, validate_content_hash,
}

-- The codes of the errors that `ServeHTTP` and `putObject` write.
pub data Code : Type 0 where
  invalid_request signature_does_not_match no_such_key method_not_allowed : Code
  internal_error bad_digest : Code

-- What is answered: the location of the bucket, an error with its status and its code, 200 with an
-- ETag, or what a handler of a multipart upload answers.
pub data Response : Type 0 where
  location : Response
  refused : ℕ → Code → Response
  stored : Bytes → Response
  multipart : Multipart.Response → Response

-- A request: its URL's path, what is read of it for its signature, the length of the body if it is
-- known, the body, whether it can be read, and what it asks of a multipart upload: the number of a
-- part as `strconv.Atoi` reads it, and the numbers that the body lists.
pub record Request : Type 0 where
  pub path : Bytes
  pub signed : SignedRequest
  pub content_length : ℤ
  pub body : Bytes
  pub readable : Bool
  pub part_number : Option ℤ
  pub requested : List ℤ

-- `S3Handler`, with what the multipart uploads use: a new identifier, the buffer of a part, what
-- `io.Copy` wrote to it, `sort.Ints`, and the pipeline over an assembled reader of parts.
pub record S3Handler (W B : Type 0) : Type 0 where
  pub handler : Handler W
  pub library : Library
  pub new_id : Option Bytes
  pub part_buffer : Option B
  pub part_copied : Request → Option (ℤ × Bytes)
  pub ints : SortSlice ℤ
  pub parts_pipeline : List B → Env W

-- The response, the calls of the upload of a single object, the state, the sessions, and the buffers
-- of parts that are closed.
abbrev pub Served : Type 0 → Type 0 → Type 0
Served W B = Response × List Event × W × Sessions B × List B

-- `query[name]`, and `query.Get(name)`.
abbrev pub has_query : Request → Bytes → Bool
has_query r name = elim (find_key name r.signed.query) [ none ↦ false | some vs ↦ true ]

abbrev first_value : Option (List Bytes) → Bytes
first_value none = []
first_value (some []) = []
first_value (some (v ∷ vs)) = v

abbrev pub query_get : Request → Bytes → Bytes
query_get r name = first_value (find_key name r.signed.query)

-- The response to what became of the body.
pub respond : Outcome → Response
respond no_buffer = refused 500 internal_error
respond unread = refused 400 invalid_request
respond (finished (err e)) =
    if is_verification_failed e then refused 409 bad_digest else refused 500 internal_error
respond (finished (ok result)) = stored (b'"' ∷ (result.md5 ++ bytes "\""))

module _ {W B : Type 0} (s : S3Handler W B) where
  open s use {handler, library}

  -- `putObject`, of the digest that is expected.
  pub put_object : Request → Bytes → W → Response × List Event × W
  unfolding respond
  put_object r expected =
      let key = extract_key r.path in
      with_key_lock key (λ v. elim (resolve_key_config handler.names handler.cfg.keys key) [
        | none ↦ (refused 404 no_such_key, [], v)
        | some k ↦
            let (outcome, events, v') =
              upload_body handler key k
                (record { content_length = r.content_length; expected_sha256 = expected }) v in
            (respond outcome, events, v')
      ])

  -- What `CompleteMultipartUpload` uses.
  abbrev pub completion : Completion W B
  completion = record {
    ints = s.ints;
    names = handler.names;
    cfg = handler.cfg;
    pipeline = s.parts_pipeline;
  }

  -- An operation on the sessions as an answer.
  abbrev pub on_sessions : W → Multipart.Response × Sessions B × List B → Served W B
  on_sessions w (answer, sessions, closed) = (multipart answer, [], w, sessions, closed)

  -- `ServeHTTP` behind the choice of the configuration, of the digest that is expected.
  pub route : Request → KeyConfig → Bytes → W → Sessions B → Served W B
  unfolding put_object
  route r k expected w sessions =
      let method = r.signed.method in
      let id = query_get r (bytes "uploadId") in
      let hash_valid = validate_content_hash library expected r.body in
      let otherwise : Served W B =
        (if str_eq method (bytes "PUT")
          then (let (answer, events, w') = put_object r expected w in
              (answer, events, w', sessions, []))
          else (refused 405 method_not_allowed, [], w, sessions, [])) in
      if has_query r (bytes "uploads") && str_eq method (bytes "POST")
      then (let (answer, sessions') =
            create_multipart_upload k.buffer_mode (extract_key r.path) s.new_id r.readable
              hash_valid sessions in
          (multipart answer, [], w, sessions', []))
      else if str_eq id []
      then otherwise
      else if str_eq method (bytes "PUT")
      then on_sessions w
          (upload_part id r.part_number s.part_buffer (s.part_copied r) hash_valid sessions)
      else if str_eq method (bytes "POST")
      then (let (answer, w', sessions', closed) =
            complete_multipart_upload completion id r.requested hash_valid w sessions in
          (multipart answer, [], w', sessions', closed))
      else if str_eq method (bytes "DELETE")
      then on_sessions w (abort_multipart_upload id sessions)
      else otherwise

  -- `ServeHTTP` behind the authentication of the user.
  pub serve_user : Request → Bytes → Bytes → W → Sessions B → Served W B
  unfolding route
  serve_user r user expected w sessions =
      elim (resolve_key_config handler.names handler.cfg.keys (extract_key r.path)) [
        | none ↦ (refused 404 no_such_key, user_set user ∷ [], w, sessions, [])
        | some k ↦
            let (answer, events, w', sessions', closed) = route r k expected w sessions in
            (answer, user_set user ∷ events, w', sessions', closed)
      ]

  -- `(*S3Handler).ServeHTTP`
  pub serve_s3 : Request → W → Sessions B → Served W B
  unfolding serve_user
  serve_s3 r w sessions =
      if has_query r (bytes "location") && str_eq r.signed.method (bytes "GET")
      then (location, [], w, sessions, [])
      else elim (auth_chain handler.auths (extract_key r.path)) [
        | none ↦ (refused 400 invalid_request, [], w, sessions, [])
        | some chain ↦ elim (authenticate library chain r.signed) [
          | rejected user e ↦ (refused 403 signature_does_not_match, [], w, sessions, [])
          | accepted user expected ↦ serve_user r user expected w sessions
        ]
      ]
