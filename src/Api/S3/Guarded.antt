-- ===== src/Api/S3/Guarded.antt =====
-- What the S3 protocol does to the store and to its sessions, and for whom.
use backupgate.Prelude.{
  ◌≡◌, refl, ◌⊎◌, inl, inr, Bool, true, false, ◌&&◌, Option, none, some, List, [], ◌∷◌,
  if◌then◌else◌, Bytes, bytes, str_eq,
}
use backupgate.Config.Types.{KeyConfig}
use backupgate.Config.Keys.{resolve_key_config}
use backupgate.Auth.Chain.{Chain}
use backupgate.Api.Keys.{extract_key, auth_chain}
use backupgate.Api.Handler.{Event, user_set, upload_body}
use backupgate.Api.Handler.Brackets.{
  IsBracketed, run, run-nil, upload_body-run, with_key_lock-IsBracketed, nil-IsBracketed,
  user_set-IsBracketed,
}
use backupgate.Api.Multipart.{
  Sessions, create_multipart_upload, upload_part, complete_multipart_upload, abort_multipart_upload,
}
use backupgate.Api.Aws.{Authenticated, accepted, rejected, authenticate, validate_content_hash}
use backupgate.Api.Aws.Signed.{IsSigned, authenticate-IsSigned_iff}
use backupgate.Api.S3.{
  S3Handler, Request, Response, Served, location, refused, invalid_request,
  signature_does_not_match, no_such_key, method_not_allowed, multipart, on_sessions, completion,
  has_query, query_get, respond, put_object, route, serve_user, serve_s3,
}

module _ {W B : Type 0} (s : S3Handler W B) where
  abbrev InOrder : Served W B → Type 0
  InOrder a = IsBracketed a.1

  put_object-IsBracketed :
      (r : Request) (expected : Bytes) (w : W) → IsBracketed (put_object s r expected w).1
  unfolding put_object
  put_object-IsBracketed r expected w =
      with_key_lock-IsBracketed (extract_key r.path) (λ v. act v (config_of v)) w (go (config_of w))
    where
      key : Bytes
      key = extract_key r.path

      config_of : W → Option KeyConfig
      config_of v = resolve_key_config s.handler.names s.handler.cfg.keys key

      act : W → Option KeyConfig → Response × List Event × W
      act v none = (refused 404 no_such_key, [], v)
      act v (some k) =
          let (outcome, events, v') =
            upload_body s.handler key k
              (record { content_length = r.content_length; expected_sha256 = expected }) v in
          (respond outcome, events, v')

      go : (o : Option KeyConfig) → run (some key, false) (act w o).1 ≡ some (some key, false)
      go none = run-nil (some key, false)
      go (some k) =
          upload_body-run s.handler key k
            (record { content_length = r.content_length; expected_sha256 = expected }) w

  if-InOrder : (b : Bool) (x y : Served W B) → InOrder x → InOrder y → InOrder (if b then x else y)
  if-InOrder true x y h k = h
  if-InOrder false x y h k = k

  route-InOrder :
      (r : Request) (k : KeyConfig) (expected : Bytes) (w : W) (sessions : Sessions B)
      → InOrder (route s r k expected w sessions)
  unfolding route
  route-InOrder r k expected w sessions =
      let method = r.signed.method in
      let id = query_get r (bytes "uploadId") in
      let valid = validate_content_hash s.library expected r.body in
      let made =
        create_multipart_upload k.buffer_mode (extract_key r.path) s.new_id r.readable valid
          sessions in
      let put = put_object s r expected w in
      let stored : Served W B = (put.0, put.1, put.2, sessions, []) in
      let no_method : Served W B = (refused 405 method_not_allowed, [], w, sessions, []) in
      let otherwise : Served W B = (if str_eq method (bytes "PUT") then stored else no_method) in
      let fine : InOrder otherwise =
        if-InOrder (str_eq method (bytes "PUT")) stored no_method
          (put_object-IsBracketed r expected w) nil-IsBracketed in
      let part =
        on_sessions s w
          (upload_part id r.part_number s.part_buffer (s.part_copied r) valid sessions) in
      let ended = complete_multipart_upload (completion s) id r.requested valid w sessions in
      let complete : Served W B = (multipart ended.0, [], ended.1, ended.2, ended.3) in
      let abort = on_sessions s w (abort_multipart_upload id sessions) in
      if-InOrder (has_query r (bytes "uploads") && str_eq method (bytes "POST"))
        (multipart made.0, [], w, made.1, []) _ nil-IsBracketed
        (if-InOrder (str_eq id []) otherwise _ fine (
          if-InOrder (str_eq method (bytes "PUT")) part _ nil-IsBracketed (
            if-InOrder (str_eq method (bytes "POST")) complete _ nil-IsBracketed
              (if-InOrder (str_eq method (bytes "DELETE")) abort otherwise nil-IsBracketed fine))))

  -- Whatever the request and the answer, the lock of the key is released and the buffer is closed; the
  -- pipeline only runs for the key whose lock is held, and on a buffer only while that is open. The
  -- calls of multipart uploads are no events.
  pub serve_s3-IsBracketed :
      (r : Request) (w : W) (sessions : Sessions B) → IsBracketed (serve_s3 s r w sessions).1
  unfolding serve_s3 serve_user
  serve_s3-IsBracketed r w sessions =
      if-InOrder (has_query r (bytes "location") && str_eq r.signed.method (bytes "GET"))
        (location, [], w, sessions, []) _ nil-IsBracketed
        (chains (auth_chain s.handler.auths (extract_key r.path)))
    where
      configured :
          (user expected : Bytes) (o : Option KeyConfig)
          → InOrder (elim o [
            | none ↦ (refused 404 no_such_key, user_set user ∷ [], w, sessions, [])
            | some k ↦
                let (answer, events, w', sessions', closed) = route s r k expected w sessions in
                (answer, user_set user ∷ events, w', sessions', closed)
          ])
      configured user expected none = user_set-IsBracketed user [] nil-IsBracketed
      configured user expected (some k) =
          user_set-IsBracketed user (route s r k expected w sessions).1
            (route-InOrder r k expected w sessions)

      signed :
          (a : Authenticated)
          → InOrder (elim a [
            | rejected user e ↦ (refused 403 signature_does_not_match, [], w, sessions, [])
            | accepted user expected ↦ serve_user s r user expected w sessions
          ])
      signed (rejected user e) = nil-IsBracketed
      signed (accepted user expected) =
          configured user expected
            (resolve_key_config s.handler.names s.handler.cfg.keys (extract_key r.path))

      chains :
          (o : Option Chain)
          → InOrder (elim o [
            | none ↦ (refused 400 invalid_request, [], w, sessions, [])
            | some chain ↦ elim (authenticate s.library chain r.signed) [
              | rejected user e ↦ (refused 403 signature_does_not_match, [], w, sessions, [])
              | accepted user expected ↦ serve_user s r user expected w sessions
            ]
          ])
      chains none = nil-IsBracketed
      chains (some chain) = signed (authenticate s.library chain r.signed)

  -- A request changes nothing, neither the store nor a session, and closes no buffer, unless it is
  -- signed by the secret that the authentication chain of its key has for the access key.
  pub serve_s3-guarded :
      (r : Request) (w : W) (sessions : Sessions B)
      → ((answer : Response) × (serve_s3 s r w sessions ≡ (answer, [], w, sessions, [])))
        ⊎ ((user : Bytes) × (chain : Chain) × (auth_chain s.handler.auths (extract_key r.path)
              ≡ some chain)
            × IsSigned s.library chain r.signed user)
  unfolding serve_s3
  serve_s3-guarded r w sessions =
      go (has_query r (bytes "location") && str_eq r.signed.method (bytes "GET"))
        (auth_chain s.handler.auths (extract_key r.path)) refl
    where
      Result : Served W B → Type 0
      Result a =
          ((answer : Response) × (a ≡ (answer, [], w, sessions, [])))
          ⊎ ((user : Bytes) × (chain : Chain) × (auth_chain s.handler.auths (extract_key r.path)
                ≡ some chain)
              × IsSigned s.library chain r.signed user)

      inner :
          (chain : Chain)
          → auth_chain s.handler.auths (extract_key r.path) ≡ some chain
          → (a : Authenticated) → authenticate s.library chain r.signed ≡ a
          → Result (elim a [
            | rejected user e ↦ (refused 403 signature_does_not_match, [], w, sessions, [])
            | accepted user expected ↦ serve_user s r user expected w sessions
          ])
      inner chain found (rejected user e) k = inl (refused 403 signature_does_not_match, refl)
      inner chain found (accepted user expected) k = inr (
        user,
        chain,
        found,
        ((authenticate-IsSigned_iff s.library chain r.signed user expected).0 k).0,
      )

      go :
          (b : Bool) (o : Option Chain)
          → auth_chain s.handler.auths (extract_key r.path) ≡ o
          → Result (
              if b then (location, [], w, sessions, []) else elim o [
                | none ↦ (refused 400 invalid_request, [], w, sessions, [])
                | some chain ↦ elim (authenticate s.library chain r.signed) [
                  | rejected user e ↦ (refused 403 signature_does_not_match, [], w, sessions, [])
                  | accepted user expected ↦ serve_user s r user expected w sessions
                ]
              ])
      go true o k = inl (location, refl)
      go false none k = inl (refused 400 invalid_request, refl)
      go false (some chain) k = inner chain k (authenticate s.library chain r.signed) refl
