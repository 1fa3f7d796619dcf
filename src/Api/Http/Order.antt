-- ===== src/Api/Http/Order.antt =====
-- The order of what the HTTP protocol does.
use backupgate.Prelude.{
  Bool, true, false, not, Option, none, some, List, [], ◌∷◌, if◌then◌else◌, Bytes, bytes, str_eq,
}
use backupgate.Config.Types.{KeyConfig}
use backupgate.Config.Keys.{resolve_key_config}
use backupgate.Auth.Types.{AuthResult, granted, denied}
use backupgate.Api.Keys.{extract_key}
use backupgate.Api.Handler.{Event, user_set, Handler, authenticate, upload_body, with_key_lock}
use backupgate.Api.Handler.Brackets.{
  IsBracketed, nil-IsBracketed, user_set-IsBracketed, upload_body-run, with_key_lock-IsBracketed,
}
use backupgate.Api.Http.{
  credentials_of, metadata_of, Request, Response, refused, respond, store_body, post_upload,
  serve_http,
}

module _ {W : Type 0} (h : Handler W) where
  abbrev Answer : Type 0
  Answer = Response × List Event × W

  abbrev InOrder : Answer → Type 0
  InOrder a = IsBracketed a.1

  store_body-InOrder : (r : Request) (key : Bytes) (w : W) → InOrder (store_body h r key w)
  unfolding store_body
  store_body-InOrder r key w = go (resolve_key_config h.names h.cfg.keys key)
    where
      go :
          (o : Option KeyConfig)
          → InOrder (elim o [
            | none ↦ (refused 404, [], w)
            | some k ↦
                with_key_lock key
                  (λ v.
                    let (outcome, events, v') = upload_body h key k (metadata_of r) v in
                    (respond outcome, events, v'))
                  w
          ])
      go none = nil-IsBracketed
      go (some k) =
          with_key_lock-IsBracketed key (upload_body h key k (metadata_of r)) w
            (upload_body-run h key k (metadata_of r) w)

  -- Whatever the request and the answer, the lock of the key is released and the buffer is closed; the
  -- pipeline only runs for the key whose lock is held, and on a buffer only while that is open.
  pub serve_http-IsBracketed : (r : Request) (w : W) → IsBracketed (serve_http h r w).1
  unfolding serve_http post_upload
  serve_http-IsBracketed r w =
      go (str_eq r.method (bytes "POST")) (str_eq (extract_key r.path) [])
        (authenticate h (credentials_of r))
    where
      go :
          (a b : Bool) (c : AuthResult)
          → InOrder (
              if not a then (refused 405, [], w) else if b then (refused 400, [], w) else elim c [
                | denied e ↦ (refused 401, [], w)
                | granted u ↦
                    let (response, events, w') = store_body h r (extract_key r.path) w in
                    (response, user_set u ∷ events, w')
              ])
      go false b c = nil-IsBracketed
      go true true c = nil-IsBracketed
      go true false (denied e) = nil-IsBracketed
      go true false (granted u) =
          user_set-IsBracketed u (store_body h r (extract_key r.path) w).1
            (store_body-InOrder r (extract_key r.path) w)
