-- ===== src/Api/Http/Uploads.antt =====
-- What a response of the HTTP protocol says.
use backupgate.Prelude.{
  ℕ, ◌≡◌, refl, sym, ap, ◌∙◌, ◌≢◌, ◌⊎◌, inl, inr, Bool, true, false, not, Option, none, some, List,
  [], ◌∷◌, if◌then◌else◌, Bytes, bytes, str_eq, str_eq_sound, str_eq_complete,
}
use backupgate.Config.Types.{KeyConfig}
use backupgate.Config.Keys.{find_key, names, resolve_key_config}
use backupgate.Config.Keys.Choice.{Chosen}
use backupgate.Storage.Backend.{IsBackend}
use backupgate.Auth.Types.{AuthResult, granted, denied}
use backupgate.Auth.Chain.{Chain, FirstGrants}
use backupgate.Pipeline.Types.{UploadResult, ok, err}
use backupgate.Pipeline.Process.{process}
use backupgate.Pipeline.Process.Served.{Delivered, process_with-Delivered, process-resolved}
use backupgate.Config.Keys.Resolve.{resolve_key_config-Chosen}
use backupgate.Api.Keys.{extract_key, auth_chain}
use backupgate.Api.Handler.{
  Body, Event, user_set, Handler, Outcome, no_buffer, unread, finished, authenticate, upload_body,
  with_key_lock,
}
use backupgate.Api.Handler.Outcomes.{Given, Left, upload_body-process, authenticate-FirstGrants}
use backupgate.Api.Http.{
  credentials_of, metadata_of, Request, Response, refused, created, respond, store_body,
  post_upload, serve_http,
}

module _ {W : Type 0} (h : Handler W) where
  abbrev Answer : Type 0
  Answer = Response × List Event × W

  -- What the answers of `serve_http` are.
  abbrev Served : Request → W → Answer → Type 0
  Served r w a =
      (u : Bytes) × (r.method ≡ bytes "POST")
      × (extract_key r.path ≢ [])
      × (authenticate h (credentials_of r) ≡ granted u)
      × (a ≡ (
        (store_body h r (extract_key r.path) w).0,
        user_set u ∷ (store_body h r (extract_key r.path) w).1,
        (store_body h r (extract_key r.path) w).2,
      ))

  serve_http-cases :
      (r : Request) (w : W)
      → ((status : ℕ) × (serve_http h r w ≡ (refused status, [], w)))
        ⊎ Served r w (serve_http h r w)
  unfolding serve_http post_upload
  serve_http-cases r w =
      go (str_eq r.method (bytes "POST")) refl (str_eq (extract_key r.path) []) refl
        (authenticate h (credentials_of r)) refl
    where
      key : Bytes
      key = extract_key r.path

      nonempty : str_eq key [] ≡ false → key ≢ []
      nonempty e t = let absurd : false ≡ true = sym e ∙ str_eq_complete key [] t in cc

      go :
          (a : Bool)
          → str_eq r.method (bytes "POST") ≡ a
          → (b : Bool) → str_eq key [] ≡ b
          → (c : AuthResult) → authenticate h (credentials_of r) ≡ c
          → let answer : Answer =
              (if not a then (refused 405, [], w) else if b then (refused 400, [], w) else elim c [
                | denied e ↦ (refused 401, [], w)
                | granted u ↦
                    let (response, events, w') = store_body h r key w in
                    (response, user_set u ∷ events, w')
              ]) in
            ((status : ℕ) × ◌≡◌ {A = Answer} answer (refused status, [], w)) ⊎ Served r w answer
      go false e b f c k = inl (405, refl)
      go true e true f c k = inl (400, refl)
      go true e false f (denied x) k = inl (401, refl)
      go true e false f (granted u) k =
          inr (u, str_eq_sound r.method (bytes "POST") e, nonempty f, k, refl)

  -- What a body of the request that is stored under the key was: the entry `k` was resolved, the
  -- pipeline was given the body, and it returned the result, from which the state `w'` comes.
  abbrev pub Ran : Request → Bytes → KeyConfig → W → W → UploadResult → Body → W → W → Type 0
  Ran r key k w w' result body v v' =
      Given h key k (metadata_of r) w body v
      × Left h body v' w'
      × (process (h.pipeline body) h.names h.cfg key (metadata_of r) v ≡ (ok result, v'))

  abbrev Processed : Request → Bytes → W → W → UploadResult → Type 0
  Processed r key w w' result =
      (k : KeyConfig) × (resolve_key_config h.names h.cfg.keys key ≡ some k)
      × (body : Body) × (v : W) × (v' : W) × Ran r key k w w' result body v v'

  store_body-process :
      (r : Request) (key : Bytes) (w w' : W) (result : UploadResult) (events : List Event)
      → store_body h r key w ≡ (created result, events, w')
      → Processed r key w w' result
  unfolding store_body respond
  store_body-process r key w w' result events e =
      go (resolve_key_config h.names h.cfg.keys key) refl e
    where
      reply : (o : Outcome) → respond o ≡ created result → o ≡ finished (ok result)
      reply no_buffer t = cc
      reply unread t = cc
      reply (finished (err x)) t = cc
      reply (finished (ok x)) t = let same : x ≡ result = cc in ap (λ y. finished (ok y)) same

      go :
          (o : Option KeyConfig)
          → resolve_key_config h.names h.cfg.keys key ≡ o
          → ◌≡◌ {A = Answer}
              (elim o [
                | none ↦ (refused 404, [], w)
                | some k ↦
                    with_key_lock key
                      (λ v.
                        let (outcome, es, v') = upload_body h key k (metadata_of r) v in
                        (respond outcome, es, v'))
                      w
              ])
              (created result, events, w')
          → Processed r key w w' result
      go none f t = cc
      go (some k) f t =
          let body = upload_body h key k (metadata_of r) w in
          let (reader, v, v', given, left, ran) =
            upload_body-process h key k (metadata_of r) w w' result body.1 (
              ap (λ o. (o, body.1, body.2)) (reply body.0 (ap (λ a. a.0) t))
              ∙ ap (λ x. (finished (ok result), body.1, x)) (ap (λ a. a.2) t)) in
          (k, f, reader, v, v', (given, left, ran))

  -- A request does nothing, and is refused, unless it is a POST for a key, whose authentication chain
  -- grants access to it with the credentials of the request.
  pub serve_http-guarded :
      (r : Request) (w : W)
      → ((status : ℕ) × (serve_http h r w ≡ (refused status, [], w)))
        ⊎ ((u : Bytes) × (chain : Chain) × (r.method ≡ bytes "POST")
            × (extract_key r.path ≢ [])
            × (auth_chain h.auths (extract_key r.path) ≡ some chain)
            × FirstGrants (credentials_of r) u chain)
  serve_http-guarded r w = elim (serve_http-cases r w) [
    | inl nothing ↦ inl nothing
    | inr (u, post, some_key, grants, answer) ↦
        let (chain, configured, first) = authenticate-FirstGrants h (credentials_of r) u grants in
        inr (u, chain, post, some_key, configured, first)
  ]

  serve_http-process :
      (r : Request) (w w' : W) (result : UploadResult) (events : List Event)
      → serve_http h r w ≡ (created result, events, w')
      → (u : Bytes) × (authenticate h (credentials_of r) ≡ granted u)
        × Processed r (extract_key r.path) w w' result
  serve_http-process r w w' result events e = elim (serve_http-cases r w) [
    | inl (status, nothing) ↦
        let absurd : refused status ≡ created result = ap (λ a. a.0) (sym nothing ∙ e) in cc
    | inr (u, post, some_key, grants, answer) ↦
        let key = extract_key r.path in
        let stored = store_body h r key w in
        (
          u,
          grants,
          store_body-process r key w w' result stored.1
              (ap (λ a. (a.0, stored.1, a.2)) (sym answer ∙ e)),
        )
  ]

  -- With backends that keep their contract and digests that are never empty, 201 is answered only if a
  -- provider of the key's chain granted access, and the pipeline, in the mode of the entry of the key
  -- that the matching rules choose, was given the body of the request, or a buffer that the whole body
  -- was copied to, and returned the result that is answered, with the state that the answer leaves,
  -- but for the close of the buffer. The digests answered are those of the payload that the pipeline
  -- read. If the entry asks for verification, there was a state, after which only the rotation ran in
  -- the pipeline, in which the remote file at the path answered had the digest that `X-Backup-SHA256`
  -- announced, or that of the payload without it.
  pub serve_http-created :
      (remote : W → Bytes → Option Bytes)
      → (is : (body : Body) → IsBackend (h.pipeline body).backend remote)
      → ((body : Body) (c : Bytes) → (h.pipeline body).sha256_hex c ≢ [])
      → (r : Request) (w w' : W) (result : UploadResult) (events : List Event)
      → serve_http h r w ≡ (created result, events, w')
      → (u : Bytes) × (chain : Chain) × (auth_chain h.auths (extract_key r.path) ≡ some chain)
        × FirstGrants (credentials_of r) u chain
        × (n : Bytes) × (k : KeyConfig) × Chosen (names h.cfg.keys) (extract_key r.path) n
        × (find_key n h.cfg.keys ≡ some k)
        × (body : Body) × (v : W) × (v' : W) × Ran r (extract_key r.path) k w w' result body v v'
        × Delivered
            (h.pipeline body)
            remote
            (is body)
            (extract_key r.path)
            k
            (metadata_of r)
            v
            v'
            result
  serve_http-created remote is digests r w w' result events e =
      let key = extract_key r.path in
      let (u, grants, (k, resolved, body, v, v', (given, left, ran))) =
        serve_http-process r w w' result events e in
      let (chain, configured, first) = authenticate-FirstGrants h (credentials_of r) u grants in
      let (n, chosen, entry) = resolve_key_config-Chosen h.names h.cfg.keys key in
      (
        u,
        chain,
        configured,
        first,
        n,
        k,
        chosen,
        sym entry ∙ resolved,
        body,
        v,
        v',
        (given, left, ran),
        process_with-Delivered (h.pipeline body) remote (is body) key k (metadata_of r) v v' result
            (digests body)
            (sym (
                process-resolved (h.pipeline body) remote (is body) h.names h.cfg key
                  (metadata_of r) v k resolved)
              ∙ ran),
      )
