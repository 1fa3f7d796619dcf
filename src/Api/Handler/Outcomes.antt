-- ===== src/Api/Handler/Outcomes.antt =====
-- What a handler's authentication and its upload of a body have done when they succeed.
use backupgate.Prelude.{
  ◌≡◌, refl, sym, ap, ◌∙◌, ◌≢◌, Bool, true, false, not, Option, none, some, List, [], ◌∷◌, ◌++◌,
  if◌then◌else◌, Bytes, str_eq, str_eq_sound, str_eq_complete,
}
use backupgate.Config.Types.{buffer_off, KeyConfig}
use backupgate.Auth.Types.{AuthRequest, no_providers, granted, denied}
use backupgate.Auth.Chain.{Chain, FirstGrants, authenticate-FirstGrants_iff}
use backupgate.Auth.Chain
use backupgate.Pipeline.Types.{UploadMetadata, UploadResult, Result, ok}
use backupgate.Pipeline.Process.{process}
use backupgate.Api.Keys.{auth_chain}
use backupgate.Api.Handler.{
  Body, streaming, buffered, Event, opened, closed, Handler, Outcome, no_buffer, unread, finished,
  authenticate, process_body, upload_body,
}

module _ {W : Type 0} (h : Handler W) where
  -- A request is granted only by the chain of its key, and there by the first provider that does.
  pub authenticate-FirstGrants :
      (req : AuthRequest) (u : Bytes)
      → authenticate h req ≡ granted u
      → (chain : Chain) × (auth_chain h.auths req.key ≡ some chain) × FirstGrants req u chain
  unfolding authenticate
  authenticate-FirstGrants req u e = go (auth_chain h.auths req.key) refl e
    where
      go :
          (o : Option Chain)
          → auth_chain h.auths req.key ≡ o
          → elim o [ none ↦ denied no_providers | some c ↦ Chain.authenticate c req ] ≡ granted u
          → (chain : Chain) × (auth_chain h.auths req.key ≡ some chain) × FirstGrants req u chain
      go none k t = cc
      go (some c) k t = (c, k, (authenticate-FirstGrants_iff c req u).0 t)

  -- The pipeline is given the body of the request in the state `v`: the body itself, or a buffer that
  -- the whole body was copied to.
  abbrev pub Given : Bytes → KeyConfig → UploadMetadata → W → Body → W → Type 0
  Given key k m w streaming v = (k.buffer_mode ≡ buffer_off) × (v ≡ w)
  Given key k m w buffered v =
      (k.buffer_mode ≢ buffer_off)
      × (u : W) × (h.new_upload_reader w key m.content_length ≡ (true, u))
      × (h.copy_body u ≡ (true, v))

  -- What the handler does behind the pipeline, which leaves the state `v`.
  abbrev pub Left : Body → W → W → Type 0
  Left streaming v w' = w' ≡ v
  Left buffered v w' = w' ≡ h.close_buffer v

  -- A body that is uploaded went through the pipeline.
  pub upload_body-process :
      (key : Bytes) (k : KeyConfig) (m : UploadMetadata) (w w' : W) (r : UploadResult)
      (events : List Event)
      → upload_body h key k m w ≡ (finished (ok r), events, w')
      → (body : Body) × (v : W) × (v' : W) × Given key k m w body v
        × Left body v' w'
        × (process (h.pipeline body) h.names h.cfg key m v ≡ (ok r, v'))
  unfolding upload_body process_body
  upload_body-process key k m w w' r events e =
      go (str_eq k.buffer_mode buffer_off) refl (h.new_upload_reader w key m.content_length).0 refl
        (h.copy_body (h.new_upload_reader w key m.content_length).1).0 refl e
    where
      finished_inj : {a b : Result UploadResult} → finished a ≡ finished b → a ≡ b
      finished_inj t = cc

      w₁ : W
      w₁ = (h.new_upload_reader w key m.content_length).1

      w₂ : W
      w₂ = (h.copy_body w₁).1

      go :
          (off : Bool)
          → str_eq k.buffer_mode buffer_off ≡ off
          → (made : Bool) → (h.new_upload_reader w key m.content_length).0 ≡ made
          → (copied : Bool) → (h.copy_body w₁).0 ≡ copied
          → ◌≡◌ {A = Outcome × List Event × W}
              (if off
                then (let (result, es, v) = process_body h streaming key k m w in
                    (finished result, es, v))
                else (if not made
                    then (no_buffer, [], w₁)
                    else (if not copied
                        then (unread, opened ∷ closed ∷ [], h.close_buffer w₂)
                        else (let (result, es, v) = process_body h buffered key k m w₂ in
                            (finished result, opened ∷ (es ++ (closed ∷ [])), h.close_buffer v)))))
              (finished (ok r), events, w')
          → (body : Body) × (v : W) × (v' : W) × Given key k m w body v
            × Left body v' w'
            × (process (h.pipeline body) h.names h.cfg key m v ≡ (ok r, v'))
      go true p made q copied s t =
          let result = process (h.pipeline streaming) h.names h.cfg key m w in
          (
            streaming,
            w,
            result.1,
            (str_eq_sound k.buffer_mode buffer_off p, refl),
            ap (λ x. x.2) (sym t),
            ap (λ x. (x, result.1)) (finished_inj (ap (λ x. x.0) t)),
          )
      go false p false q copied s t = cc
      go false p true q false s t = cc
      go false p true q true s t =
          let result = process (h.pipeline buffered) h.names h.cfg key m w₂ in
          (
            buffered,
            w₂,
            result.1,
            (apart p, w₁, ap (λ x. (x, w₁)) q, ap (λ x. (x, w₂)) s),
            ap (λ x. x.2) (sym t),
            ap (λ x. (x, result.1)) (finished_inj (ap (λ x. x.0) t)),
          )
        where
          apart : str_eq k.buffer_mode buffer_off ≡ false → k.buffer_mode ≢ buffer_off
          apart n y =
              let absurd : false ≡ true = sym n ∙ str_eq_complete k.buffer_mode buffer_off y in cc
