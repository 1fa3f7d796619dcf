-- ===== src/Pipeline/Process/Payload.antt =====
-- internal/pipeline/pipeline.go: the payload of an upload that succeeds, and its digests.
use backupgate.Prelude.{
  ℕ, ◌≡◌, refl, sym, ap, ap₂, ◌∙◌, ◌≢◌, ◌⊎◌, inl, inr, Bool, true, false, ◌&&◌, Option, none, some,
  if◌then◌else◌, Bytes, str_eq, str_eq_sound,
}
use backupgate.Config.Types.{fully_immediately, fully_complete, buffer_off, KeyConfig}
use backupgate.Pipeline.Types.{
  UploadMetadata, UploadResult, Env, Result, ok, err, ◌>>=◌, give, fail, bind-ok,
  unknown_buffer_mode, seek_failed, read_failed,
}
use backupgate.Pipeline.Process.{
  PayloadDigests, generate_storage_path, rewind, copy_to_hashers, hash_upload_reader, mismatches,
  process_buffered, process_off, process_with,
}
use backupgate.Pipeline.Process.Finished.{
  Finished, ok-inj, process_buffered-Finished, process_off-Finished,
}

fully_immediately-off : fully_immediately ≢ buffer_off
unfolding str_eq
fully_immediately-off e = let absurd : true ≡ false = ap (λ x. str_eq x fully_immediately) e in cc

fully_complete-off : fully_complete ≢ buffer_off
unfolding str_eq
fully_complete-off e = let absurd : true ≡ false = ap (λ x. str_eq x fully_complete) e in cc

module _ {W : Type 0} (env : Env W) where
  -- The body's reader is at its start, where it can be moved there.
  abbrev pub IsRewound : W → W → Type 0
  IsRewound w u =
      ((env.is_seeker ≡ true) × (env.seek_start w ≡ (none, u)))
      ⊎ ((env.is_seeker ≡ false) × (u ≡ w))

  -- `read` is the payload of an upload from the state `w` on: all that io.Copy read of the body,
  -- from its start if it can seek, or without a buffer what the backend read of the body while it
  -- stored it.
  abbrev pub IsPayload : Bytes → KeyConfig → UploadMetadata → W → Bytes → Type 0
  IsPayload key k m w read =
      ((k.buffer_mode ≢ buffer_off)
        × (u : W) × (v : W) × IsRewound w u
        × (env.read_all u ≡ (read, none, v)))
      ⊎ ((k.buffer_mode ≡ buffer_off)
          × (v : W) × (env.hashing_upload w (generate_storage_path env key) m.content_length
              ≡ (none, read, v)))

  -- The digests of a result are those of the payload.
  abbrev pub IsDigested : UploadResult → Bytes → Type 0
  IsDigested r read = (r.sha256 ≡ env.sha256_hex read) × (r.md5 ≡ env.md5_hex read)

  rewind-IsRewound : (w u : W) (x : Unit {0}) → rewind env w ≡ (ok x, u) → IsRewound w u
  unfolding rewind
  rewind-IsRewound w u x h = go env.is_seeker refl (env.seek_start w) refl h
    where
      go :
          (b : Bool)
          → env.is_seeker ≡ b
          → (q : Option ℕ × W) → env.seek_start w ≡ q
          → ◌≡◌ {A = Result (Unit {0}) × W}
              (if b
                then elim q.0 [ none ↦ (ok tt, q.1) | some e ↦ (err (seek_failed e), q.1) ]
                else (ok tt, w))
              (ok x, u)
          → IsRewound w u
      go true b (none, v) f t = inl (b, f ∙ ap (λ y. (none, y)) (ap (λ y. y.1) t))
      go true b (some e, v) f t = cc
      go false b q f t = inr (b, sym (ap (λ y. y.1) t))

  copy_to_hashers-read :
      (w v : W) (read : Bytes)
      → copy_to_hashers env w ≡ (ok read, v)
      → env.read_all w ≡ (read, none, v)
  unfolding copy_to_hashers
  copy_to_hashers-read w v read h = go (env.read_all w) refl h
    where
      go :
          (q : Bytes × Option ℕ × W)
          → env.read_all w ≡ q
          → ◌≡◌ {A = Result Bytes × W}
              (elim q.1 [ none ↦ (ok q.0, q.2) | some e ↦ (err (read_failed e), q.2) ])
              (ok read, v)
          → env.read_all w ≡ (read, none, v)
      go (x, none, u) e t = e ∙ ap₂ (λ y z. (y, none, z)) (sym (ok-inj env t).0) (ok-inj env t).1
      go (x, some y, u) e t = cc

  -- The digests of what `io.Copy` read from the start of the body.
  hash_upload_reader-read :
      (w : W) (d : PayloadDigests) (v : W)
      → hash_upload_reader env w ≡ (ok d, v)
      → (read : Bytes) × (u : W) × (x : W) × IsRewound w u
        × (env.read_all u ≡ (read, none, x))
        × (d.sha256 ≡ env.sha256_hex read)
        × (d.md5 ≡ env.md5_hex read)
  unfolding hash_upload_reader
  hash_upload_reader-read w d v h =
      let (t, w₁, began, rest) =
        bind-ok (rewind env)
          (λ _. ◌>>=◌ (copy_to_hashers env) (λ read.
            ◌>>=◌ (rewind env)
              (λ _. give (record { sha256 = env.sha256_hex read; md5 = env.md5_hex read }))))
          w d v h in
      let (read, w₂, copied, rest') =
        bind-ok (copy_to_hashers env)
          (λ read.
            ◌>>=◌ (rewind env)
              (λ _. give (record { sha256 = env.sha256_hex read; md5 = env.md5_hex read })))
          w₁ d v rest in
      let (_, w₃, _, rest'') =
        bind-ok (rewind env)
          (λ _. give (record { sha256 = env.sha256_hex read; md5 = env.md5_hex read })) w₂ d v
          rest' in
      (
        read,
        w₁,
        w₂,
        rewind-IsRewound w w₁ t began,
        copy_to_hashers-read w₁ w₂ read copied,
        ap (λ y. y.sha256) (ok-inj env rest'').0,
        ap (λ y. y.md5) (ok-inj env rest'').0,
      )

  not_off :
      (mode : Bytes) → (mode ≡ fully_immediately) ⊎ (mode ≡ fully_complete) → mode ≢ buffer_off
  not_off mode (inl h) e = fully_immediately-off (sym h ∙ e)
  not_off mode (inr h) e = fully_complete-off (sym h ∙ e)

  -- The payload of an upload through the whole buffer.
  buffered-IsPayload :
      (key : Bytes) (k : KeyConfig) (m : UploadMetadata) (w v : W) (d : PayloadDigests)
      (r : UploadResult)
      → (k.buffer_mode ≡ fully_immediately) ⊎ (k.buffer_mode ≡ fully_complete)
      → hash_upload_reader env w ≡ (ok d, v)
      → r.sha256 ≡ d.sha256
      → r.md5 ≡ d.md5
      → (read : Bytes) × IsPayload key k m w read × IsDigested r read
  buffered-IsPayload key k m w v d r mode hashed sha md5 =
      let (read, u, x, rewound, all_read, a, b) = hash_upload_reader-read w d v hashed in
      (read, inl (not_off k.buffer_mode mode, u, x, rewound, all_read), (sha ∙ a, md5 ∙ b))

  -- The last steps of an upload that succeeds, whatever the mode; an upload that is not
  -- FULLY_IMMEDIATELY has also passed the comparison of the digests.
  pub process_with-Finished :
      (key : Bytes) (k : KeyConfig) (m : UploadMetadata) (w w' : W) (r : UploadResult)
      → process_with env k key m w ≡ (ok r, w')
      → Finished env key k m r w'
        × ((mismatches env m r.sha256 ≡ false) ⊎ (k.buffer_mode ≡ fully_immediately))
        × (read : Bytes) × IsPayload key k m w read
        × IsDigested r read
  unfolding process_with
  process_with-Finished key k m w w' r h =
      go (str_eq k.buffer_mode fully_immediately) refl (str_eq k.buffer_mode fully_complete) refl
        (str_eq k.buffer_mode buffer_off) refl h
    where
      go :
          (a : Bool)
          → str_eq k.buffer_mode fully_immediately ≡ a
          → (b : Bool) → str_eq k.buffer_mode fully_complete ≡ b
          → (c : Bool) → str_eq k.buffer_mode buffer_off ≡ c
          → (if a
                then process_buffered env key k m false
                else if b
                then process_buffered env key k m true
                else if c
                then process_off env key k m
                else fail (unknown_buffer_mode k.buffer_mode))
              w
            ≡ (ok r, w')
          → Finished env key k m r w'
            × ((mismatches env m r.sha256 ≡ false) ⊎ (k.buffer_mode ≡ fully_immediately))
            × (read : Bytes) × IsPayload key k m w read
            × IsDigested r read
      go true e b f c g t =
          let (finished, _, d, v, hashed, sha, md5) =
            process_buffered-Finished env key k m false w w' r t in
          let mode = str_eq_sound k.buffer_mode fully_immediately e in
          let (read, payload, digested) =
            buffered-IsPayload key k m w v d r (inl mode) hashed sha md5 in
          (finished, inr mode, read, payload, digested)
      go false e true f c g t =
          let (finished, same, d, v, hashed, sha, md5) =
            process_buffered-Finished env key k m true w w' r t in
          let mode = str_eq_sound k.buffer_mode fully_complete f in
          let (read, payload, digested) =
            buffered-IsPayload key k m w v d r (inr mode) hashed sha md5 in
          (finished, inl (and_true _ same), read, payload, digested)
        where
          and_true : (b : Bool) → (b && true) ≡ false → b ≡ false
          and_true false s = refl
          and_true true s = s
      go false e false f true g t =
          let (finished, same, read, v, sent, sha, md5, _) =
            process_off-Finished env key k m w w' r t in
          let off = str_eq_sound k.buffer_mode buffer_off g in
          (finished, inl same, read, inr (off, v, sent), (sha, md5))
      go false e false f false g t = cc
