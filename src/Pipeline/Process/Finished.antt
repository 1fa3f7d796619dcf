-- ===== src/Pipeline/Process/Finished.antt =====
-- internal/pipeline/pipeline.go: the last steps of an upload that succeeds, in every buffer mode.
use backupgate.Prelude.{
  ◌≡◌, refl, sym, ap, ap₂, ◌∙◌, subst, Bool, true, false, ◌&&◌, Option, none, some, if◌then◌else◌,
  length, Bytes,
}
use backupgate.Prelude.Int.{ℤ, pos, wrap64}
use backupgate.Config.Types.{KeyConfig}
use backupgate.Storage.Backend.{StoreError}
use backupgate.Pipeline.Types.{
  UploadMetadata, UploadResult, Env, Result, ok, err, ◌>>=◌, give, fail, bind-ok,
  verification_failed, upload_failed,
}
use backupgate.Pipeline.Upload.{upload_with_retry}
use backupgate.Pipeline.Process.{
  max_retries, PayloadDigests, rotation_dir, generate_storage_path, hash_upload_reader,
  apply_rotation, mismatches, expected_hash, verify_if, announced_size, store, process_buffered,
  upload_hashing, finish_off, process_off,
}

module _ {W : Type 0} (env : Env W) where
  -- What `processOff` returns.
  abbrev off_result : Bytes → UploadMetadata → Bytes → Bool → UploadResult
  off_result key m read b = record {
    key = key;
    size = wrap64 (pos (length read));
    sha256 = env.sha256_hex read;
    md5 = env.md5_hex read;
    storage_path = generate_storage_path env key;
    verified = b;
  }

  -- The verification, if it is asked for, and then the rotation have succeeded, and the result says
  -- so. The states `u` and `v` are those before and after the verification.
  abbrev pub Finished : Bytes → KeyConfig → UploadMetadata → UploadResult → W → Type 0
  Finished key k m r w' =
      (size : ℤ) × (u : W) × (v : W) × (r.storage_path ≡ generate_storage_path env key)
      × (verify_if env k.verification r.storage_path (expected_hash env m r.sha256) size u
          ≡ (ok r.verified, v))
      × (apply_rotation env (rotation_dir env key) k v ≡ (ok tt, w'))

  pub ok-inj :
      {A : Type 0} {a b : A} {v w : W}
      → ◌≡◌ {A = Result A × W} (ok a, v) (ok b, w)
      → (b ≡ a) × (v ≡ w)
  ok-inj h = (cc, ap (λ q. q.1) h)

  -- The last three steps, which the modes share.
  ending :
      (path hash dir : Bytes) (k : KeyConfig) (size : ℤ) (make : Bool → UploadResult) (u w' : W)
      → (r : UploadResult)
      → ◌>>=◌
          (verify_if env k.verification path hash size)
          (λ verified. ◌>>=◌ (apply_rotation env dir k) (λ _. give (make verified)))
          u
        ≡ (ok r, w')
      → (b : Bool) × (v : W) × (r ≡ make b)
        × (verify_if env k.verification path hash size u ≡ (ok b, v))
        × (apply_rotation env dir k v ≡ (ok tt, w'))
  ending path hash dir k size make u w' r h =
      let (b, v, checked, rest) =
        bind-ok (verify_if env k.verification path hash size)
          (λ verified. ◌>>=◌ (apply_rotation env dir k) (λ _. give (make verified))) u r w' h in
      let (t, x, rotated, made) =
        bind-ok (apply_rotation env dir k) (λ _. give (make b)) v r w' rest in
      (b, v, (ok-inj made).0, checked, rotated ∙ ap (λ y. (ok tt, y)) (ok-inj made).1)

  pub store-Finished :
      (key : Bytes) (k : KeyConfig) (m : UploadMetadata) (d : PayloadDigests) (w w' : W)
      → (r : UploadResult) → store env key k m d w ≡ (ok r, w')
      → Finished key k m r w' × (r.sha256 ≡ d.sha256) × (r.md5 ≡ d.md5)
  unfolding store
  store-Finished key k m d w w' r h =
      let path = generate_storage_path env key in
      let size = announced_size env m (env.body_size w) in
      let hash = expected_hash env m d.sha256 in
      let make : Bool → UploadResult = λ b. record {
        key = key;
        size = size;
        sha256 = d.sha256;
        md5 = d.md5;
        storage_path = path;
        verified = b;
      } in
      let (_, u, _, rest) =
        bind-ok (upload_with_retry env max_retries path size)
          (λ _. ◌>>=◌ (verify_if env k.verification path hash size) (λ verified.
            ◌>>=◌ (apply_rotation env (rotation_dir env key) k) (λ _. give (make verified))))
          w r w' h in
      let (b, v, made, checked, rotated) =
        ending path hash (rotation_dir env key) k size make u w' r rest in
      (
        (
          size,
          u,
          v,
          ap (λ y. y.storage_path) made,
          subst
              (λ y.
                verify_if env k.verification y.storage_path (expected_hash env m y.sha256) size u
                ≡ (ok y.verified, v))
              (sym made) checked,
          rotated,
        ),
        ap (λ y. y.sha256) made,
        ap (λ y. y.md5) made,
      )

  -- An upload through the whole buffer: what was hashed before.
  pub process_buffered-Finished :
      (key : Bytes) (k : KeyConfig) (m : UploadMetadata) (reject : Bool) (w w' : W)
      → (r : UploadResult) → process_buffered env key k m reject w ≡ (ok r, w')
      → Finished key k m r w'
        × (mismatches env m r.sha256 && reject ≡ false)
        × (d : PayloadDigests) × (v : W) × (hash_upload_reader env w ≡ (ok d, v))
        × (r.sha256 ≡ d.sha256)
        × (r.md5 ≡ d.md5)
  unfolding process_buffered
  process_buffered-Finished key k m reject w w' r h =
      let (d, v, hashed, rest) =
        bind-ok (hash_upload_reader env)
          (λ digests.
            if mismatches env m digests.sha256 && reject
            then fail verification_failed
            else store env key k m digests)
          w r w' h in
      tail d v hashed (mismatches env m d.sha256 && reject) refl rest
    where
      tail :
          (d : PayloadDigests) (v : W)
          → hash_upload_reader env w ≡ (ok d, v)
          → (b : Bool) → mismatches env m d.sha256 && reject ≡ b
          → (if b then fail verification_failed else store env key k m d) v ≡ (ok r, w')
          → Finished key k m r w'
            × (mismatches env m r.sha256 && reject ≡ false)
            × (d' : PayloadDigests) × (v' : W) × (hash_upload_reader env w ≡ (ok d', v'))
            × (r.sha256 ≡ d'.sha256)
            × (r.md5 ≡ d'.md5)
      tail d v hashed true e t = cc
      tail d v hashed false e t =
          let (finished, same, same_md5) = store-Finished key k m d v w' r t in
          (finished, ap (λ y. mismatches env m y && reject) same ∙ e, d, v, hashed, same, same_md5)

  upload_hashing-hashing_upload :
      (path : Bytes) (n : ℤ) (w : W) (read : Bytes) (v : W)
      → upload_hashing env path n w ≡ (ok read, v)
      → env.hashing_upload w path n ≡ (none, read, v)
  unfolding upload_hashing
  upload_hashing-hashing_upload path n w read v h = go (env.hashing_upload w path n) refl h
    where
      go :
          (q : Option StoreError × Bytes × W)
          → env.hashing_upload w path n ≡ q
          → ◌≡◌ {A = Result Bytes × W}
              (elim q.0 [ none ↦ (ok q.1, q.2) | some e ↦ (err (upload_failed e), q.2) ])
              (ok read, v)
          → env.hashing_upload w path n ≡ (none, read, v)
      go (none, x, u) e t = e ∙ ap₂ (λ y z. (none, y, z)) (sym (ok-inj t).0) (ok-inj t).1
      go (some x, y, u) e t = cc

  -- An upload of a stream: what the backend read is what was hashed.
  pub process_off-Finished :
      (key : Bytes) (k : KeyConfig) (m : UploadMetadata) (w w' : W)
      → (r : UploadResult) → process_off env key k m w ≡ (ok r, w')
      → Finished key k m r w'
        × (mismatches env m r.sha256 ≡ false)
        × (read : Bytes) × (v : W) × (env.hashing_upload w
              (generate_storage_path env key)
              m.content_length
            ≡ (none, read, v))
        × (r.sha256 ≡ env.sha256_hex read)
        × (r.md5 ≡ env.md5_hex read)
        × (r.size ≡ wrap64 (pos (length read)))
  unfolding process_off finish_off
  process_off-Finished key k m w w' r h =
      let path = generate_storage_path env key in
      let (read, v, sent, rest) =
        bind-ok (upload_hashing env path m.content_length) (λ x. finish_off env key k m path x) w r
          w' h in
      tail read v (upload_hashing-hashing_upload path m.content_length w read v sent)
        (mismatches env m (env.sha256_hex read)) refl rest
    where
      tail :
          (read : Bytes) (v : W)
          → env.hashing_upload w (generate_storage_path env key) m.content_length ≡ (none, read, v)
          → (b : Bool) → mismatches env m (env.sha256_hex read) ≡ b
          → (if b
                then fail verification_failed
                else ◌>>=◌
                    (verify_if env k.verification
                      (generate_storage_path env key)
                      (expected_hash env m (env.sha256_hex read))
                      (wrap64 (pos (length read))))
                    (λ verified.
                      ◌>>=◌
                        (apply_rotation env (rotation_dir env key) k)
                        (λ _. give (off_result key m read verified))))
              v
            ≡ (ok r, w')
          → Finished key k m r w'
            × (mismatches env m r.sha256 ≡ false)
            × (read' : Bytes) × (v' : W) × (env.hashing_upload w
                  (generate_storage_path env key)
                  m.content_length
                ≡ (none, read', v'))
            × (r.sha256 ≡ env.sha256_hex read')
            × (r.md5 ≡ env.md5_hex read')
            × (r.size ≡ wrap64 (pos (length read')))
      tail read v sent true e t = cc
      tail read v sent false e t =
          let path = generate_storage_path env key in
          let size = wrap64 (pos (length read)) in
          let hash = expected_hash env m (env.sha256_hex read) in
          let (b, v', made, checked, rotated) =
            ending path hash (rotation_dir env key) k size (off_result key m read) v w' r t in
          (
            (
              size,
              v,
              v',
              ap (λ y. y.storage_path) made,
              subst
                  (λ y.
                    verify_if env k.verification y.storage_path (expected_hash env m y.sha256) size
                      v
                    ≡ (ok y.verified, v'))
                  (sym made) checked,
              rotated,
            ),
            ap (λ y. mismatches env m y.sha256) made ∙ e,
            read,
            v,
            sent,
            ap (λ y. y.sha256) made,
            ap (λ y. y.md5) made,
            ap (λ y. y.size) made,
          )
