-- ===== src/Pipeline/Process.antt =====
-- internal/pipeline/pipeline.go: the whole upload of a body under a key, in each buffer mode.
pub mod Tests
pub mod Finished
pub mod Payload
pub mod Checked
pub mod Served
pub mod Sftp
use backupgate.Prelude.{
  ℕ, Bool, true, false, not, ◌&&◌, Option, none, some, [], ◌∷◌, ◌++◌, reverse, ◌==◌, if◌then◌else◌,
  length, Bytes, bytes, str_eq,
}
use backupgate.Prelude.Int.{ℤ, pos, ltb_ℤ, leb_ℤ, wrap64}
use backupgate.Config.Types.{
  fully_immediately, fully_complete, buffer_off, RotationConfig, KeyConfig, Config,
}
use backupgate.Config.Keys.{resolve_key_config}
use backupgate.Sort.{SortSlice}
use backupgate.Rotation.{apply}
use backupgate.Pipeline.Types.{
  UploadMetadata, UploadResult, Env, M, ok, err, ◌>>=◌, give, fail, no_configuration,
  verification_failed, bad_duration, unknown_buffer_mode, seek_failed, read_failed, upload_failed,
  rotation_failed,
}
use backupgate.Pipeline.Upload.{upload_with_retry, verify_and_retransmit}

-- `maxRetries`
abbrev pub max_retries : ℕ
max_retries = 1

-- `MaxAgeDuration`
pub max_age_duration : (Bytes → Option ℤ) → RotationConfig → Option ℤ
max_age_duration parse r = if str_eq r.max_age [] then some (pos 0) else parse r.max_age

-- `strings.TrimLeft(s, "/")`
pub trim_left : Bytes → Bytes
trim_left [] = []
trim_left (c ∷ s) = let rest = trim_left s in if c == b'/' then rest else c ∷ s

-- `strings.Trim(s, "/")`
pub trim : Bytes → Bytes
unfolding trim_left
trim s = reverse (trim_left (reverse (trim_left s)))

-- `payloadDigests`
pub record PayloadDigests : Type 0 where
  pub sha256 : Bytes
  pub md5 : Bytes

module _ {W : Type 0} (env : Env W) where
  -- `rotationDir`
  pub rotation_dir : Bytes → Bytes
  rotation_dir key = env.path_dir (trim (env.path_clean (b'/' ∷ key)))

  -- `generateStoragePath`
  pub generate_storage_path : Bytes → Bytes
  unfolding rotation_dir
  generate_storage_path key =
      let clean_key = trim (env.path_clean (b'/' ∷ key)) in
      let name = env.timestamp ++ (b'_' ∷ env.path_base clean_key) in
      let dir = rotation_dir clean_key in
      if str_eq dir (bytes ".") then name else env.path_join dir name

  -- `seeker.Seek(0, io.SeekStart)`, where the reader is a seeker.
  pub rewind : M W (Unit {0})
  rewind w =
      if env.is_seeker
      then (let (failure, w') = env.seek_start w in
          elim failure [ none ↦ (ok tt, w') | some e ↦ (err (seek_failed e), w') ])
      else (ok tt, w)

  -- `io.Copy` into both hashers.
  pub copy_to_hashers : M W Bytes
  copy_to_hashers w =
      let (read, failure, w') = env.read_all w in
      elim failure [ none ↦ (ok read, w') | some e ↦ (err (read_failed e), w') ]

  -- `hashUploadReader`
  pub hash_upload_reader : M W PayloadDigests
  unfolding rewind copy_to_hashers
  hash_upload_reader = do
    _ ← rewind
    read ← copy_to_hashers
    _ ← rewind
    give (record { sha256 = env.sha256_hex read; md5 = env.md5_hex read })

  -- `applyRotation`
  pub apply_rotation : Bytes → KeyConfig → M W (Unit {0})
  unfolding max_age_duration
  apply_rotation dir key_cfg w = elim (max_age_duration env.parse_duration key_cfg.rotation) [
    | none ↦ (err bad_duration, w)
    | some age ↦
        let (failure, w') =
          apply env.backend env.rotation env.now w dir
            (record { max_count = key_cfg.rotation.max_count; max_age = age }) in
        elim failure [ none ↦ (ok tt, w') | some e ↦ (err (rotation_failed e), w') ]
  ]

  -- `meta.ExpectedSHA256 != "" && !strings.EqualFold(meta.ExpectedSHA256, sha)`
  pub mismatches : UploadMetadata → Bytes → Bool
  mismatches m sha = not (str_eq m.expected_sha256 []) && not (env.equal_fold m.expected_sha256 sha)

  -- The digest that the verification expects.
  pub expected_hash : UploadMetadata → Bytes → Bytes
  expected_hash m sha = if str_eq m.expected_sha256 [] then sha else m.expected_sha256

  -- `if keyCfg.Verification { … }`
  pub verify_if : Bool → Bytes → Bytes → ℤ → M W Bool
  verify_if wanted remote_path expected size w =
      if wanted then verify_and_retransmit env remote_path expected size w else (ok false, w)

  -- The size that `processBuffered` announces: `body.Size()`, or the declared length if that is more.
  pub announced_size : UploadMetadata → ℤ → ℤ
  announced_size m size =
      if leb_ℤ (pos 0) m.content_length && ltb_ℤ size m.content_length
      then m.content_length
      else size

  -- `processBuffered` from `generateStoragePath` on.
  pub store : Bytes → KeyConfig → UploadMetadata → PayloadDigests → M W UploadResult
  unfolding verify_if
  store key key_cfg m digests w =
      let remote_path = generate_storage_path key in
      let size = announced_size m (env.body_size w) in
      (do
        _ ← upload_with_retry env max_retries remote_path size
        verified ← verify_if key_cfg.verification remote_path (expected_hash m digests.sha256) size
        _ ← apply_rotation (rotation_dir key) key_cfg
        give (record {
          key = key;
          size = size;
          sha256 = digests.sha256;
          md5 = digests.md5;
          storage_path = remote_path;
          verified = verified;
        }))
        w

  -- `processBuffered`
  pub process_buffered : Bytes → KeyConfig → UploadMetadata → Bool → M W UploadResult
  unfolding hash_upload_reader
  process_buffered key key_cfg m reject_hash_mismatch = do
    digests ← hash_upload_reader
    if mismatches m digests.sha256 && reject_hash_mismatch
        then fail verification_failed
        else store key key_cfg m digests

  -- `p.backend.Upload` of the hashing reader, which is no io.Seeker: what the backend read of it,
  -- which is what it has hashed.
  pub upload_hashing : Bytes → ℤ → M W Bytes
  upload_hashing remote_path size w =
      let (failure, read, w') = env.hashing_upload w remote_path size in
      elim failure [ none ↦ (ok read, w') | some e ↦ (err (upload_failed e), w') ]

  -- `processOff` from the comparison of the digests on.
  pub finish_off : Bytes → KeyConfig → UploadMetadata → Bytes → Bytes → M W UploadResult
  unfolding verify_if
  finish_off key key_cfg m remote_path read =
      let sha = env.sha256_hex read in
      let size = wrap64 (pos (length read)) in
      if mismatches m sha then fail verification_failed else do
        verified ← verify_if key_cfg.verification remote_path (expected_hash m sha) size
        _ ← apply_rotation (rotation_dir key) key_cfg
        give (record {
          key = key;
          size = size;
          sha256 = sha;
          md5 = env.md5_hex read;
          storage_path = remote_path;
          verified = verified;
        })

  -- `processOff`
  pub process_off : Bytes → KeyConfig → UploadMetadata → M W UploadResult
  unfolding finish_off upload_hashing
  process_off key key_cfg m = do
    read ← upload_hashing (generate_storage_path key) m.content_length
    finish_off key key_cfg m (generate_storage_path key) read

  -- The switch of `Process` on the buffer mode.
  pub process_with : KeyConfig → Bytes → UploadMetadata → M W UploadResult
  unfolding process_buffered process_off
  process_with key_cfg key m =
      if str_eq key_cfg.buffer_mode fully_immediately
      then process_buffered key key_cfg m false
      else if str_eq key_cfg.buffer_mode fully_complete
      then process_buffered key key_cfg m true
      else if str_eq key_cfg.buffer_mode buffer_off
      then process_off key key_cfg m
      else fail (unknown_buffer_mode key_cfg.buffer_mode)

  -- `Process`
  pub process : SortSlice Bytes → Config → Bytes → UploadMetadata → M W UploadResult
  unfolding process_with
  process names cfg key m = elim (resolve_key_config names cfg.keys key) [
    | none ↦ fail no_configuration
    | some key_cfg ↦ process_with key_cfg key m
  ]
