-- ===== src/Config/Validate/Decides.antt =====
-- `Validate` decides when a configuration is valid.
use backupgate.Prelude.{
  ℕ, ◌+◌, ◌≡◌, refl, ◌≢◌, ◌↔◌, ◌⊎◌, false, Option, none, some, List, [], ◌∷◌, arith, All, Bytes,
  str_eq_iff,
}
use backupgate.Prelude.Int.{neg_part}
use backupgate.Config.Types.{
  fully_immediately, fully_complete, buffer_off, header_mode, port_mode, sftp_storage, inline_auth,
  file_auth, htpasswd_auth, external_auth, ListenConfig, ApiConfig, BufferConfig, SftpConfig,
  StorageConfig, AuthConfig, KeyConfig, Config,
}
use backupgate.Config.Keys.{default_key}
use backupgate.Config.Validate.{
  validate_api, rsync_uploads_enabled, validate_storage, validate_buffer, validate_auth_config,
  validate_auths, validate_key_config, validate_keys, validate,
}

-- There is an address to listen on.
abbrev pub Listens : Option ListenConfig → Type 0
Listens none = ⊥
Listens (some c) = c.listen ≢ []

abbrev pub IsValidApi : ApiConfig → Type 0
IsValidApi api =
    ((api.mode ≡ header_mode) × (api.listen ≢ []))
    ⊎ ((api.mode ≡ port_mode) × Listens api.s3 × Listens api.http)

abbrev pub IsValidDebug : Option ListenConfig → Type 0
IsValidDebug none = Unit
IsValidDebug (some c) = c.listen ≢ []

abbrev pub HasHost : Option SftpConfig → Type 0
HasHost none = ⊥
HasHost (some c) = c.host ≢ []

abbrev pub IsValidStorage : StorageConfig → Type 0
IsValidStorage s = (s.kind ≡ sftp_storage) × HasHost s.sftp × (rsync_uploads_enabled s ≡ false)

abbrev pub IsValidBuffer : BufferConfig → Type 0
IsValidBuffer b =
    (neg_part b.memory ≡ 0) × (neg_part b.max_memory ≡ 0) × (neg_part b.sliding_window_size ≡ 0)

-- A provider of a known type that names its credentials, its file or its program.
abbrev pub IsValidAuth : AuthConfig → Type 0
IsValidAuth a =
    ((a.kind ≡ inline_auth) × (a.credentials ≢ []))
    ⊎ (((a.kind ≡ file_auth) × (a.file_path ≢ []))
        ⊎ (((a.kind ≡ htpasswd_auth) × (a.file_path ≢ []))
            ⊎ ((a.kind ≡ external_auth) × (a.command ≢ []))))

abbrev pub IsBufferMode : Bytes → Type 0
IsBufferMode m = (m ≡ fully_immediately) ⊎ ((m ≡ fully_complete) ⊎ (m ≡ buffer_off))

abbrev pub IsValidKey : Bytes → KeyConfig → Type 0
IsValidKey name kc =
    IsBufferMode kc.buffer_mode × ((kc.auth ≢ []) ⊎ (name ≡ default_key)) × All IsValidAuth kc.auth

pub record IsValidConfig (cfg : Config) : Type 0 where
  pub api : IsValidApi cfg.server.api
  pub debug : IsValidDebug cfg.server.debug
  pub storage : IsValidStorage cfg.storage
  pub buffer : IsValidBuffer cfg.buffer
  pub keys : All (λ (e : Bytes × KeyConfig). IsValidKey e.0 e.1) cfg.keys

validate_auth_config_iff :
    (key : Bytes) (i : ℕ) (a : AuthConfig) → (validate_auth_config key i a ≡ none) ↔ IsValidAuth a
unfolding validate_auth_config
validate_auth_config_iff key i a = ground (
  arith,
  str_eq_iff a.kind inline_auth,
  str_eq_iff a.kind file_auth,
  str_eq_iff a.kind htpasswd_auth,
  str_eq_iff a.kind external_auth,
)

validate_api_iff : (api : ApiConfig) → (validate_api api ≡ none) ↔ IsValidApi api
unfolding validate_api
validate_api_iff api =
    ground (arith, str_eq_iff api.mode header_mode, str_eq_iff api.mode port_mode)

validate_buffer_iff : (b : BufferConfig) → (validate_buffer b ≡ none) ↔ IsValidBuffer b
unfolding validate_buffer
validate_buffer_iff b = ground arith

validate_auths_iff :
    (key : Bytes) (i : ℕ) (auths : List AuthConfig)
    → (validate_auths key i auths ≡ none) ↔ All IsValidAuth auths
unfolding validate_auths
validate_auths_iff key i [] = (λ _. tt, λ _. refl)
validate_auths_iff key i (a ∷ auths) =
    ground (arith, validate_auth_config_iff key i a, validate_auths_iff key (i + 1) auths)

validate_key_config_iff :
    (name : Bytes) (kc : KeyConfig)
    → (validate_key_config name kc false ≡ none) ↔ IsValidKey name kc
unfolding validate_key_config
validate_key_config_iff name kc = ground (
  arith,
  str_eq_iff kc.buffer_mode fully_immediately,
  str_eq_iff kc.buffer_mode fully_complete,
  str_eq_iff kc.buffer_mode buffer_off,
  str_eq_iff name default_key,
  validate_auths_iff name 0 kc.auth,
)

validate_keys_iff :
    (keys : List (Bytes × KeyConfig))
    → (validate_keys keys false ≡ []) ↔ All (λ (e : Bytes × KeyConfig). IsValidKey e.0 e.1) keys
unfolding validate_keys
validate_keys_iff [] = (λ _. tt, λ _. refl)
validate_keys_iff ((name, kc) ∷ keys) =
    ground (arith, validate_key_config_iff name kc, validate_keys_iff keys)

validate_storage_iff :
    (s : StorageConfig)
    → ((validate_storage s ≡ none) × (rsync_uploads_enabled s ≡ false)) ↔ IsValidStorage s
unfolding validate_storage
validate_storage_iff s = ground (arith, str_eq_iff s.kind sftp_storage)

-- `Validate` reports no error exactly for the valid configurations: an API mode with its addresses,
-- SFTP with a host, no rsync, sizes that are not negative, and for each key a known buffer mode, a
-- provider (only "default" may lack one) and complete providers.
pub validate_iff : (cfg : Config) → (validate cfg ≡ []) ↔ IsValidConfig cfg
unfolding validate
validate_iff cfg = (to, from)
  where
    to : validate cfg ≡ [] → IsValidConfig cfg
    to h =
        let off : rsync_uploads_enabled cfg.storage ≡ false = ground arith in
        record {
          api = (validate_api_iff cfg.server.api).0 (ground arith);
          debug = ground arith;
          storage = (validate_storage_iff cfg.storage).0 (ground arith, off);
          buffer = (validate_buffer_iff cfg.buffer).0 (ground arith);
          keys = (validate_keys_iff cfg.keys).0 (ground arith);
        }

    from : IsValidConfig cfg → validate cfg ≡ []
    from v = ground (
      arith,
      (validate_api_iff cfg.server.api).1 v.api,
      (validate_storage_iff cfg.storage).1 v.storage,
      (validate_buffer_iff cfg.buffer).1 v.buffer,
      (validate_keys_iff cfg.keys).1 v.keys,
    )
