-- ===== src/Config/Validate.antt =====
-- internal/config/validate.go, and the defaults of internal/config/config.go.
pub mod Decides
use backupgate.Prelude.{
  ℕ, ◌+◌, ◌*◌, Bool, true, false, not, ◌&&◌, ◌||◌, Option, none, some, List, [], ◌∷◌, if◌then◌else◌,
  Bytes, bytes, str_eq,
}
use backupgate.Prelude.Int.{ℤ, pos, ltb_ℤ}
use backupgate.Io.{eqb_ℤ}
use backupgate.Config.Types.{
  fully_immediately, fully_complete, buffer_off, header_mode, port_mode, sftp_storage, inline_auth,
  file_auth, htpasswd_auth, external_auth, ListenConfig, ApiConfig, BufferConfig, RsyncConfig,
  StorageConfig, AuthConfig, KeyConfig, Config,
}

-- The errors, one for each message.
pub data ConfigError : Type 0 where
  header_without_listen s3_without_listen http_without_listen : ConfigError
  unknown_api_mode : Bytes → ConfigError
  debug_without_listen sftp_missing sftp_without_host : ConfigError
  unknown_storage : Bytes → ConfigError
  rsync_without_base_path rsync_not_supported : ConfigError
  memory_negative max_memory_negative window_negative : ConfigError
  unknown_buffer_mode : Bytes → Bytes → ConfigError
  rsync_needs_fully_complete key_without_auth : Bytes → ConfigError
  inline_without_credentials file_without_path htpasswd_without_path : Bytes → ℕ → ConfigError
  external_without_command : Bytes → ℕ → ConfigError
  unknown_auth : Bytes → ℕ → Bytes → ConfigError

abbrev is_empty {ℓ} : {A : Type ℓ} → List A → Bool
is_empty [] = true
is_empty (x ∷ xs) = false

-- `c == nil || c.Listen == ""`
abbrev no_listen : Option ListenConfig → Bool
no_listen none = true
no_listen (some c) = is_empty c.listen

-- `validateAPI`
validate_api : ApiConfig → Option ConfigError
validate_api api =
    if str_eq api.mode header_mode
    then (if is_empty api.listen then some header_without_listen else none)
    else if str_eq api.mode port_mode
    then (if no_listen api.s3
        then some s3_without_listen
        else if no_listen api.http
        then some http_without_listen
        else none)
    else some (unknown_api_mode api.mode)

-- `rsync != nil && rsync.Enabled`
abbrev pub rsync_uploads_enabled : StorageConfig → Bool
rsync_uploads_enabled s = elim s.rsync [ none ↦ false | some r ↦ r.enabled ]

abbrev rsync_path_missing : Option RsyncConfig → Bool
rsync_path_missing none = false
rsync_path_missing (some r) = r.enabled && is_empty r.base_path

-- `validateStorage`
validate_storage : StorageConfig → Option ConfigError
validate_storage s =
    if str_eq s.kind sftp_storage
    then elim s.sftp [
      | none ↦ some sftp_missing
      | some c ↦
          if is_empty c.host
          then some sftp_without_host
          else if rsync_path_missing s.rsync
          then some rsync_without_base_path
          else none
    ]
    else some (unknown_storage s.kind)

-- `validateBuffer`
validate_buffer : BufferConfig → Option ConfigError
validate_buffer b =
    if ltb_ℤ b.memory (pos 0)
    then some memory_negative
    else if ltb_ℤ b.max_memory (pos 0)
    then some max_memory_negative
    else if ltb_ℤ b.sliding_window_size (pos 0)
    then some window_negative
    else none

-- `validateAuthConfig`
validate_auth_config : Bytes → ℕ → AuthConfig → Option ConfigError
validate_auth_config key i a =
    if str_eq a.kind inline_auth
    then (if is_empty a.credentials then some (inline_without_credentials key i) else none)
    else if str_eq a.kind file_auth
    then (if is_empty a.file_path then some (file_without_path key i) else none)
    else if str_eq a.kind htpasswd_auth
    then (if is_empty a.file_path then some (htpasswd_without_path key i) else none)
    else if str_eq a.kind external_auth
    then (if is_empty a.command then some (external_without_command key i) else none)
    else some (unknown_auth key i a.kind)

-- The loop over the providers: the first error is returned.
validate_auths : Bytes → ℕ → List AuthConfig → Option ConfigError
validate_auths key i [] = none
validate_auths key i (a ∷ auths) =
    let rest = validate_auths key (i + 1) auths in
    elim (validate_auth_config key i a) [ none ↦ rest | some e ↦ some e ]

abbrev known_buffer_mode : Bytes → Bool
known_buffer_mode m = str_eq m fully_immediately || str_eq m fully_complete || str_eq m buffer_off

-- `validateKeyConfig`
validate_key_config : Bytes → KeyConfig → Bool → Option ConfigError
validate_key_config name kc rsync_enabled =
    if not (known_buffer_mode kc.buffer_mode)
    then some (unknown_buffer_mode name kc.buffer_mode)
    else if rsync_enabled && not (str_eq kc.buffer_mode fully_complete)
    then some (rsync_needs_fully_complete name)
    else if is_empty kc.auth && not (str_eq name (bytes "default"))
    then some (key_without_auth name)
    else validate_auths name 0 kc.auth

-- `if err != nil { errs = append(errs, err.Error()) }`
abbrev collect : Option ConfigError → List ConfigError → List ConfigError
collect none errs = errs
collect (some e) errs = e ∷ errs

-- The loop over the keys.
validate_keys : List (Bytes × KeyConfig) → Bool → List ConfigError
validate_keys [] rsync_enabled = []
validate_keys ((name, kc) ∷ keys) rsync_enabled =
    collect (validate_key_config name kc rsync_enabled) (validate_keys keys rsync_enabled)

-- `server.debug` is configured without an address.
abbrev validate_debug : Option ListenConfig → Option ConfigError
validate_debug none = none
validate_debug (some c) = if is_empty c.listen then some debug_without_listen else none

-- `Validate`: the errors that it reports together, none for a valid configuration.
pub validate : Config → List ConfigError
validate cfg =
    let rsync_enabled = rsync_uploads_enabled cfg.storage in
    collect (validate_api cfg.server.api) (
      collect (validate_debug cfg.server.debug) (
        collect (validate_storage cfg.storage) (
          collect (validate_buffer cfg.buffer) (
            collect (if rsync_enabled then some rsync_not_supported else none)
              (validate_keys cfg.keys rsync_enabled)))))

abbrev or_size : ℤ → ℕ → ℤ
or_size z n = if eqb_ℤ z (pos 0) then pos n else z

-- `applyDefaults`, with `os.TempDir()` as a parameter.
pub apply_defaults : Bytes → Config → Config
apply_defaults temp_dir c = record c {
  buffer = record {
    memory = or_size c.buffer.memory (64 * 1024 * 1024);
    sliding_window_size = or_size c.buffer.sliding_window_size (1 * 1024 * 1024);
    max_memory = or_size c.buffer.max_memory (1 * 1024 * 1024 * 1024);
    tmp_dir = if is_empty c.buffer.tmp_dir then temp_dir else c.buffer.tmp_dir;
  };
}
