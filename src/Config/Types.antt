-- ===== src/Config/Types.antt =====
-- The types and constants of internal/config/config.go. A Go `string` type with constants is its
-- bytes; a pointer that may be nil is an option; a map is the list of its entries, with distinct keys.
use backupgate.Prelude.{Bool, true, Option, none, some, List, Bytes, bytes}
use backupgate.Prelude.Int.{ℤ}

-- `BufferMode`
abbrev pub BufferMode : Type 0
BufferMode = Bytes

abbrev pub fully_immediately : BufferMode
fully_immediately = bytes "FULLY_IMMEDIATELY"

abbrev pub fully_complete : BufferMode
fully_complete = bytes "FULLY_COMPLETE"

abbrev pub buffer_off : BufferMode
buffer_off = bytes "OFF"

-- `APIMode`
abbrev pub ApiMode : Type 0
ApiMode = Bytes

abbrev pub header_mode : ApiMode
header_mode = bytes "header"

abbrev pub port_mode : ApiMode
port_mode = bytes "port"

-- `StorageType`
abbrev pub StorageType : Type 0
StorageType = Bytes

abbrev pub sftp_storage : StorageType
sftp_storage = bytes "sftp"

-- `AuthType`
abbrev pub AuthType : Type 0
AuthType = Bytes

abbrev pub inline_auth : AuthType
inline_auth = bytes "inline"

abbrev pub file_auth : AuthType
file_auth = bytes "file"

abbrev pub htpasswd_auth : AuthType
htpasswd_auth = bytes "htpasswd"

abbrev pub external_auth : AuthType
external_auth = bytes "external"

-- `ListenConfig`
pub record ListenConfig : Type 0 where
  pub listen : Bytes

-- `APIConfig`
pub record ApiConfig : Type 0 where
  pub mode : ApiMode
  pub listen : Bytes
  pub s3 : Option ListenConfig
  pub http : Option ListenConfig

-- `ServerConfig`
pub record ServerConfig : Type 0 where
  pub api : ApiConfig
  pub debug : Option ListenConfig

-- `BufferConfig`
pub record BufferConfig : Type 0 where
  pub memory : ℤ
  pub sliding_window_size : ℤ
  pub max_memory : ℤ
  pub tmp_dir : Bytes

-- `SFTPConfig`
pub record SftpConfig : Type 0 where
  pub host : Bytes
  pub username : Bytes
  pub key_file : Bytes
  pub password : Bytes
  pub base_path : Bytes

-- `RsyncConfig`
pub record RsyncConfig : Type 0 where
  pub enabled : Bool
  pub base_path : Bytes

-- `StorageConfig`
pub record StorageConfig : Type 0 where
  pub kind : StorageType
  pub sftp : Option SftpConfig
  pub rsync : Option RsyncConfig

-- `CredentialEntry`
pub record CredentialEntry : Type 0 where
  pub username : Bytes
  pub password : Bytes

-- `AuthConfig`
pub record AuthConfig : Type 0 where
  pub kind : AuthType
  pub credentials : List CredentialEntry
  pub file_path : Bytes
  pub command : Bytes
  pub args : List Bytes
  pub timeout : Bytes

-- `RotationConfig`
pub record RotationConfig : Type 0 where
  pub max_count : ℤ
  pub max_age : Bytes

-- `KeyConfig`
pub record KeyConfig : Type 0 where
  pub buffer_mode : BufferMode
  pub verification : Bool
  pub detach_backup_from_request : Option Bool
  pub rotation : RotationConfig
  pub auth : List AuthConfig

-- `Config`
pub record Config : Type 0 where
  pub server : ServerConfig
  pub buffer : BufferConfig
  pub storage : StorageConfig
  pub keys : List (Bytes × KeyConfig)

-- `GetDetachBackupFromRequest`
unfoldable pub get_detach_backup_from_request : KeyConfig → Bool
get_detach_backup_from_request k = elim k.detach_backup_from_request [ none ↦ true | some b ↦ b ]
