-- ===== src/Config/Tests.antt =====
-- Runs of the choice of a key, and of the validation.
use backupgate.Prelude.{◌≡◌, ◌↔◌, true, none, some, List, [], ◌∷◌, Bytes, bytes}
use backupgate.Prelude.Int.{pos}
use backupgate.Sort.{insertion_sort}
use backupgate.Config.Types.{
  fully_complete, header_mode, sftp_storage, inline_auth, AuthConfig, KeyConfig, Config,
}
use backupgate.Config.Keys.{find_key, names, resolve_key_config}
use backupgate.Config.Keys.Choice.{Chosen}
use backupgate.Config.Keys.Resolve.{resolve_key_config-Chosen}
use backupgate.Config.Validate.{validate}
use backupgate.Config.Validate.Decides.{IsValidConfig, validate_iff}

abbrev inline_ann : AuthConfig
inline_ann = record {
  kind = inline_auth;
  credentials = record { username = bytes "ann"; password = bytes "pw" } ∷ [];
  file_path = [];
  command = [];
  args = [];
  timeout = [];
}

abbrev pub complete : KeyConfig
complete = record {
  buffer_mode = fully_complete;
  verification = true;
  detach_backup_from_request = none;
  rotation = record { max_count = pos 3; max_age = [] };
  auth = inline_ann ∷ [];
}

abbrev three_keys : List (Bytes × KeyConfig)
three_keys = (bytes "db", complete) ∷ (bytes "db/main", complete) ∷ (bytes "default", complete) ∷ []

resolve_key_config-Chosen_example :
    (n : Bytes) × Chosen (names three_keys) (bytes "db/main/x") n
    × (resolve_key_config (insertion_sort Bytes) three_keys (bytes "db/main/x")
        ≡ find_key n three_keys)
resolve_key_config-Chosen_example =
    resolve_key_config-Chosen (insertion_sort Bytes) three_keys (bytes "db/main/x")

abbrev pub small_config : Config
small_config = record {
  server = record {
    api = record { mode = header_mode; listen = bytes ":8080"; s3 = none; http = none };
    debug = none;
  };
  buffer = record { memory = pos 0; sliding_window_size = pos 0; max_memory = pos 0; tmp_dir = [] };
  storage = record {
    kind = sftp_storage;
    sftp =
        some (record {
          host = bytes "h";
          username = [];
          key_file = [];
          password = [];
          base_path = [];
        });
    rsync = none;
  };
  keys = three_keys;
}

validate_iff_example : (validate small_config ≡ []) ↔ IsValidConfig small_config
validate_iff_example = validate_iff small_config
