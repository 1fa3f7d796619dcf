-- ===== src/Pipeline/Process/Sftp/Tests.antt =====
-- A run of an upload with verification over SFTP.
use backupgate.Prelude.{refl, ◌≢◌, true, false, none, [], ◌∷◌, ◌++◌, drop, Bytes, bytes, str_eq}
use backupgate.Prelude.Int.{pos}
use backupgate.Sort.{insertion_sort}
use backupgate.Config.Types.{fully_complete, KeyConfig}
use backupgate.Storage.Backend.{Entry}
use backupgate.Storage.Sftp.{State, sftp_backend, upload}
use backupgate.Storage.Sftp.Memory.{
  machine, blank, machine_library-IsSftp, machine_library-HasSessions,
}
use backupgate.Pipeline.Types.{UploadMetadata, UploadResult, Env, ok}
use backupgate.Pipeline.Process.{process_with}
use backupgate.Pipeline.Process.Sftp.{process_with-unverifiable}

abbrev payload : Bytes
payload = bytes "dump"

abbrev env : Env (State machine)
env = record {
  backend = sftp_backend machine;
  hashing_upload = upload (record machine { source = record machine.source { is_seeker = false } });
  is_seeker = true;
  seek_start = λ w. (none, (w.0, 0));
  read_all = λ w. (drop w.1 payload, none, (w.0, 4));
  body_size = λ w. pos 4;
  sha256_hex = λ c. b'a' ∷ c;
  md5_hex = λ c. b'b' ∷ c;
  equal_fold = str_eq;
  timestamp = bytes "T";
  now = pos 52;
  path_clean = λ p. p;
  path_base = λ p. p;
  path_dir = λ p. bytes ".";
  path_join = λ a b. a ++ (b'/' ∷ b);
  parse_duration = λ d. none;
  rotation = record { parse_time = λ b. none; slices = insertion_sort Entry };
}

abbrev verified_config : KeyConfig
verified_config = record {
  buffer_mode = fully_complete;
  verification = true;
  detach_backup_from_request = none;
  rotation = record { max_count = pos 0; max_age = [] };
  auth = [];
}

abbrev unannounced : UploadMetadata
unannounced = record { content_length = pos 4; expected_sha256 = [] }

abbrev outcome : UploadResult
outcome = record {
  key = bytes "db";
  size = pos 4;
  sha256 = bytes "adump";
  md5 = bytes "bdump";
  storage_path = bytes "T_db";
  verified = true;
}

process_with-unverifiable_example :
    process_with env verified_config (bytes "db") unannounced (blank, 0) ≢ (ok outcome, (blank, 0))
process_with-unverifiable_example =
    process_with-unverifiable machine (λ m. m.files) (λ h. h) (λ m h. m.offset)
      machine_library-IsSftp (λ m c. m.live) (λ h. tt) machine_library-HasSessions env refl
      (λ c e. cc) (bytes "db") verified_config unannounced (blank, 0) (blank, 0) outcome refl
