-- ===== src/Main/Tests.antt =====
-- A run of the wiring.
use backupgate.Prelude.{◌≡◌, refl, inl, inr, none, some, [], Bytes}
use backupgate.Prelude.Int.{pos}
use backupgate.Config.Types.{SftpConfig}
use backupgate.Config.Keys.{names}
use backupgate.Config.Validate.{validate}
use backupgate.Config.Validate.Decides.{IsValidKey, validate_iff}
use backupgate.Config.Tests.{small_config, complete}
use backupgate.Auth.External.{exit_code}
use backupgate.Main.{Surroundings, init_storage, sftp_only, init_auth_chains}
use backupgate.Main.Wiring.{MadeOr, run-valid}

abbrev around : Surroundings
around = record {
  getenv = λ name. [];
  read_credentials = λ file. none;
  read_htpasswd = λ file. none;
  execute = λ timeout command args. exit_code (pos 0);
  parse_duration = λ s. none;
  fuel = 10;
}

valid : {n : Bytes} → IsValidKey n complete
valid = (inr (inl refl), inl (λ e. cc), (inl (refl, λ e. cc), tt))

accepted : validate small_config ≡ []
accepted = (validate_iff small_config).1 (record {
  api = inl (refl, λ e. cc);
  debug = tt;
  storage = (refl, λ e. cc, refl);
  buffer = (refl, refl, refl);
  keys = (valid, (valid, (valid, tt)));
})

run-valid_example :
    ((sftp : SftpConfig) × (small_config.storage.sftp ≡ some sftp)
      × (init_storage small_config.storage ≡ sftp_only sftp))
    × MadeOr
        (λ chains. names chains ≡ names small_config.keys)
        (init_auth_chains around small_config.keys)
run-valid_example = run-valid around small_config accepted
