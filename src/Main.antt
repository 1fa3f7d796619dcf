-- ===== src/Main.antt =====
-- cmd/backupgate/main.go: the parts that `run` makes of a configuration.
use backupgate.Prelude.{
  ℕ, ◌*◌, not, Option, none, some, List, [], ◌∷◌, if◌then◌else◌, Bytes, str_eq,
}
use backupgate.Prelude.Int.{ℤ, pos}
pub mod Wiring
mod Tests
use backupgate.Config.Types.{
  inline_auth, file_auth, htpasswd_auth, external_auth, sftp_storage, AuthConfig, KeyConfig,
  SftpConfig, RsyncConfig, StorageConfig,
}
use backupgate.Auth.Types.{AuthRequest, AuthResult, Credential}
use backupgate.Auth.Inline.{new_inline_provider}
use backupgate.Auth.External.{ExternalProvider, Ending}
use backupgate.Auth.External
use backupgate.Auth.Chain.{Provider, credentials, checker, Chain}

-- What the functions use of their surroundings: `os.Getenv`, the credentials of `NewFileProvider` for a
-- path, the check of `NewHtpasswdProvider` for a path, how a program ends under a timeout, and
-- `time.ParseDuration`; and the fuel for the expressions of an inline provider.
pub record Surroundings : Type 0 where
  pub getenv : Bytes → Bytes
  pub read_credentials : Bytes → Option (List Credential)
  pub read_htpasswd : Bytes → Option (AuthRequest → AuthResult)
  pub execute : Option ℤ → Bytes → List Bytes → Ending
  pub parse_duration : Bytes → Option ℤ
  pub fuel : ℕ

-- The errors of the providers of a key. `endless` is the model's own: an expression that is still
-- resolved.
pub data ProviderError : Type 0 where
  bad_file bad_htpasswd bad_timeout endless : ProviderError
  unknown_type : Bytes → ProviderError

-- `(T, error)`
pub data Made {ℓ} (A : Type ℓ) : Type ℓ where
  made : A → Made A
  failed : ProviderError → Made A

-- `getEnvOrDefault`
pub get_env_or_default : (Bytes → Bytes) → Bytes → Bytes → Bytes
get_env_or_default getenv name default_value =
    let value = getenv name in if not (str_eq value []) then value else default_value

module _ (around : Surroundings) where
  -- `parseTimeout`, in nanoseconds.
  pub parse_timeout : Bytes → Option ℤ
  parse_timeout s = if str_eq s [] then some (pos (5 * 1000000000)) else around.parse_duration s

  -- `NewExternalProvider` as a provider of a chain.
  pub external_provider : AuthConfig → ℤ → Provider
  external_provider ac timeout =
      let p : ExternalProvider = record {
        command = ac.command;
        args = ac.args;
        timeout = timeout;
      } in
      checker (λ req. External.authenticate around.execute p req)

  -- The body of the loop of `buildProviders`.
  pub build_provider : AuthConfig → Made Provider
  unfolding parse_timeout external_provider
  build_provider ac =
      if str_eq ac.kind inline_auth
      then elim (new_inline_provider around.fuel around.getenv ac.credentials) [
        | none ↦ failed endless
        | some cs ↦ made (credentials cs)
      ]
      else if str_eq ac.kind file_auth
      then elim (around.read_credentials ac.file_path) [
        | none ↦ failed bad_file
        | some cs ↦ made (credentials cs)
      ]
      else if str_eq ac.kind htpasswd_auth
      then elim (around.read_htpasswd ac.file_path) [
        | none ↦ failed bad_htpasswd
        | some check ↦ made (checker check)
      ]
      else if str_eq ac.kind external_auth
      then elim (parse_timeout ac.timeout) [
        | none ↦ failed bad_timeout
        | some timeout ↦ made (external_provider ac timeout)
      ]
      else failed (unknown_type ac.kind)

  -- `buildProviders`
  pub build_providers : List AuthConfig → Made Chain
  unfolding build_provider
  build_providers [] = made []
  build_providers (ac ∷ acs) =
      let rest = build_providers acs in
      elim (build_provider ac) [
        | failed e ↦ failed e
        | made p ↦ elim rest [ failed e ↦ failed e | made ps ↦ made (p ∷ ps) ]
      ]

  -- `initAuthChains`, over the keys in the order of the map's iteration.
  pub init_auth_chains : List (Bytes × KeyConfig) → Made (List (Bytes × Chain))
  unfolding build_providers
  init_auth_chains [] = made []
  init_auth_chains (entry ∷ keys) =
      let rest = init_auth_chains keys in
      elim (build_providers entry.1.auth) [
        | failed e ↦ failed e
        | made chain ↦ elim rest [
          | failed e ↦ failed e
          | made chains ↦ made ((entry.0, chain) ∷ chains)
        ]
      ]

-- What `initStorage` makes: the backend over SFTP, the one with uploads over rsync, or an error;
-- `panicked` is a nil `SFTP` of the configuration.
pub data Storage : Type 0 where
  sftp_only : SftpConfig → Storage
  with_rsync : SftpConfig → RsyncConfig → Storage
  unknown_storage : Bytes → Storage
  panicked : Storage

abbrev pub rsync_or : SftpConfig → Option RsyncConfig → Storage
rsync_or sftp none = sftp_only sftp
rsync_or sftp (some rsync) = if rsync.enabled then with_rsync sftp rsync else sftp_only sftp

-- `initStorage`
pub init_storage : StorageConfig → Storage
init_storage s =
    if not (str_eq s.kind sftp_storage)
    then unknown_storage s.kind
    else elim s.sftp [ none ↦ panicked | some sftp ↦ rsync_or sftp s.rsync ]
