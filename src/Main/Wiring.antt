-- ===== src/Main/Wiring.antt =====
-- What a valid configuration becomes.
use backupgate.Prelude.{
  suc, ◌≡◌, refl, ap, ◌≢◌, ◌⊎◌, inl, inr, false, Option, none, some, List, [], ◌∷◌, length, All,
  Bytes, str_eq, str_eq_refl,
}
use backupgate.Config.Types.{
  sftp_storage, AuthConfig, KeyConfig, SftpConfig, RsyncConfig, StorageConfig, Config,
}
use backupgate.Config.Keys.{names}
use backupgate.Config.Validate.{validate}
use backupgate.Config.Validate.Decides.{
  IsValidAuth, IsValidKey, IsValidStorage, HasHost, validate_iff,
}
use backupgate.Auth.Inline.{new_inline_provider}
use backupgate.Auth.Chain.{Provider, credentials, checker}
use backupgate.Main.{
  Surroundings, ProviderError, bad_file, bad_htpasswd, bad_timeout, endless, unknown_type, Made,
  made, failed, parse_timeout, external_provider, build_provider, build_providers, init_auth_chains,
  Storage, sftp_only, panicked, rsync_or, init_storage,
}

-- An error that comes from outside of the configuration.
abbrev pub IsOutside : ProviderError → Type 0
IsOutside e = (t : Bytes) → e ≢ unknown_type t

-- The value is made, with a property, or could not be for an error from outside.
abbrev pub MadeOr : {A : Type 0} → (A → Type 0) → Made A → Type 0
MadeOr P m = ((a : _) × (m ≡ made a) × P a) ⊎ ((e : ProviderError) × (m ≡ failed e) × IsOutside e)

module _ (around : Surroundings) where
  option-MadeOr :
      {X : Type 0} (o : Option X) (f : X → Provider) (e : ProviderError)
      → IsOutside e
      → MadeOr (λ p. Unit {0}) (elim o [ none ↦ failed e | some x ↦ made (f x) ])
  option-MadeOr none f e outside = inr (e, refl, outside)
  option-MadeOr (some x) f e outside = inl (f x, refl, tt)

  build_provider-IsOutside :
      (ac : AuthConfig) → IsValidAuth ac → MadeOr (λ p. Unit {0}) (build_provider around ac)
  unfolding build_provider str_eq
  build_provider-IsOutside ac (inl (kind, _)) =
      rw (kind, build_provider)
        (option-MadeOr (new_inline_provider around.fuel around.getenv ac.credentials)
          (λ cs. credentials cs) endless (λ t e. cc))
  build_provider-IsOutside ac (inr (inl (kind, _))) =
      rw (kind, build_provider)
        (option-MadeOr (around.read_credentials ac.file_path) (λ cs. credentials cs) bad_file
          (λ t e. cc))
  build_provider-IsOutside ac (inr (inr (inl (kind, _)))) =
      rw (kind, build_provider)
        (option-MadeOr (around.read_htpasswd ac.file_path) (λ check. checker check) bad_htpasswd
          (λ t e. cc))
  build_provider-IsOutside ac (inr (inr (inr (kind, _)))) =
      rw (kind, build_provider)
        (option-MadeOr (parse_timeout around ac.timeout) (external_provider around ac) bad_timeout
          (λ t e. cc))

  build_providers-IsOutside :
      (acs : List AuthConfig)
      → All IsValidAuth acs
      → MadeOr (λ chain. length chain ≡ length acs) (build_providers around acs)
  unfolding build_providers
  build_providers-IsOutside [] valid = inl ([], refl, refl)
  build_providers-IsOutside (ac ∷ acs) valid = elim (build_provider-IsOutside ac valid.0) [
    | inr (e, broken, outside) ↦ inr (e, rw (broken, build_providers) refl, outside)
    | inl (p, one, _) ↦ elim (build_providers-IsOutside acs valid.1) [
      | inr (e, broken, outside) ↦ inr (e, rw (one, broken, build_providers) refl, outside)
      | inl (ps, all, size) ↦ inl (p ∷ ps, rw (one, all, build_providers) refl, ap suc size)
    ]
  ]

  init_auth_chains-IsOutside :
      (keys : List (Bytes × KeyConfig))
      → All (λ (e : Bytes × KeyConfig). IsValidKey e.0 e.1) keys
      → MadeOr (λ chains. names chains ≡ names keys) (init_auth_chains around keys)
  unfolding init_auth_chains
  init_auth_chains-IsOutside [] valid = inl ([], refl, refl)
  init_auth_chains-IsOutside (entry ∷ keys) valid =
      elim (build_providers-IsOutside entry.1.auth valid.0.2) [
        | inr (e, broken, outside) ↦ inr (e, rw (broken, init_auth_chains) refl, outside)
        | inl (chain, one, _) ↦ elim (init_auth_chains-IsOutside keys valid.1) [
          | inr (e, broken, outside) ↦ inr (e, rw (one, broken, init_auth_chains) refl, outside)
          | inl (chains, all, same) ↦ inl (
            (entry.0, chain) ∷ chains,
            rw (one, all, init_auth_chains) refl,
            ap (λ ns. entry.0 ∷ ns) same,
          )
        ]
      ]

  init_storage-sftp :
      (s : StorageConfig)
      → IsValidStorage s
      → (sftp : SftpConfig) × (s.sftp ≡ some sftp) × (init_storage s ≡ sftp_only sftp)
  unfolding init_storage
  init_storage-sftp s (kind, host, no_rsync) =
      rw (kind, str_eq_refl sftp_storage, init_storage) (go s.sftp s.rsync host no_rsync)
    where
      go :
          (o : Option SftpConfig) (q : Option RsyncConfig)
          → HasHost o
          → elim q [ none ↦ false | some r ↦ r.enabled ] ≡ false
          → (sftp : SftpConfig) × (o ≡ some sftp)
            × ◌≡◌ {A = Storage}
                (elim o [ none ↦ panicked | some c ↦ rsync_or c q ])
                (sftp_only sftp)
      go none q h k = elim h [ ]
      go (some c) none h k = (c, refl, refl)
      go (some c) (some r) h k = (c, refl, rw k refl)

  -- A configuration that `Validate` accepts gives the backend over SFTP alone, as uploads over rsync
  -- are never enabled then. Its keys get one authentication chain each, under their names, or a
  -- file, a timeout or an expression of a provider is at fault: no type is unknown.
  pub run-valid :
      (cfg : Config)
      → validate cfg ≡ []
      → ((sftp : SftpConfig) × (cfg.storage.sftp ≡ some sftp)
          × (init_storage cfg.storage ≡ sftp_only sftp))
        × MadeOr (λ chains. names chains ≡ names cfg.keys) (init_auth_chains around cfg.keys)
  run-valid cfg accepted =
      let valid = (validate_iff cfg).0 accepted in
      (init_storage-sftp cfg.storage valid.storage, init_auth_chains-IsOutside cfg.keys valid.keys)
