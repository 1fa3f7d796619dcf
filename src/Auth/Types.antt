-- ===== src/Auth/Types.antt =====
-- internal/auth/provider.go: requests and results.
use backupgate.Prelude.{Bytes}
use backupgate.Prelude.Int.{ℤ}

-- `AuthRequest`, less the headers, which no provider reads.
pub record AuthRequest : Type 0 where
  pub key : Bytes
  pub username : Bytes
  pub password : Bytes

-- The errors of the providers and of the chain.
pub data AuthError : Type 0 where
  no_providers all_failed invalid_credentials user_not_found invalid_password : AuthError
  timed_out : Bytes → AuthError
  exited : Bytes → ℤ → AuthError

-- `(identity string, err error)`
pub data AuthResult : Type 0 where
  granted : Bytes → AuthResult
  denied : AuthError → AuthResult

-- `inlineCredential` and `fileCredential`.
pub record Credential : Type 0 where
  pub username : Bytes
  pub password : Bytes
