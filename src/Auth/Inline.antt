-- ===== src/Auth/Inline.antt =====
-- internal/auth/inline.go: the expressions of inline credentials.
pub mod Ends
use backupgate.Prelude.{
  ℕ, zero, suc, ◌+◌, ◌-◌, Option, none, some, List, [], ◌∷◌, ◌++◌, ◌>>=◌, length, take, drop, Bytes,
  bytes,
}
use backupgate.Text.{index_of}
use backupgate.Auth.Types.{Credential}
use backupgate.Config.Types.{CredentialEntry}

abbrev pub prefix : Bytes
prefix = bytes "${env."

abbrev pub suffix : Bytes
suffix = bytes "}"

-- `resolveExpression`, with fuel for the rounds of its loop; `none` is a loop that is still running.
-- `getenv` is `os.Getenv`.
pub resolve_expression : ℕ → (Bytes → Bytes) → Bytes → Option Bytes
resolve_expression zero getenv result = none
resolve_expression (suc fuel) getenv result = elim (index_of result prefix) [
  | none ↦ some result
  | some start ↦ elim (index_of (drop start result) suffix) [
    | none ↦ some result
    | some k ↦
        let end = k + start in
        let var_name = take (end - (start + length prefix)) (drop (start + length prefix) result) in
        resolve_expression fuel getenv
          (take start result ++ (getenv var_name ++ drop (end + 1) result))
  ]
]

-- `NewInlineProvider`
pub new_inline_provider : ℕ → (Bytes → Bytes) → List CredentialEntry → Option (List Credential)
new_inline_provider fuel getenv [] = some []
new_inline_provider fuel getenv (e ∷ entries) = do
  username ← resolve_expression fuel getenv e.username
  password ← resolve_expression fuel getenv e.password
  rest ← new_inline_provider fuel getenv entries
  some (record { username = username; password = password } ∷ rest)
