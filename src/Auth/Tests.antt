-- ===== src/Auth/Tests.antt =====
-- Runs of the providers and of a chain of them.
use backupgate.Prelude.{
  ◌<◌, ◌≡◌, refl, ◌↔◌, true, Option, none, some, List, [], ◌∷◌, arith, replicate, All, Bytes, bytes,
  str_eq, has_prefix,
}
use backupgate.Prelude.Int.{ℤ, pos}
use backupgate.Auth.Types.{AuthRequest, granted, Credential}
use backupgate.Auth.Chain.{
  credentials, Chain, authenticate, FirstGrants, authenticate-FirstGrants_iff,
}
use backupgate.Auth.External.{ExternalProvider, Ending, exit_code}
use backupgate.Auth.Htpasswd
use backupgate.Auth.Htpasswd.{Crypto, verify_password, put_entry, parse_line, load_lines}
use backupgate.Auth.Htpasswd.Entries.{last_hash, authenticate-last_hash_iff}
use backupgate.Auth.Inline.{resolve_expression}
use backupgate.Auth.Inline.Ends.{expression, resolve_expression-diverges}

abbrev request : AuthRequest
request = record { key = bytes "db"; username = bytes "ann"; password = bytes "pw" }

abbrev ann : Credential
ann = record { username = bytes "ann"; password = bytes "pw" }

abbrev two_providers : Chain
two_providers = credentials [] ∷ credentials (ann ∷ []) ∷ []

authenticate-FirstGrants_iff_example :
    (authenticate two_providers request ≡ granted (bytes "ann"))
    ↔ FirstGrants request (bytes "ann") two_providers
authenticate-FirstGrants_iff_example =
    authenticate-FirstGrants_iff two_providers request (bytes "ann")

abbrev helper : ExternalProvider
helper = record { command = bytes "check"; args = bytes "%u" ∷ []; timeout = pos 5 }

abbrev accepts : Option ℤ → Bytes → List Bytes → Ending
accepts limit command args = exit_code (pos 0)

sum_bytes : All (λ c. c < 256) (replicate 16 0)
sum_bytes = ground arith

-- Hash functions with sums of the right size.
abbrev crypto : Crypto
crypto = record {
  bcrypt_matches = λ hash plain. str_eq hash plain;
  sha1_base64 = λ plain. plain;
  md5 = λ b. replicate 16 0;
  md5_size = λ b. refl;
  md5_bytes = λ b. sum_bytes;
}

abbrev users : List Bytes
users = bytes "# users" ∷ bytes "ann:{SHA}old" ∷ bytes "ann:{SHA}pw" ∷ []

authenticate-last_hash_iff_example :
    (Htpasswd.authenticate crypto ((bytes "ann", bytes "{SHA}pw") ∷ []) request
      ≡ granted (bytes "ann"))
    ↔ ((bytes "ann" ≡ bytes "ann")
        × ((hash : Bytes) × (last_hash (bytes "ann") none users ≡ some hash)
            × (verify_password crypto (bytes "pw") hash ≡ true)))
unfolding load_lines put_entry parse_line str_eq has_prefix Htpasswd.cut
authenticate-last_hash_iff_example =
    authenticate-last_hash_iff crypto users ((bytes "ann", bytes "{SHA}pw") ∷ []) request
      (bytes "ann") refl

abbrev home_only : Bytes → Bytes
home_only name = bytes "/root"

abbrev itself : Bytes → Bytes
itself name = expression (bytes "A")

resolve_expression-diverges_example : resolve_expression 50 itself (expression (bytes "A")) ≡ none
resolve_expression-diverges_example = resolve_expression-diverges 50 itself (bytes "A") refl refl
