-- ===== src/Auth/Chain.antt =====
-- internal/auth/chain.go with the credential lists of inline.go and file.go.
use backupgate.Prelude.{
  ◌≡◌, refl, ap, ◌∙◌, ◌↔◌, ◌⊎◌, inl, inr, ◌&&◌, Option, none, some, List, [], ◌∷◌, arith,
  if◌then◌else◌, Option-cases, All, Bytes, str_eq, str_eq_iff,
}
use backupgate.Auth.Types.{
  AuthRequest, AuthError, no_providers, all_failed, invalid_credentials, AuthResult, granted,
  denied, Credential,
}

-- The loop of `Authenticate` of InlineProvider and of FileProvider.
unfoldable pub check_credentials : List Credential → AuthRequest → AuthResult
check_credentials [] req = denied invalid_credentials
check_credentials (c ∷ cs) req =
    let rest = check_credentials cs req in
    if str_eq c.username req.username && str_eq c.password req.password
    then granted req.username
    else rest

-- `LookupSecret` of InlineProvider and of FileProvider.
unfoldable pub find_secret : List Credential → Bytes → Option Bytes
find_secret [] username = none
find_secret (c ∷ cs) username =
    let rest = find_secret cs username in
    if str_eq c.username username then some c.password else rest

-- An AuthProvider: one with a list of credentials, which is a SecretProvider too, or another one,
-- by its `Authenticate`.
pub data Provider : Type 0 where
  credentials : List Credential → Provider
  checker : (AuthRequest → AuthResult) → Provider

unfoldable pub authenticate_by : Provider → AuthRequest → AuthResult
unfolding check_credentials
authenticate_by (credentials cs) req = check_credentials cs req
authenticate_by (checker f) req = f req

-- `Chain`
abbrev pub Chain : Type 0
Chain = List Provider

-- The loop of `(*Chain).Authenticate`.
unfoldable pub try_providers : Chain → AuthRequest → AuthResult
try_providers [] req = denied all_failed
try_providers (p ∷ ps) req =
    let rest = try_providers ps req in
    elim (authenticate_by p req) [ granted identity ↦ granted identity | denied e ↦ rest ]

-- `(*Chain).Authenticate`
unfoldable pub authenticate : Chain → AuthRequest → AuthResult
unfolding try_providers
authenticate [] req = denied no_providers
authenticate (p ∷ ps) req = try_providers (p ∷ ps) req

-- `(*Chain).LookupSecret`
unfoldable pub lookup_secret : Chain → Bytes → Option Bytes
lookup_secret [] username = none
lookup_secret (credentials cs ∷ ps) username =
    let rest = lookup_secret ps username in
    elim (find_secret cs username) [ some secret ↦ some secret | none ↦ rest ]
lookup_secret (checker f ∷ ps) username = lookup_secret ps username

-- Some provider of the chain accepts the request, with the identity `u`, and none before it does.
pub data FirstGrants (req : AuthRequest) (u : Bytes) : Chain → Type 0 where
  this :
      (p : Provider) (ps : Chain) → authenticate_by p req ≡ granted u → FirstGrants req u (p ∷ ps)
  later :
      (p : Provider) (ps : Chain) (e : AuthError)
      → authenticate_by p req ≡ denied e
      → FirstGrants req u ps
      → FirstGrants req u (p ∷ ps)

AuthResult-cases :
    (r : AuthResult) → ((v : Bytes) × (r ≡ granted v)) ⊎ ((e : AuthError) × (r ≡ denied e))
AuthResult-cases (granted v) = inl (v, refl)
AuthResult-cases (denied e) = inr (e, refl)

try_providers_sound :
    (c : Chain) (req : AuthRequest) (u : Bytes)
    → try_providers c req ≡ granted u
    → FirstGrants req u c
unfolding try_providers
try_providers_sound [] req u h = cc
try_providers_sound (p ∷ ps) req u h = elim (AuthResult-cases (authenticate_by p req)) [
  | inl (v, e) ↦ this p ps (e ∙ ground arith)
  | inr (x, e) ↦ later p ps x e (try_providers_sound ps req u (ground arith))
]

try_providers_complete :
    (req : AuthRequest) (u : Bytes) {c : Chain}
    → FirstGrants req u c
    → try_providers c req ≡ granted u
unfolding try_providers
try_providers_complete req u (this p ps e) = ground arith
try_providers_complete req u (later p ps x e h) = ground (arith, try_providers_complete req u h)

-- A chain grants access exactly if one of its providers does, and then with the identity that the
-- first such provider returns; in particular an empty chain never does.
pub authenticate-FirstGrants_iff :
    (c : Chain) (req : AuthRequest) (u : Bytes)
    → (authenticate c req ≡ granted u) ↔ FirstGrants req u c
unfolding authenticate
authenticate-FirstGrants_iff [] req u = (λ h. cc, λ h. elim h [ ])
authenticate-FirstGrants_iff (p ∷ ps) req u =
    (try_providers_sound (p ∷ ps) req u, try_providers_complete req u)

find_secret-check :
    (cs : List Credential) (key u secret : Bytes)
    → find_secret cs u ≡ some secret
    → check_credentials cs (record { key = key; username = u; password = secret }) ≡ granted u
unfolding find_secret check_credentials
find_secret-check [] key u secret h = cc
find_secret-check (c ∷ cs) key u secret h = ground (
  arith,
  find_secret-check cs key u secret,
  str_eq_iff c.username u,
  str_eq_iff c.password secret,
)

skipped :
    (ps : Chain) (cs : List Credential) (key u secret : Bytes) (x : AuthError)
    → authenticate_by (credentials cs) (record { key = key; username = u; password = secret })
      ≡ denied x
    → lookup_secret (credentials cs ∷ ps) u ≡ some secret
    → lookup_secret ps u ≡ some secret
unfolding lookup_secret authenticate_by
skipped ps cs key u secret x a f = elim (Option-cases (find_secret cs u)) [
  | inl e ↦ ground arith
  | inr (s, e) ↦ ground (arith, find_secret-check cs key u secret)
]

-- A provider that, where it grants access, grants it to the user of the request.
abbrev pub GrantsUser : Provider → Type 0
GrantsUser p =
    (req : AuthRequest) (v : Bytes) → authenticate_by p req ≡ granted v → v ≡ req.username

lookup_secret-try :
    (c : Chain) (key u secret : Bytes)
    → All GrantsUser c
    → lookup_secret c u ≡ some secret
    → try_providers c (record { key = key; username = u; password = secret }) ≡ granted u
unfolding lookup_secret try_providers
lookup_secret-try [] key u secret h e = cc
lookup_secret-try (p ∷ ps) key u secret h e =
    let req : AuthRequest = record { key = key; username = u; password = secret } in
    elim (AuthResult-cases (authenticate_by p req)) [
      | inl (v, a) ↦ rw (a, try_providers) (ap granted (h.0 req v a))
      | inr (x, a) ↦ rw (a, try_providers) (lookup_secret-try ps key u secret h.1 (passed p x a e))
    ]
  where
    passed :
        (q : Provider) (x : AuthError)
        → authenticate_by q (record { key = key; username = u; password = secret }) ≡ denied x
        → lookup_secret (q ∷ ps) u ≡ some secret
        → lookup_secret ps u ≡ some secret
    passed (credentials cs) x a f = skipped ps cs key u secret x a f
    passed (checker g) x a f = f

-- Where no provider of a chain grants access to another user than that of the request, the secret that
-- the chain exposes for the verification of a signature is a password with which it grants the user
-- access, whatever the key.
pub lookup_secret-authenticate :
    (c : Chain) (key u secret : Bytes)
    → All GrantsUser c
    → lookup_secret c u ≡ some secret
    → authenticate c (record { key = key; username = u; password = secret }) ≡ granted u
unfolding authenticate lookup_secret
lookup_secret-authenticate [] key u secret h e = cc
lookup_secret-authenticate (p ∷ ps) key u secret h e = lookup_secret-try (p ∷ ps) key u secret h e

-- A list of credentials grants access to the user of the request only.
pub credentials-GrantsUser : (cs : List Credential) → GrantsUser (credentials cs)
unfolding authenticate_by
credentials-GrantsUser [] req v e = cc
credentials-GrantsUser (c ∷ cs) req v e = ground (arith, credentials-GrantsUser cs req v)
