-- ===== src/Auth/Htpasswd.antt =====
-- internal/auth/htpasswd.go: an htpasswd file, its entries and its hashes. The hash functions of Go's
-- crypto packages are parameters.
pub mod Entries
use backupgate.Prelude.{
  ℕ, zero, suc, ◌+◌, ◌-◌, ◌*◌, ◌/◌, ◌%◌, ◌<◌, ◌≡◌, Bool, false, ◌||◌, Option, none, some, List, [],
  ◌∷◌, ◌++◌, ltb, ◌==◌, if◌then◌else◌, ◌>>=◌, length, get_or, take, drop, All, Bytes, bytes, str_eq,
  has_prefix,
}
use backupgate.Auth.Types.{
  AuthRequest, user_not_found, invalid_password, AuthResult, granted, denied,
}
use backupgate.Config.Keys.{find_key}

-- What the provider uses of bcrypt, SHA-1 with base64, and MD5, whose sum has 16 bytes.
pub record Crypto : Type 0 where
  pub bcrypt_matches : Bytes → Bytes → Bool
  pub sha1_base64 : Bytes → Bytes
  pub md5 : Bytes → Bytes
  pub md5_size : (b : Bytes) → length (md5 b) ≡ 16
  pub md5_bytes : (b : Bytes) → All (λ c. c < 256) (md5 b)

abbrev magic : Bytes
magic = bytes "$apr1$"

abbrev itoa64 : Bytes
itoa64 = bytes "./0123456789ABCDEFGHIJKLMNOPQRSTUVWXYZabcdefghijklmnopqrstuvwxyz"

-- `to64`: `n` digits of 6 bits, the lowest first.
pub to64 : ℕ → ℕ → Bytes
to64 v zero = []
to64 v (suc n) = get_or itoa64 (v % 64) 0 ∷ to64 (v / 64) n

-- The part of `s` in front of the first byte `c`.
before : ℕ → Bytes → Bytes
before c [] = []
before c (b ∷ s) = let rest = before c s in if b == c then [] else b ∷ rest

-- `strings.Cut(s, sep)` at a single byte; `none` where it does not occur.
unfoldable pub cut : ℕ → Bytes → Option (Bytes × Bytes)
cut c [] = none
cut c (b ∷ s) =
    let rest = cut c s in
    if b == c then some ([], s) else elim rest [ none ↦ none | some r ↦ some (b ∷ r.0, r.1) ]

module _ (crypto : Crypto) where
  open crypto use {md5}

  -- `for i := len(pw); i > 0; i -= 16`: what is written to the context, on fuel.
  final_blocks : ℕ → ℕ → Bytes → Bytes
  final_blocks zero i final = []
  final_blocks (suc fuel) i final =
      let rest = final_blocks fuel (i - 16) final in
      if i == 0 then [] else (if ltb 16 i then final else take i final) ++ rest

  -- `for i := len(pw); i > 0; i >>= 1`, on fuel.
  bit_bytes : ℕ → ℕ → Bytes → Bytes
  bit_bytes zero i pw = []
  bit_bytes (suc fuel) i pw =
      let rest = bit_bytes fuel (i / 2) pw in
      if i == 0 then [] else (if i % 2 == 1 then 0 ∷ [] else take 1 pw) ++ rest

  -- The round `i` of the thousand.
  crypt_round : Bytes → Bytes → ℕ → Bytes → Bytes
  crypt_round pw salt i final = md5 (
      (if i % 2 == 1 then pw else final)
      ++ ((if i % 3 == 0 then [] else salt)
          ++ ((if i % 7 == 0 then [] else pw) ++ (if i % 2 == 1 then final else pw))))

  -- The loop over the rounds: `n` are left, from `i` on.
  crypt_rounds : ℕ → ℕ → Bytes → Bytes → Bytes → Bytes
  crypt_rounds zero i pw salt final = final
  crypt_rounds (suc n) i pw salt final =
      crypt_rounds n (i + 1) pw salt (crypt_round pw salt i final)

  -- The six groups of three bytes, as text.
  encode_final : Bytes → Bytes
  encode_final final =
      group 0 6 12
      ++ (group 1 7 13 ++ (group 2 8 14 ++ (group 3 9 15 ++ (group 4 10 5 ++ to64 (at 11) 2))))
    where
      at : ℕ → ℕ
      at i = get_or final i 0

      group : ℕ → ℕ → ℕ → Bytes
      group a b c = to64 (at a * 65536 + at b * 256 + at c) 4

  -- `md5Crypt`, with the magic of its one caller.
  pub md5_crypt : Bytes → Bytes → Bytes
  md5_crypt pw salt_text =
      let salt = take 8 (before b'$' salt_text) in
      let alt = md5 (pw ++ (salt ++ pw)) in
      let context =
        pw
        ++ (magic
            ++ (salt
                ++ (final_blocks (length pw) (length pw) alt
                    ++ bit_bytes (length pw) (length pw) pw))) in
      magic ++ (salt ++ (b'$' ∷ encode_final (crypt_rounds 1000 0 pw salt (md5 context))))

  -- `strings.Split(hashed, "$")`: its third field, if it has at least four.
  salt_field : Bytes → Option Bytes
  salt_field hashed = do
    first ← cut b'$' hashed
    second ← cut b'$' first.1
    third ← cut b'$' second.1
    some third.0

  -- `apr1Hash`
  apr1_hash : Bytes → Bytes → Bytes
  apr1_hash password hashed = elim (salt_field hashed) [
    | none ↦ []
    | some salt ↦ md5_crypt password salt
  ]

  abbrev trim_prefix : Bytes → Bytes → Bytes
  trim_prefix p s = if has_prefix p s then drop (length p) s else s

  -- `verifyPassword`
  pub verify_password : Bytes → Bytes → Bool
  verify_password plain hashed =
      if has_prefix (bytes "$2y$") hashed
        || (has_prefix (bytes "$2a$") hashed || has_prefix (bytes "$2b$") hashed)
      then crypto.bcrypt_matches
          (bytes "$2a$"
            ++ trim_prefix (bytes "$2b$")
                (trim_prefix (bytes "$2a$") (trim_prefix (bytes "$2y$") hashed)))
          plain
      else if has_prefix (bytes "{SHA}") hashed
      then str_eq (bytes "{SHA}" ++ crypto.sha1_base64 plain) hashed
      else if has_prefix magic hashed
      then str_eq (apr1_hash plain hashed) hashed
      else false

  -- `(*HtpasswdProvider).Authenticate`; the entries are those of `load`.
  pub authenticate : List (Bytes × Bytes) → AuthRequest → AuthResult
  authenticate entries req = elim (find_key req.username entries) [
    | none ↦ denied user_not_found
    | some hashed ↦
        if verify_password req.password hashed
        then granted req.username
        else denied invalid_password
  ]

-- `p.entries[user] = hash`
unfoldable pub put_entry : Bytes → Bytes → List (Bytes × Bytes) → List (Bytes × Bytes)
put_entry user hash [] = (user, hash) ∷ []
put_entry user hash ((u, h) ∷ m) =
    if str_eq u user then (user, hash) ∷ m else (u, h) ∷ put_entry user hash m

-- A line of the file: nothing, a comment, an entry, or an error.
pub data Line : Type 0 where
  blank malformed : Line
  entry : Bytes → Bytes → Line

-- What the loop of `load` makes of a line that `strings.TrimSpace` has trimmed.
unfoldable pub parse_line : Bytes → Line
parse_line line =
    if str_eq line [] || has_prefix (bytes "#") line then blank else elim (cut b':' line) [
      | none ↦ malformed
      | some ([], hash) ↦ malformed
      | some (c ∷ user, []) ↦ malformed
      | some (c ∷ user, h ∷ hash) ↦ entry (c ∷ user) (h ∷ hash)
    ]

-- The entries, or the number of the first malformed line.
pub data Loaded : Type 0 where
  loaded : List (Bytes × Bytes) → Loaded
  invalid_entry : ℕ → Loaded

-- The loop of `load` over the trimmed lines, `n` of which are read.
unfoldable pub load_lines : ℕ → List (Bytes × Bytes) → List Bytes → Loaded
load_lines n entries [] = loaded entries
load_lines n entries (line ∷ lines) = elim (parse_line line) [
  | blank ↦ load_lines (n + 1) entries lines
  | malformed ↦ invalid_entry (n + 1)
  | entry user hash ↦ load_lines (n + 1) (put_entry user hash entries) lines
]
