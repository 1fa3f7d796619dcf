-- ===== src/Auth/Htpasswd/Entries.antt =====
-- Which entry of an htpasswd file counts.
use backupgate.Prelude.{
  ℕ, ◌+◌, ◌≡◌, refl, ap, ◌∙◌, ◌↔◌, ◌⊎◌, inl, inr, true, Option, none, some, List, [], ◌∷◌, arith,
  if◌then◌else◌, Bytes, str_eq, str_eq_iff,
}
use backupgate.Auth.Types.{AuthRequest, granted}
use backupgate.Config.Keys.{find_key}
use backupgate.Auth.Htpasswd.{
  Crypto, verify_password, authenticate, put_entry, Line, blank, malformed, entry, parse_line,
  loaded, load_lines,
}

-- The hash of the last of the lines that names the user, `before` where there is none.
abbrev pub last_hash : Bytes → Option Bytes → List Bytes → Option Bytes
last_hash user before [] = before
last_hash user before (line ∷ lines) =
    last_hash user
      (elim (parse_line line) [
        | blank ↦ before
        | malformed ↦ before
        | entry u hash ↦ if str_eq u user then some hash else before
      ])
      lines

find_key-put_entry :
    (user u hash : Bytes) (m : List (Bytes × Bytes))
    → find_key user (put_entry u hash m) ≡ (if str_eq u user then some hash else find_key user m)
unfolding find_key put_entry
find_key-put_entry user u hash [] = refl
find_key-put_entry user u hash ((v, w) ∷ m) =
    ground (
      arith,
      str_eq_iff v user,
      str_eq_iff v u,
      str_eq_iff u user,
      find_key-put_entry user u hash m,
    )

Line-cases :
    (l : Line) → ((l ≡ blank) ⊎ (l ≡ malformed)) ⊎ ((u : Bytes) × (h : Bytes) × (l ≡ entry u h))
Line-cases blank = inl (inl refl)
Line-cases malformed = inl (inr refl)
Line-cases (entry u h) = inr (u, h, refl)

load_lines-last :
    (n : ℕ) (user : Bytes) (lines : List Bytes) (m r : List (Bytes × Bytes))
    → load_lines n m lines ≡ loaded r
    → find_key user r ≡ last_hash user (find_key user m) lines
unfolding load_lines
load_lines-last n user [] m r e = ground arith
load_lines-last n user (line ∷ lines) m r e = elim (Line-cases (parse_line line)) [
  | inl (inl f) ↦ rw f (load_lines-last (n + 1) user lines m r (ground arith))
  | inl (inr f) ↦ ground arith
  | inr (u, h, f) ↦ rw f (
      load_lines-last (n + 1) user lines (put_entry u h m) r (ground arith)
      ∙ ap (λ b. last_hash user b lines) (find_key-put_entry user u h m))
]

granted_iff :
    (crypto : Crypto) (m : List (Bytes × Bytes)) (req : AuthRequest) (u : Bytes)
    (last : Option Bytes)
    → find_key req.username m ≡ last
    → (authenticate crypto m req ≡ granted u) ↔ (
        (u ≡ req.username)
        × ((hash : Bytes) × (last ≡ some hash) × (verify_password crypto req.password hash ≡ true)))
unfolding authenticate
granted_iff crypto m req u none e = (λ h. absurd (ground arith), λ h. cc (h.1.1))
granted_iff crypto m req u (some hash) e =
    (λ h. (ground arith, (hash, refl, ground arith)), λ h. ground (arith, h.1.1, h.1.2))

-- With the entries of a file that loads, a request is granted, to its own user, exactly if the last
-- line of the file that names the user has a hash that the password verifies against.
pub authenticate-last_hash_iff :
    (crypto : Crypto) (lines : List Bytes) (m : List (Bytes × Bytes)) (req : AuthRequest)
    (u : Bytes)
    → load_lines 0 [] lines ≡ loaded m
    → (authenticate crypto m req ≡ granted u) ↔ (
        (u ≡ req.username)
        × ((hash : Bytes) × (last_hash req.username none lines ≡ some hash)
            × (verify_password crypto req.password hash ≡ true)))
unfolding find_key
authenticate-last_hash_iff crypto lines m req u e =
    granted_iff crypto m req u _ (load_lines-last 0 req.username lines [] m e)
