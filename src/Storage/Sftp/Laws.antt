-- ===== src/Storage/Sftp/Laws.antt =====
-- The documented behaviour of the packages ssh and sftp that the backend relies on.
use backupgate.Prelude.{
  ℕ, ◌+◌, ◌≤◌, ◌≡◌, ◌≢◌, Bool, false, Option, none, some, [], ◌++◌, length, take, drop, Bytes,
}
use backupgate.Prelude.Int.{ℤ, pos}
use backupgate.Storage.Backend.{StoreError, ok, err}
use backupgate.Storage.Sftp.{truncate, keep, SftpLibrary}

-- The bytes `b` written over `c` from the offset `k` on.
abbrev pub overwrite : Bytes → ℕ → Bytes → Bytes
overwrite c k b = take k c ++ (b ++ drop (k + length b) c)

module _ {F : Type 0} (content : F → Bytes → Option Bytes) where
  -- The remote files are the same.
  abbrev pub SameFiles : F → F → Type 0
  SameFiles f g = (p : Bytes) → content g p ≡ content f p

  -- They are the same but for the one at `p`.
  abbrev pub SameBut : Bytes → F → F → Type 0
  SameBut p f g = (q : Bytes) → q ≢ p → content g q ≡ content f q

-- `content f p` is the remote file at `p`, `path_of h` the path of an open file and `at f h` its
-- offset. A call that is not there to write leaves every file as it is.
pub record IsSftp {F S C H : Type 0} (lib : SftpLibrary F S C H)
    (content : F → Bytes → Option Bytes) (path_of : H → Bytes) (at : F → H → ℕ) : Type 0 where
  pub connecting : (f : F) → SameFiles content f (lib.ssh_connect f).1
  pub starting : (f : F) (s : S) → SameFiles content f (lib.new_client f s).1
  pub client_closing : (f : F) (c : C) → SameFiles content f (lib.close_client f c)
  pub ssh_closing : (f : F) (s : S) → SameFiles content f (lib.close_ssh f s)
  pub making : (f : F) (c : C) (p : Bytes) → SameFiles content f (lib.mkdir_all f c p).1
  pub opening : (f : F) (c : C) (p : Bytes) → SameFiles content f (lib.open_read f c p).1
  pub reading : (f : F) (h : H) → SameFiles content f (lib.read_all f h).1
  pub closing : (f : F) (h : H) → SameFiles content f (lib.close f h)
  pub listing : (f : F) (c : C) (p : Bytes) → SameFiles content f (lib.read_dir f c p).1
  -- With `O_TRUNC` the file is empty, without it it is kept, or empty if there was none.
  pub truncated :
      (f f' : F) (c : C) (p : Bytes) (h : H)
      → lib.open_file f c p truncate ≡ (ok h, f')
      → (path_of h ≡ p) × (at f' h ≡ 0) × (content f' p ≡ some []) × SameBut content p f f'
  pub kept :
      (f f' : F) (c : C) (p : Bytes) (h : H)
      → lib.open_file f c p keep ≡ (ok h, f')
      → (path_of h ≡ p)
        × (at f' h ≡ 0)
        × (content f' p ≡ some (elim (content f p) [ none ↦ [] | some b ↦ b ]))
        × SameBut content p f f'
  pub sought :
      (f f' : F) (h : H) (k : ℕ)
      → lib.seek f h (pos k) ≡ (none, f')
      → (at f' h ≡ k) × SameFiles content f f'
  pub wrote :
      (f f' : F) (h : H) (b c : Bytes)
      → content f (path_of h) ≡ some c
      → at f h ≤ length c
      → lib.write f h b ≡ (none, f')
      → (content f' (path_of h) ≡ some (overwrite c (at f h) b))
        × (at f' h ≡ at f h + length b)
        × SameBut content (path_of h) f f'
  pub removed :
      (f f' : F) (c : C) (p : Bytes)
      → lib.remove f c p ≡ (none, f')
      → (content f' p ≡ none) × SameBut content p f f'
  -- Stat of a file tells its size, and changes none.
  pub stated :
      (f f' : F) (c : C) (p : Bytes) (n : ℤ)
      → lib.stat_size f c p ≡ (ok n, f')
      → (b : Bytes) × (content f p ≡ some b) × (n ≡ pos (length b)) × SameFiles content f f'
  pub opened_path :
      (f : F) (c : C) (p : Bytes) (h : H) → (lib.open_read f c p).0 ≡ ok h → path_of h ≡ p
  -- What is read of an open file is its content.
  pub read :
      (f : F) (h : H) (b : Bytes) → (lib.read_all f h).0 ≡ ok b → content f (path_of h) ≡ some b

-- The sessions: `is_live f c` is that the client `c` is not closed, and `client_of h` the client that
-- opened `h`. A file of a client that is closed cannot be read any more.
pub record HasSessions {F S C H : Type 0} (lib : SftpLibrary F S C H) (is_live : F → C → Bool)
    (client_of : H → C) : Type 0 where
  pub opened :
      (f : F) (c : C) (p : Bytes) (h : H) → (lib.open_read f c p).0 ≡ ok h → client_of h ≡ c
  pub dead : (f : F) (c : C) → is_live (lib.close_client f c) c ≡ false
  pub stays_dead :
      (f : F) (s : S) (c : C) → is_live f c ≡ false → is_live (lib.close_ssh f s) c ≡ false
  pub unreadable :
      (f : F) (h : H)
      → is_live f (client_of h) ≡ false
      → (e : StoreError) × ((lib.read_all f h).0 ≡ err e)
