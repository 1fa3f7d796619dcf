-- ===== src/Buffer/FileBuffer.antt =====
-- internal/buffer/file.go: an upload held in a temporary file. The files of the operating system are a
-- parameter.
pub mod Content
mod Tests
use backupgate.Prelude.{
  ℕ, ◌≤◌, ◌≡◌, ◌⊎◌, inl, inr, Bool, true, false, Option, none, some, [], ◌∷◌, ◌++◌, ltb, ◌==◌,
  if◌then◌else◌, length, take, drop, Bytes, bytes,
}
use backupgate.Prelude.Int.{ℤ, pos, ◌+ℤ◌, ltb_ℤ, wrap64}
use backupgate.Io.{
  IoError, buffer_closed, invalid_whence, negative_seek, ReadResult, ReaderCapabilities,
  seek_target,
}

-- What the buffer uses of an os.File whose state, with that of its directory entry, is `F`.
pub record OsFile (F : Type 0) : Type 0 where
  pub write_at : F → Bytes → ℤ → ℕ × Option IoError × F
  pub read_at : F → ℕ → ℤ → ReadResult
  pub name : F → Bytes
  pub sync : F → Option IoError × F
  pub close : F → Option IoError × F
  pub remove : F → Option IoError × F

-- The documented behaviour of an open os.File with the bytes `content`: `WriteAt` at the end appends
-- what it reports as written, which is all of `p` if it reports no error; `ReadAt` fills `p`, or
-- reports io.EOF.
pub record IsOsFile {F : Type 0} (os : OsFile F) (content : F → Bytes) : Type 0 where
  pub appended :
      (f f' : F) (p : Bytes) (n : ℕ) (e : Option IoError)
      → os.write_at f p (pos (length (content f))) ≡ (n, e, f')
      → (content f' ≡ content f ++ take n p) × (n ≤ length p) × (e ≡ none → n ≡ length p)
  pub filled :
      (f : F) (n at : ℕ)
      → os.read_at f n (pos at) ≡ (
        take n (drop at (content f)),
        if ltb (length (take n (drop at (content f)))) n then some IoError.eof else none,
      )

-- `FileBuffer`
pub record FileBuffer (F : Type 0) : Type 0 where
  pub file : F
  pub size : ℤ
  pub read_pos : ℤ
  pub closed : Bool

-- `strings.ReplaceAll(key, "/", "_")`
pub safe_key : Bytes → Bytes
safe_key [] = []
safe_key (c ∷ key) = (if c == b'/' then b'_' else c) ∷ safe_key key

module _ {F : Type 0} (os : OsFile F) where
  -- `NewFileBuffer`; `mkdir_all`, `clean` and `create_temp` are `os.MkdirAll`, `filepath.Clean` and
  -- `os.CreateTemp`.
  pub new_file_buffer :
      (Bytes → Option IoError)
      → (Bytes → Bytes)
      → (Bytes → Bytes → F ⊎ IoError)
      → Bytes
      → Bytes
      → FileBuffer F ⊎ IoError
  unfolding safe_key
  new_file_buffer mkdir_all clean create_temp tmp_dir key =
      let pattern = bytes "backupgate_" ++ (safe_key key ++ bytes "_*") in
      elim (mkdir_all tmp_dir) [
        | some e ↦ inr e
        | none ↦ elim (create_temp (clean tmp_dir) pattern) [
          | inr e ↦ inr e
          | inl f ↦ inl (record { file = f; size = pos 0; read_pos = pos 0; closed = false })
        ]
      ]

  -- `Write`
  pub write : FileBuffer F → Bytes → ℕ × Option IoError × FileBuffer F
  write fb p =
      if fb.closed
      then (0, some buffer_closed, fb)
      else (let (n, err, f) = os.write_at fb.file p fb.size in
          (n, err, record fb { file = f; size = wrap64 (fb.size +ℤ pos n) }))

  -- `Read`
  pub read : FileBuffer F → ℕ → ReadResult × FileBuffer F
  read fb n =
      let (p, err) = os.read_at fb.file n fb.read_pos in
      ((p, err), record fb { read_pos = wrap64 (fb.read_pos +ℤ pos (length p)) })

  -- `ReadAt`
  pub read_at : FileBuffer F → ℕ → ℤ → ReadResult
  read_at fb n off = os.read_at fb.file n off

  -- `Seek`
  pub seek : FileBuffer F → ℤ → ℤ → ℤ × Option IoError × FileBuffer F
  unfolding seek_target
  seek fb offset whence = elim (seek_target fb.read_pos fb.size offset whence) [
    | none ↦ (pos 0, some (invalid_whence whence), fb)
    | some new_pos ↦
        if ltb_ℤ new_pos (pos 0)
        then (pos 0, some (negative_seek new_pos), fb)
        else (new_pos, none, record fb { read_pos = new_pos })
  ]

  -- `Size`
  pub size : FileBuffer F → ℤ
  size fb = fb.size

  -- `Capabilities`
  pub capabilities : FileBuffer F → ReaderCapabilities
  capabilities fb = record { read_at = true; seek = true }

  -- `FileName`
  pub file_name : FileBuffer F → Option Bytes
  file_name fb = if fb.closed then none else some (os.name fb.file)

  -- `Sync`
  pub sync : FileBuffer F → Option IoError × FileBuffer F
  sync fb =
      if fb.closed
      then (some buffer_closed, fb)
      else (let (err, f) = os.sync fb.file in (err, record fb { file = f }))

  -- `Close`
  pub close : FileBuffer F → Option IoError × FileBuffer F
  close fb =
      if fb.closed
      then (none, fb)
      else (let (err, f) = os.close fb.file in
          elim err [
            | some e ↦ (some e, record fb { file = f; closed = true })
            | none ↦
                let (removed, f') = os.remove f in (removed, record fb { file = f'; closed = true })
          ])
