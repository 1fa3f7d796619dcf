-- ===== src/Storage/Sftp.antt =====
-- internal/storage/sftp_backend.go: the backend over SFTP. The packages ssh and sftp are parameters.
pub mod Laws
pub mod Content
pub mod Session
pub mod Uploads
pub mod Promise
pub mod Unreadable
pub mod Finishes
pub mod Memory
mod Tests
use backupgate.Prelude.{
  ℕ, zero, suc, ◌+◌, ◌*◌, Bool, true, false, ◌&&◌, Option, none, some, List, [], ◌∷◌, ◌++◌,
  if◌then◌else◌, set, Bytes,
}
use backupgate.Prelude.Int.{ℤ, pos, leb_ℤ}
use backupgate.Io.{IoError, eof, ReadResult}
use backupgate.Storage.Backend.{StoreError, still_running, failed, Stored, ok, err, Entry, Backend}

-- The flags of `OpenFile`: `os.O_CREATE|os.O_WRONLY`, with or without `os.O_TRUNC`.
pub data OpenMode : Type 0 where
  truncate keep : OpenMode

-- What the backend uses of the packages ssh and sftp. `F` is the state of the remote machine and its
-- connections, `S` an SSH connection, `C` an SFTP client over one, `H` an open remote file.
-- `read_all` is io.Copy from an open file.
pub record SftpLibrary (F S C H : Type 0) : Type 0 where
  pub ssh_connect : F → Stored S × F
  pub new_client : F → S → Stored C × F
  pub close_client : F → C → F
  pub close_ssh : F → S → F
  pub mkdir_all : F → C → Bytes → Option StoreError × F
  pub open_file : F → C → Bytes → OpenMode → Stored H × F
  pub open_read : F → C → Bytes → Stored H × F
  pub seek : F → H → ℤ → Option StoreError × F
  pub write : F → H → Bytes → Option StoreError × F
  pub read_all : F → H → Stored Bytes × F
  pub close : F → H → F
  pub remove : F → C → Bytes → Option StoreError × F
  pub read_dir : F → C → Bytes → Stored (List Entry) × F
  pub stat_size : F → C → Bytes → Stored ℤ × F

-- The upload's reader: whether it is an io.Seeker, its Seek from the start, and its Read into `n`
-- bytes.
pub record Source (R : Type 0) : Type 0 where
  pub is_seeker : Bool
  pub seek : R → ℤ → Option IoError × R
  pub read : R → ℕ → ReadResult × R

-- The errors that the backend makes itself: "seeking reader", "reader does not support resume seek",
-- "reading upload data", and the one of a context that is done.
abbrev pub seek_failed : StoreError
seek_failed = failed 1

abbrev pub no_resume_seek : StoreError
no_resume_seek = failed 2

abbrev pub read_failed : StoreError
read_failed = failed 3

abbrev pub cancelled : StoreError
cancelled = failed 4

-- `make([]byte, 128*1024)`
abbrev pub copy_size : ℕ
copy_size = 128 * 1024

-- What the backend is built of: the library, the reader, whether the context is done in the round `i`
-- of a copy, the fuel for its rounds, `path.Join` of the base path, and `path.Dir`.
pub record Setting (F S C H R : Type 0) : Type 0 where
  pub library : SftpLibrary F S C H
  pub source : Source R
  pub is_done : ℕ → Bool
  pub rounds : ℕ
  pub remote_path : Bytes → Bytes
  pub path_dir : Bytes → Bytes

module _ {F S C H R : Type 0} (set : Setting F S C H R) where
  open set use {library, source}

  -- The state: that of the remote machine, and the reader's.
  abbrev pub State : Type 0
  State = F × R

  -- `withClient`; `refuse` makes the result of an error of its own.
  pub with_client : {A : Type 0} → (StoreError → A) → (C → State → A × State) → State → A × State
  with_client refuse fn (f, r) =
      let (ssh, f₁) = library.ssh_connect f in
      elim ssh [
        | err e ↦ (refuse e, (f₁, r))
        | ok s ↦
            let (client, f₂) = library.new_client f₁ s in
            elim client [
              | err e ↦ (refuse e, (library.close_ssh f₂ s, r))
              | ok c ↦
                  let (result, w) = fn c (f₂, r) in
                  (result, (library.close_ssh (library.close_client w.0 c) s, w.1))
            ]
      ]

  -- `seekTo`
  pub seek_to : R → ℤ → Option StoreError × R
  seek_to r offset =
      if source.is_seeker
      then (let (failure, r') = source.seek r offset in
          elim failure [ none ↦ (none, r') | some e ↦ (some seek_failed, r') ])
      else if leb_ℤ offset (pos 0) && leb_ℤ (pos 0) offset
      then (none, r)
      else (some no_resume_seek, r)

  -- What `copyWithContext` does behind a Read and the Write of what it read: it returns, or goes on.
  abbrev pub after_read : Option IoError → Option (Option StoreError)
  after_read none = none
  after_read (some eof) = some none
  after_read (some _) = some (some read_failed)

  -- `if n > 0 { dst.Write(buf[:n]) }`
  abbrev pub write_some : F → H → Bytes → Option StoreError × F
  write_some f h [] = (none, f)
  write_some f h (b ∷ bs) = library.write f h (b ∷ bs)

  -- The Seek of the remote file, which `ResumeUpload` only has.
  abbrev pub seek_if : F → H → Option ℤ → Option StoreError × F
  seek_if f h none = (none, f)
  seek_if f h (some offset) = library.seek f h offset

  -- `copyWithContext` from its round `i` on: the error, the bytes read, and the state.
  pub copy_with_context : ℕ → ℕ → H → State → (Option StoreError × Bytes) × State
  copy_with_context zero i h w = ((some still_running, []), w)
  copy_with_context (suc fuel) i h (f, r) = elim (set.is_done i) [
    | true ↦ ((some cancelled, []), (f, r))
    | false ↦
        let ((p, read_err), r') = source.read r copy_size in
        let (failure, f') = write_some f h p in
        elim failure [
          | some e ↦ ((some e, p), (f', r'))
          | none ↦ elim (after_read read_err) [
            | some result ↦ ((result, p), (f', r'))
            | none ↦ let ((e, q), w) = copy_with_context fuel (i + 1) h (f', r') in ((e, p ++ q), w)
          ]
        ]
  ]

  -- The functions that `Upload` and `ResumeUpload` give to `withClient`, the second with an offset.
  pub store : OpenMode → Option ℤ → Bytes → C → State → (Option StoreError × Bytes) × State
  unfolding copy_with_context
  store mode offset full_path c (f, r) =
      let (made, f₁) = library.mkdir_all f c (set.path_dir full_path) in
      elim made [
        | some e ↦ ((some e, []), (f₁, r))
        | none ↦
            let (file, f₂) = library.open_file f₁ c full_path mode in
            elim file [
              | err e ↦ ((some e, []), (f₂, r))
              | ok h ↦
                  let (sought, f₃) = seek_if f₂ h offset in
                  elim sought [
                    | some e ↦ ((some e, []), (library.close f₃ h, r))
                    | none ↦
                        let (result, w) = copy_with_context set.rounds 0 h (f₃, r) in
                        (result, (library.close w.0 h, w.1))
                  ]
            ]
      ]

  abbrev pub refuse_copy : StoreError → Option StoreError × Bytes
  refuse_copy e = (some e, [])

  -- `Upload`
  pub upload : State → Bytes → ℤ → Option StoreError × Bytes × State
  unfolding with_client seek_to store
  upload (f, r) remote_path size =
      let (failure, r') = seek_to r (pos 0) in
      elim failure [
        | some e ↦ (some e, [], (f, r'))
        | none ↦
            let ((e, read), w) =
              with_client refuse_copy (store truncate none (set.remote_path remote_path)) (f, r') in
            (e, read, w)
      ]

  -- `ResumeUpload`
  pub resume_upload : State → Bytes → ℤ → ℤ → Option StoreError × Bytes × State
  unfolding with_client seek_to store
  resume_upload (f, r) remote_path offset total_size =
      let (failure, r') = seek_to r offset in
      elim failure [
        | some e ↦ (some e, [], (f, r'))
        | none ↦
            let ((e, read), w) =
              with_client refuse_copy (store keep (some offset) (set.remote_path remote_path))
                (f, r') in
            (e, read, w)
      ]

  -- A call of the library, with its error, as a function for `withClient`.
  abbrev pub on_remote : {A : Type 0} → (F → C → A × F) → C → State → A × State
  on_remote call c (f, r) = let (a, f') = call f c in (a, (f', r))

  -- `Download`: the open file.
  pub open_remote : State → Bytes → Stored H × State
  unfolding with_client
  open_remote w remote_path =
      with_client err (on_remote (λ f c. library.open_read f c (set.remote_path remote_path))) w

  -- `Download`, and what its caller does with the file: it is read to its end, and closed.
  pub download : State → Bytes → Stored Bytes × State
  unfolding open_remote
  download w remote_path =
      let (file, w') = open_remote w remote_path in
      elim file [
        | err e ↦ (err e, w')
        | ok h ↦ let (content, f) = library.read_all w'.0 h in (content, (library.close f h, w'.1))
      ]

  -- `Delete`
  pub delete : State → Bytes → Option StoreError × State
  unfolding with_client
  delete w remote_path =
      with_client some (on_remote (λ f c. library.remove f c (set.remote_path remote_path))) w

  -- `List`
  pub list : State → Bytes → Stored (List Entry) × State
  unfolding with_client
  list w remote_dir =
      with_client err (on_remote (λ f c. library.read_dir f c (set.remote_path remote_dir))) w

  -- `RemoteSize`
  pub remote_size : State → Bytes → Stored ℤ × State
  unfolding with_client
  remote_size w remote_path =
      with_client err (on_remote (λ f c. library.stat_size f c (set.remote_path remote_path))) w

  -- `HealthCheck`
  pub health_check : State → Option StoreError × State
  unfolding with_client
  health_check w = with_client some (λ c v. (none, v)) w

  -- `SFTPBackend` as the `Backend` of one upload.
  abbrev pub sftp_backend : Backend State
  sftp_backend = record {
    upload = upload;
    resume_upload = resume_upload;
    remote_size = remote_size;
    download = download;
    delete = delete;
    list = list;
  }
