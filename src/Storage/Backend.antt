-- ===== src/Storage/Backend.antt =====
-- internal/storage/backend.go: the interface of a storage backend, and what it promises.
use backupgate.Prelude.{
  ℕ, ◌+◌, ◌≤◌, ◌≡◌, ◌≢◌, Bool, Option, none, some, List, ◌++◌, length, take, drop, Bytes,
}
use backupgate.Prelude.Int.{ℤ, pos}

-- What the code tells apart in an error of a backend. `still_running` is the model's own: a copy that
-- is out of fuel.
pub data StoreError : Type 0 where
  not_exist unsupported still_running : StoreError
  failed : ℕ → StoreError

-- `(T, error)`
pub data Stored {ℓ} (A : Type ℓ) : Type ℓ where
  ok : A → Stored A
  err : StoreError → Stored A

-- `Entry`, its modification time in nanoseconds.
pub record Entry : Type 0 where
  pub name : Bytes
  pub size : ℤ
  pub mod_time : ℤ
  pub is_dir : Bool

-- `Backend` for one upload: the state `W` holds the remote files and the reader of the upload's
-- payload, which `Upload` and `ResumeUpload` read; they return what they read as well. `Download` is
-- the call and the reading of its result.
pub record Backend (W : Type 0) : Type 0 where
  pub upload : W → Bytes → ℤ → Option StoreError × Bytes × W
  pub resume_upload : W → Bytes → ℤ → ℤ → Option StoreError × Bytes × W
  pub remote_size : W → Bytes → Stored ℤ × W
  pub download : W → Bytes → Stored Bytes × W
  pub delete : W → Bytes → Option StoreError × W
  pub list : W → Bytes → Stored (List Entry) × W

-- What the interface documents of the operations that write, remove or measure a remote file, with what
-- they leave alone: every file but that at `p` is as it was.
pub record IsFileStore {W : Type 0} (b : Backend W) (remote : W → Bytes → Option Bytes)
    (file_of : Bytes → Bytes) : Type 0 where
  -- `Upload` "writes the full content from reader to the remote path".
  pub uploaded :
      (w : W) (p : Bytes) (n : ℤ) (read : Bytes) (w' : W)
      → b.upload w p n ≡ (none, read, w')
      → (remote w' p ≡ some read) × ((q : Bytes) → file_of q ≢ file_of p → remote w' q ≡ remote w q)
  -- `ResumeUpload` "continues a previously interrupted upload from the given offset": what it read
  -- stands from there on, behind the bytes that were in front of it.
  pub resumed :
      (w : W) (p : Bytes) (k : ℕ) (n : ℤ) (read : Bytes) (w' : W) (c : Bytes)
      → remote w p ≡ some c
      → k ≤ length c
      → b.resume_upload w p (pos k) n ≡ (none, read, w')
      → (remote w' p ≡ some (take k c ++ (read ++ drop (k + length read) c)))
        × ((q : Bytes) → file_of q ≢ file_of p → remote w' q ≡ remote w q)
  -- `Delete` "removes a file from the remote path".
  pub deleted :
      (w : W) (p : Bytes) (w' : W)
      → b.delete w p ≡ (none, w')
      → (remote w' p ≡ none) × ((q : Bytes) → file_of q ≢ file_of p → remote w' q ≡ remote w q)
  -- `RemoteSize` "returns the current size of the file on remote storage".
  pub sized :
      (w : W) (p : Bytes) (n : ℤ) (w' : W)
      → b.remote_size w p ≡ (ok n, w')
      → (c : Bytes) × (remote w p ≡ some c)
        × (n ≡ pos (length c))
        × ((q : Bytes) → remote w' q ≡ remote w q)

-- The behaviour of a backend that the upload and the rotation rely on: `remote w p` is the content
-- of the file at `p`. Two paths may name one file, which is `file_of` both.
pub record IsBackend {W : Type 0} (b : Backend W) (remote : W → Bytes → Option Bytes) : Type 0 where
  pub file_of : Bytes → Bytes
  pub one_file : (w : W) (p q : Bytes) → file_of p ≡ file_of q → remote w p ≡ remote w q
  -- `Upload` "writes the full content from reader to the remote path".
  pub uploaded :
      (w : W) (p : Bytes) (n : ℤ) (read : Bytes) (w' : W)
      → b.upload w p n ≡ (none, read, w')
      → remote w' p ≡ some read
  -- `Download` "reads the remote file", and changes none.
  pub downloaded :
      (w : W) (p c : Bytes) (w' : W)
      → b.download w p ≡ (ok c, w')
      → (remote w p ≡ some c) × ((q : Bytes) → remote w' q ≡ remote w q)
  -- `Delete` "removes a file from the remote path".
  pub deleted :
      (w : W) (p : Bytes) (w' : W)
      → b.delete w p ≡ (none, w')
      → (remote w' p ≡ none) × ((q : Bytes) → file_of q ≢ file_of p → remote w' q ≡ remote w q)
  -- `List` changes no file.
  pub listed : (w : W) (p : Bytes) (q : Bytes) → remote (b.list w p).1 q ≡ remote w q
