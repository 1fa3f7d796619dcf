-- ===== src/Pipeline/Readers.antt =====
-- internal/pipeline/pipeline.go: the reader of a request's body, and the reader that hashes what it
-- reads.
pub mod Hashed
mod Tests
use backupgate.Prelude.{ℕ, false, Option, none, some, [], ◌++◌, ltb, if◌then◌else◌, length, Bytes}
use backupgate.Prelude.Int.{ℤ, pos, ◌+ℤ◌, wrap64}
use backupgate.Io.{IoError, read_only, ReadResult, ReaderCapabilities}

-- What the readers use of the io.ReadCloser below, whose state is `R`: a Read into `n` bytes.
pub record ReadCloser (R : Type 0) : Type 0 where
  pub read : R → ℕ → ReadResult × R
  pub close : R → Option IoError × R

-- `streamingUploadReader`
pub record StreamingUploadReader (R : Type 0) : Type 0 where
  pub r : R
  pub size : ℤ

-- `hashingUploadReader`. A hash is the bytes written to it: its sum is a function of them.
pub record HashingUploadReader (R : Type 0) : Type 0 where
  pub upload_reader : R
  pub sha_hasher : Bytes
  pub md5_hasher : Bytes
  pub size : ℤ

module _ {R : Type 0} (below : ReadCloser R) where
  -- `NewStreamingUploadReader`
  pub new_streaming_upload_reader : R → StreamingUploadReader R
  new_streaming_upload_reader r = record { r = r; size = pos 0 }

  -- `(*streamingUploadReader).Read`
  pub read_streaming : StreamingUploadReader R → ℕ → ReadResult × StreamingUploadReader R
  read_streaming s n =
      let ((p, err), r) = below.read s.r n in
      ((p, err), record { r = r; size = wrap64 (s.size +ℤ pos (length p)) })

  -- `(*streamingUploadReader).Write`
  pub write_streaming : StreamingUploadReader R → Bytes → ℕ × Option IoError
  write_streaming s p = (0, some read_only)

  -- `(*streamingUploadReader).Close`
  pub close_streaming : StreamingUploadReader R → Option IoError × StreamingUploadReader R
  close_streaming s = let (err, r) = below.close s.r in (err, record s { r = r })

  -- `(*streamingUploadReader).Capabilities`
  pub capabilities_streaming : StreamingUploadReader R → ReaderCapabilities
  capabilities_streaming s = record { read_at = false; seek = false }

  -- `(*streamingUploadReader).FileName`
  pub file_name_streaming : StreamingUploadReader R → Option Bytes
  file_name_streaming s = none

  -- `newHashingUploadReader`
  pub new_hashing_upload_reader : R → HashingUploadReader R
  new_hashing_upload_reader r = record {
    upload_reader = r;
    sha_hasher = [];
    md5_hasher = [];
    size = pos 0;
  }

  -- `(*hashingUploadReader).Read`: `n > 0` is that some byte was read.
  pub read_hashing : HashingUploadReader R → ℕ → ReadResult × HashingUploadReader R
  read_hashing h n =
      let ((p, err), r) = below.read h.upload_reader n in
      (
        (p, err),
        if ltb 0 (length p)
            then record {
              upload_reader = r;
              sha_hasher = h.sha_hasher ++ p;
              md5_hasher = h.md5_hasher ++ p;
              size = wrap64 (h.size +ℤ pos (length p));
            }
            else record h { upload_reader = r },
      )

-- `(*hashingUploadReader).SHA256` and `MD5`, with the hexadecimal digest as a parameter.
pub digest_hashing : {R : Type 0} → (Bytes → Bytes) → HashingUploadReader R → Bytes
digest_hashing sha256_hex h = sha256_hex h.sha_hasher

pub md5_hashing : {R : Type 0} → (Bytes → Bytes) → HashingUploadReader R → Bytes
md5_hashing md5_hex h = md5_hex h.md5_hasher
