-- ===== src/Io.antt =====
-- The results of Go's readers and writers: what the interfaces of internal/reader/reader.go and the
-- errors of internal/buffer and internal/reader say.
use backupgate.Prelude.{
  ℕ, ◌+◌, ◌≤◌, ◌<◌, ◌≡◌, ◌⊎◌, Bool, ◌&&◌, Option, none, some, if◌then◌else◌, length, take, drop,
  Bytes,
}
use backupgate.Prelude.Int.{ℤ, pos, ◌+ℤ◌, leb_ℤ, wrap64}

-- The errors that readers, writers and seekers return. `offset_unavailable` is
-- `ErrOffsetUnavailable`; `other` stands for an error of code outside the repository.
pub data IoError : Type 0 where
  eof buffer_closed offset_unavailable read_only : IoError
  invalid_whence : ℤ → IoError
  negative_seek negative_offset : ℤ → IoError
  no_read_at : ℕ → IoError
  other : ℕ → IoError

-- A call that returns, or a run-time panic.
pub data Call {ℓ} (A : Type ℓ) : Type ℓ where
  done : A → Call A
  panic : Call A

-- `(n int, err error)` of a Read: the bytes put into the front of `p`, whose number is `n`.
abbrev pub ReadResult : Type 0
ReadResult = Bytes × Option IoError

-- `copy(p, src)` for a `p` of `n` bytes.
abbrev pub copy : ℕ → Bytes → Bytes
copy n src = take n src

-- io.SeekStart, io.SeekCurrent and io.SeekEnd.
abbrev pub seek_start : ℤ
seek_start = pos 0

abbrev pub seek_current : ℤ
seek_current = pos 1

abbrev pub seek_end : ℤ
seek_end = pos 2

-- `==` on int.
abbrev pub eqb_ℤ : ℤ → ℤ → Bool
eqb_ℤ a b = leb_ℤ a b && leb_ℤ b a

-- `ReaderCapabilities`.
pub record ReaderCapabilities : Type 0 where
  pub read_at : Bool
  pub seek : Bool

-- The position that `Seek(offset, whence)` asks for, from the current position and the size: the
-- switch that the three Seek methods of the repository share, in int64. `none` is an invalid whence.
unfoldable pub seek_target : ℤ → ℤ → ℤ → ℤ → Option ℤ
seek_target current size offset whence =
    if eqb_ℤ whence seek_start
    then some offset
    else if eqb_ℤ whence seek_current
    then some (wrap64 (current +ℤ offset))
    else if eqb_ℤ whence seek_end
    then some (wrap64 (size +ℤ offset))
    else none

-- The documented contract of an io.ReaderAt over the bytes `content`, for the reads inside it: all
-- of `p` is filled, and the error is nil or io.EOF.
pub record ReadsAt (f : ℕ → ℤ → Call ReadResult) (content : Bytes) : Type 0 where
  pub filled :
      (n off : ℕ)
      → 0 < n
      → off + n ≤ length content
      → (e : Option IoError) × (f n (pos off) ≡ done (take n (drop off content), e))
        × ((e ≡ none) ⊎ (e ≡ some eof))
