-- ===== src/Reader/Assembled.antt =====
-- internal/reader/assembled.go: several parts read as one upload.
pub mod Parts
pub mod Concat
mod Tests
use backupgate.Prelude.{
  ℕ, ◌+◌, ◌-◌, min, Bool, true, false, Option, none, some, List, [], ◌∷◌, ◌++◌, map, ◌==◌,
  if◌then◌else◌, length, Bytes,
}
use backupgate.Prelude.Int.{ℤ, pos, pos_part, ◌+ℤ◌, ◌-ℤ◌, ltb_ℤ, leb_ℤ, wrap64}
use backupgate.Io.{
  IoError, eof, read_only, invalid_whence, negative_seek, negative_offset, no_read_at, Call, done,
  panic, ReadResult, ReaderCapabilities, seek_target,
}

-- What an `AssembledReader` uses of a part's `UploadReader`: `Size`, `FileName`, `ReadAt` where the
-- part is an io.ReaderAt, and the error of `Close`.
pub record Part : Type 0 where
  pub size : ℤ
  pub file_name : Option Bytes
  pub read_at : Option (ℕ → ℤ → Call ReadResult)
  pub close_error : Option IoError

-- `AssembledReader`: each part with its entry of `sizes`.
pub record AssembledReader : Type 0 where
  pub parts : List (Part × ℤ)
  pub size : ℤ
  pub read_pos : ℤ

-- The loop of `NewAssembledReader`, from the total so far.
sum_sizes : ℤ → List Part → ℤ
sum_sizes total [] = total
sum_sizes total (part ∷ parts) = sum_sizes (wrap64 (total +ℤ part.size)) parts

abbrev with_size : Part → Part × ℤ
with_size part = (part, part.size)

-- `NewAssembledReader`
pub new_assembled_reader : List Part → AssembledReader
unfolding sum_sizes
new_assembled_reader parts = record {
  parts = map with_size parts;
  size = sum_sizes (pos 0) parts;
  read_pos = pos 0;
}

-- `err != nil && err != io.EOF`
abbrev is_failure : Option IoError → Bool
is_failure none = false
is_failure (some eof) = false
is_failure (some _) = true

-- What follows the `ReadAt` of one part: the early returns, or the rounds that are left, with what
-- is written so far.
after_part : ℕ → Bytes → (Bytes → Call ReadResult) → ReadResult → Call ReadResult
after_part len written rest (p, err) =
    let written' = written ++ p in
    if is_failure err
    then done (written', err)
    else if length written' == len
    then done (written', none)
    else rest written'

-- The loop of `ReadAt` from part `i` on, with the offset into what is left.
pub read_parts : List (Part × ℤ) → ℕ → ℤ → ℕ → Bytes → Call ReadResult
read_parts [] i off len written = done (written, some eof)
read_parts ((part, part_size) ∷ parts) i off len written = elim (leb_ℤ part_size off) [
  | true ↦ read_parts parts (i + 1) (off -ℤ part_size) len written
  | false ↦ elim part.read_at [
    | none ↦ done (written, some (no_read_at (i + 1)))
    | some f ↦
        let limit = min (len - length written) (pos_part (part_size -ℤ off)) in
        elim (f limit off) [
          | panic ↦ panic
          | done r ↦ after_part len written (read_parts parts (i + 1) (pos 0) len) r
        ]
  ]
]

-- `ReadAt` into a `p` of `len` bytes.
pub read_at : AssembledReader → ℕ → ℤ → Call ReadResult
read_at r len off =
    if len == 0
    then done ([], none)
    else if ltb_ℤ off (pos 0)
    then done ([], some (negative_offset off))
    else if leb_ℤ r.size off
    then done ([], some eof)
    else read_parts r.parts 0 off len []

-- `Read`
pub read : AssembledReader → ℕ → Call (ReadResult × AssembledReader)
read r len = elim (read_at r len r.read_pos) [
  | panic ↦ panic
  | done (p, err) ↦ done ((p, err), record r { read_pos = wrap64 (r.read_pos +ℤ pos (length p)) })
]

-- `Seek`
pub seek : AssembledReader → ℤ → ℤ → ℤ × Option IoError × AssembledReader
unfolding seek_target
seek r offset whence = elim (seek_target r.read_pos r.size offset whence) [
  | none ↦ (pos 0, some (invalid_whence whence), r)
  | some next ↦
      if ltb_ℤ next (pos 0)
      then (pos 0, some (negative_seek next), r)
      else (next, none, record r { read_pos = next })
]

-- `Write`
pub write : AssembledReader → Bytes → ℕ × Option IoError
write r p = (0, some read_only)

-- The loop of `Close`: every part is closed, and the first error is kept.
close_parts : Option IoError → List (Part × ℤ) → Option IoError
close_parts err [] = err
close_parts none ((part, s) ∷ parts) = close_parts part.close_error parts
close_parts (some e) ((part, s) ∷ parts) = close_parts (some e) parts

-- `Close`
pub close : AssembledReader → Option IoError
unfolding close_parts
close r = close_parts none r.parts

-- `Capabilities`
pub capabilities : AssembledReader → ReaderCapabilities
capabilities r = record { read_at = true; seek = true }

-- `FileName`: only a single part may have one.
pub file_name : AssembledReader → Option Bytes
file_name r = single r.parts
  where
    single : List (Part × ℤ) → Option Bytes
    single ((part, s) ∷ []) = part.file_name
    single _ = none
