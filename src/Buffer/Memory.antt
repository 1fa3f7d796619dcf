-- ===== src/Buffer/Memory.antt =====
-- internal/buffer/memory.go: an upload held in memory.
pub mod Stream
mod Tests
use backupgate.Prelude.{
  ℕ, Bool, true, false, Option, none, some, [], ◌++◌, ltb, leb, if◌then◌else◌, length, drop, Bytes,
}
use backupgate.Prelude.Int.{ℤ, pos, negsuc, ◌+ℤ◌, ltb_ℤ, leb_ℤ, wrap64}
use backupgate.Io.{
  IoError, eof, buffer_closed, invalid_whence, negative_seek, Call, done, panic, ReadResult,
  ReaderCapabilities, copy, seek_target,
}

-- `MemoryBuffer`. The bytes.Buffer is only appended to and read whole, so it is its bytes.
pub record MemoryBuffer : Type 0 where
  pub buf : Bytes
  pub read_pos : ℤ
  pub closed : Bool

-- `NewMemoryBuffer`; the expected size is a capacity only.
pub new_memory_buffer : ℤ → MemoryBuffer
new_memory_buffer expected_size = record { buf = []; read_pos = pos 0; closed = false }

-- `Write`
pub write : MemoryBuffer → Bytes → ℕ × Option IoError × MemoryBuffer
write m p =
    if m.closed then (0, some buffer_closed, m) else (length p, none, record m { buf = m.buf ++ p })

-- `data[i:]`: a negative index panics, and so does one past the length.
slice_from : Bytes → ℤ → Call Bytes
slice_from b (pos i) = if leb i (length b) then done (drop i b) else panic
slice_from b (negsuc i) = panic

-- `Read` into a `p` of `n` bytes, as one step: Reads that run at the same time, which the lock for
-- reading lets in together, are not modelled.
pub read : MemoryBuffer → ℕ → Call (ReadResult × MemoryBuffer)
unfolding slice_from
read m n =
    if leb_ℤ (pos (length m.buf)) m.read_pos
    then done (([], some eof), m)
    else elim (slice_from m.buf m.read_pos) [
      | panic ↦ panic
      | done rest ↦
          let p = copy n rest in
          done ((p, none), record m { read_pos = wrap64 (m.read_pos +ℤ pos (length p)) })
    ]

-- `ReadAt`
pub read_at : MemoryBuffer → ℕ → ℤ → Call ReadResult
unfolding slice_from
read_at m n off =
    if leb_ℤ (pos (length m.buf)) off then done ([], some eof) else elim (slice_from m.buf off) [
      | panic ↦ panic
      | done rest ↦ let p = copy n rest in done (p, if ltb (length p) n then some eof else none)
    ]

-- `Size`
pub size : MemoryBuffer → ℤ
size m = pos (length m.buf)

-- `Seek`
pub seek : MemoryBuffer → ℤ → ℤ → ℤ × Option IoError × MemoryBuffer
unfolding seek_target size
seek m offset whence = elim (seek_target m.read_pos (size m) offset whence) [
  | none ↦ (pos 0, some (invalid_whence whence), m)
  | some new_pos ↦
      if ltb_ℤ new_pos (pos 0)
      then (pos 0, some (negative_seek new_pos), m)
      else (new_pos, none, record m { read_pos = new_pos })
]

-- `Capabilities`
pub capabilities : MemoryBuffer → ReaderCapabilities
capabilities m = record { read_at = true; seek = true }

-- `FileName`
pub file_name : MemoryBuffer → Option Bytes
file_name m = none

-- `Close`
pub close : MemoryBuffer → Option IoError × MemoryBuffer
close m = (none, record m { closed = true })
