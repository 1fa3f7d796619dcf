-- ===== src/Buffer/Sliding.antt =====
-- internal/buffer/sliding.go: a ring of the last `window_size` bytes written.
pub mod History
mod Tests
use backupgate.Prelude.{
  ℕ, zero, suc, ◌+◌, ◌%◌, Bool, true, false, ◌||◌, Option, none, some, [], ◌∷◌, ltb, ◌==◌,
  if◌then◌else◌, ◌>>=◌, length, get_or, set, replicate, Bytes,
}
use backupgate.Prelude.Int.{ℤ, pos, negsuc, pos_part, ◌+ℤ◌, ◌-ℤ◌, ltb_ℤ, leb_ℤ, wrap64}
use backupgate.Io.{
  IoError, offset_unavailable, buffer_closed, eof, Call, done, panic, ReadResult,
  ReaderCapabilities,
}

-- `SlidingBuffer`; the mutex makes each method one step.
pub record SlidingBuffer : Type 0 where
  pub ring : Bytes
  pub window_size : ℕ
  pub write_pos : ℤ
  pub closed : Bool

-- `NewSlidingBuffer`: `make` panics on a negative length.
pub new_sliding_buffer : ℤ → Call SlidingBuffer
new_sliding_buffer (pos w) =
    done (record { ring = replicate w 0; window_size = w; write_pos = pos 0; closed = false })
new_sliding_buffer (negsuc n) = panic

-- `ring[x % windowSize]`: Go's remainder has the sign of `x`, so a negative `x` indexes the ring
-- only where the remainder is 0. A division by zero panics.
ring_index : ℤ → ℕ → Option ℕ
ring_index x zero = none
ring_index (pos k) (suc w) = some (k % suc w)
ring_index (negsuc k) (suc w) = if suc k % suc w == 0 then some 0 else none

-- The loop of `Write` from its round `i` on.
write_from : Bytes → ℕ → ℤ → ℕ → Bytes → Option Bytes
write_from ring w at i [] = some ring
write_from ring w at i (b ∷ p) = do
  idx ← ring_index (wrap64 (at +ℤ pos i)) w
  write_from (set ring idx b) w at (i + 1) p

-- `Write`: the number of bytes and the error, and the new state.
pub write : SlidingBuffer → Bytes → Call (ℕ × Option IoError × SlidingBuffer)
write sb p =
    if sb.closed
    then done (0, some buffer_closed, sb)
    else elim (write_from sb.ring sb.window_size sb.write_pos 0 p) [
      | none ↦ panic
      | some ring' ↦ done (
        length p,
        none,
        record sb { ring = ring'; write_pos = wrap64 (sb.write_pos +ℤ pos (length p)) },
      )
    ]

-- `Read`
pub read : SlidingBuffer → ℕ → ReadResult
read sb n = ([], some eof)

-- `availableRangeLocked` and `AvailableRange`: the offsets [start, end) that the ring holds.
pub available_range : SlidingBuffer → ℤ × ℤ
available_range sb =
    let start = wrap64 (sb.write_pos -ℤ pos sb.window_size) in
    (if ltb_ℤ start (pos 0) then pos 0 else start, sb.write_pos)

-- The loop of `ReadAtIfAvailable`: `n` bytes from offset `off` on.
read_ring : Bytes → ℕ → ℤ → ℕ → ℕ → Option Bytes
read_ring ring w off i zero = some []
read_ring ring w off i (suc n) = do
  idx ← ring_index (wrap64 (off +ℤ pos i)) w
  p ← read_ring ring w off (i + 1) n
  some (get_or ring idx 0 ∷ p)

-- `ReadAtIfAvailable` for a `p` of `len` bytes.
pub read_at_if_available : SlidingBuffer → ℕ → ℤ → Call ReadResult
unfolding available_range
read_at_if_available sb len off =
    let range = available_range sb in
    if ltb_ℤ off range.0 || leb_ℤ range.1 off
    then done ([], some offset_unavailable)
    else let available = pos_part (range.1 -ℤ off) in
      elim (read_ring sb.ring sb.window_size off 0 (if ltb available len then available else len)) [
        | none ↦ panic
        | some p ↦ done (p, none)
      ]

-- `Size`
pub size : SlidingBuffer → ℤ
size sb = sb.write_pos

-- `Capabilities`
pub capabilities : SlidingBuffer → ReaderCapabilities
capabilities sb = record { read_at = false; seek = false }

-- `FileName`
pub file_name : SlidingBuffer → Option Bytes
file_name sb = none

-- `Close`
pub close : SlidingBuffer → Option IoError × SlidingBuffer
close sb = (none, record sb { closed = true })
