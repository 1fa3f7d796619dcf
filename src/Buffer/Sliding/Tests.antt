-- ===== src/Buffer/Sliding/Tests.antt =====
-- Runs of the sliding buffer: a window of four bytes.
use backupgate.Prelude.{
  ℕ, zero, suc, ◌+◌, ◌%◌, ◌≤◌, ◌<◌, ◌≡◌, refl, false, none, arith, get_or, bytes,
}
use backupgate.Prelude.Int.{pos}
use backupgate.Io.{done}
use backupgate.Buffer.Sliding.{SlidingBuffer, write, read_at_if_available}
use backupgate.Buffer.Sliding.History.{Holds, write-Holds, read_at_if_available-kept}

-- After "abcdef": the last four bytes, each at its offset modulo four.
abbrev six_written : SlidingBuffer
six_written = record { ring = bytes "efcd"; window_size = 4; write_pos = pos 6; closed = false }

six_written-Holds : Holds six_written (bytes "abcdef")
six_written-Holds = record {
  window = omega arith;
  window_small = omega arith;
  places = refl;
  written = refl;
  small = omega arith;
  held = held;
}
  where
    held :
        (i : ℕ) → i < 6 → 6 ≤ i + 4 → get_or (bytes "efcd") (i % 4) 0 ≡ get_or (bytes "abcdef") i 0
    held zero a b = omega arith
    held (suc zero) a b = omega arith
    held (suc (suc zero)) a b = refl
    held (suc (suc (suc zero))) a b = refl
    held (suc (suc (suc (suc zero)))) a b = refl
    held (suc (suc (suc (suc (suc zero))))) a b = refl
    held (suc (suc (suc (suc (suc (suc i)))))) a b = omega arith

write-Holds_example :
    (sb' : SlidingBuffer) × (write six_written (bytes "ghi") ≡ done (3, none, sb'))
    × (sb'.closed ≡ false)
    × (sb'.window_size ≡ 4)
    × Holds sb' (bytes "abcdefghi")
write-Holds_example =
    write-Holds six_written (bytes "abcdef") (bytes "ghi") six_written-Holds refl (omega arith)

read_at_if_available-kept_example :
    read_at_if_available six_written 2 (pos 3) ≡ done (bytes "de", none)
read_at_if_available-kept_example =
    read_at_if_available-kept six_written (bytes "abcdef") 2 3 six_written-Holds (omega arith)
      (omega arith)
