-- ===== src/Buffer/Memory/Tests.antt =====
-- Runs of the memory buffer.
use backupgate.Prelude.{◌≡◌, false, [], ◌∷◌, arith, bytes}
use backupgate.Prelude.Int.{pos}
use backupgate.Io.{done}
use backupgate.Buffer.Memory.{MemoryBuffer}
use backupgate.Buffer.Memory.Stream.{read_seq, read_seq-take}

abbrev six_held : MemoryBuffer
six_held = record { buf = bytes "abcdef"; read_pos = pos 1; closed = false }

read_seq-take_example :
    read_seq six_held (2 ∷ 9 ∷ 1 ∷ [])
    ≡ done (bytes "bcdef", record { buf = bytes "abcdef"; read_pos = pos 6; closed = false })
read_seq-take_example = read_seq-take (bytes "abcdef") 1 false (2 ∷ 9 ∷ 1 ∷ []) (omega arith)
