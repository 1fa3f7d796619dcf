-- ===== src/Reader/Assembled/Tests.antt =====
-- An upload assembled of two memory buffers.
use backupgate.Prelude.{◌≡◌, refl, false, none, some, List, [], ◌∷◌, arith, length, Bytes, bytes}
use backupgate.Prelude.Int.{pos}
use backupgate.Io.{done}
use backupgate.Buffer.Memory.{MemoryBuffer}
use backupgate.Buffer.Memory
use backupgate.Buffer.Memory.Stream.{read_at-ReadsAt}
use backupgate.Reader.Assembled.{Part, new_assembled_reader, read_at}
use backupgate.Reader.Assembled.Parts.{PartHolds, PartsHold}
use backupgate.Reader.Assembled.Concat.{Assembles, new_assembled_reader-Assembles, read_at-flatten}

abbrev held : Bytes → MemoryBuffer
held b = record { buf = b; read_pos = pos 0; closed = false }

abbrev part_of : Bytes → Part
part_of b = record {
  size = pos (length b);
  file_name = none;
  read_at = some (Memory.read_at (held b));
  close_error = none;
}

part_of-PartHolds : (b : Bytes) → PartHolds (part_of b) b
part_of-PartHolds b = record {
  sized = refl;
  reader = Memory.read_at (held b);
  can_read = refl;
  reads = read_at-ReadsAt (held b);
}

abbrev two_parts : List Part
two_parts = part_of (bytes "abc") ∷ part_of (bytes "defg") ∷ []

abbrev pieces : List Bytes
pieces = bytes "abc" ∷ bytes "defg" ∷ []

two_parts-PartsHold : PartsHold two_parts pieces
two_parts-PartsHold = (part_of-PartHolds (bytes "abc"), (part_of-PartHolds (bytes "defg"), tt))

two_parts-Assembles : Assembles (new_assembled_reader two_parts) pieces
two_parts-Assembles =
    new_assembled_reader-Assembles two_parts pieces two_parts-PartsHold (omega arith)

read_at-flatten_example :
    read_at (new_assembled_reader two_parts) 4 (pos 2) ≡ done (bytes "cdef", none)
read_at-flatten_example =
    read_at-flatten (new_assembled_reader two_parts) pieces 4 2 two_parts-Assembles (omega arith)
      (omega arith)
