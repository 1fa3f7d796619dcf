-- ===== src/Buffer/Manager.antt =====
-- internal/buffer/manager.go and managed_memory.go: which buffer an upload gets, and the account of
-- the memory reserved for uploads.
pub mod Account
mod Tests
use backupgate.Prelude.{
  ℕ, ◌*◌, Bool, true, false, ◌&&◌, Option, List, [], ◌∷◌, if◌then◌else◌, Bytes,
}
use backupgate.Prelude.Int.{ℤ, pos, ◌+ℤ◌, ◌-ℤ◌, ltb_ℤ, leb_ℤ, wrap64}
use backupgate.Io.{IoError, eqb_ℤ, Call}
use backupgate.Config.Types.{BufferConfig}
use backupgate.Buffer.Memory.{MemoryBuffer, new_memory_buffer}
use backupgate.Buffer.Memory
use backupgate.Buffer.Sliding.{SlidingBuffer, new_sliding_buffer}

-- `Manager`; the mutex makes a reservation and a release one step each.
pub record Manager : Type 0 where
  pub cfg : BufferConfig
  pub force_file_buffer : Bool
  pub memory_in_use : ℤ

abbrev pub or_default : ℤ → ℕ → ℤ
or_default z n = if eqb_ℤ z (pos 0) then pos n else z

-- `NewManager`; of the variadic flags only the first is read.
pub new_manager : BufferConfig → List Bool → Manager
new_manager cfg flags = record {
  cfg = record {
    memory = or_default cfg.memory (64 * 1024 * 1024);
    sliding_window_size = or_default cfg.sliding_window_size (1 * 1024 * 1024);
    max_memory = or_default cfg.max_memory (1 * 1024 * 1024 * 1024);
    tmp_dir = cfg.tmp_dir;
  };
  force_file_buffer = elim flags [ [] ↦ false | f ∷ _ ↦ f ];
  memory_in_use = pos 0;
}

-- `tryReserveMemory`
pub try_reserve_memory : Manager → ℤ → Bool × Manager
try_reserve_memory m size =
    if leb_ℤ size (pos 0)
    then (false, m)
    else if ltb_ℤ m.cfg.max_memory (wrap64 (m.memory_in_use +ℤ size))
    then (false, m)
    else (true, record m { memory_in_use = wrap64 (m.memory_in_use +ℤ size) })

-- `releaseMemory`
pub release_memory : Manager → ℤ → Manager
release_memory m size =
    let left = wrap64 (m.memory_in_use -ℤ size) in
    record m { memory_in_use = if ltb_ℤ left (pos 0) then pos 0 else left }

-- `managedMemoryBuffer`: `reserved` is what its release function gives back, and `released` the
-- state of the sync.Once.
pub record ManagedMemoryBuffer : Type 0 where
  pub buffer : MemoryBuffer
  pub reserved : ℤ
  pub released : Bool

-- `newManagedMemoryBuffer`
pub new_managed_memory_buffer : ℤ → ManagedMemoryBuffer
new_managed_memory_buffer expected_size = record {
  buffer = new_memory_buffer expected_size;
  reserved = expected_size;
  released = false;
}

-- `(*managedMemoryBuffer).Close`
pub close_managed : Manager → ManagedMemoryBuffer → Option IoError × Manager × ManagedMemoryBuffer
close_managed m b =
    let (err, closed) = Memory.close b.buffer in
    (
      err,
      if b.released then m else release_memory m b.reserved,
      record b { buffer = closed; released = true },
    )

-- What `NewFullBuffer` hands out: managed memory, or what `NewFileBuffer` made (a file buffer `F`
-- or its error).
pub data FullBuffer (F : Type 0) : Type 0 where
  managed : ManagedMemoryBuffer → FullBuffer F
  file_backed : F → FullBuffer F

module _ {F : Type 0} (new_file_buffer : Bytes → Bytes → F) where
  -- `NewFullBuffer`
  pub new_full_buffer : Manager → Bytes → ℤ → FullBuffer F × Manager
  new_full_buffer m key expected_size =
      if m.force_file_buffer
      then (file_backed (new_file_buffer m.cfg.tmp_dir key), m)
      else if ltb_ℤ (pos 0) expected_size && leb_ℤ expected_size m.cfg.memory
      then (let (reserved, m') = try_reserve_memory m expected_size in
          if reserved
          then (managed (new_managed_memory_buffer expected_size), m')
          else (file_backed (new_file_buffer m.cfg.tmp_dir key), m'))
      else (file_backed (new_file_buffer m.cfg.tmp_dir key), m)

  -- `NewFileBackedBuffer`
  pub new_file_backed_buffer : Manager → Bytes → F
  new_file_backed_buffer m key = new_file_buffer m.cfg.tmp_dir key

-- `NewStreamBuffer`
pub new_stream_buffer : Manager → Bytes → Call SlidingBuffer
new_stream_buffer m key = new_sliding_buffer m.cfg.sliding_window_size
