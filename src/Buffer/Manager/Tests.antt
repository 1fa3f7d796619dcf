-- ===== src/Buffer/Manager/Tests.antt =====
-- A run of the buffer manager: a buffer handed out, and closed twice.
use backupgate.Prelude.{◌≡◌, refl, [], ◌∷◌, arith, Bytes, bytes}
use backupgate.Prelude.Int.{pos, ◌≤ℤ◌}
use backupgate.Config.Types.{BufferConfig}
use backupgate.Buffer.Manager.{
  try_reserve_memory, ManagedMemoryBuffer, new_manager, new_managed_memory_buffer, new_full_buffer,
  close_managed,
}
use backupgate.Buffer.Manager.Account.{
  next, here, live, Pool, hand_out, close, HasLimits, Reach, new_pool, Reach-in_use,
  Reach-max_memory,
}

abbrev limits : BufferConfig
limits = record {
  memory = pos 100;
  sliding_window_size = pos 10;
  max_memory = pos 150;
  tmp_dir = [];
}

abbrev started : Pool
started = new_pool limits []

abbrev lent : ManagedMemoryBuffer
lent = new_managed_memory_buffer (pos 60)

abbrev no_file : Bytes → Bytes → Bytes
no_file dir key = key

abbrev one_open : Pool
one_open = record {
  manager = (new_full_buffer no_file started.manager (bytes "db") (pos 60)).1;
  handed_out = lent ∷ [];
}

abbrev one_closed : Pool
one_closed = record {
  manager = (close_managed one_open.manager lent).1;
  handed_out = (close_managed one_open.manager lent).2 ∷ [];
}

one_open-Reach : Reach no_file started one_open
unfolding new_manager try_reserve_memory new_full_buffer
one_open-Reach = next here (hand_out (bytes "db") (pos 60) lent refl refl)

one_closed-Reach : Reach no_file started one_closed
one_closed-Reach = next one_open-Reach (close [] [] lent refl refl refl)

limits-HasLimits : HasLimits limits
limits-HasLimits = record { memory = refl; max_memory = refl; no_wrap = omega arith }

Reach-in_use_example : one_closed.manager.memory_in_use ≡ pos (live one_closed.handed_out)
Reach-in_use_example = Reach-in_use no_file limits [] one_closed limits-HasLimits one_closed-Reach

Reach-max_memory_example : one_open.manager.memory_in_use ≤ℤ pos 150
Reach-max_memory_example =
    Reach-max_memory no_file limits [] one_open limits-HasLimits one_open-Reach
