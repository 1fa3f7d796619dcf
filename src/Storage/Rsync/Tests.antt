-- ===== src/Storage/Rsync/Tests.antt =====
-- A run of an upload over rsync to a machine of one file.
use backupgate.Prelude.{◌≡◌, refl, sym, ap, ◌∙◌, false, Option, none, some, [], ◌∷◌, Bytes, bytes}
use backupgate.Prelude.Int.{pos}
use backupgate.Storage.Backend.{ok}
use backupgate.Storage.Rsync.{
  RsyncLibrary, Setting, upload, run_rsync_over_ssh, rsync_do, await, transfer,
}
use backupgate.Storage.Shell.{remote_rsync_command}
use backupgate.Storage.Rsync.Promise.{IsRsync, upload-transferred}

-- The machine: its one file, the command that runs, and what is in the local file.
abbrev Machine : Type 0
Machine = Option Bytes × Bytes × Bytes

abbrev library : RsyncLibrary Machine
library = record {
  server_options = ok (λ path. bytes "--server" ∷ path ∷ []);
  ssh_connect = λ w. (none, w);
  new_session = λ w. (none, w);
  open_pipes = λ w. (none, w);
  start_command = λ w command. (none, (w.0, command, w.2));
  run_client = λ w file. (none, (some w.2, w.1, w.2));
  close_stdin = λ w. (none, w);
  wait = λ w. (none, w);
  close_session = λ w. w;
  close_ssh = λ w. w;
}

abbrev setting : Setting Machine
setting = record {
  library = library;
  reader = record {
    file_name = λ w. some (bytes "/tmp/x");
    sync = λ w. (none, (w.0, w.1, bytes "dump"));
    file_bytes = λ w. bytes "dump";
  };
  is_cancelled = false;
  remote_path = λ p. p;
}

abbrev remote : Machine → Bytes → Option Bytes
remote w p = w.0

setting-IsRsync : IsRsync setting remote (λ w f. w.2) (λ w. w.1)
setting-IsRsync = record {
  synced = λ w w' file named h. ap (λ x. x.1.2) (sym h);
  connecting = λ w f. refl;
  session = λ w f. refl;
  piping = λ w f. refl;
  starting = λ w c f. refl;
  runs = λ w w' command h. ap (λ x. x.1.1) (sym h);
  transferred = λ w w₁ w₂ w₃ options path file made asks ran shut waited.
      ap (λ x. x.1.0) (sym waited) ∙ ap (λ x. x.1.0) (sym shut) ∙ ap (λ x. x.1.0) (sym ran);
  closing_session = λ w p. refl;
  closing_ssh = λ w p. refl;
}

abbrev before : Machine
before = (none, [], [])

abbrev after : Machine
after =
    (some (bytes "dump"), remote_rsync_command (bytes "--server" ∷ bytes "it's" ∷ []), bytes "dump")

sends : upload setting before (bytes "it's") (pos 4) ≡ (none, bytes "dump", after)
unfolding upload run_rsync_over_ssh rsync_do await transfer
sends = refl

upload-transferred_example : (after.0 ≡ some (bytes "dump")) × (bytes "dump" ≡ bytes "dump")
upload-transferred_example =
    upload-transferred setting remote (λ w f. w.2) (λ w. w.1) setting-IsRsync before (bytes "it's")
      (pos 4) (bytes "dump") after sends
