-- ===== src/Storage/Shell/Tests.antt =====
-- A command with a quote and a blank in its arguments.
use backupgate.Prelude.{◌≡◌, some, [], ◌∷◌, bytes}
use backupgate.Storage.Shell.{remote_rsync_command}
use backupgate.Storage.Shell.Words.{between, words, words-remote_rsync_command}

words-remote_rsync_command_example :
    words between [] (remote_rsync_command (bytes "--server" ∷ bytes "it's; rm $x" ∷ []))
    ≡ some (bytes "rsync" ∷ bytes "--server" ∷ bytes "it's; rm $x" ∷ [])
words-remote_rsync_command_example =
    words-remote_rsync_command (bytes "--server" ∷ bytes "it's; rm $x" ∷ [])
