-- ===== src/Storage/Shell.antt =====
-- internal/storage/rsync_uploader.go: the command that starts rsync on the remote machine.
pub mod Words
mod Tests
use backupgate.Prelude.{List, [], ◌∷◌, ◌++◌, map, ◌==◌, if◌then◌else◌, Bytes, bytes}

-- `strings.ReplaceAll(s, "'", "'\\''")`
pub escape_quotes : Bytes → Bytes
escape_quotes [] = []
escape_quotes (c ∷ s) =
    let rest = escape_quotes s in if c == b'\'' then bytes "'\\''" ++ rest else c ∷ rest

-- `shellQuote`
pub shell_quote : Bytes → Bytes
unfolding escape_quotes
shell_quote s = bytes "'" ++ (escape_quotes s ++ bytes "'")

-- `strings.Join(parts, sep)`
unfoldable pub join : Bytes → List Bytes → Bytes
join sep [] = []
join sep (s ∷ []) = s
join sep (s ∷ t ∷ parts) = s ++ (sep ++ join sep (t ∷ parts))

-- `remoteRsyncCommand`
pub remote_rsync_command : List Bytes → Bytes
unfolding shell_quote
remote_rsync_command args = join (bytes " ") (bytes "rsync" ∷ map shell_quote args)
