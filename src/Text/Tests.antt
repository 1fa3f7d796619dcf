-- ===== src/Text/Tests.antt =====
-- Runs of the searches.
use backupgate.Prelude.{◌≡◌, some, [], arith, Bytes, bytes}
use backupgate.Text.{replace_all}
use backupgate.Text.Replace.{Replaced, replace_all-Replaced}

replace_all-Replaced_example :
    (r : Bytes) × (replace_all 8 [] (bytes "a%u%u") (bytes "%u") (bytes "x") ≡ some r)
    × Replaced (bytes "%u") (bytes "x") (bytes "a%u%u") r
replace_all-Replaced_example =
    replace_all-Replaced 8 (bytes "a%u%u") (bytes "%u") (bytes "x") (omega arith) (omega arith)
