-- ===== src/Pipeline/Readers/Tests.antt =====
-- A run of the hashing reader over a body held in memory.
use backupgate.Prelude.{◌≡◌, none, [], ◌∷◌, arith, take, drop, Bytes, bytes}
use backupgate.Prelude.Int.{pos}
use backupgate.Pipeline.Readers.{
  ReadCloser, new_hashing_upload_reader, read_hashing, digest_hashing, md5_hashing,
}
use backupgate.Pipeline.Readers.Hashed.{read_all, read_hashing-digest}

abbrev body : ReadCloser Bytes
body = record { read = λ r n. ((take n r, none), drop n r); close = λ r. (none, r) }

abbrev sha256_hex : Bytes → Bytes
sha256_hex c = b'a' ∷ c

abbrev md5_hex : Bytes → Bytes
md5_hex c = b'b' ∷ c

read_hashing-digest_example :
    let (q', h) =
      read_all
        (read_hashing body)
        (new_hashing_upload_reader body (bytes "dump"))
        (3 ∷ 0 ∷ 3 ∷ []) in
    (q' ≡ bytes "dump")
    × (digest_hashing sha256_hex h ≡ bytes "adump")
    × (md5_hashing md5_hex h ≡ bytes "bdump")
    × (h.size ≡ pos 4)
unfolding read_all
read_hashing-digest_example =
    read_hashing-digest body (3 ∷ 0 ∷ 3 ∷ []) (bytes "dump") sha256_hex md5_hex (omega arith)
