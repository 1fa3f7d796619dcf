-- ===== src/Buffer/FileBuffer/Tests.antt =====
-- Runs of the file buffer over a file that is its bytes.
use backupgate.Prelude.{
  ℕ, ◌≤◌, ◌≡◌, refl, sym, ap, ◌∙◌, ◌⊎◌, false, Option, none, some, [], ◌++◌, arith, ltb,
  if◌then◌else◌, length, take, drop, take_all, Bytes, bytes,
}
use backupgate.Prelude.Int.{ℤ, pos, negsuc}
use backupgate.Io.{IoError, eof, ReadResult}
use backupgate.Buffer.Memory.{MemoryBuffer}
use backupgate.Buffer.FileBuffer.{OsFile, IsOsFile, FileBuffer, write}
use backupgate.Buffer.FileBuffer.Content.{write-content}

abbrev whole : Bytes → Bytes
whole f = f

abbrev read_from : Bytes → ℕ → ℤ → ReadResult
read_from f n (pos at) =
    (take n (drop at f), if ltb (length (take n (drop at f))) n then some eof else none)
read_from f n (negsuc k) = ([], some eof)

abbrev bytes_file : OsFile Bytes
bytes_file = record {
  write_at = λ f p off. (length p, none, f ++ p);
  read_at = read_from;
  name = λ f. bytes "tmp";
  sync = λ f. (none, f);
  close = λ f. (none, f);
  remove = λ f. (none, []);
}

bytes_file-appended :
    (f f' p : Bytes) (n : ℕ) (e : Option IoError)
    → ◌≡◌ {A = ℕ × Option IoError × Bytes} (length p, none, f ++ p) (n, e, f')
    → (f' ≡ f ++ take n p) × (n ≤ length p) × (e ≡ none → n ≡ length p)
bytes_file-appended f f' p n e h =
    let all : length p ≡ n = ap (λ r. r.0) h in
    (
      ap (λ r. r.2) (sym h) ∙ ap (λ q. f ++ q) (sym (take_all n p (omega (arith, all)))),
      omega (arith, all),
      λ nil. sym all,
    )

bytes_file-IsOsFile : IsOsFile bytes_file whole
bytes_file-IsOsFile = record {
  appended = λ f f' p n e h. bytes_file-appended f f' p n e h;
  filled = λ f n at. refl;
}

abbrev three_written : FileBuffer Bytes
three_written = record { file = bytes "abc"; size = pos 3; read_pos = pos 1; closed = false }

abbrev same_held : MemoryBuffer
same_held = record { buf = bytes "abc"; read_pos = pos 1; closed = false }

write-content_example :
    (n : ℕ) × (e : Option IoError) × (fb' : FileBuffer Bytes) × (write bytes_file three_written
        (bytes "de")
      ≡ (n, e, fb'))
    × (fb'.file ≡ bytes "abc" ++ take n (bytes "de"))
    × (fb'.size ≡ pos (length fb'.file))
    × ((n ≡ 2) ⊎ ((x : IoError) × (e ≡ some x)))
write-content_example =
    write-content bytes_file whole bytes_file-IsOsFile three_written (bytes "de") refl refl
      (omega arith)
