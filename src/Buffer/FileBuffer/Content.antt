-- ===== src/Buffer/FileBuffer/Content.antt =====
-- The file buffer against the content of its file, and against the memory buffer.
use backupgate.Prelude.{
  ℕ, ◌+◌, ◌<◌, ◌≡◌, sym, ap, ◌∙◌, ◌⊎◌, inl, inr, true, false, Option, none, some, ◌++◌, arith, ltb,
  if◌then◌else◌, Bool-cases, Option-cases, length, take, drop, length-append, length-take,
  length-drop, Bytes,
}
use backupgate.Prelude.Int.{ℤ, pos, ◌+ℤ◌, int64_end, wrap64}
use backupgate.Io.{IoError, eof, buffer_closed, done}
use backupgate.Buffer.Memory.{MemoryBuffer}
use backupgate.Buffer.Memory
use backupgate.Buffer.Memory.Stream.{read_same}
use backupgate.Buffer.FileBuffer.{OsFile, IsOsFile, FileBuffer, write, read, close}

add_size : (z : ℤ) (a n : ℕ) → z ≡ pos a → a + n < int64_end → wrap64 (z +ℤ pos n) ≡ pos (a + n)
add_size z a n e h = ground arith

module _ {F : Type 0} (os : OsFile F) (content : F → Bytes) (is : IsOsFile os content) where
  -- With a file that keeps its contract, and while the size stays an int64, `Write` on an open buffer
  -- whose size is that of its file appends the bytes that it reports, all of them if it reports no
  -- error, and the size is again that of the file: a short write is accounted for.
  pub write-content :
      (fb : FileBuffer F) (p : Bytes)
      → fb.closed ≡ false
      → fb.size ≡ pos (length (content fb.file))
      → length (content fb.file) + length p < int64_end
      → (n : ℕ) × (e : Option IoError) × (fb' : FileBuffer F) × (write os fb p ≡ (n, e, fb'))
        × (content fb'.file ≡ content fb.file ++ take n p)
        × (fb'.size ≡ pos (length (content fb'.file)))
        × ((n ≡ length p) ⊎ ((x : IoError) × (e ≡ some x)))
  unfolding write
  write-content fb p open_ size small =
      let (n, e, f) = os.write_at fb.file p fb.size in
      let law = is.appended fb.file f p n e (ap (os.write_at fb.file p) (sym size)) in
      (
        n,
        e,
        record fb { file = f; size = wrap64 (fb.size +ℤ pos n) },
        rw open_,
        law.0,
        add_size fb.size (length (content fb.file)) n size (omega (arith, law.1, small))
            ∙ ap pos (
                omega (
                  arith,
                  ap length law.0,
                  length-append (content fb.file) (take n p),
                  length-take n p,
                  law.1,
                )),
        elim (Option-cases e) [ inl nil ↦ inl (law.2 nil) | inr x ↦ inr x ],
      )

  -- With a file that keeps its contract: a file buffer and a memory buffer with the same bytes and the
  -- same position return the same bytes, and end at the same position. Only their errors may differ.
  pub read-same_bytes :
      (fb : FileBuffer F) (m : MemoryBuffer) (at n : ℕ)
      → content fb.file ≡ m.buf
      → fb.read_pos ≡ pos at
      → m.read_pos ≡ pos at
      → at + length m.buf < int64_end
      → (p : Bytes) × (e : Option IoError) × (e' : Option IoError) × (m' : MemoryBuffer) × (read os
            fb n
          ≡ ((p, e), record fb { read_pos = m'.read_pos }))
        × (Memory.read m n ≡ done ((p, e'), m'))
  unfolding read
  read-same_bytes fb m at n same here there small =
      let p = take n (drop at m.buf) in
      let (e', run) = read_same m at n there (omega (arith, small)) in
      (
        p,
        if ltb (length p) n then some eof else none,
        e',
        record m { read_pos = pos (at + length p) },
        ap (λ z. (z, record fb { read_pos = wrap64 (fb.read_pos +ℤ pos (length z.0)) }))
              (ap (os.read_at fb.file n) here
                ∙ is.filled fb.file n at
                ∙ ap
                    (λ b. (
                      take n (drop at b),
                      if ltb (length (take n (drop at b))) n then some eof else none,
                    ))
                    same)
            ∙ ap
                (λ q.
                  ((p, if ltb (length p) n then some eof else none), record fb { read_pos = q }))
                (add_size fb.read_pos at (length p) here
                  (omega (arith, small, length-take n (drop at m.buf), length-drop at m.buf))),
        run,
      )

module _ {F : Type 0} (os : OsFile F) where
  close-shut : (fb : FileBuffer F) → (close os fb).1.closed ≡ true
  unfolding close
  close-shut fb = elim (Bool-cases fb.closed) [
    | inl e ↦ rw e
    | inr e ↦ elim (Option-cases (os.close fb.file).0) [
      | inl f ↦ rw (e, f)
      | inr (x, f) ↦ rw (e, f)
    ]
  ]

  -- The first `Close` of a file buffer, with or without an error, closes it for good: a second one
  -- returns no error and changes nothing, and a `Write` is refused.
  pub close-closed :
      (fb : FileBuffer F) (p : Bytes)
      → let fb' = (close os fb).1 in
        (fb'.closed ≡ true)
        × (close os fb' ≡ (none, fb'))
        × (write os fb' p ≡ (0, some buffer_closed, fb'))
  unfolding close write
  close-closed fb p = let shut = close-shut fb in (shut, rw shut, rw shut)
