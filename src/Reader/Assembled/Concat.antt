-- ===== src/Reader/Assembled/Concat.antt =====
-- The assembled reader against the concatenation of its parts.
use backupgate.Prelude.{
  ℕ, ◌+◌, ◌-◌, ◌<◌, ◌≡◌, refl, ap, ◌∙◌, Option, none, some, List, [], ◌∷◌, map, arith, ltb,
  if◌then◌else◌, length, take, drop, length-append, length-take, length-drop, Bytes,
}
use backupgate.Prelude.Int.{pos, ◌+ℤ◌, int64_end, wrap64}
use backupgate.Io.{IoError, eof, done}
use backupgate.Reader.Assembled.{
  Part, AssembledReader, sum_sizes, new_assembled_reader, with_size, read_parts, read_at, read,
}
use backupgate.Reader.Assembled.Parts.{PartsHold, flatten, closing, read_parts-expected}

sum_sizes-flatten :
    (total : ℕ) (parts : List Part) (cs : List Bytes)
    → PartsHold parts cs
    → total + length (flatten cs) < int64_end
    → sum_sizes (pos total) parts ≡ pos (total + length (flatten cs))
unfolding sum_sizes
sum_sizes-flatten total [] [] h small = ap pos (omega arith)
sum_sizes-flatten total [] (c ∷ cs) h small = absurd h
sum_sizes-flatten total (part ∷ parts) [] h small = absurd h
sum_sizes-flatten total (part ∷ parts) (c ∷ cs) (h, hs) small =
    ap (λ s. sum_sizes (wrap64 (pos total +ℤ s)) parts) h.sized
    ∙ ap (λ s. sum_sizes s parts) (no_wrap (omega (arith, length-append c (flatten cs))))
    ∙ sum_sizes-flatten (total + length c) parts cs hs (omega (arith, length-append c (flatten cs)))
    ∙ ap pos (omega (arith, length-append c (flatten cs)))
  where
    no_wrap :
        total + length c < int64_end → wrap64 (pos total +ℤ pos (length c)) ≡ pos (total + length c)
    no_wrap k = ground arith

read_at-in_range :
    (r : AssembledReader) (n len off : ℕ)
    → r.size ≡ pos n
    → 0 < len
    → off < n
    → read_at r len (pos off) ≡ read_parts r.parts 0 (pos off) len []
unfolding read_at
read_at-in_range r n len off e h k = ground arith

-- An assembled reader at any position over parts that hold `cs`.
pub record Assembles (r : AssembledReader) (cs : List Bytes) : Type 0 where
  pub sources : List Part
  pub holding : PartsHold sources cs
  pub listed : r.parts ≡ map with_size sources
  pub sized : r.size ≡ pos (length (flatten cs))
  pub small : length (flatten cs) < int64_end

-- `NewAssembledReader` assembles its parts, in order, if their sizes add up to an int64.
pub new_assembled_reader-Assembles :
    (parts : List Part) (cs : List Bytes)
    → PartsHold parts cs
    → length (flatten cs) < int64_end
    → Assembles (new_assembled_reader parts) cs
unfolding new_assembled_reader
new_assembled_reader-Assembles parts cs h small = record {
  sources = parts;
  holding = h;
  listed = refl;
  sized = sum_sizes-flatten 0 parts cs h (omega arith) ∙ ap pos (omega arith);
  small = small;
}

-- `ReadAt` inside the upload, into a `p` that is not empty, returns the bytes of the concatenated
-- parts from `off` on: as many as `p` takes and the upload has, with io.EOF exactly if `p` is not
-- filled.
pub read_at-flatten :
    (r : AssembledReader) (cs : List Bytes) (len off : ℕ)
    → Assembles r cs
    → 0 < len
    → off < length (flatten cs)
    → let p = take len (drop off (flatten cs)) in
      read_at r len (pos off) ≡ done (p, if ltb (length p) len then some eof else none)
read_at-flatten r cs len off a room lt =
    read_at-in_range r _ len off a.sized room lt
    ∙ ap (λ l. read_parts l 0 (pos off) len []) a.listed
    ∙ read_parts-expected a.sources cs 0 off len [] a.holding (omega arith)
    ∙ ap (λ k. closing len (take k (drop off (flatten cs)))) {x = len - 0} {y = len} (omega arith)

read-moves :
    (r : AssembledReader) (len off : ℕ) (p : Bytes) (e : Option IoError)
    → r.read_pos ≡ pos off
    → read_at r len (pos off) ≡ done (p, e)
    → off + length p < int64_end
    → read r len ≡ done ((p, e), record r { read_pos = pos (off + length p) })
unfolding read
read-moves r len off p e at run small = ground arith

-- `Read` into a `p` that is not empty, at a position inside the upload, returns the bytes of the
-- concatenated parts from there on, as many as `p` takes and the upload has, with io.EOF exactly if
-- `p` is not filled, and moves the position behind them.
pub read-flatten :
    (r : AssembledReader) (cs : List Bytes) (len off : ℕ)
    → Assembles r cs
    → r.read_pos ≡ pos off
    → 0 < len
    → off < length (flatten cs)
    → let p = take len (drop off (flatten cs)) in
      read r len
      ≡ done (
        (p, if ltb (length p) len then some eof else none),
        record r { read_pos = pos (off + length p) },
      )
read-flatten r cs len off a at room lt =
    read-moves r len off _ _ at (read_at-flatten r cs len off a room lt) (
      omega (arith, a.small, length-take len (drop off (flatten cs)), length-drop off (flatten cs)))
