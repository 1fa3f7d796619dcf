-- ===== src/Buffer/Memory/Stream.antt =====
-- What a client of a memory buffer reads back.
use backupgate.Prelude.{
  ℕ, ◌+◌, ◌≤◌, ◌<◌, ◌≡◌, refl, sym, ap, ap₂, ◌∙◌, inl, Bool, Option, none, some, List, [], ◌∷◌,
  ◌++◌, arith, dec_lt, length, take, drop, length-append, length-take, length-drop, drop_all,
  take-nil, drop-drop, take_add, Bytes,
}
use backupgate.Prelude.Int.{ℤ, pos, int64_end}
use backupgate.Io.{IoError, eof, Call, done, panic, ReadsAt, seek_start}
use backupgate.Buffer.Memory.{MemoryBuffer, read, read_at, seek}

-- A read inside the buffer.
pub read-lem :
    (b : Bytes) (at n : ℕ) (closed : Bool)
    → length b < int64_end
    → at < length b
    → read (record { buf = b; read_pos = pos at; closed = closed }) n
      ≡ done (
        (take n (drop at b), none),
        record { buf = b; read_pos = pos (at + length (take n (drop at b))); closed = closed },
      )
unfolding read
read-lem b at n closed small h = ground (arith, length-take n (drop at b), length-drop at b)

-- Successive reads of the sizes `ns`: the bytes that they return, one after another, and the buffer
-- after them. A panic stops the run.
pub read_seq : MemoryBuffer → List ℕ → Call (Bytes × MemoryBuffer)
read_seq m [] = done ([], m)
read_seq m (n ∷ ns) = elim (read m n) [
  | panic ↦ panic
  | done (r, m') ↦ elim (read_seq m' ns) [ panic ↦ panic | done (q, m'') ↦ done (r.0 ++ q, m'') ]
]

abbrev pub sum : List ℕ → ℕ
sum [] = 0
sum (n ∷ ns) = n + sum ns

abbrev buffer_at : Bytes → ℕ → Bool → MemoryBuffer
buffer_at b at closed = record { buf = b; read_pos = pos at; closed = closed }

pub read-past :
    (b : Bytes) (at n : ℕ) (closed : Bool)
    → length b ≤ at
    → read (buffer_at b at closed) n ≡ done (([], some eof), buffer_at b at closed)
unfolding read
read-past b at n closed h = ground arith

-- A read anywhere: the bytes, and the position behind them.
pub read_same :
    (m : MemoryBuffer) (at n : ℕ)
    → m.read_pos ≡ pos at
    → length m.buf < int64_end
    → (e : Option IoError) × (read m n
        ≡ done (
          (take n (drop at m.buf), e),
          record m { read_pos = pos (at + length (take n (drop at m.buf))) },
        ))
unfolding read
read_same m at n there small = elim (dec_lt at (length m.buf)) [
  | yes h ↦ (
    none,
    ap (λ z. read (record m { read_pos = z }) n) there ∙ read-lem m.buf at n m.closed small h,
  )
  | no h ↦ (
    some eof,
    ap (λ z. read (record m { read_pos = z }) n) there
        ∙ read-past m.buf at n m.closed (omega arith)
        ∙ ap (λ k. done (([], some eof), record m { read_pos = pos k })) {x = at} {y = at + 0}
            (omega arith)
        ∙ ap (λ q. done ((q, some eof), record m { read_pos = pos (at + length q) })) {x = []}
            {y = take n (drop at m.buf)}
            (sym (ap (take n) (drop_all at m.buf (omega arith)) ∙ take-nil n)),
  )
]

read_seq-cons :
    (m m' m'' : MemoryBuffer) (n : ℕ) (ns : List ℕ) (p q : Bytes) (e : Option IoError)
    → read m n ≡ done ((p, e), m')
    → read_seq m' ns ≡ done (q, m'')
    → read_seq m (n ∷ ns) ≡ done (p ++ q, m'')
unfolding read_seq
read_seq-cons m m' m'' n ns p q e first rest = ground arith

-- Reads of any sizes, from a position that is not negative, return, in order, exactly the bytes from
-- the position on, as many as their sizes add up to and the buffer has, and leave the position
-- behind the bytes returned.
pub read_seq-take :
    (b : Bytes) (at : ℕ) (closed : Bool) (ns : List ℕ)
    → length b < int64_end
    → read_seq (record { buf = b; read_pos = pos at; closed = closed }) ns
      ≡ done (
        take (sum ns) (drop at b),
        record {
          buf = b;
          read_pos = pos (at + length (take (sum ns) (drop at b)));
          closed = closed;
        },
      )
unfolding read_seq
read_seq-take b at closed [] small = ap (λ k. done ([], buffer_at b k closed)) (omega arith)
read_seq-take b at closed (n ∷ ns) small = elim (dec_lt at (length b)) [
  | yes p ↦
      let k = length (take n (drop at b)) in
      read_seq-cons _ _ _ n ns _ _ none (read-lem b at n closed small p)
        (read_seq-take b (at + k) closed ns small)
      ∙ ap₂ (λ q j. done (q, buffer_at b j closed)) (joined k refl)
          (omega (
            arith,
            ap length (joined k refl),
            length-append (take n (drop at b)) (take (sum ns) (drop (at + k) b)),
          ))
  | no p ↦
      read_seq-cons _ _ _ n ns _ _ (some eof) (read-past b at n closed (omega arith))
        (read_seq-take b at closed ns small)
      ∙ ap (λ l. done (l, buffer_at b (at + length l) closed)) (nothing (omega arith))
]
  where
    joined :
        (k : ℕ)
        → k ≡ length (take n (drop at b))
        → take n (drop at b) ++ take (sum ns) (drop (at + k) b) ≡ take (n + sum ns) (drop at b)
    joined k e =
        ap (λ d. take n (drop at b) ++ take (sum ns) d) (sym (drop-drop at k b))
        ∙ ap (λ j. take n (drop at b) ++ take (sum ns) (drop j (drop at b))) e
        ∙ take_add n (sum ns) (drop at b)

    nothing : length b ≤ at → take (sum ns) (drop at b) ≡ take (n + sum ns) (drop at b)
    nothing h = rw (drop_all at b h) (take-nil (sum ns) ∙ sym (take-nil (n + sum ns)))

read_at-lem :
    (m : MemoryBuffer) (n off : ℕ)
    → 0 < n
    → off + n ≤ length m.buf
    → read_at m n (pos off) ≡ done (take n (drop off m.buf), none)
unfolding read_at
read_at-lem m n off h k = ground (arith, length-take n (drop off m.buf), length-drop off m.buf)

-- `ReadAt` keeps the contract of io.ReaderAt over the bytes held.
pub read_at-ReadsAt : (m : MemoryBuffer) → ReadsAt (read_at m) m.buf
read_at-ReadsAt m = record { filled = λ n off h k. (none, read_at-lem m n off h k, inl refl) }

seek-to_start :
    (m : MemoryBuffer) (k : ℕ)
    → seek m (pos k) seek_start ≡ (pos k, none, record m { read_pos = pos k })
unfolding seek
seek-to_start m k = ground arith

-- After `Seek(k, io.SeekStart)` to a place inside the buffer, wherever the position was, `Read`
-- returns the bytes from `k` on, as many as `p` takes and the buffer has.
pub read-seek :
    (b : Bytes) (m : MemoryBuffer) (k n : ℕ)
    → m.buf ≡ b
    → length b < int64_end
    → k < length b
    → (m' : MemoryBuffer) × (seek m (pos k) seek_start ≡ (pos k, none, m'))
      × ((m'' : MemoryBuffer) × (read m' n ≡ done ((take n (drop k b), none), m'')))
read-seek b m k n e small h = (
  record m { read_pos = pos k },
  seek-to_start m k,
  (_, ap (λ l. read (buffer_at l k m.closed) n) e ∙ read-lem b k n m.closed small h),
)

-- A `Seek` to a place before the start, with whatever `whence`, or with an unknown `whence`, reports
-- an error and leaves the buffer as it was.
pub seek-refused :
    (m : MemoryBuffer) (offset whence : ℤ) (to : ℤ) (e : IoError) (m' : MemoryBuffer)
    → seek m offset whence ≡ (to, some e, m')
    → (m' ≡ m) × (to ≡ pos 0)
unfolding seek
seek-refused m offset whence to e m' h = ground arith
