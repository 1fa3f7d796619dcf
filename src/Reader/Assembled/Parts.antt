-- ===== src/Reader/Assembled/Parts.antt =====
-- The loop of `ReadAt` over parts that hold the pieces of the upload.
use backupgate.Prelude.{
  ℕ, ◌+◌, ◌-◌, ◌≤◌, ◌<◌, min, ◌≡◌, refl, sym, ap, ◌∙◌, ◌⊎◌, inl, inr, Option, none, some, List, [],
  ◌∷◌, ◌++◌, map, append-nil, append_assoc, arith, dec_lt, ltb, ◌==◌, if◌then◌else◌, ==_iff,
  Bool-cases, length, take, drop, length-append, length-take, length-drop, drop-nil, take-nil,
  take-append, take-min, drop-append_left, drop-append_right, Bytes,
}
use backupgate.Prelude.Int.{ℤ, pos}
use backupgate.Io.{IoError, eof, Call, done, ReadResult, ReadsAt}
use backupgate.Reader.Assembled.{Part, with_size, after_part, read_parts}

-- A part that holds `c`: it has its size, and reads it at any place.
pub record PartHolds (part : Part) (c : Bytes) : Type 0 where
  pub sized : part.size ≡ pos (length c)
  pub reader : ℕ → ℤ → Call ReadResult
  pub can_read : part.read_at ≡ some reader
  pub reads : ReadsAt reader c

-- The parts hold the pieces, one for one.
abbrev pub PartsHold : List Part → List Bytes → Type 0
PartsHold [] [] = Unit
PartsHold (part ∷ parts) (c ∷ cs) = PartHolds part c × PartsHold parts cs
PartsHold _ _ = ⊥

abbrev pub flatten : List Bytes → Bytes
flatten [] = []
flatten (c ∷ cs) = c ++ flatten cs

-- `nil`, or io.EOF where `p` is not filled.
abbrev pub end_error : ℕ → Bytes → Option IoError
end_error len p = if ltb (length p) len then some eof else none

-- What a read of `len` bytes from `off` on has to return, with `written` already there.
abbrev expected : Bytes → ℕ → ℕ → Bytes → ReadResult
expected content off len written = (
  written ++ take (len - length written) (drop off content),
  end_error len (written ++ take (len - length written) (drop off content)),
)

skip_part :
    (part : Part) (parts : List (Part × ℤ)) (n i off len : ℕ) (written : Bytes)
    → n ≤ off
    → read_parts ((part, pos n) ∷ parts) i (pos off) len written
      ≡ read_parts parts (i + 1) (pos (off - n)) len written
unfolding read_parts
skip_part part parts n i off len written h = ground arith

after_part-lem :
    (len : ℕ) (written p : Bytes) (rest : Bytes → Call ReadResult) (e : Option IoError)
    → (e ≡ none) ⊎ (e ≡ some eof)
    → after_part len written rest (p, e)
      ≡ (if length (written ++ p) == len then done (written ++ p, none) else rest (written ++ p))
unfolding after_part
after_part-lem len written p rest e h = ground arith

use_part :
    (part : Part) (parts : List (Part × ℤ)) (f : ℕ → ℤ → Call ReadResult) (n i off len limit : ℕ)
    (written p : Bytes) (e : Option IoError)
    → off < n
    → part.read_at ≡ some f
    → limit ≡ min (len - length written) (n - off)
    → f limit (pos off) ≡ done (p, e)
    → read_parts ((part, pos n) ∷ parts) i (pos off) len written
      ≡ after_part len written (read_parts parts (i + 1) (pos 0) len) (p, e)
unfolding read_parts
use_part part parts f n i off len limit written p e h can el run = ground arith

-- The bytes that one part gives, and those that are then left to read.
split_read :
    (len off : ℕ) (c rest written p : Bytes)
    → off < length c
    → p ≡ take (min (len - length written) (length c - off)) (drop off c)
    → (written ++ p) ++ take (len - length (written ++ p)) rest
      ≡ written ++ take (len - length written) (drop off (c ++ rest))
split_read len off c rest written p h e =
    ap (λ q. (written ++ q) ++ take (len - length (written ++ q)) rest) whole
    ∙ append_assoc written (take m d) (take (len - length (written ++ take m d)) rest)
    ∙ ap (λ k. written ++ (take m d ++ take k rest))
        (omega (arith, length-append written (take m d), length-take m d))
    ∙ ap (λ l. written ++ l) (sym (take-append m d rest))
    ∙ ap (λ l. written ++ take m l) (sym (drop-append_left off c rest (omega arith)))
  where
    m : ℕ
    m = len - length written

    d : Bytes
    d = drop off c

    whole : p ≡ take m d
    whole =
        e
        ∙ ap (λ k. take (min m k) d) {x = length c - off} {y = length d}
            (omega (arith, length-drop off c))
        ∙ take-min m d

abbrev pub closing : ℕ → Bytes → Call ReadResult
closing len b = done (b, end_error len b)

closing-full :
    (len : ℕ) (b rest : Bytes)
    → length b ≡ len
    → ◌≡◌ {A = Call ReadResult} (done (b, none)) (closing len (b ++ take (len - length b) rest))
closing-full len b rest e =
    open_end
    ∙ ap (closing len)
        (sym (append-nil b) ∙ ap (λ k. b ++ take k rest) {x = 0} {y = len - length b} (omega arith))
  where
    open_end : ◌≡◌ {A = Call ReadResult} (done (b, none)) (closing len b)
    open_end = ground arith

closing-short :
    (len off : ℕ) (written : Bytes)
    → length written < len
    → ◌≡◌ {A = Call ReadResult} (done (written, some eof)) (done (expected [] off len written))
closing-short len off written room =
    open_end ∙ ap (closing len) (sym (append-nil written) ∙ ap (λ l. written ++ l) nothing)
  where
    open_end : ◌≡◌ {A = Call ReadResult} (done (written, some eof)) (closing len written)
    open_end = ground arith

    nothing : ◌≡◌ {A = Bytes} [] (take (len - length written) (drop off []))
    nothing =
        sym (ap (take (len - length written)) (drop-nil off) ∙ take-nil (len - length written))

-- A part that holds what is at `off`, and the parts behind it.
use_part-expected :
    (part : Part) (parts : List (Part × ℤ)) (c rest : Bytes) (i off len : ℕ) (written : Bytes)
    → PartHolds part c
    → length written < len
    → off < length c
    → ((w : Bytes)
        → length w < len
        → read_parts parts (i + 1) (pos 0) len w ≡ done (expected rest 0 len w))
    → read_parts ((part, part.size) ∷ parts) i (pos off) len written
      ≡ done (expected (c ++ rest) off len written)
use_part-expected part parts c rest i off len written h room lt later =
    let limit = min (len - length written) (length c - off) in
    let p = take limit (drop off c) in
    let (e, run, fine) = h.reads.filled limit off (omega arith) (omega arith) in
    ap (λ s. read_parts ((part, s) ∷ parts) i (pos off) len written) h.sized
    ∙ use_part part parts h.reader (length c) i off len limit written p e lt h.can_read refl run
    ∙ after_part-lem len written p (read_parts parts (i + 1) (pos 0) len) e fine
    ∙ elim (Bool-cases (length (written ++ p) == len)) [
      | inl full ↦ rw full (
          closing-full len (written ++ p) rest ((==_iff _ _).0 full)
          ∙ ap (closing len) (split_read len off c rest written p lt refl))
      | inr more ↦ rw more (
          later (written ++ p)
            (ground (arith, length-append written p, length-take limit (drop off c)))
          ∙ ap (closing len) (split_read len off c rest written p lt refl))
    ]

-- The loop of `ReadAt` over parts that hold `cs`.
pub read_parts-expected :
    (parts : List Part) (cs : List Bytes) (i off len : ℕ) (written : Bytes)
    → PartsHold parts cs
    → length written < len
    → read_parts (map with_size parts) i (pos off) len written
      ≡ done (expected (flatten cs) off len written)
unfolding read_parts
read_parts-expected [] [] i off len written h room = closing-short len off written room
read_parts-expected [] (c ∷ cs) i off len written h room = absurd h
read_parts-expected (part ∷ parts) [] i off len written h room = absurd h
read_parts-expected (part ∷ parts) (c ∷ cs) i off len written (h, hs) room =
    elim (dec_lt off (length c)) [
      | yes p ↦
          use_part-expected part (map with_size parts) c (flatten cs) i off len written h room p
            (λ w. read_parts-expected parts cs (i + 1) 0 len w hs)
      | no p ↦
          ap (λ s. read_parts ((part, s) ∷ map with_size parts) i (pos off) len written) h.sized
          ∙ skip_part part (map with_size parts) (length c) i off len written (omega arith)
          ∙ read_parts-expected parts cs (i + 1) (off - length c) len written hs room
          ∙ ap (λ l. closing len (written ++ take (len - length written) l))
              (sym (drop-append_right off c (flatten cs) (omega arith)))
    ]
