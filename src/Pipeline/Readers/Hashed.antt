-- ===== src/Pipeline/Readers/Hashed.antt =====
-- What the hashing reader has hashed after a series of reads.
use backupgate.Prelude.{
  ℕ, ◌+◌, ◌<◌, ◌≡◌, sym, ap, ◌∙◌, List, [], ◌∷◌, ◌++◌, append-nil, append_assoc, arith, ltb,
  if◌then◌else◌, lt→ltb, length, length-append, Bytes,
}
use backupgate.Prelude.Int.{pos, ◌+ℤ◌, int64_end, wrap64}
use backupgate.Io.{ReadResult}
use backupgate.Pipeline.Readers.{
  ReadCloser, HashingUploadReader, new_hashing_upload_reader, read_hashing, digest_hashing,
  md5_hashing,
}

-- Reads of the sizes `ns`, errors included: what they return together, and the reader after them.
unfoldable pub read_all : {S : Type 0} → (S → ℕ → ReadResult × S) → S → List ℕ → Bytes × S
read_all read s [] = ([], s)
read_all read s (n ∷ ns) =
    let ((p, err), s') = read s n in let (q, s'') = read_all read s' ns in (p ++ q, s'')

abbrev hashed : {R : Type 0} → R → Bytes → Bytes → ℕ → HashingUploadReader R
hashed r sha md5 k = record { upload_reader = r; sha_hasher = sha; md5_hasher = md5; size = pos k }

hashed_cong :
    {R : Type 0} (r : R) {sha sha' md5 md5' : Bytes} {k k' : ℕ}
    → sha ≡ sha'
    → md5 ≡ md5'
    → k ≡ k'
    → hashed r sha md5 k ≡ hashed r sha' md5' k'
hashed_cong r a b c = rw (a, b, c)

add_small : (k n : ℕ) → k + n < int64_end → wrap64 (pos k +ℤ pos n) ≡ pos (k + n)
add_small k n h = ground arith

module _ {R : Type 0} (below : ReadCloser R) where
  read_hashing-one :
      (r : R) (sha md5 : Bytes) (k n : ℕ)
      → let ((p, e), r') = below.read r n in
        k + length p < int64_end
        → read_hashing below (hashed r sha md5 k) n
          ≡ ((p, e), hashed r' (sha ++ p) (md5 ++ p) (k + length p))
  unfolding read_hashing
  read_hashing-one r sha md5 k n small = go (below.read r n).0.0 small
    where
      go :
          (p : Bytes)
          → k + length p < int64_end
          → ◌≡◌ {A = ReadResult × HashingUploadReader R}
              (
                (below.read r n).0,
                if ltb 0 (length p)
                    then record {
                      upload_reader = (below.read r n).1;
                      sha_hasher = sha ++ p;
                      md5_hasher = md5 ++ p;
                      size = wrap64 (pos k +ℤ pos (length p));
                    }
                    else hashed (below.read r n).1 sha md5 k,
              )
              ((below.read r n).0, hashed (below.read r n).1 (sha ++ p) (md5 ++ p) (k + length p))
      go [] h =
          ap (λ z. ((below.read r n).0, z))
            (hashed_cong (below.read r n).1 (sym (append-nil sha)) (sym (append-nil md5))
              (omega arith))
      go (c ∷ p) h =
          ap
            (λ b. (
              (below.read r n).0,
              if b
                  then record {
                    upload_reader = (below.read r n).1;
                    sha_hasher = sha ++ (c ∷ p);
                    md5_hasher = md5 ++ (c ∷ p);
                    size = wrap64 (pos k +ℤ pos (length (c ∷ p)));
                  }
                  else hashed (below.read r n).1 sha md5 k,
            ))
            (lt→ltb 0 (length (c ∷ p)) (omega arith))
          ∙ ap
              (λ z. (
                (below.read r n).0,
                record {
                  upload_reader = (below.read r n).1;
                  sha_hasher = sha ++ (c ∷ p);
                  md5_hasher = md5 ++ (c ∷ p);
                  size = z;
                },
              ))
              (add_small k (length (c ∷ p)) h)

  read_all_hashing :
      (ns : List ℕ) (r : R) (sha md5 : Bytes) (k : ℕ)
      → let (q, r') = read_all below.read r ns in
        k + length q < int64_end
        → read_all (read_hashing below) (hashed r sha md5 k) ns
          ≡ (q, hashed r' (sha ++ q) (md5 ++ q) (k + length q))
  unfolding read_all
  read_all_hashing [] r sha md5 k small =
      ap (λ z. ([], z)) (hashed_cong r (sym (append-nil sha)) (sym (append-nil md5)) (omega arith))
  read_all_hashing (n ∷ ns) r sha md5 k small =
      let ((p, _), r') = below.read r n in
      let q = (read_all below.read r' ns).0 in
      let fits : k + length p + length q < int64_end = omega (arith, small, length-append p q) in
      ap
        (λ z. (
          z.0.0 ++ (read_all (read_hashing below) z.1 ns).0,
          (read_all (read_hashing below) z.1 ns).1,
        ))
        (read_hashing-one r sha md5 k n (omega (arith, fits)))
      ∙ ap (λ y. (p ++ y.0, y.1)) (read_all_hashing ns r' (sha ++ p) (md5 ++ p) (k + length p) fits)
      ∙ ap (λ z. (p ++ q, z))
          (hashed_cong (read_all below.read r' ns).1 (append_assoc sha p q) (append_assoc md5 p q)
            (omega (arith, length-append p q)))

  -- After any reads of a new hashing reader, while their bytes are fewer than the largest int64: it
  -- returned the bytes that the reader below returns for the same reads, its two digests are those of
  -- these bytes together, and its size is their number.
  pub read_hashing-digest :
      (ns : List ℕ) (r : R) (sha256_hex md5_hex : Bytes → Bytes)
      → length (read_all below.read r ns).0 < int64_end
      → let q = (read_all below.read r ns).0 in
        let (q', h) = read_all (read_hashing below) (new_hashing_upload_reader below r) ns in
        (q' ≡ q)
        × (digest_hashing sha256_hex h ≡ sha256_hex q)
        × (md5_hashing md5_hex h ≡ md5_hex q)
        × (h.size ≡ pos (length q))
  unfolding new_hashing_upload_reader digest_hashing md5_hashing
  read_hashing-digest ns r sha256_hex md5_hex small =
      let run = read_all_hashing ns r [] [] 0 (omega (arith, small)) in
      (
        ap (λ z. z.0) run,
        ap (λ z. sha256_hex z.1.sha_hasher) run,
        ap (λ z. md5_hex z.1.md5_hasher) run,
        ap (λ z. z.1.size) run ∙ ap pos (omega arith),
      )
