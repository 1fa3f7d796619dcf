-- ===== src/Storage/Sftp/Finishes.antt =====
-- The copy of an upload over SFTP ends.
use backupgate.Prelude.{
  ℕ, zero, suc, ◌+◌, ◌<◌, ◌≡◌, refl, ap, ◌≢◌, Bool, true, false, Option, none, some, [], ◌∷◌, ◌++◌,
  arith, Bytes,
}
use backupgate.Io.{
  IoError, eof, buffer_closed, offset_unavailable, read_only, invalid_whence, negative_seek,
  negative_offset, no_read_at, other,
}
use backupgate.Storage.Backend.{StoreError, still_running}
use backupgate.Storage.Sftp.{
  Setting, State, write_some, after_read, copy_with_context, cancelled, copy_size,
}

module _ {F S C H R : Type 0} (set : Setting F S C H R) (left : R → ℕ) where
  -- A Read that is not the last one takes something of the reader away.
  abbrev pub Drains : Type 0
  Drains =
      (r : R)
      → (set.source.read r copy_size).0.1 ≡ none
      → left (set.source.read r copy_size).1 < left r

  -- A Write returns.
  abbrev pub Writes : Type 0
  Writes = (f : F) (h : H) (b : Bytes) → (set.library.write f h b).0 ≢ some still_running

  write_some-returns :
      Writes → (f : F) (h : H) (p : Bytes) → (write_some set f h p).0 ≢ some still_running
  write_some-returns writes f h [] e = cc
  write_some-returns writes f h (b ∷ bs) e = writes f h (b ∷ bs) e

  -- A copy from a reader that drains returns, in at most one round more than the reader has to give,
  -- whatever the reader, the remote file and the context do.
  pub copy_with_context-returns :
      Drains
      → Writes
      → (fuel i : ℕ) (h : H) (w : State set) → left w.1 < fuel
      → (copy_with_context set fuel i h w).0.0 ≢ some still_running
  unfolding copy_with_context
  copy_with_context-returns drains writes zero i h w enough e = omega (arith, enough)
  copy_with_context-returns drains writes (suc fuel) i h (f, r) enough e =
      go (set.is_done i) (write_some set f h p) (write_some-returns writes f h p)
        (set.source.read r copy_size).0.1
        (λ more.
          copy_with_context-returns drains writes fuel (i + 1) h ((write_some set f h p).1, r₁)
            (omega (arith, drains r more, enough)))
        (ap (λ x. ((x, all.0.1), all.1)) e)
    where
      all : (Option StoreError × Bytes) × State set
      all = copy_with_context set (suc fuel) i h (f, r)

      p : Bytes
      p = (set.source.read r copy_size).0.0

      r₁ : R
      r₁ = (set.source.read r copy_size).1

      go :
          (d : Bool) (wr : Option StoreError × F)
          → wr.0 ≢ some still_running
          → (re : Option IoError)
          → (re ≡ none → (copy_with_context set fuel (i + 1) h (wr.1, r₁)).0.0 ≢ some still_running)
          → ◌≡◌ {A = (Option StoreError × Bytes) × State set}
              (elim d [
                | true ↦ ((some cancelled, []), (f, r))
                | false ↦ elim wr.0 [
                  | some e ↦ ((some e, p), (wr.1, r₁))
                  | none ↦ elim (after_read set re) [
                    | some result ↦ ((result, p), (wr.1, r₁))
                    | none ↦
                        let rec = copy_with_context set fuel (i + 1) h (wr.1, r₁) in
                        ((rec.0.0, p ++ rec.0.1), rec.1)
                  ]
                ]
              ])
              ((some still_running, all.0.1), all.1)
          → ⊥
      go true wr n re k t = cc
      go false (some x, g) n re k t = n (ap (λ x. x.0.0) t)
      go false (none, g) n none k t = k refl (ap (λ x. x.0.0) t)
      go false (none, g) n (some eof) k t = cc
      go false (none, g) n (some buffer_closed) k t = cc
      go false (none, g) n (some offset_unavailable) k t = cc
      go false (none, g) n (some read_only) k t = cc
      go false (none, g) n (some (invalid_whence z)) k t = cc
      go false (none, g) n (some (negative_seek z)) k t = cc
      go false (none, g) n (some (negative_offset z)) k t = cc
      go false (none, g) n (some (no_read_at m)) k t = cc
      go false (none, g) n (some (other m)) k t = cc
