-- ===== src/Storage/Sftp/Content.antt =====
-- What uploads and deletions over SFTP leave on the remote machine.
use backupgate.Prelude.{
  ℕ, zero, suc, ◌+◌, ◌≤◌, ◌≡◌, refl, sym, ap, ap₂, ◌∙◌, subst, ◌⊎◌, inl, inr, Bool, true, false,
  Option, none, some, [], ◌∷◌, ◌++◌, append_assoc, arith, length, take, drop, length-append,
  take-append-drop, length-take, drop-drop, drop-length, take-length, Bytes,
}
use backupgate.Io.{
  IoError, eof, buffer_closed, offset_unavailable, read_only, invalid_whence, negative_seek,
  negative_offset, no_read_at, other,
}
use backupgate.Storage.Backend.{StoreError}
use backupgate.Storage.Sftp.{
  Setting, State, write_some, after_read, copy_with_context, cancelled, copy_size,
}
use backupgate.Storage.Sftp.Laws.{overwrite, SameBut, IsSftp}

pub overwrite-nil : (c : Bytes) (k : ℕ) → overwrite c k [] ≡ c
overwrite-nil c k =
    ap (λ n. take k c ++ drop n c) {x = k + 0} {y = k} (omega arith) ∙ take-append-drop k c

length-overwrite :
    (c : Bytes) (k : ℕ) (b : Bytes) → k ≤ length c → k + length b ≤ length (overwrite c k b)
length-overwrite c k b h = omega (
  arith,
  length-append (take k c) (b ++ drop (k + length b) c),
  length-append b (drop (k + length b) c),
  length-take k c,
)

-- Two writes one behind the other are one.
overwrite-overwrite :
    (c : Bytes) (k : ℕ) (p q : Bytes)
    → k ≤ length c
    → overwrite (overwrite c k p) (k + length p) q ≡ overwrite c k (p ++ q)
overwrite-overwrite c k p q h =
    let front = take k c ++ p in
    let rest = drop (k + length p) c in
    let whole : overwrite c k p ≡ front ++ rest = sym (append_assoc (take k c) p rest) in
    let size : k + length p ≡ length front =
      omega (arith, length-append (take k c) p, length-take k c) in
    ap (λ x. overwrite x (k + length p) q) whole
    ∙ ap (λ n. take n (front ++ rest) ++ (q ++ drop (n + length q) (front ++ rest))) size
    ∙ ap₂ (λ x y. x ++ (q ++ y)) (take-length front rest)
        (sym (drop-drop (length front) (length q) (front ++ rest))
          ∙ ap (drop (length q)) (drop-length front rest)
          ∙ drop-drop (k + length p) (length q) c)
    ∙ append_assoc (take k c) p (q ++ drop (k + length p + length q) c)
    ∙ ap (λ x. take k c ++ x)
        (sym (append_assoc p q (drop (k + length p + length q) c))
          ∙ ap (λ n. (p ++ q) ++ drop n c) {x = k + length p + length q} {y = k + length (p ++ q)}
              (omega (arith, length-append p q)))

module _ {F S C H R : Type 0} (set : Setting F S C H R) (content : F → Bytes → Option Bytes)
    (path_of : H → Bytes) (at : F → H → ℕ) (is : IsSftp set.library content path_of at) where
  -- The file `h` has got `b` behind its offset, and no other file has changed.
  abbrev pub Written : H → Bytes → Bytes → F → F → Type 0
  Written h c b f f' =
      (content f' (path_of h) ≡ some (overwrite c (at f h) b)) × SameBut content (path_of h) f f'

  -- The same, with the offset behind what was written.
  abbrev Advanced : H → Bytes → Bytes → F → F → Type 0
  Advanced h c b f f' = Written h c b f f' × (at f' h ≡ at f h + length b)

  write_some-Advanced :
      (f f' : F) (h : H) (p c : Bytes)
      → content f (path_of h) ≡ some c
      → at f h ≤ length c
      → write_some set f h p ≡ (none, f')
      → Advanced h c p f f'
  write_some-Advanced f f' h [] c held inside e =
      let same : f ≡ f' = ap (λ x. x.1) e in
      subst (Advanced h c [] f) same
        ((held ∙ ap some (sym (overwrite-nil c (at f h))), λ q apart. refl), omega arith)
  write_some-Advanced f f' h (b ∷ bs) c held inside e =
      let (now, off, others) = is.wrote f f' h (b ∷ bs) c held inside e in ((now, others), off)

  Advanced-Written :
      (f g f' : F) (h : H) (p q c : Bytes)
      → at f h ≤ length c
      → Advanced h c p f g
      → Written h (overwrite c (at f h) p) q g f'
      → Written h c (p ++ q) f f'
  Advanced-Written f g f' h p q c inside ((now, others), off) (later, others') = (
    later
        ∙ ap (λ n. some (overwrite (overwrite c (at f h) p) n q)) off
        ∙ ap some (overwrite-overwrite c (at f h) p q inside),
    λ x apart. others' x apart ∙ others x apart,
  )

  -- A round of a copy that succeeds: the last one, or one with a copy behind it.
  copy-round :
      (fuel i : ℕ) (h : H) (f f' : F) (r r' : R) (read : Bytes)
      → copy_with_context set (suc fuel) i h (f, r) ≡ ((none, read), (f', r'))
      → let ((p, e), r₁) = set.source.read r copy_size in
        (f₁ : F) × (write_some set f h p ≡ (none, f₁))
        × (((read ≡ p) × (f₁ ≡ f'))
            ⊎ ((q : Bytes) × (read ≡ p ++ q)
                × (copy_with_context set fuel (i + 1) h (f₁, r₁) ≡ ((none, q), (f', r')))))
  unfolding copy_with_context
  copy-round fuel i h f f' r r' read t =
      go (set.is_done i) (write_some set f h p) refl (set.source.read r copy_size).0.1
        (copy_with_context set fuel (i + 1) h ((write_some set f h p).1, r₁)) refl t
    where
      p : Bytes
      p = (set.source.read r copy_size).0.0

      r₁ : R
      r₁ = (set.source.read r copy_size).1

      go :
          (d : Bool) (wr : Option StoreError × F)
          → write_some set f h p ≡ wr
          → (re : Option IoError) (rec : (Option StoreError × Bytes) × State set)
          → copy_with_context set fuel (i + 1) h (wr.1, r₁) ≡ rec
          → ◌≡◌ {A = (Option StoreError × Bytes) × State set}
              (elim d [
                | true ↦ ((some cancelled, []), (f, r))
                | false ↦ elim wr.0 [
                  | some e ↦ ((some e, p), (wr.1, r₁))
                  | none ↦ elim (after_read set re) [
                    | some result ↦ ((result, p), (wr.1, r₁))
                    | none ↦ ((rec.0.0, p ++ rec.0.1), rec.1)
                  ]
                ]
              ])
              ((none, read), (f', r'))
          → (f₁ : F) × (write_some set f h p ≡ (none, f₁))
            × (((read ≡ p) × (f₁ ≡ f'))
                ⊎ ((q : Bytes) × (read ≡ p ++ q)
                    × (copy_with_context set fuel (i + 1) h (f₁, r₁) ≡ ((none, q), (f', r')))))
      go true wr w re rec k t = cc
      go false (some x, g) w re rec k t = cc
      go false (none, g) w (some eof) rec k t =
          (g, w, inl (ap (λ z. z.0.1) (sym t), ap (λ z. z.1.0) t))
      go false (none, g) w none rec k t =
          (g, w, inr (rec.0.1, ap (λ z. z.0.1) (sym t), k ∙ ap (λ z. ((z.0.0, rec.0.1), z.1)) t))
      go false (none, g) w (some buffer_closed) rec k t = cc
      go false (none, g) w (some offset_unavailable) rec k t = cc
      go false (none, g) w (some read_only) rec k t = cc
      go false (none, g) w (some (invalid_whence z)) rec k t = cc
      go false (none, g) w (some (negative_seek z)) rec k t = cc
      go false (none, g) w (some (negative_offset z)) rec k t = cc
      go false (none, g) w (some (no_read_at n)) rec k t = cc
      go false (none, g) w (some (other n)) rec k t = cc

  -- A copy that succeeds has written what it read behind the offset of the file.
  pub copy_with_context-Written :
      (fuel i : ℕ) (h : H) (f f' : F) (r r' : R) (c read : Bytes)
      → content f (path_of h) ≡ some c
      → at f h ≤ length c
      → copy_with_context set fuel i h (f, r) ≡ ((none, read), (f', r'))
      → Written h c read f f'
  unfolding copy_with_context
  copy_with_context-Written zero i h f f' r r' c read held inside e = cc
  copy_with_context-Written (suc fuel) i h f f' r r' c read held inside e =
      let (g, wrote, how) = copy-round fuel i h f f' r r' read e in
      let p = (set.source.read r copy_size).0.0 in
      let front = write_some-Advanced f g h p c held inside wrote in
      elim how [
        | inl (all, same) ↦
            subst (λ x. Written h c x f f') (sym all) (subst (Written h c p f) same front.0)
        | inr (q, all, more) ↦
            subst (λ x. Written h c x f f') (sym all)
              (Advanced-Written f g f' h p q c inside front (
                copy_with_context-Written fuel (i + 1) h g f' (set.source.read r copy_size).1 r'
                  (overwrite c (at f h) p) q front.0.0
                  (omega (arith, front.1, length-overwrite c (at f h) p inside)) more))
      ]
