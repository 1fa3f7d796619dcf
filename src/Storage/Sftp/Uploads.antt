-- ===== src/Storage/Sftp/Uploads.antt =====
-- What uploads over SFTP that succeed leave on the remote machine.
use backupgate.Prelude.{
  ℕ, ◌+◌, ◌≤◌, ◌≡◌, sym, ap, ◌∙◌, subst, inl, inr, Option, none, some, [], ◌++◌, append-nil, arith,
  length, drop-nil, Bytes,
}
use backupgate.Prelude.Int.{ℤ, pos}
use backupgate.Storage.Backend.{StoreError}
use backupgate.Storage.Sftp.{
  truncate, keep, Setting, State, copy_with_context, store, with_client, seek_to, upload,
  resume_upload, refuse_copy,
}
use backupgate.Storage.Sftp.Laws.{overwrite, SameFiles, SameBut, IsSftp}
use backupgate.Storage.Sftp.Content.{copy_with_context-Written}
use backupgate.Storage.Sftp.Session.{with_client_cases, store-copied}

overwrite-empty : (b : Bytes) → overwrite [] 0 b ≡ b
overwrite-empty b = ap (λ x. b ++ x) (drop-nil (0 + length b)) ∙ append-nil b

module _ {F S C H R : Type 0} (set : Setting F S C H R) (content : F → Bytes → Option Bytes)
    (path_of : H → Bytes) (at : F → H → ℕ) (is : IsSftp set.library content path_of at) where
  -- The file `p` is `b` now, and the others are as they were.
  abbrev pub Holds : Bytes → Bytes → F → F → Type 0
  Holds p b f f' = (content f' p ≡ some b) × SameBut content p f f'

  -- The remote file at a path, which is empty if there is none.
  abbrev pub old_content : F → Bytes → Bytes
  old_content f p = elim (content f p) [ none ↦ [] | some b ↦ b ]

  -- A file that is opened at `k` and written is closed with the bytes from `k` on.
  copied-Holds :
      (f f₁ f₂ f₃ : F) (h : H) (u : State set) (p c b : Bytes) (r : R) (k : ℕ)
      → SameFiles content f f₁
      → path_of h ≡ p
      → SameBut content p f₁ f₂
      → SameFiles content f₂ f₃
      → at f₃ h ≡ k
      → k ≤ length c
      → content f₃ p ≡ some c
      → copy_with_context set set.rounds 0 h (f₃, r) ≡ ((none, b), u)
      → Holds p (overwrite c k b) f (set.library.close u.0 h)
  copied-Holds f f₁ f₂ f₃ h u p c b r k same path others still off inside held t =
      let (now, rest) =
        copy_with_context-Written set content path_of at is set.rounds 0 h f₃ u.0 r u.1 c b
          (ap (content f₃) path ∙ held) (omega (arith, off, inside)) t in
      (
        is.closing u.0 h p
            ∙ ap (content u.0) (sym path)
            ∙ now
            ∙ ap (λ n. some (overwrite c n b)) off,
        λ q apart.
            is.closing u.0 h q ∙ rest q (λ e. apart (e ∙ path)) ∙ still q ∙ others q apart ∙ same q,
      )

  store-Truncated :
      (p b : Bytes) (c : C) (w v : State set)
      → store set truncate none p c w ≡ ((none, b), v)
      → Holds p b w.0 v.0
  store-Truncated p b c w v t =
      let (f₁, h, f₂, f₃, u, same, file, sought, copied, end) =
        store-copied set content path_of at is truncate none p c w v b t in
      let (path, off, empty, others) = is.truncated f₁ f₂ c p h file in
      let stay : f₂ ≡ f₃ = ap (λ x. x.1) sought in
      let (now, rest) =
        copied-Holds w.0 f₁ f₂ f₃ h u p [] b w.1 0 same path others
          (λ q. ap (λ f. content f q) (sym stay)) (ap (λ f. at f h) (sym stay) ∙ off) (omega arith)
          (ap (λ f. content f p) (sym stay) ∙ empty) copied in
      subst (λ x. Holds p b w.0 x.0) (sym end) ((now ∙ ap some (overwrite-empty b), rest))

  store-Kept :
      (p b : Bytes) (k : ℕ) (c : C) (w v : State set)
      → k ≤ length (old_content w.0 p)
      → store set keep (some (pos k)) p c w ≡ ((none, b), v)
      → Holds p (overwrite (old_content w.0 p) k b) w.0 v.0
  store-Kept p b k c w v inside t =
      let (f₁, h, f₂, f₃, u, same, file, sought, copied, end) =
        store-copied set content path_of at is keep (some (pos k)) p c w v b t in
      let (path, off, held, others) = is.kept f₁ f₂ c p h file in
      let (there, still) = is.sought f₂ f₃ h k sought in
      subst (λ x. Holds p (overwrite (old_content w.0 p) k b) w.0 x.0) (sym end)
        (copied-Holds w.0 f₁ f₂ f₃ h u p (old_content w.0 p) b w.1 k same path others still there
          inside (still p ∙ held ∙ ap (λ o. some (elim o [ none ↦ [] | some x ↦ x ])) (same p))
          copied)

  Holds-session :
      (p b : Bytes) (s : S) (c : C) (f g : F) (v w' : State set)
      → SameFiles content f g
      → Holds p b g v.0
      → w' ≡ (set.library.close_ssh (set.library.close_client v.0 c) s, v.1)
      → Holds p b f w'.0
  Holds-session p b s c f g v w' same (now, others) end =
      let closed : (q : Bytes) → content w'.0 q ≡ content v.0 q = λ q.
        ap (λ w. content w.0 q) end
        ∙ is.ssh_closing (set.library.close_client v.0 c) s q
        ∙ is.client_closing v.0 c q in
      (closed p ∙ now, λ q apart. closed q ∙ others q apart ∙ same q)

  -- The Seek of the reader has succeeded, and the session behind it.
  seeked-session :
      (f : F) (x : Option StoreError × R)
      (fn : C → State set → (Option StoreError × Bytes) × State set)
      → (read : Bytes) (w' : State set)
      → ◌≡◌ {A = Option StoreError × Bytes × State set}
          (elim x.0 [
            | some e ↦ (some e, [], (f, x.1))
            | none ↦ let ((e, b), w) = with_client set (refuse_copy set) fn (f, x.1) in (e, b, w)
          ])
          (none, read, w')
      → with_client set (refuse_copy set) fn (f, x.1) ≡ ((none, read), w')
  seeked-session f (some e, r) fn read w' t = cc
  seeked-session f (none, r) fn read w' t = ap (λ z. ((z.0, z.1), z.2)) t

  -- An upload that succeeds leaves on the remote path the bytes that it read, and no other file
  -- changed.
  pub upload-Holds :
      (w : State set) (p : Bytes) (n : ℤ) (read : Bytes) (w' : State set)
      → upload set w p n ≡ (none, read, w')
      → Holds (set.remote_path p) read w.0 w'.0
  unfolding upload
  upload-Holds (f, r) p n read w' t =
      let ses =
        seeked-session f (seek_to set r (pos 0)) (store set truncate none (set.remote_path p)) read
          w' t in
      elim (with_client_cases set content path_of at is (refuse_copy set)
        (store set truncate none (set.remote_path p)) (f, (seek_to set r (pos 0)).1) w' (none, read)
        ses) [
          | inl (e, refused, same) ↦ cc
          | inr (s, c, g, v, same, done, end) ↦
              Holds-session (set.remote_path p) read s c f g v w' same
                (store-Truncated (set.remote_path p) read c (g, (seek_to set r (pos 0)).1) v done)
                end
        ]

  -- A resumed upload that succeeds has written what it read over the remote file from the offset on:
  -- the bytes in front of it stay, and so do those behind the bytes read. No other file has changed.
  pub resume_upload-Holds :
      (w : State set) (p : Bytes) (k : ℕ) (n : ℤ) (read : Bytes) (w' : State set)
      → k ≤ length (old_content w.0 (set.remote_path p))
      → resume_upload set w p (pos k) n ≡ (none, read, w')
      → Holds (set.remote_path p) (overwrite (old_content w.0 (set.remote_path p)) k read) w.0 w'.0
  unfolding resume_upload
  resume_upload-Holds (f, r) p k n read w' inside t =
      let full = set.remote_path p in
      let r₁ = (seek_to set r (pos k)).1 in
      let fn = store set keep (some (pos k)) full in
      elim (with_client_cases set content path_of at is (refuse_copy set) fn (f, r₁) w' (none, read)
        (seeked-session f (seek_to set r (pos k)) fn read w' t)) [
          | inl (e, refused, same) ↦ cc
          | inr (s, c, g, v, same, done, end) ↦
              let old : old_content g full ≡ old_content f full =
                ap (λ o. elim o [ none ↦ [] | some b ↦ b ]) (same full) in
              Holds-session full (overwrite (old_content f full) k read) s c f g v w' same
                (subst (λ x. Holds full (overwrite x k read) g v.0) old
                  (store-Kept full read k c (g, r₁) v (subst (λ x. k ≤ length x) (sym old) inside)
                    done))
                end
        ]
