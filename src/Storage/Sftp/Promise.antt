-- ===== src/Storage/Sftp/Promise.antt =====
-- What the backend over SFTP promises: it is a `Backend` with the documented behaviour.
use backupgate.Prelude.{ℕ, ◌≡◌, refl, sym, ap, ◌∙◌, inl, inr, Option, none, some, Bytes}
use backupgate.Storage.Backend.{StoreError, Stored, ok, err, IsBackend}
use backupgate.Storage.Sftp.{
  Setting, State, with_client, open_remote, download, delete, list, sftp_backend, on_remote,
}
use backupgate.Storage.Sftp.Laws.{SameFiles, SameBut, IsSftp}
use backupgate.Storage.Sftp.Session.{with_client_cases}
use backupgate.Storage.Sftp.Uploads.{upload-Holds}

module _ {F S C H R : Type 0} (set : Setting F S C H R) (content : F → Bytes → Option Bytes)
    (path_of : H → Bytes) (at : F → H → ℕ) (is : IsSftp set.library content path_of at) where
  -- A call that changes no file, in a session of its own, changes none.
  quiet-SameFiles :
      {A : Type 0}
      → (refuse : StoreError → A) (call : F → C → A × F)
      → ((g : F) (c : C) → SameFiles content g (call g c).1)
      → (w w' : State set) (a : A) → with_client set refuse (on_remote set call) w ≡ (a, w')
      → SameFiles content w.0 w'.0
  quiet-SameFiles refuse call quiet w w' a t q =
      elim (with_client_cases set content path_of at is refuse (on_remote set call) w w' a t) [
        | inl (e, refused, same) ↦ same q
        | inr (s, c, g, v, same, done, end) ↦
            ap (λ u. content u.0 q) end
            ∙ is.ssh_closing (set.library.close_client v.0 c) s q
            ∙ is.client_closing v.0 c q
            ∙ ap (λ z. content z.1.0 q) (sym done)
            ∙ quiet g c q
            ∙ same q
      ]

  -- What has succeeded of a download: the file is opened in a session that is over, and read.
  pub download-opened :
      (w w' : State set) (p b : Bytes)
      → download set w p ≡ (ok b, w')
      → (h : H) × (v : State set) × (open_remote set w p ≡ (ok h, v))
        × ((set.library.read_all v.0 h).0 ≡ ok b)
        × (w' ≡ (set.library.close (set.library.read_all v.0 h).1 h, v.1))
  unfolding download
  download-opened w w' p b t = go (open_remote set w p) refl t
    where
      go :
          (x : Stored H × State set)
          → open_remote set w p ≡ x
          → ◌≡◌ {A = Stored Bytes × State set}
              (elim x.0 [
                | err e ↦ (err e, x.1)
                | ok h ↦
                    let (c, f) = set.library.read_all x.1.0 h in (c, (set.library.close f h, x.1.1))
              ])
              (ok b, w')
          → (h : H) × (v : State set) × (open_remote set w p ≡ (ok h, v))
            × ((set.library.read_all v.0 h).0 ≡ ok b)
            × (w' ≡ (set.library.close (set.library.read_all v.0 h).1 h, v.1))
      go (err e, v) k t = cc
      go (ok h, v) k t = (h, v, k, ap (λ z. z.0) t, ap (λ z. z.1) (sym t))

  -- The file that a download opens, and the session that it was opened in.
  pub open_remote-session :
      (w v : State set) (p : Bytes) (h : H)
      → open_remote set w p ≡ (ok h, v)
      → (s : S) × (c : C) × (g : F) × ((set.library.open_read g c (set.remote_path p)).0 ≡ ok h)
        × (v.0
            ≡ set.library.close_ssh
                (set.library.close_client (set.library.open_read g c (set.remote_path p)).1 c)
                s)
  unfolding open_remote
  open_remote-session w v p h t =
      elim (with_client_cases set content path_of at is err
        (on_remote set (λ f c. set.library.open_read f c (set.remote_path p))) w v (ok h) t) [
          | inl (e, refused, same) ↦ cc
          | inr (s, c, g, u, same, done, end) ↦ (
            s,
            c,
            g,
            ap (λ z. z.0) done,
            ap (λ z. z.0) end
                ∙ ap (λ z. set.library.close_ssh (set.library.close_client z.1.0 c) s) (sym done),
          )
        ]

  download-read :
      (w w' : State set) (p b : Bytes)
      → download set w p ≡ (ok b, w')
      → (content w.0 (set.remote_path p) ≡ some b) × SameFiles content w.0 w'.0
  unfolding open_remote
  download-read w w' p b t =
      let full = set.remote_path p in
      let (h, v, o, got, end) = download-opened w w' p b t in
      let same : SameFiles content w.0 v.0 =
        quiet-SameFiles err (λ f c. set.library.open_read f c full) (λ g c. is.opening g c full) w v
          (ok h) o in
      let (s, c, g, file, back) = open_remote-session w v p h o in
      (
        sym (same full)
            ∙ ap (content v.0) (sym (is.opened_path g c full h file))
            ∙ is.read v.0 h b got,
        λ q.
            ap (λ u. content u.0 q) end
            ∙ is.closing (set.library.read_all v.0 h).1 h q
            ∙ is.reading v.0 h q
            ∙ same q,
      )

  delete-gone :
      (w w' : State set) (p : Bytes)
      → delete set w p ≡ (none, w')
      → (content w'.0 (set.remote_path p) ≡ none) × SameBut content (set.remote_path p) w.0 w'.0
  unfolding delete
  delete-gone w w' p t =
      let full = set.remote_path p in
      elim (with_client_cases set content path_of at is some
        (on_remote set (λ f c. set.library.remove f c full)) w w' none t) [
          | inl (e, refused, same) ↦ cc
          | inr (s, c, g, v, same, done, end) ↦
              let (gone, others) = is.removed g v.0 c full (ap (λ z. (z.0, z.1.0)) done) in
              let closed : (q : Bytes) → content w'.0 q ≡ content v.0 q = λ q.
                ap (λ u. content u.0 q) end
                ∙ is.ssh_closing (set.library.close_client v.0 c) s q
                ∙ is.client_closing v.0 c q in
              (closed full ∙ gone, λ q apart. closed q ∙ others q apart ∙ same q)
        ]

  list-same : (w : State set) (p : Bytes) → SameFiles content w.0 (list set w p).1.0
  unfolding list
  list-same w p =
      quiet-SameFiles err (λ f c. set.library.read_dir f c (set.remote_path p))
        (λ g c. is.listing g c (set.remote_path p)) w (list set w p).1 (list set w p).0 refl

  -- The backend over SFTP keeps the laws that the upload and the rotation rely on. That of
  -- Download says nothing here, as no download can be read.
  pub sftp_backend-IsBackend : IsBackend (sftp_backend set) (λ w p. content w.0 (set.remote_path p))
  sftp_backend-IsBackend = record {
    file_of = set.remote_path;
    one_file = λ w p q e. ap (content w.0) e;
    uploaded = λ w p n read w' t. (upload-Holds set content path_of at is w p n read w' t).0;
    downloaded = λ w p c w' t.
        let (held, same) = download-read w w' p c t in (held, λ q. same (set.remote_path q));
    deleted = λ w p w' t.
        let (gone, others) = delete-gone w w' p t in
        (gone, λ q apart. others (set.remote_path q) apart);
    listed = λ w p q. list-same w p (set.remote_path q);
  }
