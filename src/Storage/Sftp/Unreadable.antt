-- ===== src/Storage/Sftp/Unreadable.antt =====
-- What becomes of a download over SFTP, whose file is read when its session is over.
use backupgate.Prelude.{ℕ, ◌≡◌, refl, sym, ap, ◌∙◌, Bool, false, Option, Bytes}
use backupgate.Storage.Backend.{StoreError, Stored, ok, err}
use backupgate.Storage.Sftp.{Setting, State, download}
use backupgate.Storage.Sftp.Laws.{IsSftp, HasSessions}
use backupgate.Storage.Sftp.Promise.{download-opened, open_remote-session}

module _ {F S C H R : Type 0} (set : Setting F S C H R) (content : F → Bytes → Option Bytes)
    (path_of : H → Bytes) (at : F → H → ℕ) (is : IsSftp set.library content path_of at)
    (is_live : F → C → Bool) (client_of : H → C)
    (has : HasSessions set.library is_live client_of) where
  -- `Download` gives a file back that cannot be read: the client and the connection that opened it are
  -- closed before its caller reads it. Reading the result is an error, for every file and every state.
  pub download-unreadable :
      (w : State set) (p : Bytes) → (e : StoreError) × ((download set w p).0 ≡ err e)
  download-unreadable w p = go (download set w p).0 refl
    where
      go : (x : Stored Bytes) → (download set w p).0 ≡ x → (e : StoreError) × (x ≡ err e)
      go (err e) k = (e, refl)
      go (ok b) k =
          let (h, v, o, got, end) =
            download-opened set content path_of at is w (download set w p).1 p b
              (ap (λ x. (x, (download set w p).1)) k) in
          let (s, c, g, file, back) = open_remote-session set content path_of at is w v p h o in
          let g₁ = (set.library.open_read g c (set.remote_path p)).1 in
          let closed : is_live v.0 c ≡ false =
            ap (λ f. is_live f c) back
            ∙ has.stays_dead (set.library.close_client g₁ c) s c (has.dead g₁ c) in
          let (e, broken) =
            has.unreadable v.0 h
              (ap (is_live v.0) (has.opened g c (set.remote_path p) h file) ∙ closed) in
          let absurd : ok b ≡ err e = sym got ∙ broken in cc
