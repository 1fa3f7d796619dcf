-- ===== src/Storage/Rsync/Promise.antt =====
-- What an upload over rsync leaves on the remote machine.
use backupgate.Prelude.{
  ◌≡◌, refl, sym, ap, ◌∙◌, Bool, true, false, Option, none, some, List, [], ◌∷◌, if◌then◌else◌,
  Bytes, bytes,
}
use backupgate.Prelude.Int.{ℤ}
use backupgate.Storage.Backend.{StoreError, failed, Stored, ok, err}
use backupgate.Storage.Shell.{remote_rsync_command}
use backupgate.Storage.Shell.Words.{words, between, words-remote_rsync_command}
use backupgate.Storage.Rsync.{
  not_file_backed, Setting, then_do, closing, transfer, await, rsync_do, run_rsync_over_ssh, upload,
}

-- The documented behaviour of the library and of the reader. `remote w p` is the file at the path
-- `p` of the machine, `on_disk w f` what a process that opens the local file `f` finds in it, and
-- `asked w` the command that the session runs. A Sync without an error has brought what was written
-- to the reader to its file; an rsync whose words, as the shell reads them, are the options for a
-- path, and that has run and ended well, has copied there what it found in the local file. The calls
-- before it leave the local files, and closing leaves the remote ones.
pub record IsRsync {W : Type 0} (set : Setting W) (remote : W → Bytes → Option Bytes)
    (on_disk : W → Bytes → Bytes) (asked : W → Bytes) : Type 0 where
  pub synced :
      (w w' : W) (file : Bytes)
      → set.reader.file_name w ≡ some file
      → set.reader.sync w ≡ (none, w')
      → on_disk w' file ≡ set.reader.file_bytes w
  pub connecting : (w : W) (f : Bytes) → on_disk (set.library.ssh_connect w).1 f ≡ on_disk w f
  pub session : (w : W) (f : Bytes) → on_disk (set.library.new_session w).1 f ≡ on_disk w f
  pub piping : (w : W) (f : Bytes) → on_disk (set.library.open_pipes w).1 f ≡ on_disk w f
  pub starting : (w : W) (c f : Bytes) → on_disk (set.library.start_command w c).1 f ≡ on_disk w f
  pub runs :
      (w w' : W) (command : Bytes)
      → set.library.start_command w command ≡ (none, w')
      → asked w' ≡ command
  pub transferred :
      (w w₁ w₂ w₃ : W) (options : Bytes → List Bytes) (path file : Bytes)
      → set.library.server_options ≡ ok options
      → words between [] (asked w) ≡ some (bytes "rsync" ∷ options path)
      → set.library.run_client w file ≡ (none, w₁)
      → set.library.close_stdin w₁ ≡ (none, w₂)
      → set.library.wait w₂ ≡ (none, w₃)
      → remote w₃ path ≡ some (on_disk w file)
  pub closing_session : (w : W) (p : Bytes) → remote (set.library.close_session w) p ≡ remote w p
  pub closing_ssh : (w : W) (p : Bytes) → remote (set.library.close_ssh w) p ≡ remote w p

then_do-none :
    {W : Type 0} (x : Option StoreError × W) (next : W → Option StoreError × W) (w' : W)
    → then_do x next ≡ (none, w')
    → (v : W) × (x ≡ (none, v)) × (next v ≡ (none, w'))
then_do-none (none, v) next w' h = (v, refl, h)
then_do-none (some e, v) next w' h = cc

closing-none :
    {W : Type 0} (close : W → W) (x : Option StoreError × W) (w' : W)
    → closing close x ≡ (none, w')
    → (v : W) × (x ≡ (none, v)) × (w' ≡ close v)
closing-none close (failure, v) w' h = (v, ap (λ y. (y.0, v)) h, ap (λ y. y.1) (sym h))

module _ {W : Type 0} (set : Setting W) (remote : W → Bytes → Option Bytes)
    (on_disk : W → Bytes → Bytes) (asked : W → Bytes) (is : IsRsync set remote on_disk asked) where
  transfer-none :
      (file : Bytes) (w w' : W)
      → transfer set file w ≡ (none, w')
      → (w₁ : W) × (w₂ : W) × (set.library.run_client w file ≡ (none, w₁))
        × (set.library.close_stdin w₁ ≡ (none, w₂))
        × (set.library.wait w₂ ≡ (none, w'))
  unfolding transfer
  transfer-none file w w' h =
      go (set.library.run_client w file).0 (set.library.close_stdin w₁).0 refl refl h
    where
      w₁ : W
      w₁ = (set.library.run_client w file).1

      w₂ : W
      w₂ = (set.library.close_stdin w₁).1

      w₃ : W
      w₃ = (set.library.wait w₂).1

      go :
          (a b : Option StoreError)
          → (set.library.run_client w file).0 ≡ a
          → (set.library.close_stdin w₁).0 ≡ b
          → ◌≡◌ {A = Option StoreError × W}
              (elim a [
                | some e ↦ (some e, w₃)
                | none ↦ elim b [ some e ↦ (some e, w₃) | none ↦ ((set.library.wait w₂).0, w₃) ]
              ])
              (none, w')
          → (v₁ : W) × (v₂ : W) × (set.library.run_client w file ≡ (none, v₁))
            × (set.library.close_stdin v₁ ≡ (none, v₂))
            × (set.library.wait v₂ ≡ (none, w'))
      go (some e) b p q k = cc
      go none (some e) p q k = cc
      go none none p q k = (w₁, w₂, ap (λ x. (x, w₁)) p, ap (λ x. (x, w₂)) q, k)

  rsync_do-transferred :
      (options : Bytes → List Bytes) (path file : Bytes) (w w' : W)
      → set.library.server_options ≡ ok options
      → rsync_do set (options path) file w ≡ (none, w')
      → remote w' path ≡ some (on_disk w file)
  unfolding rsync_do await
  rsync_do-transferred options path file w w' made h =
      let (w₁, connected, h₁) = then_do-none (set.library.ssh_connect w) _ w' h in
      let (u₁, h₂, ssh) = closing-none set.library.close_ssh _ w' h₁ in
      let (w₂, session, h₃) = then_do-none (set.library.new_session w₁) _ u₁ h₂ in
      let (u₂, h₄, closed) = closing-none set.library.close_session _ u₁ h₃ in
      let (w₃, pipes, h₅) = then_do-none (set.library.open_pipes w₂) _ u₂ h₄ in
      let (w₄, begun, h₆) =
        then_do-none (set.library.start_command w₃ (remote_rsync_command (options path)))
          (await set file) u₂ h₅ in
      let asks = is.runs w₃ w₄ (remote_rsync_command (options path)) begun in
      let (a, b, ran, shut, waited) =
        transfer-none file w₄ u₂ (not_cancelled set.is_cancelled w₄ u₂ h₆) in
      ap (λ x. remote x path) ssh
      ∙ is.closing_ssh u₁ path
      ∙ ap (λ x. remote x path) closed
      ∙ is.closing_session u₂ path
      ∙ is.transferred w₄ a b u₂ options path file made
          (ap (words between []) asks ∙ words-remote_rsync_command (options path)) ran shut waited
      ∙ ap some (
          ap (λ x. on_disk x.1 file) (sym begun)
          ∙ is.starting w₃ (remote_rsync_command (options path)) file
          ∙ ap (λ x. on_disk x.1 file) (sym pipes)
          ∙ is.piping w₂ file
          ∙ ap (λ x. on_disk x.1 file) (sym session)
          ∙ is.session w₁ file
          ∙ ap (λ x. on_disk x.1 file) (sym connected)
          ∙ is.connecting w file)
    where
      not_cancelled :
          (c : Bool) (x y : W)
          → ◌≡◌ {A = Option StoreError × W}
              (if c then (some (failed 2), set.library.close_session x) else transfer set file x)
              (none, y)
          → transfer set file x ≡ (none, y)
      not_cancelled true x y k = cc
      not_cancelled false x y k = k

  -- With an rsync that keeps its contract, an upload over it that succeeds has left on the remote path,
  -- whatever bytes that path has, all that was written to the upload's reader before, also what was not
  -- yet in its file.
  pub upload-transferred :
      (w : W) (path : Bytes) (n : ℤ) (read : Bytes) (w' : W)
      → upload set w path n ≡ (none, read, w')
      → (remote w' (set.remote_path path) ≡ some (set.reader.file_bytes w))
        × (read ≡ set.reader.file_bytes w)
  unfolding upload run_rsync_over_ssh
  upload-transferred w path n read w' h =
      go (set.reader.file_name w) refl set.library.server_options refl h
    where
      Result : Type 0
      Result =
          (remote w' (set.remote_path path) ≡ some (set.reader.file_bytes w))
          × (read ≡ set.reader.file_bytes w)

      run : Stored (Bytes → List Bytes) → Bytes → W → Option StoreError × W
      run o file v = elim o [
        | err e ↦ (some e, v)
        | ok options ↦ rsync_do set (options (set.remote_path path)) file v
      ]

      go :
          (f : Option Bytes)
          → set.reader.file_name w ≡ f
          → (o : Stored (Bytes → List Bytes)) → set.library.server_options ≡ o
          → ◌≡◌ {A = Option StoreError × Bytes × W}
              (elim f [
                | none ↦ (some not_file_backed, [], w)
                | some file ↦
                    let (failure, v) = then_do (set.reader.sync w) (run o file) in
                    (failure, set.reader.file_bytes w, v)
              ])
              (none, read, w')
          → Result
      go none p o q k = cc
      go (some file) p (err e) q k =
          let (v, synced, refused) =
            then_do-none (set.reader.sync w) (run (err e) file) w' (ap (λ x. (x.0, x.2)) k) in
          cc
      go (some file) p (ok options) q k =
          let (v, synced, sent) =
            then_do-none (set.reader.sync w) (run (ok options) file) w' (ap (λ x. (x.0, x.2)) k) in
          (
            rsync_do-transferred options (set.remote_path path) file v w' q sent
                ∙ ap some (is.synced w v file p synced),
            ap (λ x. x.1) (sym k),
          )
