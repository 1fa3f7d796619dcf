-- ===== src/Storage/Sftp/Session.antt =====
-- What a call over SFTP goes through: `withClient`, and the function that an upload gives to it.
use backupgate.Prelude.{ℕ, ◌≡◌, refl, sym, ap, ◌∙◌, ◌⊎◌, inl, inr, Option, none, some, [], Bytes}
use backupgate.Prelude.Int.{ℤ}
use backupgate.Storage.Backend.{StoreError, Stored, ok, err}
use backupgate.Storage.Sftp.{
  OpenMode, Setting, State, seek_if, copy_with_context, store, with_client,
}
use backupgate.Storage.Sftp.Laws.{SameFiles, IsSftp}

module _ {F S C H R : Type 0} (set : Setting F S C H R) (content : F → Bytes → Option Bytes)
    (path_of : H → Bytes) (at : F → H → ℕ) (is : IsSftp set.library content path_of at) where
  -- What `withClient` does: the connection fails, or its function runs on a client, which is closed
  -- behind it with its connection.
  pub with_client_cases :
      {A : Type 0}
      → (refuse : StoreError → A) (fn : C → State set → A × State set) → (w w' : State set) (a : A)
      → with_client set refuse fn w ≡ (a, w')
      → ((e : StoreError) × (a ≡ refuse e) × SameFiles content w.0 w'.0)
        ⊎ ((s : S) × (c : C) × (g : F) × (v : State set) × SameFiles content w.0 g
            × (fn c (g, w.1) ≡ (a, v))
            × (w' ≡ (set.library.close_ssh (set.library.close_client v.0 c) s, v.1)))
  unfolding with_client
  with_client_cases {A} refuse fn (f, r) w' a t = go (set.library.ssh_connect f) (is.connecting f) t
    where
      Result : Type 0
      Result =
          ((e : StoreError) × (a ≡ refuse e) × SameFiles content f w'.0)
          ⊎ ((s : S) × (c : C) × (g : F) × (v : State set) × SameFiles content f g
              × (fn c (g, r) ≡ (a, v))
              × (w' ≡ (set.library.close_ssh (set.library.close_client v.0 c) s, v.1)))

      inner :
          (s : S) (f₁ : F) (x : Stored C × F)
          → SameFiles content f f₁
          → SameFiles content f₁ x.1
          → ◌≡◌ {A = A × State set}
              (elim x.0 [
                | err e ↦ (refuse e, (set.library.close_ssh x.1 s, r))
                | ok c ↦
                    let (result, w) = fn c (x.1, r) in
                    (result, (set.library.close_ssh (set.library.close_client w.0 c) s, w.1))
              ])
              (a, w')
          → Result
      inner s f₁ (err e, f₂) k k₂ t = inl (
        e,
        ap (λ z. z.0) (sym t),
        λ p. ap (λ z. content z.1.0 p) (sym t) ∙ is.ssh_closing f₂ s p ∙ k₂ p ∙ k p,
      )
      inner s f₁ (ok c, f₂) k k₂ t =
          let v = (fn c (f₂, r)).1 in
          inr (s, c, f₂, v, λ p. k₂ p ∙ k p, ap (λ z. (z.0, v)) t, ap (λ z. z.1) (sym t))

      go :
          (x : Stored S × F)
          → SameFiles content f x.1
          → ◌≡◌ {A = A × State set}
              (elim x.0 [
                | err e ↦ (refuse e, (x.1, r))
                | ok s ↦
                    let (client, f₂) = set.library.new_client x.1 s in
                    elim client [
                      | err e ↦ (refuse e, (set.library.close_ssh f₂ s, r))
                      | ok c ↦
                          let (result, w) = fn c (f₂, r) in
                          (result, (set.library.close_ssh (set.library.close_client w.0 c) s, w.1))
                    ]
              ])
              (a, w')
          → Result
      go (err e, f₁) k t =
          inl (e, ap (λ z. z.0) (sym t), λ p. ap (λ z. content z.1.0 p) (sym t) ∙ k p)
      go (ok s, f₁) k t = inner s f₁ (set.library.new_client f₁ s) k (is.starting f₁ s) t

  -- What `store` has to have before its copy, and does behind it.
  pub store-copied :
      (mode : OpenMode) (offset : Option ℤ) (full_path : Bytes) (c : C) (w v : State set)
      → (read : Bytes) → store set mode offset full_path c w ≡ ((none, read), v)
      → (f₁ : F) × (h : H) × (f₂ : F) × (f₃ : F) × (u : State set) × SameFiles content w.0 f₁
        × (set.library.open_file f₁ c full_path mode ≡ (ok h, f₂))
        × (seek_if set f₂ h offset ≡ (none, f₃))
        × (copy_with_context set set.rounds 0 h (f₃, w.1) ≡ ((none, read), u))
        × (v ≡ (set.library.close u.0 h, u.1))
  unfolding store
  store-copied mode offset full_path c (f, r) v read t =
      go (set.library.mkdir_all f c (set.path_dir full_path))
        (is.making f c (set.path_dir full_path)) t
    where
      Result : Type 0
      Result =
          (f₁ : F) × (h : H) × (f₂ : F) × (f₃ : F) × (u : State set) × SameFiles content f f₁
          × (set.library.open_file f₁ c full_path mode ≡ (ok h, f₂))
          × (seek_if set f₂ h offset ≡ (none, f₃))
          × (copy_with_context set set.rounds 0 h (f₃, r) ≡ ((none, read), u))
          × (v ≡ (set.library.close u.0 h, u.1))

      T : Type 0
      T = (Option StoreError × Bytes) × State set

      copied : (h : H) → State set → T
      copied h w =
          let (result, u) = copy_with_context set set.rounds 0 h w in
          (result, (set.library.close u.0 h, u.1))

      sought :
          (f₁ f₂ : F) (h : H) (x : Option StoreError × F)
          → SameFiles content f f₁
          → set.library.open_file f₁ c full_path mode ≡ (ok h, f₂)
          → seek_if set f₂ h offset ≡ x
          → ◌≡◌ {A = T}
              (elim x.0 [
                | some e ↦ ((some e, []), (set.library.close x.1 h, r))
                | none ↦ copied h (x.1, r)
              ])
              ((none, read), v)
          → Result
      sought f₁ f₂ h (some e, f₃) k o m t = cc
      sought f₁ f₂ h (none, f₃) k o m t =
          let u = (copy_with_context set set.rounds 0 h (f₃, r)).1 in
          (f₁, h, f₂, f₃, u, k, o, m, ap (λ z. (z.0, u)) t, ap (λ z. z.1) (sym t))

      opened :
          (f₁ : F) (x : Stored H × F)
          → SameFiles content f f₁
          → set.library.open_file f₁ c full_path mode ≡ x
          → ◌≡◌ {A = T}
              (elim x.0 [
                | err e ↦ ((some e, []), (x.1, r))
                | ok h ↦
                    let (m, f₃) = seek_if set x.1 h offset in
                    elim m [
                      | some e ↦ ((some e, []), (set.library.close f₃ h, r))
                      | none ↦ copied h (f₃, r)
                    ]
              ])
              ((none, read), v)
          → Result
      opened f₁ (err e, f₂) k o t = cc
      opened f₁ (ok h, f₂) k o t = sought f₁ f₂ h (seek_if set f₂ h offset) k o refl t

      go :
          (x : Option StoreError × F)
          → SameFiles content f x.1
          → ◌≡◌ {A = T}
              (elim x.0 [
                | some e ↦ ((some e, []), (x.1, r))
                | none ↦
                    let (file, f₂) = set.library.open_file x.1 c full_path mode in
                    elim file [
                      | err e ↦ ((some e, []), (f₂, r))
                      | ok h ↦
                          let (m, f₃) = seek_if set f₂ h offset in
                          elim m [
                            | some e ↦ ((some e, []), (set.library.close f₃ h, r))
                            | none ↦ copied h (f₃, r)
                          ]
                    ]
              ])
              ((none, read), v)
          → Result
      go (some e, f₁) k t = cc
      go (none, f₁) k t = opened f₁ (set.library.open_file f₁ c full_path mode) k refl t
