-- ===== src/Pipeline/Upload/Arrives.antt =====
-- internal/pipeline/pipeline.go: what is known of the remote file after verification.
use backupgate.Prelude.{
  ◌≡◌, refl, ap, ◌∙◌, subst, ◌⊎◌, inl, inr, Bool, true, false, not, Option, none, some, [], ◌∷◌,
  if◌then◌else◌, Bytes, str_eq, str_eq_sound,
}
use backupgate.Prelude.Int.{ℤ}
use backupgate.Storage.Backend.{StoreError, Stored, ok, err, IsBackend}
use backupgate.Pipeline.Types.{
  Env, Result, ◌>>=◌, give, bind-ok, no_configuration, bad_duration, unknown_buffer_mode,
  seek_failed, read_failed, rotation_failed, verification_failed, upload_failed, download_failed,
  retransmit_failed,
}
use backupgate.Pipeline.Types
use backupgate.Pipeline.Upload.{verify, retransmit, verify_and_retransmit}

module _ {W : Type 0} (env : Env W) (remote : W → Bytes → Option Bytes)
    (is : IsBackend env.backend remote) where
  -- The file at the path `p` has a digest that is exactly `hash`.
  abbrev pub Arrived : W → Bytes → Bytes → Type 0
  Arrived w p hash = (c : Bytes) × (remote w p ≡ some c) × (env.sha256_hex c ≡ hash)

  -- A verification that succeeds has seen the file, and leaves it.
  pub verify-Arrived :
      (p hash : Bytes) (w w' : W) (x : Unit {0})
      → verify env p hash w ≡ (Types.ok x, w')
      → Arrived w' p hash
  unfolding verify
  verify-Arrived p hash w w' x h = go (env.backend.download w p) refl (subst (λ a. a) refl h)
    where
      Out : Stored Bytes × W → Type 0
      Out r =
          ◌≡◌ {A = Result (Unit {0}) × W}
            (elim r.0 [
              | err e ↦ (Types.err (download_failed e), r.1)
              | ok c ↦
                  if str_eq (env.sha256_hex c) hash
                  then (Types.ok tt, r.1)
                  else (Types.err verification_failed, r.1)
            ])
            (Types.ok x, w')

      go : (r : Stored Bytes × W) → env.backend.download w p ≡ r → Out r → Arrived w' p hash
      go (err e, v) d k = cc
      go (ok c, v) d k = same (str_eq (env.sha256_hex c) hash) refl k
        where
          same :
              (b : Bool)
              → str_eq (env.sha256_hex c) hash ≡ b
              → ◌≡◌ {A = Result (Unit {0}) × W}
                  (if b then (Types.ok tt, v) else (Types.err verification_failed, v))
                  (Types.ok x, w')
              → Arrived w' p hash
          same false e t = cc
          same true e t =
              subst (λ u. Arrived u p hash) (ap (λ r. r.1) t)
                (
                  c,
                  (is.downloaded w p c v d).1 p ∙ (is.downloaded w p c v d).0,
                  str_eq_sound (env.sha256_hex c) hash e,
                )

  -- What `retransmit` reports as sent again has arrived.
  pub retransmit-Arrived :
      (p hash : Bytes) (size : ℤ) (w w' : W) (b : Bool)
      → retransmit env p hash size w ≡ (Types.ok b, w')
      → Arrived w' p hash × (b ≡ true)
  unfolding retransmit
  retransmit-Arrived p hash size w w' b h = go env.is_seeker refl h
    where
      Out : Bool → Type 0
      Out s =
          ◌≡◌ {A = Result Bool × W}
            (if not s
              then (Types.err verification_failed, w)
              else let (failure, _, w₁) = env.backend.upload w p size in
                elim failure [
                  | some e ↦ (Types.err (retransmit_failed e), w₁)
                  | none ↦ (do _ ← verify env p hash; give true) w₁
                ])
            (Types.ok b, w')

      sent :
          (f : Option StoreError) (u : W)
          → ◌≡◌ {A = Result Bool × W}
              (elim f [
                | some e ↦ (Types.err (retransmit_failed e), u)
                | none ↦ (do _ ← verify env p hash; give true) u
              ])
              (Types.ok b, w')
          → Arrived w' p hash × (b ≡ true)
      sent (some e) u k = cc
      sent none u k =
          let (x, v, done, k') = bind-ok (verify env p hash) (λ _. give true) u b w' k in
          (subst (λ t. Arrived t p hash) (ap (λ r. r.1) k') (verify-Arrived p hash u v x done), cc)

      go : (s : Bool) → env.is_seeker ≡ s → Out s → Arrived w' p hash × (b ≡ true)
      go false e k = cc
      go true e k = sent _ _ k

  -- With a backend that keeps its contract, `verifyAndRetransmit` answers true only when the file at
  -- the path has the expected digest, at the time of the answer. It answers false only when there is
  -- nothing to expect.
  pub verify_and_retransmit-Arrived :
      (p hash : Bytes) (size : ℤ) (w w' : W) (b : Bool)
      → verify_and_retransmit env p hash size w ≡ (Types.ok b, w')
      → ((b ≡ true) × Arrived w' p hash) ⊎ ((b ≡ false) × (hash ≡ []) × (w' ≡ w))
  unfolding verify_and_retransmit
  verify_and_retransmit-Arrived p [] size w w' b h = inr (cc, refl, cc)
  verify_and_retransmit-Arrived p (c ∷ hash) size w w' b h = go (verify env p (c ∷ hash) w) refl h
    where
      go :
          (r : Result (Unit {0}) × W)
          → verify env p (c ∷ hash) w ≡ r
          → ◌≡◌ {A = Result Bool × W}
              (elim r.0 [
                | Types.ok _ ↦ (Types.ok true, r.1)
                | Types.err verification_failed ↦ retransmit env p (c ∷ hash) size r.1
                | Types.err e ↦ (Types.err e, r.1)
              ])
              (Types.ok b, w')
          → ((b ≡ true) × Arrived w' p (c ∷ hash)) ⊎ ((b ≡ false) × (c ∷ hash ≡ []) × (w' ≡ w))
      go (Types.ok x, u) e k = inl (
        cc,
        subst (λ t. Arrived t p (c ∷ hash)) (ap (λ q. q.1) k) (verify-Arrived p (c ∷ hash) w u x e),
      )
      go (Types.err verification_failed, u) e k =
          let (arrived, answered) = retransmit-Arrived p (c ∷ hash) size u w' b k in
          inl (answered, arrived)
      go (Types.err no_configuration, u) e k = cc
      go (Types.err bad_duration, u) e k = cc
      go (Types.err (unknown_buffer_mode m), u) e k = cc
      go (Types.err (seek_failed n), u) e k = cc
      go (Types.err (read_failed n), u) e k = cc
      go (Types.err (upload_failed f), u) e k = cc
      go (Types.err (download_failed f), u) e k = cc
      go (Types.err (retransmit_failed f), u) e k = cc
      go (Types.err (rotation_failed f), u) e k = cc
