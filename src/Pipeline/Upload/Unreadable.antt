-- ===== src/Pipeline/Upload/Unreadable.antt =====
-- internal/pipeline/pipeline.go: the verification over a backend whose downloads all fail.
use backupgate.Prelude.{
  ◌≡◌, refl, ◌≢◌, Bool, true, false, not, Option, none, some, [], ◌∷◌, if◌then◌else◌, Bytes, str_eq,
}
use backupgate.Prelude.Int.{ℤ}
use backupgate.Storage.Backend.{StoreError, Stored, Backend}
use backupgate.Storage.Backend
use backupgate.Pipeline.Types.{
  Env, Result, ok, err, ◌>>=◌, bind-ok, give, no_configuration, bad_duration, unknown_buffer_mode,
  seek_failed, read_failed, rotation_failed, verification_failed, upload_failed, download_failed,
  retransmit_failed,
}
use backupgate.Pipeline.Upload.{verify, retransmit, verify_and_retransmit}

module _ {W : Type 0} (env : Env W) where
  -- Every download fails.
  abbrev pub Unreadable : Type 0
  Unreadable =
      (w : W) (p : Bytes) → (e : StoreError) × ((env.backend.download w p).0 ≡ Backend.err e)

  verify-fails :
      Unreadable → (p hash : Bytes) (w w' : W) (x : Unit {0}) → verify env p hash w ≢ (ok x, w')
  unfolding verify
  verify-fails dead p hash w w' x h = go (env.backend.download w p) (dead w p) h
    where
      go :
          (r : Stored Bytes × W)
          → (e : StoreError) × (r.0 ≡ Backend.err e)
          → ◌≡◌ {A = Result (Unit {0}) × W}
              (elim r.0 [
                | Backend.err e ↦ (err (download_failed e), r.1)
                | Backend.ok c ↦
                    if str_eq (env.sha256_hex c) hash
                    then (ok tt, r.1)
                    else (err verification_failed, r.1)
              ])
              (ok x, w')
          → ⊥
      go (Backend.err e, v) d k = cc
      go (Backend.ok c, v) (e, d) k = cc

  retransmit-fails :
      Unreadable
      → (p hash : Bytes) (size : ℤ) (w w' : W) (b : Bool)
      → retransmit env p hash size w ≢ (ok b, w')
  unfolding retransmit
  retransmit-fails dead p hash size w w' b h = go env.is_seeker (env.backend.upload w p size).0 h
    where
      v : W
      v = (env.backend.upload w p size).2

      go :
          (s : Bool) (f : Option StoreError)
          → ◌≡◌ {A = Result Bool × W}
              (if not s then (err verification_failed, w) else elim f [
                | some e ↦ (err (retransmit_failed e), v)
                | none ↦ (do _ ← verify env p hash; give true) v
              ])
              (ok b, w')
          → ⊥
      go false f k = cc
      go true (some e) k = cc
      go true none k =
          let (x, u, done, rest) = bind-ok (verify env p hash) (λ _. give true) v b w' k in
          verify-fails dead p hash v u x done

  -- Where every download fails, a verification that has something to expect fails.
  pub verify_and_retransmit-fails :
      Unreadable
      → (p hash : Bytes) (size : ℤ) (w w' : W) (b : Bool) → hash ≢ []
      → verify_and_retransmit env p hash size w ≢ (ok b, w')
  unfolding verify_and_retransmit
  verify_and_retransmit-fails dead p [] size w w' b some_hash h = some_hash refl
  verify_and_retransmit-fails dead p (c ∷ hash) size w w' b some_hash h =
      go (verify env p (c ∷ hash) w) refl h
    where
      go :
          (r : Result (Unit {0}) × W)
          → verify env p (c ∷ hash) w ≡ r
          → ◌≡◌ {A = Result Bool × W}
              (elim r.0 [
                | ok _ ↦ (ok true, r.1)
                | err verification_failed ↦ retransmit env p (c ∷ hash) size r.1
                | err e ↦ (err e, r.1)
              ])
              (ok b, w')
          → ⊥
      go (ok x, u) e k = verify-fails dead p (c ∷ hash) w u x e
      go (err verification_failed, u) e k = retransmit-fails dead p (c ∷ hash) size u w' b k
      go (err no_configuration, u) e k = cc
      go (err bad_duration, u) e k = cc
      go (err (unknown_buffer_mode m), u) e k = cc
      go (err (seek_failed n), u) e k = cc
      go (err (read_failed n), u) e k = cc
      go (err (upload_failed f), u) e k = cc
      go (err (download_failed f), u) e k = cc
      go (err (retransmit_failed f), u) e k = cc
      go (err (rotation_failed f), u) e k = cc
