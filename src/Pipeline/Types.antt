-- ===== src/Pipeline/Types.antt =====
-- The types of internal/pipeline, and what the package uses of its surroundings.
use backupgate.Prelude.{ℕ, ◌≡◌, refl, Bool, Option, Bytes}
use backupgate.Prelude.Int.{ℤ}
use backupgate.Storage.Backend.{StoreError, Backend}
use backupgate.Rotation.{Surroundings}

-- `UploadMetadata`
pub record UploadMetadata : Type 0 where
  pub content_length : ℤ
  pub expected_sha256 : Bytes

-- `UploadResult`
pub record UploadResult : Type 0 where
  pub key : Bytes
  pub size : ℤ
  pub sha256 : Bytes
  pub md5 : Bytes
  pub storage_path : Bytes
  pub verified : Bool

-- The errors, by the step that returns them. `verification_failed` is ErrVerificationFailed.
pub data PipelineError : Type 0 where
  no_configuration verification_failed bad_duration : PipelineError
  unknown_buffer_mode : Bytes → PipelineError
  seek_failed read_failed : ℕ → PipelineError
  upload_failed download_failed retransmit_failed rotation_failed : StoreError → PipelineError

-- `(T, error)`
pub data Result {ℓ} (A : Type ℓ) : Type ℓ where
  ok : A → Result A
  err : PipelineError → Result A

-- The surroundings of one upload whose state is `W`: the backend with the body's reader, its
-- `Upload` of the hashing reader around the body, which is no io.Seeker, the body's reader itself
-- (`read_all` is io.Copy from it), digests in hexadecimal, `strings.EqualFold`, the clock as text
-- and as an instant, and the functions of the packages path and time.
pub record Env (W : Type 0) : Type 0 where
  pub backend : Backend W
  pub hashing_upload : W → Bytes → ℤ → Option StoreError × Bytes × W
  pub is_seeker : Bool
  pub seek_start : W → Option ℕ × W
  pub read_all : W → Bytes × Option ℕ × W
  pub body_size : W → ℤ
  pub sha256_hex : Bytes → Bytes
  pub md5_hex : Bytes → Bytes
  pub equal_fold : Bytes → Bytes → Bool
  pub timestamp : Bytes
  pub now : ℤ
  pub path_clean : Bytes → Bytes
  pub path_base : Bytes → Bytes
  pub path_dir : Bytes → Bytes
  pub path_join : Bytes → Bytes → Bytes
  pub parse_duration : Bytes → Option ℤ
  pub rotation : Surroundings

-- A step with the state and an error.
abbrev pub M : Type 0 → Type 0 → Type 0
M W A = W → Result A × W

infixl 5 ◌>>=◌
abbrev pub ◌>>=◌ : {W A B : Type 0} → M W A → (A → M W B) → M W B
◌>>=◌ m f w = let (r, w') = m w in elim r [ ok a ↦ f a w' | err e ↦ (err e, w') ]

abbrev pub give : {W A : Type 0} → A → M W A
give a w = (ok a, w)

abbrev pub fail : {W A : Type 0} → PipelineError → M W A
fail e w = (err e, w)

-- Inversion of a successful step.
pub bind-ok :
    {W A B : Type 0} (m : M W A) (f : A → M W B) (w : W) (b : B) (w' : W)
    → ◌>>=◌ m f w ≡ (ok b, w')
    → (a : A) × (v : W) × (m w ≡ (ok a, v)) × (f a v ≡ (ok b, w'))
bind-ok {W} {A} m f w b w' h = go (m w) refl h
  where
    go :
        (p : Result A × W)
        → m w ≡ p
        → elim p.0 [ ok a ↦ f a p.1 | err e ↦ (err e, p.1) ] ≡ (ok b, w')
        → (a : A) × (v : W) × (m w ≡ (ok a, v)) × (f a v ≡ (ok b, w'))
    go (ok a, v) e k = (a, v, e, k)
    go (err x, v) e k = cc
