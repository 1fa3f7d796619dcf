-- ===== src/Api/Aws/Scope.antt =====
-- `Authenticate` of internal/api/aws_request.go behind the parts of its header.
use backupgate.Prelude.{
  ◌≡◌, refl, sym, ap, ◌∙◌, subst, ◌≢◌, Bool, true, false, not, ◌||◌, Option, none, some, List, [],
  ◌∷◌, if◌then◌else◌, Bytes, bytes, str_eq, str_eq_refl, str_eq_sound, str_eq_complete,
}
use backupgate.Auth.Chain.{Chain, lookup_secret}
use backupgate.Api.Aws.Canonical.{v4_signature, signature-v4}
use backupgate.Api.Aws.{
  Library, SignedRequest, header_get, split, unsupported_scope, unknown_access_key, missing_fields,
  missing_date, signature_mismatch, accepted, rejected, field_of, signature,
  expected_content_sha256, check_scope, check_credential,
}

module _ (lib : Library) (chain : Chain) (r : SignedRequest) where
  abbrev s3 : Bytes
  s3 = bytes "s3"

  abbrev terminal : Bytes
  terminal = bytes "aws4_request"

  -- The names of `SignedHeaders`.
  abbrev pub signed_names : List (Bytes × Bytes) → List Bytes
  signed_names fields = split b';' (field_of lib fields (bytes "SignedHeaders"))

  -- The secret of the access key `u` signs the request for the day and the region, with the names of
  -- the signed headers, which are there like the date.
  abbrev pub SignsScope : List (Bytes × Bytes) → Bytes → Bytes → Bytes → Bytes → Type 0
  SignsScope fields u date region secret =
      (lookup_secret chain u ≡ some secret)
      × (field_of lib fields (bytes "SignedHeaders") ≢ [])
      × (header_get r (bytes "x-amz-date") ≢ [])
      × (field_of lib fields (bytes "Signature") ≢ [])
      × (field_of lib fields (bytes "Signature")
          ≡ v4_signature lib r secret (header_get r (bytes "x-amz-date")) date region
              (signed_names fields))

  nonempty : (s : Bytes) → str_eq s [] ≡ false → s ≢ []
  unfolding str_eq
  nonempty [] h e = cc
  nonempty (c ∷ s) h e = cc

  nonempty_test : (s : Bytes) → s ≢ [] → str_eq s [] ≡ false
  unfolding str_eq
  nonempty_test [] h = elim (h refl) [ ]
  nonempty_test (c ∷ s) h = refl

  check_scope_sound :
      (fields : List (Bytes × Bytes)) (key date region service terminator u e : Bytes)
      → check_scope lib chain r fields key date region service terminator ≡ accepted u e
      → (u ≡ key)
        × (service ≡ s3)
        × (terminator ≡ terminal)
        × (e ≡ expected_content_sha256 lib r (signed_names fields) [])
        × (secret : Bytes) × SignsScope fields key date region secret
  unfolding check_scope
  check_scope_sound fields key date region service terminator u e h =
      go (str_eq service s3) refl (str_eq terminator terminal) refl (lookup_secret chain key) refl h
    where
      signed : Bytes
      signed = field_of lib fields (bytes "SignedHeaders")

      provided : Bytes
      provided = field_of lib fields (bytes "Signature")

      amz_date : Bytes
      amz_date = header_get r (bytes "x-amz-date")

      names : List Bytes
      names = signed_names fields

      Result : Type 0
      Result =
          (u ≡ key)
          × (service ≡ s3)
          × (terminator ≡ terminal)
          × (e ≡ expected_content_sha256 lib r names [])
          × (secret : Bytes) × SignsScope fields key date region secret

      late :
          (secret : Bytes)
          → str_eq service s3 ≡ true
          → str_eq terminator terminal ≡ true
          → lookup_secret chain key ≡ some secret
          → (a b c d : Bool) → str_eq signed [] ≡ a
          → str_eq provided [] ≡ b
          → str_eq amz_date [] ≡ c
          → str_eq (signature lib secret r amz_date date region service names) provided ≡ d
          → (if a || b
              then rejected key missing_fields
              else if c
              then rejected key missing_date
              else if not d
              then rejected key signature_mismatch
              else accepted key (expected_content_sha256 lib r names []))
            ≡ accepted u e
          → Result
      late secret s3_ok t_ok found true b c d p q x y k = cc
      late secret s3_ok t_ok found false true c d p q x y k = cc
      late secret s3_ok t_ok found false false true d p q x y k = cc
      late secret s3_ok t_ok found false false false false p q x y k = cc
      late secret s3_ok t_ok found false false false true p q x y k =
          let service_is : service ≡ s3 = str_eq_sound service s3 s3_ok in
          (
            cc,
            service_is,
            str_eq_sound terminator terminal t_ok,
            cc,
            secret,
            (
              found,
              nonempty signed p,
              nonempty amz_date x,
              nonempty provided q,
              sym (
                    str_eq_sound (signature lib secret r amz_date date region service names)
                      provided y)
                  ∙ ap (λ v. signature lib secret r amz_date date region v names) service_is
                  ∙ signature-v4 lib r secret amz_date date region names,
            ),
          )

      go :
          (a : Bool)
          → str_eq service s3 ≡ a
          → (b : Bool) → str_eq terminator terminal ≡ b
          → (o : Option Bytes) → lookup_secret chain key ≡ o
          → (if not a || not b then rejected key unsupported_scope else elim o [
            | none ↦ rejected key unknown_access_key
            | some secret ↦
                if str_eq signed [] || str_eq provided []
                then rejected key missing_fields
                else if str_eq amz_date []
                then rejected key missing_date
                else if not
                    (str_eq (signature lib secret r amz_date date region service names) provided)
                then rejected key signature_mismatch
                else accepted key (expected_content_sha256 lib r names [])
          ])
            ≡ accepted u e
          → Result
      go false p b q o l k = cc
      go true p false q o l k = cc
      go true p true q none l k = cc
      go true p true q (some secret) l k =
          late secret p q l (str_eq signed []) (str_eq provided []) (str_eq amz_date [])
            (str_eq (signature lib secret r amz_date date region service names) provided) refl refl
            refl refl k

  pub check_scope_complete :
      (fields : List (Bytes × Bytes)) (key date region secret : Bytes)
      → SignsScope fields key date region secret
      → check_scope lib chain r fields key date region s3 terminal
        ≡ accepted key (expected_content_sha256 lib r (signed_names fields) [])
  unfolding check_scope
  check_scope_complete fields key date region secret (found, signed, dated, given, same) =
      rw
        (
          str_eq_refl s3,
          str_eq_refl terminal,
          found,
          nonempty_test (field_of lib fields (bytes "SignedHeaders")) signed,
          nonempty_test (field_of lib fields (bytes "Signature")) given,
          nonempty_test (header_get r (bytes "x-amz-date")) dated,
          str_eq_complete
              (signature lib secret r (header_get r (bytes "x-amz-date")) date region s3
                (signed_names fields))
              (field_of lib fields (bytes "Signature"))
              (signature-v4 lib r secret (header_get r (bytes "x-amz-date")) date region
                  (signed_names fields)
                ∙ sym same),
        )
        refl

  pub check_credential_sound :
      (fields : List (Bytes × Bytes)) (credential : List Bytes) (u e : Bytes)
      → check_credential lib chain r fields credential ≡ accepted u e
      → (e ≡ expected_content_sha256 lib r (signed_names fields) [])
        × (date : Bytes) × (region : Bytes) × (secret : Bytes) × (credential
            ≡ u ∷ date ∷ region ∷ s3 ∷ terminal ∷ [])
        × SignsScope fields u date region secret
  unfolding check_credential
  check_credential_sound fields [] u e h = cc
  check_credential_sound fields (a ∷ []) u e h = cc
  check_credential_sound fields (a ∷ b ∷ []) u e h = cc
  check_credential_sound fields (a ∷ b ∷ c ∷ []) u e h = cc
  check_credential_sound fields (a ∷ b ∷ c ∷ d ∷ []) u e h = cc
  check_credential_sound fields (a ∷ b ∷ c ∷ d ∷ f ∷ x ∷ xs) u e h = cc
  check_credential_sound fields (key ∷ date ∷ region ∷ service ∷ terminator ∷ []) u e h =
      let (who, service_is, terminator_is, expected, secret, signs) =
        check_scope_sound fields key date region service terminator u e h in
      (
        expected,
        date,
        region,
        secret,
        cc,
        subst (λ k. SignsScope fields k date region secret) (sym who) signs,
      )
