-- ===== src/Api/Aws/Signed.antt =====
-- `Authenticate` of internal/api/aws_request.go accepts the requests that are signed, and no others.
use backupgate.Prelude.{
  ◌≡◌, refl, sym, ap, ◌∙◌, ◌↔◌, Bool, true, false, not, List, [], ◌∷◌, ◌++◌, if◌then◌else◌, length,
  drop, All, Bytes, bytes, has_prefix,
}
use backupgate.Auth.Types.{granted}
use backupgate.Auth.Chain.{Chain, GrantsUser, lookup_secret-authenticate}
use backupgate.Auth.Chain
use backupgate.Api.Aws.{
  Library, SignedRequest, header_get, split, algorithm, missing_authorization, accepted, rejected,
  parse_auth_fields, field_of, expected_content_sha256, check_credential, authenticate,
}
use backupgate.Api.Aws.Canonical.{
  v4_signature, IsDigestOf, expected_content_sha256_sound, expected_content_sha256_complete,
}
use backupgate.Api.Aws.Scope.{
  SignsScope, signed_names, check_credential_sound, check_scope_complete,
}

module _ (lib : Library) (chain : Chain) (r : SignedRequest) where
  -- The fields of the header `Authorization`.
  abbrev pub fields_of : List (Bytes × Bytes)
  fields_of =
      parse_auth_fields lib
        (drop (length (algorithm ++ bytes " ")) (header_get r (bytes "Authorization")))

  -- The request is signed by `u`, in a scope of the service s3.
  abbrev pub IsSigned : Bytes → Type 0
  IsSigned u =
      (has_prefix (algorithm ++ bytes " ") (header_get r (bytes "Authorization")) ≡ true)
      × (date : Bytes) × (region : Bytes) × (secret : Bytes) × (split b'/'
            (field_of lib fields_of (bytes "Credential"))
          ≡ u ∷ date ∷ region ∷ bytes "s3" ∷ bytes "aws4_request" ∷ [])
      × SignsScope lib chain r fields_of u date region secret

  pub authenticate-IsSigned_iff :
      (u e : Bytes)
      → (authenticate lib chain r ≡ accepted u e)
        ↔ (IsSigned u × IsDigestOf lib r (signed_names lib chain r fields_of) e)
  unfolding authenticate check_credential
  authenticate-IsSigned_iff u e = (
    λ h.
        let (signed, expected) = sound h in
        (signed, expected_content_sha256_sound lib r names e expected),
    λ h. complete (h.0, expected_content_sha256_complete lib r names e h.1),
  )
    where
      names : List Bytes
      names = signed_names lib chain r fields_of

      credential : List Bytes
      credential = split b'/' (field_of lib fields_of (bytes "Credential"))

      sound :
          authenticate lib chain r ≡ accepted u e
          → IsSigned u × (e ≡ expected_content_sha256 lib r (signed_names lib chain r fields_of) [])
      sound h =
          go (has_prefix (algorithm ++ bytes " ") (header_get r (bytes "Authorization"))) refl h
        where
          go :
              (b : Bool)
              → has_prefix (algorithm ++ bytes " ") (header_get r (bytes "Authorization")) ≡ b
              → (if not b
                  then rejected [] missing_authorization
                  else check_credential lib chain r fields_of credential)
                ≡ accepted u e
              → IsSigned u
                × (e ≡ expected_content_sha256 lib r (signed_names lib chain r fields_of) [])
          go false p t = cc
          go true p t =
              let (expected, date, region, secret, parts, signs) =
                check_credential_sound lib chain r fields_of credential u e t in
              ((p, date, region, secret, parts, signs), expected)

      complete :
          IsSigned u × (e ≡ expected_content_sha256 lib r (signed_names lib chain r fields_of) [])
          → authenticate lib chain r ≡ accepted u e
      complete ((begins, date, region, secret, parts, signs), expected) =
          let passed : check_credential lib chain r fields_of credential ≡ accepted u e =
            ap (check_credential lib chain r fields_of) parts
            ∙ check_scope_complete lib chain r fields_of u date region secret signs
            ∙ ap (accepted u) (sym expected) in
          ap
            (λ b.
              if not b
              then rejected [] missing_authorization
              else check_credential lib chain r fields_of credential)
            begins
          ∙ passed

  -- Where no provider of the chain grants access to another user than that of the request, whoever
  -- signs a request knows a password with which the chain grants the access key access.
  pub authenticate-password :
      (u e key : Bytes)
      → All GrantsUser chain
      → authenticate lib chain r ≡ accepted u e
      → (secret : Bytes) × (Chain.authenticate chain
            (record { key = key; username = u; password = secret })
          ≡ granted u)
        × (date : Bytes) × (region : Bytes) × (field_of lib fields_of (bytes "Signature")
            ≡ v4_signature lib r secret
                (header_get r (bytes "x-amz-date"))
                date
                region
                (signed_names lib chain r fields_of))
  authenticate-password u e key grants h =
      let ((begins, date, region, secret, parts, (found, signed, dated, given, same)), expected) =
        (authenticate-IsSigned_iff u e).0 h in
      (secret, lookup_secret-authenticate chain key u secret grants found, date, region, same)
