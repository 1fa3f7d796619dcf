-- ===== src/Api/Aws/Canonical.antt =====
-- The signature of version 4 as its documentation writes it, and the header with the digest of the
-- body, against `expected` and `ExpectedContentSHA256` of internal/api/aws_request.go.
use backupgate.Prelude.{
  ◌≡◌, refl, sym, ap, ap₂, ◌∙◌, ◌⊎◌, inl, inr, Bool, true, false, List, [], ◌∷◌, ◌++◌, map,
  append_assoc, if◌then◌else◌, Bool-cases, All, Bytes, bytes, str_eq,
}
use backupgate.Storage.Shell.{join}
use backupgate.Api.Aws.{
  Library, SignedRequest, header_get, str_less, content_sha256, aws_escape, all_parts,
  canonical_query, canonical_uri, canonical_headers, canonical_request, signature,
  expected_content_sha256, query_parts, sig_v4_signing_key, string_to_sign,
}

abbrev pub concat : {A : Type 0} → List (List A) → List A
concat [] = []
concat (l ∷ ls) = l ++ concat ls

-- The path, which is not empty.
abbrev path_or_root : Bytes → Bytes
path_or_root p = if str_eq p [] then bytes "/" else p

module _ (lib : Library) (r : SignedRequest) where
  -- The parts `name=value` of the query.
  abbrev query_pairs : List Bytes
  query_pairs = concat (
      map
        (λ entry.
          map (λ val. aws_escape lib entry.0 ++ (b'=' ∷ aws_escape lib val))
            (lib.sorting.sort str_less entry.1))
        r.query)

  -- The line of a header: its name in small letters, a colon and its values, and the host of the
  -- request where it is that.
  abbrev header_line : Bytes → Bytes
  header_line name =
      lib.to_lower name
      ++ (b':'
          ∷ (lib.one_space (
                if str_eq (lib.to_lower name) (bytes "host")
                then r.host
                else join (bytes ",") (r.header_values (lib.to_lower name)))
              ++ (10 ∷ [])))

  -- The text that is hashed.
  abbrev pub request_text : List Bytes → Bytes
  request_text names = join (10 ∷ []) (
      r.method
      ∷ path_or_root r.escaped_path
      ∷ join (bytes "&") (lib.sorting.sort str_less query_pairs)
      ∷ concat (map header_line names)
      ∷ join (bytes ";") names
      ∷ header_get r (bytes "x-amz-content-sha256")
      ∷ [])

  -- The signature by `secret` for the day `date` and a region, of the service s3.
  abbrev pub v4_signature : Bytes → Bytes → Bytes → Bytes → List Bytes → Bytes
  v4_signature secret amz_date date region names = lib.hex (
      lib.hmac_sha256
        (lib.hmac_sha256
          (lib.hmac_sha256 (lib.hmac_sha256 (lib.hmac_sha256 (bytes "AWS4" ++ secret) date) region)
            (bytes "s3"))
          (bytes "aws4_request"))
        (join (10 ∷ []) (
          bytes "AWS4-HMAC-SHA256"
          ∷ amz_date
          ∷ join (bytes "/") (date ∷ region ∷ bytes "s3" ∷ bytes "aws4_request" ∷ [])
          ∷ lib.hex (lib.sha256 (request_text names))
          ∷ [])))

  all_parts-concat :
      (query : List (Bytes × List Bytes))
      → all_parts lib query
        ≡ concat (
            map
              (λ entry.
                map
                  (λ val. aws_escape lib entry.0 ++ (b'=' ∷ aws_escape lib val))
                  (lib.sorting.sort str_less entry.1))
              query)
  unfolding all_parts query_parts
  all_parts-concat [] = refl
  all_parts-concat (entry ∷ query) =
      ap (λ l. query_parts lib entry.0 (lib.sorting.sort str_less entry.1) ++ l)
        (all_parts-concat query)

  canonical_headers-concat :
      (names : List Bytes) → canonical_headers lib r names ≡ concat (map header_line names)
  unfolding canonical_headers
  canonical_headers-concat [] = refl
  canonical_headers-concat (name ∷ names) =
      let lower = lib.to_lower name in
      let value : Bytes = lib.one_space (
        if str_eq lower (bytes "host") then r.host else join (bytes ",") (r.header_values lower)) in
      let rest = concat (map header_line names) in
      ap (λ l. lower ++ (b':' ∷ (value ++ (10 ∷ l)))) (canonical_headers-concat names)
      ∙ ap (λ l. lower ++ (b':' ∷ l)) (sym (append_assoc value (10 ∷ []) rest))
      ∙ sym (append_assoc lower (b':' ∷ (value ++ (10 ∷ []))) rest)

  canonical_uri-root : (p : Bytes) → canonical_uri lib p ≡ path_or_root p
  unfolding canonical_uri str_eq
  canonical_uri-root [] = refl
  canonical_uri-root (c ∷ p) = refl

  canonical_request-text : (names : List Bytes) → canonical_request lib r names ≡ request_text names
  unfolding canonical_request canonical_query
  canonical_request-text names =
      ap
        (λ p. join (10 ∷ []) (
          r.method
          ∷ p
          ∷ join (bytes "&") (lib.sorting.sort str_less (all_parts lib r.query))
          ∷ canonical_headers lib r names
          ∷ join (bytes ";") names
          ∷ header_get r content_sha256
          ∷ []))
        (canonical_uri-root r.escaped_path)
      ∙ ap₂
          (λ q l. join (10 ∷ []) (
            r.method
            ∷ path_or_root r.escaped_path
            ∷ join (bytes "&") (lib.sorting.sort str_less q)
            ∷ l
            ∷ join (bytes ";") names
            ∷ header_get r content_sha256
            ∷ []))
          (all_parts-concat r.query) (canonical_headers-concat names)

  -- The signature that the code expects is that of version 4.
  pub signature-v4 :
      (secret amz_date date region : Bytes) (names : List Bytes)
      → signature lib secret r amz_date date region (bytes "s3") names
        ≡ v4_signature secret amz_date date region names
  unfolding signature sig_v4_signing_key string_to_sign
  signature-v4 secret amz_date date region names =
      ap
        (λ text. lib.hex (
          lib.hmac_sha256 (sig_v4_signing_key lib secret date region (bytes "s3")) (
            join (10 ∷ []) (
              bytes "AWS4-HMAC-SHA256"
              ∷ amz_date
              ∷ join (bytes "/") (date ∷ region ∷ bytes "s3" ∷ bytes "aws4_request" ∷ [])
              ∷ lib.hex (lib.sha256 text)
              ∷ []))))
        (canonical_request-text names)

  -- The name of the header with the digest of the body, in any letters, or another one.
  abbrev IsDigestName : Bytes → Bool → Type 0
  IsDigestName name b = lib.equal_fold name (bytes "x-amz-content-sha256") ≡ b

  -- `e` is what the last of the names says that is the name of the digest's header, or empty if none
  -- of them is.
  abbrev pub IsDigestOf : List Bytes → Bytes → Type 0
  IsDigestOf names e =
      ((before : List Bytes) × (name : Bytes) × (after : List Bytes) × (names
          ≡ before ++ (name ∷ after))
        × IsDigestName name true
        × All (λ n. IsDigestName n false) after
        × (e ≡ header_get r name))
      ⊎ (All (λ n. IsDigestName n false) names × (e ≡ []))

  expected_content_sha256-none :
      (names : List Bytes) (d : Bytes)
      → All (λ n. IsDigestName n false) names
      → expected_content_sha256 lib r names d ≡ d
  unfolding expected_content_sha256
  expected_content_sha256-none [] d h = refl
  expected_content_sha256-none (n ∷ names) d (h, hs) =
      ap (λ b. expected_content_sha256 lib r names (if b then header_get r n else d)) h
      ∙ expected_content_sha256-none names d hs

  expected_content_sha256-last :
      (before : List Bytes) (name : Bytes) (after : List Bytes) (d : Bytes)
      → IsDigestName name true
      → All (λ n. IsDigestName n false) after
      → expected_content_sha256 lib r (before ++ (name ∷ after)) d ≡ header_get r name
  unfolding expected_content_sha256
  expected_content_sha256-last [] name after d h hs =
      ap (λ b. expected_content_sha256 lib r after (if b then header_get r name else d)) h
      ∙ expected_content_sha256-none after (header_get r name) hs
  expected_content_sha256-last (n ∷ before) name after d h hs =
      expected_content_sha256-last before name after
        (if lib.equal_fold n content_sha256 then header_get r n else d) h hs

  last_or_none :
      (names : List Bytes)
      → ((before : List Bytes) × (name : Bytes) × (after : List Bytes) × (names
            ≡ before ++ (name ∷ after))
          × IsDigestName name true
          × All (λ n. IsDigestName n false) after)
        ⊎ All (λ n. IsDigestName n false) names
  last_or_none [] = inr tt
  last_or_none (n ∷ names) = elim (last_or_none names) [
    | inl (before, name, after, split_at, h, hs) ↦
        inl (n ∷ before, name, after, ap (λ l. n ∷ l) split_at, h, hs)
    | inr none_behind ↦ elim (Bool-cases (lib.equal_fold n content_sha256)) [
      | inl h ↦ inl ([], n, names, refl, h, none_behind)
      | inr h ↦ inr (h, none_behind)
    ]
  ]

  pub expected_content_sha256_sound :
      (names : List Bytes) (e : Bytes)
      → e ≡ expected_content_sha256 lib r names []
      → IsDigestOf names e
  expected_content_sha256_sound names e h = elim (last_or_none names) [
    | inl (before, name, after, split_at, is_name, hs) ↦ inl (
      before,
      name,
      after,
      split_at,
      is_name,
      hs,
      h
          ∙ ap (λ l. expected_content_sha256 lib r l []) split_at
          ∙ expected_content_sha256-last before name after [] is_name hs,
    )
    | inr hs ↦ inr (hs, h ∙ expected_content_sha256-none names [] hs)
  ]

  pub expected_content_sha256_complete :
      (names : List Bytes) (e : Bytes)
      → IsDigestOf names e
      → e ≡ expected_content_sha256 lib r names []
  expected_content_sha256_complete names e
        (inl (before, name, after, split_at, is_name, hs, same)) =
      same
      ∙ sym (expected_content_sha256-last before name after [] is_name hs)
      ∙ ap (λ l. expected_content_sha256 lib r l []) (sym split_at)
  expected_content_sha256_complete names e (inr (hs, same)) =
      same ∙ sym (expected_content_sha256-none names [] hs)
