-- ===== src/Api/Aws.antt =====
-- internal/api/aws_request.go and the functions of internal/api/s3.go that it uses: the signatures
-- of version 4.
use backupgate.Prelude.{
  ℕ, Bool, true, false, not, ◌&&◌, ◌||◌, none, some, List, [], ◌∷◌, ◌++◌, map, ltb, ◌==◌,
  if◌then◌else◌, length, drop, Bytes, bytes, str_eq, has_prefix,
}
pub mod Canonical
pub mod Scope
pub mod Signed
pub mod Query
pub mod Tests
use backupgate.Sort.{SortSlice}
use backupgate.Config.Keys.{find_key}
use backupgate.Storage.Shell.{join}
use backupgate.Auth.Chain.{Chain, lookup_secret}
use backupgate.Auth.Htpasswd.{cut}

-- What the code uses of Go's library: `strings.ToLower`, `strings.TrimSpace`, the words of
-- `strings.Fields` joined by a space, `strings.EqualFold`, `url.QueryEscape`, SHA-256, HMAC of a key
-- and a text, hexadecimal digits, and the sort of strings.
pub record Library : Type 0 where
  pub to_lower : Bytes → Bytes
  pub trim_space : Bytes → Bytes
  pub one_space : Bytes → Bytes
  pub equal_fold : Bytes → Bytes → Bool
  pub query_escape : Bytes → Bytes
  pub sha256 : Bytes → Bytes
  pub hmac_sha256 : Bytes → Bytes → Bytes
  pub hex : Bytes → Bytes
  pub sorting : SortSlice Bytes

-- What is read of the request: the method, the host, the escaped path, the query as the entries of its
-- map in the order of an iteration, and `Header.Values`.
pub record SignedRequest : Type 0 where
  pub method : Bytes
  pub host : Bytes
  pub escaped_path : Bytes
  pub query : List (Bytes × List Bytes)
  pub header_values : Bytes → List Bytes

-- `Header.Get`
pub header_get : SignedRequest → Bytes → Bytes
header_get r name = elim (r.header_values name) [ [] ↦ [] | v ∷ vs ↦ v ]

-- `strings.Split` by one byte: the first part and the others.
unfoldable pub split_first : ℕ → Bytes → Bytes × List Bytes
split_first sep [] = ([], [])
split_first sep (c ∷ s) =
    let (part, parts) = split_first sep s in
    if c == sep then ([], part ∷ parts) else (c ∷ part, parts)

abbrev pub split : ℕ → Bytes → List Bytes
split sep s = let (part, parts) = split_first sep s in part ∷ parts

-- `<` on strings.
unfoldable pub str_less : Bytes → Bytes → Bool
str_less s [] = false
str_less [] (b ∷ t) = true
str_less (a ∷ s) (b ∷ t) = let rest = str_less s t in ltb a b || (a == b && rest)

abbrev pub algorithm : Bytes
algorithm = bytes "AWS4-HMAC-SHA256"

abbrev pub content_sha256 : Bytes
content_sha256 = bytes "x-amz-content-sha256"

-- The errors of `Authenticate`, in the order of its checks.
pub data SignatureError : Type 0 where
  missing_authorization invalid_scope unsupported_scope unknown_access_key : SignatureError
  missing_fields missing_date signature_mismatch : SignatureError

-- The access key, and the digest of the body that is expected, or an error.
pub data Authenticated : Type 0 where
  accepted : Bytes → Bytes → Authenticated
  rejected : Bytes → SignatureError → Authenticated

-- `areq.body.Digest()` and `ValidateContentHash`, of the body that was read.
pub validate_content_hash : Library → Bytes → Bytes → Bool
validate_content_hash lib expected body = lib.equal_fold expected (lib.hex (lib.sha256 body))

module _ (lib : Library) where
  -- The loop of `parseAuthFields` over the parts; the map's entries are listed from the last one on.
  pub parse_fields : List Bytes → List (Bytes × Bytes) → List (Bytes × Bytes)
  parse_fields [] fields = fields
  parse_fields (part ∷ parts) fields =
      parse_fields parts
        (elim (cut b'=' (lib.trim_space part)) [ none ↦ fields | some field ↦ field ∷ fields ])

  -- `parseAuthFields`
  pub parse_auth_fields : Bytes → List (Bytes × Bytes)
  unfolding parse_fields
  parse_auth_fields s = parse_fields (split b',' s) []

  -- `fields[name]`
  pub field_of : List (Bytes × Bytes) → Bytes → Bytes
  field_of fields name = elim (find_key name fields) [ none ↦ [] | some v ↦ v ]

  -- `strings.ReplaceAll(s, "+", "%20")`
  pub plus_escaped : Bytes → Bytes
  plus_escaped [] = []
  plus_escaped (c ∷ s) =
      let rest = plus_escaped s in if c == b'+' then bytes "%20" ++ rest else c ∷ rest

  -- `awsEscape`
  pub aws_escape : Bytes → Bytes
  unfolding plus_escaped
  aws_escape s = plus_escaped (lib.query_escape s)

  -- The inner loop of `canonicalQuery`: the parts of one key, of its values in their order.
  pub query_parts : Bytes → List Bytes → List Bytes
  query_parts key vals = map (λ val. aws_escape key ++ (b'=' ∷ aws_escape val)) vals

  -- The outer loop.
  pub all_parts : List (Bytes × List Bytes) → List Bytes
  unfolding query_parts
  all_parts [] = []
  all_parts (entry ∷ v) = query_parts entry.0 (lib.sorting.sort str_less entry.1) ++ all_parts v

  -- `canonicalQuery`
  pub canonical_query : List (Bytes × List Bytes) → Bytes
  unfolding all_parts
  canonical_query v = join (bytes "&") (lib.sorting.sort str_less (all_parts v))

  -- `canonicalURI`
  pub canonical_uri : Bytes → Bytes
  canonical_uri [] = bytes "/"
  canonical_uri (c ∷ p) = c ∷ p

  -- The loop of `canonicalRequest`.
  pub canonical_headers : SignedRequest → List Bytes → Bytes
  canonical_headers r [] = []
  canonical_headers r (name ∷ names) =
      let lower = lib.to_lower name in
      let value =
        if str_eq lower (bytes "host") then r.host else join (bytes ",") (r.header_values lower) in
      lower ++ (b':' ∷ (lib.one_space value ++ (10 ∷ canonical_headers r names)))

  -- `canonicalRequest`
  pub canonical_request : SignedRequest → List Bytes → Bytes
  unfolding canonical_uri canonical_query canonical_headers header_get
  canonical_request r signed_headers = join (10 ∷ []) (
      r.method
      ∷ canonical_uri r.escaped_path
      ∷ canonical_query r.query
      ∷ canonical_headers r signed_headers
      ∷ join (bytes ";") signed_headers
      ∷ header_get r content_sha256
      ∷ [])

  -- `sigV4SigningKey`
  pub sig_v4_signing_key : Bytes → Bytes → Bytes → Bytes → Bytes
  sig_v4_signing_key secret date region service =
      let k_date = lib.hmac_sha256 (bytes "AWS4" ++ secret) date in
      let k_region = lib.hmac_sha256 k_date region in
      let k_service = lib.hmac_sha256 k_region service in
      lib.hmac_sha256 k_service (bytes "aws4_request")

  -- `stringToSign`
  pub string_to_sign : SignedRequest → Bytes → Bytes → Bytes → Bytes → List Bytes → Bytes
  unfolding canonical_request
  string_to_sign r amz_date date region service signed_headers =
      let scope = join (bytes "/") (date ∷ region ∷ service ∷ bytes "aws4_request" ∷ []) in
      join (10 ∷ []) (
        algorithm
        ∷ amz_date
        ∷ scope
        ∷ lib.hex (lib.sha256 (canonical_request r signed_headers))
        ∷ [])

  -- `expected`
  pub signature : Bytes → SignedRequest → Bytes → Bytes → Bytes → Bytes → List Bytes → Bytes
  unfolding sig_v4_signing_key string_to_sign
  signature secret r amz_date date region service signed_headers = lib.hex (
      lib.hmac_sha256 (sig_v4_signing_key secret date region service)
        (string_to_sign r amz_date date region service signed_headers))

  -- The last loop of `Authenticate`: the digest expected, where `x-amz-content-sha256` is signed.
  pub expected_content_sha256 : SignedRequest → List Bytes → Bytes → Bytes
  unfolding header_get
  expected_content_sha256 r [] expected = expected
  expected_content_sha256 r (s ∷ names) expected =
      expected_content_sha256 r names
        (if lib.equal_fold s content_sha256 then header_get r s else expected)

  -- `Authenticate` with the parts of the credential.
  pub check_scope :
      Chain
      → SignedRequest
      → List (Bytes × Bytes)
      → Bytes
      → Bytes
      → Bytes
      → Bytes
      → Bytes
      → Authenticated
  unfolding field_of signature expected_content_sha256
  check_scope chain r fields access_key date region service terminator =
      let signed_headers = field_of fields (bytes "SignedHeaders") in
      let provided = field_of fields (bytes "Signature") in
      let names = split b';' signed_headers in
      let amz_date = header_get r (bytes "x-amz-date") in
      if not (str_eq service (bytes "s3")) || not (str_eq terminator (bytes "aws4_request"))
      then rejected access_key unsupported_scope
      else elim (lookup_secret chain access_key) [
        | none ↦ rejected access_key unknown_access_key
        | some secret ↦
            if str_eq signed_headers [] || str_eq provided []
            then rejected access_key missing_fields
            else if str_eq amz_date []
            then rejected access_key missing_date
            else if not (str_eq (signature secret r amz_date date region service names) provided)
            then rejected access_key signature_mismatch
            else accepted access_key (expected_content_sha256 r names [])
      ]

  -- `len(credential) != 5`, and the parts of the credential.
  pub check_credential : Chain → SignedRequest → List (Bytes × Bytes) → List Bytes → Authenticated
  unfolding check_scope
  check_credential chain r fields (key ∷ date ∷ region ∷ service ∷ terminator ∷ []) =
      check_scope chain r fields key date region service terminator
  check_credential chain r fields _ = rejected [] invalid_scope

  -- `(*AwsRequest).Authenticate`
  pub authenticate : Chain → SignedRequest → Authenticated
  unfolding check_credential parse_auth_fields
  authenticate chain r =
      let authorization = header_get r (bytes "Authorization") in
      if not (has_prefix (algorithm ++ bytes " ") authorization)
      then rejected [] missing_authorization
      else (let fields = parse_auth_fields (drop (length (algorithm ++ bytes " ")) authorization) in
          check_credential chain r fields (split b'/' (field_of fields (bytes "Credential"))))
