-- ===== src/Api/Aws/Tests.antt =====
-- A signed request, with a toy cryptography.
use backupgate.Prelude.{◌≡◌, refl, List, [], ◌∷◌, if◌then◌else◌, Bytes, bytes, str_eq, has_prefix}
use backupgate.Sort.{insertion_sort, Rearranged, swap}
use backupgate.Config.Keys.{find_key}
use backupgate.Auth.Chain.{Chain, credentials, lookup_secret, find_secret}
use backupgate.Auth.Htpasswd.{cut}
use backupgate.Api.Aws.{
  Library, SignedRequest, accepted, header_get, parse_auth_fields, parse_fields, split_first,
  field_of, authenticate, check_credential, check_scope, signature, sig_v4_signing_key,
  expected_content_sha256, canonical_query,
}
use backupgate.Api.Aws.Query.{parameters, canonical_query-Rearranged}

-- A signature is the key, and all else is left as it is.
abbrev pub library : Library
library = record {
  to_lower = λ s. s;
  trim_space = λ s. s;
  one_space = λ s. s;
  equal_fold = str_eq;
  query_escape = λ s. s;
  sha256 = λ s. s;
  hmac_sha256 = λ k s. k;
  hex = λ s. s;
  sorting = insertion_sort Bytes;
}

abbrev pub ann : Chain
ann = credentials (record { username = bytes "ann"; password = bytes "pw" } ∷ []) ∷ []

abbrev authorization : Bytes
authorization =
    bytes "AWS4-HMAC-SHA256 Credential=ann/d/r/s3/aws4_request,SignedHeaders=host,Signature=AWS4pw"

abbrev headers : Bytes → List Bytes
headers name =
    if str_eq name (bytes "Authorization")
    then authorization ∷ []
    else if str_eq name (bytes "x-amz-date")
    then bytes "d" ∷ []
    else []

abbrev pub signed_request : SignedRequest
signed_request = record {
  method = bytes "PUT";
  host = bytes "h";
  escaped_path = bytes "/db";
  query = [];
  header_values = headers;
}

pub accepts : authenticate library ann signed_request ≡ accepted (bytes "ann") []
unfolding authenticate header_get str_eq has_prefix parse_auth_fields parse_fields cut split_first
    field_of find_key check_credential check_scope lookup_secret find_secret signature
    sig_v4_signing_key expected_content_sha256
accepts = refl

-- The query `b=2&a=1` in two orders.
abbrev ab : List (Bytes × List Bytes)
ab = (bytes "a", bytes "1" ∷ []) ∷ (bytes "b", bytes "2" ∷ []) ∷ []

abbrev ba : List (Bytes × List Bytes)
ba = (bytes "b", bytes "2" ∷ []) ∷ (bytes "a", bytes "1" ∷ []) ∷ []

exchanged : Rearranged (parameters ab) (parameters ba)
unfolding parameters
exchanged = swap (bytes "a", bytes "1") (bytes "b", bytes "2") []

canonical_query-Rearranged_example : canonical_query library ab ≡ canonical_query library ba
canonical_query-Rearranged_example = canonical_query-Rearranged library ab ba exchanged
