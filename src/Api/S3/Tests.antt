-- ===== src/Api/S3/Tests.antt =====
-- Runs of the S3 protocol on files in memory.
use backupgate.Prelude.{ℕ, ◌≡◌, ◌⊎◌, true, none, some, [], Bytes, bytes}
use backupgate.Prelude.Int.{ℤ, pos}
use backupgate.Sort.{insertion_sort}
use backupgate.Auth.Chain.{Chain}
use backupgate.Pipeline.Process.Tests.{Files, env, no_files}
use backupgate.Api.Keys.{extract_key, auth_chain}
use backupgate.Api.Http.Tests.{handler}
use backupgate.Api.Aws.Signed.{IsSigned}
use backupgate.Api.Aws.Tests.{library, signed_request}
use backupgate.Api.S3.{S3Handler, Request, Response, serve_s3}
use backupgate.Api.S3.Guarded.{serve_s3-guarded}

abbrev s3_handler : S3Handler Files ℕ
s3_handler = record {
  handler = handler;
  library = library;
  new_id = some (bytes "i");
  part_buffer = some 1;
  part_copied = λ r. some (pos 4, bytes "e");
  ints = insertion_sort ℤ;
  parts_pipeline = λ bs. env;
}

abbrev put : Request
put = record {
  path = bytes "/db";
  signed = signed_request;
  content_length = pos 4;
  body = bytes "dump";
  readable = true;
  part_number = none;
  requested = [];
}

serve_s3-guarded_example :
    ((answer : Response) × (serve_s3 s3_handler put no_files [] ≡ (answer, [], no_files, [], [])))
    ⊎ ((user : Bytes) × (chain : Chain) × (auth_chain handler.auths (extract_key (bytes "/db"))
          ≡ some chain)
        × IsSigned library chain signed_request user)
serve_s3-guarded_example = serve_s3-guarded s3_handler put no_files []
